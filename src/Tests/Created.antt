-- ===== src/Tests/Created.antt =====
-- No resource is there; process 100 creates number 1, of type 2, and opens it.
use disastr_os_queues.Base.{
  refl, [], ◌∷◌, ◌+◌, ◌≤◌, arith, pos, ◌==◌, if◌then◌else◌, has_flag, count, one,
}
use disastr_os_queues.LinkedList.{Ptr}
use disastr_os_queues.LinkedList.Walk.{first_match}
use disastr_os_queues.Files.{internal_open_resource}
use disastr_os_queues.Files.Created.{Creatable, Created, internal_open_resource-Created}
use disastr_os_queues.Kernel.{System, ProcessStatus, Pcb, Ends, int, create_flag}
use disastr_os_queues.Tests.{sample, sample_pcbs, sample_pools, empty_list, pcb, waiting-IsList}
use disastr_os_queues.Tests.Queues.{one_free, one_free-IsPool, one_free-IsPlaced}

abbrev creator : Pcb
creator = record (pcb (pos 1) ProcessStatus.running empty_list) {
  syscall_args = λ i. int (pos (if i == 0 then 1 else if i == 1 then 2 else create_flag));
}

abbrev no_resources : System
no_resources = record sample {
  pcbs = λ p. if p == 100 then creator else sample_pcbs p;
  resources_list = empty_list;
  pools = record sample_pools {
    resources = one_free 7000;
    descriptor = one_free 12000;
    descriptor_ptr = one_free 13000;
  };
}

blocks_apart : (a : Ptr) → count a (7000 ∷ 12000 ∷ 13000 ∷ []) + count a [] + count a [] ≤ 1
unfolding one
blocks_apart a = ground arith

abbrev creatable : Creatable no_resources
creatable = record {
  rs = [];
  ds = [];
  h = 0;
  i = 0;
  j = 0;
  left = [];
  free = [];
  frees = [];
  some = refl;
  pool_resource = one_free-IsPool 7000;
  placed_resource = one_free-IsPlaced 7000 (omega arith) (omega arith);
  pool = one_free-IsPool 12000;
  placed = one_free-IsPlaced 12000 (omega arith) (omega arith);
  pool_ptr = one_free-IsPool 13000;
  placed_ptr = one_free-IsPlaced 13000 (omega arith) (omega arith);
  resources = waiting-IsList;
  mine = waiting-IsList;
  apart = blocks_apart;
}

internal_open_resource-Created_example :
    Ends
      (λ _ t. Created no_resources (pos 1) (pos 2) 7000 12000 13000 [] [] t)
      (internal_open_resource 9 no_resources)
unfolding first_match has_flag
internal_open_resource-Created_example =
    internal_open_resource-Created no_resources (pos 1) (pos 2) creatable 9 (pos create_flag) refl
      refl refl (omega arith) refl refl
