-- ===== src/Tests/Joined.antt =====
-- Process 100 has the resource 7000 open as descriptor 3, which has no queue yet.
use disastr_os_queues.Base.{
  ◌≡◌, refl, true, [], ◌∷◌, ◌+◌, ◌≤◌, arith, pos, ◌==◌, if◌then◌else◌, count, one, has,
}
use disastr_os_queues.LinkedList.{Ptr, null}
use disastr_os_queues.LinkedList.Walk.{first_match}
use disastr_os_queues.PoolAllocator.{PoolAllocator, null_idx, detached_idx}
use disastr_os_queues.PoolAllocator.Free.{IsPool, IsPlaced}
use disastr_os_queues.Files.{internal_open_queue}
use disastr_os_queues.Files.Open.{IsOpen}
use disastr_os_queues.Files.Joined.{Made, internal_open_queue-Made}
use disastr_os_queues.Kernel.{System, ProcessStatus, Pcb, Ends, int, rdonly, wronly}
use disastr_os_queues.Tests.{sample_pcbs, sample_pools, list_of, empty_list, pcb, full_pool}
use disastr_os_queues.Tests.Queues.{
  empty_queue, one_free, one_free-IsPool, one_free-IsPlaced, one-IsList,
}

abbrev three_free : PoolAllocator
three_free = record (full_pool 10000) {
  free_list = λ i.
      if i == 0 then pos 1 else if i == 1 then pos 2 else if i == 2 then null_idx else detached_idx;
  size = pos 3;
  first_idx = pos 0;
}

three_free-IsPool : IsPool three_free (0 ∷ 1 ∷ 2 ∷ [])
three_free-IsPool = record {
  chain = (refl, omega arith, (refl, omega arith, (refl, omega arith, refl)));
  distinct = (refl, (refl, (refl, tt)));
  size = refl;
  detached = λ i lt out. ground arith;
}

three_free-IsPlaced : IsPlaced three_free
three_free-IsPlaced = record {
  item_pos = omega arith;
  buffer_pos = omega arith;
  small = omega arith;
  space = omega arith;
}

abbrev joiner : Pcb
joiner = record (pcb (pos 1) ProcessStatus.running empty_list) {
  descriptors = list_of 12000 12000 1;
  syscall_args = λ i. int (pos (if i == 0 then 1 else if i == 1 then 3 else rdonly + wronly));
}

abbrev without_queue : System
without_queue = record empty_queue {
  pcbs = λ p. if p == 100 then joiner else sample_pcbs p;
  resources = λ _. record {
    id = pos 1;
    type = pos 2;
    descriptors_ptrs = list_of 13000 13000 1;
    value = null;
  };
  resources_list = list_of 7000 7000 1;
  pools = record sample_pools { queues = one_free 8000; queue_users = three_free };
}

without_queue-IsOpen : IsOpen without_queue 9 (pos 3) 12000 null
unfolding first_match
without_queue-IsOpen = record {
  running_some = refl;
  opened = 12000 ∷ [];
  list = one-IsList 12000 refl refl refl;
  fuel = omega arith;
  found = refl;
  ds_some = refl;
  resource_some = refl;
  value = refl;
}

unlinked :
    (p : Ptr)
    → has p (10000 ∷ 10040 ∷ 10080 ∷ []) ≡ true
    → ((without_queue.items p).next ≡ null) × ((without_queue.items p).prev ≡ null)
unlinked p h = ground arith

users_apart : (p : Ptr) → count p (10000 ∷ 10040 ∷ 10080 ∷ []) ≤ 1
unfolding one
users_apart p = ground arith

internal_open_queue-Made_example :
    Ends
      (λ _ t.
        Made three_free without_queue 8000 7000 12000
          (0 ∷ 1 ∷ 2 ∷ [])
          (pos (rdonly + wronly))
          (pos 3)
          t)
      (internal_open_queue 9 without_queue)
unfolding first_match
internal_open_queue-Made_example =
    internal_open_queue-Made without_queue 9 (pos 3) (pos (rdonly + wronly)) (pos 1) 12000 7000
      (7000 ∷ []) 0 [] (0 ∷ 1 ∷ 2 ∷ []) without_queue-IsOpen refl refl (one_free-IsPool 8000)
      (one_free-IsPlaced 8000 (omega arith) (omega arith)) three_free-IsPool three_free-IsPlaced
      (omega arith) unlinked users_apart refl refl refl (one-IsList 7000 refl refl refl)
      (omega arith) refl
