-- ===== src/Tests/Files.antt =====
-- Process 100 opens and closes the resource 7000, makes calls on its queue that are refused, and
-- spawns a process.
use disastr_os_queues.Base.{
  ◌≡◌, refl, true, false, has, [], ◌∷◌, arith, pos, ◌+◌, ◌<◌, has_flag, ◌≤◌, ◌==◌, if◌then◌else◌,
  one, count,
}
use disastr_os_queues.LinkedList.{Ptr}
use disastr_os_queues.LinkedList.Walk.{first_match}
use disastr_os_queues.PoolAllocator.Free.{IsPool, IsPlaced}
use disastr_os_queues.Files.{
  internal_open_resource, internal_close_resource, internal_destroy_resource,
}
use disastr_os_queues.Files.Destroyed.{IsIdle, Destroyed, internal_destroy_resource-Destroyed}
use disastr_os_queues.Files.Opened.Steps.{Openable}
use disastr_os_queues.Files.Opened.{Opened}
use disastr_os_queues.Files.Refusals.{
  internal_open_resource_refused, internal_destroy_resource_refused,
}
use disastr_os_queues.Files.Closed.{Closed, internal_close_resource-Closed}
use disastr_os_queues.Process.{internal_spawn}
use disastr_os_queues.Process.Spawned.Steps.{Spawnable}
use disastr_os_queues.Process.Spawned.{Spawned, internal_spawn-Spawned}
use disastr_os_queues.Dmq.{dmq_send, dmq_receive}
use disastr_os_queues.Dmq.Refusals.{dmq_send_refused, dmq_receive_refused}
use disastr_os_queues.Messages.{internal_send_message}
use disastr_os_queues.Messages.Bound.{Bounded, internal_send_message-Bounded}
use disastr_os_queues.Kernel.{
  System, ProcessStatus, int, pointer, retvalue, eresourceopen, eresourceinuse, Pcb, Ends, ok,
  msg_too_big, action_not_allowed,
}
use disastr_os_queues.Tests.{
  sample, sample_pcbs, sample_pools, list_of, empty_list, pcb, full_pool, waiting-IsList,
  ready-IsList,
}
use disastr_os_queues.Tests.Queues.{
  one_free, one_free-IsPool, one_free-IsPlaced, one-IsList, empty_queue, empty-IsOpen,
}

abbrev opener : Pcb
opener = record (pcb (pos 1) ProcessStatus.running empty_list) {
  syscall_args = λ i. if i == 0 then int (pos 1) else int (pos 0);
}

abbrev not_open : System
not_open = record sample {
  pcbs = λ p. if p == 100 then opener else sample_pcbs p;
  resources_list = list_of 7000 7000 1;
  pools = record sample_pools { descriptor = one_free 12000; descriptor_ptr = one_free 13000 };
}

blocks_apart : (a : Ptr) → count a (12000 ∷ 13000 ∷ []) + count a [] + count a [] ≤ 1
unfolding one
blocks_apart a = ground arith

not_open-Openable : Openable not_open 7000
not_open-Openable = record {
  ds = [];
  es = [];
  i = 0;
  j = 0;
  free = [];
  frees = [];
  some = refl;
  res_some = refl;
  pool = one_free-IsPool 12000;
  placed = one_free-IsPlaced 12000 (omega arith) (omega arith);
  pool_ptr = one_free-IsPool 13000;
  placed_ptr = one_free-IsPlaced 13000 (omega arith) (omega arith);
  mine = waiting-IsList;
  openers = waiting-IsList;
  apart = blocks_apart;
}

-- Process 100 takes the resource for one of type 3.
abbrev mistaken : System
mistaken = record not_open {
  pcbs = λ p.
      if p == 100
      then record (pcb (pos 1) ProcessStatus.running empty_list) {
        syscall_args =
            λ i. if i == 0 then int (pos 1) else if i == 1 then int (pos 3) else int (pos 0);
      }
      else sample_pcbs p;
}

internal_open_resource_refused_example :
    internal_open_resource 9 mistaken ≡ retvalue eresourceopen mistaken
unfolding first_match has_flag
internal_open_resource_refused_example =
    internal_open_resource_refused mistaken 9 (pos 1) (pos 3) (pos 0) eresourceopen (7000 ∷ []) 7000
      refl refl refl refl (one-IsList 7000 refl refl refl) (omega arith) refl refl

abbrev closer : Pcb
closer = record (pcb (pos 1) ProcessStatus.running empty_list) {
  descriptors = list_of 12000 12000 1;
  syscall_args = λ i. int (pos 0);
}

abbrev opened : System
opened = record sample {
  pcbs = λ p. if p == 100 then closer else sample_pcbs p;
  resources = λ p. record (sample.resources p) { descriptors_ptrs = list_of 13000 13000 1 };
}

pub full_pool-IsPool : (p : Ptr) → IsPool (full_pool p) []
full_pool-IsPool p = record {
  chain = refl;
  distinct = tt;
  size = refl;
  detached = λ i lt out. refl;
}

pub full_pool-IsPlaced : (p : Ptr) → 0 < p → p < 20000 → IsPlaced (full_pool p)
full_pool-IsPlaced p h k = record {
  item_pos = omega arith;
  buffer_pos = h;
  small = omega arith;
  space = omega arith;
}

lists_apart : (a : Ptr) → count a (12000 ∷ []) + count a (13000 ∷ []) ≤ 1
unfolding one
lists_apart a = ground arith

internal_close_resource-Closed_example :
    Ends (λ _ t. Closed opened 7000 0 0 [] [] [] [] t) (internal_close_resource 9 opened)
unfolding first_match
internal_close_resource-Closed_example =
    internal_close_resource-Closed opened 7000 [] [] [] [] 0 0 [] [] refl (full_pool-IsPool 12000)
      (full_pool-IsPlaced 12000 (omega arith) (omega arith)) (omega arith) refl
      (full_pool-IsPool 13000) (full_pool-IsPlaced 13000 (omega arith) (omega arith)) (omega arith)
      refl (one-IsList 12000 refl refl refl) refl refl refl (one-IsList 13000 refl refl refl)
      lists_apart 9 (pos 0) refl (omega arith) refl

dmq_send_refused_example : dmq_send 9 (pos 3) 3000 (pos 41) empty_queue ≡ ok msg_too_big empty_queue
dmq_send_refused_example =
    dmq_send_refused empty_queue 9 (pos 3) 12000 8000 empty-IsOpen [] (omega arith) 3000 (pos 41)
      msg_too_big waiting-IsList refl

dmq_receive_refused_example :
    dmq_receive 9 (pos 3) 3000 (pos 40) empty_queue ≡ ok action_not_allowed empty_queue
dmq_receive_refused_example =
    dmq_receive_refused empty_queue 9 (pos 3) 12000 8000 empty-IsOpen [] (omega arith) 3000 (pos 40)
      action_not_allowed waiting-IsList refl

nothing_queued : (a : Ptr) → has a [] ≡ true → has a (100 ∷ []) ≡ false
nothing_queued a h = cc

internal_send_message-Bounded_example :
    Ends (λ _ t. Bounded 8000 4 t) (internal_send_message 9 empty_queue)
internal_send_message-Bounded_example =
    internal_send_message-Bounded empty_queue 8000 3000 [] [] 0 0 4 [] [] 9 (pos 3) 12000
      empty-IsOpen refl refl refl waiting-IsList refl (omega arith) waiting-IsList (refl, refl) refl
      nothing_queued refl (one_free-IsPool 9000)
      (one_free-IsPlaced 9000 (omega arith) (omega arith)) (one_free-IsPool 11000)
      (one_free-IsPlaced 11000 (omega arith) (omega arith)) (refl, refl) refl refl (omega arith)

abbrev spawner : Pcb
spawner = record (pcb (pos 1) ProcessStatus.running (list_of 700 700 1)) {
  syscall_args = λ i. pointer (if i == 0 then 50 else 60);
}

abbrev spawning : System
spawning = record sample {
  pcbs = λ p. if p == 100 then spawner else sample_pcbs p;
  pools = record sample_pools { pcb = one_free 5000; pcb_ptr = one_free 6000 };
}

processes_apart :
    (a : Ptr) → count a (100 ∷ 5000 ∷ 6000 ∷ []) + count a (700 ∷ []) + count a (200 ∷ 300 ∷ []) ≤ 1
unfolding one
processes_apart a = ground arith

spawning-Spawnable : Spawnable spawning
spawning-Spawnable = record {
  kids = 700 ∷ [];
  ready = 200 ∷ 300 ∷ [];
  i = 0;
  j = 0;
  free = [];
  frees = [];
  some = refl;
  pool = one_free-IsPool 5000;
  placed = one_free-IsPlaced 5000 (omega arith) (omega arith);
  pool_ptr = one_free-IsPool 6000;
  placed_ptr = one_free-IsPlaced 6000 (omega arith) (omega arith);
  mine = one-IsList 700 refl refl refl;
  others = ready-IsList;
  apart = processes_apart;
}

internal_spawn-Spawned_example :
    Ends
      (λ _ t. Spawned spawning 5000 6000 50 60 (700 ∷ []) (200 ∷ 300 ∷ []) t)
      (internal_spawn spawning)
unfolding spawning-Spawnable
internal_spawn-Spawned_example = internal_spawn-Spawned spawning spawning-Spawnable 50 60 refl refl

-- No process has the queue open any more.
abbrev destroyer : Pcb
destroyer = record (pcb (pos 1) ProcessStatus.running empty_list) {
  syscall_args = λ i. int (pos 1);
}

abbrev unused : System
unused = record sample {
  pcbs = λ p. if p == 100 then destroyer else sample_pcbs p;
  resources = λ p. record (sample.resources p) { type = pos 2 };
  resources_list = list_of 7000 7000 1;
}

unused-IsIdle : IsIdle unused 8000 []
unused-IsIdle = record {
  some = refl;
  taken = record { number = 0; here = refl; in_range = omega arith; busy = refl };
  pool = full_pool-IsPool 8000;
  placed = full_pool-IsPlaced 8000 (omega arith) (omega arith);
  no_messages = refl;
  no_readers = refl;
  no_writers = refl;
  no_blockers = refl;
}

internal_destroy_resource-Destroyed_example :
    Ends
      (λ _ t. Destroyed unused [] (0 ∷ []) t × IsPool t.pools.queues (0 ∷ []))
      (internal_destroy_resource 9 unused)
unfolding first_match unused-IsIdle
internal_destroy_resource-Destroyed_example =
    internal_destroy_resource-Destroyed unused [] [] 7000 [] refl (one-IsList 7000 refl refl refl)
      refl (record { number = 0; here = refl; in_range = omega arith; busy = refl })
      (full_pool-IsPool 7000) (full_pool-IsPlaced 7000 (omega arith) (omega arith)) waiting-IsList 9
      (pos 1) [] unused-IsIdle refl (omega arith) refl refl

-- One process still has the resource 1 open.
abbrev in_use : System
in_use = record unused {
  resources = λ p. record (unused.resources p) { descriptors_ptrs = list_of 13000 13000 1 };
}

internal_destroy_resource_refused_example :
    internal_destroy_resource 9 in_use ≡ retvalue eresourceinuse in_use
unfolding first_match
internal_destroy_resource_refused_example =
    internal_destroy_resource_refused in_use 9 (pos 1) eresourceinuse (7000 ∷ []) 7000 refl refl
      (one-IsList 7000 refl refl refl) (omega arith) refl refl
