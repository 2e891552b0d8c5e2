-- ===== src/Tests/Life.antt =====
-- Processes that begin and end: process 5000 is a zombie that process 100 waits for, or ends itself.
use disastr_os_queues.Base.{
  ◌≡◌, refl, [], ◌∷◌, arith, pos, ◌+◌, ◌≤◌, ◌==◌, if◌then◌else◌, one, count, inl,
}
use disastr_os_queues.LinkedList.{Ptr}
use disastr_os_queues.LinkedList.Walk.{first_match}
use disastr_os_queues.Process.{internal_wait}
use disastr_os_queues.Process.Reaped.Found.{is_awaited}
use disastr_os_queues.Process.Reaped.{Reapable, Reaped, internal_wait-Reaped}
use disastr_os_queues.Process.Exit.{internal_exit}
use disastr_os_queues.Process.Exit.Endless.{internal_exit-endless}
use disastr_os_queues.Process.Exit.Died.Steps.{Exiting}
use disastr_os_queues.Process.Exit.Died.{Died, internal_exit-Died}
use disastr_os_queues.Process.Exit.Reported.Parent.{Awaited, Awaiting}
use disastr_os_queues.Process.Exit.Reported.{Reported, internal_exit-Reported}
use disastr_os_queues.Boot.{Memory, disastr_os_start, static_globals}
use disastr_os_queues.Boot.Pools.{Small}
use disastr_os_queues.Boot.Started.{Started, disastr_os_start-Started}
use disastr_os_queues.Kernel.{
  System, ProcessStatus, int, pointer, Pcb, Ends, out_of_fuel, call_wait,
}
use disastr_os_queues.Tests.{
  sample, sample_pcbs, list_of, empty_list, pcb, waiting-IsList, ready-IsList, timers-IsList,
  children-IsList, timer_pool-IsPool, timer_pool-IsPlaced,
}
use disastr_os_queues.Tests.Queues.{one-IsList}
use disastr_os_queues.Tests.Schedule.{timed_taken}
use disastr_os_queues.Tests.Files.{full_pool-IsPool, full_pool-IsPlaced}

-- Process 100 waits for any child; its child 5000, with the item 6000, is a zombie.
abbrev waiter : Pcb
waiter = record (pcb (pos 1) ProcessStatus.running (list_of 6000 6000 1)) {
  syscall_args = λ i. if i == 0 then int (pos 0) else pointer 2000;
}

abbrev bereaved : System
bereaved = record sample {
  pcbs = λ p. if p == 100 then waiter else pcb (pos 9) ProcessStatus.zombie empty_list;
  pcb_ptrs = λ _. 5000;
  zombie_list = list_of 5000 5000 1;
}

dead_apart : (a : Ptr) → count a (100 ∷ []) + count a (6000 ∷ []) + count a (5000 ∷ []) ≤ 1
unfolding one
dead_apart a = ground arith

bereaved-Reapable : Reapable bereaved
bereaved-Reapable = record {
  before = [];
  behind = [];
  zbefore = [];
  zbehind = [];
  i = 0;
  j = 0;
  free = [];
  frees = [];
  some = refl;
  pool = full_pool-IsPool 5000;
  placed = full_pool-IsPlaced 5000 (omega arith) (omega arith);
  in_range = omega arith;
  busy = refl;
  pool_ptr = full_pool-IsPool 6000;
  placed_ptr = full_pool-IsPlaced 6000 (omega arith) (omega arith);
  in_range_ptr = omega arith;
  busy_ptr = refl;
  mine = one-IsList 6000 refl refl refl;
  zombies = one-IsList 5000 refl refl refl;
  child = refl;
  dead = refl;
  apart = dead_apart;
}

internal_wait-Reaped_example :
    Ends (λ _ t. Reaped bereaved bereaved-Reapable 2000 t) (internal_wait 9 bereaved)
unfolding bereaved-Reapable is_awaited
internal_wait-Reaped_example =
    internal_wait-Reaped bereaved bereaved-Reapable 2000 9 (pos 0) refl refl tt refl (omega arith)

internal_exit-endless_example : internal_exit 50 sample ≡ out_of_fuel
internal_exit-endless_example =
    internal_exit-endless sample 50 (pos 77) 700 [] refl refl refl children-IsList (λ a h. refl)

-- Process 100 ends. It has a child, with the item 700; the process 600 is its parent and init.
abbrev leaver : Pcb
leaver = record (pcb (pos 1) ProcessStatus.running (list_of 700 700 1)) { parent = 600 }

abbrev leaving : System
leaving = record sample { pcbs = λ p. if p == 100 then leaver else sample_pcbs p; init_pcb = 600 }

leaving_apart :
    (a : Ptr)
    → count a (100 ∷ []) + count a (700 ∷ []) + count a [] + count a [] + count a (200 ∷ 300 ∷ [])
      ≤ 1
unfolding one
leaving_apart a = ground arith

leaving-Exiting : Exiting leaving
leaving-Exiting = record {
  kids = 700 ∷ [];
  inits = [];
  zombies = [];
  next = 200;
  ready = 300 ∷ [];
  some = refl;
  init_some = refl;
  not_init = refl;
  parent_some = refl;
  not_parent = refl;
  unlinked = (refl, refl);
  mine = children-IsList;
  theirs = waiting-IsList;
  buried = waiting-IsList;
  others = ready-IsList;
  kids_some = refl;
  kids_distinct = (refl, tt);
  parent_no_kid = refl;
  apart = leaving_apart;
}

internal_exit-Died_example :
    Ends (λ _ t. Died leaving leaving-Exiting (pos 77) t) (internal_exit 9 leaving)
unfolding leaving-Exiting
internal_exit-Died_example =
    internal_exit-Died leaving leaving-Exiting (pos 77) 9 refl (inl refl) (omega arith)

-- Process 5000 ends, and one of the timers is its own; process 100 waits for any child.
abbrev mourner : Pcb
mourner = record (pcb (pos 1) ProcessStatus.waiting (list_of 700 700 1)) {
  syscall_num = pos call_wait;
  syscall_args = λ i. if i == 0 then int (pos 0) else pointer 2000;
}

abbrev ending : System
ending = record sample {
  pcbs = λ p.
      if p == 100
      then mourner
      else record (pcb (pos 2) ProcessStatus.running empty_list) { parent = 100 };
  pcb_ptrs = λ _. 5000;
  timers = λ p. record { awakening_time = pos 9; pcb = if p == 4000 then 5000 else 300 };
  running = 5000;
  waiting_list = list_of 100 100 1;
}

ending_apart :
    (a : Ptr)
    → count a (5000 ∷ [])
        + count a (100 ∷ [])
        + count a (700 ∷ [])
        + count a []
        + count a (4000 ∷ 4040 ∷ [])
        + count a (200 ∷ 300 ∷ [])
      ≤ 1
unfolding one
ending_apart a = ground arith

ending-Awaited : Awaited ending
unfolding first_match
ending-Awaited = record {
  ys = [];
  zs = [];
  before = [];
  behind = [];
  item = 700;
  zombies = [];
  timers = 4000 ∷ 4040 ∷ [];
  ready = 200 ∷ 300 ∷ [];
  free = [];
  frees = 2 ∷ 3 ∷ [];
  some = refl;
  init_some = refl;
  parent_some = refl;
  not_parent = refl;
  unlinked = (refl, refl);
  childless = refl;
  closed = refl;
  waiting = one-IsList 100 refl refl refl;
  siblings = children-IsList;
  item_some = refl;
  found = refl;
  buried = waiting-IsList;
  others = ready-IsList;
  timed = record {
    list = timers-IsList;
    pool = timer_pool-IsPool;
    placed = timer_pool-IsPlaced;
    taken = timed_taken;
  };
  pool = full_pool-IsPool 5000;
  placed = full_pool-IsPlaced 5000 (omega arith) (omega arith);
  taken = record { number = 0; here = refl; in_range = omega arith; busy = refl };
  apart = ending_apart;
}

mourner-Awaiting : Awaiting mourner (pos 2)
mourner-Awaiting = record {
  waits = refl;
  calls = refl;
  number = pos 0;
  argument = refl;
  matches = refl;
}

internal_exit-Reported_example :
    Ends (λ _ t. Reported ending ending-Awaited (pos 77) 2000 t) (internal_exit 9 ending)
unfolding ending-Awaited
internal_exit-Reported_example =
    internal_exit-Reported ending ending-Awaited (pos 77) 2000 9 refl mourner-Awaiting refl
      (omega arith) (omega arith)

-- Every structure has 64 bytes, and every buffer its own region.
abbrev memory : Memory
memory = record {
  pcb = record {
    pcb_size = 64;
    pcb_buffer = 1000000;
    pcb_ptr_size = 64;
    pcb_ptr_buffer = 11000000;
  };
  descriptor = record {
    descriptor_size = 64;
    descriptor_buffer = 21000000;
    descriptor_ptr_size = 64;
    descriptor_ptr_buffer = 31000000;
  };
  timer_item_size = 64;
  timer_item_buffer = 41000000;
  resource_size = 64;
  resource_buffer = 51000000;
  queue_size = 64;
  queue_buffer = 61000000;
  queue_user_size = 64;
  queue_user_buffer = 71000000;
  message_size = 64;
  message_buffer = 81000000;
  msg_string_buffer = 91000000;
}

memory-Small : Small memory
memory-Small = record {
  pcb = omega arith;
  pcb_ptr = omega arith;
  timer_item = omega arith;
  resources = omega arith;
  queues = omega arith;
  queue_users = omega arith;
  message = omega arith;
  descriptor = omega arith;
  descriptor_ptr = omega arith;
}

disastr_os_start-Started_example :
    Ends (λ _ t. Started memory 50 60 t) (disastr_os_start memory 50 60 (static_globals sample))
disastr_os_start-Started_example = disastr_os_start-Started sample memory 50 60 memory-Small refl
