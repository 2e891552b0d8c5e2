-- ===== src/Tests.antt =====
-- One state of the kernel: process 100 runs, 200 and 300 are ready, nothing waits, and two timers
-- are set. Process 200 is a child of process 100, with the list item 700.
mod Queues
mod Schedule
mod Files
mod Created
mod Joined
mod Handover
mod Printing
mod Life
use disastr_os_queues.Base.{
  ℕ, ◌≡◌, refl, true, false, [], ◌∷◌, arith, ℤ, pos, inr, ◌==◌, if◌then◌else◌,
}
use disastr_os_queues.LinkedList
use disastr_os_queues.LinkedList.{Ptr, null, ListItem, ListHead, Items}
use disastr_os_queues.LinkedList.Chain.{IsList, head_or}
use disastr_os_queues.PoolAllocator.{PoolAllocator, null_idx, detached_idx}
use disastr_os_queues.PoolAllocator.Free.{IsPool, IsPlaced}
use disastr_os_queues.PoolAllocator.Outside.{behind}
use disastr_os_queues.Timer.{timer_list_add, timer_list_current}
use disastr_os_queues.Timer.Order.{Added, due, timer_list_add-Added, timer_list_current-due}
use disastr_os_queues.Timer.Order.{due}
use disastr_os_queues.Schedule.{rotate, internal_preempt}
use disastr_os_queues.Schedule.Rotate.{Rotated, rotate-Rotated}
use disastr_os_queues.Messages.{block_on}
use disastr_os_queues.Messages.Blocking.{Blocked, InBoth, block_on-Blocked, block_on-InBoth}
use disastr_os_queues.Resource.QueueObject.{message_free}
use disastr_os_queues.Resource.QueueObject.Leak.{message_free_leaks}
use disastr_os_queues.Process.{is_zombie, internal_wait, reap, wait_for_child}
use disastr_os_queues.Process.Await.{internal_wait-last}
use disastr_os_queues.Trap.{disastr_os_syscall}
use disastr_os_queues.Trap.Numbers.{
  syscall_out_of_range, syscall_behind_vector, syscall_not_implemented,
}
use disastr_os_queues.Kernel.{
  System, ProcessStatus, interrupted, int, pointer, Pcb, Queue, Pools, timer_list, Ends, ok, fault,
  ◌>>◌, max_syscalls, esyscall_not_implemented, esyscall_out_of_range,
}

abbrev empty_list : ListHead
empty_list = LinkedList.init

abbrev pcb : ℤ → ProcessStatus → ListHead → Pcb
pcb pid status children = record {
  pid = pid;
  return_value = pos 0;
  status = status;
  signals = 0;
  signals_mask = 0;
  parent = null;
  children = children;
  cpu_state = interrupted;
  timer = null;
  last_fd = pos 0;
  descriptors = empty_list;
  syscall_num = pos 0;
  syscall_args = λ i. if i == 0 then int (pos 77) else pointer null;
  syscall_retvalue = pos 0;
}

-- Blocks 0 and 1 are in use, 2 and 3 are free.
abbrev timer_pool : PoolAllocator
timer_pool = record {
  buffer = 4000;
  free_list = λ i. if i == 2 then pos 3 else if i == 3 then null_idx else detached_idx;
  buffer_size = 160;
  size = pos 2;
  size_max = 4;
  item_size = 40;
  first_idx = pos 2;
}

-- Every block is in use.
abbrev full_pool : Ptr → PoolAllocator
full_pool p = record {
  buffer = p;
  free_list = λ _. detached_idx;
  buffer_size = 160;
  size = pos 0;
  size_max = 4;
  item_size = 40;
  first_idx = null_idx;
}

abbrev sample_pools : Pools
sample_pools = record {
  pcb = full_pool 5000;
  pcb_ptr = full_pool 6000;
  timer_item = timer_pool;
  resources = full_pool 7000;
  queues = full_pool 8000;
  msg_strings = full_pool 9000;
  queue_users = full_pool 10000;
  message = full_pool 11000;
  descriptor = full_pool 12000;
  descriptor_ptr = full_pool 13000;
}

abbrev sample_items : Items
sample_items p =
    if p == 200
    then record { prev = 0; next = 300 }
    else if p == 300
    then record { prev = 200; next = 0 }
    else if p == 4000
    then record { prev = 0; next = 4040 }
    else if p == 4040
    then record { prev = 4000; next = 0 }
    else record { prev = 0; next = 0 }

abbrev list_of : Ptr → Ptr → ℕ → ListHead
list_of first last size = record { first = first; last = last; size = pos size }

abbrev sample_pcbs : Ptr → Pcb
sample_pcbs p =
    if p == 100
    then pcb (pos 1) ProcessStatus.running (list_of 700 700 1)
    else if p == 200
    then pcb (pos 2) ProcessStatus.ready empty_list
    else pcb (pos 3) ProcessStatus.ready empty_list

abbrev sample_queue : Queue
sample_queue = record {
  messages = empty_list;
  readers = empty_list;
  writers = empty_list;
  non_block = empty_list;
  max_messages = pos 4;
  msg_size = pos 40;
  openings = pos 1;
}

abbrev sample : System
sample = record {
  items = sample_items;
  pcbs = sample_pcbs;
  pcb_ptrs = λ _. 200;
  timers = λ p. record { awakening_time = if p == 4000 then pos 5 else pos 9; pcb = 300 };
  resources = λ _. record { id = pos 1; type = pos 0; descriptors_ptrs = empty_list; value = 8000 };
  queues = λ _. sample_queue;
  queue_users = λ _. record { pid = pos 1; status = ProcessStatus.running };
  message_items = λ _. record { message = 9000; len = pos 40 };
  descriptor_items = λ _. record {
    pcb = 100;
    resource = 7000;
    fd = pos 0;
    reader = 10000;
    writer = 10040;
    blocker = 0;
    ptr = 13000;
  };
  descriptor_ptrs = λ _. 12000;
  ints = λ _. pos 0;
  bytes = λ _. 0;
  pools = sample_pools;
  init_pcb = 100;
  running = 100;
  last_pid = pos 4;
  ready_list = list_of 200 300 2;
  waiting_list = empty_list;
  zombie_list = empty_list;
  timer_list = list_of 4000 4040 2;
  resources_list = empty_list;
  time = pos 6;
  shutdown_now = false;
}

ready-IsList : IsList sample_items (list_of 200 300 2) (200 ∷ 300 ∷ [])
ready-IsList = record {
  first = refl;
  last = refl;
  size = refl;
  linked = (refl, refl, (refl, refl, tt));
  non_null = refl;
  distinct = (refl, (refl, tt));
}

timers-IsList : IsList sample_items (list_of 4000 4040 2) (4000 ∷ 4040 ∷ [])
timers-IsList = record {
  first = refl;
  last = refl;
  size = refl;
  linked = (refl, refl, (refl, refl, tt));
  non_null = refl;
  distinct = (refl, (refl, tt));
}

children-IsList : IsList sample_items (list_of 700 700 1) (700 ∷ [])
children-IsList = record {
  first = refl;
  last = refl;
  size = refl;
  linked = (refl, refl, tt);
  non_null = refl;
  distinct = (refl, tt);
}

waiting-IsList : IsList sample_items empty_list []
waiting-IsList = record {
  first = refl;
  last = refl;
  size = refl;
  linked = tt;
  non_null = refl;
  distinct = tt;
}

timer_pool-IsPool : IsPool timer_pool (2 ∷ 3 ∷ [])
timer_pool-IsPool = record {
  chain = (refl, omega arith, (refl, omega arith, refl));
  distinct = (refl, (refl, tt));
  size = refl;
  detached = λ i lt out. ground arith;
}

timer_pool-IsPlaced : IsPlaced timer_pool
timer_pool-IsPlaced = record {
  item_pos = omega arith;
  buffer_pos = omega arith;
  small = omega arith;
  space = omega arith;
}

strings-IsPlaced : IsPlaced (full_pool 9000)
strings-IsPlaced = record {
  item_pos = omega arith;
  buffer_pos = omega arith;
  small = omega arith;
  space = omega arith;
}

block_on-InBoth_example :
    Ends
      (λ _ t. InBoth 100 200 (300 ∷ []) t)
      ((block_on 10000 (pos 5) >> internal_preempt 9) (record sample { time = pos 4 }))
unfolding due
block_on-InBoth_example =
    block_on-InBoth (record sample { time = pos 4 }) 10000 (pos 5) waiting-IsList refl refl
      (refl, refl) 200 (300 ∷ []) ready-IsList refl (4000 ∷ 4040 ∷ []) timers-IsList refl refl 9
      (omega arith)

timer_list_add-Added_example :
    Ends
      (λ r t. (r ≡ 4080) × Added sample (pos 7) 100 2 (4000 ∷ 4040 ∷ []) t)
      (timer_list_add 9 timer_list (pos 7) 100 sample)
timer_list_add-Added_example =
    timer_list_add-Added sample 9 (pos 7) 100 (4000 ∷ 4040 ∷ []) 2 (3 ∷ []) timers-IsList
      (refl, (tt, tt)) (omega arith) timer_pool-IsPool timer_pool-IsPlaced refl

message_free_leaks_example : message_free 11000 sample ≡ ok true sample
message_free_leaks_example =
    message_free_leaks sample 11000 strings-IsPlaced (behind 2016 (omega arith) refl (omega arith))

syscall_behind_vector_example : disastr_os_syscall 9 (pos max_syscalls) [] sample ≡ fault
syscall_behind_vector_example = syscall_behind_vector 9 [] sample refl

internal_wait-last_example :
    internal_wait 9 sample
    ≡ (if is_zombie (sample.pcbs 200).status then reap null 700 200 else wait_for_child) sample
internal_wait-last_example =
    internal_wait-last sample 9 (pos 77) null 700 [] refl refl refl refl children-IsList
      (refl, refl, tt) (omega arith)
