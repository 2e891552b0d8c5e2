-- ===== src/Kernel/State.antt =====
-- The objects of the kernel and its globals: disastrOS_pcb.h, disastrOS_timer.h,
-- disastrOS_resource.h, disastrOS_descriptor.h, disastrOS_globals.h.
-- Every object has an address. The `ListItem` that it begins with is in `items`, the rest of it in
-- the store of its type. An `int` is a ℤ.
use disastr_os_queues.Base.{ℕ, ℤ, Bool}
use disastr_os_queues.LinkedList.{Ptr, ListHead, Items}
use disastr_os_queues.PoolAllocator.{PoolAllocator}

pub data ProcessStatus : Type 0 where
  invalid created running ready waiting suspended zombie : ProcessStatus

-- A `ListHead*`: the address of a global list, or of a list inside the object at an address.
pub data ListRef : Type 0 where
  ready_list waiting_list zombie_list timer_list resources_list : ListRef
  children descriptors descriptors_ptrs messages readers writers non_block : Ptr → ListRef

-- The two conditions of disastrOS_wake_queue.c, passed by address.
pub data WakeupCheck : Type 0 where
  condition_recv condition_send : WakeupCheck

-- What a process resumes when it gets the processor: where it was interrupted, a function with its
-- argument, or the graveyard.
pub data Context : Type 0 where
  interrupted graveyard : Context
  trampoline : Ptr → Ptr → Context

-- A `long int` that holds a number or some kind of pointer.
pub data Arg : Type 0 where
  int : ℤ → Arg
  pointer : Ptr → Arg
  list_ref : ListRef → Arg
  check : WakeupCheck → Arg

pub record Pcb : Type 0 where
  pub pid : ℤ
  pub return_value : ℤ
  pub status : ProcessStatus
  pub signals : ℕ
  pub signals_mask : ℕ
  pub parent : Ptr
  pub children : ListHead
  pub cpu_state : Context
  pub timer : Ptr
  pub last_fd : ℤ
  pub descriptors : ListHead
  pub syscall_num : ℤ
  pub syscall_args : ℕ → Arg
  pub syscall_retvalue : ℤ

pub record TimerItem : Type 0 where
  pub awakening_time : ℤ
  pub pcb : Ptr

pub record Resource : Type 0 where
  pub id : ℤ
  pub type : ℤ
  pub descriptors_ptrs : ListHead
  pub value : Ptr

pub record QueueUser : Type 0 where
  pub pid : ℤ
  pub status : ProcessStatus

pub record Message : Type 0 where
  pub message : Ptr
  pub len : ℤ

pub record Queue : Type 0 where
  pub messages : ListHead
  pub readers : ListHead
  pub writers : ListHead
  pub non_block : ListHead
  pub max_messages : ℤ
  pub msg_size : ℤ
  pub openings : ℤ

-- `rwn[0]`, `rwn[1]` and `rwn[2]` are `reader`, `writer` and `blocker`.
pub record Descriptor : Type 0 where
  pub pcb : Ptr
  pub resource : Ptr
  pub fd : ℤ
  pub reader : Ptr
  pub writer : Ptr
  pub blocker : Ptr
  pub ptr : Ptr

-- The static allocators.
pub data PoolRef : Type 0 where
  pcb_pool pcb_ptr_pool timer_item_pool resources_pool queues_pool msg_strings_pool : PoolRef
  queue_users_pool message_pool descriptor_pool descriptor_ptr_pool : PoolRef

pub record Pools : Type 0 where
  pub pcb : PoolAllocator
  pub pcb_ptr : PoolAllocator
  pub timer_item : PoolAllocator
  pub resources : PoolAllocator
  pub queues : PoolAllocator
  pub msg_strings : PoolAllocator
  pub queue_users : PoolAllocator
  pub message : PoolAllocator
  pub descriptor : PoolAllocator
  pub descriptor_ptr : PoolAllocator

-- `ints` and `bytes` are the memory of the processes that results and messages are copied to.
pub record System : Type 0 where
  pub items : Items
  pub pcbs : Ptr → Pcb
  pub pcb_ptrs : Ptr → Ptr
  pub timers : Ptr → TimerItem
  pub resources : Ptr → Resource
  pub queues : Ptr → Queue
  pub queue_users : Ptr → QueueUser
  pub message_items : Ptr → Message
  pub descriptor_items : Ptr → Descriptor
  pub descriptor_ptrs : Ptr → Ptr
  pub ints : Ptr → ℤ
  pub bytes : Ptr → ℕ
  pub pools : Pools
  pub init_pcb : Ptr
  pub running : Ptr
  pub last_pid : ℤ
  pub ready_list : ListHead
  pub waiting_list : ListHead
  pub zombie_list : ListHead
  pub timer_list : ListHead
  pub resources_list : ListHead
  pub time : ℤ
  pub shutdown_now : Bool
