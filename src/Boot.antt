-- ===== src/Boot.antt =====
-- `disastrOS_start` of disastrOS.c: the pools, the lists and the first process. The contexts of the
-- trap, the interrupt and the graveyard, the signal handler and the log are not modelled.
pub mod Pools
pub mod Started
use disastr_os_queues.Base.{ℕ, pos, false, if◌then◌else◌}
use disastr_os_queues.LinkedList
use disastr_os_queues.LinkedList.{Ptr, null}
use disastr_os_queues.Pcb.{PcbMemory, pcb_init, pcb_alloc}
use disastr_os_queues.Timer.{timer_init}
use disastr_os_queues.Descriptor.{DescriptorMemory, descriptor_init}
use disastr_os_queues.Resource.{resource_init}
use disastr_os_queues.Resource.QueueObject.{
  queue_init, queue_user_init, message_init, msg_string_init,
}
use disastr_os_queues.Kernel.{
  System, ProcessStatus, trampoline, Cmd, switched, ◌>>=◌, ◌>>◌, get, modify, set_pcb,
}

-- What the compiler and the linker decide: the sizes of the structures and the static buffers.
pub record Memory : Type 0 where
  pub pcb : PcbMemory
  pub descriptor : DescriptorMemory
  pub timer_item_size : ℕ
  pub timer_item_buffer : Ptr
  pub resource_size : ℕ
  pub resource_buffer : Ptr
  pub queue_size : ℕ
  pub queue_buffer : Ptr
  pub queue_user_size : ℕ
  pub queue_user_buffer : Ptr
  pub message_size : ℕ
  pub message_buffer : Ptr
  pub msg_string_buffer : Ptr

-- The globals of the kernel as static memory has them when the program begins.
unfoldable pub static_globals : System → System
static_globals s = record s {
  init_pcb = null;
  running = null;
  last_pid = pos 0;
  ready_list = LinkedList.init;
  waiting_list = LinkedList.init;
  zombie_list = LinkedList.init;
  timer_list = LinkedList.init;
  resources_list = LinkedList.init;
  shutdown_now = false;
  time = pos 0;
}

unfoldable pub init_pools : Memory → Cmd (Unit {0})
init_pools m = do
  pcb_init m.pcb
  timer_init m.timer_item_size m.timer_item_buffer
  resource_init m.resource_size m.resource_buffer
  queue_init m.queue_size m.queue_buffer
  queue_user_init m.queue_user_size m.queue_user_buffer
  message_init m.message_size m.message_buffer
  descriptor_init m.descriptor
  msg_string_init m.msg_string_buffer

abbrev init_lists : System → System
init_lists s = record s {
  running = null;
  ready_list = LinkedList.init;
  waiting_list = LinkedList.init;
  zombie_list = LinkedList.init;
  resources_list = LinkedList.init;
  timer_list = LinkedList.init;
}

-- The main context resumes in the middle: after a shutdown the program ends there.
unfoldable pub disastr_os_start : Memory → Ptr → Ptr → Cmd (Unit {0})
unfolding init_pools
disastr_os_start m f f_args = do
  init_pools m
  modify λ s. record s { init_pcb = null }
  modify init_lists
  s ← get
  if s.shutdown_now then (λ t. switched t) else do
    first ← pcb_alloc
    modify λ t. record t { running = first; init_pcb = first }
    set_pcb first λ c. record c { status = ProcessStatus.running; cpu_state = trampoline f f_args }
