-- ===== src/Process/Exit.antt =====
-- disastrOS_exit.c: the end of a process.
pub mod Round
pub mod Kept
pub mod Orphans
pub mod Timers
pub mod Died
pub mod Reported
pub mod Endless
use Prim.Native.Nat.{bit_and, bit_or}
use disastr_os_queues.Base.{
  ℕ, zero, suc, ℤ, pos, eq_ℤ, Bool, true, false, not, ◌&&◌, ◌||◌, ◌==◌, if◌then◌else◌, update,
}
use disastr_os_queues.LinkedList.{Ptr, is_null}
use disastr_os_queues.Pcb.{pcb_free, pcb_ptr_by_pid}
use disastr_os_queues.Timer.{timer_item_free}
use disastr_os_queues.Descriptor.{descriptor_free, descriptor_by_fd, descriptor_ptr_free}
use disastr_os_queues.Kernel.{
  ProcessStatus, ready_list, waiting_list, zombie_list, timer_list, children, descriptors,
  descriptors_ptrs, readers, writers, non_block, Pcb, Cmd, out_of_fuel, pure, ◌>>=◌, ◌>>◌, get,
  modify, assert, get_pcb, set_pcb, get_descriptor, get_resource, int_arg, ptr_arg, arg, next_item,
  get_head, list_append, list_detach, call_wait, sighup, sigchld,
}

abbrev pub is_waiting : ProcessStatus → Bool
is_waiting ProcessStatus.waiting = true
is_waiting _ = false

-- `pcb->signals |= (signal & pcb->signals_mask)`
unfoldable pub send_signal : ℕ → Ptr → Cmd (Unit {0})
send_signal signal pcb =
    set_pcb pcb λ c. record c { signals = bit_or c.signals (bit_and signal c.signals_mask) }

-- The children go to the init process, with a SIGHUP.
unfoldable pub reparent_children : ℕ → Cmd (Unit {0})
unfolding send_signal
reparent_children zero = λ _. out_of_fuel
reparent_children (suc rounds) = do
  s ← get
  h ← get_head (children s.running)
  if is_null h.first then pure tt else do
    item ← list_detach (children s.running) h.first
    assert (not (is_null item))
    _ ← list_append (children s.init_pcb) item
    send_signal sighup (s.pcb_ptrs item)
    reparent_children rounds

-- The timers of the process are taken out of the list and released.
unfoldable pub release_timers : ℕ → Ptr → Cmd (Unit {0})
release_timers zero aux = λ _. out_of_fuel
release_timers (suc rounds) aux = if is_null aux then pure tt else do
  next ← next_item aux
  s ← get
  (if (s.timers aux).pcb == s.running
      then (do
        detach_result ← list_detach timer_list aux
        assert (not (is_null detach_result))
        _ ← timer_item_free aux
        pure tt)
      else pure tt)
  release_timers rounds next

-- The entries of the process in the lists of a queue are taken out. Their blocks stay allocated.
unfoldable leave_queue : ℕ → Ptr → ℤ → Cmd (Unit {0})
leave_queue rounds q fd = do
  s ← get
  ds ← descriptor_by_fd rounds (descriptors s.running) fd
  d ← get_descriptor ds
  _ ← list_detach (readers q) d.reader
  _ ← list_detach (writers q) d.writer
  _ ← list_detach (non_block q) d.blocker
  pure tt

unfoldable pub release_descriptors : ℕ → Cmd (Unit {0})
unfolding leave_queue
release_descriptors zero = λ _. out_of_fuel
release_descriptors (suc rounds) = do
  s ← get
  h ← get_head (descriptors s.running)
  if is_null h.first then pure tt else do
    let des = h.first
    d ← get_descriptor des
    res ← get_resource d.resource
    (if eq_ℤ res.type (pos 2) then leave_queue rounds res.value d.fd else pure tt)
    _ ← list_detach (descriptors s.running) des
    _ ← list_detach (descriptors_ptrs d.resource) d.ptr
    _ ← descriptor_ptr_free d.ptr
    _ ← descriptor_free des
    release_descriptors rounds

-- Was the parent waiting for this process to die?
unfoldable pub parent_awaits : Pcb → ℤ → Cmd Bool
parent_awaits parent pid =
    if not (is_waiting parent.status && eq_ℤ parent.syscall_num (pos call_wait))
    then pure false
    else do
      awaited ← int_arg (parent.syscall_args 0)
      pure (eq_ℤ awaited (pos 0) || eq_ℤ awaited pid)

-- The parent is woken, gets the answer to its call, and loses its child.
unfoldable pub wake_parent : ℕ → Ptr → Cmd Ptr
wake_parent rounds parent_ptr = do
  s ← get
  me ← get_pcb s.running
  parent ← list_detach waiting_list parent_ptr
  assert (not (is_null parent))
  set_pcb parent λ c. record c { status = ProcessStatus.running }
  self_in_parent ← pcb_ptr_by_pid rounds (children parent) me.pid
  _ ← list_detach (children parent) self_in_parent
  set_pcb parent λ c. record c { syscall_retvalue = me.pid }
  p ← get_pcb parent
  result ← ptr_arg (p.syscall_args 1)
  (if is_null result
      then pure tt
      else modify (λ t. record t { ints = update t.ints result me.return_value }))
  pure parent

-- The process gives up its descriptors and is gone; its parent goes on.
unfoldable pub finish : ℕ → (process parent : Ptr) → Cmd (Unit {0})
unfolding release_descriptors
finish rounds process parent = do
  release_descriptors rounds
  suppressed_item ← list_detach zombie_list process
  _ ← pcb_free suppressed_item
  modify λ t. record t { running = parent }

-- The process reports to its parent, releases what it holds, and is gone.
unfoldable pub report_to_parent : ℕ → Ptr → Cmd (Unit {0})
unfolding wake_parent release_timers finish
report_to_parent rounds parent_ptr = do
  s ← get
  parent ← wake_parent rounds parent_ptr
  timers ← get_head timer_list
  release_timers rounds timers.first
  finish rounds s.running parent

-- The first ready process runs next.
unfoldable pub run_next_ready : Cmd (Unit {0})
run_next_ready = do
  h ← get_head ready_list
  next_running ← list_detach ready_list h.first
  assert (not (is_null next_running))
  set_pcb next_running λ c. record c { status = ProcessStatus.running }
  modify λ t. record t { running = next_running }

-- From the status on: the process is a zombie, and its parent or the first ready process goes on.
unfoldable pub settle : ℕ → Ptr → Cmd (Unit {0})
unfolding parent_awaits report_to_parent run_next_ready send_signal
settle rounds process = do
  set_pcb process λ c. record c { status = ProcessStatus.zombie }
  _ ← list_append zombie_list process
  me ← get_pcb process
  send_signal sigchld me.parent
  parent ← get_pcb me.parent
  awaited ← parent_awaits parent me.pid
  if awaited then report_to_parent rounds me.parent else run_next_ready

unfoldable pub internal_exit : ℕ → Cmd (Unit {0})
unfolding reparent_children settle
internal_exit rounds = do
  s ← get
  a ← arg 0
  exitval ← int_arg a
  set_pcb s.running λ c. record c { return_value = exitval }
  assert (not (is_null s.init_pcb))
  reparent_children rounds
  settle rounds s.running
