-- ===== src/Trap.antt =====
-- disastrOS_syscall and disastrOS_trap of disastrOS.c, and disastrOS_shutdown.c.
pub mod Numbers
use disastr_os_queues.Base.{
  ℕ, zero, suc, ◌+◌, ◌-◌, ℤ, pos, negsuc, eq_ℤ, ltb_ℤ, ◌+ℤ◌, Bool, true, false, not, ◌&&◌, ◌||◌,
  ◌==◌, leb, ltb, if◌then◌else◌, update, List, [], ◌∷◌, Option, none, some, pos_part,
}
use disastr_os_queues.LinkedList.{Ptr, null, is_null}
use disastr_os_queues.Schedule.{internal_preempt, internal_sleep}
use disastr_os_queues.Process.{internal_fork, internal_spawn, internal_wait}
use disastr_os_queues.Process.Exit.{internal_exit}
use disastr_os_queues.Files.{
  internal_open_resource, internal_close_resource, internal_destroy_resource, internal_open_queue,
}
use disastr_os_queues.Messages.{
  internal_send_message, internal_recv_message, internal_wake_up_queue,
}
use disastr_os_queues.Resource.{resource_free}
use disastr_os_queues.Descriptor.{descriptor_free, descriptor_ptr_free}
use disastr_os_queues.Kernel.{
  System, Context, graveyard, Arg, int, pointer, list_ref, check, ready_list, waiting_list,
  resources_list, descriptors_ptrs, ListRef, Cmd, ok, fault, switched, out_of_fuel, pure, ◌>>=◌,
  ◌>>◌, get, modify, assert, get_pcb, set_pcb, arg, ptr_arg, retvalue, get_head, list_append,
  list_detach, list_pop, max_syscalls, call_preempt, call_fork, call_wait, call_exit, call_spawn,
  call_sleep, call_open_resource, call_close_resource, call_destroy_resource, call_shutdown,
  call_send_msg, call_recv_msg, call_wakeup_queue, call_open_queue, esyscall_not_implemented,
  esyscall_out_of_range, shutting,
}

abbrev shutdown_waiting_cycles : ℕ
shutdown_waiting_cycles = 5

-- The descriptors of a resource are released; `n` are left.
unfoldable release_pointers : ℕ → Ptr → Cmd (Unit {0})
release_pointers zero res = pure tt
release_pointers (suc n) res = do
  desptr ← list_pop (descriptors_ptrs res)
  assert (not (is_null desptr))
  s ← get
  _ ← descriptor_free (s.descriptor_ptrs desptr)
  _ ← descriptor_ptr_free desptr
  release_pointers n res

unfoldable release_resources : ℕ → Cmd (Unit {0})
unfolding release_pointers
release_resources zero = pure tt
release_resources (suc n) = do
  res ← list_pop resources_list
  h ← get_head (descriptors_ptrs res)
  release_pointers (pos_part h.size) res
  _ ← resource_free res
  release_resources n

-- Process 0 (init) and 1 (clock) go on; every other resumes in the graveyard.
unfoldable bury_ready : ℕ → Cmd (Unit {0})
bury_ready zero = pure tt
bury_ready (suc n) = do
  p ← list_pop ready_list
  c ← get_pcb p
  (if eq_ℤ c.pid (pos 0) || eq_ℤ c.pid (pos 1)
      then (do _ ← list_append ready_list p; pure tt)
      else set_pcb p (λ k. record k { cpu_state = graveyard }))
  bury_ready n

unfoldable bury_waiting : ℕ → Cmd (Unit {0})
bury_waiting zero = pure tt
bury_waiting (suc n) = do
  p ← list_pop waiting_list
  c ← get_pcb p
  (if eq_ℤ c.pid (pos 0) || eq_ℤ c.pid (pos 1)
      then (do _ ← list_append waiting_list p; pure tt)
      else (do
        set_pcb p λ k. record k { cpu_state = graveyard }
        _ ← list_append ready_list p
        pure tt))
  bury_waiting n

-- The last step resumes the main context, which ends the program: no process goes on.
unfoldable pub internal_shutdown : ℕ → Cmd (Unit {0})
unfolding release_resources bury_ready bury_waiting
internal_shutdown rounds = do
  s ← get
  if s.shutdown_now then retvalue shutting else do
    modify λ t. record t { shutdown_now = true }
    a ← arg 0
    graveyard_context ← ptr_arg a
    assert (not (is_null graveyard_context))
    r ← get_head resources_list
    release_resources (pos_part r.size)
    ready ← get_head ready_list
    bury_ready (pos_part ready.size)
    waiting ← get_head waiting_list
    bury_waiting (pos_part waiting.size)
    (if ltb_ℤ (pos 2) (ready.size +ℤ waiting.size)
        then (do
          me ← get
          set_pcb me.running λ c. record c {
            syscall_args = update c.syscall_args 0 (int (pos shutdown_waiting_cycles));
          }
          internal_sleep rounds)
        else pure tt)
    λ t. switched t

-- `syscall_vector` and `syscall_numarg`, as `disastrOS_start` fills them.
unfoldable pub syscall_vector : ℕ → ℕ → Option (Cmd (Unit {0}))
syscall_vector rounds num =
    if num == call_preempt
    then some (internal_preempt rounds)
    else if num == call_fork
    then some internal_fork
    else if num == call_spawn
    then some internal_spawn
    else if num == call_wait
    then some (internal_wait rounds)
    else if num == call_exit
    then some (internal_exit rounds)
    else if num == call_sleep
    then some (internal_sleep rounds)
    else if num == call_open_resource
    then some (internal_open_resource rounds)
    else if num == call_close_resource
    then some (internal_close_resource rounds)
    else if num == call_destroy_resource
    then some (internal_destroy_resource rounds)
    else if num == call_shutdown
    then some (internal_shutdown rounds)
    else if num == call_send_msg
    then some (internal_send_message rounds)
    else if num == call_recv_msg
    then some (internal_recv_message rounds)
    else if num == call_wakeup_queue
    then some (internal_wake_up_queue rounds)
    else if num == call_open_queue
    then some (internal_open_queue rounds)
    else none

unfoldable pub syscall_numarg : ℕ → ℕ
syscall_numarg num =
    if num == call_spawn
    then 2
    else if num == call_wait
    then 2
    else if num == call_exit
    then 1
    else if num == call_sleep
    then 1
    else if num == call_open_resource
    then 3
    else if num == call_close_resource
    then 1
    else if num == call_destroy_resource
    then 1
    else if num == call_shutdown
    then 1
    else if num == call_send_msg
    then 2
    else if num == call_recv_msg
    then 2
    else if num == call_wakeup_queue
    then 3
    else if num == call_open_queue
    then 3
    else 0

-- An access to one of the two arrays, which have `max_syscalls` entries.
abbrev in_vector : ℕ → Cmd (Unit {0})
in_vector num = assert (ltb num max_syscalls)

-- The kernel's side: `disastrOS_trap`.
unfoldable pub disastr_os_trap : ℕ → Cmd (Unit {0})
unfolding syscall_vector
disastr_os_trap rounds = do
  s ← get
  me ← get_pcb s.running
  let num = pos_part me.syscall_num
  if ltb_ℤ me.syscall_num (pos 0) || ltb_ℤ (pos max_syscalls) me.syscall_num
      then retvalue esyscall_out_of_range
      else do
        in_vector num
        elim (syscall_vector rounds num) [
          | none ↦ retvalue esyscall_not_implemented
          | some my_syscall ↦ my_syscall
        ]

-- The first `n` arguments are stored; the others are left as they were.
unfoldable pub store_args : ℕ → ℕ → List Arg → (ℕ → Arg) → ℕ → Arg
store_args zero i args f = f
store_args (suc n) i [] f = f
store_args (suc n) i (a ∷ args) f = store_args n (suc i) args (update f i a)

-- The process's side: `disastrOS_syscall`, up to its return. If another process has the processor
-- afterwards, the caller goes on only when it is resumed.
unfoldable pub disastr_os_syscall : ℕ → ℤ → List Arg → Cmd ℤ
unfolding syscall_numarg store_args disastr_os_trap
disastr_os_syscall rounds num args = do
  s ← get
  assert (not (is_null s.running))
  if ltb_ℤ num (pos 0) || ltb_ℤ (pos max_syscalls) num then pure esyscall_out_of_range else do
    in_vector (pos_part num)
    set_pcb s.running λ c. record c {
      syscall_args = store_args (syscall_numarg (pos_part num)) 0 args c.syscall_args;
      syscall_num = num;
    }
    disastr_os_trap rounds
    t ← get
    if not (t.running == s.running)
        then (λ u. switched u)
        else do me ← get_pcb t.running; pure me.syscall_retvalue
