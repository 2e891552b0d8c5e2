-- ===== src/Calls.antt =====
-- The calling part of disastrOS.c: the functions by which a process makes its system calls.
use disastr_os_queues.Base.{ℕ, ℤ, pos, negsuc, if◌then◌else◌, [], ◌∷◌}
use disastr_os_queues.LinkedList.{Ptr, is_null}
use disastr_os_queues.Trap.{disastr_os_syscall}
use disastr_os_queues.Kernel.{
  int, pointer, Cmd, pure, ◌>>=◌, get, get_pcb, call_preempt, call_fork, call_wait, call_exit,
  call_spawn, call_sleep, call_open_resource, call_close_resource, call_destroy_resource,
  call_shutdown, call_open_queue,
}

unfoldable disastr_os_fork : ℕ → Cmd ℤ
disastr_os_fork rounds = disastr_os_syscall rounds (pos call_fork) []

unfoldable disastr_os_wait : ℕ → ℤ → Ptr → Cmd ℤ
disastr_os_wait rounds pid retval =
    disastr_os_syscall rounds (pos call_wait) (int pid ∷ pointer retval ∷ [])

unfoldable disastr_os_exit : ℕ → ℤ → Cmd (Unit {0})
disastr_os_exit rounds exitval = do
  _ ← disastr_os_syscall rounds (pos call_exit) (int exitval ∷ [])
  pure tt

unfoldable pub disastr_os_preempt : ℕ → Cmd (Unit {0})
disastr_os_preempt rounds = do _ ← disastr_os_syscall rounds (pos call_preempt) []; pure tt

unfoldable disastr_os_spawn : ℕ → Ptr → Ptr → Cmd (Unit {0})
disastr_os_spawn rounds f args = do
  _ ← disastr_os_syscall rounds (pos call_spawn) (pointer f ∷ pointer args ∷ [])
  pure tt

unfoldable disastr_os_shutdown : ℕ → Ptr → Cmd ℤ
disastr_os_shutdown rounds graveyard_context =
    disastr_os_syscall rounds (pos call_shutdown) (pointer graveyard_context ∷ [])

unfoldable disastr_os_sleep : ℕ → ℤ → Cmd (Unit {0})
disastr_os_sleep rounds sleep_time = do
  _ ← disastr_os_syscall rounds (pos call_sleep) (int sleep_time ∷ [])
  pure tt

-- With no running process there is no process number.
unfoldable disastr_os_getpid : Cmd ℤ
disastr_os_getpid = do
  s ← get
  if is_null s.running then pure (negsuc 0) else do me ← get_pcb s.running; pure me.pid

unfoldable pub disastr_os_open_resource : ℕ → (resource_id type mode : ℤ) → Cmd ℤ
disastr_os_open_resource rounds resource_id type mode =
    disastr_os_syscall rounds (pos call_open_resource) (int resource_id ∷ int type ∷ int mode ∷ [])

unfoldable pub disastr_os_close_resource : ℕ → ℤ → Cmd ℤ
disastr_os_close_resource rounds fd =
    disastr_os_syscall rounds (pos call_close_resource) (int fd ∷ [])

unfoldable pub disastr_os_destroy_resource : ℕ → ℤ → Cmd ℤ
disastr_os_destroy_resource rounds id =
    disastr_os_syscall rounds (pos call_destroy_resource) (int id ∷ [])

unfoldable pub disastr_os_open_queue : ℕ → (resource_id fd mode : ℤ) → Cmd ℤ
disastr_os_open_queue rounds resource_id fd mode =
    disastr_os_syscall rounds (pos call_open_queue) (int resource_id ∷ int fd ∷ int mode ∷ [])
