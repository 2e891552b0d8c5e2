-- ===== src/Process.antt =====
-- The life of a process: disastrOS_spawn.c, disastrOS_fork.c and disastrOS_wait.c; Exit has
-- disastrOS_exit.c.
pub mod Exit
pub mod Await
pub mod Spawned
pub mod Reaped
use disastr_os_queues.Base.{
  ℕ, zero, suc, ℤ, pos, negsuc, eq_ℤ, ltb_ℤ, Bool, true, false, not, ◌&&◌, ◌||◌, if◌then◌else◌,
  update,
}
use disastr_os_queues.LinkedList.{Ptr, null, is_null}
use disastr_os_queues.Pcb.{pcb_alloc, pcb_free, pcb_ptr_alloc, pcb_ptr_free}
use disastr_os_queues.Kernel.{
  System, ProcessStatus, Context, trampoline, Pcb, ready_list, waiting_list, zombie_list, children,
  Cmd, out_of_fuel, pure, ◌>>=◌, ◌>>◌, get, modify, assert, get_pcb, set_pcb, int_arg, ptr_arg, arg,
  retvalue, next_item, get_head, list_append, list_detach, espawn, ewait,
}

abbrev pub is_zombie : ProcessStatus → Bool
is_zombie ProcessStatus.zombie = true
is_zombie _ = false

-- What `internal_fork` and `internal_spawn` have in common, with the new process as the result;
-- null if none could be made.
new_child : Cmd Ptr
new_child = do
  new_pcb ← pcb_alloc
  if is_null new_pcb then (do retvalue espawn; pure null) else do
    s ← get
    set_pcb new_pcb λ c. record c { status = ProcessStatus.ready; parent = s.running }
    new_pcb_ptr ← pcb_ptr_alloc new_pcb
    assert (not (is_null new_pcb_ptr))
    _ ← list_append (children s.running) new_pcb_ptr
    _ ← list_append ready_list new_pcb
    c ← get_pcb new_pcb
    retvalue c.pid
    pure new_pcb

-- The context of the new process is not written.
unfoldable pub internal_fork : Cmd (Unit {0})
unfolding new_child
internal_fork = do _ ← new_child; pure tt

unfoldable pub internal_spawn : Cmd (Unit {0})
unfolding new_child
internal_spawn = do
  new_pcb ← new_child
  if is_null new_pcb then pure tt else do
    f ← arg 0
    new_function ← ptr_arg f
    a ← arg 1
    args ← ptr_arg a
    set_pcb new_pcb λ c. record c { cpu_state = trampoline new_function args }

-- The loop over the children: the item and the process that it stopped at, or visited last.
unfoldable pub find_awaited : ℕ → ℤ → Ptr → Ptr → Ptr → Cmd (Ptr × Ptr)
find_awaited zero pid_to_wait aux awaited_pcb_ptr awaited_pcb = λ _. out_of_fuel
find_awaited (suc rounds) pid_to_wait aux awaited_pcb_ptr awaited_pcb =
    if is_null aux then pure (awaited_pcb_ptr, awaited_pcb) else do
      s ← get
      let pcb = s.pcb_ptrs aux
      c ← get_pcb pcb
      let any = eq_ℤ pid_to_wait (pos 0)
      if (any && is_zombie c.status) || (not any && eq_ℤ c.pid pid_to_wait)
          then pure (aux, pcb)
          else do next ← next_item aux; find_awaited rounds pid_to_wait next aux pcb

-- The awaited process is a zombie: its return value is passed on and its block is released.
unfoldable pub reap : Ptr → Ptr → Ptr → Cmd (Unit {0})
reap result awaited_pcb_ptr awaited_pcb = do
  s ← get
  _ ← list_detach (children s.running) awaited_pcb_ptr
  _ ← pcb_ptr_free awaited_pcb_ptr
  _ ← list_detach zombie_list awaited_pcb
  c ← get_pcb awaited_pcb
  retvalue c.pid
  if is_null result
      then pure tt
      else modify (λ t. record t { ints = update t.ints result c.return_value })
  _ ← pcb_free awaited_pcb
  pure tt

-- The next process may be null, and its status is not written.
unfoldable pub wait_for_child : Cmd (Unit {0})
wait_for_child = do
  s ← get
  set_pcb s.running λ c. record c { status = ProcessStatus.waiting }
  _ ← list_append waiting_list s.running
  h ← get_head ready_list
  next_running ← list_detach ready_list h.first
  modify λ t. record t { running = next_running }

-- The status of a process, which is read only if there is one.
awaits_zombie : Ptr → Cmd Bool
awaits_zombie pcb =
    if is_null pcb then pure false else do c ← get_pcb pcb; pure (is_zombie c.status)

unfoldable pub internal_wait : ℕ → Cmd (Unit {0})
unfolding find_awaited reap wait_for_child awaits_zombie
internal_wait rounds = do
  a ← arg 0
  pid_to_wait ← int_arg a
  r ← arg 1
  result ← ptr_arg r
  s ← get
  h ← get_head (children s.running)
  if is_null h.first then retvalue ewait else do
    (awaited_pcb_ptr, awaited_pcb) ← find_awaited rounds pid_to_wait h.first null null
    if ltb_ℤ (pos 0) pid_to_wait && is_null awaited_pcb then retvalue ewait else do
      dead ← awaits_zombie awaited_pcb
      if dead then reap result awaited_pcb_ptr awaited_pcb else wait_for_child
