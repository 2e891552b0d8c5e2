-- ===== src/Files.antt =====
-- The system calls on resources: disastrOS_open_resource.c, disastrOS_close_resource.c,
-- disastrOS_destroy_resource.c, disastrOS_open_queue.c, and the two look-ups by descriptor of
-- disastrOS.c.
pub mod Open
pub mod Opened
pub mod Refusals
pub mod Closed
pub mod Created
pub mod Joined
pub mod Destroyed
use disastr_os_queues.Base.{ℕ, ℤ, pos, eq_ℤ, has_flag, incr, not, ◌&&◌, if◌then◌else◌, update}
use disastr_os_queues.LinkedList.{Ptr, null, is_null}
use disastr_os_queues.Descriptor.{
  descriptor_alloc, descriptor_free, descriptor_by_fd, descriptor_ptr_alloc, descriptor_ptr_free,
}
use disastr_os_queues.Resource.{resource_alloc, resource_free, resource_by_id}
use disastr_os_queues.Resource.QueueObject.{queue_alloc, queue_free, queue_add_pid}
use disastr_os_queues.Kernel.{
  resources_list, descriptors, descriptors_ptrs, int, Cmd, pure, ◌>>=◌, ◌>>◌, get, assert, get_pcb,
  set_pcb, get_resource, set_resource, get_descriptor, set_descriptor, int_arg, arg, retvalue,
  list_append, list_detach, create_flag, excl_flag, eresourcecreate, eresourceopen, eresourcenoexcl,
  eresourcenofd, eresourceclose, eresourceinuse, equeueopen, invalid_fd, list_insertion_error,
}

-- `disastrOS_queue_by_fd`: null if the running process has no such descriptor.
unfoldable pub queue_by_fd : ℕ → ℤ → Cmd Ptr
queue_by_fd rounds fd = do
  s ← get
  ds ← descriptor_by_fd rounds (descriptors s.running) fd
  if is_null ds
      then pure null
      else do d ← get_descriptor ds; res ← get_resource d.resource; pure res.value

-- `disastrOS_queue_entries`: the array lies in the descriptor, which stands for it.
unfoldable pub queue_entries : ℕ → ℤ → Cmd Ptr
queue_entries rounds fd = do s ← get; descriptor_by_fd rounds (descriptors s.running) fd

-- Steps 5 and 6 of `internal_openResource`: a descriptor for the resource in the running process.
unfoldable open_descriptor : Ptr → Cmd (Unit {0})
open_descriptor res = do
  s ← get
  me ← get_pcb s.running
  des ← descriptor_alloc me.last_fd res s.running
  if is_null des then retvalue eresourcenofd else do
    set_pcb s.running λ c. record c { last_fd = incr c.last_fd }
    desptr ← descriptor_ptr_alloc des
    _ ← list_append (descriptors s.running) des
    set_descriptor des λ d. record d { ptr = desptr }
    _ ← list_append (descriptors_ptrs res) desptr
    d ← get_descriptor des
    retvalue d.fd

-- From the point on at which the resource should be there.
unfoldable open_existing : Ptr → ℤ → ℤ → Cmd (Unit {0})
unfolding open_descriptor
open_existing res type open_mode = if is_null res then retvalue eresourceopen else do
  r ← get_resource res
  if not (eq_ℤ r.type type)
      then retvalue eresourceopen
      else if has_flag open_mode excl_flag && not (eq_ℤ r.descriptors_ptrs.size (pos 0))
      then retvalue eresourcenoexcl
      else open_descriptor res

unfoldable pub internal_open_resource : ℕ → Cmd (Unit {0})
unfolding open_existing
internal_open_resource rounds = do
  a ← arg 0
  id ← int_arg a
  b ← arg 1
  type ← int_arg b
  c ← arg 2
  open_mode ← int_arg c
  res ← resource_by_id rounds resources_list id
  if not (has_flag open_mode create_flag)
      then open_existing res type open_mode
      else if has_flag open_mode excl_flag && not (is_null res)
      then retvalue eresourcenoexcl
      else if not (is_null res)
      then open_existing res type open_mode
      else do
        new ← resource_alloc id type
        if is_null new
            then retvalue eresourcecreate
            else do _ ← list_append resources_list new; open_existing new type open_mode

unfoldable pub internal_close_resource : ℕ → Cmd (Unit {0})
internal_close_resource rounds = do
  a ← arg 0
  fd ← int_arg a
  s ← get
  des ← descriptor_by_fd rounds (descriptors s.running) fd
  if is_null des then retvalue eresourceclose else do
    detached ← list_detach (descriptors s.running) des
    assert (not (is_null detached))
    d ← get_descriptor detached
    desptr ← list_detach (descriptors_ptrs d.resource) d.ptr
    assert (not (is_null desptr))
    _ ← descriptor_free detached
    _ ← descriptor_ptr_free desptr
    retvalue (pos 0)

unfoldable pub internal_destroy_resource : ℕ → Cmd (Unit {0})
internal_destroy_resource rounds = do
  a ← arg 0
  id ← int_arg a
  res ← resource_by_id rounds resources_list id
  if is_null res then retvalue eresourceclose else do
    r ← get_resource res
    if not (eq_ℤ r.descriptors_ptrs.size (pos 0)) then retvalue eresourceinuse else do
      detached ← list_detach resources_list res
      assert (not (is_null detached))
      (if not (is_null r.value) && eq_ℤ r.type (pos 2)
          then (do _ ← queue_free rounds r.value; pure tt)
          else pure tt)
      _ ← resource_free detached
      retvalue (pos 0)

-- `running->syscall_args[0] = n`
set_arg : ℤ → Cmd (Unit {0})
set_arg n = do
  s ← get
  set_pcb s.running λ c. record c { syscall_args = update c.syscall_args 0 (int n) }

-- `if (running->syscall_retvalue) return;`
unless_failed : Cmd (Unit {0}) → Cmd (Unit {0})
unless_failed rest = do
  s ← get
  me ← get_pcb s.running
  if not (eq_ℤ me.syscall_retvalue (pos 0)) then pure tt else rest

-- The queue could not be allocated: the descriptor and the resource are given up.
unfoldable abandon_queue : ℕ → ℤ → ℤ → Cmd (Unit {0})
unfolding set_arg unless_failed
abandon_queue rounds resource_id fd = do
  set_arg fd
  internal_close_resource rounds
  unless_failed (do
    set_arg resource_id
    internal_destroy_resource rounds
    unless_failed (retvalue equeueopen))

-- The queue is there: the process is entered into its lists.
unfoldable join_queue : ℕ → Ptr → ℤ → ℤ → Cmd (Unit {0})
join_queue rounds res fd mode = do
  r ← get_resource res
  if not (eq_ℤ r.type (pos 2)) then retvalue invalid_fd else do
    s ← get
    ds ← descriptor_by_fd rounds (descriptors s.running) fd
    me ← get_pcb s.running
    failed ← queue_add_pid r.value me.pid mode ds
    if not (eq_ℤ failed (pos 0)) then retvalue list_insertion_error else retvalue fd

unfoldable pub internal_open_queue : ℕ → Cmd (Unit {0})
unfolding abandon_queue join_queue
internal_open_queue rounds = do
  a ← arg 0
  resource_id ← int_arg a
  b ← arg 1
  fd ← int_arg b
  c ← arg 2
  mode ← int_arg c
  res ← resource_by_id rounds resources_list resource_id
  r ← get_resource res
  if not (is_null r.value) then join_queue rounds res fd mode else do
    q ← queue_alloc r.id
    set_resource res λ k. record k { value = q }
    if is_null q then abandon_queue rounds resource_id fd else join_queue rounds res fd mode
