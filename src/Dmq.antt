-- ===== src/Dmq.antt =====
-- disastrOS_queue.c: the queue interface of a process. A call that makes system calls ends in
-- `switched` where another process gets the processor; what comes after is up to the scheduler.
pub mod Attributes
pub mod Refusals
use disastr_os_queues.Base.{
  ℕ, zero, suc, ℤ, pos, eq_ℤ, ltb_ℤ, decr, has_flag, not, ◌&&◌, ◌+◌, if◌then◌else◌, [], ◌∷◌,
}
use disastr_os_queues.LinkedList
use disastr_os_queues.LinkedList.{Ptr, null, is_null}
use disastr_os_queues.Files.{queue_by_fd, queue_entries}
use disastr_os_queues.Resource.QueueObject.{queue_user_free}
use disastr_os_queues.Trap.{disastr_os_syscall}
use disastr_os_queues.Calls.{
  disastr_os_preempt, disastr_os_open_resource, disastr_os_close_resource,
  disastr_os_destroy_resource, disastr_os_open_queue,
}
use disastr_os_queues.Kernel.{
  readers, writers, non_block, int, pointer, list_ref, check, condition_recv, condition_send, Cmd,
  out_of_fuel, pure, ◌>>=◌, ◌>>◌, get, get_queue, set_queue, get_descriptor, list_detach, with_fuel,
  call_send_msg, call_recv_msg, call_wakeup_queue, creat, q_excl, create_flag, excl_flag,
  max_num_messages_per_queue, invalid_fd, invalid_attribute, att_not_set, invalid_value,
  operation_not_available, buffer_too_small, msg_too_big, action_not_allowed, eagain,
  no_msg_received, no_msg_sent,
}

abbrev pub att_queue_current_messages : ℤ
att_queue_current_messages = pos 0

abbrev pub att_queue_max_messages : ℤ
att_queue_max_messages = pos 1

abbrev pub att_queue_message_size : ℤ
att_queue_message_size = pos 2

abbrev pub att_queue_openings : ℤ
att_queue_openings = pos 3

unfoldable dmq_close : ℕ → ℤ → Cmd ℤ
dmq_close rounds fd = do
  q ← queue_by_fd rounds fd
  if is_null q then pure invalid_fd else do
    entries ← queue_entries rounds fd
    d ← get_descriptor entries
    r ← list_detach (readers q) d.reader
    _ ← queue_user_free r
    w ← list_detach (writers q) d.writer
    _ ← queue_user_free w
    n ← list_detach (non_block q) d.blocker
    _ ← queue_user_free n
    retval ← disastr_os_close_resource rounds fd
    if not (eq_ℤ retval (pos 0))
        then pure retval
        else do set_queue q λ c. record c { openings = decr c.openings }; pure (pos 0)

unfoldable pub dmq_getattr : ℕ → ℤ → ℤ → Cmd ℤ
dmq_getattr rounds fd attribute_constant = do
  q ← queue_by_fd rounds fd
  if is_null q then pure invalid_fd else do
    c ← get_queue q
    pure (
        if eq_ℤ attribute_constant att_queue_current_messages
        then c.messages.size
        else if eq_ℤ attribute_constant att_queue_max_messages
        then c.max_messages
        else if eq_ℤ attribute_constant att_queue_openings
        then c.openings
        else if eq_ℤ attribute_constant att_queue_message_size
        then c.msg_size
        else invalid_attribute)

unfoldable pub dmq_setattr : ℕ → ℤ → ℤ → ℤ → Cmd ℤ
dmq_setattr rounds fd attribute_constant new_val = do
  q ← queue_by_fd rounds fd
  if is_null q
      then pure invalid_fd
      else if eq_ℤ attribute_constant att_queue_current_messages
      then pure att_not_set
      else if eq_ℤ attribute_constant att_queue_openings
      then pure att_not_set
      else if eq_ℤ attribute_constant att_queue_max_messages
      then (if ltb_ℤ (pos max_num_messages_per_queue) new_val
          then pure invalid_value
          else do set_queue q λ c. record c { max_messages = new_val }; pure (pos 0))
      else if eq_ℤ attribute_constant att_queue_message_size
      then (do
        c ← get_queue q
        if ltb_ℤ (pos 0) c.messages.size
            then pure operation_not_available
            else do set_queue q λ k. record k { msg_size = new_val }; pure (pos 0))
      else pure invalid_attribute

-- The mode of the resource, from the mode of the queue.
unfoldable resource_flags : ℤ → ℕ
resource_flags mode =
    if not (has_flag mode creat)
    then 0
    else if has_flag mode q_excl
    then create_flag + excl_flag
    else create_flag

unfoldable dmq_open : ℕ → ℤ → ℤ → Cmd ℤ
unfolding resource_flags
dmq_open rounds resource_id mode = do
  fd ← disastr_os_open_resource rounds resource_id (pos 2) (pos (resource_flags mode))
  if ltb_ℤ fd (pos 0) then pure fd else disastr_os_open_queue rounds resource_id fd mode

unfoldable dmq_unlink : ℕ → ℤ → Cmd ℤ
dmq_unlink rounds id = disastr_os_destroy_resource rounds id

-- `while (syscall(num, buffer, fd) == refused) disastrOS_preempt();`
unfoldable until_done : ℕ → (rounds num : ℕ) → Ptr → ℤ → ℤ → Cmd (Unit {0})
until_done zero rounds num buffer fd refused = λ _. out_of_fuel
until_done (suc tries) rounds num buffer fd refused = do
  result ← disastr_os_syscall rounds (pos num) (pointer buffer ∷ int fd ∷ [])
  if not (eq_ℤ result refused)
      then pure tt
      else do _ ← disastr_os_preempt rounds; until_done tries rounds num buffer fd refused

unfoldable pub dmq_receive : ℕ → ℤ → Ptr → ℤ → Cmd ℤ
unfolding until_done
dmq_receive rounds fd buffer_ptr buffer_size = do
  q ← queue_by_fd rounds fd
  if is_null q then pure invalid_fd else do
    c ← get_queue q
    if ltb_ℤ buffer_size c.msg_size then pure buffer_too_small else do
      entries ← queue_entries rounds fd
      d ← get_descriptor entries
      s ← get
      reader ← with_fuel (LinkedList.find rounds c.readers s.items d.reader)
      if is_null reader
          then pure action_not_allowed
          else if eq_ℤ c.messages.size (pos 0) && not (is_null d.blocker)
          then pure eagain
          else do
            until_done rounds rounds call_recv_msg buffer_ptr fd no_msg_received
            _ ←
                disastr_os_syscall rounds (pos call_wakeup_queue)
                  (check condition_recv ∷ pointer q ∷ list_ref (writers q) ∷ [])
            pure (pos 0)

unfoldable pub dmq_send : ℕ → ℤ → Ptr → ℤ → Cmd ℤ
unfolding until_done
dmq_send rounds fd msg_ptr msg_len = do
  q ← queue_by_fd rounds fd
  if is_null q then pure invalid_fd else do
    c ← get_queue q
    if ltb_ℤ c.msg_size msg_len then pure msg_too_big else do
      entries ← queue_entries rounds fd
      d ← get_descriptor entries
      s ← get
      writer ← with_fuel (LinkedList.find rounds c.writers s.items d.writer)
      if is_null writer
          then pure action_not_allowed
          else if eq_ℤ c.messages.size c.max_messages && not (is_null d.blocker)
          then pure eagain
          else do
            until_done rounds rounds call_send_msg msg_ptr fd no_msg_sent
            _ ←
                disastr_os_syscall rounds (pos call_wakeup_queue)
                  (check condition_send ∷ pointer q ∷ list_ref (readers q) ∷ [])
            pure (pos 0)
