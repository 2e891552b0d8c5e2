-- ===== src/Messages.antt =====
-- The system calls that move messages: disastrOS_send_msg.c, disastrOS_receive_msg.c and
-- disastrOS_wake_queue.c.
pub mod Blocking
pub mod Bound
pub mod Copy
pub mod Fifo
pub mod Full
pub mod Handover
pub mod Wake
use disastr_os_queues.Base.{
  ℕ, zero, suc, ◌+◌, ℤ, pos, eq_ℤ, ltb, ltb_ℤ, Bool, true, false, ◌&&◌, ◌||◌, ◌==◌, if◌then◌else◌,
  update, pos_part,
}
use disastr_os_queues.LinkedList.{Ptr, null, is_null}
use disastr_os_queues.Files.{queue_by_fd, queue_entries}
use disastr_os_queues.Process.Exit.{is_waiting}
use disastr_os_queues.Pcb.{pcb_by_pid}
use disastr_os_queues.Resource.QueueObject.{msg_string_alloc, message_alloc, message_free}
use disastr_os_queues.Kernel.{
  System, ProcessStatus, ListRef, ready_list, waiting_list, messages, Queue, WakeupCheck,
  condition_recv, condition_send, Arg, list_ref, check, Cmd, out_of_fuel, fault, ok, pure, ◌>>=◌,
  ◌>>◌, get, modify, get_pcb, set_pcb, get_queue, get_message, get_descriptor, set_queue_user,
  int_arg, ptr_arg, arg, retvalue, next_item, get_head, list_append, list_detach, list_pop,
  no_msg_received, no_msg_sent,
}

-- Copies characters up to a count, or up to and with the first zero.
unfoldable pub copy : ℕ → Ptr → Ptr → (Ptr → ℕ) → Ptr → ℕ
copy zero to from bytes = bytes
copy (suc rounds) to from bytes =
    let bytes' = update bytes to (bytes from) in
    let rest = copy rounds (to + 1) (from + 1) bytes' in if bytes' from == 0 then bytes' else rest

-- The copy loop: if there is a character to copy, it follows both pointers.
unfoldable pub copy_text : ℕ → Ptr → Ptr → Cmd (Unit {0})
unfolding copy
copy_text rounds to from s =
    if ltb 0 rounds && (is_null to || is_null from)
    then fault
    else ok tt (record s { bytes = copy rounds to from s.bytes })

-- The process goes into the waiting list, and is still the running one.
unfoldable pub block_on : Ptr → ℤ → Cmd (Unit {0})
block_on user result = do
  set_queue_user user λ u. record u { status = ProcessStatus.waiting }
  s ← get
  set_pcb s.running λ c. record c { status = ProcessStatus.waiting }
  _ ← list_append waiting_list s.running
  retvalue result

-- The queue has room: the message is copied into a new one at its end.
unfoldable pub enqueue : Ptr → Cmd (Unit {0})
unfolding copy_text
enqueue q = do
  c ← get_queue q
  a ← arg 0
  msg ← ptr_arg a
  m_buffer ← msg_string_alloc
  m ← message_alloc m_buffer c.msg_size
  if is_null m || is_null m_buffer then retvalue no_msg_sent else do
    k ← get_message m
    copy_text (pos_part k.len) k.message msg
    _ ← list_append (messages q) m
    retvalue (pos 0)

unfoldable pub internal_send_message : ℕ → Cmd (Unit {0})
unfolding enqueue block_on
internal_send_message rounds = do
  b ← arg 1
  fd ← int_arg b
  q ← queue_by_fd rounds fd
  entries ← queue_entries rounds fd
  c ← get_queue q
  if ltb_ℤ c.messages.size c.max_messages
      then enqueue q
      else do d ← get_descriptor entries; block_on d.writer no_msg_sent

-- A message was taken from the queue: its characters are copied to the buffer.
unfoldable pub deliver : Ptr → Ptr → Cmd (Unit {0})
unfolding copy_text
deliver message msg = do
  k ← get_message message
  copy_text (pos_part k.len) msg k.message
  _ ← message_free message
  retvalue (pos 0)

unfoldable pub internal_recv_message : ℕ → Cmd (Unit {0})
unfolding deliver block_on
internal_recv_message rounds = do
  b ← arg 1
  fd ← int_arg b
  q ← queue_by_fd rounds fd
  entries ← queue_entries rounds fd
  a ← arg 0
  msg ← ptr_arg a
  if is_null msg then retvalue no_msg_received else do
    message ← list_pop (messages q)
    if is_null message
        then (do d ← get_descriptor entries; block_on d.reader no_msg_received)
        else deliver message msg

unfoldable wakeup_flag_condition_recv : Queue → Bool
wakeup_flag_condition_recv q = ltb_ℤ q.messages.size q.max_messages && ltb_ℤ (pos 0) q.writers.size

unfoldable pub wakeup_flag_condition_send : Queue → Bool
wakeup_flag_condition_send q = ltb_ℤ (pos 0) q.messages.size && ltb_ℤ (pos 0) q.readers.size

unfoldable pub run_check : WakeupCheck → Queue → Bool
unfolding wakeup_flag_condition_recv wakeup_flag_condition_send
run_check condition_recv q = wakeup_flag_condition_recv q
run_check condition_send q = wakeup_flag_condition_send q

-- The loop over the users of the queue and, for a waiting one, that over the waiting list, which
-- makes `limit` rounds at most.
unfoldable pub wake_first : (limit rounds : ℕ) → Ptr → Cmd (Unit {0})
wake_first limit zero queue_usr = λ _. out_of_fuel
wake_first limit (suc rounds) queue_usr = if is_null queue_usr then retvalue (pos 0) else do
  s ← get
  let u = s.queue_users queue_usr
  aux ← (if is_waiting u.status then pcb_by_pid limit waiting_list u.pid else pure null)
  if is_null aux then (do next ← next_item queue_usr; wake_first limit rounds next) else do
    set_queue_user queue_usr λ v. record v { status = ProcessStatus.running }
    _ ← list_detach waiting_list aux
    _ ← list_append ready_list aux
    retvalue (pos 0)

abbrev check_arg : Arg → Cmd WakeupCheck
check_arg (check c) s = ok c s
check_arg _ s = fault

abbrev list_arg : Arg → Cmd ListRef
list_arg (list_ref l) s = ok l s
list_arg _ s = fault

unfoldable pub internal_wake_up_queue : ℕ → Cmd (Unit {0})
unfolding run_check wake_first
internal_wake_up_queue rounds = do
  a ← arg 0
  wakeup_check ← check_arg a
  b ← arg 1
  p ← ptr_arg b
  q ← get_queue p
  c ← arg 2
  queue_users ← list_arg c
  if run_check wakeup_check q
      then (do h ← get_head queue_users; wake_first rounds rounds h.first)
      else retvalue (pos 0)
