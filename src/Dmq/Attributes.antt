-- ===== src/Dmq/Attributes.antt =====
-- dmq_getattr and dmq_setattr on an open queue.
use disastr_os_queues.Base.{ℕ, ℤ, pos, ◌≡◌, ◌≢◌, false, eq_ℤ, ltb_ℤ, if◌then◌else◌, update}
use disastr_os_queues.LinkedList.{Ptr}
use disastr_os_queues.Dmq.{
  dmq_getattr, att_queue_current_messages, att_queue_max_messages, att_queue_message_size,
  att_queue_openings,
}
use disastr_os_queues.Kernel.{
  ◌>>=◌, ◌>>◌, System, Queue, Ends, ok, invalid_attribute, att_not_set, invalid_value,
  operation_not_available, max_num_messages_per_queue,
}

-- What an attribute of a queue is.
abbrev pub attribute : Queue → ℤ → ℤ
attribute c a =
    if eq_ℤ a att_queue_current_messages
    then c.messages.size
    else if eq_ℤ a att_queue_max_messages
    then c.max_messages
    else if eq_ℤ a att_queue_openings
    then c.openings
    else if eq_ℤ a att_queue_message_size
    then c.msg_size
    else invalid_attribute

abbrev with_queue : System → Ptr → Queue → System
with_queue s q c = record s { queues = update s.queues q c }

-- The answer to setting attribute `a` of the queue `c` to `v`: a limit on the messages may not lie
-- above that of the system, the message size may be set while no message waits, and no other
-- attribute may be set at all.
abbrev pub set_answer : Queue → ℤ → ℤ → ℤ
set_answer c a v =
    if eq_ℤ a att_queue_max_messages
    then (if ltb_ℤ (pos max_num_messages_per_queue) v then invalid_value else pos 0)
    else if eq_ℤ a att_queue_message_size
    then (if ltb_ℤ (pos 0) c.messages.size then operation_not_available else pos 0)
    else if eq_ℤ a att_queue_current_messages
    then att_not_set
    else if eq_ℤ a att_queue_openings
    then att_not_set
    else invalid_attribute

-- The outcome of setting attribute `a` of the queue `q` to `v`: if it may be set, it has the new
-- value and the others have not changed, or else nothing has changed.
pub record WasSet (s : System) (q : Ptr) (rounds : ℕ) (fd : ℤ) (a v r : ℤ) (t : System)
    : Type 0 where
  pub answer : r ≡ set_answer (s.queues q) a v
  pub changed : r ≡ pos 0 → dmq_getattr rounds fd a t ≡ ok v t
  pub refused : r ≢ pos 0 → t ≡ s
  pub others :
      (b : ℤ)
      → eq_ℤ a b ≡ false
      → Ends (λ x _. Ends (λ y _. x ≡ y) (dmq_getattr rounds fd b t)) (dmq_getattr rounds fd b s)
