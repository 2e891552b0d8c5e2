-- ===== src/Messages/Handover.antt =====
-- A process sends a message into an empty queue, and the next one that runs receives it.
use disastr_os_queues.Base.{
  ℕ, ℤ, ◌+◌, ◌≤◌, ◌<◌, pos, ◌≡◌, ◌⊎◌, refl, true, false, List, [], ◌∷◌, arith, ltb_ℤ, has, ap, ◌∙◌,
  ◌==◌, update, pos_part, if◌then◌else◌,
}
use disastr_os_queues.LinkedList.{Ptr, is_null}
use disastr_os_queues.LinkedList.Chain.{IsList, IsList-frame}
use disastr_os_queues.PoolAllocator.Free.{IsPool, IsPlaced, block}
use disastr_os_queues.PoolAllocator.Outside.{IsOutside}
use disastr_os_queues.Messages.{internal_recv_message, internal_send_message}
use disastr_os_queues.Messages.Copy.{copied_length}
use disastr_os_queues.Messages.Copy.Twice.{copy-copy}
use disastr_os_queues.Messages.Fifo.{
  Enqueued, Received, internal_send_message-Enqueued, internal_recv_message-Received,
}
use disastr_os_queues.Files.Open.{IsOpen}
use disastr_os_queues.Schedule.Rotate.{IsUnlinked}
use disastr_os_queues.Resource.QueueObject.{message_offset}
use disastr_os_queues.Kernel.{
  System, Cmd, pointer, int, modify, ◌>>◌, Ends, Ends-and_then, Ends-mono,
}

-- The process `p` runs, and calls with a buffer and a descriptor's number.
abbrev pub resume : Ptr → Ptr → ℤ → System → System
resume p buffer fd s = record s {
  running = p;
  pcbs =
      update s.pcbs p
        (record (s.pcbs p) { syscall_args = λ i. if i == 0 then pointer buffer else int fd });
}

-- One process sends, then the process `p` receives.
abbrev pub hand_over : ℕ → Ptr → Ptr → ℤ → Cmd (Unit {0})
hand_over rounds p buffer fd = do
  internal_send_message rounds
  modify (resume p buffer fd)
  internal_recv_message rounds

-- The text at `msg` before is in the buffer of the process `p`, and the queue is empty again.
pub record HandedOver (s : System) (q p msg buffer : Ptr) (t : System) : Type 0 where
  pub text :
      (k : ℕ)
      → k < copied_length (pos_part (s.queues q).msg_size) msg s.bytes
      → t.bytes (buffer + k) ≡ s.bytes (msg + k)
  pub list : IsList t.items (t.queues q).messages []
  pub result : (t.pcbs p).syscall_retvalue ≡ pos 0
  pub running : t.running ≡ p

module _ (s t : System) (q m str msg p buffer ds : Ptr) (fd : ℤ) (rounds : ℕ)
    (e : Enqueued s q m str msg [] t) (o : IsOpen (resume p buffer fd s) rounds fd ds q)
    (elsewhere : has m o.opened ≡ false) where
  -- The sender leaves the receiver's descriptors as they are.
  still_open : IsOpen (resume p buffer fd t) rounds fd ds q
  still_open =
      let self : (p == p) ≡ true = ground arith in
      let list : IsList s.items (s.pcbs p).descriptors o.opened = rw self at o.list in
      record {
        running_some = o.running_some;
        opened = o.opened;
        list = rw (self, e.opened p) (IsList-frame list λ a h. e.same a (ground arith));
        fuel = o.fuel;
        found = rw e.descriptors o.found;
        ds_some = o.ds_some;
        resource_some = rw e.descriptors o.resource_some;
        value = rw (e.descriptors, e.resources) o.value;
      }

-- Out of an empty queue with room comes what went in: after one process has sent a text, the next
-- one that runs and has the queue open finds it in its buffer, each character up to the first zero
-- or to the message size, with the answer 0, and the queue is empty again. Neither the text nor the
-- buffer is null, the message size is at most a string block, and a string block and a message block
-- are free, apart from the text, the buffer and the receiver's descriptors.
pub hand_over-HandedOver :
    (s : System) (q msg p buffer : Ptr) (i j : ℕ) (strings free : List ℕ)
    → is_null s.running ≡ false
    → is_null q ≡ false
    → (s.pcbs s.running).syscall_args 0 ≡ pointer msg
    → IsList s.items (s.queues q).messages []
    → IsPool s.pools.msg_strings (i ∷ strings)
    → IsPlaced s.pools.msg_strings
    → IsPool s.pools.message (j ∷ free)
    → IsPlaced s.pools.message
    → IsUnlinked s (block s.pools.message j)
    → IsOutside s.pools.msg_strings (block s.pools.message j + message_offset)
    → (rounds : ℕ) (fd fd' : ℤ) (ds ds' : Ptr) → IsOpen s rounds fd ds q
    → (s.pcbs s.running).syscall_args 1 ≡ int fd
    → ltb_ℤ (s.queues q).messages.size (s.queues q).max_messages ≡ true
    → (o : IsOpen (resume p buffer fd' s) rounds fd' ds' q)
    → has (block s.pools.message j) o.opened ≡ false
    → is_null buffer ≡ false
    → is_null msg ≡ false
    → pos_part (s.queues q).msg_size ≤ s.pools.msg_strings.item_size
    → (msg + pos_part (s.queues q).msg_size ≤ block s.pools.msg_strings i)
      ⊎ (block s.pools.msg_strings i + pos_part (s.queues q).msg_size ≤ msg)
    → (block s.pools.msg_strings i + pos_part (s.queues q).msg_size ≤ buffer)
      ⊎ (buffer + pos_part (s.queues q).msg_size ≤ block s.pools.msg_strings i)
    → Ends (λ _ t. HandedOver s q p msg buffer t) (hand_over rounds p buffer fd' s)
hand_over-HandedOver s q msg p buffer i j strings free some q_some text l string_pool string_placed
      pool placed alone out rounds fd fd' ds ds' own number room o elsewhere buffer_some msg_some
      fits apart apart' =
    let m = block s.pools.message j in
    let str = block s.pools.msg_strings i in
    Ends-and_then (λ _ t. Enqueued s q m str msg [] t) (λ _ t. HandedOver s q p msg buffer t)
      (internal_send_message rounds s) (λ _ t. internal_recv_message rounds (resume p buffer fd' t))
      (internal_send_message-Enqueued s q msg [] i j strings free some q_some text l string_pool
        string_placed pool placed alone refl msg_some fits rounds fd ds own number room)
      λ _ t e.
        let self : (p == p) ≡ true = ground arith in
        let str_some : is_null str ≡ false = let h = string_placed.buffer_pos in ground arith in
        let received =
          internal_recv_message-Received (resume p buffer fd' t) rounds fd' ds' q m buffer []
            (still_open s t q m str msg p buffer ds' fd' rounds e o elsewhere) q_some buffer_some
            (rw self refl) (rw self refl) e.list (rw e.message str_some) (e.strings string_placed)
            (e.outside (m + message_offset) out) in
        Ends-mono (λ _ u. Received (resume p buffer fd' t) q m buffer [] u)
          (λ _ u. HandedOver s q p msg buffer u)
          (internal_recv_message rounds (resume p buffer fd' t)) received
          λ _ u r. record {
            text = λ k lt.
                ap (λ (b : Ptr → ℕ). b (buffer + k)) r.text
                ∙ rw (e.message, e.text)
                    (copy-copy (pos_part (s.queues q).msg_size) msg str buffer s.bytes k apart
                      apart' lt);
            list = r.list;
            result = r.result;
            running = r.running;
          }
