-- ===== src/Messages/Bound.antt =====
-- The number of messages in a queue.
use disastr_os_queues.Base.{
  ℕ, ℤ, pos, pos_part, ◌≤◌, ◌<◌, ◌≡◌, refl, true, false, List, [], ◌∷◌, ◌++◌, arith, length,
  length-append, has, ltb, ltb_ℤ, Bool-cases, inl, inr, sym, ◌∙◌,
}
use disastr_os_queues.LinkedList.{Ptr, is_null}
use disastr_os_queues.LinkedList.Chain.{IsList, IsList-frame}
use disastr_os_queues.PoolAllocator.Free.{IsPool, IsPlaced, block}
use disastr_os_queues.Files.Open.{IsOpen}
use disastr_os_queues.Schedule.Rotate.{IsUnlinked}
use disastr_os_queues.Messages.{internal_send_message}
use disastr_os_queues.Messages.Blocking.{Blocked}
use disastr_os_queues.Messages.Fifo.{Enqueued, internal_send_message-Enqueued}
use disastr_os_queues.Messages.Full.{internal_send_message-Blocked}
use disastr_os_queues.Kernel.{System, int, pointer, Ends, Ends-mono, no_msg_sent}

-- The queue may hold `m` messages, and holds no more.
pub record Bounded (q : Ptr) (m : ℕ) (s : System) : Type 0 where
  pub capacity : (s.queues q).max_messages ≡ pos m
  pub members : List Ptr
  pub list : IsList s.items (s.queues q).messages members
  pub bound : length members ≤ m

module _ (s : System) (q msg : Ptr) (xs ws : List Ptr) (i j m : ℕ) (strings free : List ℕ)
    (rounds : ℕ) (fd : ℤ) (ds : Ptr) (o : IsOpen s rounds fd ds q) (q_some : is_null q ≡ false)
    (buffer : (s.pcbs s.running).syscall_args 0 ≡ pointer msg)
    (number : (s.pcbs s.running).syscall_args 1 ≡ int fd)
    (l : IsList s.items (s.queues q).messages xs) (capacity : (s.queues q).max_messages ≡ pos m)
    (bound : length xs ≤ m) where
  room : ltb_ℤ (s.queues q).messages.size (s.queues q).max_messages ≡ true → length xs < m
  room h =
      let same : ltb_ℤ (s.queues q).messages.size (s.queues q).max_messages ≡ ltb (length xs) m =
        rw (l.size, capacity) refl in
      let less : ltb (length xs) m ≡ true = sym same ∙ h in ground arith

  Enqueued-Bounded :
      (m' str : Ptr) (t : System)
      → ltb_ℤ (s.queues q).messages.size (s.queues q).max_messages ≡ true
      → Enqueued s q m' str msg xs t
      → Bounded q m t
  Enqueued-Bounded m' str t h e = record {
    capacity = e.capacity ∙ capacity;
    members = xs ++ m' ∷ [];
    list = e.list;
    bound = let r = room h in omega (arith, length-append xs (m' ∷ []));
  }

  Blocked-Bounded :
      (user : Ptr) (t : System)
      → ((a : Ptr) → has a xs ≡ true → has a (s.running ∷ ws) ≡ false)
      → Blocked s user no_msg_sent ws t
      → Bounded q m t
  Blocked-Bounded user t apart b = record {
    capacity = rw b.queues capacity;
    members = xs;
    list = rw b.queues (IsList-frame l λ a h. b.same a (apart a h));
    bound = bound;
  }

  -- Whether the queue has room or is full, `internal_sendMessage` on a queue with no more messages
  -- than it may hold ends with no more messages than it may hold, given a text that is not null, a
  -- message size of at most a string block, and a free block each for a string and a message, the
  -- latter linked to nothing. The process stands in no list, and no message in the waiting list.
  pub internal_send_message-Bounded :
      (waiting : IsList s.items s.waiting_list ws)
      → IsUnlinked s s.running
      → has s.running ws ≡ false
      → ((a : Ptr) → has a xs ≡ true → has a (s.running ∷ ws) ≡ false)
      → is_null (s.descriptor_items ds).writer ≡ false
      → IsPool s.pools.msg_strings (i ∷ strings)
      → IsPlaced s.pools.msg_strings
      → IsPool s.pools.message (j ∷ free)
      → IsPlaced s.pools.message
      → IsUnlinked s (block s.pools.message j)
      → has (block s.pools.message j) xs ≡ false
      → is_null msg ≡ false
      → pos_part (s.queues q).msg_size ≤ s.pools.msg_strings.item_size
      → Ends (λ _ t. Bounded q m t) (internal_send_message rounds s)
  internal_send_message-Bounded waiting alone out apart writer string_pool string_placed pool placed
        unlinked fresh msg_some fits =
      elim (Bool-cases (ltb_ℤ (s.queues q).messages.size (s.queues q).max_messages)) [
        | inl h ↦
            Ends-mono
              (λ _ t. Enqueued s q (block s.pools.message j) (block s.pools.msg_strings i) msg xs t)
              (λ _ t. Bounded q m t) (internal_send_message rounds s)
              (internal_send_message-Enqueued s q msg xs i j strings free o.running_some q_some
                buffer l string_pool string_placed pool placed unlinked fresh msg_some fits rounds
                fd ds o number h)
              λ _ t e.
                Enqueued-Bounded (block s.pools.message j) (block s.pools.msg_strings i) t h e
        | inr full ↦
            Ends-mono (λ _ t. Blocked s (s.descriptor_items ds).writer no_msg_sent ws t)
              (λ _ t. Bounded q m t) (internal_send_message rounds s)
              (internal_send_message-Blocked s rounds fd ds q o q_some number ws waiting alone out
                full writer)
              λ _ t b. Blocked-Bounded (s.descriptor_items ds).writer t apart b
      ]
