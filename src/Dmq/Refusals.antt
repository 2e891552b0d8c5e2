-- ===== src/Dmq/Refusals.antt =====
-- What dmq_send and dmq_receive refuse.
use disastr_os_queues.Base.{
  Bool, ℕ, ℤ, pos, ◌<◌, ◌≡◌, refl, true, false, List, length, has, arith, eq_ℤ, ltb_ℤ, not, ◌&&◌,
  Option, none, some, if◌then◌else◌, Bool-cases, inl, inr, ap, sym, ◌∙◌,
}
use disastr_os_queues.LinkedList.{Ptr, null, is_null, Items, ListHead}
use disastr_os_queues.LinkedList.Chain.{IsList, ne_of_not_has}
use disastr_os_queues.LinkedList.Walk.{find-has}
use disastr_os_queues.Files.Open.{IsOpen, queue_by_fd_ok, queue_entries_ok}
use disastr_os_queues.Dmq.{dmq_send, dmq_receive}
use disastr_os_queues.Kernel.{
  System, ok, invalid_fd, msg_too_big, buffer_too_small, action_not_allowed, eagain,
}

-- The error of a call that may not go on: `refused` is that of a size that does not fit, `entry` is the
-- process's entry among `users`, and `stuck` tells whether the queue would make it wait.
abbrev pub refusal :
    (q : Ptr) (misfit : Bool) (refused : ℤ) (entry : Ptr) (users : List Ptr) (stuck : Bool)
    (blocker : Ptr)
    → Option ℤ
refusal q misfit refused entry users stuck blocker =
    if is_null q
    then some invalid_fd
    else if misfit
    then some refused
    else if not (has entry users)
    then some action_not_allowed
    else if stuck && not (is_null blocker)
    then some eagain
    else none

-- The cases of a refusal.
data Refused (q : Ptr) (misfit : Bool) (refused : ℤ) (entry : Ptr) (users : List Ptr) (stuck : Bool)
    (blocker : Ptr) (v : ℤ) : Type 0 where
  no_queue :
      is_null q ≡ true → invalid_fd ≡ v → Refused q misfit refused entry users stuck blocker v
  no_fit :
      is_null q ≡ false
      → misfit ≡ true
      → refused ≡ v
      → Refused q misfit refused entry users stuck blocker v
  no_user :
      is_null q ≡ false
      → misfit ≡ false
      → has entry users ≡ false
      → action_not_allowed ≡ v
      → Refused q misfit refused entry users stuck blocker v
  no_wait :
      is_null q ≡ false
      → misfit ≡ false
      → has entry users ≡ true
      → (stuck && not (is_null blocker)) ≡ true
      → eagain ≡ v
      → Refused q misfit refused entry users stuck blocker v

some_injective : {A : Type 0} (a b : A) → some a ≡ some b → a ≡ b
some_injective a b h = cc

none-ne-some : {A : Type 0} (a : A) → ◌≡◌ {A = Option A} none (some a) → ⊥
none-ne-some a h = cc

module _ (q : Ptr) (misfit : Bool) (refused : ℤ) (entry : Ptr) (users : List Ptr) (stuck : Bool)
    (blocker : Ptr) (v : ℤ) (r : refusal q misfit refused entry users stuck blocker ≡ some v) where
  error_is : (e : ℤ) → refusal q misfit refused entry users stuck blocker ≡ some e → e ≡ v
  error_is e p = some_injective e v (sym p ∙ r)

  Refused-user :
      is_null q ≡ false → misfit ≡ false → Refused q misfit refused entry users stuck blocker v
  Refused-user queue fits = elim (Bool-cases (has entry users)) [
    | inr absent ↦
        no_user queue fits absent (error_is action_not_allowed (rw (queue, fits, absent) refl))
    | inl user ↦ elim (Bool-cases (stuck && not (is_null blocker))) [
      | inl waits ↦
          no_wait queue fits user waits (error_is eagain (rw (queue, fits, user, waits) refl))
      | inr goes ↦
          let nothing : refusal q misfit refused entry users stuck blocker ≡ none =
            rw (queue, fits, user, goes) refl in
          absurd (none-ne-some v (sym nothing ∙ r))
    ]
  ]

  refusal-Refused : Refused q misfit refused entry users stuck blocker v
  refusal-Refused = elim (Bool-cases (is_null q)) [
    | inl absent ↦ no_queue absent (error_is invalid_fd (rw absent refl))
    | inr queue ↦ elim (Bool-cases misfit) [
      | inl big ↦ no_fit queue big (error_is refused (rw (queue, big) refl))
      | inr fits ↦ Refused-user queue fits
    ]
  ]

entry_some :
    (items : Items) (head : ListHead) (users : List Ptr) (entry : Ptr)
    → IsList items head users
    → has entry users ≡ true
    → is_null entry ≡ false
entry_some items head users entry l h =
    let ne = ne_of_not_has null entry users l.non_null h in ground arith

module _ (s : System) (rounds : ℕ) (fd : ℤ) (ds q : Ptr) (o : IsOpen s rounds fd ds q)
    (users : List Ptr) (fuel : length users < rounds) (text : Ptr) (size v : ℤ) where
  -- On a descriptor of the process, `dmq_send` returns the error of the first test that fails, and
  -- changes nothing: whether there is a queue, whether the text fits into a message, whether the
  -- process is among the writers, and whether it may wait where the queue is full.
  pub dmq_send_refused :
      IsList s.items (s.queues q).writers users
      → refusal q
          (ltb_ℤ (s.queues q).msg_size size)
          msg_too_big
          (s.descriptor_items ds).writer
          users
          (eq_ℤ (s.queues q).messages.size (s.queues q).max_messages)
          (s.descriptor_items ds).blocker
        ≡ some v
      → dmq_send rounds fd text size s ≡ ok v s
  unfolding dmq_send
  dmq_send_refused l r =
      let entry = (s.descriptor_items ds).writer in
      let found = find-has s.items (s.queues q).writers users rounds entry l fuel in
      let o_q = queue_by_fd_ok s rounds fd ds q o in
      let o_e = queue_entries_ok s rounds fd ds q o in
      elim (refusal-Refused q (ltb_ℤ (s.queues q).msg_size size) msg_too_big entry users
        (eq_ℤ (s.queues q).messages.size (s.queues q).max_messages) (s.descriptor_items ds).blocker
        v r) [
          | no_queue n e ↦ rw (o_q, n) (ap (λ x. ok x s) e)
          | no_fit queue big e ↦ rw (o_q, queue, queue, big) (ap (λ x. ok x s) e)
          | no_user queue fits absent e ↦
              rw (o_q, queue, queue, fits, o_e, o.ds_some, found, absent) (ap (λ x. ok x s) e)
          | no_wait queue fits user waits e ↦
              rw
                (
                  o_q,
                  queue,
                  queue,
                  fits,
                  o_e,
                  o.ds_some,
                  found,
                  user,
                  entry_some s.items (s.queues q).writers users entry l user,
                  waits,
                )
                (ap (λ x. ok x s) e)
        ]

  -- On a descriptor of the process, `dmq_receive` returns the error of the first test that fails,
  -- and changes nothing: whether there is a queue, whether a message fits into the buffer, whether
  -- the process is among the readers, and whether it may wait where the queue is empty.
  pub dmq_receive_refused :
      IsList s.items (s.queues q).readers users
      → refusal q
          (ltb_ℤ size (s.queues q).msg_size)
          buffer_too_small
          (s.descriptor_items ds).reader
          users
          (eq_ℤ (s.queues q).messages.size (pos 0))
          (s.descriptor_items ds).blocker
        ≡ some v
      → dmq_receive rounds fd text size s ≡ ok v s
  unfolding dmq_receive
  dmq_receive_refused l r =
      let entry = (s.descriptor_items ds).reader in
      let found = find-has s.items (s.queues q).readers users rounds entry l fuel in
      let o_q = queue_by_fd_ok s rounds fd ds q o in
      let o_e = queue_entries_ok s rounds fd ds q o in
      elim (refusal-Refused q (ltb_ℤ size (s.queues q).msg_size) buffer_too_small entry users
        (eq_ℤ (s.queues q).messages.size (pos 0)) (s.descriptor_items ds).blocker v r) [
          | no_queue n e ↦ rw (o_q, n) (ap (λ x. ok x s) e)
          | no_fit queue big e ↦ rw (o_q, queue, queue, big) (ap (λ x. ok x s) e)
          | no_user queue fits absent e ↦
              rw (o_q, queue, queue, fits, o_e, o.ds_some, found, absent) (ap (λ x. ok x s) e)
          | no_wait queue fits user waits e ↦
              rw
                (
                  o_q,
                  queue,
                  queue,
                  fits,
                  o_e,
                  o.ds_some,
                  found,
                  user,
                  entry_some s.items (s.queues q).readers users entry l user,
                  waits,
                )
                (ap (λ x. ok x s) e)
        ]
