-- ===== src/Messages/Blocking.antt =====
-- A process that waits for room or for a message: what internal_sendMessage and
-- internal_recvMessage leave, and the preemption by which dmq_send and dmq_receive follow.
use disastr_os_queues.Base.{
  ℕ, zero, suc, ℤ, ◌<◌, ◌≡◌, refl, true, false, List, [], ◌∷◌, ◌++◌, arith, has, ap, sym, ◌∙◌, ◌==◌,
  update, not-has-cons,
}
use mathlib.Core.Path.{subst}
use disastr_os_queues.LinkedList.{Ptr, null, is_null}
use disastr_os_queues.LinkedList.Chain.{IsList, IsList-frame, head_or, ne_of_not_has}
use disastr_os_queues.Timer.Order.{due, timer_list_current-due}
use disastr_os_queues.Schedule.{rotate, wake_elapsed, internal_schedule, internal_preempt}
use disastr_os_queues.Schedule.Rotate.{IsUnlinked, Rotated, rotate-Rotated}
use disastr_os_queues.Messages.{block_on}
use disastr_os_queues.Kernel.{
  System, ProcessStatus, waiting_list, Ends, Ends-and_then, Ends-mono, ◌>>◌, ok,
}
use disastr_os_queues.Kernel.Lists.{list_append_ok}

-- The process stands in the waiting list, at its end, and is still the running one.
pub record Blocked (s : System) (user : Ptr) (result : ℤ) (ws : List Ptr) (t : System)
    : Type 0 where
  pub waiting : IsList t.items t.waiting_list (ws ++ s.running ∷ [])
  pub running : t.running ≡ s.running
  pub ready : t.ready_list ≡ s.ready_list
  pub status : (t.pcbs s.running).status ≡ ProcessStatus.waiting
  pub result_is : (t.pcbs s.running).syscall_retvalue ≡ result
  pub user_status : (t.queue_users user).status ≡ ProcessStatus.waiting
  pub same : (a : Ptr) → has a (s.running ∷ ws) ≡ false → t.items a ≡ s.items a
  pub queues : t.queues ≡ s.queues
  pub timer_list : t.timer_list ≡ s.timer_list
  pub timers : t.timers ≡ s.timers
  pub time : t.time ≡ s.time

module _ (s : System) (user : Ptr) (result : ℤ) (ws : List Ptr)
    (l : IsList s.items s.waiting_list ws) (some : is_null s.running ≡ false)
    (user_some : is_null user ≡ false) (alone : IsUnlinked s s.running)
    (out : has s.running ws ≡ false) where
  -- A process that finds the queue full or empty is put at the end of the waiting list, with its
  -- entry in the queue marked, and its call answers that nothing was moved; the running process
  -- does not change.
  pub block_on-Blocked : Ends (λ _ t. Blocked s user result ws t) (block_on user result s)
  unfolding block_on
  block_on-Blocked =
      let s' : System = record s {
        pcbs =
            update s.pcbs s.running (record (s.pcbs s.running) { status = ProcessStatus.waiting });
        queue_users =
            update s.queue_users user
              (record (s.queue_users user) { status = ProcessStatus.waiting });
      } in
      let (e, i) = list_append_ok waiting_list s' refl ws s.running l some alone.1 alone.0 out in
      rw (user_some, some, e, some)
        (record {
          waiting = i.list;
          running = refl;
          ready = refl;
          status = ground arith;
          result_is = ground arith;
          user_status = ground arith;
          same = i.same;
          queues = refl;
          timer_list = refl;
          timers = refl;
          time = refl;
        })

-- The process is at the front of the waiting list and at the end of the ready list.
pub record InBoth (before : Ptr) (next : Ptr) (xs : List Ptr) (t : System) : Type 0 where
  pub waits : t.waiting_list.first ≡ before
  pub is_ready : IsList t.items t.ready_list (xs ++ before ∷ [])
  pub running : t.running ≡ next
  pub status : (t.pcbs before).status ≡ ProcessStatus.ready

module _ (s : System) (user : Ptr) (result : ℤ) (l : IsList s.items s.waiting_list [])
    (some : is_null s.running ≡ false) (user_some : is_null user ≡ false)
    (alone : IsUnlinked s s.running) (next : Ptr) (xs : List Ptr)
    (r : IsList s.items s.ready_list (next ∷ xs)) (out : has s.running (next ∷ xs) ≡ false)
    (ts : List Ptr) (l' : IsList s.items s.timer_list ts) (out' : has s.running ts ≡ false)
    (none : is_null (head_or (due s.timers s.time ts) null) ≡ true) where
  turn :
      (t : System)
      → Blocked s user result [] t
      → Ends (λ _ u. InBoth s.running next xs u) (rotate t)
  turn t b =
      let still = sym b.running in
      let here : IsList t.items t.ready_list (next ∷ xs) =
        subst (λ h. IsList t.items h (next ∷ xs)) (sym b.ready)
          (IsList-frame r λ a h.
            b.same a
              (not-has-cons a s.running [] (ne_of_not_has s.running a (next ∷ xs) out h) refl)) in
      let alone' : IsUnlinked t s.running = (b.waiting.linked.0, b.waiting.linked.1) in
      let ne : (next == s.running) ≡ false = ground arith in
      let rest : has s.running xs ≡ false = ground arith in
      Ends-mono (λ _ u. Rotated t next xs u) (λ _ u. InBoth s.running next xs u) (rotate t)
        (rotate-Rotated t xs (subst (λ p. is_null p ≡ false) still some)
          (subst (λ p. has p xs ≡ false) still rest) (subst (IsUnlinked t) still alone') next here
          (subst (λ p. (next == p) ≡ false) still ne))
        λ _ u k. record {
          waits = ap (λ h. h.first) k.waiting ∙ b.waiting.first;
          is_ready = subst (λ p. IsList u.items u.ready_list (xs ++ p ∷ [])) b.running k.list;
          running = k.running;
          status = subst (λ p. (u.pcbs p).status ≡ ProcessStatus.ready) b.running k.status_before;
        }

  -- The loop over the elapsed timers finds none.
  none_elapsed :
      (rounds : ℕ) (t : System)
      → Blocked s user result [] t
      → wake_elapsed (suc rounds) null t ≡ ok tt t
  unfolding wake_elapsed
  none_elapsed rounds t b =
      let same : IsList t.items t.timer_list ts = rw b.timer_list (
        IsList-frame l' λ a h.
          b.same a (not-has-cons a s.running [] (ne_of_not_has s.running a ts out' h) refl)) in
      let still : is_null (head_or (due t.timers t.time ts) null) ≡ true =
        rw (b.timers, b.time) none in
      rw (timer_list_current-due t t.time ts same, still) refl

  -- When no other process waits, another one is ready, and no timer is due, a process that blocks
  -- on a queue, and that stood in no list before, is put into the ready list by its next
  -- preemption, and is in both lists then; the first ready process runs.
  pub block_on-InBoth :
      (rounds : ℕ)
      → 0 < rounds
      → Ends
          (λ _ t. InBoth s.running next xs t)
          ((block_on user result >> internal_preempt rounds) s)
  unfolding internal_preempt internal_schedule
  block_on-InBoth zero h = elim h [ ]
  block_on-InBoth (suc rounds) h =
      Ends-and_then (λ _ t. Blocked s user result [] t) (λ _ t. InBoth s.running next xs t)
        (block_on user result s) (λ _. internal_preempt (suc rounds))
        (block_on-Blocked s user result [] l some user_some alone refl)
        λ _ t b. rw (none_elapsed rounds t b) (turn t b)
