-- ===== src/Messages/Wake.antt =====
-- internal_wakeUpQueue: which waiting process is made ready.
use disastr_os_queues.Base.{
  ℕ, zero, suc, ◌<◌, ◌≡◌, refl, true, false, ◌⊎◌, inl, inr, List, [], ◌∷◌, ◌++◌, arith, pos, eq_ℤ,
  length, has, ap, ◌∙◌, ◌==◌, Bool-cases, update, has-append, not-has-right, not-has-cons,
  not-has-append,
}
use disastr_os_queues.LinkedList
use disastr_os_queues.LinkedList.{Ptr, null, is_null}
use disastr_os_queues.LinkedList.Chain.{
  IsList, Seg, head_or, Disjoint, IsList-frame, Distinct-apart, Distinct-right, Disjoint-head,
  ne_of_not_has,
}
use disastr_os_queues.LinkedList.Walk.{first_match, first_where-first_match}
use disastr_os_queues.Process.Exit.{is_waiting}
use disastr_os_queues.Pcb.{pcb_by_pid}
use disastr_os_queues.Messages.{wake_first, internal_wake_up_queue, run_check}
use disastr_os_queues.Kernel.{
  System, ProcessStatus, ListRef, WakeupCheck, check, pointer, list_ref, is_dangling, head_of,
  waiting_list, ready_list, Ends, ok, search_list, get_head,
}
use disastr_os_queues.Kernel.Lists.{after, list_detach_ok, list_append_ok}

-- The waiting process with the number of a queue's user, or null.
abbrev pub waiting_process : System → List Ptr → Ptr → Ptr
waiting_process s ws u = first_match (λ a. eq_ℤ (s.pcbs a).pid (s.queue_users u).pid) ws

-- None of the users is marked as waiting and stands in the waiting list.
abbrev NoneWaits : System → List Ptr → List Ptr → Type 0
NoneWaits s ws [] = Unit {0}
NoneWaits s ws (u ∷ us) =
    ((is_waiting (s.queue_users u).status ≡ false) ⊎ (waiting_process s ws u ≡ null))
    × NoneWaits s ws us

module _ (s : System) (limit : ℕ) (ws : List Ptr) (w : IsList s.items s.waiting_list ws)
    (fuel : length ws < limit) where
  by_pid :
      (u : Ptr)
      → pcb_by_pid limit waiting_list (s.queue_users u).pid s ≡ ok (waiting_process s ws u) s
  unfolding pcb_by_pid search_list get_head
  by_pid u =
      rw (first_where-first_match limit (λ a. eq_ℤ (s.pcbs a).pid (s.queue_users u).pid) w fuel)

  skip :
      (rounds : ℕ) (u : Ptr)
      → is_null u ≡ false
      → (is_waiting (s.queue_users u).status ≡ false) ⊎ (waiting_process s ws u ≡ null)
      → wake_first limit (suc rounds) u s ≡ wake_first limit rounds (s.items u).next s
  unfolding wake_first
  skip rounds u some (inl idle) = rw (some, idle, some)
  skip rounds u some (inr none) = elim (Bool-cases (is_waiting (s.queue_users u).status)) [
    | inl busy ↦ rw (some, busy, by_pid u, none, some)
    | inr idle ↦ rw (some, idle, some)
  ]

  skip_all :
      (rounds : ℕ) (us vs : List Ptr) (p : Ptr)
      → Seg s.items p (us ++ vs) null
      → has null (us ++ vs) ≡ false
      → NoneWaits s ws us
      → length us < rounds
      → (k : ℕ) × (wake_first limit rounds (head_or (us ++ vs) null) s
          ≡ wake_first limit (suc k) (head_or vs null) s)
  skip_all zero us vs p g h n fuel' = elim fuel' [ ]
  skip_all (suc rounds) [] vs p g h n fuel' = (rounds, refl)
  skip_all (suc rounds) (u ∷ us) vs p (a, b, g) h (first, n) fuel' =
      let some : is_null u ≡ false = ground arith in
      let (k, e) = skip_all rounds us vs u g (ground arith) n (omega arith) in
      (k, skip rounds u some first ∙ (ap (λ x. wake_first limit rounds x s) b ∙ e))

-- Process `p` went from the waiting list to the end of the ready list.
pub record Woken (s : System) (u p : Ptr) (ws1 ws2 rs : List Ptr) (t : System) : Type 0 where
  pub waiting : IsList t.items t.waiting_list (ws1 ++ ws2)
  pub ready : IsList t.items t.ready_list (rs ++ p ∷ [])
  pub user : (t.queue_users u).status ≡ ProcessStatus.running
  pub running : t.running ≡ s.running
  pub result : (t.pcbs s.running).syscall_retvalue ≡ pos 0

module _ (s : System) (limit : ℕ) (ws1 ws2 rs : List Ptr) (p : Ptr)
    (w : IsList s.items s.waiting_list (ws1 ++ p ∷ ws2)) (fuel : length (ws1 ++ p ∷ ws2) < limit)
    (r : IsList s.items s.ready_list rs) (apart : Disjoint rs (ws1 ++ p ∷ ws2))
    (some : is_null s.running ≡ false) where
  p_some : is_null p ≡ false
  p_some = let h = not-has-right null ws1 (p ∷ ws2) w.non_null in ground arith

  member : has p (ws1 ++ p ∷ ws2) ≡ true
  member = ground (arith, has-append p ws1 (p ∷ ws2))

  p-not-ready : has p rs ≡ false
  p-not-ready = elim (Bool-cases (has p rs)) [
    | inl h ↦ let k = apart p h in let here = member in cc
    | inr h ↦ h
  ]

  p-not-left : (a : Ptr) → has a (ws1 ++ ws2) ≡ true → has a (p ∷ rs) ≡ false
  p-not-left a h =
      let d = Distinct-apart ws1 (p ∷ ws2) w.distinct in
      let p-out : has p (ws1 ++ ws2) ≡ false =
        not-has-append p ws1 ws2 (Disjoint-head ws1 p ws2 d)
          (Distinct-right ws1 (p ∷ ws2) w.distinct).0 in
      let ne : (p == a) ≡ false = ne_of_not_has p a (ws1 ++ ws2) p-out h in
      let not-ready : has a rs ≡ false = elim (Bool-cases (has a rs)) [
        | inl k ↦
            let away = apart a k in ground (arith, has-append a ws1 ws2, has-append a ws1 (p ∷ ws2))
        | inr k ↦ k
      ] in
      not-has-cons a p rs ne not-ready

  wake_user :
      (rounds : ℕ) (u : Ptr)
      → is_null u ≡ false
      → is_waiting (s.queue_users u).status ≡ true
      → waiting_process s (ws1 ++ p ∷ ws2) u ≡ p
      → Ends (λ _ t. Woken s u p ws1 ws2 rs t) (wake_first limit (suc rounds) u s)
  unfolding wake_first
  wake_user rounds u u_some waits found =
      let user =
        update s.queue_users u (record (s.queue_users u) { status = ProcessStatus.running }) in
      let s1 : System = record s { queue_users = user } in
      let (e, d) = list_detach_ok waiting_list s1 refl ws1 ws2 p w p_some in
      let s2 = after waiting_list (LinkedList.detach s1.waiting_list s1.items p) s1 in
      let r2 : IsList s2.items s2.ready_list rs = IsList-frame r λ a h. d.same a (apart a h) in
      let (f, i) =
        list_append_ok ready_list s2 refl rs p r2 p_some (ap (λ k. k.next) d.unlinked)
          (ap (λ k. k.prev) d.unlinked) p-not-ready in
      rw (u_some, waits, by_pid s limit (ws1 ++ p ∷ ws2) w fuel u, found, p_some)
        (rw (u_some, e, f, some)
          (record {
            waiting = IsList-frame d.list λ a h. i.same a (p-not-left a h);
            ready = i.list;
            user = ground arith;
            running = refl;
            result = ground arith;
          }))

  -- Of the users of a queue, the first that is marked as waiting and has a process in the waiting
  -- list gets that process moved to the end of the ready list, and is marked as running; with more
  -- rounds than users the search ends.
  wake_first-Woken :
      (rounds : ℕ) (us vs : List Ptr) (u before : Ptr)
      → Seg s.items before (us ++ u ∷ vs) null
      → has null (us ++ u ∷ vs) ≡ false
      → NoneWaits s (ws1 ++ p ∷ ws2) us
      → is_waiting (s.queue_users u).status ≡ true
      → waiting_process s (ws1 ++ p ∷ ws2) u ≡ p
      → length us < rounds
      → Ends
          (λ _ t. Woken s u p ws1 ws2 rs t)
          (wake_first limit rounds (head_or (us ++ u ∷ vs) null) s)
  wake_first-Woken rounds us vs u before g h none waits found enough =
      let (k, e) =
        skip_all s limit (ws1 ++ p ∷ ws2) w fuel rounds us (u ∷ vs) before g h none enough in
      let u_some : is_null u ≡ false = let n = not-has-right null us (u ∷ vs) h in ground arith in
      rw e (wake_user k u u_some waits found)

  -- `internal_wakeUpQueue`, with its condition met: of the users in the given list, the first that
  -- is marked as waiting and has a process in the waiting list gets that process moved to the end
  -- of the ready list, and is marked as running. The rounds are more than the members of the
  -- waiting list and the users before it.
  pub internal_wake_up_queue-Woken :
      (c : WakeupCheck) (q : Ptr) (l : ListRef) (us vs : List Ptr) (u : Ptr)
      → (s.pcbs s.running).syscall_args 0 ≡ check c
      → (s.pcbs s.running).syscall_args 1 ≡ pointer q
      → (s.pcbs s.running).syscall_args 2 ≡ list_ref l
      → is_null q ≡ false
      → run_check c (s.queues q) ≡ true
      → is_dangling l ≡ false
      → IsList s.items (head_of l s) (us ++ u ∷ vs)
      → NoneWaits s (ws1 ++ p ∷ ws2) us
      → is_waiting (s.queue_users u).status ≡ true
      → waiting_process s (ws1 ++ p ∷ ws2) u ≡ p
      → length us < limit
      → Ends (λ _ t. Woken s u p ws1 ws2 rs t) (internal_wake_up_queue limit s)
  unfolding internal_wake_up_queue get_head
  internal_wake_up_queue-Woken c q l us vs u a0 a1 a2 q_some met d users none waits found enough =
      rw (some, a0, some, a1, q_some, some, a2, met, d, users.first)
        (wake_first-Woken limit us vs u null users.linked users.non_null none waits found enough)
