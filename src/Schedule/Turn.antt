-- ===== src/Schedule/Turn.antt =====
-- The round robin of internal_schedule, on the whole state of the scheduler.
use mathlib.Core.Path.{subst}
use disastr_os_queues.Base.{
  ℕ, ◌+◌, ◌≤◌, ◌<◌, ◌≡◌, refl, true, false, List, [], ◌∷◌, ◌++◌, arith, has, sym, ◌==◌, count,
  one_self, one_ne, count-append, not-has_of_count,
}
use disastr_os_queues.LinkedList.{Ptr}
use disastr_os_queues.LinkedList.Chain.{IsList-frame}
use disastr_os_queues.PoolAllocator.Free.{block}
use disastr_os_queues.Schedule.{rotate}
use disastr_os_queues.Schedule.Rotate.{IsUnlinked, Rotated, rotate-Rotated}
use disastr_os_queues.PoolAllocator.Taken.{IsTaken}
use disastr_os_queues.Schedule.Invariant.{IsScheduled, Disjoint-count}
use disastr_os_queues.Kernel.{System, Ends, Ends-mono, get_head, ok}

-- Nobody else is ready.
pub rotate_alone :
    (s : System) (waiting ts : List Ptr) (free : List ℕ)
    → IsScheduled s [] waiting ts free
    → rotate s ≡ ok tt s
unfolding rotate get_head
rotate_alone s waiting ts free k = rw k.ready_is.first refl

module _ (s : System) (next : Ptr) (xs waiting ts : List Ptr) (free : List ℕ)
    (k : IsScheduled s (next ∷ xs) waiting ts free) where
  others : (a : Ptr) → count a (next ∷ s.running ∷ xs) + count a waiting + count a ts ≤ 1
  others a = let o = k.once a in omega arith

  waiting_apart : (a : Ptr) → has a waiting ≡ true → has a (next ∷ s.running ∷ xs) ≡ false
  waiting_apart =
      Disjoint-count waiting (next ∷ s.running ∷ xs) λ a. let o = others a in omega arith

  timers_apart : (a : Ptr) → has a ts ≡ true → has a (next ∷ s.running ∷ xs) ≡ false
  timers_apart = Disjoint-count ts (next ∷ s.running ∷ xs) λ a. let o = others a in omega arith

  running_apart : has s.running xs ≡ false
  running_apart =
      not-has_of_count s.running xs
        (let o = k.once s.running in let e = one_self s.running in omega arith)

  next_apart : (next == s.running) ≡ false
  next_apart =
      one_ne next s.running (let o = k.once s.running in let e = one_self s.running in omega arith)

  Rotated-IsScheduled :
      (t : System) → Rotated s next xs t → IsScheduled t (xs ++ s.running ∷ []) waiting ts free
  Rotated-IsScheduled t r = record {
    running_some = let h = k.ready_is.non_null in rw r.running (ground arith);
    alone = subst (λ a. IsUnlinked t a) (sym r.running) r.unlinked;
    ready_is = r.list;
    waiting_is = rw r.waiting (IsList-frame k.waiting_is λ a h. r.same a (waiting_apart a h));
    timers_are = rw r.timer_list (IsList-frame k.timers_are λ a h. r.same a (timers_apart a h));
    sorted = rw r.timers k.sorted;
    once =
        λ a. let o = k.once a in rw r.running (omega (arith, count-append a xs (s.running ∷ [])));
    waits = λ a. rw r.timers (k.waits a);
    unset = λ a. rw (r.timer a) (k.unset a);
    pool = rw r.pools k.pool;
    placed = rw r.pools k.placed;
    taken =
        subst (λ q. (u : Ptr) → has u ts ≡ true → IsTaken q.timer_item free u) (sym r.pools)
          k.taken;
    apart =
        subst
          (λ q.
            (i : ℕ)
            → i < q.timer_item.size_max
            → count (block q.timer_item i) (t.running ∷ [])
                + count (block q.timer_item i) (xs ++ s.running ∷ [])
                + count (block q.timer_item i) waiting
              ≡ 0)
          (sym r.pools)
          (λ i h.
            let a = block s.pools.timer_item i in
            let o = k.apart i h in
            rw r.running (omega (arith, count-append a xs (s.running ∷ []))));
  }

  -- The first ready process runs, and the process that ran is the last of the ready ones.
  pub rotate_next :
      Ends
        (λ _ t. Rotated s next xs t × IsScheduled t (xs ++ s.running ∷ []) waiting ts free)
        (rotate s)
  rotate_next =
      Ends-mono (λ _ t. Rotated s next xs t)
        (λ _ t. Rotated s next xs t × IsScheduled t (xs ++ s.running ∷ []) waiting ts free)
        (rotate s)
        (rotate-Rotated s xs k.running_some running_apart k.alone next k.ready_is next_apart)
        λ _ t r. (r, Rotated-IsScheduled t r)
