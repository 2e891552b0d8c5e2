-- ===== src/Schedule/Wake.antt =====
-- The loop of internal_schedule over the elapsed timers.
mod Round
use mathlib.Core.Path.{subst}
use mathlib.Core.List.{append_assoc}
use disastr_os_queues.Base.{
  ℕ, zero, suc, ◌+◌, ◌<◌, ◌≤◌, ◌≡◌, refl, true, false, List, [], ◌∷◌, ◌++◌, map, arith, has, length,
  ap, sym, ◌∙◌, count, has_head, one_self, has_of_count, remove, remove-split, ltb_ℤ, Bool-cases,
  inl, inr, has_tail, ==_iff, ◌==◌,
}
use disastr_os_queues.LinkedList.{Ptr, null, is_null}
use disastr_os_queues.LinkedList.Chain.{last_or, head_or, last_or-append}
use disastr_os_queues.PoolAllocator.Free.{block}
use disastr_os_queues.PoolAllocator.Release.{returned}
use disastr_os_queues.PoolAllocator.Taken.{IsTaken, IsReturned}
use disastr_os_queues.Timer.{timer_list_current}
use disastr_os_queues.Timer.Order.{due, rest, timer_list_current-due}
use disastr_os_queues.Schedule.{wake_elapsed}
use disastr_os_queues.Schedule.Plan.{woken_by, remove_all}
use disastr_os_queues.Schedule.Invariant.{IsScheduled, alarm, owners}
use disastr_os_queues.Schedule.Wake.Round.{woke, woke-IsScheduled, wake_round}
use disastr_os_queues.Kernel.{System, timer_list, Ends, Ends-mono, ok}

-- The state after the elapsed timers woke their processes: these stand behind those that were
-- woken before.
pub record Woke (s : System) (woken ready waiting ts : List Ptr) (blocks : List ℕ) (t : System)
    : Type 0 where
  pub free : List ℕ
  pub state :
      IsScheduled t
        (woken ++ (woken_by s.time (map (alarm s.timers) ts) ++ ready))
        (remove_all (woken_by s.time (map (alarm s.timers) ts)) waiting)
        (rest s.timers s.time ts)
        free
  pub amount : length free + length (rest s.timers s.time ts) ≡ length blocks + length ts
  pub kept : (i : ℕ) → has i blocks ≡ true → has i free ≡ true
  pub released :
      (a : Ptr)
      → has a ts ≡ true
      → has a (rest s.timers s.time ts) ≡ false
      → IsReturned s.pools.timer_item free a
  pub running : t.running ≡ s.running
  pub timers : t.timers ≡ s.timers
  pub time : t.time ≡ s.time

-- No timer has elapsed.
wake_none :
    (rounds : ℕ) (s : System) (woken ready waiting ts : List Ptr) (free : List ℕ)
    → IsScheduled s (woken ++ ready) waiting ts free
    → is_null (head_or (due s.timers s.time ts) null) ≡ true
    → woken_by s.time (map (alarm s.timers) ts) ≡ []
    → rest s.timers s.time ts ≡ ts
    → Ends
        (λ _ t. Woke s woken ready waiting ts free t)
        (wake_elapsed (suc rounds) (last_or null woken) s)
unfolding wake_elapsed remove_all
wake_none rounds s woken ready waiting ts free k none e f =
    rw (timer_list_current-due s s.time ts k.timers_are, none)
      (record {
        free = free;
        state = rw (e, f) k;
        amount = ap (λ l. length free + length l) f;
        kept = λ i h. h;
        released =
            λ a h out. let listed = sym out ∙ (ap (has a) f ∙ h) in let no : ⊥ = cc in absurd no;
        running = refl;
        timers = refl;
        time = refl;
      })

owner_waits :
    (s : System) (ready waiting ts : List Ptr) (t : Ptr) (free : List ℕ)
    → IsScheduled s ready waiting (t ∷ ts) free
    → has (s.timers t).pcb waiting ≡ true
owner_waits s ready waiting ts t free k =
    has_of_count (s.timers t).pcb waiting
      (let w = k.waits (s.timers t).pcb in let e = one_self (s.timers t).pcb in omega arith)

-- A round that wakes `p` goes before the rest.
Woke-first :
    (s next r : System) (woken ready waiting left ts : List Ptr) (t : Ptr) (free : List ℕ)
    (taken : IsTaken s.pools.timer_item free t)
    → next.timers ≡ s.timers
    → next.time ≡ s.time
    → next.running ≡ s.running
    → ltb_ℤ s.time (s.timers t).awakening_time ≡ false
    → remove (s.timers t).pcb waiting ≡ left
    → next.pools.timer_item ≡ returned s.pools.timer_item taken.number
    → Woke next (woken ++ (s.timers t).pcb ∷ []) ready left ts (taken.number ∷ free) r
    → Woke s woken ready waiting (t ∷ ts) free r
unfolding woken_by rest remove_all
Woke-first s next r woken ready waiting left ts t free taken timers time running elapsed removed
      pools w =
    let p = (s.timers t).pcb in
    let ws = woken_by s.time (map (alarm s.timers) ts) in
    let moved : IsScheduled r ((woken ++ p ∷ []) ++ (ws ++ ready)) (remove_all ws left)
        (rest s.timers s.time ts) w.free =
      subst
        (λ m.
          IsScheduled r ((woken ++ p ∷ []) ++ (woken_by s.time (map (alarm m) ts) ++ ready))
            (remove_all (woken_by s.time (map (alarm m) ts)) left) (rest m s.time ts) w.free)
        timers
        (subst
          (λ n.
            IsScheduled r ((woken ++ p ∷ []) ++ (woken_by n (map (alarm next.timers) ts) ++ ready))
              (remove_all (woken_by n (map (alarm next.timers) ts)) left) (rest next.timers n ts)
              w.free)
          time w.state) in
    let first : rest s.timers s.time (t ∷ ts) ≡ rest s.timers s.time ts = rw elapsed refl in
    let again : rest next.timers next.time ts ≡ rest s.timers s.time ts = rw (timers, time) refl in
    record {
      free = w.free;
      state = rw elapsed (
          subst
            (λ m.
              IsScheduled r (woken ++ p ∷ (ws ++ ready)) (remove_all ws m) (rest s.timers s.time ts)
                w.free)
            (sym removed)
            (subst (λ l. IsScheduled r l (remove_all ws left) (rest s.timers s.time ts) w.free)
              (append_assoc woken (p ∷ []) (ws ++ ready)) moved));
      amount =
          let g = w.amount in let e = ap length first in let e' = ap length again in omega arith;
      kept = λ i h. w.kept i (has_tail i taken.number free h);
      released = λ a h out. elim (Bool-cases (t == a)) [
        | inl same ↦ record {
          number = taken.number;
          here = sym ((==_iff t a).0 same) ∙ taken.here;
          listed = w.kept taken.number (has_head taken.number free);
        }
        | inr differ ↦
            let kept : has a (rest next.timers next.time ts) ≡ false =
              ap (has a) (again ∙ sym first) ∙ out in
            let b = w.released a (ground arith) kept in
            record {
              number = b.number;
              here = b.here ∙ ap (λ c. block c b.number) pools;
              listed = b.listed;
            }
      ];
      running = w.running ∙ running;
      timers = w.timers ∙ timers;
      time = w.time ∙ time;
    }

-- In a state where every process and timer stands in one place and the timers are sorted, the loop
-- of `internal_schedule` over the elapsed timers ends, given more rounds than there are timers. It
-- has moved the processes of the timers that are due from the waiting list to the ready list, in
-- the order of their times, behind those that were woken before and in front of the ready ones; it
-- has given back the blocks of these timers and of no others, which stay, and the state is again such a state.
pub wake_elapsed-Woke :
    (rounds : ℕ) (s : System) (woken ready waiting ts : List Ptr) (free : List ℕ)
    → IsScheduled s (woken ++ ready) waiting ts free
    → length ts < rounds
    → Ends
        (λ _ t. Woke s woken ready waiting ts free t)
        (wake_elapsed rounds (last_or null woken) s)
unfolding due rest woken_by
wake_elapsed-Woke zero s woken ready waiting ts free k fuel = elim fuel [ ]
wake_elapsed-Woke (suc rounds) s woken ready waiting [] free k fuel =
    wake_none rounds s woken ready waiting [] free k refl refl refl
wake_elapsed-Woke (suc rounds) s woken ready waiting (t ∷ ts) free k fuel =
    elim (Bool-cases (ltb_ℤ s.time (s.timers t).awakening_time)) [
      | inl later ↦
          wake_none rounds s woken ready waiting (t ∷ ts) free k (rw later refl) (rw later refl)
            (rw later refl)
      | inr elapsed ↦
          let p = (s.timers t).pcb in
          let (ys, zs, whole, removed) =
            remove-split p waiting (owner_waits s (woken ++ ready) waiting ts t free k) in
          let k' : IsScheduled s (woken ++ ready) (ys ++ p ∷ zs) (t ∷ ts) free =
            subst (λ w. IsScheduled s (woken ++ ready) w (t ∷ ts) free) whole k in
          let next = woke s woken ready ys zs ts t free k' in
          let first = woke-IsScheduled s woken ready ys zs ts t free k' in
          let number = (k'.taken t (has_head t ts)).number in
          let step =
            wake_elapsed-Woke rounds next (woken ++ p ∷ []) ready (ys ++ zs) ts (number ∷ free)
              (subst (λ r. IsScheduled next r (ys ++ zs) ts (number ∷ free))
                (sym (append_assoc woken (p ∷ []) ready)) first)
              (omega arith) in
          let go =
            Ends-mono (λ _ r. Woke next (woken ++ p ∷ []) ready (ys ++ zs) ts (number ∷ free) r)
              (λ _ r. Woke s woken ready waiting (t ∷ ts) free r) (wake_elapsed rounds p next)
              (subst
                (λ q.
                  Ends (λ _ r. Woke next (woken ++ p ∷ []) ready (ys ++ zs) ts (number ∷ free) r)
                    (wake_elapsed rounds q next))
                (last_or-append null woken (p ∷ [])) step)
              (λ _ r.
                Woke-first s next r woken ready waiting (ys ++ zs) ts t free
                  (k'.taken t (has_head t ts)) refl refl refl elapsed removed refl) in
          subst (λ r. Ends (λ _ r. Woke s woken ready waiting (t ∷ ts) free r) r)
            (sym (wake_round s woken ready ys zs ts t free k' rounds elapsed)) go
    ]
