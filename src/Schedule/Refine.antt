-- ===== src/Schedule/Refine.antt =====
-- The scheduler and the plan of Schedule/Plan.
use mathlib.Core.Path.{subst}
use disastr_os_queues.Base.{
  ℕ, suc, ℤ, ◌<◌, ◌≡◌, refl, List, [], ◌∷◌, ◌++◌, map, length, ap, sym, ◌∙◌, incr, ltb_ℤ,
  Bool-cases, inl, inr,
}
use disastr_os_queues.LinkedList.{Ptr, null}
use disastr_os_queues.Timer.Order.{Timers, rest}
use disastr_os_queues.Schedule.{wake_elapsed, rotate, internal_schedule, timer_interrupt}
use disastr_os_queues.Schedule.Plan.{Plan, pending, wake, turn, turn_to, schedule, tick}
use disastr_os_queues.Schedule.Invariant.{IsScheduled, alarm}
use disastr_os_queues.Schedule.Wake.{Woke, wake_elapsed-Woke}
use disastr_os_queues.Schedule.Turn.{rotate_alone, rotate_next}
use disastr_os_queues.Schedule.Rotate.{Rotated}
use disastr_os_queues.Kernel.{System, Ends, Ends-mono, Ends-and_then}

-- The lists in memory are those of the plan.
pub record Represents (s : System) (p : Plan) : Type 0 where
  pub timers : List Ptr
  pub free : List ℕ
  pub state : IsScheduled s p.ready p.waiting timers free
  pub running : s.running ≡ p.running
  pub alarms : map (alarm s.timers) timers ≡ p.alarms
  pub now : s.time ≡ p.now

pending_rest :
    (timers : Timers) (now : ℤ) (ts : List Ptr)
    → map (alarm timers) (rest timers now ts) ≡ pending now (map (alarm timers) ts)
unfolding pending rest
pending_rest timers now [] = refl
pending_rest timers now (t ∷ ts) = elim (Bool-cases (ltb_ℤ now (timers t).awakening_time)) [
  | inl later ↦ rw later refl
  | inr elapsed ↦ rw elapsed (pending_rest timers now ts)
]

length-map : {A B : Type 0} (f : A → B) (xs : List A) → length (map f xs) ≡ length xs
length-map f [] = refl
length-map f (x ∷ xs) = ap suc (length-map f xs)

rotate_to :
    (ready : List Ptr) (s : System) (p : Plan) (k : Represents s p)
    → p.ready ≡ ready
    → Ends (λ _ t. Represents t (turn_to ready p)) (rotate s)
unfolding turn_to
rotate_to [] s p k e =
    rw
      (rotate_alone s p.waiting k.timers k.free
        (subst (λ r. IsScheduled s r p.waiting k.timers k.free) e k.state))
      k
rotate_to (next ∷ xs) s p k e =
    Ends-mono
      (λ _ t. Rotated s next xs t × IsScheduled t (xs ++ s.running ∷ []) p.waiting k.timers k.free)
      (λ _ t. Represents t (turn_to (next ∷ xs) p)) (rotate s)
      (rotate_next s next xs p.waiting k.timers k.free
        (subst (λ r. IsScheduled s r p.waiting k.timers k.free) e k.state))
      λ _ t (r, i). record {
        timers = k.timers;
        free = k.free;
        state = subst (λ m. IsScheduled t (xs ++ m ∷ []) p.waiting k.timers k.free) k.running i;
        running = r.running;
        alarms = ap (λ m. map (alarm m) k.timers) r.timers ∙ k.alarms;
        now = r.time ∙ k.now;
      }

module _ (s : System) (p : Plan) (k : Represents s p) (rounds : ℕ)
    (fuel : length p.alarms < rounds) where
  pub few_timers : length k.timers < rounds
  few_timers = rw (sym (length-map (alarm s.timers) k.timers), k.alarms) fuel

  wake_Represents :
      (t : System) → Woke s [] p.ready p.waiting k.timers k.free t → Represents t (wake p)
  unfolding wake
  wake_Represents t w = record {
    timers = rest s.timers s.time k.timers;
    free = w.free;
    state = rw (sym k.now, sym k.alarms) w.state;
    running = w.running ∙ k.running;
    alarms = rw (w.timers, sym k.now, sym k.alarms) (pending_rest s.timers s.time k.timers);
    now = w.time ∙ k.now;
  }

  wake_elapsed-Represents : Ends (λ _ t. Represents t (wake p)) (wake_elapsed rounds null s)
  wake_elapsed-Represents =
      Ends-mono (λ _ t. Woke s [] p.ready p.waiting k.timers k.free t)
        (λ _ t. Represents t (wake p)) (wake_elapsed rounds null s)
        (wake_elapsed-Woke rounds s [] p.ready p.waiting k.timers k.free k.state few_timers)
        λ _ t w. wake_Represents t w

  -- The scheduler carries out the plan.
  pub internal_schedule-Represents :
      Ends (λ _ t. Represents t (schedule p)) (internal_schedule rounds s)
  unfolding internal_schedule schedule turn
  internal_schedule-Represents =
      Ends-and_then (λ _ t. Represents t (wake p)) (λ _ t. Represents t (schedule p))
        (wake_elapsed rounds null s) (λ _. rotate) wake_elapsed-Represents
        λ _ t r. rotate_to (wake p).ready t (wake p) r refl

-- The clock is no part of the lists.
later-IsScheduled :
    (s : System) (now : ℤ) (ready waiting ts : List Ptr) (free : List ℕ)
    → IsScheduled s ready waiting ts free
    → IsScheduled (record s { time = now }) ready waiting ts free
later-IsScheduled s now ready waiting ts free k = record {
  running_some = k.running_some;
  alone = k.alone;
  ready_is = k.ready_is;
  waiting_is = k.waiting_is;
  timers_are = k.timers_are;
  sorted = k.sorted;
  once = k.once;
  waits = k.waits;
  unset = k.unset;
  pool = k.pool;
  placed = k.placed;
  taken = k.taken;
  apart = k.apart;
}

-- The timer interrupt carries out a tick.
pub timer_interrupt-Represents :
    (s : System) (p : Plan)
    → Represents s p
    → (rounds : ℕ) → length p.alarms < rounds
    → Ends (λ _ t. Represents t (tick p)) (timer_interrupt rounds s)
unfolding timer_interrupt tick
timer_interrupt-Represents s p k rounds fuel =
    internal_schedule-Represents (record s { time = incr s.time }) (record p { now = incr p.now })
      (record {
        timers = k.timers;
        free = k.free;
        state = later-IsScheduled s (incr s.time) p.ready p.waiting k.timers k.free k.state;
        running = k.running;
        alarms = k.alarms;
        now = ap incr k.now;
      })
      rounds fuel
