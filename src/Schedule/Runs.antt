-- ===== src/Schedule/Runs.antt =====
-- Sequences of clock ticks and preemptions.
use disastr_os_queues.Base.{
  ℕ, ℤ, ◌+◌, ◌≤◌, ◌<◌, ◌≡◌, refl, List, [], ◌∷◌, length, arith, ltb_ℤ, Bool-cases, inl, inr,
}
use disastr_os_queues.Schedule.{internal_preempt, timer_interrupt}
use disastr_os_queues.Schedule.Plan.{
  Plan, Alarm, woken_by, pending, wake, turn, turn_to, schedule, tick,
}
use disastr_os_queues.Schedule.Refine.{
  Represents, internal_schedule-Represents, timer_interrupt-Represents,
}
use disastr_os_queues.Kernel.{System, Cmd, Ends, Ends-and_then, pure, ◌>>◌}

pub data Event : Type 0 where
  ticked preempted : Event

-- What the machine does, and what the plan says.
unfoldable pub handle : ℕ → Event → Cmd (Unit {0})
handle rounds ticked = timer_interrupt rounds
handle rounds preempted = internal_preempt rounds

unfoldable pub run : ℕ → List Event → Cmd (Unit {0})
run rounds [] = pure tt
run rounds (e ∷ es) = do handle rounds e; run rounds es

unfoldable pub follow_one : Event → Plan → Plan
follow_one ticked p = tick p
follow_one preempted p = schedule p

unfoldable pub follow : List Event → Plan → Plan
follow [] p = p
follow (e ∷ es) p = follow es (follow_one e p)

-- Every alarm goes off or stays.
pub woken_by-pending :
    (now : ℤ) (xs : List Alarm) → length (woken_by now xs) + length (pending now xs) ≡ length xs
unfolding woken_by pending
woken_by-pending now [] = refl
woken_by-pending now (x ∷ xs) = elim (Bool-cases (ltb_ℤ now x.due)) [
  | inl later ↦ rw later (omega arith)
  | inr elapsed ↦ rw elapsed (omega (arith, woken_by-pending now xs))
]

alarms-turn_to : (ready : List ℕ) (p : Plan) → (turn_to ready p).alarms ≡ p.alarms
unfolding turn_to
alarms-turn_to [] p = refl
alarms-turn_to (x ∷ xs) p = refl

pub alarms-schedule : (p : Plan) → (schedule p).alarms ≡ pending p.now p.alarms
unfolding schedule wake turn
alarms-schedule p = alarms-turn_to (wake p).ready (wake p)

length-schedule : (p : Plan) → length (schedule p).alarms ≤ length p.alarms
length-schedule p = rw (alarms-schedule p) (omega (arith, woken_by-pending p.now p.alarms))

fewer_alarms : (e : Event) (p : Plan) → length (follow_one e p).alarms ≤ length p.alarms
unfolding follow_one tick
fewer_alarms ticked p = length-schedule _
fewer_alarms preempted p = length-schedule p

handle-Represents :
    (e : Event) (s : System) (p : Plan)
    → Represents s p
    → (rounds : ℕ) → length p.alarms < rounds
    → Ends (λ _ t. Represents t (follow_one e p)) (handle rounds e s)
unfolding handle follow_one internal_preempt
handle-Represents ticked s p k rounds fuel = timer_interrupt-Represents s p k rounds fuel
handle-Represents preempted s p k rounds fuel = internal_schedule-Represents s p k rounds fuel

-- Any sequence of clock ticks and preemptions on a state that represents a plan ends, given more
-- rounds than there are alarms, in a state that represents what the plan says: at each event the
-- processes whose alarms are due join the front of the ready ones, and the round robin turns once.
pub run-Represents :
    (es : List Event) (s : System) (p : Plan)
    → Represents s p
    → (rounds : ℕ) → length p.alarms < rounds
    → Ends (λ _ t. Represents t (follow es p)) (run rounds es s)
unfolding run follow
run-Represents [] s p k rounds fuel = k
run-Represents (e ∷ es) s p k rounds fuel =
    Ends-and_then (λ _ t. Represents t (follow_one e p))
      (λ _ t. Represents t (follow es (follow_one e p))) (handle rounds e s) (λ _. run rounds es)
      (handle-Represents e s p k rounds fuel)
      λ _ t r.
        run-Represents es t (follow_one e p) r rounds (let f = fewer_alarms e p in omega arith)
