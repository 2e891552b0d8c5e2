-- ===== src/Schedule/Fair/Sleepers.antt =====
-- A process that sleeps is woken and runs.
use mathlib.Core.Path.{subst}
use mathlib.Core.List.{append_assoc}
use disastr_os_queues.Base.{
  ℕ, ℤ, zero, suc, pos, incr, ◌+ℤ◌, ◌+◌, ◌≤◌, ◌<◌, ◌≡◌, refl, true, false, List, [], ◌∷◌, ◌++◌,
  length, length-append, arith, ltb_ℤ, ap, sym, ◌∙◌, Bool-cases, inl, inr,
}
use disastr_os_queues.LinkedList.{Ptr}
use disastr_os_queues.Schedule.Plan.{
  Plan, Alarm, woken_by, pending, wake, turn, turn_to, schedule, tick,
}
use disastr_os_queues.Schedule.Refine.{Represents}
use disastr_os_queues.Schedule.Runs.{
  Event, ticked, preempted, run, follow, follow_one, run-Represents, woken_by-pending,
  alarms-schedule,
}
use disastr_os_queues.Schedule.Fair.{Closer, runs, waits, turned, follow_fair}
use disastr_os_queues.Schedule.Fair.Due.{
  InOrder, alarms-InOrder, pending-InOrder, woken-split, pending-split, incr-add,
}
use disastr_os_queues.Kernel.{System, Ends, Ends-mono}

-- The clock ticks among the events.
unfoldable pub ticks : List Event → ℕ
ticks [] = 0
ticks (ticked ∷ es) = suc (ticks es)
ticks (preempted ∷ es) = ticks es

ticks-length : (es : List Event) → ticks es ≤ length es
unfolding ticks
ticks-length [] = omega arith
ticks-length (ticked ∷ es) = omega (arith, ticks-length es)
ticks-length (preempted ∷ es) = omega (arith, ticks-length es)

abbrev pub total : Plan → ℕ
total p = length p.ready + length p.alarms

length-turn_to :
    (ready : List Ptr) (w : Plan)
    → w.ready ≡ ready
    → length (turn_to ready w).ready ≡ length w.ready
unfolding turn_to
length-turn_to [] w e = refl
length-turn_to (x ∷ xs) w e = rw e (omega (arith, length-append xs (w.running ∷ [])))

-- An event moves processes and alarms, and loses none.
total-schedule : (p : Plan) → total (schedule p) ≡ total p
unfolding schedule turn wake
total-schedule p =
    let woken = woken_by p.now p.alarms in
    let readies = length-turn_to (wake p).ready (wake p) refl in
    let left : length (schedule p).alarms ≡ length (pending p.now p.alarms) =
      ap length (alarms-schedule p) in
    omega (arith, length-append woken p.ready, woken_by-pending p.now p.alarms)

now-turn_to : (ready : List Ptr) (w : Plan) → (turn_to ready w).now ≡ w.now
unfolding turn_to
now-turn_to [] w = refl
now-turn_to (x ∷ xs) w = refl

now-schedule : (p : Plan) → (schedule p).now ≡ p.now
unfolding schedule turn wake
now-schedule p = now-turn_to (wake p).ready (wake p)

module _ (a : Alarm) (xs ys : List Alarm) (p : Plan) (sorted : InOrder p.alarms)
    (here : p.alarms ≡ xs ++ a ∷ ys) where
  goes_off : ltb_ℤ p.now a.due ≡ false → Closer a.process (total p) (schedule p)
  unfolding schedule wake
  goes_off due =
      let (us, vs, e) = woken-split p.now a xs ys (subst InOrder here sorted) due in
      let all : (wake p).ready ≡ us ++ a.process ∷ (vs ++ p.ready) =
        ap (λ l. woken_by p.now l ++ p.ready) here
        ∙ (ap (λ l. l ++ p.ready) e ∙ append_assoc us (a.process ∷ vs) p.ready) in
      let sizes : length (wake p).ready ≡ length us + suc (length vs + length p.ready) =
        ap length all
        ∙ (length-append us (a.process ∷ (vs ++ p.ready))
            ∙ omega (arith, length-append vs p.ready)) in
      let left : length (turn (wake p)).alarms ≡ length (pending p.now p.alarms) =
        ap length (alarms-schedule p) in
      let woken = length-append (woken_by p.now p.alarms) p.ready in
      turned us (vs ++ p.ready) a.process (wake p) (total p) all
        (omega (arith, woken_by-pending p.now p.alarms))

  stays : ltb_ℤ p.now a.due ≡ true → (us : List Alarm) × ((schedule p).alarms ≡ us ++ a ∷ ys)
  stays later =
      let (us, e) = pending-split p.now a xs ys later in
      (us, alarms-schedule p ∙ (ap (pending p.now) here ∙ e))

schedule-InOrder : (p : Plan) → InOrder p.alarms → InOrder (schedule p).alarms
schedule-InOrder p s = subst InOrder (sym (alarms-schedule p)) (pending-InOrder p.now p.alarms s)

-- The first event has woken `q`; the round robin does the rest.
woken_runs :
    (v : Event) (es : List Event) (q : Ptr) (before : ℕ) (p : Plan)
    → Closer q before (follow_one v p)
    → before ≤ length es
    → (front back : List Event) × (v ∷ es ≡ front ++ back) × ((follow front p).running ≡ q)
unfolding follow
woken_runs v es q before p (runs h) few = (v ∷ [], es, refl, h)
woken_runs v es q before p (waits xs ys e closer) few =
    let (front, back, whole, done) = follow_fair es xs ys q (follow_one v p) e (omega arith) in
    (v ∷ front, back, ap (λ r. v ∷ r) whole, done)

later_due : (t d : ℤ) → ltb_ℤ (t +ℤ pos 0) d ≡ false → ltb_ℤ (incr t) d ≡ false
later_due t d h = ground arith

abbrev Soon : Alarm → List Event → Plan → Type 0
Soon a es p =
    (front back : List Event) × (es ≡ front ++ back) × ((follow front p).running ≡ a.process)

pub follow_sleeper :
    (es : List Event) (n : ℕ) (a : Alarm) (xs ys : List Alarm) (p : Plan)
    → InOrder p.alarms
    → p.alarms ≡ xs ++ a ∷ ys
    → ltb_ℤ (p.now +ℤ pos n) a.due ≡ false
    → n + total p < ticks es
    → Soon a es p
unfolding follow follow_one tick ticks
follow_sleeper [] n a xs ys p s here due few = elim few [ ]
follow_sleeper (ticked ∷ es) zero a xs ys p s here due few =
    let p' = record p { now = incr p.now } in
    woken_runs ticked es a.process (total p) p
      (goes_off a xs ys p' s here (later_due p.now a.due due))
      (let t = ticks-length es in omega arith)
follow_sleeper (ticked ∷ es) (suc n) a xs ys p s here due few =
    let p' = record p { now = incr p.now } in
    elim (Bool-cases (ltb_ℤ p'.now a.due)) [
      | inr gone ↦
          woken_runs ticked es a.process (total p) p (goes_off a xs ys p' s here gone)
            (let t = ticks-length es in omega arith)
      | inl later ↦
          let (us, e) = stays a xs ys p' s here later in
          let still : ltb_ℤ ((schedule p').now +ℤ pos n) a.due ≡ false =
            rw (now-schedule p') (rw (sym (incr-add p.now n)) due) in
          let (front, back, whole, done) =
            follow_sleeper es n a us ys (schedule p') (schedule-InOrder p' s) e still
              (let t = total-schedule p' in omega arith) in
          (ticked ∷ front, back, ap (λ r. ticked ∷ r) whole, done)
    ]
follow_sleeper (preempted ∷ es) n a xs ys p s here due few = elim (Bool-cases (ltb_ℤ p.now a.due)) [
  | inr gone ↦
      woken_runs preempted es a.process (total p) p (goes_off a xs ys p s here gone)
        (let t = ticks-length es in omega arith)
  | inl later ↦
      let (us, e) = stays a xs ys p s here later in
      let still : ltb_ℤ ((schedule p).now +ℤ pos n) a.due ≡ false = rw (now-schedule p) due in
      let (front, back, whole, done) =
        follow_sleeper es n a us ys (schedule p) (schedule-InOrder p s) e still
          (let t = total-schedule p in omega arith) in
      (preempted ∷ front, back, ap (λ r. preempted ∷ r) whole, done)
]

-- A sleeping process runs again: in a state that represents a plan with an alarm that is due within
-- `n` ticks, its process becomes the running one during any sequence of clock ticks and
-- preemptions with more ticks than `n` and the ready processes and the alarms together. The loops
-- are given more rounds than there are alarms.
pub run_sleeper :
    (es : List Event) (s : System) (p : Plan) (n : ℕ) (a : Alarm) (xs ys : List Alarm)
    → Represents s p
    → p.alarms ≡ xs ++ a ∷ ys
    → ltb_ℤ (p.now +ℤ pos n) a.due ≡ false
    → n + (length p.ready + length p.alarms) < ticks es
    → (rounds : ℕ) → length p.alarms < rounds
    → (front back : List Event) × (es ≡ front ++ back)
      × Ends (λ _ t. t.running ≡ a.process) (run rounds front s)
run_sleeper es s p n a xs ys k here due few rounds fuel =
    let sorted = subst InOrder k.alarms (alarms-InOrder s.timers k.timers k.state.sorted) in
    let (front, back, whole, done) = follow_sleeper es n a xs ys p sorted here due few in
    (
      front,
      back,
      whole,
      Ends-mono (λ _ t. Represents t (follow front p)) (λ _ t. t.running ≡ a.process)
          (run rounds front s) (run-Represents front s p k rounds fuel) λ _ t r. r.running ∙ done,
    )
