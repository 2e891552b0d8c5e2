-- ===== src/Schedule/Fair.antt =====
-- The round robin is fair.
pub mod Due
pub mod Sleepers
use mathlib.Core.List.{append_assoc}
use disastr_os_queues.Base.{
  ℕ, incr, ◌+◌, ◌≤◌, ◌<◌, ◌≡◌, refl, List, [], ◌∷◌, ◌++◌, length, length-append, arith, sym, ap,
  ◌∙◌,
}
use disastr_os_queues.LinkedList.{Ptr}
use disastr_os_queues.Schedule.Plan.{Plan, woken_by, wake, turn, turn_to, schedule, tick}
use disastr_os_queues.Schedule.Refine.{Represents}
use disastr_os_queues.Schedule.Runs.{
  Event, ticked, preempted, run, follow, follow_one, run-Represents, woken_by-pending,
  alarms-schedule,
}
use disastr_os_queues.Kernel.{System, Ends, Ends-mono}

-- `q` runs, or stands in the ready list with fewer processes and alarms in front of it.
pub data Closer (q : Ptr) (before : ℕ) (p : Plan) : Type 0 where
  runs : p.running ≡ q → Closer q before p
  waits :
      (xs ys : List Ptr)
      → p.ready ≡ xs ++ q ∷ ys
      → length xs + length p.alarms < before
      → Closer q before p

pub turned :
    (ws ys : List Ptr) (q : Ptr) (w : Plan) (before : ℕ)
    → w.ready ≡ ws ++ q ∷ ys
    → length ws + length (turn w).alarms ≤ before
    → Closer q before (turn w)
unfolding turn turn_to
turned [] ys q w before e few = runs (rw e refl)
turned (z ∷ zs) ys q w before e few =
    waits zs (ys ++ w.running ∷ []) (rw e (append_assoc zs (q ∷ ys) (w.running ∷ []))) (omega arith)

scheduled :
    (xs ys : List Ptr) (q : Ptr) (p : Plan)
    → p.ready ≡ xs ++ q ∷ ys
    → Closer q (length xs + length p.alarms) (schedule p)
unfolding schedule wake
scheduled xs ys q p e =
    let woken = woken_by p.now p.alarms in
    turned (woken ++ xs) ys q (wake p) (length xs + length p.alarms)
      (ap (λ r. woken ++ r) e ∙ sym (append_assoc woken xs (q ∷ ys)))
      (rw (alarms-schedule p)
        (omega (arith, length-append woken xs, woken_by-pending p.now p.alarms)))

pub follow_one-Closer :
    (e : Event) (xs ys : List Ptr) (q : Ptr) (p : Plan)
    → p.ready ≡ xs ++ q ∷ ys
    → Closer q (length xs + length p.alarms) (follow_one e p)
unfolding follow_one tick
follow_one-Closer ticked xs ys q p e = scheduled xs ys q (record p { now = incr p.now }) e
follow_one-Closer preempted xs ys q p e = scheduled xs ys q p e

-- Whatever the events are, one of them brings `q`.
pub follow_fair :
    (es : List Event) (xs ys : List Ptr) (q : Ptr) (p : Plan)
    → p.ready ≡ xs ++ q ∷ ys
    → length xs + length p.alarms < length es
    → (front back : List Event) × (es ≡ front ++ back) × ((follow front p).running ≡ q)
unfolding follow
follow_fair [] xs ys q p e few = elim few [ ]
follow_fair (v ∷ es) xs ys q p e few = elim (follow_one-Closer v xs ys q p e) [
  | runs h ↦ (v ∷ [], es, refl, h)
  | waits xs' ys' e' closer ↦
      let (front, back, whole, done) = follow_fair es xs' ys' q (follow_one v p) e' (omega arith) in
      (v ∷ front, back, ap (λ r. v ∷ r) whole, done)
]

-- No ready process starves: in a state that represents a plan, a process with some others in front
-- of it in the ready list becomes the running one during any sequence of clock ticks and
-- preemptions that has more events than there are processes in front of it and alarms, even though
-- woken processes go before it. The loops are given more rounds than there are alarms.
pub run_fair :
    (es : List Event) (s : System) (p : Plan) (xs ys : List Ptr) (q : Ptr)
    → Represents s p
    → p.ready ≡ xs ++ q ∷ ys
    → length xs + length p.alarms < length es
    → (rounds : ℕ) → length p.alarms < rounds
    → (front back : List Event) × (es ≡ front ++ back)
      × Ends (λ _ t. t.running ≡ q) (run rounds front s)
run_fair es s p xs ys q k e few rounds fuel =
    let (front, back, whole, done) = follow_fair es xs ys q p e few in
    (
      front,
      back,
      whole,
      Ends-mono (λ _ t. Represents t (follow front p)) (λ _ t. t.running ≡ q) (run rounds front s)
          (run-Represents front s p k rounds fuel) λ _ t r. r.running ∙ done,
    )
