-- ===== src/Schedule/Fair/Due.antt =====
-- The alarms of a plan, in the order of their times.
use disastr_os_queues.Base.{
  ℕ, ℤ, suc, pos, incr, ◌+ℤ◌, ◌≡◌, refl, true, false, List, [], ◌∷◌, ◌++◌, map, arith, ltb_ℤ, ap,
  Bool-cases, inl, inr,
}
use disastr_os_queues.LinkedList.{Ptr}
use disastr_os_queues.Timer.Order.{Timers, IsSorted}
use disastr_os_queues.Schedule.Plan.{Alarm, woken_by, pending}
use disastr_os_queues.Schedule.Invariant.{alarm}

abbrev pub FirstDue : ℤ → List Alarm → Type 0
FirstDue t [] = Unit {0}
FirstDue t (a ∷ rest) = ltb_ℤ a.due t ≡ false

abbrev pub InOrder : List Alarm → Type 0
InOrder [] = Unit {0}
InOrder (a ∷ rest) = FirstDue a.due rest × InOrder rest

pub alarms-InOrder :
    (timers : Timers) (ts : List Ptr) → IsSorted timers ts → InOrder (map (alarm timers) ts)
alarms-InOrder timers [] s = tt
alarms-InOrder timers (t ∷ []) s = (tt, tt)
alarms-InOrder timers (t ∷ u ∷ ts) (f, s) = (f, alarms-InOrder timers (u ∷ ts) s)

pub pending-InOrder : (now : ℤ) (xs : List Alarm) → InOrder xs → InOrder (pending now xs)
unfolding pending
pending-InOrder now [] s = tt
pending-InOrder now (x ∷ xs) (f, s) = elim (Bool-cases (ltb_ℤ now x.due)) [
  | inl later ↦ rw later (f, s)
  | inr elapsed ↦ rw elapsed (pending-InOrder now xs s)
]

ltb_ℤ-trans : (a b c : ℤ) → ltb_ℤ b a ≡ false → ltb_ℤ c b ≡ false → ltb_ℤ c a ≡ false
ltb_ℤ-trans a b c h k = ground arith

-- The first alarm is due no later than any other.
first_due :
    (x a : Alarm) (xs ys : List Alarm) → InOrder (x ∷ xs ++ a ∷ ys) → ltb_ℤ a.due x.due ≡ false
first_due x a [] ys (f, s) = f
first_due x a (y ∷ xs) ys (f, s) = ltb_ℤ-trans x.due y.due a.due f (first_due y a xs ys s)

-- An alarm that is due goes off, and one that is not stays.
pub woken-split :
    (now : ℤ) (a : Alarm) (xs ys : List Alarm)
    → InOrder (xs ++ a ∷ ys)
    → ltb_ℤ now a.due ≡ false
    → (us vs : List Ptr) × (woken_by now (xs ++ a ∷ ys) ≡ us ++ a.process ∷ vs)
unfolding woken_by
woken-split now a [] ys s due = ([], woken_by now ys, rw due refl)
woken-split now a (x ∷ xs) ys s due =
    let (us, vs, e) = woken-split now a xs ys s.1 due in
    let first = ltb_ℤ-trans x.due a.due now (first_due x a xs ys s) due in
    (x.process ∷ us, vs, rw first (ap (λ r. x.process ∷ r) e))

pub pending-split :
    (now : ℤ) (a : Alarm) (xs ys : List Alarm)
    → ltb_ℤ now a.due ≡ true
    → (us : List Alarm) × (pending now (xs ++ a ∷ ys) ≡ us ++ a ∷ ys)
unfolding pending
pending-split now a [] ys later = ([], rw later refl)
pending-split now a (x ∷ xs) ys later = elim (Bool-cases (ltb_ℤ now x.due)) [
  | inl stop ↦ (x ∷ xs, rw stop refl)
  | inr elapsed ↦ let (us, e) = pending-split now a xs ys later in (us, rw elapsed e)
]

pub incr-add : (t : ℤ) (n : ℕ) → t +ℤ pos (suc n) ≡ incr t +ℤ pos n
incr-add t n = ground arith

pub add_zero : (t : ℤ) → t +ℤ pos 0 ≡ t
add_zero t = ground arith
