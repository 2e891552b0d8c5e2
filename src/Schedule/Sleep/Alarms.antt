-- ===== src/Schedule/Sleep/Alarms.antt =====
-- TimerList_add on the alarms of the plan and on the state of the scheduler.
use native.Mathlib.Nat.{mul-div_left}
use disastr_os_queues.Base.{
  ℕ, ℤ, ◌+◌, ◌*◌, ◌/◌, ◌<◌, ◌≡◌, refl, true, false, List, [], ◌∷◌, ◌++◌, map, arith, has, ap, sym,
  ◌∙◌, ◌==◌, count, one, ltb_ℤ, Bool-cases, inl, inr, has_head, has_tail, ==_iff,
}
use disastr_os_queues.LinkedList.{Ptr}
use disastr_os_queues.Timer.Order.{Timers, due, rest}
use disastr_os_queues.Schedule.Plan.{Alarm, set_alarm}
use disastr_os_queues.Schedule.Invariant.{alarm, owners}

-- Two stores agree on the timers `xs`, and `new` is one more in the second.
module _ (timers timers' : Timers) (t : ℤ) (pcb new : Ptr)
    (item : timers' new ≡ record { awakening_time = t; pcb = pcb }) where
  map_same :
      (xs : List Ptr)
      → ((a : Ptr) → has a xs ≡ true → timers' a ≡ timers a)
      → map (alarm timers') xs ≡ map (alarm timers) xs
  map_same [] same = refl
  map_same (x ∷ xs) same =
      rw (same x (has_head x xs), map_same xs λ a h. same a (has_tail a x xs h)) refl

  -- The new timer is where the plan sets its alarm.
  pub alarm_added :
      (xs : List Ptr)
      → ((a : Ptr) → has a xs ≡ true → timers' a ≡ timers a)
      → map (alarm timers') (due timers t xs ++ new ∷ rest timers t xs)
        ≡ set_alarm (record { due = t; process = pcb }) (map (alarm timers) xs)
  unfolding due rest set_alarm
  alarm_added [] same = rw item refl
  alarm_added (x ∷ xs) same =
      let here = same x (has_head x xs) in
      let below : (a : Ptr) → has a xs ≡ true → timers' a ≡ timers a =
        λ a h. same a (has_tail a x xs h) in
      elim (Bool-cases (ltb_ℤ t (timers x).awakening_time)) [
        | inl later ↦ rw (later, item, here, map_same xs below) refl
        | inr sooner ↦ rw (sooner, here, alarm_added xs below) refl
      ]

-- An alarm more, for its process.
pub count-set_alarm :
    (a : Ptr) (new : Alarm) (xs : List Alarm)
    → count a (map (λ x. x.process) (set_alarm new xs))
      ≡ one new.process a + count a (map (λ x. x.process) xs)
unfolding set_alarm
count-set_alarm a new [] = refl
count-set_alarm a new (x ∷ xs) = elim (Bool-cases (ltb_ℤ new.due x.due)) [
  | inl sooner ↦ rw sooner refl
  | inr later ↦ rw later (omega (arith, count-set_alarm a new xs))
]

pub owners-alarm :
    (timers : Timers) (ts : List Ptr)
    → owners timers ts ≡ map (λ x. x.process) (map (alarm timers) ts)
owners-alarm timers [] = refl
owners-alarm timers (t ∷ ts) = ap (λ r. (timers t).pcb ∷ r) (owners-alarm timers ts)

-- Different blocks have different addresses.
pub block-ne :
    (a : Ptr) (size i j : ℕ) → 0 < size → (i == j) ≡ false → (a + i * size == a + j * size) ≡ false
block-ne a size i j h ne = elim (Bool-cases (a + i * size == a + j * size)) [
  | inl hit ↦
      let equal : i * size ≡ j * size =
        omega (arith, (==_iff (a + i * size) (a + j * size)).0 hit) in
      let same : i ≡ j = sym (mul-div_left i h) ∙ (ap (λ n. n / size) equal ∙ mul-div_left j h) in
      let yes' = (==_iff i j).1 same in cc
  | inr miss ↦ miss
]
