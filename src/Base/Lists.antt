-- ===== src/Base/Lists.antt =====
-- Lists measured and indexed by native numbers, and Boolean membership of addresses.
use Prim.Native.Nat.{ℕ, zero, suc, ◌+◌}
use mathlib.Core.Path.{◌≡◌, refl, ap}
use mathlib.Core.Bool.{Bool, true, false, ◌||◌}
use mathlib.Core.List.{List, [], ◌∷◌, ◌++◌}
use mathlib.Core.Option.{Option, none, some}
use native.Mathlib.Omega.{arith}
use disastr_os_queues.Base.Tests.{◌==◌}

module _ {ℓ} {A : Type ℓ} where
  abbrev pub length : List A → ℕ
  length [] = 0
  length (x ∷ xs) = suc (length xs)

  abbrev pub get_elem? : List A → ℕ → Option A
  get_elem? [] i = none
  get_elem? (x ∷ xs) zero = some x
  get_elem? (x ∷ xs) (suc i) = get_elem? xs i

  -- A write out of bounds changes nothing.
  abbrev pub set : List A → ℕ → A → List A
  set [] i v = []
  set (x ∷ xs) zero v = v ∷ xs
  set (x ∷ xs) (suc i) v = x ∷ set xs i v

  pub length-append : (xs ys : List A) → length (xs ++ ys) ≡ length xs + length ys
  length-append [] ys = omega arith
  length-append (x ∷ xs) ys = omega (arith, length-append xs ys)

module _ {ℓ} {A : Type ℓ} where
  pub length-set : (xs : List A) (i : ℕ) (v : A) → length (set xs i v) ≡ length xs
  length-set [] i v = refl
  length-set (x ∷ xs) zero v = refl
  length-set (x ∷ xs) (suc i) v = ap suc (length-set xs i v)

abbrev pub has : ℕ → List ℕ → Bool
has a [] = false
has a (x ∷ xs) = (x == a) || has a xs

-- No entry occurs twice.
abbrev pub Distinct : List ℕ → Type 0
Distinct [] = Unit {0}
Distinct (x ∷ xs) = (has x xs ≡ false) × Distinct xs

pub has-append : (a : ℕ) (xs ys : List ℕ) → has a (xs ++ ys) ≡ (has a xs || has a ys)
has-append a [] ys = refl
has-append a (x ∷ xs) ys = ground (arith, has-append a xs ys)

module _ (a : ℕ) (xs ys : List ℕ) where
  pub not-has-left : has a (xs ++ ys) ≡ false → has a xs ≡ false
  not-has-left h = ground (arith, has-append a xs ys)

  pub not-has-right : has a (xs ++ ys) ≡ false → has a ys ≡ false
  not-has-right h = ground (arith, has-append a xs ys)

  pub not-has-append : has a xs ≡ false → has a ys ≡ false → has a (xs ++ ys) ≡ false
  not-has-append h k = ground (arith, has-append a xs ys)

pub not-has-cons :
    (a x : ℕ) (xs : List ℕ) → (x == a) ≡ false → has a xs ≡ false → has a (x ∷ xs) ≡ false
not-has-cons a x xs h k = ground arith

module _ (a x y : ℕ) (xs : List ℕ) (h : has a (x ∷ y ∷ xs) ≡ false) where
  pub not-has-tail : has a (y ∷ xs) ≡ false
  not-has-tail = ground arith

  pub not-has-skip : has a (x ∷ xs) ≡ false
  not-has-skip = ground arith

pub has_head : (x : ℕ) (xs : List ℕ) → has x (x ∷ xs) ≡ true
has_head x xs = ground arith

pub has_tail : (a x : ℕ) (xs : List ℕ) → has a xs ≡ true → has a (x ∷ xs) ≡ true
has_tail a x xs h = ground arith
