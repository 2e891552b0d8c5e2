-- ===== src/Base/Counts.antt =====
-- How often an address occurs in a list. Lists without common or repeated addresses are those whose
-- counts add up to at most 1, which the arithmetic tactics can use.
use Prim.Native.Nat.{ℕ, ◌+◌, ◌≤◌}
use mathlib.Core.Path.{◌≡◌, refl}
use mathlib.Core.Logic.{inl, inr}
use mathlib.Core.Bool.{true, false}
use mathlib.Core.List.{List, [], ◌∷◌, ◌++◌}
use native.Mathlib.Omega.{arith}
use disastr_os_queues.Base.Tests.{◌==◌, if◌then◌else◌, Bool-cases}
use disastr_os_queues.Base.Lists.{has}

-- 1 for the address itself.
unfoldable pub one : ℕ → ℕ → ℕ
one x a = if x == a then 1 else 0

abbrev pub count : ℕ → List ℕ → ℕ
count a [] = 0
count a (x ∷ xs) = one x a + count a xs

pub one_self : (x : ℕ) → one x x ≡ 1
unfolding one
one_self x = ground arith

pub one_ne : (x a : ℕ) → one x a ≡ 0 → (x == a) ≡ false
unfolding one
one_ne x a h = ground arith

pub count-append :
    (p : ℕ) (front back : List ℕ) → count p (front ++ back) ≡ count p front + count p back
count-append p [] back = omega arith
count-append p (q ∷ front) back = let below = count-append p front back in omega arith

pub count_of_has : (a : ℕ) (xs : List ℕ) → has a xs ≡ true → 1 ≤ count a xs
unfolding one
count_of_has a [] h = cc
count_of_has a (x ∷ xs) h = ground (arith, count_of_has a xs)

pub not-has_of_count : (a : ℕ) (xs : List ℕ) → count a xs ≡ 0 → has a xs ≡ false
unfolding one
not-has_of_count a [] h = refl
not-has_of_count a (x ∷ xs) h = ground (arith, not-has_of_count a xs)

pub has_of_count : (a : ℕ) (xs : List ℕ) → 1 ≤ count a xs → has a xs ≡ true
unfolding one
has_of_count a [] h = elim h [ ]
has_of_count a (x ∷ xs) h = ground (arith, has_of_count a xs)

pub count_of_not_has : (a : ℕ) (xs : List ℕ) → has a xs ≡ false → count a xs ≡ 0
unfolding one
count_of_not_has a [] h = refl
count_of_not_has a (x ∷ xs) h = ground (arith, count_of_not_has a xs)

-- A list without the first occurrence of an entry.
unfoldable pub remove : ℕ → List ℕ → List ℕ
remove a [] = []
remove a (x ∷ xs) = if x == a then xs else x ∷ remove a xs

-- An entry splits the list.
pub remove-split :
    (a : ℕ) (xs : List ℕ)
    → has a xs ≡ true
    → (ys zs : List ℕ) × (xs ≡ ys ++ a ∷ zs) × (remove a xs ≡ ys ++ zs)
unfolding remove
remove-split a [] h = cc
remove-split a (x ∷ xs) h = elim (Bool-cases (x == a)) [
  | inl e ↦ ([], xs, ground arith, rw e)
  | inr ne ↦
      let (ys, zs, whole, rest) = remove-split a xs (ground arith) in
      (x ∷ ys, zs, ground (arith, whole), rw (ne, rest))
]
