-- ===== src/LinkedList/Walk.antt =====
-- Loops that walk along a list: List_find, List_index and every search by a key.
use disastr_os_queues.Base.{
  ℕ, zero, suc, ◌<◌, ◌≡◌, refl, false, List, [], ◌∷◌, arith, none, some, pos, Bool, ◌==◌,
  if◌then◌else◌, has, length, get_elem?, Bool-cases, inl, inr, if_false, ap, ◌∙◌, sym,
}
use disastr_os_queues.LinkedList.{
  Ptr, null, is_null, ListHead, Items, first_where, find, index_loop, index,
}
use disastr_os_queues.LinkedList.Chain.{head_or, Seg, IsList}

-- The first member that passes the test, or null.
unfoldable pub first_match : (Ptr → Bool) → List Ptr → Ptr
first_match test [] = null
first_match test (x ∷ xs) = if test x then x else first_match test xs

-- The member at a position, or null.
abbrev nth : List Ptr → ℕ → Ptr
nth xs i = elim (get_elem? xs i) [ none ↦ null | some x ↦ x ]

first_where-Seg :
    (rounds : ℕ) (test : Ptr → Bool) (items : Items) (p : Ptr) (xs : List Ptr)
    → Seg items p xs null
    → has null xs ≡ false
    → length xs < rounds
    → first_where rounds test items (head_or xs null) ≡ some (first_match test xs)
unfolding first_where first_match
first_where-Seg zero test items p xs s h fuel = elim fuel [ ]
first_where-Seg (suc rounds) test items p [] s h fuel = refl
first_where-Seg (suc rounds) test items p (x ∷ xs) (a, b, s) h fuel =
    let x_some : is_null x ≡ false = ground arith in
    let rest = first_where-Seg rounds test items x xs s (ground arith) (omega arith) in
    sym (if_false (some null) _ x_some)
    ∙ rw (b, rest) (elim (Bool-cases (test x)) [ inl e ↦ rw e | inr e ↦ rw e ])

-- A search that makes more rounds than the list has members ends at the first match.
pub first_where-first_match :
    {items : Items} {head : ListHead} {xs : List Ptr} (rounds : ℕ) (test : Ptr → Bool)
    → IsList items head xs
    → length xs < rounds
    → first_where rounds test items head.first ≡ some (first_match test xs)
first_where-first_match {items} {head} {xs} rounds test l fuel =
    ap (first_where rounds test items) l.first
    ∙ first_where-Seg rounds test items null xs l.linked l.non_null fuel

first_match-has :
    (x : Ptr) (xs : List Ptr) → first_match (λ a. a == x) xs ≡ (if has x xs then x else null)
unfolding first_match
first_match-has x [] = refl
first_match-has x (y ∷ ys) = ground (arith, first_match-has x ys)

-- `List_find` ends, given more rounds than the well-formed list has members, and returns the item
-- when it is a member, and else null.
pub find-has :
    (items : Items) (head : ListHead) (xs : List Ptr) (rounds : ℕ) (x : Ptr)
    → IsList items head xs
    → length xs < rounds
    → find rounds head items x ≡ some (if has x xs then x else null)
unfolding find
find-has items head xs rounds x l fuel =
    first_where-first_match rounds _ l fuel ∙ ap some (first_match-has x xs)

index_loop-Seg :
    (i : ℕ) (items : Items) (p : Ptr) (xs : List Ptr)
    → Seg items p xs null
    → has null xs ≡ false
    → index_loop i items (head_or xs null) ≡ nth xs i
unfolding index_loop
index_loop-Seg zero items p [] s h = refl
index_loop-Seg zero items p (x ∷ xs) s h = refl
index_loop-Seg (suc i) items p [] s h = refl
index_loop-Seg (suc i) items p (x ∷ xs) (a, b, s) h =
    let x_some : is_null x ≡ false = ground arith in
    let rest = index_loop-Seg i items x xs s (ground arith) in
    sym (if_false null _ x_some) ∙ rw b rest

-- `List_index` on a well-formed list returns the member at the position, and null behind the end.
index-nth :
    (items : Items) (head : ListHead) (xs : List Ptr) (i : ℕ)
    → IsList items head xs
    → index head items (pos i) ≡ nth xs i
unfolding index
index-nth items head xs i l =
    ap (index_loop i items) l.first ∙ index_loop-Seg i items null xs l.linked l.non_null
