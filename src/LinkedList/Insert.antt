-- ===== src/LinkedList/Insert.antt =====
-- List_insert on well-formed lists, and its refusals.
use mathlib.Core.Path.{subst}
use disastr_os_queues.Base.{
  ◌≡◌, ◌≢◌, refl, true, false, not, ◌||◌, List, [], ◌∷◌, ◌++◌, arith, incr, ◌==◌, if◌then◌else◌,
  has, if_false, not-has-left, not-has-right, not-has-append, not-has-cons, Distinct, length-append,
  sym, ◌∙◌, ◌⊎◌, inl, inr,
}
use disastr_os_queues.LinkedList.{Ptr, null, is_null, ListHead, Items, set_prev, set_next, insert}
use disastr_os_queues.LinkedList.Chain.{
  head_or, last_or, Seg, IsList, SameOutside, last_or-append, has-last_or, ne_of_has, Seg-append,
  Seg-left, Seg-right, frame, frame-update, Seg-set_next, Seg-set_prev, Distinct-left,
  Distinct-right, Distinct-apart, Disjoint-head,
}

-- The writes that put `x` behind `prev`, and those that put `next` behind `x`.
abbrev hung : Items → Ptr → Ptr → Items
hung items prev x = if is_null prev then items else set_next (set_prev items x prev) prev x

abbrev closed : Items → Ptr → Ptr → Items
closed items x next = if is_null next then items else set_prev (set_next items x next) next x

insert_lem :
    (head : ListHead) (items : Items) (prev x : Ptr)
    → is_null x ≡ false
    → (items x).next ≡ null
    → (items x).prev ≡ null
    → insert head items prev x
      ≡ let next = if is_null prev then head.first else (items prev).next in
        (
          record {
            first = if is_null prev then x else head.first;
            last = if is_null next then x else head.last;
            size = incr head.size;
          },
          closed (hung items prev x) x next,
          x,
        )
unfolding insert
insert_lem head items prev x h n p =
    let e : (not (is_null (items x).next) || not (is_null (items x).prev)) ≡ false = ground arith in
    rw (h, e)

-- `List_insert` refuses the null pointer and an item with a neighbour, and changes nothing.
pub insert_refused :
    (head : ListHead) (items : Items) (prev x : Ptr)
    → (x ≡ null) ⊎ (((items x).next ≢ null) ⊎ ((items x).prev ≢ null))
    → insert head items prev x ≡ (head, items, null)
unfolding insert
insert_refused head items prev x (inl e) = let h : is_null x ≡ true = ground arith in rw h
insert_refused head items prev x (inr e) =
    let linked : (not (is_null (items x).next) || not (is_null (items x).prev)) ≡ true =
      ground arith in
    let kept : (if is_null x then (head, items, null) else (head, items, null))
        ≡ (head, items, null) =
      ground arith in
    rw linked kept

-- The outcome of putting `x` into the list `xs`, which makes the list `result`.
pub record Inserted (items : Items) (x : Ptr) (xs result : List Ptr) (r : ListHead × Items × Ptr)
    : Type 0 where
  pub returned : r.2 ≡ x
  pub list : IsList r.1 r.0 result
  pub same : SameOutside (x ∷ xs) items r.1

module _ (items : Items) (x : Ptr) (n : (items x).next ≡ null) (p : (items x).prev ≡ null) where
  hung-Seg :
      (ys : List Ptr) (stop : Ptr)
      → Seg items null ys stop
      → has null ys ≡ false
      → has x ys ≡ false
      → Distinct ys
      → Seg (hung items (last_or null ys) x) null (ys ++ x ∷ []) null
  hung-Seg [] stop s h out d = (p, n, tt)
  hung-Seg (y ∷ ys) stop s h out d =
      let some : is_null (last_or y ys) ≡ false = ne_of_has _ null (y ∷ ys) (has-last_or y ys) h in
      let ne : (last_or y ys == x) ≡ false = ne_of_has _ x (y ∷ ys) (has-last_or y ys) out in
      subst (λ f. Seg f null (y ∷ ys ++ x ∷ []) null) (if_false items _ some)
        (Seg-append _ null (y ∷ ys) (x ∷ []) null
          (Seg-set_next _ null y ys stop x (frame-update items null (y ∷ ys) stop x _ s out) d)
          (ground arith, ground arith, tt))

hung-other :
    (items : Items) (p x a : Ptr) → (p == a) ≡ false → (x == a) ≡ false → hung items p x a ≡ items a
hung-other items p x a h k = ground arith

closed-other :
    (items : Items) (n x a : Ptr)
    → (n == a) ≡ false
    → (x == a) ≡ false
    → closed items x n a ≡ items a
closed-other items n x a h k = ground arith

closed-Seg :
    (items : Items) (ys zs : List Ptr) (x p : Ptr)
    → Seg items null (ys ++ x ∷ []) null
    → Seg items p zs null
    → Distinct (ys ++ x ∷ zs)
    → has null zs ≡ false
    → Seg (closed items x (head_or zs null)) null (ys ++ x ∷ zs) null
closed-Seg items ys [] x p s t d h = s
closed-Seg items ys (z ∷ zs) x p s t d h =
    let some : is_null z ≡ false = ground arith in
    let apart = Distinct-apart ys (x ∷ z ∷ zs) d in
    let e = Distinct-right ys (x ∷ z ∷ zs) d in
    let x-out = Disjoint-head ys x (z ∷ zs) apart in
    let z-out = Disjoint-head ys z zs λ a i. (ground (arith, apart a i)) in
    let ne : (z == x) ≡ false = ground arith in
    let left = Seg-left items null ys (x ∷ []) null s in
    let (xp, xn, _) = Seg-right items null ys (x ∷ []) null s in
    subst (λ f. Seg f null (ys ++ x ∷ z ∷ zs) null) (if_false items _ some)
      (Seg-append _ null ys (x ∷ z ∷ zs) null
        (frame-update _ null ys x z _ (frame-update items null ys x x _ left x-out) z-out)
        (
          rw ne (ground arith),
          rw ne (ground arith),
          Seg-set_prev _ p x z zs null (frame-update items p (z ∷ zs) null x _ t e.0) e.1.0,
        ))

hung-frame :
    (items : Items) (ys zs : List Ptr) (x p : Ptr)
    → Seg items p zs null
    → Distinct (ys ++ zs)
    → has x (ys ++ zs) ≡ false
    → Seg (hung items (last_or null ys) x) p zs null
hung-frame items [] zs x p t d out = t
hung-frame items (y ∷ ys) zs x p t d out = frame items p zs null t λ a i.
    let ne : (x == a) ≡ false = ground (arith, not-has-right x (y ∷ ys) zs out) in
    let last : (last_or y ys == a) ≡ false =
      ground (arith, Distinct-apart (y ∷ ys) zs d _ (has-last_or y ys)) in
    hung-other items (last_or y ys) x a last ne

Seg-last-next :
    (items : Items) (p y : Ptr) (ys : List Ptr) (n : Ptr)
    → Seg items p (y ∷ ys) n
    → (items (last_or y ys)).next ≡ n
Seg-last-next items p y [] n (a, b, s) = b
Seg-last-next items p y (z ∷ ys) n (a, b, s) = Seg-last-next items y z ys n s

-- The item that `List_insert` takes to follow the new one.
abbrev next_of : ListHead → Items → Ptr → Ptr
next_of head items prev = if is_null prev then head.first else (items prev).next

next-head_or :
    (items : Items) (head : ListHead) (ys zs : List Ptr)
    → IsList items head (ys ++ zs)
    → next_of head items (last_or null ys) ≡ head_or zs null
next-head_or items head [] zs l = l.first
next-head_or items head (y ∷ ys) zs l =
    let some =
      ne_of_has _ null (y ∷ ys) (has-last_or y ys) (not-has-left null (y ∷ ys) zs l.non_null) in
    sym (if_false head.first _ some)
    ∙ Seg-last-next items null y ys _ (Seg-left items null (y ∷ ys) zs null l.linked)

first-insert :
    (head : ListHead) (x : Ptr) (ys zs : List Ptr)
    → head.first ≡ head_or (ys ++ zs) null
    → has null ys ≡ false
    → (if is_null (last_or null ys) then x else head.first) ≡ head_or (ys ++ x ∷ zs) null
first-insert head x [] zs e h = refl
first-insert head x (y ∷ ys) zs e h =
    sym (if_false x _ (ne_of_has _ null (y ∷ ys) (has-last_or y ys) h)) ∙ e

last-insert :
    (head : ListHead) (x : Ptr) (ys zs : List Ptr)
    → head.last ≡ last_or null (ys ++ zs)
    → has null zs ≡ false
    → (if is_null (head_or zs null) then x else head.last) ≡ last_or null (ys ++ x ∷ zs)
last-insert head x ys [] e h = sym (last_or-append null ys (x ∷ []))
last-insert head x ys (z ∷ zs) e h =
    let some : is_null z ≡ false = ground arith in
    sym (if_false x _ some)
    ∙ (e ∙ (last_or-append null ys (z ∷ zs) ∙ sym (last_or-append null ys (x ∷ z ∷ zs))))

Distinct-insert :
    (x : Ptr) (ys zs : List Ptr)
    → Distinct (ys ++ zs)
    → has x (ys ++ zs) ≡ false
    → Distinct (ys ++ x ∷ zs)
Distinct-insert x [] zs d out = (out, d)
Distinct-insert x (y ∷ ys) zs (h, d) out =
    let y-out : has y (x ∷ zs) ≡ false = ground (arith, not-has-right y ys zs h) in
    (
      not-has-append y ys (x ∷ zs) (not-has-left y ys zs h) y-out,
      Distinct-insert x ys zs d (ground arith),
    )

hung-same :
    (items : Items) (ys : List Ptr) (x : Ptr)
    → SameOutside (x ∷ ys) items (hung items (last_or null ys) x)
hung-same items [] x a out = refl
hung-same items (y ∷ ys) x a out =
    let y-out : has a (y ∷ ys) ≡ false = ground arith in
    let ne : (x == a) ≡ false = ground arith in
    hung-other items _ x a (ne_of_has _ a (y ∷ ys) (has-last_or y ys) y-out) ne

closed-same :
    (items : Items) (zs : List Ptr) (x : Ptr)
    → SameOutside (x ∷ zs) items (closed items x (head_or zs null))
closed-same items [] x a out = refl
closed-same items (z ∷ zs) x a out =
    let ne : (z == a) ≡ false = ground arith in
    let x-ne : (x == a) ≡ false = ground arith in closed-other items z x a ne x-ne

insert-same :
    (items : Items) (ys zs : List Ptr) (x : Ptr)
    → SameOutside (x ∷ ys ++ zs) items (closed (hung items (last_or null ys) x) x (head_or zs null))
insert-same items ys zs x a out =
    let left = not-has-left a (x ∷ ys) zs out in
    let right = not-has-right a (x ∷ ys) zs out in
    closed-same _ zs x a (not-has-cons a x zs (ground arith) right) ∙ hung-same items ys x a left

module _ {items : Items} {head : ListHead} (ys zs : List Ptr) (x : Ptr)
    (l : IsList items head (ys ++ zs)) (some : is_null x ≡ false) (n : (items x).next ≡ null)
    (p : (items x).prev ≡ null) (out : has x (ys ++ zs) ≡ false) where
  insert-linked :
      Seg (closed (hung items (last_or null ys) x) x (head_or zs null)) null (ys ++ x ∷ zs) null
  insert-linked =
      closed-Seg _ ys zs x (last_or null ys)
        (hung-Seg items x n p ys (head_or zs null) (Seg-left items null ys zs null l.linked)
          (not-has-left null ys zs l.non_null) (not-has-left x ys zs out)
          (Distinct-left ys zs l.distinct))
        (hung-frame items ys zs x _ (Seg-right items null ys zs null l.linked) l.distinct out)
        (Distinct-insert x ys zs l.distinct out) (not-has-right null ys zs l.non_null)

  -- `List_insert` puts an unlinked item, no member and not null, into a well-formed list: behind the
  -- given member or, behind null, at the front. The list stays well-formed, and no item outside of
  -- it is touched.
  pub insert-Inserted :
      Inserted items x (ys ++ zs) (ys ++ x ∷ zs) (insert head items (last_or null ys) x)
  insert-Inserted =
      let left = not-has-left null ys zs l.non_null in
      let right = not-has-right null ys zs l.non_null in
      let x_some : has null (x ∷ zs) ≡ false = ground arith in
      rw (insert_lem head items (last_or null ys) x some n p, next-head_or items head ys zs l)
        (record {
          returned = refl;
          list = record {
            first = first-insert head x ys zs l.first left;
            last = last-insert head x ys zs l.last right;
            size = rw l.size (ground (arith, length-append ys zs, length-append ys (x ∷ zs)));
            linked = insert-linked;
            non_null = not-has-append null ys (x ∷ zs) left x_some;
            distinct = Distinct-insert x ys zs l.distinct out;
          };
          same = insert-same items ys zs x;
        })
