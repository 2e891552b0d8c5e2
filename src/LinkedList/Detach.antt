-- ===== src/LinkedList/Detach.antt =====
-- List_detach and List_pop on well-formed lists.
use disastr_os_queues.Base.{
  ◌≡◌, refl, true, false, List, [], ◌∷◌, ◌++◌, arith, decr, ◌==◌, if◌then◌else◌, update, has,
  if_false, has-append, not-has-left, not-has-right, not-has-append, Distinct, length-append, sym,
  ap, ◌∙◌,
}
use mathlib.Core.Path.{subst}
use disastr_os_queues.LinkedList.{
  Ptr, null, is_null, ListHead, Items, set_prev, set_next, detach, pop,
}
use disastr_os_queues.LinkedList.Chain.{
  head_or, last_or, Seg, IsList, SameOutside, Disjoint, last_or-append, has-last_or, ne_of_has,
  Seg-append, Seg-left, Seg-right, frame-update, Seg-set_next, Seg-set_prev, Distinct-left,
  Distinct-right, Distinct-apart, Distinct-append, Disjoint-head,
}

-- Links `p` and `n` to each other, where they are no null pointers.
abbrev joined : Items → Ptr → Ptr → Items
joined items p n =
    let items' = if is_null p then items else set_next items p n in
    if is_null n then items' else set_prev items' n p

joined-both :
    (items : Items) (p n : Ptr)
    → is_null p ≡ false
    → is_null n ≡ false
    → set_prev (set_next items p n) n p ≡ joined items p n
joined-both items p n h k = rw (h, k)

last-ne-null :
    (y : Ptr) (ys : List Ptr) → has null (y ∷ ys) ≡ false → is_null (last_or y ys) ≡ false
last-ne-null y ys h = ne_of_has _ null (y ∷ ys) (has-last_or y ys) h

-- Two chains with distinct addresses become one.
joined-Seg :
    (items : Items) (ys zs : List Ptr) (n p : Ptr)
    → Seg items null ys n
    → Seg items p zs null
    → has null (ys ++ zs) ≡ false
    → Distinct (ys ++ zs)
    → Seg (joined items (last_or null ys) (head_or zs null)) null (ys ++ zs) null
joined-Seg items [] [] n p s t h d = tt
joined-Seg items [] (z ∷ zs) n p s t h d =
    let z_some : is_null z ≡ false = ground arith in
    subst (λ f. Seg f null (z ∷ zs) null) (if_false items _ z_some)
      (Seg-set_prev items p null z zs null t d.0)
joined-Seg items (y ∷ ys) [] n p s t h d =
    let some_last = last-ne-null y ys (not-has-left null (y ∷ ys) [] h) in
    subst (λ f. Seg f null (y ∷ ys ++ []) null) (if_false items _ some_last)
      (Seg-append _ null (y ∷ ys) [] null
        (Seg-set_next items null y ys n null s (Distinct-left (y ∷ ys) [] d)) tt)
joined-Seg items (y ∷ ys) (z ∷ zs) n p s t h d =
    let left : has null (y ∷ ys) ≡ false = not-has-left null (y ∷ ys) (z ∷ zs) h in
    let right : has null (z ∷ zs) ≡ false = not-has-right null (y ∷ ys) (z ∷ zs) h in
    let apart = Distinct-apart (y ∷ ys) (z ∷ zs) d in
    let z-out : has z (y ∷ ys) ≡ false = Disjoint-head (y ∷ ys) z zs apart in
    let l-out : has (last_or y ys) (z ∷ zs) ≡ false = apart _ (has-last_or y ys) in
    let z_some : is_null z ≡ false = ground arith in
    subst (λ f. Seg f null (y ∷ ys ++ z ∷ zs) null)
      (joined-both items (last_or y ys) z (last-ne-null y ys left) z_some)
      (Seg-append _ null (y ∷ ys) (z ∷ zs) null
        (frame-update _ null (y ∷ ys) z z _
          (Seg-set_next items null y ys n z s (Distinct-left (y ∷ ys) (z ∷ zs) d)) z-out)
        (Seg-set_prev _ p (last_or y ys) z zs null
          (frame-update items p (z ∷ zs) null (last_or y ys) _ t l-out)
          (Distinct-right (y ∷ ys) (z ∷ zs) d).0))

joined-same :
    (items : Items) (ys zs : List Ptr)
    → SameOutside (ys ++ zs) items (joined items (last_or null ys) (head_or zs null))
joined-same items [] [] a out = refl
joined-same items [] (z ∷ zs) a out = ground arith
joined-same items (y ∷ ys) [] a out =
    ground (arith, has-append a (y ∷ ys) [], has-last_or y ys, ne_of_has (last_or y ys) a (y ∷ ys))
joined-same items (y ∷ ys) (z ∷ zs) a out =
    ground
      (arith, has-append a (y ∷ ys) (z ∷ zs), has-last_or y ys, ne_of_has (last_or y ys) a (y ∷ ys))

detach_lem :
    (head : ListHead) (items : Items) (x p n : Ptr)
    → is_null x ≡ false
    → (items x).prev ≡ p
    → (items x).next ≡ n
    → detach head items x ≡ (
      record {
        first = if x == head.first then n else head.first;
        last = if x == head.last then p else head.last;
        size = decr head.size;
      },
      update (joined items p n) x (record { prev = null; next = null }),
      x,
    )
unfolding detach
detach_lem head items x p n h e f = rw (h, e, f)

first-detach :
    (x : Ptr) (ys zs : List Ptr)
    → has x ys ≡ false
    → (if x == head_or (ys ++ x ∷ zs) null then head_or zs null else head_or (ys ++ x ∷ zs) null)
      ≡ head_or (ys ++ zs) null
first-detach x [] zs h = ground arith
first-detach x (y ∷ ys) zs h = ground arith

last-detach :
    (x : Ptr) (ys zs : List Ptr)
    → has x zs ≡ false
    → (if x == last_or x zs then last_or null ys else last_or x zs) ≡ last_or (last_or null ys) zs
last-detach x ys [] h = ground arith
last-detach x ys (z ∷ zs) h = ground (arith, has-last_or z zs)

-- The outcome of taking `x` out of the list `xs`, which leaves the list `rest`.
pub record Detached (items : Items) (x : Ptr) (xs rest : List Ptr) (r : ListHead × Items × Ptr)
    : Type 0 where
  pub result : r.2 ≡ x
  pub list : IsList r.1 r.0 rest
  pub unlinked : r.1 x ≡ record { prev = null; next = null }
  pub same : SameOutside xs items r.1

module _ {items : Items} {head : ListHead} (ys zs : List Ptr) (x : Ptr)
    (l : IsList items head (ys ++ x ∷ zs)) where
  apart : Disjoint ys (x ∷ zs)
  apart = Distinct-apart ys (x ∷ zs) l.distinct

  x-not-mem-zs : has x zs ≡ false
  x-not-mem-zs = (Distinct-right ys (x ∷ zs) l.distinct).0

  x-not-mem-ys : has x ys ≡ false
  x-not-mem-ys = Disjoint-head ys x zs apart

  x-ne-null : is_null x ≡ false
  x-ne-null = let h = not-has-right null ys (x ∷ zs) l.non_null in ground arith

  rest-Distinct : Distinct (ys ++ zs)
  rest-Distinct =
      Distinct-append ys zs (Distinct-left ys (x ∷ zs) l.distinct)
        (Distinct-right ys (x ∷ zs) l.distinct).1 λ a h. ground (arith, apart a)

  rest-non_null : has null (ys ++ zs) ≡ false
  rest-non_null =
      let right = not-has-right null ys (x ∷ zs) l.non_null in
      not-has-append null ys zs (not-has-left null ys (x ∷ zs) l.non_null) (ground arith)

  rest-linked : Seg (joined items (last_or null ys) (head_or zs null)) null (ys ++ zs) null
  rest-linked =
      joined-Seg items ys zs x x (Seg-left items null ys (x ∷ zs) null l.linked)
        (Seg-right items null ys (x ∷ zs) null l.linked).2 rest-non_null rest-Distinct

  rest-IsList :
      IsList
        (update
          (joined items (last_or null ys) (head_or zs null))
          x
          (record { prev = null; next = null }))
        (record {
          first = if x == head.first then head_or zs null else head.first;
          last = if x == head.last then last_or null ys else head.last;
          size = decr head.size;
        })
        (ys ++ zs)
  rest-IsList = record {
    first = rw l.first (first-detach x ys zs x-not-mem-ys);
    last =
        rw (l.last, last_or-append null ys (x ∷ zs), last_or-append null ys zs)
          (last-detach x ys zs x-not-mem-zs);
    size = rw l.size (ground (arith, length-append ys (x ∷ zs), length-append ys zs));
    linked =
        frame-update _ null (ys ++ zs) null x _ rest-linked
          (rw (has-append x ys zs, x-not-mem-ys) x-not-mem-zs);
    non_null = rest-non_null;
    distinct = rest-Distinct;
  }

  -- `List_detach` takes out the given member, clears its links and touches no other list.
  pub detach-Detached : Detached items x (ys ++ x ∷ zs) (ys ++ zs) (detach head items x)
  detach-Detached =
      let s = Seg-right items null ys (x ∷ zs) null l.linked in
      rw (detach_lem head items x _ _ x-ne-null s.0 s.1) (record {
        result = refl;
        list = rest-IsList;
        unlinked = ground arith;
        same = λ a out.
            ground (arith, has-append a ys (x ∷ zs), has-append a ys zs, joined-same items ys zs a);
      })

pop_some :
    (head : ListHead) (items : Items)
    → is_null head.first ≡ false
    → pop head items ≡ detach head items head.first
unfolding pop
pop_some head items h = rw h

module _ {items : Items} {head : ListHead} where
  -- On a well-formed list with a member, `List_pop` takes out the first one, clears its links and
  -- touches no other list.
  pub pop-Detached :
      (x : Ptr) (xs : List Ptr)
      → IsList items head (x ∷ xs)
      → Detached items x (x ∷ xs) xs (pop head items)
  pop-Detached x xs l =
      let h : is_null head.first ≡ false = ap is_null l.first ∙ x-ne-null [] xs x l in
      subst (Detached items x (x ∷ xs) xs)
        (sym (pop_some head items h ∙ ap (detach head items) l.first)) (detach-Detached [] xs x l)

  -- On an empty list `List_pop` returns null and changes nothing.
  pub pop-nil : IsList items head [] → pop head items ≡ (head, items, null)
  unfolding pop
  pop-nil l = let h : is_null head.first ≡ true = ap is_null l.first in rw h
