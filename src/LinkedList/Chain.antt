-- ===== src/LinkedList/Chain.antt =====
-- What the pointers of linked_list.c stand for: a chain of distinct addresses.
use disastr_os_queues.Base.{
  ◌≡◌, refl, true, false, List, [], ◌∷◌, ◌++◌, arith, pos, ◌==◌, update, has, has-append, Distinct,
  length,
}
use disastr_os_queues.LinkedList.{Ptr, null, is_null, ListItem, ListHead, Items, set_prev, set_next}

-- The first address of a chain, or what stands behind it; the last, or what stands before it.
abbrev pub head_or : List Ptr → Ptr → Ptr
head_or [] stop = stop
head_or (x ∷ xs) stop = x

abbrev pub last_or : Ptr → List Ptr → Ptr
last_or before [] = before
last_or before (x ∷ xs) = last_or x xs

-- The items of `xs` are linked both ways, between `before` and `stop`.
abbrev pub Seg : Items → Ptr → List Ptr → Ptr → Type 0
Seg items before [] stop = Unit {0}
Seg items before (x ∷ xs) stop =
    ((items x).prev ≡ before) × ((items x).next ≡ head_or xs stop) × Seg items x xs stop

-- A head whose pointers lead through the distinct, non-null addresses `xs`, and count them.
pub record IsList (items : Items) (head : ListHead) (xs : List Ptr) : Type 0 where
  pub first : head.first ≡ head_or xs null
  pub last : head.last ≡ last_or null xs
  pub size : head.size ≡ pos (length xs)
  pub linked : Seg items null xs null
  pub non_null : has null xs ≡ false
  pub distinct : Distinct xs

-- Two stores agree at every address outside `xs`.
abbrev pub SameOutside : List Ptr → Items → Items → Type 0
SameOutside xs f g = (a : Ptr) → has a xs ≡ false → g a ≡ f a

abbrev pub Disjoint : List Ptr → List Ptr → Type 0
Disjoint xs ys = (a : Ptr) → has a xs ≡ true → has a ys ≡ false

head_or-append : (xs ys : List Ptr) (n : Ptr) → head_or (xs ++ ys) n ≡ head_or xs (head_or ys n)
head_or-append [] ys n = refl
head_or-append (x ∷ xs) ys n = refl

-- A list with a member begins with an address that is not null.
pub head_or-some :
    (xs : List Ptr) (x : Ptr) (ys : List Ptr)
    → has null (xs ++ x ∷ ys) ≡ false
    → is_null (head_or (xs ++ x ∷ ys) null) ≡ false
head_or-some [] x ys h = ground arith
head_or-some (y ∷ xs) x ys h = ground arith

pub last_or-append : (p : Ptr) (xs ys : List Ptr) → last_or p (xs ++ ys) ≡ last_or (last_or p xs) ys
last_or-append p [] ys = refl
last_or-append p (x ∷ xs) ys = last_or-append x xs ys

-- The last address of a chain is one of its addresses.
pub has-last_or : (x : Ptr) (xs : List Ptr) → has (last_or x xs) (x ∷ xs) ≡ true
has-last_or x [] = ground arith
has-last_or x (y ∷ xs) = ground (arith, has-last_or y xs)

-- An address of a chain is none that stands outside it.
pub ne_of_has : (a b : Ptr) (xs : List Ptr) → has a xs ≡ true → has b xs ≡ false → (a == b) ≡ false
ne_of_has a b xs h k = ground arith

pub ne_of_not_has :
    (a b : Ptr) (xs : List Ptr) → has a xs ≡ false → has b xs ≡ true → (a == b) ≡ false
ne_of_not_has a b xs h k = ground arith

module _ (items : Items) where
  pub Seg-append :
      (p : Ptr) (xs ys : List Ptr) (n : Ptr)
      → Seg items p xs (head_or ys n)
      → Seg items (last_or p xs) ys n
      → Seg items p (xs ++ ys) n
  Seg-append p [] ys n s t = t
  Seg-append p (x ∷ xs) ys n (a, b, s) t = (a, rw head_or-append b, Seg-append x xs ys n s t)

  pub Seg-left :
      (p : Ptr) (xs ys : List Ptr) (n : Ptr)
      → Seg items p (xs ++ ys) n
      → Seg items p xs (head_or ys n)
  Seg-left p [] ys n s = tt
  Seg-left p (x ∷ xs) ys n (a, b, s) = (a, rw (← head_or-append xs ys n) b, Seg-left x xs ys n s)

  pub Seg-right :
      (p : Ptr) (xs ys : List Ptr) (n : Ptr)
      → Seg items p (xs ++ ys) n
      → Seg items (last_or p xs) ys n
  Seg-right p [] ys n s = s
  Seg-right p (x ∷ xs) ys n (a, b, s) = Seg-right x xs ys n s

  -- A chain survives any change that spares its own addresses.
  pub frame :
      {items' : Items} (p : Ptr) (xs : List Ptr) (n : Ptr)
      → Seg items p xs n
      → ((a : Ptr) → has a xs ≡ true → items' a ≡ items a)
      → Seg items' p xs n
  frame p [] n s same = tt
  frame p (x ∷ xs) n (a, b, s) same =
      (ground (arith, same x), ground (arith, same x), frame x xs n s λ y h. same y (ground arith))

  pub frame-update :
      (p : Ptr) (xs : List Ptr) (n a : Ptr) (v : ListItem)
      → Seg items p xs n
      → has a xs ≡ false
      → Seg (update items a v) p xs n
  frame-update p xs n a v s out = frame p xs n s λ y h. ground arith

  -- Writing the `next` of the last item moves the end of the chain.
  pub Seg-set_next :
      (p x : Ptr) (xs : List Ptr) (n m : Ptr)
      → Seg items p (x ∷ xs) n
      → Distinct (x ∷ xs)
      → Seg (set_next items (last_or x xs) m) p (x ∷ xs) m
  Seg-set_next p x [] n m (a, b, s) d = (ground arith, ground arith, tt)
  Seg-set_next p x (y ∷ xs) n m (a, b, s) (out, d) =
      let ne : (last_or y xs == x) ≡ false = ne_of_has _ x (y ∷ xs) (has-last_or y xs) out in
      (rw ne a, rw ne b, Seg-set_next x y xs n m s d)

  -- Writing the `prev` of the first item moves its beginning.
  pub Seg-set_prev :
      (p q x : Ptr) (xs : List Ptr) (n : Ptr)
      → Seg items p (x ∷ xs) n
      → has x xs ≡ false
      → Seg (set_prev items x q) q (x ∷ xs) n
  Seg-set_prev p q x xs n (a, b, s) out =
      (ground arith, ground arith, frame-update x xs n x _ s out)

pub IsList-frame :
    {items items' : Items} {head : ListHead} {xs : List Ptr}
    → IsList items head xs
    → ((a : Ptr) → has a xs ≡ true → items' a ≡ items a)
    → IsList items' head xs
IsList-frame {items} {xs} l same = record {
  first = l.first;
  last = l.last;
  size = l.size;
  linked = frame items null xs null l.linked same;
  non_null = l.non_null;
  distinct = l.distinct;
}

pub Distinct-left : (xs ys : List Ptr) → Distinct (xs ++ ys) → Distinct xs
Distinct-left [] ys d = tt
Distinct-left (x ∷ xs) ys (out, d) = (ground (arith, has-append x xs ys), Distinct-left xs ys d)

pub Distinct-right : (xs ys : List Ptr) → Distinct (xs ++ ys) → Distinct ys
Distinct-right [] ys d = d
Distinct-right (x ∷ xs) ys (out, d) = Distinct-right xs ys d

pub Distinct-apart : (xs ys : List Ptr) → Distinct (xs ++ ys) → Disjoint xs ys
Distinct-apart [] ys d a h = ground arith
Distinct-apart (x ∷ xs) ys (out, d) a h =
    ground (arith, has-append x xs ys, Distinct-apart xs ys d a)

pub Distinct-append :
    (xs ys : List Ptr) → Distinct xs → Distinct ys → Disjoint xs ys → Distinct (xs ++ ys)
Distinct-append [] ys d e apart = e
Distinct-append (x ∷ xs) ys (out, d) e apart = (
  rw has-append (ground (arith, apart x)),
  Distinct-append xs ys d e λ a h. apart a (ground arith),
)

pub Disjoint-head :
    (xs : List Ptr) (y : Ptr) (ys : List Ptr) → Disjoint xs (y ∷ ys) → has y xs ≡ false
Disjoint-head xs y ys apart = ground (arith, apart y)
