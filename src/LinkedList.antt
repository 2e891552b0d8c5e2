-- ===== src/LinkedList.antt =====
-- linked_list.h and linked_list.c: intrusive doubly linked lists.
-- Every object that can stand in a list begins with its `ListItem`, so an object and its item
-- have one address, and `Items` holds the two pointers of each address. A `ListHead` is a member
-- of another object or a global, so an operation that updates one returns the new value.
pub mod Chain
pub mod Detach
pub mod Insert
pub mod Walk
mod Tests
use disastr_os_queues.Base.{
  ℕ, zero, suc, ℤ, pos, negsuc, incr, decr, Bool, not, ◌||◌, Option, none, some, ◌==◌,
  if◌then◌else◌, update,
}

-- An address; 0 is the null pointer.
abbrev pub Ptr : Type 0
Ptr = ℕ

abbrev pub null : Ptr
null = 0

abbrev pub is_null : Ptr → Bool
is_null p = p == 0

pub record ListItem : Type 0 where
  pub prev : Ptr
  pub next : Ptr

pub record ListHead : Type 0 where
  pub first : Ptr
  pub last : Ptr
  pub size : ℤ

abbrev pub Items : Type 0
Items = Ptr → ListItem

-- `item->prev = p` and `item->next = n`
abbrev pub set_prev : Items → Ptr → Ptr → Items
set_prev items item p = update items item (record { prev = p; next = (items item).next })

abbrev pub set_next : Items → Ptr → Ptr → Items
set_next items item n = update items item (record { prev = (items item).prev; next = n })

abbrev pub init : ListHead
init = record { first = null; last = null; size = pos 0 }

-- `while (aux) { if (test(aux)) return aux; aux = aux->next; } return 0;`
-- The argument bounds the rounds, and `none` says that they ran out.
unfoldable pub first_where : ℕ → (Ptr → Bool) → Items → Ptr → Option Ptr
first_where zero test items aux = none
first_where (suc rounds) test items aux =
    let rest = first_where rounds test items (items aux).next in
    if is_null aux then some null else if test aux then some aux else rest

unfoldable pub find : ℕ → ListHead → Items → Ptr → Option Ptr
unfolding first_where
find rounds head items item = first_where rounds (λ aux. aux == item) items head.first

index_loop : ℕ → Items → Ptr → Ptr
index_loop zero items aux = aux
index_loop (suc i) items aux = if is_null aux then null else index_loop i items (items aux).next

-- A negative index makes no round.
unfoldable pub index : ListHead → Items → ℤ → Ptr
unfolding index_loop
index head items (pos i) = index_loop i items head.first
index head items (negsuc i) = head.first

unfoldable pub insert : ListHead → Items → Ptr → Ptr → ListHead × Items × Ptr
insert head items prev item =
    if is_null item
    then (head, items, null)
    else if not (is_null (items item).next) || not (is_null (items item).prev)
    then (head, items, null)
    else let next = if is_null prev then head.first else (items prev).next in
      let items' = if is_null prev then items else set_next (set_prev items item prev) prev item in
      let items'' =
        if is_null next then items' else set_prev (set_next items' item next) next item in
      (
        record {
          first = if is_null prev then item else head.first;
          last = if is_null next then item else head.last;
          size = incr head.size;
        },
        items'',
        item,
      )

unfoldable pub detach : ListHead → Items → Ptr → ListHead × Items × Ptr
detach head items item =
    if is_null item
    then (head, items, null)
    else let prev = (items item).prev in
      let next = (items item).next in
      let items' = if is_null prev then items else set_next items prev next in
      let items'' = if is_null next then items' else set_prev items' next prev in
      (
        record {
          first = if item == head.first then next else head.first;
          last = if item == head.last then prev else head.last;
          size = decr head.size;
        },
        update items'' item (record { prev = null; next = null }),
        item,
      )

unfoldable pub pop : ListHead → Items → ListHead × Items × Ptr
unfolding detach
pop head items = if is_null head.first then (head, items, null) else detach head items head.first
