-- ===== src/Kernel/Lists.antt =====
-- The list commands on well-formed lists of the state.
use mathlib.Core.Path.{subst}
use disastr_os_queues.Base.{◌≡◌, false, List, [], ◌∷◌, ◌++◌, has, ap, ◌∙◌}
use mathlib.Core.List.{append-nil}
use disastr_os_queues.LinkedList
use disastr_os_queues.LinkedList.{Ptr, null, is_null, ListHead, Items}
use disastr_os_queues.LinkedList.Chain.{IsList, last_or}
use disastr_os_queues.LinkedList.Insert.{Inserted, insert-Inserted}
use disastr_os_queues.LinkedList.Detach.{Detached, detach-Detached, pop-Detached}
use disastr_os_queues.Kernel.State.{System, ListRef}
use disastr_os_queues.Kernel.Run.{ok}
use disastr_os_queues.Kernel.Access.{
  is_dangling, head_of, set_head, on_list, list_insert, list_append, list_detach, list_pop,
  get_head,
}

-- The state after an operation on the list `l` with the outcome `r`.
abbrev pub after : ListRef → ListHead × Items × Ptr → System → System
after l r s = set_head l r.0 (record s { items = r.1 })

on_list_ok :
    (l : ListRef) (f : ListHead → Items → ListHead × Items × Ptr) (s : System) (x : Ptr)
    → is_dangling l ≡ false
    → (f (head_of l s) s.items).2 ≡ x
    → is_null x ≡ false
    → on_list l f s ≡ ok x (after l (f (head_of l s) s.items) s)
on_list_ok l f s x d e h = rw (e, h, d)

module _ (l : ListRef) (s : System) (d : is_dangling l ≡ false) where
  -- Puts an unlinked object behind the members `ys`.
  pub list_insert_ok :
      (ys zs : List Ptr) (x : Ptr)
      → IsList s.items (head_of l s) (ys ++ zs)
      → is_null x ≡ false
      → (s.items x).next ≡ null
      → (s.items x).prev ≡ null
      → has x (ys ++ zs) ≡ false
      → let r = LinkedList.insert (head_of l s) s.items (last_or null ys) x in
        (list_insert l (last_or null ys) x s ≡ ok x (after l r s))
        × Inserted s.items x (ys ++ zs) (ys ++ x ∷ zs) r
  unfolding list_insert
  list_insert_ok ys zs x is some n p out =
      let i = insert-Inserted ys zs x is some n p out in
      (
        on_list_ok l (λ h items. LinkedList.insert h items (last_or null ys) x) s x d i.returned
            some,
        i,
      )

  -- Puts an unlinked object at the end.
  pub list_append_ok :
      (xs : List Ptr) (x : Ptr)
      → IsList s.items (head_of l s) xs
      → is_null x ≡ false
      → (s.items x).next ≡ null
      → (s.items x).prev ≡ null
      → has x xs ≡ false
      → let r = LinkedList.insert (head_of l s) s.items (last_or null xs) x in
        (list_append l x s ≡ ok x (after l r s)) × Inserted s.items x xs (xs ++ x ∷ []) r
  unfolding list_append get_head list_insert
  list_append_ok xs x is some n p out =
      let whole : IsList s.items (head_of l s) (xs ++ []) = rw append-nil is in
      let fresh : has x (xs ++ []) ≡ false = rw append-nil out in
      let i = insert-Inserted xs [] x whole some n p fresh in
      let at_end : Inserted s.items x xs (xs ++ x ∷ [])
          (LinkedList.insert (head_of l s) s.items (last_or null xs) x) =
        subst
          (λ ys.
            Inserted s.items x ys (xs ++ x ∷ [])
              (LinkedList.insert (head_of l s) s.items (last_or null xs) x))
          (append-nil xs) i in
      (
        rw d (
            ap (λ last. list_insert l last x s) is.last
            ∙ on_list_ok l (λ h items. LinkedList.insert h items (last_or null xs) x) s x d
                i.returned some),
        at_end,
      )

  pub list_detach_ok :
      (ys zs : List Ptr) (x : Ptr)
      → IsList s.items (head_of l s) (ys ++ x ∷ zs)
      → is_null x ≡ false
      → let r = LinkedList.detach (head_of l s) s.items x in
        (list_detach l x s ≡ ok x (after l r s)) × Detached s.items x (ys ++ x ∷ zs) (ys ++ zs) r
  unfolding list_detach
  list_detach_ok ys zs x is some =
      let r = detach-Detached ys zs x is in
      (on_list_ok l (λ h items. LinkedList.detach h items x) s x d r.result some, r)

  -- Takes out the first member.
  pub list_pop_ok :
      (x : Ptr) (xs : List Ptr)
      → IsList s.items (head_of l s) (x ∷ xs)
      → is_null x ≡ false
      → let r = LinkedList.pop (head_of l s) s.items in
        (list_pop l s ≡ ok x (after l r s)) × Detached s.items x (x ∷ xs) xs r
  unfolding list_pop
  list_pop_ok x xs is some = let r = pop-Detached x xs is in (rw (d, r.result, some), r)
