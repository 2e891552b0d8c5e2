-- ===== src/Printing/Joined.antt =====
-- The loops of the printing functions, and the lists of processes that disastrOS_printStatus shows.
use disastr_os_queues.Base.{
  ℕ, zero, suc, ◌<◌, ◌≡◌, refl, true, false, List, [], ◌∷◌, ◌++◌, arith, has, has_head, has_tail,
  length, ap, ◌∙◌,
}
use disastr_os_queues.LinkedList.{Ptr, null, is_null}
use disastr_os_queues.LinkedList.Chain.{IsList, Seg, head_or}
use disastr_os_queues.Printing.{
  Output, text, number, print_items, print_pid, pcb_ptr_list_print, pcb_print, pcb_list_print,
}
use disastr_os_queues.Kernel.{
  System, Cmd, ListRef, ok, children, is_dangling, head_of, get_head, pure, ◌>>=◌,
}

-- The elements of a list, each with `behind`, and `between` before every one but the first.
pub joined : (Ptr → Output) → (between behind : Output) → List Ptr → Output
joined show between behind [] = []
joined show between behind (x ∷ []) = show x ++ ([] ++ (behind ++ []))
joined show between behind (x ∷ y ∷ xs) =
    show x ++ (between ++ (behind ++ joined show between behind (y ∷ xs)))

module _ (s : System) (element : Ptr → Cmd Output) (show : Ptr → Output)
    (between behind : Output) where
  print_items-joined :
      (rounds : ℕ) (p : Ptr) (xs : List Ptr)
      → Seg s.items p xs null
      → has null xs ≡ false
      → length xs < rounds
      → ((a : Ptr) → has a xs ≡ true → element a s ≡ ok (show a) s)
      → print_items rounds element between behind (head_or xs null) s
        ≡ ok (joined show between behind xs) s
  unfolding print_items joined
  print_items-joined zero p xs g h fuel shows = elim fuel [ ]
  print_items-joined (suc rounds) p [] g h fuel shows = refl
  print_items-joined (suc rounds) p (x ∷ []) (a, b, g) h fuel shows =
      let x_some : is_null x ≡ false = ground arith in
      let rest = print_items-joined rounds x [] g refl (omega arith) (λ a k. cc) in
      rw (x_some, shows x (has_head x []), x_some, b, rest) refl
  print_items-joined (suc rounds) p (x ∷ y ∷ xs) (a, b, g) h fuel shows =
      let x_some : is_null x ≡ false = ground arith in
      let y_some : is_null y ≡ false = ground arith in
      let rest =
        print_items-joined rounds x (y ∷ xs) g (ground arith) (omega arith)
          (λ a k. shows a (has_tail a x (y ∷ xs) k)) in
      rw (x_some, shows x (has_head x (y ∷ xs)), x_some, b, rest, y_some) refl

-- A child by its number, and a process with its children.
pub show_child : System → Ptr → Output
show_child s c = number (s.pcbs (s.pcb_ptrs c)).pid ∷ []

pub show_pcb : System → (Ptr → List Ptr) → Ptr → Output
show_pcb s kids p =
    text "[pid: "
    ∷ number (s.pcbs p).pid
    ∷ text ", child: "
    ∷ ((text "(" ∷ (joined (show_child s) (text ", " ∷ []) [] (kids p) ++ text ")" ∷ []))
        ++ text "]" ∷ [])

-- A process whose children can be printed.
pub record IsShowable (s : System) (rounds : ℕ) (kids : Ptr → List Ptr) (p : Ptr) : Type 0 where
  pub some : is_null p ≡ false
  pub list : IsList s.items (s.pcbs p).children (kids p)
  pub fuel : length (kids p) < rounds
  pub there : (c : Ptr) → has c (kids p) ≡ true → is_null (s.pcb_ptrs c) ≡ false

module _ (s : System) (rounds : ℕ) (kids : Ptr → List Ptr) where
  children_shown :
      (p : Ptr)
      → IsShowable s rounds kids p
      → pcb_ptr_list_print rounds (children p) s
        ≡ ok (text "(" ∷ (joined (show_child s) (text ", " ∷ []) [] (kids p) ++ text ")" ∷ [])) s
  unfolding pcb_ptr_list_print print_pid get_head show_child
  children_shown p k =
      let items =
        print_items-joined s print_pid (show_child s) (text ", " ∷ []) [] rounds null (kids p)
          k.list.linked k.list.non_null k.fuel (λ c h. rw (k.there c h) refl) in
      rw k.some (
        ap
          (λ (a : Ptr).
            (do
              o ← print_items rounds print_pid (text ", " ∷ []) [] a
              pure (text "(" ∷ (o ++ text ")" ∷ [])))
              s)
          k.list.first
        ∙ rw items refl)

  pcb_shown :
      (p : Ptr) → IsShowable s rounds kids p → pcb_print rounds p s ≡ ok (show_pcb s kids p) s
  unfolding pcb_print show_pcb
  pcb_shown p k = rw (k.some, children_shown p k) refl

  -- `PCBList_print` changes nothing and writes, between braces, a line for each process of the list
  -- in its order, with the number of the process and those of its children in their order; the
  -- lists are well formed and the rounds more than their members.
  pub pcb_list_print-joined :
      (l : ListRef) (xs : List Ptr)
      → is_dangling l ≡ false
      → IsList s.items (head_of l s) xs
      → length xs < rounds
      → ((p : Ptr) → has p xs ≡ true → IsShowable s rounds kids p)
      → pcb_list_print rounds l s
        ≡ ok
            (text "{\n"
              ∷ (joined (λ p. text "\t" ∷ show_pcb s kids p) (text "," ∷ []) (text "\n" ∷ []) xs
                  ++ text "}\n" ∷ []))
            s
  unfolding pcb_list_print get_head
  pcb_list_print-joined l xs there is fuel shows =
      let element : Ptr → Cmd Output = λ p. (do o ← pcb_print rounds p; pure (text "\t" ∷ o)) in
      let items =
        print_items-joined s element (λ p. text "\t" ∷ show_pcb s kids p) (text "," ∷ [])
          (text "\n" ∷ []) rounds null xs is.linked is.non_null fuel
          (λ p h. rw (pcb_shown p (shows p h)) refl) in
      rw there (
        ap
          (λ (a : Ptr).
            (do
              o ← print_items rounds element (text "," ∷ []) (text "\n" ∷ []) a
              pure (text "{\n" ∷ (o ++ text "}\n" ∷ [])))
              s)
          is.first
        ∙ rw items refl)
