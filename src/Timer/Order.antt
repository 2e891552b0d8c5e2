-- ===== src/Timer/Order.antt =====
-- The order of the timers: TimerList_add and TimerList_current of disastrOS_timer.c.
use mathlib.Core.Path.{subst, subst₂}
use disastr_os_queues.Base.{
  ℕ, zero, suc, ◌<◌, ◌≡◌, refl, true, false, List, [], ◌∷◌, ◌++◌, arith, ℤ, ltb_ℤ, some, has,
  length, ap, sym, ◌∙◌, ◌==◌, update, if◌then◌else◌, Bool-cases, inl, inr, if_false, not,
}
use disastr_os_queues.LinkedList.{Ptr, null, is_null, Items}
use disastr_os_queues.LinkedList.Chain.{
  head_or, last_or, Seg, IsList, IsList-frame, SameOutside, ne_of_not_has,
}
use disastr_os_queues.PoolAllocator.Free.{IsPool, IsPlaced, block, handed}
use disastr_os_queues.Timer.{previous_item, timer_list_add, timer_list_current}
use disastr_os_queues.Kernel.{System, TimerItem, timer_list, timer_item_pool, Ends, ok, get_head}
use disastr_os_queues.Kernel.Lists.{list_insert_ok}
use disastr_os_queues.Kernel.Blocks.{get_block_ok}

abbrev pub Timers : Type 0
Timers = Ptr → TimerItem

-- The first of the timers is due no earlier than `t`.
abbrev pub FirstLater : Timers → ℤ → List Ptr → Type 0
FirstLater timers t [] = Unit {0}
FirstLater timers t (x ∷ xs) = ltb_ℤ (timers x).awakening_time t ≡ false

abbrev pub IsSorted : Timers → List Ptr → Type 0
IsSorted timers [] = Unit {0}
IsSorted timers (x ∷ xs) = FirstLater timers (timers x).awakening_time xs × IsSorted timers xs

-- The timers that are due no later than `t`, and those behind them.
unfoldable pub due : Timers → ℤ → List Ptr → List Ptr
due timers t [] = []
due timers t (x ∷ xs) = if ltb_ℤ t (timers x).awakening_time then [] else x ∷ due timers t xs

unfoldable pub rest : Timers → ℤ → List Ptr → List Ptr
rest timers t [] = []
rest timers t (x ∷ xs) = if ltb_ℤ t (timers x).awakening_time then x ∷ xs else rest timers t xs

due-append-rest :
    (timers : Timers) (t : ℤ) (xs : List Ptr) → due timers t xs ++ rest timers t xs ≡ xs
unfolding due rest
due-append-rest timers t [] = refl
due-append-rest timers t (x ∷ xs) = ground (arith, due-append-rest timers t xs)

previous_item-due :
    (rounds : ℕ) (timers : Timers) (items : Items) (t : ℤ) (p previous : Ptr) (xs : List Ptr)
    → Seg items p xs null
    → has null xs ≡ false
    → length xs < rounds
    → previous_item rounds timers items t (head_or xs null) previous
      ≡ some (last_or previous (due timers t xs))
unfolding previous_item due
previous_item-due zero timers items t p previous xs s h fuel = elim fuel [ ]
previous_item-due (suc rounds) timers items t p previous [] s h fuel = refl
previous_item-due (suc rounds) timers items t p previous (x ∷ xs) (a, b, s) h fuel =
    let x_some : is_null x ≡ false = ground arith in
    let next = previous_item-due rounds timers items t x x xs s (ground arith) (omega arith) in
    sym (if_false (some previous) _ x_some)
    ∙ rw (b, next)
        (elim (Bool-cases (ltb_ℤ t (timers x).awakening_time)) [ inl e ↦ rw e | inr e ↦ rw e ])

ltb_ℤ-asymm : (a b : ℤ) → ltb_ℤ a b ≡ true → ltb_ℤ b a ≡ false
ltb_ℤ-asymm a b h = ground arith

FirstLater-insert :
    (timers : Timers) (t v : ℤ) (new : Ptr) (xs : List Ptr)
    → ltb_ℤ (timers new).awakening_time v ≡ false
    → FirstLater timers v xs
    → FirstLater timers v (due timers t xs ++ new ∷ rest timers t xs)
unfolding due rest
FirstLater-insert timers t v new [] h f = h
FirstLater-insert timers t v new (y ∷ ys) h f =
    elim (Bool-cases (ltb_ℤ t (timers y).awakening_time)) [ inl e ↦ rw e h | inr e ↦ rw e f ]

-- A timer that is due at `t` goes between the two parts.
IsSorted-insert :
    (timers : Timers) (t : ℤ) (new : Ptr) (xs : List Ptr)
    → (timers new).awakening_time ≡ t
    → IsSorted timers xs
    → IsSorted timers (due timers t xs ++ new ∷ rest timers t xs)
unfolding due rest
IsSorted-insert timers t new [] e s = (tt, tt)
IsSorted-insert timers t new (x ∷ xs) e (f, s) =
    elim (Bool-cases (ltb_ℤ t (timers x).awakening_time)) [
      | inl h ↦ rw h (rw e (ltb_ℤ-asymm t (timers x).awakening_time h), (f, s))
      | inr h ↦ rw h (
        FirstLater-insert timers t (timers x).awakening_time new xs (rw e h) f,
        IsSorted-insert timers t new xs e s,
      )
    ]

IsSorted-frame :
    (timers timers' : Timers) (xs : List Ptr)
    → ((a : Ptr) → has a xs ≡ true → timers' a ≡ timers a)
    → IsSorted timers xs
    → IsSorted timers' xs
IsSorted-frame timers timers' [] same s = tt
IsSorted-frame timers timers' (x ∷ []) same s = (tt, tt)
IsSorted-frame timers timers' (x ∷ y ∷ xs) same (f, s) = (
  rw (same x (ground arith), same y (ground arith)) f,
  IsSorted-frame timers timers' (y ∷ xs) (λ a h. same a (ground arith)) s,
)

due-frame :
    (timers timers' : Timers) (t : ℤ) (xs : List Ptr)
    → ((a : Ptr) → has a xs ≡ true → timers' a ≡ timers a)
    → (due timers' t xs ≡ due timers t xs) × (rest timers' t xs ≡ rest timers t xs)
unfolding due rest
due-frame timers timers' t [] same = (refl, refl)
due-frame timers timers' t (x ∷ xs) same =
    let (d, r) = due-frame timers timers' t xs (λ a h. same a (ground arith)) in
    let e = same x (ground arith) in (rw (e, d), rw (e, r))

-- The outcome of adding a timer for `pcb` at `t` to the timers `xs`, in the block number `i`.
pub record Added (s : System) (t : ℤ) (pcb : Ptr) (i : ℕ) (xs : List Ptr) (s' : System)
    : Type 0 where
  pub list :
      IsList s'.items s'.timer_list
        (due s.timers t xs ++ block s.pools.timer_item i ∷ rest s.timers t xs)
  pub whole : due s.timers t xs ++ rest s.timers t xs ≡ xs
  pub sorted :
      IsSorted s'.timers (due s.timers t xs ++ block s.pools.timer_item i ∷ rest s.timers t xs)
  pub item : s'.timers (block s.pools.timer_item i) ≡ record { awakening_time = t; pcb = pcb }
  pub others : (a : Ptr) → has a xs ≡ true → s'.timers a ≡ s.timers a
  pub pool : s'.pools ≡ record s.pools { timer_item = handed s.pools.timer_item i }
  pub same : SameOutside (block s.pools.timer_item i ∷ xs) s.items s'.items
  pub pcbs : s'.pcbs ≡ s.pcbs
  pub running : s'.running ≡ s.running
  pub ready : s'.ready_list ≡ s.ready_list
  pub waiting : s'.waiting_list ≡ s.waiting_list
  pub time : s'.time ≡ s.time

module _ (s : System) (rounds : ℕ) (t : ℤ) (pcb : Ptr) (xs : List Ptr) (i : ℕ) (free : List ℕ)
    (l : IsList s.items s.timer_list xs) (sorted : IsSorted s.timers xs) (fuel : length xs < rounds)
    (pool : IsPool s.pools.timer_item (i ∷ free)) (placed : IsPlaced s.pools.timer_item)
    (fresh : has (block s.pools.timer_item i) xs ≡ false) where
  abbrev new : Ptr
  new = block s.pools.timer_item i

  new_some : is_null new ≡ false
  new_some = let h = placed.buffer_pos in ground arith

  new_ne : (a : Ptr) → has a xs ≡ true → (new == a) ≡ false
  new_ne a h = ne_of_not_has new a xs fresh h

  search_previous :
      previous_item rounds s.timers s.items t s.timer_list.first null
      ≡ some (last_or null (due s.timers t xs))
  search_previous =
      ap (λ a. previous_item rounds s.timers s.items t a null) l.first
      ∙ previous_item-due rounds s.timers s.items t null null xs l.linked l.non_null fuel

  -- `TimerList_add` puts the new timer behind those that are due no later, and the list stays
  -- sorted.
  pub timer_list_add-Added :
      Ends (λ r s'. (r ≡ new) × Added s t pcb i xs s') (timer_list_add rounds timer_list t pcb s)
  unfolding timer_list_add get_head
  timer_list_add-Added =
      let s' : System = record s {
        items = update s.items new (record { prev = null; next = null });
        timers = update s.timers new (record { awakening_time = t; pcb = pcb });
        pools = record s.pools { timer_item = handed s.pools.timer_item i };
      } in
      let timers' = update s.timers new (record { awakening_time = t; pcb = pcb }) in
      let same : (a : Ptr) → has a xs ≡ true → timers' a ≡ s.timers a =
        λ a h. ground (arith, new_ne a h) in
      let whole = due-append-rest s.timers t xs in
      let here : IsList s'.items s.timer_list (due s.timers t xs ++ rest s.timers t xs) =
        rw whole (IsList-frame l λ a h. ground (arith, new_ne a h)) in
      let out : has new (due s.timers t xs ++ rest s.timers t xs) ≡ false = rw whole fresh in
      let (e, r) =
        list_insert_ok timer_list s' refl (due s.timers t xs) (rest s.timers t xs) new here new_some
          (ground arith) (ground arith) out in
      let (d, k) = due-frame s.timers timers' t xs same in
      rw (search_previous, get_block_ok timer_item_pool s i pool.chain.0 pool.chain.1, new_some)
        (rw (new_some, e)
          (
            refl,
            record {
              list = r.list;
              whole = whole;
              sorted =
                  subst₂ (λ a b. IsSorted timers' (a ++ new ∷ b)) d k
                    (IsSorted-insert timers' t new xs (ground arith)
                      (IsSorted-frame s.timers timers' xs same sorted));
              item = ground arith;
              others = same;
              pool = refl;
              same = λ a h.
                  r.same a (subst (λ l. has a (new ∷ l) ≡ false) (sym whole) h) ∙ ground arith;
              pcbs = refl;
              running = refl;
              ready = refl;
              waiting = refl;
              time = refl;
            },
          ))

current-due :
    (timers : Timers) (t : ℤ) (xs : List Ptr)
    → has null xs ≡ false
    → (if is_null (head_or xs null)
        then null
        else if not (ltb_ℤ t (timers (head_or xs null)).awakening_time)
        then head_or xs null
        else null)
      ≡ head_or (due timers t xs) null
unfolding due
current-due timers t [] h = refl
current-due timers t (x ∷ xs) h =
    let x_some : is_null x ≡ false = ground arith in
    sym (if_false null _ x_some)
    ∙ elim (Bool-cases (ltb_ℤ t (timers x).awakening_time)) [ inl e ↦ rw e | inr e ↦ rw e ]

-- `TimerList_current` returns the first of the timers that are due, and null if the first timer is
-- not due.
pub timer_list_current-due :
    (s : System) (t : ℤ) (xs : List Ptr)
    → IsList s.items s.timer_list xs
    → timer_list_current timer_list t s ≡ ok (head_or (due s.timers t xs) null) s
unfolding timer_list_current get_head
timer_list_current-due s t xs l =
    ap
      (λ (a : Ptr).
        ok
          (if is_null a
            then null
            else if not (ltb_ℤ t (s.timers a).awakening_time)
            then a
            else null)
          s)
      l.first
    ∙ ap (λ a. ok a s) (current-due s.timers t xs l.non_null)
