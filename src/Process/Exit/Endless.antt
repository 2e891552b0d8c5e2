-- ===== src/Process/Exit/Endless.antt =====
-- internal_exit, called by the init process.
use mathlib.Core.Path.{subst}
use disastr_os_queues.Base.{
  ℕ, zero, suc, ℤ, false, true, ◌≡◌, refl, List, [], ◌∷◌, ◌++◌, arith, has, ap, sym, ◌∙◌, update,
  update_self, has-append,
}
use disastr_os_queues.LinkedList
use disastr_os_queues.LinkedList.{Ptr, null, is_null}
use disastr_os_queues.LinkedList.Chain.{IsList, last_or}
use disastr_os_queues.Process.Exit.{reparent_children, internal_exit}
use disastr_os_queues.Process.Exit.Round.{
  signalled-same, s1, s2, s3, detach_child, append_child, round_ok,
}
use disastr_os_queues.Kernel.{System, out_of_fuel, int, sighup}

module _ (s : System) (some : is_null s.running ≡ false) (is_init : s.init_pcb ≡ s.running)
    (x : Ptr) (xs : List Ptr) (mine : IsList s.items (s.pcbs s.running).children (x ∷ xs)) where
  init_some : is_null s.init_pcb ≡ false
  init_some = ap is_null is_init ∙ some

  theirs :
      let t = s1 s some init_some x xs xs mine in IsList t.items (t.pcbs s.init_pcb).children xs
  theirs =
      let t = s1 s some init_some x xs xs mine in
      let head = (LinkedList.detach (s.pcbs s.running).children s.items x).0 in
      let own =
        ap (λ p. (t.pcbs p).children) is_init
        ∙ ap (λ c. c.children)
            (update_self s.pcbs s.running (record (s.pcbs s.running) { children = head })) in
      subst (λ h. IsList t.items h xs) (sym own) (detach_child s some init_some x xs xs mine).1.list

  fresh : has x xs ≡ false
  fresh = let d = mine.distinct in d.0

  rotated :
      let t = s3 s some init_some x xs xs mine in
      IsList t.items (t.pcbs s.running).children (xs ++ x ∷ [])
  rotated =
      let t = s1 s some init_some x xs xs mine in
      let u = s2 s some init_some x xs xs mine in
      let r = LinkedList.insert (t.pcbs s.init_pcb).children t.items (last_or null xs) x in
      let own =
        signalled-same (λ c. c.children) sighup u.pcbs (s.pcb_ptrs x) s.running (λ c. refl)
        ∙ (ap (λ p. (u.pcbs p).children) (sym is_init)
            ∙ ap (λ c. c.children)
                (update_self t.pcbs s.init_pcb (record (t.pcbs s.init_pcb) { children = r.0 }))) in
      subst (λ h. IsList u.items h (xs ++ x ∷ [])) (sym own)
        ((append_child s some init_some x xs xs mine theirs fresh).1.list)

has-rotated : (a x : Ptr) (ys : List Ptr) → has a (ys ++ x ∷ []) ≡ true → has a (x ∷ ys) ≡ true
has-rotated a x ys h = ground (arith, has-append a ys (x ∷ []))

reparent_children-endless :
    (rounds : ℕ) (s : System) (x : Ptr) (xs : List Ptr)
    → is_null s.running ≡ false
    → s.init_pcb ≡ s.running
    → IsList s.items (s.pcbs s.running).children (x ∷ xs)
    → ((a : Ptr) → has a (x ∷ xs) ≡ true → is_null (s.pcb_ptrs a) ≡ false)
    → reparent_children rounds s ≡ out_of_fuel
unfolding reparent_children
reparent_children-endless zero s x xs some is_init mine child = refl
reparent_children-endless (suc rounds) s x [] some is_init mine child =
    round_ok s some (init_some s some is_init x [] mine) x [] [] mine rounds
      (theirs s some is_init x [] mine) refl (child x (ground arith))
    ∙ reparent_children-endless rounds (s3 s some (init_some s some is_init x [] mine) x [] [] mine)
        x [] some is_init (rotated s some is_init x [] mine) child
reparent_children-endless (suc rounds) s x (y ∷ ys) some is_init mine child =
    round_ok s some (init_some s some is_init x (y ∷ ys) mine) x (y ∷ ys) (y ∷ ys) mine rounds
      (theirs s some is_init x (y ∷ ys) mine) (fresh s some is_init x (y ∷ ys) mine)
      (child x (ground arith))
    ∙ reparent_children-endless rounds
        (s3 s some (init_some s some is_init x (y ∷ ys) mine) x (y ∷ ys) (y ∷ ys) mine) y
        (ys ++ x ∷ []) some is_init (rotated s some is_init x (y ∷ ys) mine)
        (λ a h. child a (has-rotated a x (y ∷ ys) h))

-- If the init process has a child, its `internal_exit` never ends: the loop moves the children from
-- its list to the end of the same list, for whatever number of rounds.
pub internal_exit-endless :
    (s : System) (rounds : ℕ) (exitval : ℤ) (x : Ptr) (xs : List Ptr)
    → is_null s.running ≡ false
    → s.init_pcb ≡ s.running
    → (s.pcbs s.running).syscall_args 0 ≡ int exitval
    → IsList s.items (s.pcbs s.running).children (x ∷ xs)
    → ((a : Ptr) → has a (x ∷ xs) ≡ true → is_null (s.pcb_ptrs a) ≡ false)
    → internal_exit rounds s ≡ out_of_fuel
unfolding internal_exit
internal_exit-endless s rounds exitval x xs some is_init a0 mine child =
    let me = record (s.pcbs s.running) { return_value = exitval } in
    let t : System = record s { pcbs = update s.pcbs s.running me } in
    let mine_now : IsList t.items (t.pcbs s.running).children (x ∷ xs) =
      subst (λ h. IsList s.items h (x ∷ xs))
        (sym (ap (λ c. c.children) (update_self s.pcbs s.running me))) mine in
    let loops = reparent_children-endless rounds t x xs some is_init mine_now child in
    let init_some : is_null s.init_pcb ≡ false = ap is_null is_init ∙ some in
    rw (some, a0, some, init_some, loops)
