-- ===== src/Process/Exit/Orphans.antt =====
-- The loop of internal_exit over the children of a process other than init.
use Prim.Native.Nat.{bit_and, bit_or}
use mathlib.Core.Path.{subst}
use disastr_os_queues.Base.{
  ℕ, zero, suc, Bool, true, false, ◌≡◌, refl, List, [], ◌∷◌, ◌++◌, arith, has, ap, sym, ◌∙◌, ◌==◌,
  ==_iff, update_self, update_ne, if◌then◌else◌, Bool-cases, inl, inr, map, Distinct, count,
  count-append, count_of_has, not-has_of_count, one_self, length, ◌+◌, ◌≤◌, ◌<◌, ◌||◌, has-append,
}
use mathlib.Core.List.{append-nil, append_assoc}
use disastr_os_queues.LinkedList
use disastr_os_queues.LinkedList.{Ptr, null, is_null, ListHead}
use disastr_os_queues.LinkedList.Chain.{IsList, IsList-frame, last_or}
use disastr_os_queues.LinkedList.Insert.{Inserted}
use disastr_os_queues.Process.Exit.{reparent_children}
use disastr_os_queues.Process.Exit.Round.{
  signalled, signalled-same, s1, s2, s3, detach_child, append_child, round_ok,
}
use disastr_os_queues.Process.Exit.Kept.{Kept, Kept-trans, Kept-update, signals_of, head-same}
use disastr_os_queues.Kernel.{System, Pcb, Ends, Ends-mono, sighup, get_head}

-- Of two rounds, one sends the signal.
one_signal :
    (c d : Pcb) (later : ℕ) (here behind : Bool)
    → d.signals ≡ (if here then (signalled sighup c).signals else c.signals)
    → d.signals_mask ≡ c.signals_mask
    → later ≡ (if behind then (signalled sighup d).signals else d.signals)
    → (here ≡ true → behind ≡ false)
    → later ≡ (if here || behind then (signalled sighup c).signals else c.signals)
one_signal c d later true true e m l once = let h = once refl in cc
one_signal c d later true false e m l once = l ∙ e
one_signal c d later false true e m l once = l ∙ rw (e, m) refl
one_signal c d later false false e m l once = l ∙ e

-- The children `kids` of the running process stand behind those of the init process, each with a
-- SIGHUP more, and nothing else of the system is changed.
pub record Reparented (s : System) (kids inits : List Ptr) (t : System) : Type 0 where
  pub mine : IsList t.items (t.pcbs s.running).children []
  pub theirs : IsList t.items (t.pcbs s.init_pcb).children (inits ++ kids)
  pub same : (a : Ptr) → has a kids ≡ false → has a inits ≡ false → t.items a ≡ s.items a
  pub kept : Kept s.pcbs t.pcbs
  pub signals :
      (q : Ptr)
      → (t.pcbs q).signals ≡ (
          if has q (map s.pcb_ptrs kids)
          then (signalled sighup (s.pcbs q)).signals
          else (s.pcbs q).signals)
  pub frame : t ≡ record s { items = t.items; pcbs = t.pcbs }

module _ (s : System) (some : is_null s.running ≡ false) (init_some : is_null s.init_pcb ≡ false)
    (apart : (s.running == s.init_pcb) ≡ false) (x : Ptr) (xs inits : List Ptr)
    (mine : IsList s.items (s.pcbs s.running).children (x ∷ xs))
    (theirs : IsList s.items (s.pcbs s.init_pcb).children inits)
    (disjoint : (a : Ptr) → count a (x ∷ xs) + count a inits ≤ 1) where
  abbrev t1 : System
  t1 = s1 s some init_some x xs inits mine

  abbrev t2 : System
  t2 = s2 s some init_some x xs inits mine

  abbrev t3 : System
  t3 = s3 s some init_some x xs inits mine

  apart' : (s.init_pcb == s.running) ≡ false
  apart' = ground arith

  fresh : has x inits ≡ false
  fresh = not-has_of_count x inits (let a = disjoint x in let b = one_self x in omega arith)

  inits-mine : (a : Ptr) → has a inits ≡ true → has a (x ∷ xs) ≡ false
  inits-mine a h =
      let n = count_of_has a inits h in
      let o = disjoint a in not-has_of_count a (x ∷ xs) (omega arith)

  xs-theirs : (a : Ptr) → has a xs ≡ true → has a (x ∷ inits) ≡ false
  xs-theirs a h =
      let n = count_of_has a xs h in
      let o = disjoint a in not-has_of_count a (x ∷ inits) (omega arith)

  theirs1 : IsList t1.items (t1.pcbs s.init_pcb).children inits
  theirs1 =
      subst (λ c. IsList t1.items c.children inits)
        (sym (
          update_ne s.pcbs s.running
            (record (s.pcbs s.running) {
              children = (LinkedList.detach (s.pcbs s.running).children s.items x).0;
            })
            s.init_pcb apart))
        (IsList-frame theirs
          λ a h. (detach_child s some init_some x xs inits mine).1.same a (inits-mine a h))

  -- The two list heads and the process that gets the signal.
  abbrev mine_head : ListHead
  mine_head = (LinkedList.detach (s.pcbs s.running).children s.items x).0

  abbrev their_head : ListHead
  their_head = (LinkedList.insert (t1.pcbs s.init_pcb).children t1.items (last_or null inits) x).0

  appended :
      Inserted t1.items x inits
        (inits ++ x ∷ [])
        (LinkedList.insert (t1.pcbs s.init_pcb).children t1.items (last_or null inits) x)
  appended = (append_child s some init_some x xs inits mine theirs1 fresh).1

  running3 : (t3.pcbs s.running).children ≡ mine_head
  running3 =
      signalled-same (λ c. c.children) sighup t2.pcbs (s.pcb_ptrs x) s.running (λ c. refl)
      ∙ (ap (λ c. c.children)
            (update_ne t1.pcbs s.init_pcb (record (t1.pcbs s.init_pcb) { children = their_head })
              s.running apart')
          ∙ ap (λ c. c.children)
              (update_self s.pcbs s.running (record (s.pcbs s.running) { children = mine_head })))

  init3 : (t3.pcbs s.init_pcb).children ≡ their_head
  init3 =
      signalled-same (λ c. c.children) sighup t2.pcbs (s.pcb_ptrs x) s.init_pcb (λ c. refl)
      ∙ ap (λ c. c.children)
          (update_self t1.pcbs s.init_pcb (record (t1.pcbs s.init_pcb) { children = their_head }))

  mine3 : IsList t3.items (t3.pcbs s.running).children xs
  mine3 =
      subst (λ h. IsList t3.items h xs) (sym running3)
        (IsList-frame (detach_child s some init_some x xs inits mine).1.list
          λ a h. appended.same a (xs-theirs a h))

  theirs3 : IsList t3.items (t3.pcbs s.init_pcb).children (inits ++ x ∷ [])
  theirs3 = subst (λ h. IsList t3.items h (inits ++ x ∷ [])) (sym init3) appended.list

  same3 : (a : Ptr) → has a (x ∷ xs) ≡ false → has a inits ≡ false → t3.items a ≡ s.items a
  same3 a h k =
      let out : has a (x ∷ inits) ≡ false = ground arith in
      appended.same a out ∙ (detach_child s some init_some x xs inits mine).1.same a h

  kept3 : Kept s.pcbs t3.pcbs
  kept3 =
      let first : Kept s.pcbs t1.pcbs =
        Kept-update s.pcbs s.running (record (s.pcbs s.running) { children = mine_head }) refl in
      let second : Kept t1.pcbs t2.pcbs =
        Kept-update t1.pcbs s.init_pcb (record (t1.pcbs s.init_pcb) { children = their_head })
          refl in
      let third : Kept t2.pcbs t3.pcbs =
        Kept-update t2.pcbs (s.pcb_ptrs x) (signalled sighup (t2.pcbs (s.pcb_ptrs x))) refl in
      Kept-trans s.pcbs t1.pcbs t3.pcbs first (Kept-trans t1.pcbs t2.pcbs t3.pcbs second third)

  -- The heads are written, the signals are not.
  signals2 : (q : Ptr) → signals_of (t2.pcbs q) ≡ signals_of (s.pcbs q)
  signals2 q = head-same t1.pcbs s.init_pcb their_head q ∙ head-same s.pcbs s.running mine_head q

  signals3 :
      (q : Ptr)
      → (t3.pcbs q).signals
        ≡ (if s.pcb_ptrs x == q then (signalled sighup (s.pcbs q)).signals else (s.pcbs q).signals)
  signals3 q = elim (Bool-cases (s.pcb_ptrs x == q)) [
    | inl e ↦ rw e (
        ap (λ z. bit_or z.0 (bit_and sighup z.1))
          (ap (λ r. signals_of (t2.pcbs r)) ((==_iff (s.pcb_ptrs x) q).0 e) ∙ signals2 q))
    | inr ne ↦ rw ne (ap (λ z. z.0) (signals2 q))
  ]

  mask3 : (q : Ptr) → (t3.pcbs q).signals_mask ≡ (s.pcbs q).signals_mask
  mask3 q = ap (λ c. c.signals_mask) (kept3 q)

  -- The rounds that follow.
  join :
      (u : System)
      → Distinct (map s.pcb_ptrs (x ∷ xs))
      → Reparented t3 xs (inits ++ x ∷ []) u
      → Reparented s (x ∷ xs) inits u
  join u d r = record {
    mine = r.mine;
    theirs =
        subst (IsList u.items (u.pcbs s.init_pcb).children) (append_assoc inits (x ∷ []) xs)
          r.theirs;
    same = λ a h k.
        r.same a (ground arith) (ground (arith, has-append a inits (x ∷ []))) ∙ same3 a h k;
    kept = Kept-trans s.pcbs t3.pcbs u.pcbs kept3 r.kept;
    signals = λ q.
        one_signal (s.pcbs q) (t3.pcbs q) (u.pcbs q).signals (s.pcb_ptrs x == q)
          (has q (map s.pcb_ptrs xs)) (signals3 q) (mask3 q) (r.signals q)
          (λ e. subst (λ p. has p (map s.pcb_ptrs xs) ≡ false) ((==_iff (s.pcb_ptrs x) q).0 e) d.0);
    frame = r.frame;
  }

pub reparent_children-Reparented :
    (rounds : ℕ) (s : System) (kids inits : List Ptr)
    → is_null s.running ≡ false
    → is_null s.init_pcb ≡ false
    → (s.running == s.init_pcb) ≡ false
    → IsList s.items (s.pcbs s.running).children kids
    → IsList s.items (s.pcbs s.init_pcb).children inits
    → ((a : Ptr) → count a kids + count a inits ≤ 1)
    → has null (map s.pcb_ptrs kids) ≡ false
    → Distinct (map s.pcb_ptrs kids)
    → length kids < rounds
    → Ends (λ _ t. Reparented s kids inits t) (reparent_children rounds s)
unfolding reparent_children get_head
reparent_children-Reparented zero s kids inits some i_some ne mine theirs d h k fuel = elim fuel [ ]
reparent_children-Reparented (suc rounds) s [] inits some i_some ne mine theirs d h k fuel =
    rw (some, ap is_null mine.first)
      (record {
        mine = mine;
        theirs = rw append-nil theirs;
        same = λ a x y. refl;
        kept = λ q. refl;
        signals = λ q. refl;
        frame = refl;
      })
reparent_children-Reparented (suc rounds) s (x ∷ xs) inits some i_some ne mine theirs d h k fuel =
    let child_some : is_null (s.pcb_ptrs x) ≡ false = ground arith in
    let t = t3 s some i_some ne x xs inits mine theirs d in
    let rest =
      reparent_children-Reparented rounds t xs (inits ++ x ∷ []) some i_some ne
        (mine3 s some i_some ne x xs inits mine theirs d)
        (theirs3 s some i_some ne x xs inits mine theirs d)
        (λ a. let o = d a in omega (arith, count-append a inits (x ∷ []))) (ground arith) k.1
        (omega arith) in
    rw
      (round_ok s some i_some x xs inits mine rounds
        (theirs1 s some i_some ne x xs inits mine theirs d)
        (fresh s some i_some ne x xs inits mine theirs d) child_some)
      (Ends-mono (λ _ u. Reparented t xs (inits ++ x ∷ []) u) (λ _ u. Reparented s (x ∷ xs) inits u)
        (reparent_children rounds t) rest
        λ _ u r. join s some i_some ne x xs inits mine theirs d u k r)
