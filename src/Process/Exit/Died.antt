-- ===== src/Process/Exit/Died.antt =====
-- internal_exit of a process that its parent does not wait for.
pub mod Steps
use Prim.Native.Nat.{bit_and, bit_or}
use mathlib.Core.Path.{subst}
use disastr_os_queues.Base.{
  ℕ, ℤ, pos, eq_ℤ, Bool, true, false, not, ◌&&◌, ◌||◌, ◌≡◌, refl, List, [], ◌∷◌, ◌++◌, arith, has,
  ap, sym, ◌∙◌, ◌==◌, ==_iff, update, update_self, update_ne, if◌then◌else◌, map, count,
  count-append, count_of_has, not-has_of_count, one_self, one_ne, length, ◌<◌, ◌+◌,
}
use disastr_os_queues.LinkedList.{Ptr, null, is_null, Items, ListHead}
use disastr_os_queues.LinkedList.Chain.{IsList, IsList-frame, ne_of_not_has}
use disastr_os_queues.Process.Exit.{
  internal_exit, reparent_children, settle, parent_awaits, run_next_ready, send_signal,
}
use disastr_os_queues.Process.Exit.Round.{signalled, signalled-same}
use disastr_os_queues.Process.Exit.Kept.{field-same, signals_of}
use disastr_os_queues.Process.Exit.Orphans.{Reparented, reparent_children-Reparented}
use disastr_os_queues.Process.Exit.Died.Steps
use disastr_os_queues.Process.Exit.Died.Steps.{Exiting, NotAwaiting, parent_awaits-false}
use disastr_os_queues.Kernel.{
  System, Pcb, ProcessStatus, Ends, Ends-and_then, ok, int, get_head, sighup, sigchld, ready_list,
  list_detach,
}

-- The process is the last zombie and keeps what it holds; its children belong to the init process
-- and have a SIGHUP more, its parent has a SIGCHLD more, and the first ready process runs.
pub record Died (s : System) (k : Exiting s) (exitval : ℤ) (t : System) : Type 0 where
  pub theirs : IsList t.items (t.pcbs s.init_pcb).children (k.inits ++ k.kids)
  pub mine : IsList t.items (t.pcbs s.running).children []
  pub zombies : IsList t.items t.zombie_list (k.zombies ++ s.running ∷ [])
  pub ready : IsList t.items t.ready_list k.ready
  pub running : t.running ≡ k.next
  pub runs : (t.pcbs k.next).status ≡ ProcessStatus.running
  pub me : t.pcbs s.running ≡ record (s.pcbs s.running) {
    return_value = exitval;
    status = ProcessStatus.zombie;
    children = (t.pcbs s.running).children;
    signals = (t.pcbs s.running).signals;
  }
  pub hup :
      (q : Ptr)
      → has q (map s.pcb_ptrs k.kids) ≡ true
      → (t.pcbs q).signals ≡ (signalled sighup (s.pcbs q)).signals
  pub chld :
      (t.pcbs (s.pcbs s.running).parent).signals
      ≡ (signalled sigchld (s.pcbs (s.pcbs s.running).parent)).signals
  pub held : (t.timer_list ≡ s.timer_list) × (t.resources ≡ s.resources) × (t.pools ≡ s.pools)

module _ (s : System) (k : Exiting s) (exitval : ℤ) where
  module _ (items : Items) (pcbs : Ptr → Pcb)
      (r : Reparented
        (Steps.s0 s k exitval)
        k.kids
        k.inits
        (record (Steps.s0 s k exitval) { items = items; pcbs = pcbs })) where
    abbrev u : System
    u = Steps.u5 s k exitval items pcbs r

    next_ne_running : (k.next == s.running) ≡ false
    next_ne_running =
        one_ne k.next s.running
          (let o = k.apart s.running in let b = one_self s.running in omega arith)

    parent_ne_running : ((s.pcbs s.running).parent == s.running) ≡ false
    parent_ne_running = let h = k.not_parent in ground arith

    abbrev v : System
    v = Steps.u3 s k exitval items pcbs r

    abbrev w : System
    w = Steps.u1 s k exitval items pcbs r

    abbrev parent : Ptr
    parent = (s.pcbs s.running).parent

    -- The three writes, to the process, to its parent and to the next one.
    bury_same {ℓ} :
        {A : Type ℓ} (field : Pcb → A) (q : Ptr)
        → ((c : Pcb) → field (record c { status = ProcessStatus.zombie }) ≡ field c)
        → field (w.pcbs q) ≡ field (pcbs q)
    bury_same field q same =
        field-same field pcbs s.running (record (pcbs s.running) { status = ProcessStatus.zombie })
          q (same (pcbs s.running))

    next_same {ℓ} :
        {A : Type ℓ} (field : Pcb → A) (q : Ptr)
        → ((c : Pcb) → field (record c { status = ProcessStatus.running }) ≡ field c)
        → field (u.pcbs q) ≡ field (v.pcbs q)
    next_same field q same =
        field-same field v.pcbs k.next (record (v.pcbs k.next) { status = ProcessStatus.running }) q
          (same (v.pcbs k.next))

    children_kept : (q : Ptr) → (u.pcbs q).children ≡ (pcbs q).children
    children_kept q =
        next_same (λ c. c.children) q (λ c. refl)
        ∙ (signalled-same (λ c. c.children) sigchld w.pcbs parent q (λ c. refl)
            ∙ bury_same (λ c. c.children) q (λ c. refl))

    -- A process other than the parent gets no signal here.
    signals_kept : (q : Ptr) → (parent == q) ≡ false → (u.pcbs q).signals ≡ (pcbs q).signals
    signals_kept q ne =
        next_same (λ c. c.signals) q (λ c. refl)
        ∙ (ap (λ c. c.signals) (update_ne w.pcbs parent (signalled sigchld (w.pcbs parent)) q ne)
            ∙ bury_same (λ c. c.signals) q (λ c. refl))

    -- What the first write leaves of the signals and the mask.
    stored : (q : Ptr) → signals_of ((Steps.s0 s k exitval).pcbs q) ≡ signals_of (s.pcbs q)
    stored q =
        field-same signals_of s.pcbs s.running
          (record (s.pcbs s.running) { return_value = exitval }) q refl

    me_now : u.pcbs s.running ≡ record (s.pcbs s.running) {
      return_value = exitval;
      status = ProcessStatus.zombie;
      children = (pcbs s.running).children;
      signals = (pcbs s.running).signals;
    }
    me_now =
        update_ne v.pcbs k.next (record (v.pcbs k.next) { status = ProcessStatus.running })
          s.running next_ne_running
        ∙ (update_ne w.pcbs parent (signalled sigchld (w.pcbs parent)) s.running parent_ne_running
            ∙ Steps.running_is s k exitval items pcbs r)

    parent_signals : signals_of (pcbs parent) ≡ signals_of (s.pcbs parent)
    parent_signals =
        let few : (pcbs parent).signals ≡ ((Steps.s0 s k exitval).pcbs parent).signals =
          r.signals parent ∙ rw k.parent_no_kid refl in
        let mask = ap (λ c. c.signals_mask) (r.kept parent) in
        let both : signals_of (pcbs parent) ≡ signals_of ((Steps.s0 s k exitval).pcbs parent) =
          λ i. (few i, mask i) in
        both ∙ stored parent

    items_kept :
        (a : Ptr)
        → has a (s.running ∷ k.zombies) ≡ false
        → has a (k.next ∷ k.ready) ≡ false
        → u.items a ≡ items a
    items_kept a h j =
        (Steps.detach_next s k exitval items pcbs r).1.same a j
        ∙ (Steps.append_zombie s k exitval items pcbs r).1.same a h

    theirs-out : (a : Ptr) → has a (k.inits ++ k.kids) ≡ true → u.items a ≡ items a
    theirs-out a h =
        let n = count_of_has a (k.inits ++ k.kids) h in
        let m = count-append a k.inits k.kids in
        let o = k.apart a in
        items_kept a (not-has_of_count a (s.running ∷ k.zombies) (omega arith))
          (not-has_of_count a (k.next ∷ k.ready) (omega arith))

    zombies-out :
        (a : Ptr) → has a (k.zombies ++ s.running ∷ []) ≡ true → has a (k.next ∷ k.ready) ≡ false
    zombies-out a h =
        let n = count_of_has a (k.zombies ++ s.running ∷ []) h in
        let m = count-append a k.zombies (s.running ∷ []) in
        let o = k.apart a in not-has_of_count a (k.next ∷ k.ready) (omega arith)

    died : Died s k exitval u
    died = record {
      theirs =
          subst (λ h. IsList u.items h (k.inits ++ k.kids)) (sym (children_kept s.init_pcb))
            (IsList-frame r.theirs theirs-out);
      mine =
          subst (λ h. IsList u.items h []) (sym (children_kept s.running))
            (IsList-frame r.mine λ a h. let b : true ≡ false = sym h in cc);
      zombies =
          IsList-frame (Steps.append_zombie s k exitval items pcbs r).1.list
            λ a h. (Steps.detach_next s k exitval items pcbs r).1.same a (zombies-out a h);
      ready = (Steps.detach_next s k exitval items pcbs r).1.list;
      running = refl;
      runs =
          ap (λ c. c.status)
            (update_self v.pcbs k.next (record (v.pcbs k.next) { status = ProcessStatus.running }));
      me =
          me_now
          ∙ (let with : ListHead × ℕ → Pcb = λ z. record (s.pcbs s.running) {
            return_value = exitval;
            status = ProcessStatus.zombie;
            children = z.0;
            signals = z.1;
          } in
              ap (λ c. with (c.children, c.signals)) (sym me_now));
      hup = λ q h.
          signals_kept q (ne_of_not_has parent q (map s.pcb_ptrs k.kids) k.parent_no_kid h)
          ∙ (r.signals q ∙ rw h (ap (λ z. bit_or z.0 (bit_and sighup z.1)) (stored q)));
      chld =
          next_same (λ c. c.signals) parent (λ c. refl)
          ∙ (ap (λ c. c.signals) (Steps.parent_is s k exitval items pcbs r)
              ∙ ap (λ z. bit_or z.0 (bit_and sigchld z.1)) parent_signals);
      held = (refl, refl, refl);
    }

    not_awaited :
        (a : System)
        → NotAwaiting (s.pcbs parent) (s.pcbs s.running).pid
        → parent_awaits (v.pcbs parent) (s.pcbs s.running).pid a ≡ ok false a
    not_awaited a n = parent_awaits-false (v.pcbs parent) (s.pcbs s.running).pid a (
        subst (λ c. NotAwaiting c (s.pcbs s.running).pid)
          (sym (Steps.parent_is s k exitval items pcbs r)) n)

    next_runs : run_next_ready v ≡ ok tt u
    unfolding run_next_ready get_head
    next_runs =
        let detach_first : list_detach ready_list s.ready_list.first v
            ≡ ok k.next (Steps.u4 s k exitval items pcbs r) =
          ap (λ p. list_detach ready_list p v) k.others.first
          ∙ (Steps.detach_next s k exitval items pcbs r).0 in
        let some = Steps.next_some s k exitval items pcbs r in rw (detach_first, some, some)

    settled :
        (rounds : ℕ)
        → NotAwaiting (s.pcbs parent) (s.pcbs s.running).pid
        → settle rounds s.running (Steps.u0 s k exitval items pcbs r) ≡ ok tt u
    unfolding settle send_signal
    settled rounds n =
        let me_parent : (w.pcbs s.running).parent ≡ parent =
          ap (λ c. c.parent) (Steps.running_is s k exitval items pcbs r) in
        let me_pid : (w.pcbs s.running).pid ≡ (s.pcbs s.running).pid =
          ap (λ c. c.pid) (Steps.running_is s k exitval items pcbs r) in
        rw
          (
            k.some,
            (Steps.append_zombie s k exitval items pcbs r).0,
            k.some,
            me_parent,
            k.parent_some,
            k.parent_some,
            me_pid,
            not_awaited v n,
          )
          next_runs

  -- `internal_exit` of a process other than init, whose parent does not wait for it, with another
  -- process ready: it becomes the last zombie, with the exit value, and keeps its descriptors and
  -- timers; its children go to the end of those of the init process and get a SIGHUP, its parent
  -- gets a SIGCHLD, where the masks allow it, and the first ready process runs.
  pub internal_exit-Died :
      (rounds : ℕ)
      → (s.pcbs s.running).syscall_args 0 ≡ int exitval
      → NotAwaiting (s.pcbs (s.pcbs s.running).parent) (s.pcbs s.running).pid
      → length k.kids < rounds
      → Ends (λ _ t. Died s k exitval t) (internal_exit rounds s)
  unfolding internal_exit
  internal_exit-Died rounds a0 n fuel =
      let s0 = Steps.s0 s k exitval in
      let me = record (s.pcbs s.running) { return_value = exitval } in
      let mine : IsList s.items (s0.pcbs s.running).children k.kids =
        subst (λ h. IsList s.items h k.kids)
          (sym (ap (λ c. c.children) (update_self s.pcbs s.running me))) k.mine in
      let theirs : IsList s.items (s0.pcbs s.init_pcb).children k.inits =
        subst (λ c. IsList s.items c.children k.inits)
          (sym (update_ne s.pcbs s.running me s.init_pcb k.not_init)) k.theirs in
      let reparented =
        reparent_children-Reparented rounds s0 k.kids k.inits k.some k.init_some k.not_init mine
          theirs (λ a. let o = k.apart a in omega arith) k.kids_some k.kids_distinct fuel in
      rw (k.some, a0, k.some, k.init_some)
        (Ends-and_then (λ _ t. Reparented s0 k.kids k.inits t) (λ _ t. Died s k exitval t)
          (reparent_children rounds s0) (λ _. settle rounds s.running) reparented
          λ _ t r.
            let q : Reparented s0 k.kids k.inits (record s0 { items = t.items; pcbs = t.pcbs }) =
              subst (Reparented s0 k.kids k.inits) r.frame r in
            subst (λ z. Ends (λ _ a. Died s k exitval a) (settle rounds s.running z)) (sym r.frame)
              (rw (settled t.items t.pcbs q rounds n) (died t.items t.pcbs q)))
