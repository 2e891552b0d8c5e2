-- ===== src/Process/Exit/Died/Steps.antt =====
-- The steps of internal_exit after the children, for a process that its parent does not wait for.
use disastr_os_queues.Base.{
  ℤ, pos, eq_ℤ, true, false, ◌&&◌, ◌||◌, ◌≡◌, refl, List, [], ◌∷◌, ◌++◌, arith, has, ap, ◌∙◌, ◌==◌,
  update, update_self, update_ne, map, Distinct, count, count_of_has, not-has_of_count, one_self,
  ◌+◌, ◌≤◌, ◌⊎◌, Bool-cases, inl, inr,
}
use disastr_os_queues.LinkedList
use disastr_os_queues.LinkedList.{Ptr, null, is_null, Items}
use disastr_os_queues.LinkedList.Chain.{IsList, IsList-frame, last_or}
use disastr_os_queues.LinkedList.Detach.{Detached}
use disastr_os_queues.LinkedList.Insert.{Inserted}
use disastr_os_queues.Process.Exit.{is_waiting, parent_awaits}
use disastr_os_queues.Process.Exit.Round.{signalled}
use disastr_os_queues.Process.Exit.Orphans.{Reparented}
use disastr_os_queues.Kernel.{
  System, Pcb, ProcessStatus, zombie_list, ready_list, ok, int, list_append, list_detach, call_wait,
  sigchld,
}
use disastr_os_queues.Kernel.Lists.{after, list_append_ok, list_detach_ok}

-- The process neither waits for a child nor for the one with this number.
abbrev pub NotAwaiting : Pcb → ℤ → Type 0
NotAwaiting p pid =
    ((is_waiting p.status && eq_ℤ p.syscall_num (pos call_wait)) ≡ false)
    ⊎ ((n : ℤ) × (p.syscall_args 0 ≡ int n) × ((eq_ℤ n (pos 0) || eq_ℤ n pid) ≡ false))

pub parent_awaits-false :
    (p : Pcb) (pid : ℤ) (s : System) → NotAwaiting p pid → parent_awaits p pid s ≡ ok false s
unfolding parent_awaits
parent_awaits-false p pid s (inl h) = rw h refl
parent_awaits-false p pid s (inr (n, a, h)) =
    elim (Bool-cases (is_waiting p.status && eq_ℤ p.syscall_num (pos call_wait))) [
      | inl g ↦ rw (g, a, h) refl
      | inr g ↦ rw g refl
    ]

-- The running process can end: it is not the init process and stands in no list, its children and
-- the parent are there, and a process is ready.
pub record Exiting (s : System) : Type 0 where
  pub kids : List Ptr
  pub inits : List Ptr
  pub zombies : List Ptr
  pub next : Ptr
  pub ready : List Ptr
  pub some : is_null s.running ≡ false
  pub init_some : is_null s.init_pcb ≡ false
  pub not_init : (s.running == s.init_pcb) ≡ false
  pub parent_some : is_null (s.pcbs s.running).parent ≡ false
  pub not_parent : (s.running == (s.pcbs s.running).parent) ≡ false
  pub unlinked : ((s.items s.running).next ≡ null) × ((s.items s.running).prev ≡ null)
  pub mine : IsList s.items (s.pcbs s.running).children kids
  pub theirs : IsList s.items (s.pcbs s.init_pcb).children inits
  pub buried : IsList s.items s.zombie_list zombies
  pub others : IsList s.items s.ready_list (next ∷ ready)
  pub kids_some : has null (map s.pcb_ptrs kids) ≡ false
  pub kids_distinct : Distinct (map s.pcb_ptrs kids)
  pub parent_no_kid : has (s.pcbs s.running).parent (map s.pcb_ptrs kids) ≡ false
  pub apart :
      (a : Ptr)
      → count a (s.running ∷ [])
          + count a kids
          + count a inits
          + count a zombies
          + count a (next ∷ ready)
        ≤ 1

module _ (s : System) (k : Exiting s) (exitval : ℤ) where
  abbrev pub parent : Ptr
  parent = (s.pcbs s.running).parent

  -- The state after the return value was stored.
  abbrev pub s0 : System
  s0 = record s {
    pcbs = update s.pcbs s.running (record (s.pcbs s.running) { return_value = exitval });
  }

  module _ (items : Items) (pcbs : Ptr → Pcb)
      (r : Reparented s0 k.kids k.inits (record s0 { items = items; pcbs = pcbs })) where
    abbrev pub u0 : System
    u0 = record s0 { items = items; pcbs = pcbs }

    abbrev pub u1 : System
    u1 = record u0 {
      pcbs = update pcbs s.running (record (pcbs s.running) { status = ProcessStatus.zombie });
    }

    abbrev pub u2 : System
    u2 =
        after zombie_list (LinkedList.insert s.zombie_list items (last_or null k.zombies) s.running)
          u1

    abbrev pub u3 : System
    u3 = record u2 { pcbs = update u1.pcbs parent (signalled sigchld (u1.pcbs parent)) }

    abbrev pub u4 : System
    u4 = after ready_list (LinkedList.detach s.ready_list u2.items k.next) u3

    abbrev pub u5 : System
    u5 = record u4 {
      pcbs = update u3.pcbs k.next (record (u3.pcbs k.next) { status = ProcessStatus.running });
      running = k.next;
    }

    running-out : (has s.running k.kids ≡ false) × (has s.running k.inits ≡ false)
    running-out =
        let o = k.apart s.running in
        let b = one_self s.running in
        (
          not-has_of_count s.running k.kids (omega arith),
          not-has_of_count s.running k.inits (omega arith),
        )

    zombies-out : (a : Ptr) → has a k.zombies ≡ true → items a ≡ s.items a
    zombies-out a h =
        let n = count_of_has a k.zombies h in
        let o = k.apart a in
        r.same a (not-has_of_count a k.kids (omega arith))
          (not-has_of_count a k.inits (omega arith))

    pub append_zombie :
        (list_append zombie_list s.running u1 ≡ ok s.running u2)
        × Inserted items s.running k.zombies
            (k.zombies ++ s.running ∷ [])
            (LinkedList.insert s.zombie_list items (last_or null k.zombies) s.running)
    append_zombie =
        let here = r.same s.running running-out.0 running-out.1 in
        list_append_ok zombie_list u1 refl k.zombies s.running (IsList-frame k.buried zombies-out)
          k.some (ap (λ i. i.next) here ∙ k.unlinked.0) (ap (λ i. i.prev) here ∙ k.unlinked.1)
          (not-has_of_count s.running k.zombies
            (let o = k.apart s.running in let b = one_self s.running in omega arith))

    ready-out : (a : Ptr) → has a (k.next ∷ k.ready) ≡ true → u2.items a ≡ s.items a
    ready-out a h =
        let n = count_of_has a (k.next ∷ k.ready) h in
        let o = k.apart a in
        append_zombie.1.same a (not-has_of_count a (s.running ∷ k.zombies) (omega arith))
        ∙ r.same a (not-has_of_count a k.kids (omega arith))
            (not-has_of_count a k.inits (omega arith))

    pub next_some : is_null k.next ≡ false
    next_some = let h = k.others.non_null in ground arith

    pub detach_next :
        (list_detach ready_list k.next u3 ≡ ok k.next u4)
        × Detached u2.items k.next
            (k.next ∷ k.ready)
            k.ready
            (LinkedList.detach s.ready_list u2.items k.next)
    detach_next =
        list_detach_ok ready_list u3 refl [] k.ready k.next (IsList-frame k.others ready-out)
          next_some

    -- The parent is as it was, but for its children and its signals.
    pub parent_is : u3.pcbs parent ≡ record (s.pcbs parent) {
      children = (pcbs parent).children;
      signals = (signalled sigchld (pcbs parent)).signals;
    }
    parent_is =
        let with : Pcb → Pcb = λ c. record c {
          children = (pcbs parent).children;
          signals = (signalled sigchld (pcbs parent)).signals;
        } in
        update_self u1.pcbs parent (signalled sigchld (u1.pcbs parent))
        ∙ (ap (signalled sigchld) (
              update_ne pcbs s.running (record (pcbs s.running) { status = ProcessStatus.zombie })
                parent k.not_parent)
            ∙ (ap with (r.kept parent)
                ∙ ap with (
                    update_ne s.pcbs s.running
                      (record (s.pcbs s.running) { return_value = exitval }) parent k.not_parent)))

    -- The process is a zombie with its return value, and else as it was but for its children and
    -- its signals.
    pub running_is : u1.pcbs s.running ≡ record (s.pcbs s.running) {
      return_value = exitval;
      status = ProcessStatus.zombie;
      children = (pcbs s.running).children;
      signals = (pcbs s.running).signals;
    }
    running_is =
        let with : Pcb → Pcb = λ c. record c {
          status = ProcessStatus.zombie;
          children = (pcbs s.running).children;
          signals = (pcbs s.running).signals;
        } in
        update_self pcbs s.running (record (pcbs s.running) { status = ProcessStatus.zombie })
        ∙ (ap with (r.kept s.running)
            ∙ ap with (
                update_self s.pcbs s.running
                  (record (s.pcbs s.running) { return_value = exitval })))
