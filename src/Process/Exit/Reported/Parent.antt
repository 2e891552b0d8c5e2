-- ===== src/Process/Exit/Reported/Parent.antt =====
-- A process that can end while its parent waits for it.
use disastr_os_queues.Base.{
  ℕ, ℤ, pos, eq_ℤ, true, false, ◌&&◌, ◌||◌, ◌≡◌, refl, List, [], ◌∷◌, ◌++◌, ◌==◌, count, ◌+◌, ◌≤◌,
}
use disastr_os_queues.LinkedList.{Ptr, null, is_null}
use disastr_os_queues.LinkedList.Chain.{IsList}
use disastr_os_queues.LinkedList.Walk.{first_match}
use disastr_os_queues.PoolAllocator.Free.{IsPool, IsPlaced}
use disastr_os_queues.PoolAllocator.Taken.{IsTaken}
use disastr_os_queues.Process.Exit.{is_waiting, parent_awaits}
use disastr_os_queues.Process.Exit.Timers.{IsTimed}
use disastr_os_queues.Kernel.{System, Pcb, ok, int, call_wait}

-- The process waits for any child or for the one with this number.
pub record Awaiting (p : Pcb) (pid : ℤ) : Type 0 where
  pub waits : is_waiting p.status ≡ true
  pub calls : eq_ℤ p.syscall_num (pos call_wait) ≡ true
  pub number : ℤ
  pub argument : p.syscall_args 0 ≡ int number
  pub matches : (eq_ℤ number (pos 0) || eq_ℤ number pid) ≡ true

pub parent_awaits-true :
    (p : Pcb) (pid : ℤ) (s : System) → Awaiting p pid → parent_awaits p pid s ≡ ok true s
unfolding parent_awaits
parent_awaits-true p pid s a =
    let both : (is_waiting p.status && eq_ℤ p.syscall_num (pos call_wait)) ≡ true =
      rw a.waits a.calls in
    rw (both, a.argument, a.matches) refl

-- The running process has neither children nor descriptors, and its parent waits, with an item for
-- it among the children; the lists have no address in common.
pub record Awaited (s : System) : Type 0 where
  pub ys : List Ptr
  pub zs : List Ptr
  pub before : List Ptr
  pub behind : List Ptr
  pub item : Ptr
  pub zombies : List Ptr
  pub timers : List Ptr
  pub ready : List Ptr
  pub free : List ℕ
  pub frees : List ℕ
  pub some : is_null s.running ≡ false
  pub init_some : is_null s.init_pcb ≡ false
  pub parent_some : is_null (s.pcbs s.running).parent ≡ false
  pub not_parent : (s.running == (s.pcbs s.running).parent) ≡ false
  pub unlinked : ((s.items s.running).next ≡ null) × ((s.items s.running).prev ≡ null)
  pub childless : is_null (s.pcbs s.running).children.first ≡ true
  pub closed : is_null (s.pcbs s.running).descriptors.first ≡ true
  pub waiting : IsList s.items s.waiting_list (ys ++ (s.pcbs s.running).parent ∷ zs)
  pub siblings :
      IsList s.items (s.pcbs (s.pcbs s.running).parent).children (before ++ item ∷ behind)
  pub item_some : is_null item ≡ false
  pub found :
      first_match
        (λ a. eq_ℤ (s.pcbs (s.pcb_ptrs a)).pid (s.pcbs s.running).pid)
        (before ++ item ∷ behind)
      ≡ item
  pub buried : IsList s.items s.zombie_list zombies
  pub others : IsList s.items s.ready_list ready
  pub timed : IsTimed s timers frees
  pub pool : IsPool s.pools.pcb free
  pub placed : IsPlaced s.pools.pcb
  pub taken : IsTaken s.pools.pcb free s.running
  pub apart :
      (a : Ptr)
      → count a (s.running ∷ [])
          + count a (ys ++ (s.pcbs s.running).parent ∷ zs)
          + count a (before ++ item ∷ behind)
          + count a zombies
          + count a timers
          + count a ready
        ≤ 1
