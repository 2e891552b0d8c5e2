-- ===== src/Process/Exit/Reported.antt =====
-- internal_exit of a process that its parent waits for.
pub mod Parent
pub mod Steps
use mathlib.Core.Path.{subst}
use mathlib.Core.List.{append-nil}
use disastr_os_queues.Base.{
  ℕ, zero, suc, ℤ, pos, eq_ℤ, Bool, true, false, not, ◌≡◌, refl, List, [], ◌∷◌, ◌++◌, arith, has,
  ap, sym, ◌∙◌, ◌==◌, update, update_self, update_ne, if◌then◌else◌, count, count-append,
  count_of_has, not-has_of_count, ◌+◌, ◌≤◌, ◌<◌, length, Bool-cases, inl, inr, ◌||◌,
}
use disastr_os_queues.LinkedList
use disastr_os_queues.LinkedList.{Ptr, null, is_null, ListHead, Items}
use disastr_os_queues.LinkedList.Chain.{IsList, IsList-frame, last_or, head_or}
use disastr_os_queues.LinkedList.Detach.{Detached}
use disastr_os_queues.PoolAllocator
use disastr_os_queues.PoolAllocator.{PoolAllocator, success}
use disastr_os_queues.PoolAllocator.Free.{IsPool, block}
use disastr_os_queues.PoolAllocator.Release
use disastr_os_queues.PoolAllocator.Release.{returned, returned-IsPool}
use disastr_os_queues.PoolAllocator.Taken.{IsReturned}
use disastr_os_queues.Pcb.{pcb_free}
use disastr_os_queues.Process.Exit.{
  internal_exit, reparent_children, settle, report_to_parent, release_descriptors, finish,
  release_timers, send_signal,
}
use disastr_os_queues.Process.Exit.Round.{signalled}
use disastr_os_queues.Process.Exit.Timers.{IsTimed, Freed, others, has-others, release_timers-Freed}
use disastr_os_queues.Process.Exit.Reported.Steps
use disastr_os_queues.Process.Exit.Reported.Parent.{Awaited, Awaiting}
use disastr_os_queues.Kernel.{
  System, Pcb, ProcessStatus, zombie_list, Ends, Ends-and_then, Ends-mono, ok, int, pointer,
  pcb_pool, get_head, list_detach, sigchld,
}
use disastr_os_queues.Kernel.Lists.{after, list_detach_ok}
use disastr_os_queues.Kernel.Blocks

-- The process is gone and its block free, and so are its timers; the item that its parent had for
-- it is in no list and still handed out. Of the timers' blocks, those that were free still are, and
-- so is that of each timer of the process, but no other one. The parent runs: it has the number of the process for an
-- answer, the exit value at the address that it gave, if any, and a SIGCHLD more.
pub record Reported (s : System) (k : Awaited s) (exitval : ℤ) (result : Ptr) (t : System)
    : Type 0 where
  pub waiting : IsList t.items t.waiting_list (k.ys ++ k.zs)
  pub siblings : IsList t.items (t.pcbs (s.pcbs s.running).parent).children (k.before ++ k.behind)
  pub zombies : IsList t.items t.zombie_list k.zombies
  pub ready : IsList t.items t.ready_list k.ready
  pub timers : IsList t.items t.timer_list (others s.timers s.running k.timers)
  pub timer_blocks : List ℕ
  pub timer_pool : IsPool t.pools.timer_item timer_blocks
  pub timer_amount :
      length timer_blocks + length (others s.timers s.running k.timers)
      ≡ length k.frees + length k.timers
  pub timer_kept : (i : ℕ) → has i k.frees ≡ true → has i timer_blocks ≡ true
  pub timer_released :
      (a : Ptr)
      → has a k.timers ≡ true
      → has a (others s.timers s.running k.timers) ≡ false
      → IsReturned s.pools.timer_item timer_blocks a
  pub pool : IsPool t.pools.pcb (k.taken.number ∷ k.free)
  pub leak : t.pools.pcb_ptr ≡ s.pools.pcb_ptr
  pub running : t.running ≡ (s.pcbs s.running).parent
  pub parent : t.pcbs (s.pcbs s.running).parent ≡ record (s.pcbs (s.pcbs s.running).parent) {
    status = ProcessStatus.running;
    signals = (signalled sigchld (s.pcbs (s.pcbs s.running).parent)).signals;
    syscall_retvalue = (s.pcbs s.running).pid;
    children = (t.pcbs (s.pcbs s.running).parent).children;
  }
  pub value : t.ints ≡ (if is_null result then s.ints else update s.ints result exitval)

module _ (s : System) (k : Awaited s) (exitval : ℤ) (result : Ptr) where
  abbrev u8 : System
  u8 = Steps.u8 s k exitval result

  abbrev parent : Ptr
  parent = (s.pcbs s.running).parent

  -- The members of a list stand in no other.
  out :
      (a : Ptr) (xs ys : List Ptr)
      → has a xs ≡ true
      → count a xs + count a ys ≤ 1
      → has a ys ≡ false
  out a xs ys h o = let n = count_of_has a xs h in not-has_of_count a ys (omega arith)

  -- An item that stands in none of the lists that are written before the timers is not touched.
  since_zombie :
      (a : Ptr)
      → count a (k.ys ++ parent ∷ k.zs) ≡ 0
      → count a (k.before ++ k.item ∷ k.behind) ≡ 0
      → u8.items a ≡ (Steps.u2 s k exitval result).items a
  since_zombie a y z =
      (Steps.detach_item s k exitval result).1.same a
        (not-has_of_count a (k.before ++ k.item ∷ k.behind) z)
      ∙ (Steps.detach_parent s k exitval result).1.same a
          (not-has_of_count a (k.ys ++ parent ∷ k.zs) y)

  before_timers :
      (a : Ptr)
      → count a (s.running ∷ k.zombies) ≡ 0
      → count a (k.ys ++ parent ∷ k.zs) ≡ 0
      → count a (k.before ++ k.item ∷ k.behind) ≡ 0
      → u8.items a ≡ s.items a
  before_timers a x y z =
      since_zombie a y z
      ∙ (Steps.append_zombie s k exitval result).1.same a
          (not-has_of_count a (s.running ∷ k.zombies) x)

  timed8 : IsTimed u8 k.timers k.frees
  timed8 = record {
    list = IsList-frame k.timed.list λ a h.
        let n = count_of_has a k.timers h in
        let o = k.apart a in before_timers a (omega arith) (omega arith) (omega arith);
    pool = k.timed.pool;
    placed = k.timed.placed;
    taken = k.timed.taken;
  }

  module _ (items : Items) (head : ListHead) (pool : PoolAllocator)
      (r : Freed u8 [] k.timers k.frees (record u8 {
        items = items;
        timer_list = head;
        pools = record s.pools { timer_item = pool };
      })) where
    abbrev w : System
    w = record u8 { items = items; timer_list = head; pools = record s.pools { timer_item = pool } }

    abbrev w1 : System
    w1 =
        after zombie_list
          (LinkedList.detach (Steps.u2 s k exitval result).zombie_list items s.running) w

    abbrev w2 : System
    w2 = record w1 { pools = record w.pools { pcb = returned s.pools.pcb k.taken.number } }

    abbrev w3 : System
    w3 = record w2 { running = parent }

    detach_me :
        (list_detach zombie_list s.running w ≡ ok s.running w1)
        × Detached items s.running
            (k.zombies ++ s.running ∷ [])
            (k.zombies ++ [])
            (LinkedList.detach (Steps.u2 s k exitval result).zombie_list items s.running)
    detach_me =
        list_detach_ok zombie_list w refl k.zombies [] s.running
          (IsList-frame (Steps.append_zombie s k exitval result).1.list λ a h.
            let n = count_of_has a (k.zombies ++ s.running ∷ []) h in
            let m = count-append a k.zombies (s.running ∷ []) in
            let o = k.apart a in
            r.same a (not-has_of_count a k.timers (omega arith))
            ∙ since_zombie a (omega arith) (omega arith))
          k.some

    free_ok : pcb_free s.running w1 ≡ ok success w2
    unfolding pcb_free
    free_ok =
        Blocks.release_block_ok pcb_pool w1 s.running (returned s.pools.pcb k.taken.number) success
          (ap (PoolAllocator.release_block s.pools.pcb) k.taken.here
            ∙ Release.release_block_ok s.pools.pcb k.free k.taken.number k.placed k.pool
                k.taken.in_range k.taken.busy)

    closed : is_null (w.pcbs s.running).descriptors.first ≡ true
    closed = ap (λ c. is_null c.descriptors.first) (Steps.me7 s k exitval result) ∙ k.closed

    finish_ok : (rounds : ℕ) → finish (suc rounds) s.running parent w ≡ ok tt w3
    unfolding finish release_descriptors get_head
    finish_ok rounds = rw (k.some, closed, detach_me.0, free_ok)

    -- An item that is no zombie and no timer is as it was before the timers.
    since_timers :
        (a : Ptr)
        → count a (s.running ∷ k.zombies) ≡ 0
        → count a k.timers ≡ 0
        → w3.items a ≡ u8.items a
    since_timers a x y =
        detach_me.1.same a (
          not-has_of_count a (k.zombies ++ s.running ∷ [])
            (let m = count-append a k.zombies (s.running ∷ []) in omega arith))
        ∙ r.same a (not-has_of_count a k.timers y)

    others-timers :
        (a : Ptr)
        → has a (others s.timers s.running k.timers) ≡ true
        → has a (k.zombies ++ s.running ∷ []) ≡ false
    others-timers a h =
        let n = count_of_has a k.timers (has-others s.timers s.running a k.timers h) in
        let m = count-append a k.zombies (s.running ∷ []) in
        let o = k.apart a in not-has_of_count a (k.zombies ++ s.running ∷ []) (omega arith)

    reported : Reported s k exitval result w3
    reported = record {
      waiting = IsList-frame (Steps.detach_parent s k exitval result).1.list λ a h.
          let n = count_of_has a (k.ys ++ k.zs) h in
          let m = count-append a k.ys k.zs in
          let l = count-append a k.ys (parent ∷ k.zs) in
          let o = k.apart a in
          since_timers a (omega arith) (omega arith)
          ∙ (Steps.detach_item s k exitval result).1.same a
              (not-has_of_count a (k.before ++ k.item ∷ k.behind) (omega arith));
      siblings =
          subst (λ h. IsList w3.items h (k.before ++ k.behind))
            (sym (ap (λ c. c.children) (Steps.parent7 s k exitval result)))
            (IsList-frame (Steps.detach_item s k exitval result).1.list λ a h.
              let n = count_of_has a (k.before ++ k.behind) h in
              let m = count-append a k.before k.behind in
              let l = count-append a k.before (k.item ∷ k.behind) in
              let o = k.apart a in since_timers a (omega arith) (omega arith));
      zombies = subst (IsList w3.items w3.zombie_list) (append-nil k.zombies) detach_me.1.list;
      ready = IsList-frame k.others λ a h.
          let n = count_of_has a k.ready h in
          let o = k.apart a in
          since_timers a (omega arith) (omega arith)
          ∙ before_timers a (omega arith) (omega arith) (omega arith);
      timers = IsList-frame r.timed.list λ a h. detach_me.1.same a (others-timers a h);
      timer_blocks = r.free';
      timer_pool = r.timed.pool;
      timer_amount = r.amount;
      timer_kept = r.kept;
      timer_released = r.released;
      pool =
          returned-IsPool s.pools.pcb k.free k.taken.number k.placed k.pool k.taken.in_range
            k.taken.busy;
      leak = refl;
      running = refl;
      parent =
          Steps.parent7 s k exitval result
          ∙ (let with : ListHead → Pcb = λ h. record (s.pcbs parent) {
            status = ProcessStatus.running;
            signals = (signalled sigchld (s.pcbs parent)).signals;
            syscall_retvalue = (s.pcbs s.running).pid;
            children = h;
          } in
              ap (λ c. with c.children) (sym (Steps.parent7 s k exitval result)));
      value = refl;
    }

  report_ok :
      (rounds : ℕ)
      → (s.pcbs parent).syscall_args 1 ≡ pointer result
      → length (k.before ++ k.item ∷ k.behind) < rounds
      → length k.timers < rounds
      → Ends
          (λ _ t. Reported s k exitval result t)
          (report_to_parent rounds parent (Steps.u3 s k exitval result))
  unfolding report_to_parent get_head
  report_ok zero a1 fuel fuel' = elim fuel [ ]
  report_ok (suc rounds) a1 fuel fuel' =
      let first = k.timed.list.first in
      let freed : Ends (λ _ t. Freed u8 [] k.timers k.frees t)
          (release_timers (suc rounds) s.timer_list.first u8) =
        subst (λ a. Ends (λ _ t. Freed u8 [] k.timers k.frees t) (release_timers (suc rounds) a u8))
          (sym first) (release_timers-Freed (suc rounds) u8 [] k.timers k.frees timed8 fuel') in
      rw (Steps.wake_parent_ok s k exitval result (suc rounds) a1 fuel) (
        Ends-and_then (λ _ t. Freed u8 [] k.timers k.frees t) (λ _ t. Reported s k exitval result t)
          (release_timers (suc rounds) s.timer_list.first u8)
          (λ _. finish (suc rounds) s.running parent) freed
          λ _ t r.
            let kept : System = record u8 {
              items = t.items;
              timer_list = t.timer_list;
              pools = record s.pools { timer_item = t.pools.timer_item };
            } in
            let q : Freed u8 [] k.timers k.frees kept =
              subst (Freed u8 [] k.timers k.frees) r.frame r in
            subst
              (λ z.
                Ends (λ _ a. Reported s k exitval result a)
                  (finish (suc rounds) s.running parent z))
              (sym r.frame)
              (rw (finish_ok t.items t.timer_list t.pools.timer_item q rounds)
                (reported t.items t.timer_list t.pools.timer_item q)))

  reparent_none :
      (rounds : ℕ)
      → 0 < rounds
      → reparent_children rounds (Steps.u0 s k exitval result) ≡ ok tt (Steps.u0 s k exitval result)
  unfolding reparent_children get_head
  reparent_none zero h = elim h [ ]
  reparent_none (suc rounds) h =
      let me = record (s.pcbs s.running) { return_value = exitval } in
      let none : is_null ((Steps.u0 s k exitval result).pcbs s.running).children.first ≡ true =
        ap (λ c. is_null c.children.first) (update_self s.pcbs s.running me) ∙ k.childless in
      rw (k.some, none)

  -- `internal_exit` of a process without children and descriptors, for which its parent waits: the
  -- process leaves the zombies at once, its block and the blocks of its timers, and no other
  -- timer's, are free again, and the parent leaves the waiting list and runs, with the number of
  -- the process for an answer, the exit value at the address that it gave, unless that is null, and
  -- a SIGCHLD, if that is not masked. The item of the process is out of the children of the parent,
  -- but its block stays handed out.
  pub internal_exit-Reported :
      (rounds : ℕ)
      → (s.pcbs s.running).syscall_args 0 ≡ int exitval
      → Awaiting (s.pcbs parent) (s.pcbs s.running).pid
      → (s.pcbs parent).syscall_args 1 ≡ pointer result
      → length (k.before ++ k.item ∷ k.behind) < rounds
      → length k.timers < rounds
      → Ends (λ _ t. Reported s k exitval result t) (internal_exit rounds s)
  unfolding internal_exit
  internal_exit-Reported rounds a0 awaits a1 fuel fuel' =
      rw
        (
          k.some,
          a0,
          k.some,
          k.init_some,
          reparent_none rounds (omega arith),
          Steps.settle_ok s k exitval result rounds awaits,
        )
        (report_ok rounds a1 fuel fuel')
