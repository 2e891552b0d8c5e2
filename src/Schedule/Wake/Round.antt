-- ===== src/Schedule/Wake/Round.antt =====
-- One round of the loop of internal_schedule over the elapsed timers.
use disastr_os_queues.Base.{
  ℕ, suc, ◌+◌, ◌≤◌, ◌≡◌, refl, true, false, List, [], ◌∷◌, ◌++◌, arith, has, ap, ◌∙◌, ◌==◌, update,
  count, one_self, count-append, not-has_of_count, has_of_count, pos, negsuc, if◌then◌else◌, ltb_ℤ,
  Bool-cases, inl, inr, has_head, has_tail,
}
use disastr_os_queues.LinkedList
use disastr_os_queues.LinkedList.{Ptr, null, is_null}
use disastr_os_queues.LinkedList.Chain.{IsList-frame, last_or, head_or, ne_of_not_has}
use disastr_os_queues.PoolAllocator
use disastr_os_queues.PoolAllocator.{success}
use disastr_os_queues.PoolAllocator.Release
use disastr_os_queues.PoolAllocator.Free.{block}
use disastr_os_queues.PoolAllocator.Release.{returned, returned-IsPool}
use disastr_os_queues.LinkedList.Insert.{Inserted}
use disastr_os_queues.LinkedList.Detach.{Detached}
use disastr_os_queues.Timer.{timer_list_current, timer_list_remove_current, timer_item_free}
use disastr_os_queues.Timer.Order.{due, timer_list_current-due}
use disastr_os_queues.Schedule.{wake_elapsed}
use disastr_os_queues.PoolAllocator.Taken.{IsTaken, IsTaken-returned}
use disastr_os_queues.Schedule.Invariant.{IsScheduled, Disjoint-count}
use disastr_os_queues.Kernel.{
  System, ProcessStatus, timer_list, waiting_list, ready_list, timer_item_pool, get_head, ok,
  list_detach, list_insert, release_block, pure, ◌>>=◌,
}
use disastr_os_queues.Kernel.Lists.{after, list_detach_ok, list_insert_ok}
use disastr_os_queues.Kernel.Blocks
use disastr_os_queues.Schedule.Rotate.{IsUnlinked}

-- One round: the first timer `t` is due, and its process stands between `ys` and `zs`.
module _ (s : System) (woken ready ys zs ts : List Ptr) (t : Ptr) (free : List ℕ)
    (k : IsScheduled s (woken ++ ready) (ys ++ (s.timers t).pcb ∷ zs) (t ∷ ts) free) where
  abbrev p : Ptr
  p = (s.timers t).pcb

  abbrev waiting : List Ptr
  waiting = ys ++ p ∷ zs

  p_some : is_null p ≡ false
  p_some =
      let here : has p waiting ≡ true =
        has_of_count p waiting (let e = one_self p in omega (arith, count-append p ys (p ∷ zs))) in
      let ne = ne_of_not_has null p waiting k.waiting_is.non_null here in ground arith

  t_some : is_null t ≡ false
  t_some = let h = k.timers_are.non_null in ground arith

  -- The lists have no address in common.
  ready-waiting : (a : Ptr) → has a (woken ++ ready) ≡ true → has a waiting ≡ false
  ready-waiting = Disjoint-count (woken ++ ready) waiting λ a. let o = k.once a in omega arith

  timers-waiting : (a : Ptr) → has a (t ∷ ts) ≡ true → has a waiting ≡ false
  timers-waiting = Disjoint-count (t ∷ ts) waiting λ a. let o = k.once a in omega arith

  p-not-ready : has p (woken ++ ready) ≡ false
  p-not-ready =
      not-has_of_count p (woken ++ ready)
        (let o = k.once p in let e = one_self p in omega (arith, count-append p ys (p ∷ zs)))

  timers-ready : (a : Ptr) → has a (t ∷ ts) ≡ true → has a (p ∷ woken ++ ready) ≡ false
  timers-ready =
      Disjoint-count (t ∷ ts) (p ∷ woken ++ ready)
        λ a. let o = k.once a in omega (arith, count-append a ys (p ∷ zs))

  left-ready : (a : Ptr) → has a (ys ++ zs) ≡ true → has a (p ∷ woken ++ ready) ≡ false
  left-ready =
      Disjoint-count (ys ++ zs) (p ∷ woken ++ ready)
        λ a. let o = k.once a in omega (arith, count-append a ys (p ∷ zs), count-append a ys zs)

  left-timers : (a : Ptr) → has a (ys ++ zs) ≡ true → has a (t ∷ ts) ≡ false
  left-timers =
      Disjoint-count (ys ++ zs) (t ∷ ts)
        λ a. let o = k.once a in omega (arith, count-append a ys (p ∷ zs), count-append a ys zs)

  ready-timers : (a : Ptr) → has a (woken ++ p ∷ ready) ≡ true → has a (t ∷ ts) ≡ false
  ready-timers = Disjoint-count (woken ++ p ∷ ready) (t ∷ ts) λ a.
      let o = k.once a in
      omega (
        arith,
        count-append a ys (p ∷ zs),
        count-append a woken (p ∷ ready),
        count-append a woken ready,
      )

  -- Nor does the running process stand in one.
  running-out :
      (xs : List Ptr)
      → count s.running (s.running ∷ []) + count s.running xs ≤ 1
      → has s.running xs ≡ false
  running-out xs h = not-has_of_count s.running xs (let e = one_self s.running in omega arith)

  -- The states between the calls.
  abbrev detached : System
  detached = after waiting_list (LinkedList.detach s.waiting_list s.items p) s

  abbrev marked : System
  marked = record detached {
    pcbs = update s.pcbs p (record (s.pcbs p) { status = ProcessStatus.ready; timer = null });
  }

  abbrev inserted : System
  inserted =
      after ready_list (LinkedList.insert s.ready_list marked.items (last_or null woken) p) marked

  abbrev removed : System
  removed = after timer_list (LinkedList.detach s.timer_list inserted.items t) inserted

  abbrev timer : IsTaken s.pools.timer_item free t
  timer = k.taken t (has_head t ts)

  abbrev pub woke : System
  woke = record removed {
    pools = record s.pools { timer_item = returned s.pools.timer_item timer.number };
  }

  detach_ok :
      (list_detach waiting_list p s ≡ ok p detached)
      × Detached s.items p waiting (ys ++ zs) (LinkedList.detach s.waiting_list s.items p)
  detach_ok = list_detach_ok waiting_list s refl ys zs p k.waiting_is p_some

  insert_ok :
      (list_insert ready_list (last_or null woken) p marked ≡ ok p inserted)
      × Inserted marked.items p
          (woken ++ ready)
          (woken ++ p ∷ ready)
          (LinkedList.insert s.ready_list marked.items (last_or null woken) p)
  insert_ok =
      let d = detach_ok.1 in
      list_insert_ok ready_list marked refl woken ready p
        (IsList-frame k.ready_is λ a h. d.same a (ready-waiting a h)) p_some
        (ap (λ c. c.next) d.unlinked) (ap (λ c. c.prev) d.unlinked) p-not-ready

  remove_ok :
      (list_detach timer_list t inserted ≡ ok t removed)
      × Detached inserted.items t (t ∷ ts) ts (LinkedList.detach s.timer_list inserted.items t)
  remove_ok =
      list_detach_ok timer_list inserted refl [] ts t
        (IsList-frame k.timers_are
          λ a h. insert_ok.1.same a (timers-ready a h) ∙ detach_ok.1.same a (timers-waiting a h))
        t_some

  release_ok : release_block timer_item_pool t removed ≡ ok success woke
  release_ok =
      Blocks.release_block_ok timer_item_pool removed t (returned s.pools.timer_item timer.number)
        success
        (ap (PoolAllocator.release_block s.pools.timer_item) timer.here
          ∙ Release.release_block_ok s.pools.timer_item free timer.number k.placed k.pool
              timer.in_range timer.busy)

  woke_alone : IsUnlinked woke s.running
  woke_alone =
      let o = k.once s.running in
      let far : has s.running (t ∷ ts) ≡ false = running-out (t ∷ ts) (omega arith) in
      let out : has s.running (p ∷ woken ++ ready) ≡ false =
        running-out (p ∷ woken ++ ready) (omega (arith, count-append s.running ys (p ∷ zs))) in
      let stays : woke.items s.running ≡ s.items s.running =
        remove_ok.1.same s.running far
        ∙ (insert_ok.1.same s.running out
            ∙ detach_ok.1.same s.running (running-out waiting (omega arith))) in
      (ap (λ c. c.prev) stays ∙ k.alone.0, ap (λ c. c.next) stays ∙ k.alone.1)

  still-IsTaken :
      (u : Ptr) → has u ts ≡ true → IsTaken woke.pools.timer_item (timer.number ∷ free) u
  still-IsTaken u h =
      IsTaken-returned s.pools.timer_item free t u timer (k.taken u (has_tail u t ts h))
        (ne_of_not_has t u ts k.timers_are.distinct.0 h)

  pub woke-IsScheduled : IsScheduled woke (woken ++ p ∷ ready) (ys ++ zs) ts (timer.number ∷ free)
  woke-IsScheduled = record {
    running_some = k.running_some;
    alone = woke_alone;
    ready_is = IsList-frame insert_ok.1.list λ a h. remove_ok.1.same a (ready-timers a h);
    waiting_is =
        IsList-frame detach_ok.1.list
          λ a h. remove_ok.1.same a (left-timers a h) ∙ insert_ok.1.same a (left-ready a h);
    timers_are = remove_ok.1.list;
    sorted = k.sorted.1;
    once = λ a.
        let o = k.once a in
        omega (
          arith,
          count-append a ys (p ∷ zs),
          count-append a ys zs,
          count-append a woken (p ∷ ready),
          count-append a woken ready,
        );
    waits =
        λ a. let w = k.waits a in omega (arith, count-append a ys (p ∷ zs), count-append a ys zs);
    unset = λ a. elim (Bool-cases (p == a)) [
      | inl here ↦ rw here refl
      | inr other ↦ rw other (k.unset a)
    ];
    pool =
        returned-IsPool s.pools.timer_item free timer.number k.placed k.pool timer.in_range
          timer.busy;
    placed = record {
      item_pos = k.placed.item_pos;
      buffer_pos = k.placed.buffer_pos;
      small = k.placed.small;
      space = k.placed.space;
    };
    taken = still-IsTaken;
    apart = λ i h.
        let a = block s.pools.timer_item i in
        let o = k.apart i h in
        omega (
          arith,
          count-append a ys (p ∷ zs),
          count-append a ys zs,
          count-append a woken (p ∷ ready),
          count-append a woken ready,
        );
  }

  removes : timer_list_remove_current timer_list inserted ≡ ok (pos 0) woke
  unfolding timer_list_remove_current timer_item_free get_head
  removes =
      ap
        (λ (x : Ptr).
          (do
            item ← list_detach timer_list x
            if is_null item
                then pure (negsuc 0)
                else do _ ← release_block timer_item_pool item; pure (pos 0))
            inserted)
        k.timers_are.first
      ∙ rw (remove_ok.0, t_some, release_ok)

  first_due :
      ltb_ℤ s.time (s.timers t).awakening_time ≡ false
      → timer_list_current timer_list s.time s ≡ ok t s
  unfolding due
  first_due elapsed =
      let first : head_or (due s.timers s.time (t ∷ ts)) null ≡ t = rw elapsed refl in
      timer_list_current-due s s.time (t ∷ ts) k.timers_are ∙ ap (λ (x : Ptr). ok x s) first

  -- The round ends in that state, and the loop goes on behind the woken process.
  pub wake_round :
      (rounds : ℕ)
      → ltb_ℤ s.time (s.timers t).awakening_time ≡ false
      → wake_elapsed (suc rounds) (last_or null woken) s ≡ wake_elapsed rounds p woke
  unfolding wake_elapsed
  wake_round rounds elapsed =
      rw (first_due elapsed, t_some, detach_ok.0, p_some, insert_ok.0, removes)
