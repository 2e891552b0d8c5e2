-- ===== src/Schedule/Sleep/Asleep.antt =====
-- The state that internal_sleep leaves.
use disastr_os_queues.Base.{
  ℕ, ℤ, ◌+◌, ◌≤◌, ◌<◌, ◌≡◌, refl, true, List, [], ◌∷◌, ◌++◌, map, arith, has, ap, sym, ◌∙◌, ◌==◌,
  count, one, count-append, has_of_count, count_of_has, not-has_of_count, Bool-cases, inl, inr,
  ==_iff,
}
use disastr_os_queues.LinkedList.{Ptr, is_null}
use disastr_os_queues.LinkedList.Chain.{IsList-frame}
use disastr_os_queues.PoolAllocator.Free.{block, handed, handed-IsPool}
use disastr_os_queues.Timer.Order.{Added, due, rest}
use disastr_os_queues.Schedule.Plan.{set_alarm}
use disastr_os_queues.PoolAllocator.Taken.{IsTaken}
use disastr_os_queues.Schedule.Invariant.{IsScheduled, alarm, owners}
use disastr_os_queues.Schedule.Sleep.Alarms.{alarm_added, count-set_alarm, owners-alarm}
use disastr_os_queues.Schedule.Sleep.Fall
use disastr_os_queues.Schedule.Sleep.Fall.{asleep, new, once_new, new-not-timer}
use disastr_os_queues.Kernel.{System, Pools}

module _ (s : System) (next : Ptr) (xs waiting ts : List Ptr) (i : ℕ) (free : List ℕ)
    (k : IsScheduled s (next ∷ xs) waiting ts (i ∷ free)) (t : ℤ) (s1 : System)
    (d : Added s t s.running i ts s1) where
  abbrev pub timers_then : List Ptr
  timers_then = due s.timers t ts ++ block s.pools.timer_item i ∷ rest s.timers t ts

  abbrev pub resting : System
  resting = asleep s next xs waiting ts i free k t s1 d

  count_timers : (a : Ptr) → count a timers_then ≡ one (block s.pools.timer_item i) a + count a ts
  count_timers a =
      let w : count a (due s.timers t ts ++ rest s.timers t ts) ≡ count a ts =
        ap (count a) d.whole in
      omega (
        arith,
        count-append a (due s.timers t ts) (block s.pools.timer_item i ∷ rest s.timers t ts),
        count-append a (due s.timers t ts) (rest s.timers t ts),
      )

  once_then :
      (a : Ptr)
      → count a (next ∷ []) + count a xs + count a (waiting ++ s.running ∷ []) + count a timers_then
        ≤ 1
  once_then a =
      let o = once_new s next xs waiting ts i free k a in
      omega (arith, count_timers a, count-append a waiting (s.running ∷ []))

  -- What a list holds that is none of those changed stays as it was.
  waits_then :
      (a : Ptr) → count a (owners s1.timers timers_then) ≤ count a (waiting ++ s.running ∷ [])
  waits_then a =
      let e : owners s1.timers timers_then
          ≡ map (λ x. x.process)
              (set_alarm (record { due = t; process = s.running }) (map (alarm s.timers) ts)) =
        owners-alarm s1.timers timers_then
        ∙ ap (map (λ x. x.process)) (
            alarm_added s.timers s1.timers t s.running (block s.pools.timer_item i) d.item ts
              d.others) in
      let w : count a (map (λ x. x.process) (map (alarm s.timers) ts)) ≤ count a waiting =
        rw (sym (owners-alarm s.timers ts)) (k.waits a) in
      rw e (
        omega (
          arith,
          count-set_alarm a (record { due = t; process = s.running }) (map (alarm s.timers) ts),
          count-append a waiting (s.running ∷ []),
        ))

  pools_then : Pools
  pools_then = record s.pools { timer_item = handed s.pools.timer_item i }

  taken_then : (u : Ptr) → has u timers_then ≡ true → IsTaken (handed s.pools.timer_item i) free u
  unfolding one
  taken_then u h = elim (Bool-cases (new s next xs waiting ts i free k == u)) [
    | inl here ↦ record {
      number = i;
      here = sym ((==_iff (new s next xs waiting ts i free k) u).0 here);
      in_range = k.pool.chain.1;
      busy = k.pool.distinct.0;
    }
    | inr other ↦
        let c = count_of_has u timers_then h in
        let zero_one : one (block s.pools.timer_item i) u ≡ 0 = rw other refl in
        let b = k.taken u (has_of_count u ts (omega (arith, count_timers u))) in
        record {
          number = b.number;
          here = b.here;
          in_range = b.in_range;
          busy = let busy = b.busy in ground arith;
        }
  ]

  unset_then : (a : Ptr) → is_null (resting.pcbs a).timer ≡ true
  unset_then a = elim (Bool-cases (s.running == a)) [
    | inl here ↦ rw here (rw d.pcbs (k.unset s.running))
    | inr other ↦ rw other (rw d.pcbs (k.unset a))
  ]

  apart_then :
      (j : ℕ)
      → j < s.pools.timer_item.size_max
      → count (block s.pools.timer_item j) (next ∷ [])
          + count (block s.pools.timer_item j) xs
          + count (block s.pools.timer_item j) (waiting ++ s.running ∷ [])
        ≡ 0
  apart_then j h =
      let a = block s.pools.timer_item j in
      let o = k.apart j h in omega (arith, count-append a waiting (s.running ∷ []))

  pub asleep-IsScheduled : IsScheduled resting xs (waiting ++ s.running ∷ []) timers_then free
  asleep-IsScheduled = record {
    running_some = Fall.next_some s next xs waiting ts i free k;
    alone =
        let u = (Fall.detach_ok s next xs waiting ts i free k t s1 d).1.unlinked in
        (ap (λ c. c.prev) u, ap (λ c. c.next) u);
    ready_is = (Fall.detach_ok s next xs waiting ts i free k t s1 d).1.list;
    waiting_is = IsList-frame (Fall.append_ok s next xs waiting ts i free k t s1 d).1.list λ a h.
        (Fall.detach_ok s next xs waiting ts i free k t s1 d).1.same a (
          not-has_of_count a (next ∷ xs) (
            let c = count_of_has a (waiting ++ s.running ∷ []) h in
            let o = once_then a in omega arith));
    timers_are = IsList-frame d.list λ a h.
        let c = count_of_has a timers_then h in
        let o = once_then a in
        (Fall.detach_ok s next xs waiting ts i free k t s1 d).1.same a
          (not-has_of_count a (next ∷ xs) (omega arith))
        ∙ (Fall.append_ok s next xs waiting ts i free k t s1 d).1.same a (
            not-has_of_count a (s.running ∷ waiting)
              (omega (arith, count-append a waiting (s.running ∷ []))));
    sorted = d.sorted;
    once = once_then;
    waits = waits_then;
    unset = unset_then;
    pool = rw d.pool (handed-IsPool s.pools.timer_item i free k.pool).pool;
    placed = rw d.pool (record {
      item_pos = k.placed.item_pos;
      buffer_pos = k.placed.buffer_pos;
      small = k.placed.small;
      space = k.placed.space;
    });
    taken = rw d.pool taken_then;
    apart = rw d.pool apart_then;
  }
