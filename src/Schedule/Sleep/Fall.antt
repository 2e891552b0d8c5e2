-- ===== src/Schedule/Sleep/Fall.antt =====
-- internal_sleep after its timer was set.
use mathlib.Core.Path.{subst}
use disastr_os_queues.Base.{
  ℕ, ℤ, ◌+◌, ◌≤◌, ◌<◌, ◌≡◌, refl, true, false, List, [], ◌∷◌, ◌++◌, arith, has, ap, ◌∙◌, ◌==◌,
  update, if◌then◌else◌, count, one, one_self, count_of_has, not-has_of_count, count_of_not_has,
  Bool-cases, inl, inr, ==_iff,
}
use disastr_os_queues.LinkedList
use disastr_os_queues.LinkedList.{Ptr, null, is_null}
use disastr_os_queues.LinkedList.Chain.{IsList, IsList-frame, last_or}
use disastr_os_queues.LinkedList.Insert.{Inserted}
use disastr_os_queues.LinkedList.Detach.{Detached}
use disastr_os_queues.PoolAllocator.Free.{block}
use disastr_os_queues.Timer.Order.{Added}
use disastr_os_queues.Schedule.{fall_asleep}
use disastr_os_queues.Schedule.Invariant.{IsScheduled, Disjoint-count}
use disastr_os_queues.Schedule.Sleep.Alarms.{block-ne}
use disastr_os_queues.Kernel.{
  System, ProcessStatus, ready_list, waiting_list, get_head, ok, list_append, list_detach, modify,
  ◌>>=◌,
}
use disastr_os_queues.Kernel.Lists.{after, list_append_ok, list_detach_ok}

module _ (s : System) (next : Ptr) (xs waiting ts : List Ptr) (i : ℕ) (free : List ℕ)
    (k : IsScheduled s (next ∷ xs) waiting ts (i ∷ free)) where
  abbrev pub new : Ptr
  new = block s.pools.timer_item i

  pub next_some : is_null next ≡ false
  next_some = let h = k.ready_is.non_null in ground arith

  pub in_range : i < s.pools.timer_item.size_max
  in_range = k.pool.chain.1

  pub new-not-timer : has new ts ≡ false
  new-not-timer = elim (Bool-cases (has new ts)) [
    | inl h ↦
        let b = k.taken new h in
        let ne : (i == b.number) ≡ false = let busy = b.busy in ground arith in
        let no =
          block-ne s.pools.timer_item.buffer s.pools.timer_item.item_size i b.number
            k.placed.item_pos ne in
        let no' : (new == new) ≡ false = ap (λ x. new == x) b.here ∙ no in
        let yes' = (==_iff new new).1 refl in cc
    | inr out ↦ out
  ]

  pub apart_new :
      count new (s.running ∷ []) + count new (next ∷ xs) + count new waiting + count new ts ≡ 0
  apart_new =
      let a = k.apart i in_range in let b = count_of_not_has new ts new-not-timer in omega arith

  -- Every address stands in one place, the new timer included.
  pub once_new :
      (a : Ptr)
      → one new a + (count a (s.running ∷ []) + count a (next ∷ xs) + count a waiting + count a ts)
        ≤ 1
  unfolding one
  once_new a = elim (Bool-cases (new == a)) [
    | inl here ↦
        let same : new ≡ a = (==_iff new a).0 here in
        rw here (
          subst
            (λ b.
              1 + (count b (s.running ∷ []) + count b (next ∷ xs) + count b waiting + count b ts)
              ≤ 1)
            same (omega (arith, apart_new)))
    | inr other ↦ let o = k.once a in rw other (omega arith)
  ]

  module _ (t : ℤ) (s1 : System) (d : Added s t s.running i ts s1) where
    pub kept :
        (a : Ptr)
        → 1 ≤ count a (s.running ∷ []) + count a (next ∷ xs) + count a waiting
        → s1.items a ≡ s.items a
    kept a h = d.same a (not-has_of_count a (new ∷ ts) (let o = once_new a in omega arith))

    pub waiting_now : IsList s1.items s1.waiting_list waiting
    waiting_now =
        rw d.waiting (
          IsList-frame k.waiting_is λ a h. kept a (let c = count_of_has a waiting h in omega arith))

    ready_now : IsList s1.items s1.ready_list (next ∷ xs)
    ready_now = rw d.ready (
        IsList-frame k.ready_is λ a h. kept a (let c = count_of_has a (next ∷ xs) h in omega arith))

    pub running_kept : s1.items s.running ≡ s.items s.running
    running_kept = kept s.running (let e = one_self s.running in omega arith)

    running_out : has s.running waiting ≡ false
    running_out =
        not-has_of_count s.running waiting
          (let e = one_self s.running in let o = k.once s.running in omega arith)

    -- The states between the calls.
    abbrev marked : System
    marked = record s1 {
      pcbs =
          update s1.pcbs s.running (record (s1.pcbs s.running) { status = ProcessStatus.waiting });
    }

    abbrev pub waits : System
    waits =
        after waiting_list
          (LinkedList.insert s1.waiting_list s1.items (last_or null waiting) s.running) marked

    abbrev detached : System
    detached = after ready_list (LinkedList.detach s1.ready_list waits.items next) waits

    abbrev pub asleep : System
    asleep = record detached { running = next }

    pub append_ok :
        (list_append waiting_list s.running marked ≡ ok s.running waits)
        × Inserted marked.items s.running waiting
            (waiting ++ s.running ∷ [])
            (LinkedList.insert s1.waiting_list s1.items (last_or null waiting) s.running)
    append_ok =
        list_append_ok waiting_list marked refl waiting s.running waiting_now k.running_some
          (ap (λ c. c.next) running_kept ∙ k.alone.1) (ap (λ c. c.prev) running_kept ∙ k.alone.0)
          running_out

    pub ready-waiting : (a : Ptr) → has a (next ∷ xs) ≡ true → has a (s.running ∷ waiting) ≡ false
    ready-waiting =
        Disjoint-count (next ∷ xs) (s.running ∷ waiting) λ a. let o = k.once a in omega arith

    pub detach_ok :
        (list_detach ready_list next waits ≡ ok next detached)
        × Detached waits.items next
            (next ∷ xs)
            xs
            (LinkedList.detach s1.ready_list waits.items next)
    detach_ok =
        list_detach_ok ready_list waits refl [] xs next
          (IsList-frame ready_now λ a h. append_ok.1.same a (ready-waiting a h)) next_some

    pub runs : fall_asleep s.running s1 ≡ ok tt asleep
    unfolding fall_asleep get_head
    runs =
        rw (k.running_some, append_ok.0)
          (ap
              (λ (x : Ptr).
                (if is_null x
                    then modify (λ t. record t { running = null })
                    else do y ← list_detach ready_list x; modify λ t. record t { running = y })
                  waits)
              ready_now.first
            ∙ rw (next_some, detach_ok.0))
