-- ===== src/Schedule/Sleep.antt =====
-- disastrOS_sleep.c: internal_sleep and the plan.
mod Alarms
mod Fall
mod Asleep
use mathlib.Core.Path.{subst, subst₂}
use disastr_os_queues.Base.{
  ℕ, ℤ, ◌+ℤ◌, ◌<◌, ◌≡◌, refl, true, false, List, [], ◌∷◌, ◌++◌, map, length, ap, sym, ◌∙◌, has,
  arith, if◌then◌else◌,
}
use disastr_os_queues.LinkedList.{Ptr, null, is_null}
use disastr_os_queues.PoolAllocator.Free.{block}
use disastr_os_queues.Timer.{timer_list_add}
use disastr_os_queues.Timer.Order.{Added, timer_list_add-Added}
use disastr_os_queues.Schedule.{internal_sleep, fall_asleep}
use disastr_os_queues.Schedule.Plan.{Plan, sleep, sleep_to}
use disastr_os_queues.Schedule.Invariant.{IsScheduled, alarm}
use disastr_os_queues.Schedule.Refine.{Represents, few_timers}
use disastr_os_queues.Schedule.Sleep.Alarms.{alarm_added}
use disastr_os_queues.Schedule.Sleep.Fall.{runs, new-not-timer, next_some}
use disastr_os_queues.Schedule.Sleep.Asleep.{asleep-IsScheduled, timers_then, resting}
use disastr_os_queues.Kernel.{
  System, Arg, int, timer_list, Ends, Ends-and_then, ok, retvalue, esleep,
}

module _ (s : System) (p : Plan) (next : Ptr) (xs ts : List Ptr) (i : ℕ) (free : List ℕ)
    (k : IsScheduled s (next ∷ xs) p.waiting ts (i ∷ free)) (running : s.running ≡ p.running)
    (ready : p.ready ≡ next ∷ xs) (alarms : map (alarm s.timers) ts ≡ p.alarms)
    (now : s.time ≡ p.now) (cycles : ℤ) where
  fall_asleep-Represents :
      (s1 : System)
      → Added s (s.time +ℤ cycles) s.running i ts s1
      → Ends (λ _ t. Represents t (sleep cycles p)) (fall_asleep s.running s1)
  unfolding sleep sleep_to
  fall_asleep-Represents s1 d =
      rw (runs s next xs p.waiting ts i free k (s.time +ℤ cycles) s1 d, ready)
        (record {
          timers = timers_then s next xs p.waiting ts i free k (s.time +ℤ cycles) s1 d;
          free = free;
          state =
              subst
                (λ r.
                  IsScheduled (resting s next xs p.waiting ts i free k (s.time +ℤ cycles) s1 d) xs
                    (p.waiting ++ r ∷ [])
                    (timers_then s next xs p.waiting ts i free k (s.time +ℤ cycles) s1 d) free)
                running
                (asleep-IsScheduled s next xs p.waiting ts i free k (s.time +ℤ cycles) s1 d);
          running = refl;
          alarms =
              rw (sym now, sym running, sym alarms)
                (alarm_added s.timers s1.timers (s.time +ℤ cycles) s.running
                  (block s.pools.timer_item i) d.item ts d.others);
          now = d.time ∙ now;
        })

  -- The call.
  internal_sleep-next :
      (rounds : ℕ)
      → length ts < rounds
      → (s.pcbs s.running).syscall_args 0 ≡ int cycles
      → Ends (λ _ t. Represents t (sleep cycles p)) (internal_sleep rounds s)
  unfolding internal_sleep
  internal_sleep-next rounds fuel arg_is =
      let new = block s.pools.timer_item i in
      let new_some : is_null new ≡ false = let h = k.placed.buffer_pos in ground arith in
      rw (k.running_some, k.unset s.running, k.running_some, arg_is)
        (Ends-and_then (λ r s1. (r ≡ new) × Added s (s.time +ℤ cycles) s.running i ts s1)
          (λ _ t. Represents t (sleep cycles p))
          (timer_list_add rounds timer_list (s.time +ℤ cycles) s.running s)
          (λ r. if is_null r then retvalue esleep else fall_asleep s.running)
          (timer_list_add-Added s rounds (s.time +ℤ cycles) s.running ts i free k.timers_are
            k.sorted fuel k.pool k.placed (new-not-timer s next xs p.waiting ts i free k))
          λ r s1 (e, d). rw (e, new_some) (fall_asleep-Represents s1 d))

-- With a ready process and a free timer block, `internal_sleep` on a state that represents a plan
-- ends, given more rounds than there are alarms, in a state that represents the plan after
-- `sleep`: the running process waits for an alarm after the given number of ticks, and the first
-- ready process runs.
pub internal_sleep-Represents :
    (s : System) (p : Plan) (next : Ptr) (xs : List Ptr) (i : ℕ) (free : List ℕ)
    (k : Represents s p)
    → p.ready ≡ next ∷ xs
    → k.free ≡ i ∷ free
    → (rounds : ℕ) → length p.alarms < rounds
    → (cycles : ℤ) → (s.pcbs s.running).syscall_args 0 ≡ int cycles
    → Ends (λ _ t. Represents t (sleep cycles p)) (internal_sleep rounds s)
internal_sleep-Represents s p next xs i free k ready some_free rounds fuel cycles arg_is =
    internal_sleep-next s p next xs k.timers i free
      (subst₂ (λ r f. IsScheduled s r p.waiting k.timers f) ready some_free k.state) k.running ready
      k.alarms k.now cycles rounds (few_timers s p k rounds fuel) arg_is
