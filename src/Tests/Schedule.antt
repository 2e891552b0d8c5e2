-- ===== src/Tests/Schedule.antt =====
-- A state of the scheduler: process 100 runs, 200 and 300 are ready, and 400 and 500 wait for the
-- timers 4000 and 4040.
use disastr_os_queues.Base.{
  ℕ, ◌+◌, ◌*◌, ◌≤◌, ◌<◌, ◌≡◌, refl, true, List, [], ◌∷◌, ◌++◌, arith, pos, ◌==◌, if◌then◌else◌, one,
  count, has, Bool-cases, inl, inr, ==_iff, sym,
}
use disastr_os_queues.LinkedList.{Items, Ptr}
use disastr_os_queues.Timer.Order.{Timers}
use disastr_os_queues.Schedule.{wake_elapsed, internal_sleep}
use disastr_os_queues.Schedule.Plan.{Plan, sleep}
use disastr_os_queues.LinkedList.Chain.{last_or}
use disastr_os_queues.LinkedList.{null}
use disastr_os_queues.PoolAllocator.Taken.{IsTaken}
use disastr_os_queues.Schedule.Invariant.{IsScheduled}
use disastr_os_queues.Schedule.Wake.{Woke, wake_elapsed-Woke}
use disastr_os_queues.Schedule.Refine.{Represents}
use disastr_os_queues.Schedule.Sleep.{internal_sleep-Represents}
use disastr_os_queues.Schedule.Runs.{Event, ticked, preempted, run, follow, run-Represents}
use disastr_os_queues.Schedule.Fair.Sleepers.{ticks, run_sleeper}
use disastr_os_queues.Schedule.Fair.{run_fair}
use disastr_os_queues.Tests.{
  sample, sample_items, list_of, timer_pool, timer_pool-IsPool, timer_pool-IsPlaced,
}
use disastr_os_queues.Kernel.{System, Ends}

abbrev timed_items : Items
timed_items p =
    if p == 400
    then record { prev = 0; next = 500 }
    else if p == 500
    then record { prev = 400; next = 0 }
    else sample_items p

abbrev timed_timers : Timers
timed_timers p =
    if p == 4000
    then record { awakening_time = pos 5; pcb = 400 }
    else record { awakening_time = pos 9; pcb = 500 }

abbrev timed : System
timed = record sample {
  items = timed_items;
  timers = timed_timers;
  waiting_list = list_of 400 500 2;
}

timed_once :
    (a : ℕ)
    → count a (100 ∷ [])
        + count a (200 ∷ 300 ∷ [])
        + count a (400 ∷ 500 ∷ [])
        + count a (4000 ∷ 4040 ∷ [])
      ≤ 1
unfolding one
timed_once a = ground arith

pub timed_taken : (t : Ptr) → has t (4000 ∷ 4040 ∷ []) ≡ true → IsTaken timer_pool (2 ∷ 3 ∷ []) t
timed_taken t h = elim (Bool-cases (4000 == t)) [
  | inl e ↦ record {
    number = 0;
    here = sym ((==_iff 4000 t).0 e);
    in_range = omega arith;
    busy = refl;
  }
  | inr ne ↦ record { number = 1; here = ground arith; in_range = omega arith; busy = refl }
]

timed_apart :
    (i : ℕ)
    → i < 4
    → count (4000 + i * 40) (100 ∷ [])
        + count (4000 + i * 40) (200 ∷ 300 ∷ [])
        + count (4000 + i * 40) (400 ∷ 500 ∷ [])
      ≡ 0
unfolding one
timed_apart i h = ground arith

timed-IsScheduled :
    IsScheduled timed (200 ∷ 300 ∷ []) (400 ∷ 500 ∷ []) (4000 ∷ 4040 ∷ []) (2 ∷ 3 ∷ [])
timed-IsScheduled = record {
  running_some = refl;
  alone = (refl, refl);
  ready_is = record {
    first = refl;
    last = refl;
    size = refl;
    linked = (refl, refl, (refl, refl, tt));
    non_null = refl;
    distinct = (refl, (refl, tt));
  };
  waiting_is = record {
    first = refl;
    last = refl;
    size = refl;
    linked = (refl, refl, (refl, refl, tt));
    non_null = refl;
    distinct = (refl, (refl, tt));
  };
  timers_are = record {
    first = refl;
    last = refl;
    size = refl;
    linked = (refl, refl, (refl, refl, tt));
    non_null = refl;
    distinct = (refl, (refl, tt));
  };
  sorted = (refl, (tt, tt));
  once = timed_once;
  waits = λ a. omega arith;
  unset = λ a. ground arith;
  pool = timer_pool-IsPool;
  placed = timer_pool-IsPlaced;
  taken = timed_taken;
  apart = timed_apart;
}

abbrev timed_plan : Plan
timed_plan = record {
  running = 100;
  ready = 200 ∷ 300 ∷ [];
  waiting = 400 ∷ 500 ∷ [];
  alarms = record { due = pos 5; process = 400 } ∷ record { due = pos 9; process = 500 } ∷ [];
  now = pos 6;
}

timed-Represents : Represents timed timed_plan
timed-Represents = record {
  timers = 4000 ∷ 4040 ∷ [];
  free = 2 ∷ 3 ∷ [];
  state = timed-IsScheduled;
  running = refl;
  alarms = refl;
  now = refl;
}

wake_elapsed-Woke_example :
    Ends
      (λ _ t. Woke timed (200 ∷ []) (300 ∷ []) (400 ∷ 500 ∷ []) (4000 ∷ 4040 ∷ []) (2 ∷ 3 ∷ []) t)
      (wake_elapsed 3 (last_or null (200 ∷ [])) timed)
wake_elapsed-Woke_example =
    wake_elapsed-Woke 3 timed (200 ∷ []) (300 ∷ []) (400 ∷ 500 ∷ []) (4000 ∷ 4040 ∷ []) (2 ∷ 3 ∷ [])
      timed-IsScheduled (omega arith)

abbrev events : List Event
events = ticked ∷ preempted ∷ ticked ∷ ticked ∷ []

run-Represents_example : Ends (λ _ t. Represents t (follow events timed_plan)) (run 3 events timed)
run-Represents_example = run-Represents events timed timed_plan timed-Represents 3 (omega arith)

run_fair_example :
    (front back : List Event) × (events ≡ front ++ back)
    × Ends (λ _ t. t.running ≡ 300) (run 3 front timed)
run_fair_example =
    run_fair events timed timed_plan (200 ∷ []) [] 300 timed-Represents refl (omega arith) 3
      (omega arith)

internal_sleep-Represents_example :
    Ends (λ _ t. Represents t (sleep (pos 77) timed_plan)) (internal_sleep 3 timed)
unfolding timed-Represents
internal_sleep-Represents_example =
    internal_sleep-Represents timed timed_plan 200 (300 ∷ []) 2 (3 ∷ []) timed-Represents refl refl
      3 (omega arith) (pos 77) refl

abbrev eight_ticks : List Event
eight_ticks = ticked ∷ ticked ∷ ticked ∷ ticked ∷ ticked ∷ ticked ∷ ticked ∷ ticked ∷ []

run_sleeper_example :
    (front back : List Event) × (eight_ticks ≡ front ++ back)
    × Ends (λ _ t. t.running ≡ 500) (run 3 front timed)
unfolding ticks
run_sleeper_example =
    run_sleeper eight_ticks timed timed_plan 3 (record { due = pos 9; process = 500 })
      (record { due = pos 5; process = 400 } ∷ []) [] timed-Represents refl refl (omega arith) 3
      (omega arith)
