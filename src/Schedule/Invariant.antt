-- ===== src/Schedule/Invariant.antt =====
-- The state that the scheduler works on: every process in one place, every timer one of a waiting
-- process.
use disastr_os_queues.Base.{
  ℕ, ◌+◌, ◌≤◌, ◌<◌, ◌≡◌, true, false, List, [], ◌∷◌, map, arith, has, count, count_of_has,
  not-has_of_count,
}
use disastr_os_queues.LinkedList.{Ptr, is_null}
use disastr_os_queues.LinkedList.Chain.{IsList, Disjoint}
use disastr_os_queues.PoolAllocator.Free.{IsPool, IsPlaced, block}
use disastr_os_queues.PoolAllocator.Taken.{IsTaken}
use disastr_os_queues.Timer.Order.{Timers, IsSorted}
use disastr_os_queues.Schedule.Rotate.{IsUnlinked}
use disastr_os_queues.Schedule.Plan.{Alarm}
use disastr_os_queues.Kernel.{System}

-- The processes that the timers will wake.
abbrev pub owners : Timers → List Ptr → List Ptr
owners timers ts = map (λ t. (timers t).pcb) ts

abbrev pub alarm : Timers → Ptr → Alarm
alarm timers t = record { due = (timers t).awakening_time; process = (timers t).pcb }

pub record IsScheduled (s : System) (ready waiting timers : List Ptr) (free : List ℕ) : Type 0 where
  pub running_some : is_null s.running ≡ false
  pub alone : IsUnlinked s s.running
  pub ready_is : IsList s.items s.ready_list ready
  pub waiting_is : IsList s.items s.waiting_list waiting
  pub timers_are : IsList s.items s.timer_list timers
  pub sorted : IsSorted s.timers timers
  pub once :
      (a : Ptr) → count a (s.running ∷ []) + count a ready + count a waiting + count a timers ≤ 1
  pub waits : (a : Ptr) → count a (owners s.timers timers) ≤ count a waiting
  pub unset : (a : Ptr) → is_null (s.pcbs a).timer ≡ true
  pub pool : IsPool s.pools.timer_item free
  pub placed : IsPlaced s.pools.timer_item
  pub taken : (t : Ptr) → has t timers ≡ true → IsTaken s.pools.timer_item free t
  pub apart :
      (i : ℕ)
      → i < s.pools.timer_item.size_max
      → count (block s.pools.timer_item i) (s.running ∷ [])
          + count (block s.pools.timer_item i) ready
          + count (block s.pools.timer_item i) waiting
        ≡ 0

-- Lists whose counts add up to at most 1 have no common address.
pub Disjoint-count : (xs ys : List Ptr) → ((a : Ptr) → count a xs + count a ys ≤ 1) → Disjoint xs ys
Disjoint-count xs ys h a m =
    not-has_of_count a ys (let k = count_of_has a xs m in let b = h a in omega arith)
