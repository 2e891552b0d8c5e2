-- ===== src/Schedule/Plan.antt =====
-- What the scheduler promises, without lists in memory: who runs, who is ready, who waits, and the
-- alarms in the order of their times. The functions stand for internal_schedule, timerInterrupt and
-- internal_sleep.
use disastr_os_queues.Base.{ℤ, incr, ltb_ℤ, ◌+ℤ◌, List, [], ◌∷◌, ◌++◌, if◌then◌else◌, remove}
use disastr_os_queues.LinkedList.{Ptr, null}

pub record Alarm : Type 0 where
  pub due : ℤ
  pub process : Ptr

pub record Plan : Type 0 where
  pub running : Ptr
  pub ready : List Ptr
  pub waiting : List Ptr
  pub alarms : List Alarm
  pub now : ℤ

-- The processes whose alarms have gone off, and the alarms that have not.
unfoldable pub woken_by : ℤ → List Alarm → List Ptr
woken_by now [] = []
woken_by now (a ∷ rest) = if ltb_ℤ now a.due then [] else a.process ∷ woken_by now rest

unfoldable pub pending : ℤ → List Alarm → List Alarm
pending now [] = []
pending now (a ∷ rest) = if ltb_ℤ now a.due then a ∷ rest else pending now rest

unfoldable pub remove_all : List Ptr → List Ptr → List Ptr
remove_all [] xs = xs
remove_all (y ∷ ys) xs = remove_all ys (remove y xs)

-- The woken processes come before those that were ready.
unfoldable pub wake : Plan → Plan
wake p =
    let woken = woken_by p.now p.alarms in
    record p {
      ready = woken ++ p.ready;
      waiting = remove_all woken p.waiting;
      alarms = pending p.now p.alarms;
    }

unfoldable pub turn_to : List Ptr → Plan → Plan
turn_to [] p = p
turn_to (next ∷ rest) p = record p { running = next; ready = rest ++ p.running ∷ [] }

-- One turn of the round robin.
unfoldable pub turn : Plan → Plan
unfolding turn_to
turn p = turn_to p.ready p

unfoldable pub schedule : Plan → Plan
schedule p = turn (wake p)

unfoldable pub tick : Plan → Plan
tick p = schedule (record p { now = incr p.now })

-- Behind the alarms that are due no later.
unfoldable pub set_alarm : Alarm → List Alarm → List Alarm
set_alarm a [] = a ∷ []
set_alarm a (b ∷ rest) = if ltb_ℤ a.due b.due then a ∷ b ∷ rest else b ∷ set_alarm a rest

unfoldable pub sleep_to : List Ptr → ℤ → Plan → Plan
sleep_to [] cycles p = record p {
  running = null;
  waiting = p.waiting ++ p.running ∷ [];
  alarms = set_alarm (record { due = p.now +ℤ cycles; process = p.running }) p.alarms;
}
sleep_to (next ∷ rest) cycles p = record p {
  running = next;
  ready = rest;
  waiting = p.waiting ++ p.running ∷ [];
  alarms = set_alarm (record { due = p.now +ℤ cycles; process = p.running }) p.alarms;
}

-- The running process sleeps, and the first ready one runs; without a ready process none does.
unfoldable pub sleep : ℤ → Plan → Plan
unfolding sleep_to
sleep cycles p = sleep_to p.ready cycles p
