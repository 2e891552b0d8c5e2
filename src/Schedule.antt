-- ===== src/Schedule.antt =====
-- disastrOS_schedule.c, disastrOS_preempt.c, disastrOS_sleep.c and the timer interrupt of
-- disastrOS.c: who runs next.
pub mod Rotate
pub mod Plan
pub mod Invariant
pub mod Wake
pub mod Turn
pub mod Refine
pub mod Sleep
pub mod Runs
pub mod Fair
use disastr_os_queues.Base.{ℕ, zero, suc, ℤ, pos, incr, ◌+ℤ◌, Bool, not, if◌then◌else◌}
use disastr_os_queues.LinkedList.{Ptr, null, is_null}
use disastr_os_queues.Timer.{timer_list_add, timer_list_current, timer_list_remove_current}
use disastr_os_queues.Kernel.{
  System, ProcessStatus, ready_list, waiting_list, timer_list, Cmd, out_of_fuel, pure, ◌>>=◌, ◌>>◌,
  get, modify, get_pcb, set_pcb, int_arg, arg, retvalue, get_head, list_insert, list_append,
  list_detach, esleep,
}

-- The loop over the elapsed timers, with the process that was woken last.
unfoldable pub wake_elapsed : ℕ → Ptr → Cmd (Unit {0})
wake_elapsed zero previous_pcb = λ _. out_of_fuel
wake_elapsed (suc rounds) previous_pcb = do
  s ← get
  elapsed_timer ← timer_list_current timer_list s.time
  if is_null elapsed_timer then pure tt else do
    let pcb_to_wake = (s.timers elapsed_timer).pcb
    _ ← list_detach waiting_list pcb_to_wake
    set_pcb pcb_to_wake λ c. record c { status = ProcessStatus.ready; timer = null }
    _ ← list_insert ready_list previous_pcb pcb_to_wake
    _ ← timer_list_remove_current timer_list
    wake_elapsed rounds pcb_to_wake

-- The second half of `internal_schedule`: the first ready process takes the place of the running
-- one, which goes to the end of the ready list.
unfoldable pub rotate : Cmd (Unit {0})
rotate = do
  h ← get_head ready_list
  if is_null h.first then pure tt else do
    next_process ← list_detach ready_list h.first
    s ← get
    set_pcb s.running λ c. record c { status = ProcessStatus.ready }
    _ ← list_append ready_list s.running
    set_pcb next_process λ c. record c { status = ProcessStatus.running }
    modify λ t. record t { running = next_process }

unfoldable pub internal_schedule : ℕ → Cmd (Unit {0})
internal_schedule rounds = do wake_elapsed rounds null; rotate

unfoldable pub internal_preempt : ℕ → Cmd (Unit {0})
internal_preempt = internal_schedule

-- The clock tick. The contexts that it saves and resumes are those of `running`.
unfoldable timer_interrupt : ℕ → Cmd (Unit {0})
timer_interrupt rounds = do modify λ s. record s { time = incr s.time }; internal_schedule rounds

-- The end of `internal_sleep`, for the process `me` that has its timer.
unfoldable pub fall_asleep : Ptr → Cmd (Unit {0})
fall_asleep me = do
  set_pcb me λ c. record c { status = ProcessStatus.waiting }
  _ ← list_append waiting_list me
  h ← get_head ready_list
  if is_null h.first
      then modify (λ t. record t { running = null })
      else do next ← list_detach ready_list h.first; modify λ t. record t { running = next }

unfoldable pub internal_sleep : ℕ → Cmd (Unit {0})
unfolding fall_asleep
internal_sleep rounds = do
  s ← get
  me ← get_pcb s.running
  if not (is_null me.timer) then retvalue esleep else do
    a ← arg 0
    cycles_to_sleep ← int_arg a
    let wake_time = s.time +ℤ cycles_to_sleep
    new_timer ← timer_list_add rounds timer_list wake_time s.running
    if is_null new_timer then retvalue esleep else fall_asleep s.running
