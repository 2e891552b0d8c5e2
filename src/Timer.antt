-- ===== src/Timer.antt =====
-- disastrOS_timer.c: the list of timers, sorted by awakening time.
pub mod Order
use disastr_os_queues.Base.{
  ℕ, zero, suc, ℤ, pos, negsuc, ltb_ℤ, Option, none, some, not, ◌*◌, ◌+◌, if◌then◌else◌, update,
}
use disastr_os_queues.LinkedList
use disastr_os_queues.LinkedList.{Ptr, null, is_null, Items}
use disastr_os_queues.PoolAllocator.{PoolAllocatorResult, sizeof_int}
use disastr_os_queues.Kernel.{
  System, TimerItem, timer_item_pool, ListRef, set_head, Cmd, pure, ◌>>=◌, ◌>>◌, get, modify,
  with_fuel, clear_item, get_block, release_block, get_head, list_insert, list_detach, init_pool,
  max_num_processes,
}

unfoldable pub timer_init : (timer_item_size : ℕ) → Ptr → Cmd (Unit {0})
timer_init size buffer =
    init_pool timer_item_pool size max_num_processes buffer
      (max_num_processes * (size + sizeof_int))

unfoldable timer_item_alloc : ℤ → Ptr → Cmd Ptr
timer_item_alloc awakening_time pcb = do
  item ← get_block timer_item_pool
  if is_null item then pure null else do
    clear_item item
    modify λ s. record s {
      timers = update s.timers item (record { awakening_time = awakening_time; pcb = pcb });
    }
    pure item

unfoldable pub timer_item_free : Ptr → Cmd PoolAllocatorResult
timer_item_free item = release_block timer_item_pool item

unfoldable timer_list_init : ListRef → Cmd (Unit {0})
timer_list_init l = modify λ s. set_head l LinkedList.init s

-- The loop of `TimerList_add`: the last item that is due no later than the new one.
unfoldable pub previous_item : ℕ → (Ptr → TimerItem) → Items → ℤ → Ptr → Ptr → Option Ptr
previous_item zero timers items awakening_time aux previous = none
previous_item (suc rounds) timers items awakening_time aux previous =
    let rest = previous_item rounds timers items awakening_time (items aux).next aux in
    if is_null aux
    then some previous
    else if ltb_ℤ awakening_time (timers aux).awakening_time
    then some previous
    else rest

unfoldable pub timer_list_add : ℕ → ListRef → ℤ → Ptr → Cmd Ptr
unfolding previous_item timer_item_alloc
timer_list_add rounds l awakening_time pcb = do
  h ← get_head l
  s ← get
  previous ← with_fuel (previous_item rounds s.timers s.items awakening_time h.first null)
  new_item ← timer_item_alloc awakening_time pcb
  if is_null new_item then pure null else do _ ← list_insert l previous new_item; pure new_item

unfoldable pub timer_list_current : ListRef → ℤ → Cmd Ptr
timer_list_current l current_time = do
  h ← get_head l
  s ← get
  pure (
      if is_null h.first
      then null
      else if not (ltb_ℤ current_time (s.timers h.first).awakening_time)
      then h.first
      else null)

unfoldable pub timer_list_remove_current : ListRef → Cmd ℤ
unfolding timer_item_free
timer_list_remove_current l = do
  h ← get_head l
  item ← list_detach l h.first
  if is_null item then pure (negsuc 0) else do _ ← timer_item_free item; pure (pos 0)
