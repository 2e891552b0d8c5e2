-- ===== src/Pcb.antt =====
-- disastrOS_pcb.c: process control blocks and the list items that point to them.
use disastr_os_queues.Base.{ℕ, ℤ, pos, ◌*◌, ◌+◌, ◌-◌, ◌^◌, incr, eq_ℤ, update}
use disastr_os_queues.LinkedList
use disastr_os_queues.LinkedList.{Ptr, null}
use disastr_os_queues.PoolAllocator.{PoolAllocatorResult, sizeof_int}
use disastr_os_queues.Kernel.{
  ProcessStatus, ListRef, pcb_pool, pcb_ptr_pool, Cmd, pure, ◌>>=◌, ◌>>◌, get, modify, deref,
  set_pcb, clear_item, get_block, release_block, search_list, init_pool, max_num_processes,
}

-- The sizes of the two structures and the addresses of the two static buffers.
pub record PcbMemory : Type 0 where
  pub pcb_size : ℕ
  pub pcb_buffer : Ptr
  pub pcb_ptr_size : ℕ
  pub pcb_ptr_buffer : Ptr

unfoldable pub pcb_init : PcbMemory → Cmd (Unit {0})
pcb_init m = do
  init_pool pcb_pool m.pcb_size max_num_processes m.pcb_buffer
      (max_num_processes * (m.pcb_size + sizeof_int))
  init_pool pcb_ptr_pool m.pcb_ptr_size max_num_processes m.pcb_ptr_buffer
      (max_num_processes * (m.pcb_ptr_size + sizeof_int))

-- There is no test for null here: without a free block the first write is a fault.
-- What the block held in the other fields stays.
unfoldable pub pcb_alloc : Cmd Ptr
pcb_alloc = do
  pcb ← get_block pcb_pool
  s ← get
  set_pcb pcb λ c. record c {
    pid = s.last_pid;
    return_value = pos 0;
    status = ProcessStatus.invalid;
    last_fd = pos 0;
    signals = 0;
    signals_mask = 2 ^ 32 - 1;
    descriptors = LinkedList.init;
    parent = null;
    timer = null;
    children = LinkedList.init;
  }
  clear_item pcb
  modify λ t. record t { last_pid = incr t.last_pid }
  pure pcb

unfoldable pub pcb_free : Ptr → Cmd PoolAllocatorResult
pcb_free pcb = release_block pcb_pool pcb

unfoldable pub pcb_ptr_alloc : Ptr → Cmd Ptr
pcb_ptr_alloc pcb = do
  pcb_ptr ← get_block pcb_ptr_pool
  _ ← deref (λ s. s.pcb_ptrs) pcb_ptr
  clear_item pcb_ptr
  modify λ s. record s { pcb_ptrs = update s.pcb_ptrs pcb_ptr pcb }
  pure pcb_ptr

unfoldable pub pcb_ptr_free : Ptr → Cmd PoolAllocatorResult
pcb_ptr_free pcb_ptr = release_block pcb_ptr_pool pcb_ptr

unfoldable pub pcb_by_pid : ℕ → ListRef → ℤ → Cmd Ptr
pcb_by_pid rounds l pid = search_list rounds (λ s aux. eq_ℤ (s.pcbs aux).pid pid) l

unfoldable pub pcb_ptr_by_pid : ℕ → ListRef → ℤ → Cmd Ptr
pcb_ptr_by_pid rounds l pid = search_list rounds (λ s aux. eq_ℤ (s.pcbs (s.pcb_ptrs aux)).pid pid) l
