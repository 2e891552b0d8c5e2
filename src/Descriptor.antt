-- ===== src/Descriptor.antt =====
-- disastrOS_descriptor.c: descriptors, and the list items that point to them.
use disastr_os_queues.Base.{ℕ, ℤ, eq_ℤ, ◌*◌, ◌+◌, if◌then◌else◌, update}
use disastr_os_queues.LinkedList.{Ptr, null, is_null}
use disastr_os_queues.PoolAllocator.{PoolAllocatorResult, sizeof_int}
use disastr_os_queues.Kernel.{
  descriptor_pool, descriptor_ptr_pool, ListRef, Cmd, pure, ◌>>=◌, ◌>>◌, modify, set_descriptor,
  clear_item, get_block, release_block, search_list, init_pool, max_num_processes,
  max_num_descriptors_per_process,
}

pub record DescriptorMemory : Type 0 where
  pub descriptor_size : ℕ
  pub descriptor_buffer : Ptr
  pub descriptor_ptr_size : ℕ
  pub descriptor_ptr_buffer : Ptr

abbrev max_num_descriptors : ℕ
max_num_descriptors = max_num_descriptors_per_process * max_num_processes

-- The buffers have room for `max_num_descriptors` blocks, and `max_num_processes` are made of them.
unfoldable pub descriptor_init : DescriptorMemory → Cmd (Unit {0})
descriptor_init m = do
  init_pool descriptor_pool m.descriptor_size max_num_processes m.descriptor_buffer
      (max_num_descriptors * (m.descriptor_size + sizeof_int))
  init_pool descriptor_ptr_pool m.descriptor_ptr_size max_num_processes m.descriptor_ptr_buffer
      (max_num_descriptors * (m.descriptor_ptr_size + sizeof_int))

unfoldable pub descriptor_alloc : ℤ → Ptr → Ptr → Cmd Ptr
descriptor_alloc fd res pcb = do
  d ← get_block descriptor_pool
  if is_null d then pure null else do
    clear_item d
    set_descriptor d λ c. record c {
      fd = fd;
      resource = res;
      pcb = pcb;
      reader = null;
      writer = null;
      blocker = null;
    }
    pure d

unfoldable pub descriptor_free : Ptr → Cmd PoolAllocatorResult
descriptor_free d = release_block descriptor_pool d

unfoldable pub descriptor_by_fd : ℕ → ListRef → ℤ → Cmd Ptr
descriptor_by_fd rounds l fd = search_list rounds (λ s aux. eq_ℤ (s.descriptor_items aux).fd fd) l

unfoldable pub descriptor_ptr_alloc : Ptr → Cmd Ptr
descriptor_ptr_alloc descriptor = do
  d ← get_block descriptor_ptr_pool
  if is_null d then pure null else do
    clear_item d
    modify λ s. record s { descriptor_ptrs = update s.descriptor_ptrs d descriptor }
    pure d

unfoldable pub descriptor_ptr_free : Ptr → Cmd PoolAllocatorResult
descriptor_ptr_free d = release_block descriptor_ptr_pool d
