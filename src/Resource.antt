-- ===== src/Resource.antt =====
-- disastrOS_resource.c, its first section: resources.
pub mod QueueObject
use disastr_os_queues.Base.{ℕ, ℤ, eq_ℤ, ◌*◌, ◌+◌, if◌then◌else◌}
use disastr_os_queues.LinkedList
use disastr_os_queues.LinkedList.{Ptr, null, is_null}
use disastr_os_queues.PoolAllocator.{PoolAllocatorResult, sizeof_int}
use disastr_os_queues.Kernel.{
  System, resources_pool, ListRef, Cmd, pure, ◌>>=◌, ◌>>◌, assert, get_resource, set_resource,
  clear_item, get_block, release_block, search_list, init_pool, max_num_resources,
}

unfoldable pub resource_init : (resource_size : ℕ) → Ptr → Cmd (Unit {0})
resource_init size buffer =
    init_pool resources_pool size max_num_resources buffer (max_num_resources * (size + sizeof_int))

-- The field `value` is not written: it is what the block held.
unfoldable pub resource_alloc : ℤ → ℤ → Cmd Ptr
resource_alloc id type = do
  r ← get_block resources_pool
  if is_null r then pure null else do
    clear_item r
    set_resource r λ c. record c { id = id; type = type; descriptors_ptrs = LinkedList.init }
    pure r

unfoldable pub resource_free : Ptr → Cmd PoolAllocatorResult
resource_free r = do
  c ← get_resource r
  assert (is_null c.descriptors_ptrs.first)
  assert (is_null c.descriptors_ptrs.last)
  release_block resources_pool r

unfoldable pub resource_by_id : ℕ → ListRef → ℤ → Cmd Ptr
resource_by_id rounds l id = search_list rounds (λ s aux. eq_ℤ (s.resources aux).id id) l
