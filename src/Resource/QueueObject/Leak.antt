-- ===== src/Resource/QueueObject/Leak.antt =====
-- What Message_free gives back.
use disastr_os_queues.Base.{arith, ◌+◌, ◌≡◌, ◌≢◌, true, not}
use disastr_os_queues.LinkedList.{Ptr}
use disastr_os_queues.PoolAllocator.{PoolAllocatorResult, success}
use disastr_os_queues.PoolAllocator.Free.{IsPlaced}
use disastr_os_queues.PoolAllocator.Outside.{IsOutside, release_block_outside}
use disastr_os_queues.Resource.QueueObject.{message_free, message_offset}
use disastr_os_queues.Kernel.{System, ok, is_success, msg_strings_pool}
use disastr_os_queues.Kernel.Blocks.{release_block_ok}

not-success : (r : PoolAllocatorResult) → r ≢ success → not (is_success r) ≡ true
not-success r ne = ground arith

-- `Message_free` hands the address of the message's own pointer to the string allocator. Where the
-- messages lie outside the string buffer, it answers with an error and gives back neither the
-- string nor the message.
pub message_free_leaks :
    (s : System) (m : Ptr)
    → IsPlaced s.pools.msg_strings
    → IsOutside s.pools.msg_strings (m + message_offset)
    → message_free m s ≡ ok true s
unfolding message_free
message_free_leaks s m placed out =
    let (r, e, ne) = release_block_outside s.pools.msg_strings placed _ out in
    rw (release_block_ok msg_strings_pool s _ _ r e, not-success r ne)
