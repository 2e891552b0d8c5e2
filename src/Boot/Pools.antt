-- ===== src/Boot/Pools.antt =====
-- The allocators after disastrOS_start.
use disastr_os_queues.Base.{◌+◌, ◌*◌, ◌^◌, ◌<◌, ◌≡◌, refl, arith}
use disastr_os_queues.Pcb.{pcb_init}
use disastr_os_queues.Timer.{timer_init}
use disastr_os_queues.Descriptor.{descriptor_init}
use disastr_os_queues.Resource.{resource_init}
use disastr_os_queues.Resource.QueueObject.{
  queue_init, queue_user_init, message_init, msg_string_init,
}
use disastr_os_queues.Boot.{Memory, init_pools}
use disastr_os_queues.Kernel.{System, Pools, PoolRef, ok, init_pool}
use disastr_os_queues.Kernel.Blocks.{whole, init_pool_ok}

-- The static buffers are smaller than 2 ^ 31 bytes.
pub record Small (m : Memory) : Type 0 where
  pub pcb : 1024 * (m.pcb.pcb_size + 4) < 2 ^ 31
  pub pcb_ptr : 1024 * (m.pcb.pcb_ptr_size + 4) < 2 ^ 31
  pub timer_item : 1024 * (m.timer_item_size + 4) < 2 ^ 31
  pub resources : 1024 * (m.resource_size + 4) < 2 ^ 31
  pub queues : 256 * (m.queue_size + 4) < 2 ^ 31
  pub queue_users : 1024 * (m.queue_user_size + 4) < 2 ^ 31
  pub message : 32768 * (m.message_size + 4) < 2 ^ 31
  pub descriptor : 32768 * (m.descriptor.descriptor_size + 4) < 2 ^ 31
  pub descriptor_ptr : 32768 * (m.descriptor.descriptor_ptr_size + 4) < 2 ^ 31

-- The allocators, one after the other.
abbrev pub booted : Memory → Pools → Pools
booted m k = record {
  pcb = whole k.pcb m.pcb.pcb_size 1024 m.pcb.pcb_buffer (1024 * (m.pcb.pcb_size + 4));
  pcb_ptr =
      whole k.pcb_ptr m.pcb.pcb_ptr_size 1024 m.pcb.pcb_ptr_buffer
        (1024 * (m.pcb.pcb_ptr_size + 4));
  timer_item =
      whole k.timer_item m.timer_item_size 1024 m.timer_item_buffer
        (1024 * (m.timer_item_size + 4));
  resources =
      whole k.resources m.resource_size 1024 m.resource_buffer (1024 * (m.resource_size + 4));
  queues = whole k.queues m.queue_size 256 m.queue_buffer (256 * (m.queue_size + 4));
  msg_strings = whole k.msg_strings 128 32768 m.msg_string_buffer (32768 * (128 + 4));
  queue_users =
      whole k.queue_users m.queue_user_size 1024 m.queue_user_buffer
        (1024 * (m.queue_user_size + 4));
  message = whole k.message m.message_size 32768 m.message_buffer (32768 * (m.message_size + 4));
  descriptor =
      whole k.descriptor m.descriptor.descriptor_size 1024 m.descriptor.descriptor_buffer
        (32768 * (m.descriptor.descriptor_size + 4));
  descriptor_ptr =
      whole k.descriptor_ptr m.descriptor.descriptor_ptr_size 1024
        m.descriptor.descriptor_ptr_buffer (32768 * (m.descriptor.descriptor_ptr_size + 4));
}

module _ (m : Memory) (small : Small m) (s : System) where
  -- The states between the calls.
  abbrev p1 : System
  p1 = record s { pools = record s.pools { pcb = (booted m s.pools).pcb } }

  abbrev p2 : System
  p2 = record s { pools = record p1.pools { pcb_ptr = (booted m s.pools).pcb_ptr } }

  abbrev p3 : System
  p3 = record s { pools = record p2.pools { timer_item = (booted m s.pools).timer_item } }

  abbrev p4 : System
  p4 = record s { pools = record p3.pools { resources = (booted m s.pools).resources } }

  abbrev p5 : System
  p5 = record s { pools = record p4.pools { queues = (booted m s.pools).queues } }

  abbrev p6 : System
  p6 = record s { pools = record p5.pools { queue_users = (booted m s.pools).queue_users } }

  abbrev p7 : System
  p7 = record s { pools = record p6.pools { message = (booted m s.pools).message } }

  abbrev p8 : System
  p8 = record s { pools = record p7.pools { descriptor = (booted m s.pools).descriptor } }

  abbrev p9 : System
  p9 = record s { pools = record p8.pools { descriptor_ptr = (booted m s.pools).descriptor_ptr } }

  abbrev p10 : System
  p10 = record s { pools = record p9.pools { msg_strings = (booted m s.pools).msg_strings } }

  pcb_ok :
      init_pool PoolRef.pcb_pool
        (m.pcb.pcb_size)
        (1024)
        (m.pcb.pcb_buffer)
        (1024 * (m.pcb.pcb_size + 4))
        s
      ≡ ok tt p1
  pcb_ok =
      init_pool_ok PoolRef.pcb_pool s (m.pcb.pcb_size) (1024) (m.pcb.pcb_buffer)
        (1024 * (m.pcb.pcb_size + 4)) (omega arith) (omega arith) small.pcb

  pcb_ptr_ok :
      init_pool PoolRef.pcb_ptr_pool
        (m.pcb.pcb_ptr_size)
        (1024)
        (m.pcb.pcb_ptr_buffer)
        (1024 * (m.pcb.pcb_ptr_size + 4))
        p1
      ≡ ok tt p2
  pcb_ptr_ok =
      init_pool_ok PoolRef.pcb_ptr_pool p1 (m.pcb.pcb_ptr_size) (1024) (m.pcb.pcb_ptr_buffer)
        (1024 * (m.pcb.pcb_ptr_size + 4)) (omega arith) (omega arith) small.pcb_ptr

  timer_item_ok :
      init_pool PoolRef.timer_item_pool
        (m.timer_item_size)
        (1024)
        (m.timer_item_buffer)
        (1024 * (m.timer_item_size + 4))
        p2
      ≡ ok tt p3
  timer_item_ok =
      init_pool_ok PoolRef.timer_item_pool p2 (m.timer_item_size) (1024) (m.timer_item_buffer)
        (1024 * (m.timer_item_size + 4)) (omega arith) (omega arith) small.timer_item

  resources_ok :
      init_pool PoolRef.resources_pool
        (m.resource_size)
        (1024)
        (m.resource_buffer)
        (1024 * (m.resource_size + 4))
        p3
      ≡ ok tt p4
  resources_ok =
      init_pool_ok PoolRef.resources_pool p3 (m.resource_size) (1024) (m.resource_buffer)
        (1024 * (m.resource_size + 4)) (omega arith) (omega arith) small.resources

  queues_ok :
      init_pool PoolRef.queues_pool
        (m.queue_size)
        (256)
        (m.queue_buffer)
        (256 * (m.queue_size + 4))
        p4
      ≡ ok tt p5
  queues_ok =
      init_pool_ok PoolRef.queues_pool p4 (m.queue_size) (256) (m.queue_buffer)
        (256 * (m.queue_size + 4)) (omega arith) (omega arith) small.queues

  queue_users_ok :
      init_pool PoolRef.queue_users_pool
        (m.queue_user_size)
        (1024)
        (m.queue_user_buffer)
        (1024 * (m.queue_user_size + 4))
        p5
      ≡ ok tt p6
  queue_users_ok =
      init_pool_ok PoolRef.queue_users_pool p5 (m.queue_user_size) (1024) (m.queue_user_buffer)
        (1024 * (m.queue_user_size + 4)) (omega arith) (omega arith) small.queue_users

  message_ok :
      init_pool PoolRef.message_pool
        (m.message_size)
        (32768)
        (m.message_buffer)
        (32768 * (m.message_size + 4))
        p6
      ≡ ok tt p7
  message_ok =
      init_pool_ok PoolRef.message_pool p6 (m.message_size) (32768) (m.message_buffer)
        (32768 * (m.message_size + 4)) (omega arith) (omega arith) small.message

  descriptor_ok :
      init_pool PoolRef.descriptor_pool
        (m.descriptor.descriptor_size)
        (1024)
        (m.descriptor.descriptor_buffer)
        (32768 * (m.descriptor.descriptor_size + 4))
        p7
      ≡ ok tt p8
  descriptor_ok =
      init_pool_ok PoolRef.descriptor_pool p7 (m.descriptor.descriptor_size) (1024)
        (m.descriptor.descriptor_buffer) (32768 * (m.descriptor.descriptor_size + 4)) (omega arith)
        (omega arith) small.descriptor

  descriptor_ptr_ok :
      init_pool PoolRef.descriptor_ptr_pool
        (m.descriptor.descriptor_ptr_size)
        (1024)
        (m.descriptor.descriptor_ptr_buffer)
        (32768 * (m.descriptor.descriptor_ptr_size + 4))
        p8
      ≡ ok tt p9
  descriptor_ptr_ok =
      init_pool_ok PoolRef.descriptor_ptr_pool p8 (m.descriptor.descriptor_ptr_size) (1024)
        (m.descriptor.descriptor_ptr_buffer) (32768 * (m.descriptor.descriptor_ptr_size + 4))
        (omega arith) (omega arith) small.descriptor_ptr

  msg_strings_ok :
      init_pool PoolRef.msg_strings_pool (128) (32768) (m.msg_string_buffer) (32768 * (128 + 4)) p9
      ≡ ok tt p10
  msg_strings_ok =
      init_pool_ok PoolRef.msg_strings_pool p9 (128) (32768) (m.msg_string_buffer)
        (32768 * (128 + 4)) (omega arith) (omega arith) (omega arith)

  -- Every allocator gets all its blocks.
  pub init_pools_ok : init_pools m s ≡ ok tt (record s { pools = booted m s.pools })
  unfolding init_pools pcb_init timer_init resource_init queue_init queue_user_init message_init
      descriptor_init msg_string_init
  init_pools_ok =
      rw
        (
          pcb_ok, pcb_ptr_ok, timer_item_ok, resources_ok, queues_ok, queue_users_ok, message_ok,
          descriptor_ok, descriptor_ptr_ok, msg_strings_ok,
        )
        refl
