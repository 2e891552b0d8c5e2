-- ===== src/Kernel/Access.antt =====
-- Reading and writing objects, lists and pools.
use disastr_os_queues.Base.{ℕ, ℤ, pos, Bool, true, false, Option, none, some, if◌then◌else◌, update}
use disastr_os_queues.LinkedList
use disastr_os_queues.LinkedList.{Ptr, is_null, ListItem, ListHead}
use disastr_os_queues.PoolAllocator
use disastr_os_queues.PoolAllocator.{PoolAllocator, PoolAllocatorResult, success}
use disastr_os_queues.Kernel.State.{
  ListRef, ready_list, waiting_list, zombie_list, timer_list, resources_list, children, descriptors,
  descriptors_ptrs, messages, readers, writers, non_block, Pcb, Resource, QueueUser, Message, Queue,
  Descriptor, PoolRef, pcb_pool, pcb_ptr_pool, timer_item_pool, resources_pool, queues_pool,
  msg_strings_pool, queue_users_pool, message_pool, descriptor_pool, descriptor_ptr_pool, Pools,
  System, Arg, int, pointer,
}
use disastr_os_queues.Kernel.Run.{ok, fault, Cmd, pure, ◌>>=◌, get, modify, assert, with_fuel}

-- An object behind a pointer; a null pointer is a fault.
abbrev pub deref : {A : Type 0} → (System → Ptr → A) → Ptr → Cmd A
deref store p s = if is_null p then fault else ok (store s p) s

abbrev pub get_pcb : Ptr → Cmd Pcb
get_pcb = deref (λ s. s.pcbs)

abbrev pub get_queue : Ptr → Cmd Queue
get_queue = deref (λ s. s.queues)

abbrev pub get_resource : Ptr → Cmd Resource
get_resource = deref (λ s. s.resources)

abbrev pub get_descriptor : Ptr → Cmd Descriptor
get_descriptor = deref (λ s. s.descriptor_items)

abbrev pub get_message : Ptr → Cmd Message
get_message = deref (λ s. s.message_items)

abbrev pub set_pcb : Ptr → (Pcb → Pcb) → Cmd (Unit {0})
set_pcb p f s =
    if is_null p then fault else ok tt (record s { pcbs = update s.pcbs p (f (s.pcbs p)) })

abbrev pub set_queue : Ptr → (Queue → Queue) → Cmd (Unit {0})
set_queue p f s =
    if is_null p then fault else ok tt (record s { queues = update s.queues p (f (s.queues p)) })

abbrev pub set_resource : Ptr → (Resource → Resource) → Cmd (Unit {0})
set_resource p f s =
    if is_null p
    then fault
    else ok tt (record s { resources = update s.resources p (f (s.resources p)) })

abbrev pub set_descriptor : Ptr → (Descriptor → Descriptor) → Cmd (Unit {0})
set_descriptor p f s =
    if is_null p
    then fault
    else ok tt
        (record s { descriptor_items = update s.descriptor_items p (f (s.descriptor_items p)) })

abbrev pub set_queue_user : Ptr → (QueueUser → QueueUser) → Cmd (Unit {0})
set_queue_user p f s =
    if is_null p
    then fault
    else ok tt (record s { queue_users = update s.queue_users p (f (s.queue_users p)) })

abbrev pub set_message : Ptr → (Message → Message) → Cmd (Unit {0})
set_message p f s =
    if is_null p
    then fault
    else ok tt (record s { message_items = update s.message_items p (f (s.message_items p)) })

-- `item->prev = item->next = 0`
abbrev pub clear_item : Ptr → Cmd (Unit {0})
clear_item p = modify λ s. record s { items = update s.items p (record { prev = 0; next = 0 }) }

-- The object that a list is part of; the globals have none.
abbrev owner : ListRef → Option Ptr
owner (children p) = some p
owner (descriptors p) = some p
owner (descriptors_ptrs p) = some p
owner (messages p) = some p
owner (readers p) = some p
owner (writers p) = some p
owner (non_block p) = some p
owner _ = none

abbrev pub is_dangling : ListRef → Bool
is_dangling l = elim (owner l) [ none ↦ false | some p ↦ is_null p ]

abbrev pub head_of : ListRef → System → ListHead
head_of ready_list s = s.ready_list
head_of waiting_list s = s.waiting_list
head_of zombie_list s = s.zombie_list
head_of timer_list s = s.timer_list
head_of resources_list s = s.resources_list
head_of (children p) s = (s.pcbs p).children
head_of (descriptors p) s = (s.pcbs p).descriptors
head_of (descriptors_ptrs p) s = (s.resources p).descriptors_ptrs
head_of (messages p) s = (s.queues p).messages
head_of (readers p) s = (s.queues p).readers
head_of (writers p) s = (s.queues p).writers
head_of (non_block p) s = (s.queues p).non_block

abbrev pub set_head : ListRef → ListHead → System → System
set_head ready_list h s = record s { ready_list = h }
set_head waiting_list h s = record s { waiting_list = h }
set_head zombie_list h s = record s { zombie_list = h }
set_head timer_list h s = record s { timer_list = h }
set_head resources_list h s = record s { resources_list = h }
set_head (children p) h s = record s { pcbs = update s.pcbs p (record (s.pcbs p) { children = h }) }
set_head (descriptors p) h s = record s {
  pcbs = update s.pcbs p (record (s.pcbs p) { descriptors = h });
}
set_head (descriptors_ptrs p) h s = record s {
  resources = update s.resources p (record (s.resources p) { descriptors_ptrs = h });
}
set_head (messages p) h s = record s {
  queues = update s.queues p (record (s.queues p) { messages = h });
}
set_head (readers p) h s = record s {
  queues = update s.queues p (record (s.queues p) { readers = h });
}
set_head (writers p) h s = record s {
  queues = update s.queues p (record (s.queues p) { writers = h });
}
set_head (non_block p) h s = record s {
  queues = update s.queues p (record (s.queues p) { non_block = h });
}

-- The list functions on the state. A call that returns null has changed nothing and has not looked
-- at the head.
abbrev pub on_list :
    ListRef → (ListHead → LinkedList.Items → ListHead × LinkedList.Items × Ptr) → Cmd Ptr
on_list l f s =
    let r = f (head_of l s) s.items in
    if is_null r.2
    then ok r.2 s
    else if is_dangling l
    then fault
    else ok r.2 (set_head l r.0 (record s { items = r.1 }))

unfoldable pub get_head : ListRef → Cmd ListHead
get_head l s = if is_dangling l then fault else ok (head_of l s) s

unfoldable pub list_insert : ListRef → Ptr → Ptr → Cmd Ptr
list_insert l prev item = on_list l λ h items. LinkedList.insert h items prev item

-- `List_insert(l, l->last, item)`
unfoldable pub list_append : ListRef → Ptr → Cmd Ptr
unfolding list_insert get_head
list_append l item = do h ← get_head l; list_insert l h.last item

unfoldable pub list_detach : ListRef → Ptr → Cmd Ptr
list_detach l item = on_list l λ h items. LinkedList.detach h items item

unfoldable pub list_pop : ListRef → Cmd Ptr
list_pop l s = if is_dangling l then fault else on_list l LinkedList.pop s

-- An argument of a system call as a number or as an address.
abbrev pub int_arg : Arg → Cmd ℤ
int_arg (int n) s = ok n s
int_arg _ s = fault

abbrev pub ptr_arg : Arg → Cmd Ptr
ptr_arg (pointer p) s = ok p s
ptr_arg _ s = fault

-- Argument `i` of the system call that the running process makes, and its return value.
abbrev pub arg : ℕ → Cmd Arg
arg i = do s ← get; me ← get_pcb s.running; pure (me.syscall_args i)

abbrev pub retvalue : ℤ → Cmd (Unit {0})
retvalue v = do s ← get; set_pcb s.running λ me. record me { syscall_retvalue = v }

-- `aux->next`
abbrev pub next_item : Ptr → Cmd Ptr
next_item aux s = if is_null aux then fault else ok (s.items aux).next s

-- A search along a list.
unfoldable pub search_list : ℕ → (System → Ptr → Bool) → ListRef → Cmd Ptr
unfolding get_head
search_list rounds test l = do
  h ← get_head l
  s ← get
  with_fuel (LinkedList.first_where rounds (test s) s.items h.first)

abbrev pub pool_of : PoolRef → Pools → PoolAllocator
pool_of pcb_pool k = k.pcb
pool_of pcb_ptr_pool k = k.pcb_ptr
pool_of timer_item_pool k = k.timer_item
pool_of resources_pool k = k.resources
pool_of queues_pool k = k.queues
pool_of msg_strings_pool k = k.msg_strings
pool_of queue_users_pool k = k.queue_users
pool_of message_pool k = k.message
pool_of descriptor_pool k = k.descriptor
pool_of descriptor_ptr_pool k = k.descriptor_ptr

abbrev pub set_pool : PoolRef → PoolAllocator → Pools → Pools
set_pool pcb_pool a k = record k { pcb = a }
set_pool pcb_ptr_pool a k = record k { pcb_ptr = a }
set_pool timer_item_pool a k = record k { timer_item = a }
set_pool resources_pool a k = record k { resources = a }
set_pool queues_pool a k = record k { queues = a }
set_pool msg_strings_pool a k = record k { msg_strings = a }
set_pool queue_users_pool a k = record k { queue_users = a }
set_pool message_pool a k = record k { message = a }
set_pool descriptor_pool a k = record k { descriptor = a }
set_pool descriptor_ptr_pool a k = record k { descriptor_ptr = a }

abbrev pub run_pool : {A : Type 0} → Option (PoolAllocator × A) → PoolRef → Cmd A
run_pool none k s = fault
run_pool (some (a, r)) k s = ok r (record s { pools = set_pool k a s.pools })

abbrev on_pool : {A : Type 0} → PoolRef → (PoolAllocator → Option (PoolAllocator × A)) → Cmd A
on_pool k f s = run_pool (f (pool_of k s.pools)) k s

unfoldable pub get_block : PoolRef → Cmd Ptr
get_block k = on_pool k PoolAllocator.get_block

unfoldable pub release_block : PoolRef → Ptr → Cmd PoolAllocatorResult
release_block k p = on_pool k λ a. PoolAllocator.release_block a p

abbrev pub is_success : PoolAllocatorResult → Bool
is_success success = true
is_success _ = false

-- `PoolAllocator_init` of a static allocator, and `assert(! result)`. Static memory starts as zeros.
unfoldable pub init_pool : PoolRef → (item_size num_items : ℕ) → Ptr → ℕ → Cmd (Unit {0})
init_pool k item_size num_items buffer memory_size = do
  result ← on_pool k λ a. PoolAllocator.init a item_size num_items buffer (λ _. pos 0) memory_size
  assert (is_success result)
