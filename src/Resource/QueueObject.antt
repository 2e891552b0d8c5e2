-- ===== src/Resource/QueueObject.antt =====
-- disastrOS_resource.c, its other sections: queues, their users, messages and message strings.
pub mod Leak
pub mod Half
pub mod Joining
use disastr_os_queues.Base.{
  ℕ, zero, suc, ℤ, pos, eq_ℤ, ltb_ℤ, has_flag, incr, ◌*◌, ◌+◌, Bool, true, false, not, ◌||◌,
  if◌then◌else◌,
}
use disastr_os_queues.LinkedList
use disastr_os_queues.LinkedList.{Ptr, null, is_null}
use disastr_os_queues.PoolAllocator.{PoolAllocatorResult, sizeof_int}
use disastr_os_queues.Kernel.{
  System, ProcessStatus, ListRef, messages, readers, writers, non_block, Descriptor, Queue,
  queues_pool, msg_strings_pool, queue_users_pool, message_pool, Cmd, out_of_fuel, pure, ◌>>=◌,
  ◌>>◌, set_queue, set_queue_user, set_message, set_descriptor, get_queue, is_success, get_block,
  release_block, get_head, list_append, list_pop, init_pool, max_num_processes, max_num_queues,
  max_num_strings, max_num_messages_per_queue, max_message_size, rdonly, wronly, nonblock,
  list_insertion_error,
}

unfoldable pub queue_init : (queue_size : ℕ) → Ptr → Cmd (Unit {0})
queue_init size buffer =
    init_pool queues_pool size max_num_queues buffer (max_num_queues * (size + sizeof_int))

unfoldable pub msg_string_init : Ptr → Cmd (Unit {0})
msg_string_init buffer =
    init_pool msg_strings_pool max_message_size max_num_strings buffer
      (max_num_strings * (max_message_size + sizeof_int))

unfoldable pub queue_user_init : (queue_user_size : ℕ) → Ptr → Cmd (Unit {0})
queue_user_init size buffer =
    init_pool queue_users_pool size max_num_processes buffer
      (max_num_processes * (size + sizeof_int))

abbrev max_num_messages : ℕ
max_num_messages = max_num_messages_per_queue * max_num_queues

unfoldable pub message_init : (message_size : ℕ) → Ptr → Cmd (Unit {0})
message_init size buffer =
    init_pool message_pool size max_num_messages buffer (max_num_messages * (size + sizeof_int))

unfoldable pub queue_alloc : ℤ → Cmd Ptr
queue_alloc resource_id = do
  q ← get_block queues_pool
  if is_null q then pure null else do
    set_queue q λ c. record c {
      messages = LinkedList.init;
      readers = LinkedList.init;
      writers = LinkedList.init;
      non_block = LinkedList.init;
      max_messages = pos max_num_messages_per_queue;
      msg_size = pos max_message_size;
      openings = pos 0;
    }
    pure q

unfoldable pub msg_string_alloc : Cmd Ptr
msg_string_alloc = get_block msg_strings_pool

-- The argument is the address that is handed to the allocator.
unfoldable msg_string_free : Ptr → Cmd PoolAllocatorResult
msg_string_free m = release_block msg_strings_pool m

-- The links of the item are not written: they are what the block held.
unfoldable queue_user_alloc : ℤ → Cmd Ptr
queue_user_alloc pid = do
  qu ← get_block queue_users_pool
  if is_null qu
      then pure null
      else do set_queue_user qu λ c. record c { pid = pid; status = ProcessStatus.running }; pure qu

unfoldable pub queue_user_free : Ptr → Cmd PoolAllocatorResult
queue_user_free qu = release_block queue_users_pool qu

-- Here too the links are not written.
unfoldable pub message_alloc : Ptr → ℤ → Cmd Ptr
message_alloc message message_size = do
  m ← get_block message_pool
  if is_null m
      then pure null
      else do set_message m λ c. record c { message = message; len = message_size }; pure m

-- `&m->message`: the item with its two pointers comes first.
abbrev pub message_offset : ℕ
message_offset = 16

-- `||` does not look at its second operand if the first is not 0.
unfoldable pub message_free : Ptr → Cmd Bool
unfolding msg_string_free
message_free m = do
  r ← msg_string_free (m + message_offset)
  if not (is_success r)
      then pure true
      else do r' ← release_block message_pool m; pure (not (is_success r'))

-- `for (i = 0; i < q->messages.size; i++) Message_free(List_pop(&q->messages));`
unfoldable pub free_messages : ℕ → ℤ → Ptr → Cmd (Unit {0})
unfolding message_free
free_messages zero i q = λ _. out_of_fuel
free_messages (suc rounds) i q = do
  h ← get_head (messages q)
  if not (ltb_ℤ i h.size)
      then pure tt
      else do m ← list_pop (messages q); _ ← message_free m; free_messages rounds (incr i) q

-- `while (l.first != 0) QueueUser_free(List_pop(&l));`
unfoldable pub free_users : ℕ → ListRef → Cmd (Unit {0})
unfolding queue_user_free
free_users zero l = λ _. out_of_fuel
free_users (suc rounds) l = do
  h ← get_head l
  if is_null h.first
      then pure tt
      else do qu ← list_pop l; _ ← queue_user_free qu; free_users rounds l

unfoldable pub queue_free : ℕ → Ptr → Cmd PoolAllocatorResult
unfolding free_messages free_users
queue_free rounds q = do
  free_messages rounds (pos 0) q
  free_users rounds (readers q)
  free_users rounds (writers q)
  free_users rounds (non_block q)
  release_block queues_pool q

-- One of the three parts of `Queue_add_pid`: an entry for the process at the end of a list. The
-- result says whether it was refused.
unfoldable add_user : ListRef → ℤ → (Ptr → Descriptor → Descriptor) → Ptr → Cmd Bool
unfolding queue_user_alloc
add_user l pid store ds = do
  qu ← queue_user_alloc pid
  entry ← list_append l qu
  set_descriptor ds (store entry)
  pure (is_null entry)

-- `ds` is the descriptor whose array receives the entries.
unfoldable pub queue_add_pid : Ptr → ℤ → ℤ → Ptr → Cmd ℤ
unfolding add_user
queue_add_pid q pid mode ds = do
  refused ←
      (if has_flag mode rdonly
        then add_user (readers q) pid (λ e d. record d { reader = e }) ds
        else pure false)
  if refused then pure list_insertion_error else do
    refused' ←
        (if has_flag mode wronly
          then add_user (writers q) pid (λ e d. record d { writer = e }) ds
          else pure false)
    if refused' then pure list_insertion_error else do
      refused'' ←
          (if has_flag mode nonblock
            then add_user (non_block q) pid (λ e d. record d { blocker = e }) ds
            else pure false)
      if refused''
          then pure list_insertion_error
          else do set_queue q λ c. record c { openings = incr c.openings }; pure (pos 0)
