-- ===== src/Files/Joined.antt =====
-- internal_openQueue: a process with a descriptor for a queue is entered into the queue's lists.
use disastr_os_queues.Base.{
  ℕ, ℤ, pos, eq_ℤ, has_flag, ◌≤◌, ◌<◌, ◌≡◌, true, false, refl, List, [], ◌∷◌, ◌++◌, arith, ◌∙◌, has,
  ◌==◌, update, count, length,
}
use disastr_os_queues.LinkedList
use disastr_os_queues.LinkedList.{Ptr, null, is_null, Items}
use disastr_os_queues.LinkedList.Chain.{IsList, head_or}
use disastr_os_queues.LinkedList.Walk.{first_match, first_where-first_match}
use disastr_os_queues.PoolAllocator.{PoolAllocator}
use disastr_os_queues.PoolAllocator.Free.{IsPool, IsPlaced, block, handed}
use disastr_os_queues.Resource.{resource_by_id}
use disastr_os_queues.Resource.QueueObject.{queue_alloc}
use disastr_os_queues.Resource.QueueObject.Joining.{Joined, queue_add_pid-Joined}
use disastr_os_queues.Resource.QueueObject.Joining.Entry.{noted, Users, blocks, entry, left}
use disastr_os_queues.Files.{queue_entries, join_queue, internal_open_queue}
use disastr_os_queues.Files.Open.{IsOpen, queue_entries_ok}
use disastr_os_queues.Kernel.{
  System, queues_pool, Ends, Ends-and_then, Ends-mono, get_head, search_list, int, ok,
  max_num_messages_per_queue, max_message_size, rdonly, wronly, nonblock,
}
use disastr_os_queues.Kernel.Blocks.{get_block_ok}

-- The answer is the number of the descriptor, and the process stands in the lists of its mode.
pub record Entered (a : PoolAllocator) (s : System) (q ds : Ptr) (rs ws ns : List Ptr)
    (free : List ℕ) (mode fd : ℤ) (t : System) : Type 0 where
  pub joined : Joined a s q ds rs ws ns free (s.pcbs s.running).pid mode (pos 0) t
  pub answer : (t.pcbs s.running).syscall_retvalue ≡ fd

module _ (a : PoolAllocator) (s : System) (rounds : ℕ) (fd mode : ℤ) (ds q res : Ptr)
    (rs ws ns : List Ptr) (free : List ℕ) (o : IsOpen s rounds fd ds q)
    (target : (s.descriptor_items ds).resource ≡ res)
    (is_queue : eq_ℤ (s.resources res).type (pos 2) ≡ true) (q_some : is_null q ≡ false)
    (some : 2 < length free) (k : Users a s q rs ws ns free) where
  res_some : is_null res ≡ false
  res_some = rw target at o.resource_some

  value : (s.resources res).value ≡ q
  value = rw target at o.value

  pub join_ok :
      Ends (λ _ t. Entered a s q ds rs ws ns free mode fd t) (join_queue rounds res fd mode s)
  unfolding join_queue queue_entries
  join_ok =
      rw (res_some, is_queue, queue_entries_ok s rounds fd ds q o, o.running_some, value)
        (Ends-and_then (λ r t. Joined a s q ds rs ws ns free (s.pcbs s.running).pid mode r t)
          (λ _ t. Entered a s q ds rs ws ns free mode fd t) _ _
          (queue_add_pid-Joined a s q ds rs ws ns free (s.pcbs s.running).pid mode q_some o.ds_some
            some k)
          λ r t j.
            let self : (s.running == s.running) ≡ true = ground arith in
            rw (j.answer, j.running, o.running_some)
              (record {
                joined = record {
                  answer = refl;
                  users = record {
                    reading = j.users.reading;
                    writing = j.users.writing;
                    blocking = j.users.blocking;
                    pool = j.users.pool;
                    placed = j.users.placed;
                    here = j.users.here;
                    fresh = j.users.fresh;
                    apart = j.users.apart;
                  };
                  descriptor = j.descriptor;
                  openings = j.openings;
                  running = refl;
                  messages = j.messages;
                  max_messages = j.max_messages;
                  msg_size = j.msg_size;
                  resources = j.resources;
                  entries = j.entries;
                };
                answer = rw self refl;
              }))

-- The queue is new, without messages and of the default size, the resource points to it, and the
-- process stands in the lists of its mode, by entries that have its number and are not waiting.
pub record Made (a : PoolAllocator) (s : System) (q res ds : Ptr) (free : List ℕ) (mode fd : ℤ)
    (t : System) : Type 0 where
  pub users :
      let b = has_flag mode rdonly in
      let c = has_flag mode wronly in
      let d = has_flag mode nonblock in
      let behind = left b free in
      let last = left c behind in
      Users a t q (entry b a free) (entry c a behind) (entry d a last) (left d last)
  pub descriptor :
      let behind = left (has_flag mode rdonly) free in
      let before = s.descriptor_items ds in
      t.descriptor_items ds ≡ record before {
        reader = head_or (entry (has_flag mode rdonly) a free) before.reader;
        writer = head_or (entry (has_flag mode wronly) a behind) before.writer;
        blocker =
            head_or
              (entry (has_flag mode nonblock) a (left (has_flag mode wronly) behind))
              before.blocker;
      }
  pub entries :
      let b = has_flag mode rdonly in
      let c = has_flag mode wronly in
      let behind = left b free in
      let last = left c behind in
      let made = entry (has_flag mode nonblock) a last ++ (entry c a behind ++ entry b a free) in
      (p : Ptr) → t.queue_users p ≡ noted (s.pcbs s.running).pid made s.queue_users p
  pub messages : IsList t.items (t.queues q).messages []
  pub max_messages : (t.queues q).max_messages ≡ pos max_num_messages_per_queue
  pub msg_size : (t.queues q).msg_size ≡ pos max_message_size
  pub openings : (t.queues q).openings ≡ pos 1
  pub value : (t.resources res).value ≡ q
  pub answer : (t.pcbs s.running).syscall_retvalue ≡ fd
  pub running : t.running ≡ s.running

empty : (items : Items) → IsList items LinkedList.init []
empty items = record {
  first = refl;
  last = refl;
  size = refl;
  linked = tt;
  non_null = refl;
  distinct = tt;
}

module _ (s : System) (rounds : ℕ) (fd mode id : ℤ) (ds res : Ptr) (rs : List Ptr) (i : ℕ)
    (queues free : List ℕ) (o : IsOpen s rounds fd ds null)
    (target : (s.descriptor_items ds).resource ≡ res)
    (is_queue : eq_ℤ (s.resources res).type (pos 2) ≡ true)
    (pool : IsPool s.pools.queues (i ∷ queues)) (placed : IsPlaced s.pools.queues)
    (users : IsPool s.pools.queue_users free) (users_placed : IsPlaced s.pools.queue_users)
    (some : 2 < length free)
    (fresh : (p : Ptr)
      → has p (blocks s.pools.queue_users free) ≡ true
      → ((s.items p).next ≡ null) × ((s.items p).prev ≡ null))
    (apart : (p : Ptr) → count p (blocks s.pools.queue_users free) ≤ 1) where
  abbrev q : Ptr
  q = block s.pools.queues i

  q_some : is_null q ≡ false
  q_some = let h = placed.buffer_pos in ground arith

  -- The queue was allocated, and its address put into the resource.
  abbrev s1 : System
  s1 = record s {
    pools = record s.pools { queues = handed s.pools.queues i };
    queues = update s.queues q (record (s.queues q) {
      messages = LinkedList.init;
      readers = LinkedList.init;
      writers = LinkedList.init;
      non_block = LinkedList.init;
      max_messages = pos max_num_messages_per_queue;
      msg_size = pos max_message_size;
      openings = pos 0;
    });
  }

  abbrev s2 : System
  s2 = record s1 { resources = update s.resources res (record (s.resources res) { value = q }) }

  alloc_ok : (n : ℤ) → queue_alloc n s ≡ ok q s1
  unfolding queue_alloc
  alloc_ok n = rw (get_block_ok queues_pool s i pool.chain.0 pool.chain.1, q_some, q_some) refl

  still_open : IsOpen s2 rounds fd ds q
  still_open =
      let self : (res == res) ≡ true = ground arith in
      record {
        running_some = o.running_some;
        opened = o.opened;
        list = o.list;
        fuel = o.fuel;
        found = o.found;
        ds_some = o.ds_some;
        resource_some = o.resource_some;
        value = rw (target, self) refl;
      }

  made-Users : Users s.pools.queue_users s2 q [] [] [] free
  made-Users =
      let self : (q == q) ≡ true = ground arith in
      record {
        reading = rw self (empty s.items);
        writing = rw self (empty s.items);
        blocking = rw self (empty s.items);
        pool = users;
        placed = users_placed;
        here = λ j. refl;
        fresh = fresh;
        apart = λ p. let h = apart p in omega arith;
      }

  made :
      (t : System)
      → Entered s.pools.queue_users s2 q ds [] [] [] free mode fd t
      → Made s.pools.queue_users s q res ds free mode fd t
  made t e =
      let self : (q == q) ≡ true = ground arith in
      let here : (res == res) ≡ true = ground arith in
      let j = e.joined in
      record {
        users = j.users;
        descriptor = j.descriptor;
        entries = j.entries;
        messages = rw (j.messages, self) (empty t.items);
        max_messages = j.max_messages ∙ rw self refl;
        msg_size = j.msg_size ∙ rw self refl;
        openings = j.openings ∙ rw self refl;
        value = rw (j.resources, here) refl;
        answer = e.answer;
        running = j.running;
      }

  -- On an open resource of the type of queues whose `value` is null, with a free block for the
  -- queue and three, linked to nothing, for entries, `internal_openQueue` makes an empty queue of
  -- the default size, enters the process into the lists for which the mode has a flag, by entries
  -- that hold the number of the process and are not waiting, stores the entries in the descriptor,
  -- counts the opening, and answers the number of the descriptor.
  pub internal_open_queue-Made :
      (s.pcbs s.running).syscall_args 0 ≡ int id
      → (s.pcbs s.running).syscall_args 1 ≡ int fd
      → (s.pcbs s.running).syscall_args 2 ≡ int mode
      → IsList s.items s.resources_list rs
      → length rs < rounds
      → first_match (λ a. eq_ℤ (s.resources a).id id) rs ≡ res
      → Ends
          (λ _ t. Made s.pools.queue_users s q res ds free mode fd t)
          (internal_open_queue rounds s)
  unfolding internal_open_queue resource_by_id search_list get_head
  internal_open_queue-Made a0 a1 a2 l fuel found =
      let r = first_where-first_match rounds (λ a. eq_ℤ (s.resources a).id id) l fuel in
      let res_some : is_null res ≡ false = rw target at o.resource_some in
      let nothing : (s.resources res).value ≡ null = rw target at o.value in
      let self : (res == res) ≡ true = ground arith in
      let entered =
        join_ok s.pools.queue_users s2 rounds fd mode ds q res [] [] [] free still_open target
          (rw self is_queue) q_some some made-Users in
      rw
        (
          o.running_some, a0, o.running_some, a1, o.running_some, a2, r, found, res_some, nothing,
          alloc_ok, res_some, q_some,
        )
        (Ends-mono (λ _ t. Entered s.pools.queue_users s2 q ds [] [] [] free mode fd t)
          (λ _ t. Made s.pools.queue_users s q res ds free mode fd t)
          (join_queue rounds res fd mode s2) entered λ _ t e. made t e)
