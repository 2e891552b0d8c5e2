-- ===== src/Resource/QueueObject/Joining.antt =====
-- Queue_add_pid: a process is entered into the lists of a queue.
pub mod Entry
use disastr_os_queues.Base.{
  ℕ, zero, suc, ℤ, pos, incr, ◌+◌, ◌≤◌, ◌<◌, Bool, true, false, ◌≡◌, refl, List, [], ◌∷◌, ◌++◌,
  arith, has, ap, ◌∙◌, ◌==◌, update, count, one_self, one_ne, not-has_of_count, count_of_has,
  has_of_count, count-append, length, if◌then◌else◌, has_flag,
}
use mathlib.Core.List.{append-nil}
use disastr_os_queues.LinkedList
use disastr_os_queues.LinkedList.{Ptr, null, is_null, ListHead, Items}
use disastr_os_queues.LinkedList.Chain.{IsList, IsList-frame, SameOutside, last_or, head_or}
use disastr_os_queues.LinkedList.Insert.{Inserted}
use disastr_os_queues.PoolAllocator.{PoolAllocator}
use disastr_os_queues.PoolAllocator.Free.{IsPool, IsPlaced, block, handed, handed-IsPool}
use disastr_os_queues.Resource.QueueObject.Joining.Entry.{
  entry, left, noted, noted-three, Users, Added, add_reader, add_writer, add_blocker,
}
use disastr_os_queues.Resource.QueueObject.{queue_user_alloc, add_user, queue_add_pid}
use disastr_os_queues.Kernel.{
  System, ProcessStatus, ListRef, Descriptor, readers, writers, non_block, queue_users_pool, Ends,
  Ends-and_then, ok, list_append, rdonly, wronly, nonblock, pure,
}
use disastr_os_queues.Kernel.Lists.{after, list_append_ok}
use disastr_os_queues.Kernel.Blocks.{get_block_ok}

-- Each part of `Queue_add_pid`, with its flag set or not.
module _ (a : PoolAllocator) (s : System) (q ds : Ptr) (rs ws ns : List Ptr) (pid : ℤ)
    (q_some : is_null q ≡ false) (ds_some : is_null ds ≡ false) where
  read_step :
      (b : Bool) (free : List ℕ)
      → 0 < length free
      → Users a s q rs ws ns free
      → Ends
          (λ x t.
            (x ≡ false)
            × Added a s q ds pid
                (entry b a free)
                (λ d. record d { reader = head_or (entry b a free) d.reader })
                (rs ++ entry b a free)
                ws
                ns
                (left b free)
                t)
          ((if b then add_user (readers q) pid (λ e d. record d { reader = e }) ds else pure false)
            s)
  read_step true (i ∷ free) some k = add_reader a s q rs ws ns i free k q_some pid ds ds_some
  read_step true [] some k = elim some [ ]
  read_step false free some k = rw append-nil (
    refl,
    record {
      users = k;
      descriptor = refl;
      openings = refl;
      running = refl;
      messages = refl;
      max_messages = refl;
      msg_size = refl;
      resources = refl;
      entries = λ p. refl;
    },
  )

  write_step :
      (b : Bool) (free : List ℕ)
      → 0 < length free
      → Users a s q rs ws ns free
      → Ends
          (λ x t.
            (x ≡ false)
            × Added a s q ds pid
                (entry b a free)
                (λ d. record d { writer = head_or (entry b a free) d.writer })
                rs
                (ws ++ entry b a free)
                ns
                (left b free)
                t)
          ((if b then add_user (writers q) pid (λ e d. record d { writer = e }) ds else pure false)
            s)
  write_step true (i ∷ free) some k = add_writer a s q rs ws ns i free k q_some pid ds ds_some
  write_step true [] some k = elim some [ ]
  write_step false free some k = rw append-nil (
    refl,
    record {
      users = k;
      descriptor = refl;
      openings = refl;
      running = refl;
      messages = refl;
      max_messages = refl;
      msg_size = refl;
      resources = refl;
      entries = λ p. refl;
    },
  )

  block_step :
      (b : Bool) (free : List ℕ)
      → 0 < length free
      → Users a s q rs ws ns free
      → Ends
          (λ x t.
            (x ≡ false)
            × Added a s q ds pid
                (entry b a free)
                (λ d. record d { blocker = head_or (entry b a free) d.blocker })
                rs
                ws
                (ns ++ entry b a free)
                (left b free)
                t)
          ((if b
              then add_user (non_block q) pid (λ e d. record d { blocker = e }) ds
              else pure false)
            s)
  block_step true (i ∷ free) some k = add_blocker a s q rs ws ns i free k q_some pid ds ds_some
  block_step true [] some k = elim some [ ]
  block_step false free some k = rw append-nil (
    refl,
    record {
      users = k;
      descriptor = refl;
      openings = refl;
      running = refl;
      messages = refl;
      max_messages = refl;
      msg_size = refl;
      resources = refl;
      entries = λ p. refl;
    },
  )

left-length : (b : Bool) (free : List ℕ) (n : ℕ) → suc n < length free → n < length (left b free)
left-length true (i ∷ free) n h = omega arith
left-length true [] n h = elim h [ ]
left-length false free n h = omega arith

-- The process stands at the end of the lists of the queue that its mode names, and the descriptor
-- has the entries.
pub record Joined (a : PoolAllocator) (s : System) (q ds : Ptr) (rs ws ns : List Ptr)
    (free : List ℕ) (pid mode : ℤ) (result : ℤ) (t : System) : Type 0 where
  pub answer : result ≡ pos 0
  pub users :
      let b = has_flag mode rdonly in
      let c = has_flag mode wronly in
      let d = has_flag mode nonblock in
      let behind = left b free in
      let last = left c behind in
      Users a t q
        (rs ++ entry b a free)
        (ws ++ entry c a behind)
        (ns ++ entry d a last)
        (left d last)
  pub descriptor :
      let b = has_flag mode rdonly in
      let c = has_flag mode wronly in
      let d = has_flag mode nonblock in
      let behind = left b free in
      let before = s.descriptor_items ds in
      t.descriptor_items ds ≡ record before {
        reader = head_or (entry b a free) before.reader;
        writer = head_or (entry c a behind) before.writer;
        blocker = head_or (entry d a (left c behind)) before.blocker;
      }
  pub openings : (t.queues q).openings ≡ incr (s.queues q).openings
  pub running : t.running ≡ s.running
  pub messages : (t.queues q).messages ≡ (s.queues q).messages
  pub max_messages : (t.queues q).max_messages ≡ (s.queues q).max_messages
  pub msg_size : (t.queues q).msg_size ≡ (s.queues q).msg_size
  pub resources : t.resources ≡ s.resources
  pub entries :
      let b = has_flag mode rdonly in
      let c = has_flag mode wronly in
      let d = has_flag mode nonblock in
      let behind = left b free in
      let last = left c behind in
      (p : Ptr)
      → t.queue_users p
        ≡ noted pid (entry d a last ++ (entry c a behind ++ entry b a free)) s.queue_users p

-- With three free blocks for entries, `Queue_add_pid` enters the process into the lists of readers,
-- of writers and of those that do not block, each if the mode has the flag for it, and counts the
-- opening; the members of the lists stay, in their order.
pub queue_add_pid-Joined :
    (a : PoolAllocator) (s : System) (q ds : Ptr) (rs ws ns : List Ptr) (free : List ℕ)
    (pid mode : ℤ)
    → is_null q ≡ false
    → is_null ds ≡ false
    → 2 < length free
    → Users a s q rs ws ns free
    → Ends (λ r t. Joined a s q ds rs ws ns free pid mode r t) (queue_add_pid q pid mode ds s)
unfolding queue_add_pid
queue_add_pid-Joined a s q ds rs ws ns free pid mode q_some ds_some some k =
    let b = has_flag mode rdonly in
    let c = has_flag mode wronly in
    let behind = left b free in
    let two = left-length b free 1 some in
    let f = has_flag mode nonblock in
    let last = left c behind in
    let one = left-length c behind 0 two in
    let ends = Joined a s q ds rs ws ns free pid mode in
    let rs' = rs ++ entry b a free in
    let ws' = ws ++ entry c a behind in
    Ends-and_then
      (λ x t.
        (x ≡ false)
        × Added a s q ds pid (entry b a free)
            (λ d. record d { reader = head_or (entry b a free) d.reader }) rs' ws ns behind t)
      ends _ _ (read_step a s q ds rs ws ns pid q_some ds_some b free (omega arith) k)
      λ x t (e, r). rw e (
        Ends-and_then
          (λ x v.
            (x ≡ false)
            × Added a t q ds pid (entry c a behind)
                (λ d. record d { writer = head_or (entry c a behind) d.writer }) rs' ws' ns last v)
          ends _ _ (write_step a t q ds rs' ws ns pid q_some ds_some c behind (omega arith) r.users)
          λ y v (e', w). rw e' (
            Ends-and_then
              (λ x u.
                (x ≡ false)
                × Added a v q ds pid (entry f a last)
                    (λ d. record d { blocker = head_or (entry f a last) d.blocker }) rs' ws'
                    (ns ++ entry f a last) (left f last) u)
              ends _ _ (block_step a v q ds rs' ws' ns pid q_some ds_some f last one w.users)
              λ z u (e'', n).
                rw (e'', q_some)
                  (let self : (q == q) ≡ true = ground arith in
                    record {
                      answer = refl;
                      users = record {
                        reading = rw self n.users.reading;
                        writing = rw self n.users.writing;
                        blocking = rw self n.users.blocking;
                        pool = n.users.pool;
                        placed = n.users.placed;
                        here = n.users.here;
                        fresh = n.users.fresh;
                        apart = n.users.apart;
                      };
                      descriptor = rw (n.descriptor, w.descriptor, r.descriptor) refl;
                      running = n.running ∙ (w.running ∙ r.running);
                      messages = rw self (n.messages ∙ (w.messages ∙ r.messages));
                      max_messages = rw self (n.max_messages ∙ (w.max_messages ∙ r.max_messages));
                      msg_size = rw self (n.msg_size ∙ (w.msg_size ∙ r.msg_size));
                      resources = n.resources ∙ (w.resources ∙ r.resources);
                      entries =
                          noted-three pid (entry b a free) (entry c a behind) (entry f a last)
                            s.queue_users t.queue_users v.queue_users u.queue_users r.entries
                            w.entries n.entries;
                      openings = rw (self, n.openings, w.openings, r.openings) refl;
                    })))
