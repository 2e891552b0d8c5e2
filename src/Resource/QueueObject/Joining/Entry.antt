-- ===== src/Resource/QueueObject/Joining/Entry.antt =====
-- One entry of Queue_add_pid in the list of a queue.
use disastr_os_queues.Base.{
  ℕ, ℤ, ◌+◌, ◌≤◌, Bool, true, false, ◌≡◌, refl, List, [], ◌∷◌, ◌++◌, arith, has, ◌==◌, update,
  count, one_self, not-has_of_count, count_of_has, has_of_count, count-append, if◌then◌else◌,
  has-append, Bool-cases, inl, inr,
}
use disastr_os_queues.LinkedList
use disastr_os_queues.LinkedList.{Ptr, null, is_null, ListHead, Items}
use disastr_os_queues.LinkedList.Chain.{IsList, IsList-frame, SameOutside, last_or}
use disastr_os_queues.PoolAllocator.{PoolAllocator}
use disastr_os_queues.PoolAllocator.Free.{IsPool, IsPlaced, block, handed, handed-IsPool}
use disastr_os_queues.Resource.QueueObject.{queue_user_alloc, add_user}
use disastr_os_queues.Kernel.{
  System, ProcessStatus, QueueUser, Descriptor, readers, writers, non_block, queue_users_pool, Ends,
  ok,
}
use disastr_os_queues.Kernel.Lists.{list_append_ok}
use disastr_os_queues.Kernel.Blocks.{get_block_ok}

abbrev pub blocks : PoolAllocator → List ℕ → List Ptr
blocks a [] = []
blocks a (i ∷ free) = block a i ∷ blocks a free

-- The block that one entry takes, if it is made, and the numbers left.
abbrev pub entry : Bool → PoolAllocator → List ℕ → List Ptr
entry true a (i ∷ free) = block a i ∷ []
entry true a [] = []
entry false a free = []

abbrev pub left : Bool → List ℕ → List ℕ
left true (i ∷ free) = free
left true [] = []
left false free = free

-- The three lists of the queue `q`, and the free blocks for entries, as numbers of the pool `a`;
-- no entry stands in two of them, and the links of the free blocks are null.
pub record Users (a : PoolAllocator) (s : System) (q : Ptr) (rs ws ns : List Ptr) (free : List ℕ)
    : Type 0 where
  pub reading : IsList s.items (s.queues q).readers rs
  pub writing : IsList s.items (s.queues q).writers ws
  pub blocking : IsList s.items (s.queues q).non_block ns
  pub pool : IsPool s.pools.queue_users free
  pub placed : IsPlaced s.pools.queue_users
  pub here : (i : ℕ) → block s.pools.queue_users i ≡ block a i
  pub fresh :
      (p : Ptr)
      → has p (blocks a free) ≡ true
      → ((s.items p).next ≡ null) × ((s.items p).prev ≡ null)
  pub apart : (p : Ptr) → count p (blocks a free) + count p rs + count p ws + count p ns ≤ 1

-- The entries `es` are those of a process with the number `pid` that runs, the others as they were.
abbrev pub noted : ℤ → List Ptr → (Ptr → QueueUser) → Ptr → QueueUser
noted pid es users p =
    if has p es then record { pid = pid; status = ProcessStatus.running } else users p

noted-append :
    (pid : ℤ) (xs ys : List Ptr) (users : Ptr → QueueUser) (p : Ptr)
    → noted pid (xs ++ ys) users p ≡ noted pid xs (noted pid ys users) p
noted-append pid xs ys users p =
    rw has-append
      (elim (Bool-cases (has p xs)) [ inl here ↦ rw here refl | inr other ↦ rw other refl ])

-- Entries that are made one after the other.
pub noted-three :
    (pid : ℤ) (xs ys zs : List Ptr) (f g h k : Ptr → QueueUser)
    → ((p : Ptr) → g p ≡ noted pid xs f p)
    → ((p : Ptr) → h p ≡ noted pid ys g p)
    → ((p : Ptr) → k p ≡ noted pid zs h p)
    → (p : Ptr) → k p ≡ noted pid (zs ++ (ys ++ xs)) f p
noted-three pid xs ys zs f g h k first second third p =
    rw (noted-append pid zs (ys ++ xs) f p, noted-append pid ys xs f p, third p, second p, first p)
      refl

-- The descriptor `ds` has a new entry, one of `es`, for the process `pid`, and the lists of the queue are `rs`, `ws` and `ns` now.
pub record Added (a : PoolAllocator) (s : System) (q ds : Ptr) (pid : ℤ) (es : List Ptr)
    (store : Descriptor → Descriptor) (rs ws ns : List Ptr) (free : List ℕ) (t : System)
    : Type 0 where
  pub users : Users a t q rs ws ns free
  pub descriptor : t.descriptor_items ds ≡ store (s.descriptor_items ds)
  pub openings : (t.queues q).openings ≡ (s.queues q).openings
  pub running : t.running ≡ s.running
  pub messages : (t.queues q).messages ≡ (s.queues q).messages
  pub max_messages : (t.queues q).max_messages ≡ (s.queues q).max_messages
  pub msg_size : (t.queues q).msg_size ≡ (s.queues q).msg_size
  pub resources : t.resources ≡ s.resources
  pub entries : (p : Ptr) → t.queue_users p ≡ noted pid es s.queue_users p

module _ (a : PoolAllocator) (s : System) (q : Ptr) (rs ws ns : List Ptr) (i : ℕ) (free : List ℕ)
    (k : Users a s q rs ws ns (i ∷ free)) (q_some : is_null q ≡ false) (pid : ℤ) (ds : Ptr)
    (ds_some : is_null ds ≡ false) where
  abbrev u : Ptr
  u = block a i

  u_some : is_null u ≡ false
  u_some = let h = k.placed.buffer_pos in let e = k.here i in ground arith

  abbrev s1 : System
  s1 = record s {
    pools = record s.pools { queue_users = handed s.pools.queue_users i };
    queue_users =
        update s.queue_users u
          (record (s.queue_users u) { pid = pid; status = ProcessStatus.running });
  }

  alloc_ok : queue_user_alloc pid s ≡ ok u s1
  unfolding queue_user_alloc
  alloc_ok =
      rw (get_block_ok queue_users_pool s i k.pool.chain.0 k.pool.chain.1, k.here, u_some, u_some)
        refl

  u_once : count u rs + count u ws + count u ns ≡ 0
  u_once = let o = k.apart (block a i) in let b = one_self (block a i) in omega arith

  u_fresh : ((s.items u).next ≡ null) × ((s.items u).prev ≡ null)
  u_fresh =
      (k.fresh (block a i) (
        has_of_count (block a i) (block a i ∷ blocks a free)
          (let b = one_self (block a i) in omega arith)))

  apart_u : (p : Ptr) → count p (u ∷ blocks a free) + count p rs + count p ws + count p ns ≤ 1
  apart_u p = k.apart p

  -- What appending the entry to the list `xs` leaves of the lists beside it.
  module _ (xs : List Ptr) where
    kept :
        (ys : List Ptr) (items : Items) (head : ListHead)
        → ((p : Ptr) → count p xs + count p ys ≤ count p rs + count p ws + count p ns)
        → SameOutside (u ∷ xs) s.items items
        → IsList s.items head ys
        → IsList items head ys
    kept ys items head part same l = IsList-frame l λ p h.
        let c = count_of_has p ys h in
        let o = apart_u p in let b = part p in same p (not-has_of_count p (u ∷ xs) (omega arith))

    still_fresh :
        (items : Items)
        → ((p : Ptr) → count p xs ≤ count p rs + count p ws + count p ns)
        → SameOutside (u ∷ xs) s.items items
        → (p : Ptr) → has p (blocks a free) ≡ true
        → ((items p).next ≡ null) × ((items p).prev ≡ null)
    still_fresh items part same p h =
        let c = count_of_has p (blocks a free) h in
        let o = apart_u p in
        let b = part p in
        let e = same p (not-has_of_count p (u ∷ xs) (omega arith)) in
        rw e (k.fresh p (has_of_count p (block a i ∷ blocks a free) (omega arith)))

  handed-IsPlaced : IsPlaced (handed s.pools.queue_users i)
  handed-IsPlaced = record {
    item_pos = k.placed.item_pos;
    buffer_pos = k.placed.buffer_pos;
    small = k.placed.small;
    space = k.placed.space;
  }

  entered : (p : Ptr) → s1.queue_users p ≡ noted pid (u ∷ []) s.queue_users p
  entered p = elim (Bool-cases (u == p)) [ inl here ↦ rw here refl | inr other ↦ rw other refl ]

  pub add_reader :
      Ends
        (λ b t.
          (b ≡ false)
          × Added a s q ds pid (u ∷ []) (λ d. record d { reader = u }) (rs ++ u ∷ []) ws ns free t)
        (add_user (readers q) pid (λ e d. record d { reader = e }) ds s)
  unfolding add_user
  add_reader =
      let (e, r) =
        list_append_ok (readers q) s1 q_some rs u k.reading u_some u_fresh.0 u_fresh.1
          (not-has_of_count u rs (let o = u_once in omega arith)) in
      let self : (q == q) ≡ true = ground arith in
      let here : (ds == ds) ≡ true = ground arith in
      rw (alloc_ok, e, ds_some, u_some)
        (
          refl,
          record {
            descriptor = rw here refl;
            openings = rw self refl;
            running = refl;
            messages = rw self refl;
            max_messages = rw self refl;
            msg_size = rw self refl;
            resources = refl;
            entries = entered;
            users = record {
              reading = rw self r.list;
              writing = rw self (
                  kept rs ws (LinkedList.insert (s.queues q).readers s.items (last_or null rs) u).1
                    _ (λ p. omega arith) r.same k.writing);
              blocking = rw self (
                  kept rs ns (LinkedList.insert (s.queues q).readers s.items (last_or null rs) u).1
                    _ (λ p. omega arith) r.same k.blocking);
              pool = (handed-IsPool s.pools.queue_users i free k.pool).pool;
              placed = handed-IsPlaced;
              here = k.here;
              fresh =
                  still_fresh rs
                    (LinkedList.insert (s.queues q).readers s.items (last_or null rs) u).1
                    (λ p. omega arith) r.same;
              apart = λ p. let o = apart_u p in let c = count-append p rs (u ∷ []) in omega arith;
            };
          },
        )

  pub add_writer :
      Ends
        (λ b t.
          (b ≡ false)
          × Added a s q ds pid (u ∷ []) (λ d. record d { writer = u }) rs (ws ++ u ∷ []) ns free t)
        (add_user (writers q) pid (λ e d. record d { writer = e }) ds s)
  unfolding add_user
  add_writer =
      let (e, r) =
        list_append_ok (writers q) s1 q_some ws u k.writing u_some u_fresh.0 u_fresh.1
          (not-has_of_count u ws (let o = u_once in omega arith)) in
      let self : (q == q) ≡ true = ground arith in
      let here : (ds == ds) ≡ true = ground arith in
      rw (alloc_ok, e, ds_some, u_some)
        (
          refl,
          record {
            descriptor = rw here refl;
            openings = rw self refl;
            running = refl;
            messages = rw self refl;
            max_messages = rw self refl;
            msg_size = rw self refl;
            resources = refl;
            entries = entered;
            users = record {
              reading = rw self (
                  kept ws rs (LinkedList.insert (s.queues q).writers s.items (last_or null ws) u).1
                    _ (λ p. omega arith) r.same k.reading);
              writing = rw self r.list;
              blocking = rw self (
                  kept ws ns (LinkedList.insert (s.queues q).writers s.items (last_or null ws) u).1
                    _ (λ p. omega arith) r.same k.blocking);
              pool = (handed-IsPool s.pools.queue_users i free k.pool).pool;
              placed = handed-IsPlaced;
              here = k.here;
              fresh =
                  still_fresh ws
                    (LinkedList.insert (s.queues q).writers s.items (last_or null ws) u).1
                    (λ p. omega arith) r.same;
              apart = λ p. let o = apart_u p in let c = count-append p ws (u ∷ []) in omega arith;
            };
          },
        )

  pub add_blocker :
      Ends
        (λ b t.
          (b ≡ false)
          × Added a s q ds pid (u ∷ []) (λ d. record d { blocker = u }) rs ws (ns ++ u ∷ []) free t)
        (add_user (non_block q) pid (λ e d. record d { blocker = e }) ds s)
  unfolding add_user
  add_blocker =
      let (e, r) =
        list_append_ok (non_block q) s1 q_some ns u k.blocking u_some u_fresh.0 u_fresh.1
          (not-has_of_count u ns (let o = u_once in omega arith)) in
      let self : (q == q) ≡ true = ground arith in
      let here : (ds == ds) ≡ true = ground arith in
      rw (alloc_ok, e, ds_some, u_some)
        (
          refl,
          record {
            descriptor = rw here refl;
            openings = rw self refl;
            running = refl;
            messages = rw self refl;
            max_messages = rw self refl;
            msg_size = rw self refl;
            resources = refl;
            entries = entered;
            users = record {
              reading = rw self (
                  kept ns rs
                    (LinkedList.insert (s.queues q).non_block s.items (last_or null ns) u).1 _
                    (λ p. omega arith) r.same k.reading);
              writing = rw self (
                  kept ns ws
                    (LinkedList.insert (s.queues q).non_block s.items (last_or null ns) u).1 _
                    (λ p. omega arith) r.same k.writing);
              blocking = rw self r.list;
              pool = (handed-IsPool s.pools.queue_users i free k.pool).pool;
              placed = handed-IsPlaced;
              here = k.here;
              fresh =
                  still_fresh ns
                    (LinkedList.insert (s.queues q).non_block s.items (last_or null ns) u).1
                    (λ p. omega arith) r.same;
              apart = λ p. let o = apart_u p in let c = count-append p ns (u ∷ []) in omega arith;
            };
          },
        )
