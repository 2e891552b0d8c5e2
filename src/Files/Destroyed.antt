-- ===== src/Files/Destroyed.antt =====
-- internal_destroyResource on a resource that no process has open.
use disastr_os_queues.Base.{
  ℕ, zero, suc, ℤ, pos, eq_ℤ, not, ◌&&◌, ◌<◌, ◌≡◌, true, false, refl, List, [], ◌∷◌, ◌++◌, ap, ◌∙◌,
  update, update_self, length,
}
use disastr_os_queues.LinkedList
use disastr_os_queues.LinkedList.{Ptr, null, is_null}
use disastr_os_queues.LinkedList.Chain.{IsList}
use disastr_os_queues.LinkedList.Detach.{Detached}
use disastr_os_queues.LinkedList.Walk.{first_match, first_where-first_match}
use disastr_os_queues.PoolAllocator
use disastr_os_queues.PoolAllocator.{success}
use disastr_os_queues.PoolAllocator.Free.{IsPool, IsPlaced}
use disastr_os_queues.PoolAllocator.Release
use disastr_os_queues.PoolAllocator.Release.{returned, returned-IsPool}
use disastr_os_queues.PoolAllocator.Taken.{IsTaken}
use disastr_os_queues.Resource.{resource_by_id, resource_free}
use disastr_os_queues.Resource.QueueObject.{queue_free, free_messages, free_users}
use disastr_os_queues.Files.{internal_destroy_resource}
use disastr_os_queues.Kernel.{
  System, Pools, resources_list, resources_pool, queues_pool, Ends, ok, int, list_detach,
  search_list, get_head,
}
use disastr_os_queues.Kernel.Lists.{after, list_detach_ok}
use disastr_os_queues.Kernel.Blocks

-- A queue without messages and users, in a block that was handed out.
pub record IsIdle (s : System) (q : Ptr) (free : List ℕ) : Type 0 where
  pub some : is_null q ≡ false
  pub taken : IsTaken s.pools.queues free q
  pub pool : IsPool s.pools.queues free
  pub placed : IsPlaced s.pools.queues
  pub no_messages : (s.queues q).messages.size ≡ pos 0
  pub no_readers : is_null (s.queues q).readers.first ≡ true
  pub no_writers : is_null (s.queues q).writers.first ≡ true
  pub no_blockers : is_null (s.queues q).non_block.first ≡ true

module _ (s : System) (q : Ptr) (free : List ℕ) (k : IsIdle s q free) where
  abbrev queue_freed : System
  queue_freed = record s {
    pools = record s.pools { queues = returned s.pools.queues k.taken.number };
  }

  queue_free_ok : (rounds : ℕ) → queue_free (suc rounds) q s ≡ ok success queue_freed
  unfolding queue_free free_messages free_users get_head
  queue_free_ok rounds =
      let released =
        Blocks.release_block_ok queues_pool s q (returned s.pools.queues k.taken.number) success (
          ap (PoolAllocator.release_block s.pools.queues) k.taken.here
          ∙ Release.release_block_ok s.pools.queues free k.taken.number k.placed k.pool
              k.taken.in_range k.taken.busy) in
      rw
        (
          k.some, k.no_messages, k.some, k.no_readers, k.some, k.no_writers, k.some, k.no_blockers,
          released,
        )
        refl

-- The resource is in no list, its block is free, and the call answers 0.
pub record Destroyed (s : System) (rest : List Ptr) (free : List ℕ) (t : System) : Type 0 where
  pub list : IsList t.items t.resources_list rest
  pub pool : IsPool t.pools.resources free
  pub answer : (t.pcbs s.running).syscall_retvalue ≡ pos 0
  pub running : t.running ≡ s.running

module _ (s : System) (before behind : List Ptr) (res : Ptr) (free : List ℕ)
    (running_some : is_null s.running ≡ false)
    (resources : IsList s.items s.resources_list (before ++ res ∷ behind))
    (res_some : is_null res ≡ false) (taken : IsTaken s.pools.resources free res)
    (pool : IsPool s.pools.resources free) (placed : IsPlaced s.pools.resources)
    (unused : IsList s.items (s.resources res).descriptors_ptrs []) where
  abbrev s1 : System
  s1 = after resources_list (LinkedList.detach s.resources_list s.items res) s

  detach_ok :
      (list_detach resources_list res s ≡ ok res s1)
      × Detached s.items res
          (before ++ res ∷ behind)
          (before ++ behind)
          (LinkedList.detach s.resources_list s.items res)
  detach_ok = list_detach_ok resources_list s refl before behind res resources res_some

  -- The state after the queue was given back, if there is one.
  module _ (pools : Pools) (same : pools.resources ≡ s.pools.resources) where
    abbrev s2 : System
    s2 = record s1 { pools = pools }

    abbrev s3 : System
    s3 = record s2 { pools = record pools { resources = returned s.pools.resources taken.number } }

    abbrev s4 : System
    s4 = record s3 {
      pcbs = update s.pcbs s.running (record (s.pcbs s.running) { syscall_retvalue = pos 0 });
    }

    free_ok : resource_free res s2 ≡ ok success s3
    unfolding resource_free
    free_ok =
        let empty_first : is_null (s.resources res).descriptors_ptrs.first ≡ true =
          ap is_null unused.first in
        let empty_last : is_null (s.resources res).descriptors_ptrs.last ≡ true =
          ap is_null unused.last in
        let released =
          Blocks.release_block_ok resources_pool s2 res (returned s.pools.resources taken.number)
            success
            (ap (λ a. PoolAllocator.release_block a res) same
              ∙ (ap (PoolAllocator.release_block s.pools.resources) taken.here
                  ∙ Release.release_block_ok s.pools.resources free taken.number placed pool
                      taken.in_range taken.busy)) in
        rw (res_some, empty_first, empty_last, released) refl

    destroyed : Destroyed s (before ++ behind) (taken.number ∷ free) s4
    destroyed = record {
      list = detach_ok.1.list;
      pool =
          returned-IsPool s.pools.resources free taken.number placed pool taken.in_range taken.busy;
      answer =
          ap (λ c. c.syscall_retvalue)
            (update_self s.pcbs s.running (record (s.pcbs s.running) { syscall_retvalue = pos 0 }));
      running = refl;
    }

  module _ (rounds : ℕ) (id : ℤ) (a0 : (s.pcbs s.running).syscall_args 0 ≡ int id)
      (fuel : length (before ++ res ∷ behind) < suc rounds)
      (found : first_match (λ a. eq_ℤ (s.resources a).id id) (before ++ res ∷ behind) ≡ res) where
    search : resource_by_id (suc rounds) resources_list id s ≡ ok res s
    unfolding resource_by_id search_list get_head
    search =
        let r =
          first_where-first_match (suc rounds) (λ a. eq_ℤ (s.resources a).id id) resources fuel in
        rw (r, found)

    none_open : (s.resources res).descriptors_ptrs.size ≡ pos 0
    none_open = unused.size

    destroy_plain :
        (not (is_null (s.resources res).value) && eq_ℤ (s.resources res).type (pos 2)) ≡ false
        → internal_destroy_resource (suc rounds) s ≡ ok tt (s4 s.pools refl)
    unfolding internal_destroy_resource
    destroy_plain no_queue = rw (
      running_some,
      a0,
      search,
      res_some,
      res_some,
      none_open,
      detach_ok.0,
      res_some,
      no_queue,
      free_ok s.pools refl,
      running_some,
    )

    destroy_queue :
        (frees : List ℕ) (k : IsIdle s (s.resources res).value frees)
        → eq_ℤ (s.resources res).type (pos 2) ≡ true
        → internal_destroy_resource (suc rounds) s
          ≡ ok tt (s4 (record s.pools { queues = returned s.pools.queues k.taken.number }) refl)
    unfolding internal_destroy_resource
    destroy_queue frees k is_queue =
        let both : (not (is_null (s.resources res).value) && eq_ℤ (s.resources res).type (pos 2))
            ≡ true =
          rw k.some is_queue in
        let idle : IsIdle s1 (s.resources res).value frees = record {
          some = k.some;
          taken = k.taken;
          pool = k.pool;
          placed = k.placed;
          no_messages = k.no_messages;
          no_readers = k.no_readers;
          no_writers = k.no_writers;
          no_blockers = k.no_blockers;
        } in
        rw (
          running_some,
          a0,
          search,
          res_some,
          res_some,
          none_open,
          detach_ok.0,
          res_some,
          both,
          queue_free_ok s1 (s.resources res).value frees idle rounds,
          free_ok (record s.pools { queues = returned s.pools.queues k.taken.number }) refl,
          running_some,
        )

  -- `internal_destroyResource` on the number of a resource that no process has open and that has
  -- no queue: the resource leaves the list, its block is free, and the answer is 0.
  internal_destroy_resource-plain :
      (rounds : ℕ) (id : ℤ)
      → (s.pcbs s.running).syscall_args 0 ≡ int id
      → length (before ++ res ∷ behind) < rounds
      → first_match (λ a. eq_ℤ (s.resources a).id id) (before ++ res ∷ behind) ≡ res
      → (not (is_null (s.resources res).value) && eq_ℤ (s.resources res).type (pos 2)) ≡ false
      → Ends
          (λ _ t. Destroyed s (before ++ behind) (taken.number ∷ free) t)
          (internal_destroy_resource rounds s)
  internal_destroy_resource-plain zero id a0 fuel found no_queue = elim fuel [ ]
  internal_destroy_resource-plain (suc rounds) id a0 fuel found no_queue =
      rw (destroy_plain rounds id a0 fuel found no_queue) (destroyed s.pools refl)

  -- `internal_destroyResource` on the number of a resource that no process has open, with a queue
  -- that has neither messages nor users: the resource leaves the list, the blocks of the resource
  -- and of the queue are free, and the answer is 0.
  pub internal_destroy_resource-Destroyed :
      (rounds : ℕ) (id : ℤ) (frees : List ℕ) (k : IsIdle s (s.resources res).value frees)
      → (s.pcbs s.running).syscall_args 0 ≡ int id
      → length (before ++ res ∷ behind) < rounds
      → first_match (λ a. eq_ℤ (s.resources a).id id) (before ++ res ∷ behind) ≡ res
      → eq_ℤ (s.resources res).type (pos 2) ≡ true
      → Ends
          (λ _ t.
            Destroyed s (before ++ behind) (taken.number ∷ free) t
            × IsPool t.pools.queues (k.taken.number ∷ frees))
          (internal_destroy_resource rounds s)
  internal_destroy_resource-Destroyed zero id frees k a0 fuel found is_queue = elim fuel [ ]
  internal_destroy_resource-Destroyed (suc rounds) id frees k a0 fuel found is_queue =
      let pools : Pools = record s.pools { queues = returned s.pools.queues k.taken.number } in
      rw (destroy_queue rounds id a0 fuel found frees k is_queue) (
        destroyed pools refl,
        returned-IsPool s.pools.queues frees k.taken.number k.placed k.pool k.taken.in_range
            k.taken.busy,
      )
