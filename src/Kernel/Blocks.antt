-- ===== src/Kernel/Blocks.antt =====
-- The pool commands on well-formed pools of the state, and the start of a pool.
use disastr_os_queues.Base.{ℕ, ◌<◌, ◌≤◌, ◌+◌, ◌*◌, ◌^◌, ◌≡◌, refl, pos, some, ap}
use disastr_os_queues.LinkedList.{Ptr}
use disastr_os_queues.PoolAllocator
use disastr_os_queues.PoolAllocator.{PoolAllocator, PoolAllocatorResult, sizeof_int}
use disastr_os_queues.PoolAllocator.Free.{block, handed, get_block_lem, fresh, init_ok}
use disastr_os_queues.Kernel.State.{System, PoolRef}
use disastr_os_queues.Kernel.Run.{ok}
use disastr_os_queues.Kernel.Access.{
  pool_of, set_pool, run_pool, get_block, release_block, init_pool,
}

module _ (k : PoolRef) (s : System) where
  -- The first free block is handed out.
  pub get_block_ok :
      (i : ℕ)
      → (pool_of k s.pools).first_idx ≡ pos i
      → i < (pool_of k s.pools).size_max
      → get_block k s
        ≡ ok
            (block (pool_of k s.pools) i)
            (record s { pools = set_pool k (handed (pool_of k s.pools) i) s.pools })
  unfolding get_block
  get_block_ok i e h = ap (λ o. run_pool o k s) (get_block_lem (pool_of k s.pools) i e h)

  -- What the allocator answers is what the command returns.
  pub release_block_ok :
      (b : Ptr) (a : PoolAllocator) (r : PoolAllocatorResult)
      → PoolAllocator.release_block (pool_of k s.pools) b ≡ some (a, r)
      → release_block k b s ≡ ok r (record s { pools = set_pool k a s.pools })
  unfolding release_block
  release_block_ok b a r e = ap (λ o. run_pool o k s) e

-- An allocator with all its blocks free.
abbrev pub whole : PoolAllocator → (item_size n : ℕ) → Ptr → ℕ → PoolAllocator
whole a item_size n buffer memory_size = fresh a item_size n buffer (λ _. pos 0) memory_size

pub init_pool_ok :
    (k : PoolRef) (s : System) (item_size n : ℕ) (buffer : Ptr) (memory_size : ℕ)
    → 0 < n
    → n * (item_size + sizeof_int) ≤ memory_size
    → memory_size < 2 ^ 31
    → init_pool k item_size n buffer memory_size s
      ≡ ok tt (record s {
        pools = set_pool k (whole (pool_of k s.pools) item_size n buffer memory_size) s.pools;
      })
unfolding init_pool
init_pool_ok k s item_size n buffer memory_size positive fits small =
    let a = pool_of k s.pools in
    rw (init_ok a item_size n buffer (λ _. pos 0) memory_size positive fits small) refl
