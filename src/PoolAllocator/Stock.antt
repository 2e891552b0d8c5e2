-- ===== src/PoolAllocator/Stock.antt =====
-- How many blocks a pool holds: runs of PoolAllocator_getBlock.
use mathlib.Core.List.{append-nil}
use disastr_os_queues.Base.{
  ℕ, zero, suc, ◌+◌, ◌*◌, ◌^◌, ◌≤◌, ◌<◌, ◌≡◌, refl, List, [], ◌∷◌, ◌++◌, map, Option, none, some, ℤ,
  length, ap, ◌∙◌, sym,
}
use disastr_os_queues.LinkedList.{Ptr, null}
use disastr_os_queues.PoolAllocator.{PoolAllocator, success, sizeof_int, init, get_block}
use disastr_os_queues.PoolAllocator.Free.{
  IsPool, block, from, length-from, init-IsPool, get_block-Handed, get_block_empty,
}

-- Calls `getBlock` a number of times, and lists the blocks.
pub get_blocks : ℕ → PoolAllocator → Option (PoolAllocator × List Ptr)
get_blocks zero a = some (a, [])
get_blocks (suc n) a = elim (get_block a) [
  | none ↦ none
  | some (a', b) ↦ elim (get_blocks n a') [ none ↦ none | some (a'', bs) ↦ some (a'', b ∷ bs) ]
]

-- The first free blocks are handed out in order.
get_blocks-map :
    (a : PoolAllocator) (xs ys : List ℕ)
    → IsPool a (xs ++ ys)
    → (a' : PoolAllocator) × (get_blocks (length xs) a ≡ some (a', map (block a) xs)) × IsPool a' ys
unfolding get_blocks
get_blocks-map a [] ys p = (a, refl, p)
get_blocks-map a (x ∷ xs) ys p =
    let (a', e, h) = get_block-Handed a x (xs ++ ys) p in
    let (a'', f, q) = get_blocks-map a' xs ys h.pool in
    let moved : map (block a') xs ≡ map (block a) xs =
      λ i. map (λ n. h.buffer i + n * h.item_size i) xs in
    (a'', rw (e, get_blocks, f, moved), q)

-- A pool that was initialised for `n` blocks hands out exactly its `n` blocks, one after the
-- other, and then null.
pub init-get_blocks :
    (a : PoolAllocator) (item_size n : ℕ) (memory_block : Ptr) (bookkeeping : ℕ → ℤ)
    (memory_size : ℕ)
    → 0 < n
    → n * (item_size + sizeof_int) ≤ memory_size
    → memory_size < 2 ^ 31
    → (full empty : PoolAllocator) × (init a item_size n memory_block bookkeeping memory_size
        ≡ some (full, success))
      × (get_blocks n full ≡ some (empty, map (λ i. memory_block + i * item_size) (from n 0)))
      × (get_block empty ≡ some (empty, null))
init-get_blocks a item_size n memory_block bookkeeping memory_size h fits small =
    let (full, e, p, _, size, base) =
      init-IsPool a item_size n memory_block bookkeeping memory_size h fits small in
    let p' : IsPool full (from n 0 ++ []) = rw append-nil p in
    let (empty, f, q) = get_blocks-map full (from n 0) [] p' in
    let moved : map (block full) (from n 0) ≡ map (λ i. memory_block + i * item_size) (from n 0) =
      λ i. map (λ k. base i + k * size i) (from n 0) in
    (
      full,
      empty,
      e,
      ap (λ k. get_blocks k full) (sym (length-from n 0)) ∙ (f ∙ ap (λ bs. some (empty, bs)) moved),
      get_block_empty empty q,
    )
