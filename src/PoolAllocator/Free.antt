-- ===== src/PoolAllocator/Free.antt =====
-- The free list of a pool: its invariant, PoolAllocator_init and PoolAllocator_getBlock.
use disastr_os_queues.Base.{
  ℕ, zero, suc, ◌+◌, ◌-◌, ◌*◌, ◌%◌, ◌^◌, ◌≤◌, ◌<◌, ◌≡◌, refl, true, false, List, [], ◌∷◌, arith,
  some, ℤ, pos, decr, eq_ℤ, ◌==◌, ltb, if◌then◌else◌, update, has, Distinct, length, ◌&&◌, leb,
}
use mathlib.Core.Path.{subst, sym, ap}
use disastr_os_queues.LinkedList.{Ptr, null}
use disastr_os_queues.PoolAllocator.{
  PoolAllocator, success, not_enough_memory, null_idx, detached_idx, sizeof_int, to_int, populate,
  init, get_block,
}

-- From `idx` the entries lead through the block numbers `free` to the end mark.
abbrev pub Chain : (ℕ → ℤ) → ℕ → ℤ → List ℕ → Type 0
Chain f m idx [] = idx ≡ null_idx
Chain f m idx (i ∷ is) = (idx ≡ pos i) × (i < m) × Chain f m (f i) is

-- `free` are the blocks that can be handed out, in order; every other block is marked detached.
pub record IsPool (a : PoolAllocator) (free : List ℕ) : Type 0 where
  pub chain : Chain a.free_list a.size_max a.first_idx free
  pub distinct : Distinct free
  pub size : a.size ≡ pos (length free)
  pub detached : (i : ℕ) → i < a.size_max → has i free ≡ false → a.free_list i ≡ detached_idx

-- The blocks lie in the address space, off the null pointer, and their offsets fit in an `int`.
pub record IsPlaced (a : PoolAllocator) : Type 0 where
  pub item_pos : 0 < a.item_size
  pub buffer_pos : 0 < a.buffer
  pub small : a.item_size * a.size_max < 2 ^ 31
  pub space : a.buffer + a.item_size * a.size_max ≤ 2 ^ 64

abbrev pub block : PoolAllocator → ℕ → Ptr
block a i = a.buffer + i * a.item_size

-- A chain does not read the entries outside of it.
pub Chain-update :
    (f : ℕ → ℤ) (m : ℕ) (idx : ℤ) (is : List ℕ) (j : ℕ) (v : ℤ)
    → Chain f m idx is
    → has j is ≡ false
    → Chain (update f j v) m idx is
Chain-update f m idx [] j v c out = c
Chain-update f m idx (i ∷ is) j v (e, lt, c) out =
    let ne : (j == i) ≡ false = ground arith in
    (e, lt, rw ne (Chain-update f m (f i) is j v c (ground arith)))

-- The numbers from `i` on.
abbrev pub from : ℕ → ℕ → List ℕ
from zero i = []
from (suc n) i = i ∷ from n (suc i)

has-from : (n i j : ℕ) → has j (from n i) ≡ leb i j && ltb j (i + n)
has-from zero i j = ground arith
has-from (suc n) i j = ground (arith, has-from n (suc i) j)

Distinct-from : (n i : ℕ) → Distinct (from n i)
Distinct-from zero i = tt
Distinct-from (suc n) i = (ground (arith, has-from n (suc i) i), Distinct-from n (suc i))

pub length-from : (n i : ℕ) → length (from n i) ≡ n
length-from zero i = refl
length-from (suc n) i = omega (arith, length-from n (suc i))

populate-at :
    (rounds i : ℕ) (f : ℕ → ℤ) (j : ℕ)
    → populate rounds i f j ≡ (if leb i j && ltb j (i + rounds) then pos (suc j) else f j)
unfolding populate
populate-at zero i f j = ground arith
populate-at (suc rounds) i f j =
    ground (arith, populate-at rounds (suc i) (update f i (pos (suc i))) j)

Chain-from :
    (n i m : ℕ) (f : ℕ → ℤ)
    → i + suc n ≡ m
    → ((j : ℕ) → i ≤ j → suc j < m → f j ≡ pos (suc j))
    → ((j : ℕ) → suc j ≡ m → f j ≡ null_idx)
    → Chain f m (pos i) (from (suc n) i)
Chain-from zero i m f e step last = (refl, omega arith, last i (omega arith))
Chain-from (suc n) i m f e step last = (
  refl,
  omega arith,
  subst (λ v. Chain f m v (from (suc n) (suc i))) (sym (step i (omega arith) (omega arith)))
      (Chain-from n (suc i) m f (omega arith) (λ j le lt. step j (omega arith) lt) last),
)

to_int_small : (x : ℕ) → x < 2 ^ 31 → to_int x ≡ pos x
to_int_small x h =
    let low : x % 2 ^ 32 ≡ x = omega arith in
    let test : ltb x (2 ^ 31) ≡ true = ground arith in rw (low, test)

-- The array that initialisation leaves behind.
abbrev linked_up : ℕ → (ℕ → ℤ) → ℕ → ℤ
linked_up n bookkeeping = update (populate (n - 1) 0 bookkeeping) (n - 1) null_idx

linked_up-next : (n : ℕ) (f : ℕ → ℤ) (j : ℕ) → suc j < n → linked_up n f j ≡ pos (suc j)
linked_up-next n f j h = ground (arith, populate-at (n - 1) 0 f j)

linked_up-last : (n : ℕ) (f : ℕ → ℤ) (j : ℕ) → suc j ≡ n → linked_up n f j ≡ null_idx
linked_up-last n f j h = ground arith

linked_up-Chain : (n : ℕ) (f : ℕ → ℤ) → 0 < n → Chain (linked_up n f) n (pos 0) (from n 0)
linked_up-Chain zero f h = elim h [ ]
linked_up-Chain (suc n) f h =
    Chain-from n 0 (suc n) (linked_up (suc n) f) (omega arith)
      (λ j le lt. linked_up-next (suc n) f j lt) (λ j e. linked_up-last (suc n) f j e)

module _ (a : PoolAllocator) (item_size n : ℕ) (memory_block : Ptr) (bookkeeping : ℕ → ℤ)
    (memory_size : ℕ) where
  -- What `PoolAllocator_init` makes of the allocator.
  abbrev pub fresh : PoolAllocator
  fresh = record {
    buffer = memory_block;
    free_list = linked_up n bookkeeping;
    buffer_size = item_size * n;
    size = pos n;
    size_max = n;
    item_size = item_size;
    first_idx = pos 0;
  }

  pub init_ok :
      0 < n
      → n * (item_size + sizeof_int) ≤ memory_size
      → memory_size < 2 ^ 31
      → init a item_size n memory_block bookkeeping memory_size ≡ some (fresh, success)
  unfolding init
  init_ok h fits small =
      let requested : to_int (n * (item_size + sizeof_int)) ≡ pos (n * (item_size + sizeof_int)) =
        to_int_small _ (omega arith) in
      let test : ltb memory_size (n * (item_size + sizeof_int)) ≡ false = ground arith in
      let positive : (n == 0) ≡ false = ground arith in rw (requested, test, positive)

  pub fresh-IsPool : 0 < n → IsPool fresh (from n 0)
  fresh-IsPool h = record {
    chain = linked_up-Chain n bookkeeping h;
    distinct = Distinct-from n 0;
    size = ap pos (sym (length-from n 0));
    detached = λ i lt out. ground (arith, has-from n 0 i);
  }

  -- With room for the blocks and their bookkeeping, `PoolAllocator_init` succeeds and every block
  -- is free, in ascending order.
  pub init-IsPool :
      0 < n
      → n * (item_size + sizeof_int) ≤ memory_size
      → memory_size < 2 ^ 31
      → (a' : PoolAllocator) × (init a item_size n memory_block bookkeeping memory_size
          ≡ some (a', success))
        × IsPool a' (from n 0)
        × (a'.size_max ≡ n)
        × (a'.item_size ≡ item_size)
        × (a'.buffer ≡ memory_block)
  init-IsPool h fits small = (fresh, init_ok h fits small, fresh-IsPool h, refl, refl, refl)

  -- Without room for the blocks and their bookkeeping, which take less than 2 ^ 31 bytes,
  -- `PoolAllocator_init` refuses, and leaves the allocator as it was.
  pub init_refused :
      memory_size < n * (item_size + sizeof_int)
      → n * (item_size + sizeof_int) < 2 ^ 31
      → init a item_size n memory_block bookkeeping memory_size ≡ some (a, not_enough_memory)
  unfolding init
  init_refused lt small =
      let requested : to_int (n * (item_size + sizeof_int)) ≡ pos (n * (item_size + sizeof_int)) =
        to_int_small _ small in
      let test : ltb memory_size (n * (item_size + sizeof_int)) ≡ true = ground arith in
      rw (requested, test)

-- The outcome of handing out block `i`, with `rest` left.
pub record Handed (a : PoolAllocator) (i : ℕ) (rest : List ℕ) (a' : PoolAllocator) : Type 0 where
  pub pool : IsPool a' rest
  pub in_range : i < a.size_max
  pub busy : has i rest ≡ false
  pub buffer : a'.buffer ≡ a.buffer
  pub size_max : a'.size_max ≡ a.size_max
  pub item_size : a'.item_size ≡ a.item_size

-- The allocator after its first free block `i` was handed out.
abbrev pub handed : PoolAllocator → ℕ → PoolAllocator
handed a i = record a {
  first_idx = a.free_list i;
  size = decr a.size;
  free_list = update a.free_list i detached_idx;
}

pub get_block_lem :
    (a : PoolAllocator) (i : ℕ)
    → a.first_idx ≡ pos i
    → i < a.size_max
    → get_block a ≡ some (handed a i, block a i)
unfolding get_block
get_block_lem a i e h = ground arith

pub handed-IsPool :
    (a : PoolAllocator) (i : ℕ) (rest : List ℕ) → IsPool a (i ∷ rest) → Handed a i rest (handed a i)
handed-IsPool a i rest p = record {
  pool = record {
    chain = Chain-update a.free_list a.size_max _ rest i _ p.chain.2 p.distinct.0;
    distinct = p.distinct.1;
    size = rw p.size;
    detached = λ j lt out. ground (arith, p.detached j);
  };
  in_range = p.chain.1;
  busy = p.distinct.0;
  buffer = refl;
  size_max = refl;
  item_size = refl;
}

-- `PoolAllocator_getBlock` hands out the first free block; the others stay free, and the
-- blocks stay where they are.
pub get_block-Handed :
    (a : PoolAllocator) (i : ℕ) (rest : List ℕ)
    → IsPool a (i ∷ rest)
    → (a' : PoolAllocator) × (get_block a ≡ some (a', block a i)) × Handed a i rest a'
get_block-Handed a i rest p =
    (handed a i, get_block_lem a i p.chain.0 p.chain.1, handed-IsPool a i rest p)

-- With no free block it returns null and changes nothing.
pub get_block_empty : (a : PoolAllocator) → IsPool a [] → get_block a ≡ some (a, null)
unfolding get_block
get_block_empty a p = let e : eq_ℤ a.first_idx null_idx ≡ true = rw p.chain in rw e
