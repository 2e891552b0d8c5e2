-- ===== src/PoolAllocator.antt =====
-- pool_allocator.h and pool_allocator.c: blocks of one size in a static buffer, with a free list of
-- block numbers behind them. `free_list` is that array; an access outside of it is a fault, `none`,
-- as is a division by a block size of 0. Sizes are those of the callers, constants below 2 ^ 31.
pub mod Free
pub mod Release
pub mod Outside
pub mod Taken
pub mod Stock
mod Tests
use Prim.Native.String.{String}
use disastr_os_queues.Base.{
  ℕ, zero, suc, ◌+◌, ◌-◌, ◌*◌, ◌/◌, ◌%◌, ◌^◌, ℤ, pos, negsuc, incr, decr, eq_ℤ, ltb_ℤ, not, Option,
  none, some, List, [], ◌∷◌, get_elem?, ltb, leb, ◌==◌, if◌then◌else◌, update,
}
use disastr_os_queues.LinkedList.{Ptr, null}

pub data PoolAllocatorResult : Type 0 where
  success not_enough_memory unaligned_free out_of_range double_free : PoolAllocatorResult

-- The enumerator's value.
pub code : PoolAllocatorResult → ℤ
code success = pos 0
code not_enough_memory = negsuc 0
code unaligned_free = negsuc 1
code out_of_range = negsuc 2
code double_free = negsuc 3

abbrev strerrors : List String
strerrors = "Success" ∷ "NotEnoughMemory" ∷ "UnalignedFree" ∷ "OutOfRange" ∷ "DoubleFree" ∷ []

pub record PoolAllocator : Type 0 where
  pub buffer : Ptr
  pub free_list : ℕ → ℤ
  pub buffer_size : ℕ
  pub size : ℤ
  pub size_max : ℕ
  pub item_size : ℕ
  pub first_idx : ℤ

abbrev pub null_idx : ℤ
null_idx = negsuc 0

abbrev pub detached_idx : ℤ
detached_idx = negsuc 1

abbrev pub sizeof_int : ℕ
sizeof_int = 4

-- A difference of pointers or a product of sizes, cut down to an `int`.
abbrev pub to_int : ℕ → ℤ
to_int n = let low = n % 2 ^ 32 in if ltb low (2 ^ 31) then pos low else negsuc (2 ^ 32 - 1 - low)

abbrev magnitude : ℤ → ℕ
magnitude (pos n) = n
magnitude (negsuc n) = suc n

-- `/` of C, which rounds towards 0.
abbrev div_ℤ : ℤ → ℕ → ℤ
div_ℤ (pos n) d = pos (n / d)
div_ℤ (negsuc n) d = let q = suc n / d in if q == 0 then pos 0 else negsuc (q - 1)

-- The text at position `-result`.
unfoldable strerror : PoolAllocatorResult → Option String
unfolding code
strerror result = get_elem? strerrors (magnitude (code result))

-- `for (i = 0; i < size - 1; ++i) free_list[i] = i + 1;` with the rounds that are left.
unfoldable pub populate : ℕ → ℕ → (ℕ → ℤ) → ℕ → ℤ
populate zero i f = f
populate (suc rounds) i f = populate rounds (suc i) (update f i (pos (suc i)))

unfoldable pub init :
    PoolAllocator
    → (item_size num_items : ℕ) (memory_block : Ptr) (bookkeeping : ℕ → ℤ) (memory_size : ℕ)
    → Option (PoolAllocator × PoolAllocatorResult)
unfolding populate
init a item_size num_items memory_block bookkeeping memory_size =
    let requested_size = to_int (num_items * (item_size + sizeof_int)) in
    if ltb_ℤ (pos memory_size) requested_size
    then some (a, not_enough_memory)
    else if num_items == 0
    then none
    else some (
      record {
        buffer = memory_block;
        free_list = update (populate (num_items - 1) 0 bookkeeping) (num_items - 1) null_idx;
        buffer_size = item_size * num_items;
        size = pos num_items;
        size_max = num_items;
        item_size = item_size;
        first_idx = pos 0;
      },
      success,
    )

-- `free_list[idx]`, inside the array.
abbrev pub entry : PoolAllocator → ℤ → Option ℤ
entry a (pos i) = if ltb i a.size_max then some (a.free_list i) else none
entry a (negsuc i) = none

abbrev index_of : ℤ → ℕ
index_of (pos i) = i
index_of (negsuc i) = 0

unfoldable pub get_block : PoolAllocator → Option (PoolAllocator × Ptr)
get_block a = if eq_ℤ a.first_idx null_idx then some (a, null) else elim (entry a a.first_idx) [
  | none ↦ none
  | some next ↦
      let i = index_of a.first_idx in
      some (
        record a {
          first_idx = next;
          size = decr a.size;
          free_list = update a.free_list i detached_idx;
        },
        a.buffer + i * a.item_size,
      )
]

release_idx : PoolAllocator → ℤ → Option (PoolAllocator × PoolAllocatorResult)
release_idx a (negsuc i) = some (a, out_of_range)
release_idx a (pos i) =
    if leb a.size_max i
    then some (a, out_of_range)
    else if not (eq_ℤ (a.free_list i) detached_idx)
    then some (a, double_free)
    else some (
      record a {
        free_list = update a.free_list i a.first_idx;
        first_idx = pos i;
        size = incr a.size;
      },
      success,
    )

unfoldable pub release_block : PoolAllocator → Ptr → Option (PoolAllocator × PoolAllocatorResult)
unfolding release_idx
release_block a block =
    if a.item_size == 0
    then none
    else let offset = to_int (block + 2 ^ 64 - a.buffer) in
      if not (magnitude offset % a.item_size == 0)
      then some (a, unaligned_free)
      else release_idx a (div_ℤ offset a.item_size)
