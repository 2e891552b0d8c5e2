-- ===== src/PoolAllocator/Outside.antt =====
-- PoolAllocator_releaseBlock on pointers that are not in the buffer.
use native.Mathlib.Nat.{div-add-mod, le-div_iff_mul-le}
use mathlib.Core.Path.{subst, sym, ap}
use disastr_os_queues.Base.{
  ℕ, suc, ◌+◌, ◌-◌, ◌*◌, ◌/◌, ◌%◌, ◌^◌, ◌≤◌, ◌<◌, ◌≡◌, ◌≢◌, Bool-cases, inl, inr, true, false,
  arith, some, negsuc, ◌==◌, ltb, leb,
}
use disastr_os_queues.LinkedList.{Ptr}
use disastr_os_queues.PoolAllocator.{
  PoolAllocator, PoolAllocatorResult, success, unaligned_free, out_of_range, to_int, release_idx,
  release_block,
}
use disastr_os_queues.PoolAllocator.Free.{IsPlaced}
use disastr_os_queues.PoolAllocator.Release.{offset_lem}

-- A pointer below the buffer or behind its last block, at most 2 ^ 31 bytes away.
pub data IsOutside (a : PoolAllocator) (p : Ptr) : Type 0 where
  below : (t : ℕ) → t < 2 ^ 31 → p + suc t ≡ a.buffer → IsOutside a p
  behind : (t : ℕ) → t < 2 ^ 31 → p ≡ a.buffer + t → a.item_size * a.size_max ≤ t → IsOutside a p

-- The allocator refuses the pointer and stays as it is.
abbrev pub Refused : PoolAllocator → Ptr → Type 0
Refused a p = (r : PoolAllocatorResult) × (release_block a p ≡ some (a, r)) × (r ≢ success)

module _ (a : PoolAllocator) (placed : IsPlaced a) where
  size_some : (a.item_size == 0) ≡ false
  size_some = let k = placed.item_pos in ground arith

  below-Refused : (p t : ℕ) → t < 2 ^ 31 → p + suc t ≡ a.buffer → Refused a p
  unfolding release_block release_idx
  below-Refused p t small e =
      let k = placed.space in
      let low : (p + 2 ^ 64 - a.buffer) % 2 ^ 32 ≡ 2 ^ 32 - suc t = omega arith in
      let test : ltb (2 ^ 32 - suc t) (2 ^ 31) ≡ false = ground arith in
      let back : 2 ^ 32 - 1 - (2 ^ 32 - suc t) ≡ t = omega arith in
      let off : to_int (p + 2 ^ 64 - a.buffer) ≡ negsuc t = rw (low, test) (ap negsuc back) in
      elim (Bool-cases (suc t % a.item_size == 0)) [
        | inl h ↦
            let q_some : (suc t / a.item_size == 0) ≡ false =
              let e' = div-add-mod (suc t) a.item_size in ground arith in
            (out_of_range, rw (size_some, off, h, q_some), λ f. cc)
        | inr h ↦ (unaligned_free, rw (size_some, off, h), λ f. cc)
      ]

  behind-Refused : (t : ℕ) → t < 2 ^ 31 → a.item_size * a.size_max ≤ t → Refused a (a.buffer + t)
  unfolding release_block release_idx
  behind-Refused t small far =
      let off = offset_lem a.buffer t small in
      elim (Bool-cases (t % a.item_size == 0)) [
        | inl h ↦
            let far' : a.size_max ≤ t / a.item_size =
              (le-div_iff_mul-le placed.item_pos).1 (omega arith) in
            let idx : leb a.size_max (t / a.item_size) ≡ true = ground arith in
            (out_of_range, rw (size_some, off, h, idx), λ f. cc)
        | inr h ↦ (unaligned_free, rw (size_some, off, h), λ f. cc)
      ]

  -- `PoolAllocator_releaseBlock` refuses a pointer below the buffer or behind its last block, within
  -- 2 ^ 31 bytes of its start, and changes nothing.
  pub release_block_outside : (p : Ptr) → IsOutside a p → Refused a p
  release_block_outside p (below t small e) = below-Refused p t small e
  release_block_outside p (behind t small e far) =
      subst (Refused a) (sym e) (behind-Refused t small far)
