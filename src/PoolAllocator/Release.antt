-- ===== src/PoolAllocator/Release.antt =====
-- PoolAllocator_releaseBlock on every kind of pointer.
use native.Mathlib.Nat.{mul-mod_left, mul-div_left, div-add-mod}
use mathlib.Core.Path.{subst, sym, ap, fun_ext}
use disastr_os_queues.Base.{
  ℕ, ◌+◌, ◌-◌, ◌*◌, ◌/◌, ◌%◌, ◌^◌, ◌<◌, ◌≡◌, ◌≢◌, Bool-cases, inl, inr, refl, true, false, not,
  List, [], ◌∷◌, arith, Option, some, ℤ, pos, incr, decr, eq_ℤ, ◌==◌, ltb, leb, if◌then◌else◌,
  update, has, ◌∙◌,
}
use disastr_os_queues.LinkedList.{Ptr, null}
use disastr_os_queues.PoolAllocator.{
  PoolAllocator, PoolAllocatorResult, success, unaligned_free, out_of_range, double_free,
  detached_idx, to_int, release_idx, release_block, get_block,
}
use disastr_os_queues.PoolAllocator.Free.{
  Chain, IsPool, IsPlaced, block, Chain-update, handed, get_block_lem, get_block_empty,
  handed-IsPool,
}

pub offset_lem : (b t : ℕ) → t < 2 ^ 31 → to_int (b + t + 2 ^ 64 - b) ≡ pos t
offset_lem b t h =
    let low : (b + t + 2 ^ 64 - b) % 2 ^ 32 ≡ t = omega arith in
    let test : ltb t (2 ^ 31) ≡ true = ground arith in rw (low, test)

in-small : (a : PoolAllocator) (i : ℕ) → IsPlaced a → i < a.size_max → i * a.item_size < 2 ^ 31
in-small a i p h = let k = p.small in grind arith

-- For a pointer to the block number `i`, in the array or behind it, only the number matters.
release_block-idx :
    (a : PoolAllocator) (i : ℕ)
    → 0 < a.item_size
    → i * a.item_size < 2 ^ 31
    → release_block a (block a i) ≡ release_idx a (pos i)
unfolding release_block
release_block-idx a i p h =
    let some_size : (a.item_size == 0) ≡ false = ground arith in
    let off = offset_lem a.buffer (i * a.item_size) h in
    let aligned : i * a.item_size % a.item_size ≡ 0 = mul-mod_left i a.item_size in
    let number : i * a.item_size / a.item_size ≡ i = mul-div_left i p in
    rw (some_size, off, aligned, number)

-- A block that is free is not marked detached.
free-ne-detached :
    (f : ℕ → ℤ) (m : ℕ) (idx : ℤ) (is : List ℕ) (i : ℕ)
    → Chain f m idx is
    → has i is ≡ true
    → eq_ℤ (f i) detached_idx ≡ false
free-ne-detached f m idx [] i c h = cc
free-ne-detached f m idx (j ∷ []) i (e, lt, c) h = let same : j ≡ i = ground arith in rw (← same, c)
free-ne-detached f m idx (j ∷ k ∷ is) i (e, lt, c) h = elim (Bool-cases (j == i)) [
  | inl hit ↦ let same : j ≡ i = ground arith in rw (← same, c.0)
  | inr miss ↦ free-ne-detached f m (f j) (k ∷ is) i c (ground arith)
]

-- The allocator after block `i` came back.
abbrev pub returned : PoolAllocator → ℕ → PoolAllocator
returned a i = record a {
  free_list = update a.free_list i a.first_idx;
  first_idx = pos i;
  size = incr a.size;
}

module _ (a : PoolAllocator) (free : List ℕ) (i : ℕ) (placed : IsPlaced a) (p : IsPool a free) where
  pub release_block_ok :
      i < a.size_max
      → has i free ≡ false
      → release_block a (block a i) ≡ some (returned a i, success)
  unfolding release_idx
  release_block_ok h out =
      let inside : leb a.size_max i ≡ false = ground arith in
      let marked : eq_ℤ (a.free_list i) detached_idx ≡ true = rw (p.detached i h out) in
      release_block-idx a i placed.item_pos (in-small a i placed h) ∙ rw (inside, marked)

  pub returned-IsPool : i < a.size_max → has i free ≡ false → IsPool (returned a i) (i ∷ free)
  returned-IsPool h out = record {
    chain = (
      refl,
      h,
      subst (λ v. Chain (returned a i).free_list a.size_max v free) (update_self i)
          (Chain-update a.free_list a.size_max _ free i _ p.chain out),
    );
    distinct = (out, p.distinct);
    size = rw p.size;
    detached = λ j lt k. ground (arith, p.detached j);
  }
    where
      update_self : (j : ℕ) → a.first_idx ≡ update a.free_list j a.first_idx j
      update_self j = ground arith

  -- A block that is free already is refused, and so is a number behind the last block.
  release_block_again :
      has i free ≡ true → i < a.size_max → release_block a (block a i) ≡ some (a, double_free)
  unfolding release_idx
  release_block_again again h =
      let inside : leb a.size_max i ≡ false = ground arith in
      let marked = free-ne-detached a.free_list a.size_max _ free i p.chain again in
      release_block-idx a i placed.item_pos (in-small a i placed h) ∙ rw (inside, marked)

-- What becomes of a pointer `t` bytes into the buffer, in terms of the free blocks.
pub verdict : PoolAllocator → List ℕ → ℕ → PoolAllocatorResult
verdict a free t =
    if not (t % a.item_size == 0)
    then unaligned_free
    else if leb a.size_max (t / a.item_size)
    then out_of_range
    else if has (t / a.item_size) free
    then double_free
    else success

abbrev freed : PoolAllocatorResult → ℕ → List ℕ → List ℕ
freed success n free = n ∷ free
freed _ n free = free

-- The outcome of a release: the answer, the free blocks, and no change unless it succeeds.
pub record Released (a : PoolAllocator) (free : List ℕ) (t : ℕ) : Type 0 where
  pub after : PoolAllocator
  pub answer : release_block a (a.buffer + t) ≡ some (after, verdict a free t)
  pub pool : IsPool after (freed (verdict a free t) (t / a.item_size) free)
  pub kept : verdict a free t ≢ success → after ≡ a

module _ (a : PoolAllocator) (free : List ℕ) (placed : IsPlaced a) (p : IsPool a free) (t : ℕ)
    (small : t < 2 ^ 31) where
  released :
      (r : PoolAllocatorResult) (a' : PoolAllocator)
      → verdict a free t ≡ r
      → release_block a (a.buffer + t) ≡ some (a', r)
      → IsPool a' (freed r (t / a.item_size) free)
      → (r ≢ success → a' ≡ a)
      → Released a free t
  released r a' v e q same = record { after = a'; answer = rw v e; pool = rw v q; kept = rw v same }

  unaligned-Released : (t % a.item_size == 0) ≡ false → Released a free t
  unfolding release_block verdict
  unaligned-Released h =
      let off = offset_lem a.buffer t small in
      let some_size : (a.item_size == 0) ≡ false = let k = placed.item_pos in ground arith in
      released unaligned_free a (rw h) (rw (some_size, off, h)) p (λ _. refl)

  module _ (h : (t % a.item_size == 0) ≡ true) where
    as_block : a.buffer + t ≡ block a (t / a.item_size)
    as_block = let k = div-add-mod t a.item_size in ground arith

    behind-Released : leb a.size_max (t / a.item_size) ≡ true → Released a free t
    unfolding verdict release_idx
    behind-Released behind =
        let n_small : t / a.item_size * a.item_size < 2 ^ 31 = omega (arith, as_block) in
        released out_of_range a (rw (h, behind))
          (ap (release_block a) as_block
            ∙ (release_block-idx a (t / a.item_size) placed.item_pos n_small ∙ rw behind))
          p (λ _. refl)

    inside-Released : leb a.size_max (t / a.item_size) ≡ false → Released a free t
    unfolding verdict
    inside-Released inside =
        let n = t / a.item_size in
        let lt : n < a.size_max = ground arith in
        elim (Bool-cases (has n free)) [
          | inl again ↦
              released double_free a (rw (h, inside, again))
                (ap (release_block a) as_block ∙ release_block_again a free n placed p again lt) p
                (λ _. refl)
          | inr busy ↦
              let ok = release_block_ok a free n placed p lt busy in
              released success (returned a n) (rw (h, inside, busy))
                (ap (release_block a) as_block ∙ ok) (returned-IsPool a free n placed p lt busy)
                (λ ne. absurd (ne refl))
        ]

  -- `PoolAllocator_releaseBlock` on a pointer into or behind the buffer: it answers by the
  -- alignment, the range and the free blocks, takes back a block that was handed out, and
  -- otherwise changes nothing.
  pub release_block-Released : Released a free t
  release_block-Released = elim (Bool-cases (t % a.item_size == 0)) [
    | inl h ↦ elim (Bool-cases (leb a.size_max (t / a.item_size))) [
      | inl behind ↦ behind-Released h behind
      | inr inside ↦ inside-Released h inside
    ]
    | inr h ↦ unaligned-Released h
  ]

handed-IsPlaced : (a : PoolAllocator) (i : ℕ) → IsPlaced a → IsPlaced (handed a i)
handed-IsPlaced a i p = record {
  item_pos = p.item_pos;
  buffer_pos = p.buffer_pos;
  small = p.small;
  space = p.space;
}

returned-handed :
    (a : PoolAllocator) (i : ℕ) (rest : List ℕ) → IsPool a (i ∷ rest) → returned (handed a i) i ≡ a
returned-handed a i rest p = λ j. record {
  buffer = a.buffer;
  free_list = fun_ext entries j;
  buffer_size = a.buffer_size;
  size = sizes j;
  size_max = a.size_max;
  item_size = a.item_size;
  first_idx = sym p.chain.0 j;
}
  where
    entries : (k : ℕ) → (returned (handed a i) i).free_list k ≡ a.free_list k
    entries k = ground arith

    sizes : incr (decr a.size) ≡ a.size
    sizes = rw p.size

-- Handing back the block that was handed out last restores the allocator, free list and all.
pub release-get_block :
    (a a' : PoolAllocator) (free : List ℕ) (b : Ptr)
    → IsPlaced a
    → IsPool a free
    → get_block a ≡ some (a', b)
    → b ≢ null
    → release_block a' b ≡ some (a, success)
release-get_block a a' [] b placed p e ne = absurd (ne (cc (get_block_empty a p)))
release-get_block a a' (i ∷ rest) b placed p e ne =
    let done : ◌≡◌ {A = Option (PoolAllocator × Ptr)} (some (handed a i, block a i))
        (some (a', b)) =
      sym (get_block_lem a i p.chain.0 p.chain.1) ∙ e in
    let same : handed a i ≡ a' = cc in
    let here : block a i ≡ b = cc in
    let q = handed-IsPool a i rest p in
    rw (← same, ← here)
      (release_block_ok (handed a i) rest i (handed-IsPlaced a i placed) q.pool q.in_range q.busy
        ∙ ap (λ x. some (x, success)) (returned-handed a i rest p))
