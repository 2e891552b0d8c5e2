-- ===== src/PoolAllocator/Taken.antt =====
-- Blocks that were handed out or given back, by their addresses.
use native.Mathlib.Nat.{mul-le-mul_right}
use disastr_os_queues.Base.{
  ℕ, suc, ◌+◌, ◌≤◌, ◌⊎◌, arith, ltb, ◌<◌, ◌≡◌, true, false, List, ◌∷◌, has, ap, sym, ◌∙◌, ◌==◌,
  ==_iff, Bool-cases, inl, inr, not-has-cons, refl,
}
use disastr_os_queues.LinkedList.{Ptr}
use disastr_os_queues.PoolAllocator.{PoolAllocator}
use disastr_os_queues.PoolAllocator.Free.{block}
use disastr_os_queues.PoolAllocator.Release.{returned}

-- The address of a block that was handed out.
pub record IsTaken (a : PoolAllocator) (free : List ℕ) (t : Ptr) : Type 0 where
  pub number : ℕ
  pub here : t ≡ block a number
  pub in_range : number < a.size_max
  pub busy : has number free ≡ false

-- The address of a free block.
pub record IsReturned (a : PoolAllocator) (free : List ℕ) (t : Ptr) : Type 0 where
  pub number : ℕ
  pub here : t ≡ block a number
  pub listed : has number free ≡ true

-- It stays taken while another one is given back.
pub IsTaken-returned :
    (a : PoolAllocator) (free : List ℕ) (t u : Ptr) (gone : IsTaken a free t)
    → IsTaken a free u
    → (t == u) ≡ false
    → IsTaken (returned a gone.number) (gone.number ∷ free) u
IsTaken-returned a free t u gone i ne = record {
  number = i.number;
  here = i.here;
  in_range = i.in_range;
  busy = elim (Bool-cases (gone.number == i.number)) [
    | inl e ↦
        let same = (==_iff gone.number i.number).0 e in
        let equal : t ≡ u = gone.here ∙ (ap (block a) same ∙ sym i.here) in
        let no : (u == u) ≡ false = ap (λ x. x == u) (sym equal) ∙ ne in
        let yes' = (==_iff u u).1 refl in cc
    | inr differ ↦ not-has-cons i.number gone.number free differ i.busy
  ];
}

-- Two blocks have no byte in common.
pub block-apart :
    (a : PoolAllocator) (i j o : ℕ)
    → (i == j) ≡ false
    → o < a.item_size
    → (block a j + o < block a i) ⊎ (block a i + a.item_size ≤ block a j + o)
block-apart a i j o differ inside = elim (Bool-cases (ltb i j)) [
  | inl less ↦
      let le : suc i ≤ j = ground arith in
      inr (let m = mul-le-mul_right a.item_size le in omega arith)
  | inr more ↦
      let le : suc j ≤ i = ground arith in
      inl (let m = mul-le-mul_right a.item_size le in omega arith)
]
