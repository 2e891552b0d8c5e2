-- ===== src/Resource/QueueObject/Half.antt =====
-- The loop of Queue_free over the messages.
use disastr_os_queues.Base.{
  ℕ, zero, suc, ◌+◌, ◌<◌, ◌≤◌, ◌≡◌, refl, true, false, List, [], ◌∷◌, ◌++◌, arith, pos, ltb, length,
  ap, ◌==◌, Bool-cases, if◌then◌else◌, inl, inr, ◌⊎◌,
}
use disastr_os_queues.LinkedList
use disastr_os_queues.LinkedList.{Ptr, null, is_null}
use disastr_os_queues.LinkedList.Chain.{IsList}
use disastr_os_queues.PoolAllocator.Free.{IsPlaced}
use disastr_os_queues.PoolAllocator.Outside.{IsOutside}
use disastr_os_queues.Resource.QueueObject.{free_messages, message_offset}
use disastr_os_queues.Resource.QueueObject.Leak.{message_free_leaks}
use disastr_os_queues.Kernel.{System, messages, Ends, Ends-mono, get_head}
use disastr_os_queues.Kernel.Lists.{after, list_pop_ok}

-- The messages lie outside the string buffer.
abbrev AllOutside : System → List Ptr → Type 0
AllOutside s [] = Unit {0}
AllOutside s (x ∷ xs) = IsOutside s.pools.msg_strings (x + message_offset) × AllOutside s xs

-- What is left of the messages when the counter starts at `i`.
pub left : ℕ → List Ptr → List Ptr
left i [] = []
left i (x ∷ xs) = let rest = left (suc i) xs in if ltb i (suc (length xs)) then rest else x ∷ xs

length-left :
    (i : ℕ) (xs : List Ptr)
    → i ≤ suc (length xs)
    → ((length (left i xs) + length (left i xs) ≡ length xs + i)
        ⊎ (length (left i xs) + length (left i xs) + 1 ≡ length xs + i))
unfolding left
length-left i [] h = grind arith
length-left i (x ∷ xs) h = elim (Bool-cases (ltb i (suc (length xs)))) [
  | inl lt ↦ let rest = length-left (suc i) xs (ground arith) in rw lt (grind arith)
  | inr ge ↦ rw ge (grind arith)
]

left-suffix : (i : ℕ) (xs : List Ptr) → (taken : List Ptr) × (taken ++ left i xs ≡ xs)
unfolding left
left-suffix i [] = ([], refl)
left-suffix i (x ∷ xs) = elim (Bool-cases (ltb i (suc (length xs)))) [
  | inl lt ↦ let (taken, e) = left-suffix (suc i) xs in (x ∷ taken, rw lt (ap (λ ys. x ∷ ys) e))
  | inr ge ↦ ([], rw ge)
]

free_messages-left :
    (rounds i : ℕ) (q : Ptr) (xs : List Ptr) (s : System)
    → is_null q ≡ false
    → IsList s.items (s.queues q).messages xs
    → IsPlaced s.pools.msg_strings
    → AllOutside s xs
    → length xs < rounds
    → Ends
        (λ _ t. IsList t.items (t.queues q).messages (left i xs))
        (free_messages rounds (pos i) q s)
unfolding free_messages left get_head
free_messages-left zero i q xs s some l placed out fuel = elim fuel [ ]
free_messages-left (suc rounds) i q [] s some l placed out fuel =
    let none : ltb i 0 ≡ false = ground arith in rw (some, l.size, none) l
free_messages-left (suc rounds) i q (x ∷ xs) s some l placed (first, out) fuel =
    let x_some : is_null x ≡ false = let h = l.non_null in ground arith in
    let (e, d) = list_pop_ok (messages q) s some x xs l x_some in
    let s1 = after (messages q) (LinkedList.pop (s.queues q).messages s.items) s in
    let self : (q == q) ≡ true = ground arith in
    let here : IsList s1.items (s1.queues q).messages xs = rw self d.list in
    elim (Bool-cases (ltb i (suc (length xs)))) [
      | inl lt ↦
          rw (some, l.size, lt, e, message_free_leaks s1 x placed first)
            (free_messages-left rounds (suc i) q xs s1 some here placed out (omega arith))
      | inr ge ↦ rw (some, l.size, ge) l
    ]

-- The messages that are left: the last ones, and half of all, rounded down.
pub record Halved (q : Ptr) (xs : List Ptr) (t : System) : Type 0 where
  pub taken : List Ptr
  pub rest : List Ptr
  pub whole : taken ++ rest ≡ xs
  pub list : IsList t.items (t.queues q).messages rest
  pub half : (length rest + length rest ≡ length xs) ⊎ (length rest + length rest + 1 ≡ length xs)

-- The loop of `Queue_free` over the messages ends, and leaves the later half of them in the queue,
-- where the messages lie outside the string buffer and the rounds are more than the messages.
pub free_messages-Halved :
    (rounds : ℕ) (q : Ptr) (xs : List Ptr) (s : System)
    → is_null q ≡ false
    → IsList s.items (s.queues q).messages xs
    → IsPlaced s.pools.msg_strings
    → AllOutside s xs
    → length xs < rounds
    → Ends (λ _ t. Halved q xs t) (free_messages rounds (pos 0) q s)
free_messages-Halved rounds q xs s some l placed out fuel =
    let (taken, e) = left-suffix 0 xs in
    let count = length-left 0 xs (omega arith) in
    Ends-mono (λ _ t. IsList t.items (t.queues q).messages (left 0 xs)) (λ _ t. Halved q xs t)
      (free_messages rounds (pos 0) q s) (free_messages-left rounds 0 q xs s some l placed out fuel)
      λ _ t k. record { taken = taken; rest = left 0 xs; whole = e; list = k; half = ground arith }
