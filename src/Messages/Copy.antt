-- ===== src/Messages/Copy.antt =====
-- The copy loops of internal_sendMessage and internal_recvMessage.
pub mod Twice
use disastr_os_queues.Base.{
  ℕ, zero, suc, ◌+◌, ◌-◌, ◌≤◌, ◌<◌, ◌≡◌, refl, true, false, ◌⊎◌, inl, inr, arith, ◌==◌, ltb, leb,
  ◌&&◌, update, if◌then◌else◌, Bool-cases, ap, ◌∙◌,
}
use disastr_os_queues.LinkedList.{Ptr, is_null}
use disastr_os_queues.Messages.{copy, copy_text}
use disastr_os_queues.Kernel.{System, ok}

-- How many characters are copied: `n` at most, and none behind the first zero.
unfoldable pub copied_length : ℕ → Ptr → (Ptr → ℕ) → ℕ
copied_length zero from bytes = 0
copied_length (suc n) from bytes =
    let rest = copied_length n (from + 1) bytes in if bytes from == 0 then 1 else suc rest

copied_length-update :
    (n : ℕ) (from : Ptr) (bytes : Ptr → ℕ) (p v : ℕ)
    → (p < from) ⊎ (from + n ≤ p)
    → copied_length n from (update bytes p v) ≡ copied_length n from bytes
unfolding copied_length
copied_length-update zero from bytes p v h = refl
copied_length-update (suc n) from bytes p v h =
    let h' : (p < from + 1) ⊎ (from + 1 + n ≤ p) = ground arith in
    ground (arith, copied_length-update n (from + 1) bytes p v h')

copied_length-le : (n : ℕ) (from : Ptr) (bytes : Ptr → ℕ) → copied_length n from bytes ≤ n
unfolding copied_length
copied_length-le zero from bytes = omega arith
copied_length-le (suc n) from bytes = ground (arith, copied_length-le n (from + 1) bytes)

-- The first character, and those behind it.
first_char :
    (to from : Ptr) (bytes : Ptr → ℕ) (a : Ptr)
    → update bytes to (bytes from) a
      ≡ (if leb to a && ltb a (to + 1) then bytes (from + (a - to)) else bytes a)
first_char to from bytes a =
    let here : a ≡ to → bytes (from + (a - to)) ≡ bytes from = λ e. ap bytes (omega arith) in
    ground arith

next_chars :
    (n k : ℕ) (to from : Ptr) (bytes : Ptr → ℕ) (a : Ptr)
    → k ≤ n
    → (from + suc n ≤ to) ⊎ (to + suc n ≤ from)
    → (if leb (to + 1) a && ltb a (to + 1 + k)
        then update bytes to (bytes from) (from + 1 + (a - (to + 1)))
        else update bytes to (bytes from) a)
      ≡ (if leb to a && ltb a (to + suc k) then bytes (from + (a - to)) else bytes a)
next_chars n k to from bytes a le h =
    let here : a ≡ to → bytes (from + (a - to)) ≡ bytes from = λ e. ap bytes (omega arith) in
    let behind : to < a → bytes (from + 1 + (a - (to + 1))) ≡ bytes (from + (a - to)) =
      λ e. ap bytes (omega arith) in
    ground arith

-- Where the `n` bytes of source and target do not overlap, the copy changes the target as far as
-- the first zero of the source, or to its end, and no other byte of the memory.
pub copy-char :
    (n : ℕ) (to from : Ptr) (bytes : Ptr → ℕ) (a : Ptr)
    → (from + n ≤ to) ⊎ (to + n ≤ from)
    → copy n to from bytes a ≡ (
        if leb to a && ltb a (to + copied_length n from bytes)
        then bytes (from + (a - to))
        else bytes a)
unfolding copy copied_length
copy-char zero to from bytes a h = ground arith
copy-char (suc n) to from bytes a h =
    let same : update bytes to (bytes from) from ≡ bytes from = ground arith in
    let apart : (from + 1 + n ≤ to + 1) ⊎ (to + 1 + n ≤ from + 1) = ground arith in
    let out : (to < from + 1) ⊎ (from + 1 + n ≤ to) = ground arith in
    let rest = copy-char n (to + 1) (from + 1) (update bytes to (bytes from)) a apart in
    let len = copied_length-update n (from + 1) bytes to (bytes from) out in
    let le = copied_length-le n (from + 1) bytes in
    elim (Bool-cases (bytes from == 0)) [
      | inl e ↦ rw (same, e) (first_char to from bytes a)
      | inr e ↦ rw (same, e, rest, len) (next_chars n _ to from bytes a le h)
    ]

-- Nothing is written outside of the `n` bytes of the target.
pub copy-outside :
    (n : ℕ) (to from : Ptr) (bytes : Ptr → ℕ) (a : Ptr)
    → (a < to) ⊎ (to + n ≤ a)
    → copy n to from bytes a ≡ bytes a
unfolding copy
copy-outside zero to from bytes a h = refl
copy-outside (suc n) to from bytes a h =
    let bytes' = update bytes to (bytes from) in
    let kept : bytes' a ≡ bytes a = ground arith in
    let h' : (a < to + 1) ⊎ (to + 1 + n ≤ a) = ground arith in
    let rest = copy-outside n (to + 1) (from + 1) bytes' a h' in
    elim (Bool-cases (bytes' from == 0)) [
      | inl end ↦ rw end kept
      | inr more ↦ rw more (rest ∙ kept)
    ]

-- With two pointers that are not null there is no fault.
pub copy_text_ok :
    (n : ℕ) (to from : Ptr) (s : System)
    → is_null to ≡ false
    → is_null from ≡ false
    → copy_text n to from s ≡ ok tt (record s { bytes = copy n to from s.bytes })
unfolding copy_text
copy_text_ok n to from s h k = elim (Bool-cases (ltb 0 n)) [
  | inl some ↦ rw (some, h, k) refl
  | inr none ↦ rw none refl
]
