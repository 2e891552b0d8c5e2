-- ===== src/Messages/Copy/Twice.antt =====
-- A text that goes into a queue and out again.
use disastr_os_queues.Base.{
  ℕ, zero, suc, ◌+◌, ◌≤◌, ◌<◌, ◌≡◌, refl, true, ◌⊎◌, inl, inr, arith, ◌==◌, ltb, leb, Bool-cases,
  ap, ◌∙◌,
}
use disastr_os_queues.LinkedList.{Ptr}
use disastr_os_queues.Messages.{copy}
use disastr_os_queues.Messages.Copy.{copied_length, copy-char}

copied_length-pos : (n : ℕ) (p : Ptr) (b : Ptr → ℕ) → 0 < copied_length (suc n) p b
unfolding copied_length
copied_length-pos n p b = ground arith

-- The same characters have the same length.
copied_length-same :
    (n : ℕ) (p q : Ptr) (b c : Ptr → ℕ)
    → ((j : ℕ) → j < copied_length n p b → c (q + j) ≡ b (p + j))
    → copied_length n q c ≡ copied_length n p b
unfolding copied_length
copied_length-same zero p q b c same = refl
copied_length-same (suc n) p q b c same =
    let first : c q ≡ b p =
      ap c (omega arith) ∙ (same 0 (copied_length-pos n p b) ∙ ap b (omega arith)) in
    elim (Bool-cases (b p == 0)) [
      | inl end ↦ rw (first, end) refl
      | inr more ↦
          let rest = copied_length-same n (p + 1) (q + 1) b c λ j lt.
            ap c (omega arith) ∙ (same (suc j) (rw more (omega arith)) ∙ ap b (omega arith)) in
          rw (first, more, rest) refl
    ]

module _ (n : ℕ) (to from : Ptr) (bytes : Ptr → ℕ) (apart : (from + n ≤ to) ⊎ (to + n ≤ from))
    (k : ℕ) (lt : k < copied_length n from bytes) where
  copy_inside : copy n to from bytes (to + k) ≡ bytes (from + k)
  copy_inside =
      let low : leb to (to + k) ≡ true = ground arith in
      let high : ltb (to + k) (to + copied_length n from bytes) ≡ true = ground arith in
      copy-char n to from bytes (to + k) apart ∙ rw (low, high) (ap bytes (omega arith))

-- A text that is copied into a string block and from there into a buffer, neither of which overlaps
-- the one before, arrives unchanged: each character up to the first zero of the text, or to the
-- `n`-th, is the one that was sent.
pub copy-copy :
    (n : ℕ) (msg str buffer : Ptr) (bytes : Ptr → ℕ) (k : ℕ)
    → (msg + n ≤ str) ⊎ (str + n ≤ msg)
    → (str + n ≤ buffer) ⊎ (buffer + n ≤ str)
    → k < copied_length n msg bytes
    → copy n buffer str (copy n str msg bytes) (buffer + k) ≡ bytes (msg + k)
copy-copy n msg str buffer bytes k apart apart' lt =
    let kept = copy n str msg bytes in
    let length : copied_length n str kept ≡ copied_length n msg bytes =
      copied_length-same n msg str bytes kept λ j h. copy_inside n str msg bytes apart j h in
    copy_inside n buffer str kept apart' k (omega arith) ∙ copy_inside n str msg bytes apart k lt
