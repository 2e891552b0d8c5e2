-- ===== src/Kernel/Run.antt =====
-- Commands over the state.
-- `fault` is a null pointer that is followed, an array that is left, or a failed assertion;
-- `out_of_fuel` is a loop that was cut off; `switched` is a system call after which another
-- process, or none, has the processor.
use disastr_os_queues.Base.{Bool, true, false, Option, none, some}
use disastr_os_queues.Kernel.State.{System}

pub data Run (A : Type 0) : Type 0 where
  ok : A → System → Run A
  switched : System → Run A
  fault : Run A
  out_of_fuel : Run A

abbrev pub Cmd : Type 0 → Type 0
Cmd A = System → Run A

abbrev pub pure : {A : Type 0} → A → Cmd A
pure = ok

module _ {A B : Type 0} where
  abbrev and_then : Run A → (A → Cmd B) → Run B
  and_then (ok a s) k = k a s
  and_then (switched s) k = switched s
  and_then fault k = fault
  and_then out_of_fuel k = out_of_fuel

  infixl 5 ◌>>=◌
  abbrev pub ◌>>=◌ : Cmd A → (A → Cmd B) → Cmd B
  m >>= k = λ s. and_then (m s) k

infixl 5 ◌>>◌
abbrev pub ◌>>◌ : {B : Type 0} → Cmd (Unit {0}) → Cmd B → Cmd B
m >> n = m >>= λ _. n

abbrev pub get : Cmd System
get s = ok s s

abbrev pub modify : (System → System) → Cmd (Unit {0})
modify f s = ok tt (f s)

-- `assert(b)`
abbrev pub assert : Bool → Cmd (Unit {0})
assert true s = ok tt s
assert false s = fault

-- The result of a loop on fuel.
abbrev pub with_fuel : {A : Type 0} → Option A → Cmd A
with_fuel none s = out_of_fuel
with_fuel (some a) s = ok a s

-- The run ends, without a fault and with fuel to spare, in a result and a state with the property.
abbrev pub Ends : {A : Type 0} → (A → System → Type 0) → Run A → Type 0
Ends P (ok a s) = P a s
Ends P (switched s) = ⊥
Ends P fault = ⊥
Ends P out_of_fuel = ⊥

module _ {A B : Type 0} (P : A → System → Type 0) (Q : B → System → Type 0) where
  pub Ends-and_then :
      (r : Run A) (k : A → Cmd B)
      → Ends P r
      → ((a : A) (s : System) → P a s → Ends Q (k a s))
      → Ends Q (and_then r k)
  Ends-and_then (ok a s) k p next = next a s p
  Ends-and_then (switched s) k p next = p
  Ends-and_then fault k p next = p
  Ends-and_then out_of_fuel k p next = p

module _ {A : Type 0} (P Q : A → System → Type 0) where
  pub Ends-mono : (r : Run A) → Ends P r → ((a : A) (s : System) → P a s → Q a s) → Ends Q r
  Ends-mono (ok a s) p weaken = weaken a s p
  Ends-mono (switched s) p weaken = p
  Ends-mono fault p weaken = p
  Ends-mono out_of_fuel p weaken = p
