-- ===== src/Machine.antt =====
-- What a call of the library does to the store `S` that it works on.
pub mod Returns
pub mod Mutex
use common_utils_lib.Base.{ℕ, Bool, true, false, if◌then◌else◌}

-- `fault` is undefined behaviour (a bad pointer, an index out of range), `aborted` a failed
-- `assert`, `blocked` a lock that is never granted, `out_of_fuel` a loop cut off by the model.
pub data Run (S A : Type 0) : Type 0 where
  ok : A → S → Run S A
  fault : Run S A
  aborted : Run S A
  blocked : Run S A
  out_of_fuel : Run S A

abbrev pub Cmd : Type 0 → Type 0 → Type 0
Cmd S A = S → Run S A

-- Addresses; 0 is `NULL`.
abbrev pub Ptr : Type 0
Ptr = ℕ

abbrev pub null : Ptr
null = 0

module _ {S : Type 0} where
  abbrev pub pure : {A : Type 0} → A → Cmd S A
  pure = ok

  abbrev pub then_run : {A B : Type 0} → Run S A → (A → Cmd S B) → Run S B
  then_run (ok a s) k = k a s
  then_run fault k = fault
  then_run aborted k = aborted
  then_run blocked k = blocked
  then_run out_of_fuel k = out_of_fuel

  infixl 5 ◌>>=◌ ◌>>◌
  abbrev pub ◌>>=◌ : {A B : Type 0} → Cmd S A → (A → Cmd S B) → Cmd S B
  m >>= k = λ s. then_run (m s) k

  abbrev pub ◌>>◌ : {A B : Type 0} → Cmd S A → Cmd S B → Cmd S B
  m >> k = m >>= λ _. k
