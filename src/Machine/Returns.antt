-- ===== src/Machine/Returns.antt =====
-- Total correctness of a run: it ends normally, and its result and store meet a postcondition.
use common_utils_lib.Base.{◌≡◌, refl}
use common_utils_lib.Machine.{Run, ok, fault, aborted, blocked, out_of_fuel, Cmd, then_run}

pub data Returns {S A : Type 0} (P : A → S → Type 0) : Run S A → Type 0 where
  returns : {a : A} {s : S} → P a s → Returns P (ok a s)

module _ {S A : Type 0} {P : A → S → Type 0} where
  pub weaken :
      {Q : A → S → Type 0} {r : Run S A}
      → Returns P r
      → ((a : A) (s : S) → P a s → Q a s)
      → Returns Q r
  weaken (returns p) f = returns (f _ _ p)

  pub chain :
      {B : Type 0} {Q : B → S → Type 0} {r : Run S A} {k : A → Cmd S B}
      → Returns P r
      → ((a : A) (s : S) → P a s → Returns Q (k a s))
      → Returns Q (then_run r k)
  chain (returns p) f = f _ _ p

  -- The run as an equation.
  pub result : (r : Run S A) → Returns P r → (a : A) × (s : S) × (r ≡ ok a s) × P a s
  result (ok a s) (returns p) = (a, s, refl, p)
  result fault p = elim p [ ]
  result aborted p = elim p [ ]
  result blocked p = elim p [ ]
  result out_of_fuel p = elim p [ ]
