-- ===== src/Run/Returns.antt =====
-- Total correctness of a call: it returns, and its result and state satisfy a postcondition.
use mathlib.Core.Path.{◌≡◌, refl}
use bmb.Run.{Run, ok, crash, Cmd, and_then}

pub data Returns {S A : Type 0} (P : A → S → Type 0) : Run S A → Type 0 where
  returns : {a : A} {s : S} → P a s → Returns P (ok a s)

module _ {S A : Type 0} {P : A → S → Type 0} where
  pub bind :
      {B : Type 0} {Q : B → S → Type 0} {r : Run S A} {k : A → Cmd S B}
      → Returns P r
      → ((a : A) (s : S) → P a s → Returns Q (k a s))
      → Returns Q (and_then r k)
  bind (returns p) next = next _ _ p

  pub mono :
      {Q : A → S → Type 0} {r : Run S A}
      → Returns P r
      → ((a : A) (s : S) → P a s → Q a s)
      → Returns Q r
  mono (returns p) weaken = returns (weaken _ _ p)

  pub bind_crash :
      {B : Type 0} {r : Run S A} (k : A → Cmd S B)
      → Returns P r
      → ((a : A) (s : S) → P a s → k a s ≡ crash)
      → and_then r k ≡ crash
  bind_crash k (returns p) next = next _ _ p

  pub returned : {r : Run S A} → Returns P r → (a : A) × (s : S) × (r ≡ ok a s) × P a s
  returned (returns {a} {s} p) = (a, s, refl, p)
