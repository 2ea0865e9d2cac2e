-- ===== src/Run.antt =====
-- What a call does to a state, as C allows: it returns with a new state, it crashes (a NULL
-- pointer or a dangling one is read, a buffer is overrun), or it ends the process by `exit`. A
-- loop that is given too few rounds runs out of them.
pub mod Returns
use mathlib.Core.Option.{Option, none, some}

pub data Run (S A : Type 0) : Type 0 where
  ok : A → S → Run S A
  crash : Run S A
  exited : Run S A
  out_of_rounds : Run S A

abbrev pub Cmd : Type 0 → Type 0 → Type 0
Cmd S A = S → Run S A

module _ {S A : Type 0} where
  abbrev pub pure : A → Cmd S A
  pure a s = ok a s

  abbrev pub crashes : Cmd S A
  crashes s = crash

  -- What a pointer points to, if it is not NULL.
  abbrev pub required : Option A → Cmd S A
  required none = crashes
  required (some a) = pure a

module _ {S A B : Type 0} where
  abbrev pub and_then : Run S A → (A → Cmd S B) → Run S B
  and_then (ok a s) k = k a s
  and_then crash k = crash
  and_then exited k = exited
  and_then out_of_rounds k = out_of_rounds

  infixl 5 ◌>>=◌ ◌>>◌
  abbrev pub ◌>>=◌ : Cmd S A → (A → Cmd S B) → Cmd S B
  m >>= k = λ s. and_then (m s) k

  abbrev pub ◌>>◌ : Cmd S A → Cmd S B → Cmd S B
  m >> n = m >>= λ _. n
