-- ===== src/Engine/Outcomes.antt =====
-- engine.py: how the fills of a bar can end, and `int()` of the size of an order. A named exit that the
-- engine cannot verify stops a strict run, and a size that cannot be filled any run.
use power_bridge.Base.{ℕ, Bool, true, false, Option, none, some, String, ℤ, pos}
use power_bridge.Engine.State.{Action, Size, zero_size, truncates_to, not_finite}

-- Why a size ends the run: `int()` of a nan or an infinity, or the division by 0 contracts. The last
-- is no error of the code: it fills a size below 0, and the model does not follow it there.
pub data Failure : Type 0 where
  no_int zero_division negative_size : Failure

-- The engine after the fills, or `NamedExitUnverifiedError(verb, entry)`, or a failure.
pub data Outcome (A : Type 0) : Type 0 where
  done : A → Outcome A
  unverified : Action → String → Outcome A
  failed : Failure → Outcome A

infixl 5 ◌>>=◌
abbrev pub ◌>>=◌ : {A B : Type 0} → Outcome A → (A → Outcome B) → Outcome B
done a >>= f = f a
unverified a n >>= f = unverified a n
failed x >>= f = failed x

-- `int(raw)` of a size, or the default of one that is false.
abbrev pub int_or : ℕ → Size → Outcome ℤ
int_or unsized zero_size = done (pos unsized)
int_or unsized (truncates_to k) = done k
int_or unsized not_finite = failed no_int

-- A strict run stops at an exit that is not clear; a lenient one only counts a warning.
abbrev pub verdict : {A : Type 0} → Bool → Action → Option String → A → Outcome A
verdict strict action none e = done e
verdict true action (some name) e = unverified action name
verdict false action (some name) e = done e
