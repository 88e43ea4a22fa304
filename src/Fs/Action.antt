-- ===== src/Fs/Action.antt =====
-- How a function of homework.c ends: with a value, with a negative errno, or not at all.
pub mod Leaves
use cs5600_computer_systems.Prelude.{Bool, true, false, Option, none, some}

-- The errno values of the code, without their minus signs.
pub data Errno : Type 0 where
  enoent eio enomem enotdir eisdir enotempty eexist enospc einval : Errno

-- `fault` is a failed `assert`, an `exit`, or behaviour that C leaves undefined.
pub data Outcome (S A : Type 0) : Type 0 where
  done : A → S → Outcome S A
  failed : Errno → S → Outcome S A
  fault : Outcome S A

abbrev pub Action : Type 0 → Type 0 → Type 0
Action S A = S → Outcome S A

module _ {S A : Type 0} where
  abbrev pub pure : A → Action S A
  pure a s = done a s

  abbrev pub fail : Errno → Action S A
  fail e s = failed e s

  abbrev pub crash : Action S A
  crash s = fault

  abbrev pub gets : (S → A) → Action S A
  gets f s = done (f s) s

  abbrev pub or_fail : Errno → Option A → Action S A
  or_fail e none = fail e
  or_fail e (some a) = pure a

module _ {S A B : Type 0} where
  abbrev pub and_then : Outcome S A → (A → Action S B) → Outcome S B
  and_then (done a s) k = k a s
  and_then (failed e s) k = failed e s
  and_then fault k = fault

  infixl 5 ◌>>=◌ ◌>>◌
  abbrev pub ◌>>=◌ : Action S A → (A → Action S B) → Action S B
  m >>= k = λ s. and_then (m s) k

  abbrev pub ◌>>◌ : Action S A → Action S B → Action S B
  m >> k = m >>= λ _. k

module _ {S : Type 0} where
  -- `if (!ok) return -e;`
  abbrev pub require : Bool → Errno → Action S (Unit {0})
  require true e s = done tt s
  require false e s = failed e s

  abbrev pub drop_result : {A : Type 0} → Outcome S A → Outcome S (Unit {0})
  drop_result (done a s) = done tt s
  drop_result (failed e s) = done tt s
  drop_result fault = fault

  -- A call whose result the code drops.
  abbrev pub ignore : {A : Type 0} → Action S A → Action S (Unit {0})
  ignore m s = drop_result (m s)
