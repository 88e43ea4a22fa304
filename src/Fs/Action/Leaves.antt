-- ===== src/Fs/Action/Leaves.antt =====
-- Calls that leave the state alone, however they end.
use cs5600_computer_systems.Prelude.{◌≡◌, refl, Bool, true, false, Option, none, some}
use cs5600_computer_systems.Fs.Action.{
  Errno, Outcome, done, failed, fault, Action, and_then, require, or_fail,
}

-- The outcome's state is `s`.
abbrev pub Leaves : {S A : Type 0} → S → Outcome S A → Type 0
Leaves s (done a s') = s' ≡ s
Leaves s (failed e s') = s' ≡ s
Leaves s fault = Unit

module _ {S : Type 0} where
  pub and_then-Leaves :
      {A B : Type 0} (s : S) (r : Outcome S A) (k : A → Action S B)
      → Leaves s r
      → ((a : A) → Leaves s (k a s))
      → Leaves s (and_then r k)
  and_then-Leaves s (done a s') k h rest = rw h (rest a)
  and_then-Leaves s (failed e s') k h rest = h
  and_then-Leaves s fault k h rest = tt

  pub require-Leaves : (s : S) (b : Bool) (e : Errno) → Leaves s (require b e s)
  require-Leaves s true e = refl
  require-Leaves s false e = refl

  pub or_fail-Leaves : {A : Type 0} (s : S) (e : Errno) (o : Option A) → Leaves s (or_fail e o s)
  or_fail-Leaves s e none = refl
  or_fail-Leaves s e (some a) = refl

  -- What a successful call returned, when it left the state alone.
  pub and_then-done :
      {A B : Type 0} (s s' : S) (r : Outcome S A) (k : A → Action S B) {b : B}
      → Leaves s r
      → and_then r k ≡ done b s'
      → (a : A) × (r ≡ done a s) × (k a s ≡ done b s')
  and_then-done s s' (done a t) k h e = (a, rw h, rw h at e)
  and_then-done s s' (failed x t) k h e = cc
  and_then-done s s' fault k h e = cc
