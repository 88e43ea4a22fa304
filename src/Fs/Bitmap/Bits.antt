-- ===== src/Fs/Bitmap/Bits.antt =====
-- The bits of the bitmap after `bit_set` and `bit_clear`.
use cs5600_computer_systems.Prelude.{
  ℕ, ◌-◌, ◌/◌, ◌%◌, ◌^◌, ◌<◌, ◌≡◌, refl, Bool, true, false, not, ◌&&◌, bit_and, bit_or, arith, ltb,
  ◌==◌, if◌then◌else◌, all_below, all_below-at, Bool-cases, inl, inr, ==_iff, ap, ◌∙◌, sym,
}
use cs5600_computer_systems.Fs.Block.{Block}
use cs5600_computer_systems.Fs.Bitmap.{bit_set, bit_clear, bit_test}
use cs5600_computer_systems.Fs.Dirent.Slots.{IsBytes}

-- Equality of Booleans, as a test.
abbrev same : Bool → Bool → Bool
same true b = b
same false b = not b

same_sound : (a b : Bool) → same a b ≡ true → a ≡ b
same_sound true b h = sym h
same_sound false true h = cc
same_sound false false h = refl

abbrev has_bit : ℕ → ℕ → Bool
has_bit x k = not (bit_and x (2 ^ k) == 0)

set_table :
    all_below 8 (λ j. all_below 8 (λ k. all_below 256 (λ x.
      same (has_bit (bit_or x (2 ^ k)) j) (if k == j then true else has_bit x j)
      && ltb (bit_or x (2 ^ k)) 256)))
    ≡ true
unfolding all_below
set_table = refl

clear_table :
    all_below 8 (λ j. all_below 8 (λ k. all_below 256 (λ x.
      same (has_bit (bit_and x (255 - 2 ^ k)) j) (if k == j then false else has_bit x j)
      && ltb (bit_and x (255 - 2 ^ k)) 256)))
    ≡ true
unfolding all_below
clear_table = refl

and-split : (a b : Bool) → (a && b) ≡ true → (a ≡ true) × (b ≡ true)
and-split true b h = (refl, h)
and-split false b h = cc

set_entry :
    (x k j : ℕ)
    → x < 256
    → k < 8
    → j < 8
    → (has_bit (bit_or x (2 ^ k)) j ≡ (if k == j then true else has_bit x j))
      × (bit_or x (2 ^ k) < 256)
set_entry x k j hx hk hj =
    let row = all_below-at _ 8 j hj set_table in
    let column = all_below-at _ 8 k hk row in
    let (bits, small) = and-split _ _ (all_below-at _ 256 x hx column) in
    (same_sound _ _ bits, ground arith)

clear_entry :
    (x k j : ℕ)
    → x < 256
    → k < 8
    → j < 8
    → (has_bit (bit_and x (255 - 2 ^ k)) j ≡ (if k == j then false else has_bit x j))
      × (bit_and x (255 - 2 ^ k) < 256)
clear_entry x k j hx hk hj =
    let row = all_below-at _ 8 j hj clear_table in
    let column = all_below-at _ 8 k hk row in
    let (bits, small) = and-split _ _ (all_below-at _ 256 x hx column) in
    (same_sound _ _ bits, ground arith)

-- Two bit numbers are equal if they name the same bit of the same byte.
eq-div-mod : (i j : ℕ) → i / 8 ≡ j / 8 → (i % 8 == j % 8) ≡ (i == j)
eq-div-mod i j e = ground arith

ne-div : (i j : ℕ) → (j / 8 == i / 8) ≡ false → (i == j) ≡ false
ne-div i j h = ground arith

module _ (m : Block) (i j : ℕ) (bytes : IsBytes m) where
  -- On a bitmap of bytes, `bit_set` of a bit sets this bit, and leaves every other bit as it
  -- was.
  pub bit_test-bit_set : bit_test (bit_set m i) j ≡ (if i == j then true else bit_test m j)
  unfolding bit_test bit_set
  bit_test-bit_set = elim (Bool-cases (j / 8 == i / 8)) [
    | inl here ↦ rw here (
        (set_entry (m (j / 8)) (i % 8) (j % 8) (bytes (j / 8)) (omega arith) (omega arith)).0
        ∙ ap (λ (c : Bool). if c then true else has_bit (m (j / 8)) (j % 8))
            (eq-div-mod i j (sym ((==_iff (j / 8) (i / 8)).0 here))))
    | inr there ↦ rw (there, ne-div i j there)
  ]

  -- On a bitmap of bytes, `bit_clear` of a bit clears this bit, and leaves every other bit as it
  -- was.
  pub bit_test-bit_clear : bit_test (bit_clear m i) j ≡ (if i == j then false else bit_test m j)
  unfolding bit_test bit_clear
  bit_test-bit_clear = elim (Bool-cases (j / 8 == i / 8)) [
    | inl here ↦ rw here (
        (clear_entry (m (j / 8)) (i % 8) (j % 8) (bytes (j / 8)) (omega arith) (omega arith)).0
        ∙ ap (λ (c : Bool). if c then false else has_bit (m (j / 8)) (j % 8))
            (eq-div-mod i j (sym ((==_iff (j / 8) (i / 8)).0 here))))
    | inr there ↦ rw (there, ne-div i j there)
  ]

module _ (m : Block) (i : ℕ) (bytes : IsBytes m) where
  pub bit_set-IsBytes : IsBytes (bit_set m i)
  unfolding bit_set
  bit_set-IsBytes o =
      ground (arith, bytes o, (set_entry (m o) (i % 8) 0 (bytes o) (omega arith) (omega arith)).1)

  pub bit_clear-IsBytes : IsBytes (bit_clear m i)
  unfolding bit_clear
  bit_clear-IsBytes o =
      ground (arith, bytes o, (clear_entry (m o) (i % 8) 0 (bytes o) (omega arith) (omega arith)).1)

module _ (m : Block) (i j : ℕ) (bytes : IsBytes m) where
  -- A bit that was set stays set when another is.
  pub bit_set-keeps : bit_test m j ≡ true → bit_test (bit_set m i) j ≡ true
  bit_set-keeps h = bit_test-bit_set m i j bytes ∙ ground arith

  -- A bit that is clear after another was set was clear before.
  pub bit_set-was_clear : bit_test (bit_set m i) j ≡ false → bit_test m j ≡ false
  bit_set-was_clear h = ground (arith, bit_test-bit_set m i j bytes)

pub bit_set-sets : (m : Block) (i : ℕ) → IsBytes m → bit_test (bit_set m i) i ≡ true
bit_set-sets m i bytes = bit_test-bit_set m i i bytes ∙ ground arith
