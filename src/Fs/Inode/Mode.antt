-- ===== src/Fs/Inode/Mode.antt =====
-- The mode of an inode as a number: the file type is its digits from 4096 on, and `fs_chmod` keeps just these.
use Prim.Native.Nat.{min, max, bit_and-bitwise, bit_or-bitwise, digits}
use cs5600_computer_systems.Prelude.{
  ℕ, zero, suc, ◌+◌, ◌-◌, ◌*◌, ◌/◌, ◌%◌, ◌^◌, ◌≤◌, ◌<◌, ◌≡◌, refl, bit_and, bit_or, arith, ap, ◌∙◌,
  sym, ◌==◌,
}
use cs5600_computer_systems.Fs.Inode.{Inode, s_ifmt, s_ifdir, is_dir}
use cs5600_computer_systems.Fs.Attributes.{chmod_mode}

-- The count of digits to go does not matter once it is as large as the number.
digits-count :
    (z : ℕ → ℕ) (f : ℕ → ℕ → ℕ) (k l a b : ℕ) → a ≤ k → a ≤ l → digits z f k a b ≡ digits z f l a b
digits-count z f zero zero a b p q = refl
digits-count z f zero (suc l) zero b p q = refl
digits-count z f zero (suc l) (suc a) b p q = absurd (omega arith)
digits-count z f (suc k) zero zero b p q = refl
digits-count z f (suc k) zero (suc a) b p q = absurd (omega arith)
digits-count z f (suc k) (suc l) zero b p q = refl
digits-count z f (suc k) (suc l) (suc a) b p q =
    ap (λ (r : ℕ). r * 2 + f (suc a % 2) (b % 2))
      (digits-count z f k l (suc a / 2) (b / 2) (omega arith) (omega arith))

zero_and : (b : ℕ) → bit_and 0 b ≡ 0
zero_and b = bit_and-bitwise 0 b

zero_or : (b : ℕ) → bit_or 0 b ≡ b
zero_or b = bit_or-bitwise 0 b

-- The last binary digit of a conjunction.
and_digit : (a b : ℕ) → bit_and a b ≡ bit_and (a / 2) (b / 2) * 2 + min (a % 2) (b % 2)
and_digit zero b = omega (arith, zero_and b, zero_and (b / 2))
and_digit (suc a) b =
    bit_and-bitwise (suc a) b
    ∙ ap (λ (r : ℕ). r * 2 + min (suc a % 2) (b % 2))
        (digits-count (λ c. 0) min a (suc a / 2) (suc a / 2) (b / 2) (omega arith) (omega arith)
          ∙ sym (bit_and-bitwise (suc a / 2) (b / 2)))

or_digit : (a b : ℕ) → bit_or a b ≡ bit_or (a / 2) (b / 2) * 2 + max (a % 2) (b % 2)
or_digit zero b = omega (arith, zero_or b, zero_or (b / 2))
or_digit (suc a) b =
    bit_or-bitwise (suc a) b
    ∙ ap (λ (r : ℕ). r * 2 + max (suc a % 2) (b % 2))
        (digits-count (λ c. c) max a (suc a / 2) (suc a / 2) (b / 2) (omega arith) (omega arith)
          ∙ sym (bit_or-bitwise (suc a / 2) (b / 2)))

double_half : (c : ℕ) → c * 2 / 2 ≡ c
double_half c = omega arith

odd_half : (c : ℕ) → (c * 2 + 1) / 2 ≡ c
odd_half c = omega arith

-- A mask with a last digit 0, and with a last digit 1.
and_even : (a c : ℕ) → bit_and a (c * 2) ≡ bit_and (a / 2) c * 2
and_even a c = omega (arith, and_digit a (c * 2), ap (bit_and (a / 2)) (double_half c))

and_odd : (a c : ℕ) → bit_and a (c * 2 + 1) ≡ bit_and (a / 2) c * 2 + a % 2
and_odd a c = omega (arith, and_digit a (c * 2 + 1), ap (bit_and (a / 2)) (odd_half c))

-- The same for four digits.
and_0 : (a c : ℕ) → bit_and a (c * 16) ≡ bit_and (a / 16) c * 16
and_0 a c =
    let four : c * 16 ≡ c * 2 * 2 * 2 * 2 = omega arith in
    let high : a / 2 / 2 / 2 / 2 ≡ a / 16 = omega arith in
    omega (
      arith,
      ap (bit_and a) four,
      and_even a (c * 2 * 2 * 2),
      and_even (a / 2) (c * 2 * 2),
      and_even (a / 2 / 2) (c * 2),
      and_even (a / 2 / 2 / 2) c,
      ap (λ (h : ℕ). bit_and h c) high,
    )

and_f : (a c : ℕ) → bit_and a (c * 16 + 15) ≡ bit_and (a / 16) c * 16 + a % 16
and_f a c =
    let four : c * 16 + 15 ≡ (((c * 2 + 1) * 2 + 1) * 2 + 1) * 2 + 1 = omega arith in
    let high : a / 2 / 2 / 2 / 2 ≡ a / 16 = omega arith in
    omega (
      arith,
      ap (bit_and a) four,
      and_odd a (((c * 2 + 1) * 2 + 1) * 2 + 1),
      and_odd (a / 2) ((c * 2 + 1) * 2 + 1),
      and_odd (a / 2 / 2) (c * 2 + 1),
      and_odd (a / 2 / 2 / 2) c,
      ap (λ (h : ℕ). bit_and h c) high,
    )

-- For three times four digits.
and_000 : (a c : ℕ) → bit_and a (c * 16 * 16 * 16) ≡ bit_and (a / 4096) c * 4096
and_000 a c =
    let high : a / 16 / 16 / 16 ≡ a / 4096 = omega arith in
    omega (
      arith,
      and_0 a (c * 16 * 16),
      and_0 (a / 16) (c * 16),
      and_0 (a / 16 / 16) c,
      ap (λ (h : ℕ). bit_and h c) high,
    )

and_fff :
    (a c : ℕ)
    → bit_and a (((c * 16 + 15) * 16 + 15) * 16 + 15) ≡ bit_and (a / 4096) c * 4096 + a % 4096
and_fff a c =
    let high : a / 16 / 16 / 16 ≡ a / 4096 = omega arith in
    omega (
      arith,
      and_f a ((c * 16 + 15) * 16 + 15),
      and_f (a / 16) (c * 16 + 15),
      and_f (a / 16 / 16) c,
      ap (λ (h : ℕ). bit_and h c) high,
    )

and_none : (a : ℕ) → bit_and a 0 ≡ 0
and_none a = go a a (omega arith)
  where
    go : (k a : ℕ) → a ≤ k → bit_and a 0 ≡ 0
    go k zero small = zero_and 0
    go zero (suc a) small = absurd (omega arith)
    go (suc k) (suc a) small = omega (arith, and_even (suc a) 0, go k (suc a / 2) (omega arith))

-- The digits that `S_IFMT` selects, and the ones that it leaves.
pub and-s_ifmt : (m : ℕ) → bit_and m s_ifmt ≡ m / 4096 % 16 * 4096
and-s_ifmt m = omega (arith, and_000 m 15, and_f (m / 4096) 0, and_none (m / 4096 / 16))

and_rest : (m : ℕ) → m < 2 ^ 32 → bit_and m (2 ^ 32 - 1 - s_ifmt) ≡ m % 4096 + m / 65536 * 65536
and_rest m small = omega (
  arith,
  and_fff m 0xFFFF0,
  and_0 (m / 4096) 0xFFFF,
  and_fff (m / 4096 / 16) 15,
  and_f (m / 4096 / 16 / 4096) 0,
  and_none (m / 4096 / 16 / 4096 / 16),
)

or_left : (a b : ℕ) → bit_or (a * 2) b ≡ bit_or a (b / 2) * 2 + b % 2
or_left a b = omega (arith, or_digit (a * 2) b, ap (λ (h : ℕ). bit_or h (b / 2)) (double_half a))

or_right : (a b : ℕ) → bit_or a (b * 2) ≡ bit_or (a / 2) b * 2 + a % 2
or_right a b = omega (arith, or_digit a (b * 2), ap (bit_or (a / 2)) (double_half b))

or_left_0 : (a b : ℕ) → bit_or (a * 16) b ≡ bit_or a (b / 16) * 16 + b % 16
or_left_0 a b =
    let four : a * 16 ≡ a * 2 * 2 * 2 * 2 = omega arith in
    let high : b / 2 / 2 / 2 / 2 ≡ b / 16 = omega arith in
    omega (
      arith,
      ap (λ (h : ℕ). bit_or h b) four,
      or_left (a * 2 * 2 * 2) b,
      or_left (a * 2 * 2) (b / 2),
      or_left (a * 2) (b / 2 / 2),
      or_left a (b / 2 / 2 / 2),
      ap (bit_or a) high,
    )

or_right_0 : (a b : ℕ) → bit_or a (b * 16) ≡ bit_or (a / 16) b * 16 + a % 16
or_right_0 a b =
    let four : b * 16 ≡ b * 2 * 2 * 2 * 2 = omega arith in
    let high : a / 2 / 2 / 2 / 2 ≡ a / 16 = omega arith in
    omega (
      arith,
      ap (bit_or a) four,
      or_right a (b * 2 * 2 * 2),
      or_right (a / 2) (b * 2 * 2),
      or_right (a / 2 / 2) (b * 2),
      or_right (a / 2 / 2 / 2) b,
      ap (λ (h : ℕ). bit_or h b) high,
    )

or_left_000 : (a b : ℕ) → bit_or (a * 16 * 16 * 16) b ≡ bit_or a (b / 4096) * 4096 + b % 4096
or_left_000 a b =
    let high : b / 16 / 16 / 16 ≡ b / 4096 = omega arith in
    omega (
      arith,
      or_left_0 (a * 16 * 16) b,
      or_left_0 (a * 16) (b / 16),
      or_left_0 a (b / 16 / 16),
      ap (bit_or a) high,
    )

-- Numbers with no digit in common.
or-apart :
    (t l h : ℕ) → t < 16 → l < 4096 → bit_or (t * 4096) (l + h * 65536) ≡ t * 4096 + (l + h * 65536)
or-apart t l h lt low =
    let form : t * 4096 ≡ t * 16 * 16 * 16 = omega arith in
    let high : (l + h * 65536) / 4096 ≡ h * 16 = omega arith in
    let none : t / 16 ≡ 0 = omega arith in
    omega (
      arith,
      ap (λ (c : ℕ). bit_or c (l + h * 65536)) form,
      or_left_000 t (l + h * 65536),
      ap (bit_or t) high,
      or_right_0 t h,
      ap (λ (c : ℕ). bit_or c h) none,
      zero_or h,
    )

pub chmod_mode-eq :
    (old new : ℕ)
    → new < 2 ^ 32
    → chmod_mode old new ≡ old / 4096 % 16 * 4096 + (new % 4096 + new / 65536 * 65536)
unfolding chmod_mode
chmod_mode-eq old new small =
    ap (λ (x : ℕ). bit_or x (bit_and new (2 ^ 32 - 1 - s_ifmt))) (and-s_ifmt old)
    ∙ ap (bit_or (old / 4096 % 16 * 4096)) (and_rest new small)
    ∙ or-apart (old / 4096 % 16) (new % 4096) (new / 65536) (omega arith) (omega arith)

-- A directory is an inode of file type 4.
pub is_dir-eq : (n : Inode) → is_dir n ≡ (n.mode / 4096 % 16 == 4)
unfolding is_dir
is_dir-eq n = ap (λ (x : ℕ). x == s_ifdir) (and-s_ifmt n.mode) ∙ ground arith
