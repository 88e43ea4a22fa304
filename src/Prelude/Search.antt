-- ===== src/Prelude/Search.antt =====
-- The loop `for (i = start; i < end; i++) if (test(i)) break;`.
use Prim.Native.Nat.{ℕ, zero, suc, ◌+◌, ◌≤◌, ◌<◌}
use mathlib.Core.Path.{◌≡◌, refl, ap, ◌∙◌}
use mathlib.Core.Logic.{inl, inr}
use mathlib.Core.Bool.{Bool, true, false}
use mathlib.Core.Option.{Option, none, some}
use native.Mathlib.Omega.{arith}
use cs5600_computer_systems.Prelude.Tests.{◌==◌, ==_iff, if◌then◌else◌, Bool-cases}

-- The first of the `n` numbers from `i` on that passes the test.
unfoldable pub find_from : (ℕ → Bool) → ℕ → ℕ → Option ℕ
find_from test zero i = none
find_from test (suc n) i = let rest = find_from test n (i + 1) in if test i then some i else rest

-- What a search over the entries from `i` on returns: the first that passes, or `none` if none does.
abbrev pub FirstFrom : (ℕ → Bool) → ℕ → ℕ → Option ℕ → Type 0
FirstFrom test n i none = (k : ℕ) → i ≤ k → k < i + n → test k ≡ false
FirstFrom test n i (some j) =
    (i ≤ j) × (j < i + n) × (test j ≡ true) × ((k : ℕ) → i ≤ k → k < j → test k ≡ false)

module _ (test : ℕ → Bool) where
  FirstFrom-miss :
      (n i : ℕ) (r : Option ℕ)
      → test i ≡ false
      → FirstFrom test n (i + 1) r
      → FirstFrom test (suc n) i r
  FirstFrom-miss n i none miss h = λ k lo hi. elim (Bool-cases (k == i)) [
    | inl same ↦ ap test ((==_iff k i).0 same) ∙ miss
    | inr other ↦ h k (ground arith) (omega arith)
  ]
  FirstFrom-miss n i (some j) miss (le, lt, hit, before) = (
    omega arith,
    omega arith,
    hit,
    λ k lo hi. elim (Bool-cases (k == i)) [
      | inl same ↦ ap test ((==_iff k i).0 same) ∙ miss
      | inr other ↦ before k (ground arith) hi
    ],
  )

  pub find_from-FirstFrom : (n i : ℕ) → FirstFrom test n i (find_from test n i)
  unfolding find_from
  find_from-FirstFrom zero i = λ k lo hi. absurd (omega arith)
  find_from-FirstFrom (suc n) i = elim (Bool-cases (test i)) [
    | inl hit ↦ rw hit (omega arith, omega arith, hit, λ k lo hi. absurd (omega arith))
    | inr miss ↦
        rw miss (FirstFrom-miss n i (find_from test n (i + 1)) miss (find_from-FirstFrom n (i + 1)))
  ]

-- Two searches whose tests agree on the entries searched give the same answer.
pub find_from-same :
    (p q : ℕ → Bool) (n i : ℕ)
    → ((k : ℕ) → i ≤ k → k < i + n → p k ≡ q k)
    → find_from p n i ≡ find_from q n i
unfolding find_from
find_from-same p q zero i same = refl
find_from-same p q (suc n) i same = rw (
  same i (omega arith) (omega arith),
  find_from-same p q n (i + 1) (λ k lo hi. same k (omega arith) (omega arith)),
)

-- The only entry that passes is the one that is found.
pub find_from-only :
    (p : ℕ → Bool) (n i j : ℕ)
    → i ≤ j
    → j < i + n
    → p j ≡ true
    → ((k : ℕ) → i ≤ k → k < j → p k ≡ false)
    → find_from p n i ≡ some j
unfolding find_from
find_from-only p zero i j lo hi hit before = absurd (omega arith)
find_from-only p (suc n) i j lo hi hit before = elim (Bool-cases (i == j)) [
  | inl same ↦
      let e : i ≡ j = (==_iff i j).0 same in
      let here : p i ≡ true = ap p e ∙ hit in rw here (ap some e)
  | inr other ↦ rw (before i (omega arith) (ground arith)) (
      find_from-only p n (i + 1) j (ground arith) (omega arith) hit
        (λ k lo' hi'. before k (omega arith) hi'))
]

-- Where no entry passes there is nothing to find.
pub find_from-none :
    (p : ℕ → Bool) (n i : ℕ) → ((k : ℕ) → i ≤ k → k < i + n → p k ≡ false) → find_from p n i ≡ none
unfolding find_from
find_from-none p zero i h = refl
find_from-none p (suc n) i h =
    rw (h i (omega arith) (omega arith))
      (find_from-none p n (i + 1) (λ k lo hi. h k (omega arith) (omega arith)))
