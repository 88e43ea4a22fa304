-- ===== src/Server/Database/Laws.antt =====
-- What a successful `db_write` and `db_delete` do to later reads.
use cs5600_computer_systems.Prelude.{
  ℕ, ◌<◌, ◌≤◌, ◌≡◌, ◌≢◌, Bool, true, false, ◌&&◌, none, some, arith, ◌==◌, ==_iff, if◌then◌else◌,
  Str, str_eq, str_eq_refl, str_eq_sound, take, take-length, length, find_from, FirstFrom,
  find_from-FirstFrom, find_from-same, find_from-only, Bool-cases, Option-cases, inl, inr, ap, ◌∙◌,
  sym, subst,
}
use cs5600_computer_systems.Server.Database.{
  Table, DbRecord, valid, busy, holds_key, is_valid, is_invalid, max_keys, find_key, free_index,
  or_else, set_record, set_status,
}

-- No two valid records have one name.
pub record IsSound (t : Table) : Type 0 where
  pub unique :
      (i j : ℕ) (key : Str)
      → i < max_keys
      → j < max_keys
      → holds_key t key i ≡ true
      → holds_key t key j ≡ true
      → i ≡ j

pub find_key-hit :
    (t : Table) (key : Str) (i : ℕ)
    → find_key t key ≡ some i
    → (i < max_keys) × (holds_key t key i ≡ true)
unfolding find_key
find_key-hit t key i e =
    let (lo, hi, hit, before) =
      subst (FirstFrom (holds_key t key) max_keys 0) e
        (find_from-FirstFrom (holds_key t key) max_keys 0) in
    (omega arith, hit)

pub find_key-miss :
    (t : Table) (key : Str) (k : ℕ)
    → find_key t key ≡ none
    → k < max_keys
    → holds_key t key k ≡ false
unfolding find_key
find_key-miss t key k e lt =
    let all =
      subst (FirstFrom (holds_key t key) max_keys 0) e
        (find_from-FirstFrom (holds_key t key) max_keys 0) in
    all k (omega arith) (omega arith)

pub free_index-hit :
    (t : Table) (i : ℕ) → free_index t ≡ some i → (i < max_keys) × (is_invalid (t i).status ≡ true)
unfolding free_index
free_index-hit t i e =
    let (lo, hi, hit, before) =
      subst (FirstFrom (λ k. is_invalid (t k).status) max_keys 0) e
        (find_from-FirstFrom (λ k. is_invalid (t k).status) max_keys 0) in
    (omega arith, hit)

-- The table once `db_write` has filled record `i`.
abbrev pub filled : Table → ℕ → Str → Table
filled t i name =
    set_record (set_status t i busy) i (record { record_name = take 31 name; status = valid })

-- Which keys a record answers to after the write.
pub holds_key-filled :
    (t : Table) (i k : ℕ) (name key : Str)
    → length name ≤ 30
    → holds_key (filled t i name) key k ≡ (if k == i then str_eq name key else holds_key t key k)
holds_key-filled t i k name key fits = elim (Bool-cases (k == i)) [
  | inl same ↦ rw (same, take-length 31 name (omega arith))
  | inr other ↦ rw other
]

-- The record that `db_write` chooses: no other record has the name, and it has no other name.
pub record Chosen (t : Table) (name : Str) (i : ℕ) : Type 0 where
  pub inside : i < max_keys
  pub alone : (k : ℕ) → k < max_keys → k ≢ i → holds_key t name k ≡ false
  pub other_keys : (key : Str) → str_eq name key ≡ false → holds_key t key i ≡ false

pub and-false : (b : Bool) → (b && false) ≡ false
and-false b = ground arith

pub some-inj : {A : Type 0} (a b : A) → some a ≡ some b → a ≡ b
some-inj a b e = cc

pub unique-other :
    (t : Table) (key : Str) (i k : ℕ)
    → IsSound t
    → i < max_keys
    → k < max_keys
    → holds_key t key i ≡ true
    → k ≢ i
    → holds_key t key k ≡ false
unique-other t key i k sound li lk h ne = elim (Bool-cases (holds_key t key k)) [
  | inl both ↦ absurd (ne (sound.unique k i key lk li both h))
  | inr miss ↦ miss
]

pub holds-other :
    (r : DbRecord) (name key : Str)
    → (is_valid r.status && str_eq r.record_name name) ≡ true
    → str_eq name key ≡ false
    → (is_valid r.status && str_eq r.record_name key) ≡ false
holds-other r name key h ne =
    let own : r.record_name ≡ name = str_eq_sound r.record_name name (ground arith) in
    rw (own, ne) (and-false (is_valid r.status))

invalid-other :
    (r : DbRecord) (key : Str)
    → is_invalid r.status ≡ true
    → (is_valid r.status && str_eq r.record_name key) ≡ false
invalid-other r key h = ground arith

pub chosen :
    (t : Table) (name : Str) (i : ℕ)
    → IsSound t
    → or_else (find_key t name) (free_index t) ≡ some i
    → Chosen t name i
chosen t name i sound e = elim (Option-cases (find_key t name)) [
  | inl new ↦
      let (lt, free) = free_index-hit t i (ap (λ o. or_else o (free_index t)) (sym new) ∙ e) in
      record {
        inside = lt;
        alone = λ k lk ne. find_key-miss t name k new lk;
        other_keys = λ key ne. invalid-other (t i) key free;
      }
  | inr (j, old) ↦
      let same : j ≡ i = some-inj j i (ap (λ o. or_else o (free_index t)) (sym old) ∙ e) in
      let (lt, hit) = find_key-hit t name i (old ∙ ap some same) in
      record {
        inside = lt;
        alone = λ k lk ne. unique-other t name i k sound lt lk hit ne;
        other_keys = λ key ne. holds-other (t i) name key hit ne;
      }
]

pub if_ne : {A : Type 0} (k i : ℕ) (x y : A) → k ≢ i → (if k == i then x else y) ≡ y
if_ne k i x y h = ground arith

pub if_eq : {A : Type 0} (i : ℕ) (x y : A) → (if i == i then x else y) ≡ x
if_eq i x y = ground arith

-- After the write the name is found in that record, and every other name where it was.
pub find_key-filled :
    (t : Table) (i : ℕ) (name key : Str)
    → length name ≤ 30
    → Chosen t name i
    → find_key (filled t i name) key ≡ (if str_eq name key then some i else find_key t key)
unfolding find_key
find_key-filled t i name key fits c = elim (Bool-cases (str_eq name key)) [
  | inl same ↦ rw same (
      subst (λ u. find_from (holds_key (filled t i name) u) max_keys 0 ≡ some i)
        (str_eq_sound name key same)
        (find_from-only (holds_key (filled t i name) name) max_keys 0 i (omega arith)
          (omega (arith, c.inside))
          (holds_key-filled t i i name name fits ∙ if_eq i (str_eq name name) _ ∙ str_eq_refl name)
          (λ k lo hi.
            holds_key-filled t i k name name fits
            ∙ if_ne k i (str_eq name name) (holds_key t name k) (omega arith)
            ∙ c.alone k (omega (arith, c.inside)) (omega arith))))
  | inr other ↦ rw other (
      find_from-same (holds_key (filled t i name) key) (holds_key t key) max_keys 0
        λ k lo hi. holds_key-filled t i k name key fits ∙ if_same k i other)
]
  where
    if_same :
        (k j : ℕ)
        → str_eq name key ≡ false
        → (if k == i then str_eq name key else holds_key t key k) ≡ holds_key t key k
    if_same k j other = elim (Bool-cases (k == i)) [
      | inl here ↦
          rw (here, other)
            (sym (
              subst (λ m. holds_key t key m ≡ false) (sym ((==_iff k i).0 here))
                (c.other_keys key other)))
      | inr there ↦ rw there
    ]
