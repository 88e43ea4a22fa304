-- ===== src/Server/Database/Race.antt =====
-- Two workers in `db_write` at once. Nothing locks the table: both can scan it before either marks a
-- record as BUSY.
use cs5600_computer_systems.Prelude.{
  ℕ, ◌<◌, ◌≤◌, ◌≡◌, Bool, true, false, Option, none, some, List, arith, ◌==◌, if◌then◌else◌, Str,
  str_eq, length, find_from-none, Bool-cases, inl, inr, ap, ap₂, ◌∙◌,
}
use cs5600_computer_systems.Server.Database.{
  Files, Db, Table, holds_key, max_keys, find_key, free_index, or_else, write_at, db_read,
}
use cs5600_computer_systems.Server.Database.Laws.{filled, find_key-miss, holds_key-filled, if_ne}
use cs5600_computer_systems.Server.Database.Reads.{write_at-Written}

-- The scans of `db_write`.
unfoldable pub choose : Str → Table → Option ℕ
choose name t = or_else (find_key t name) (free_index t)

module _ ⦃F : Files⦄ where
  -- Two calls of `db_write` in the order: first scan, second scan, rest of the first, rest of the
  -- second. The results of both, and the final state; `none` where a scan finds no record.
  unfoldable pub write_both :
      Str → List ℕ → Str → List ℕ → Db F.Store → Option (Bool × Bool × Db F.Store)
  write_both a bytes_a b bytes_b s = elim (choose a s.table) [
    | none ↦ none
    | some i ↦ elim (choose b s.table) [
      | none ↦ none
      | some j ↦
          let (ok_a, s₁) = write_at i a bytes_a s in
          let (ok_b, s₂) = write_at j b bytes_b s₁ in some (ok_a, ok_b, s₂)
    ]
  ]

  choose-new :
      (name : Str) (t : Table) (i : ℕ)
      → find_key t name ≡ none
      → free_index t ≡ some i
      → choose name t ≡ some i
  unfolding choose
  choose-new name t i new free = rw (new, free)

  lost_key :
      (t : Table) (i : ℕ) (a b : Str)
      → length a ≤ 30
      → length b ≤ 30
      → str_eq b a ≡ false
      → find_key t a ≡ none
      → find_key (filled (filled t i a) i b) a ≡ none
  unfolding find_key
  lost_key t i a b fits_a fits_b ne new =
      find_from-none (holds_key (filled (filled t i a) i b) a) max_keys 0
        λ k lo hi. holds_key-filled (filled t i a) i k b a fits_b ∙ missing k (omega arith)
    where
      missing :
          (k : ℕ)
          → k < max_keys
          → (if k == i then str_eq b a else holds_key (filled t i a) a k) ≡ false
      missing k lt = elim (Bool-cases (k == i)) [
        | inl same ↦ rw (same, ne)
        | inr other ↦
            if_ne k i (str_eq b a) (holds_key (filled t i a) a k) (ground arith)
            ∙ holds_key-filled t i k a a fits_a
            ∙ if_ne k i (str_eq a a) (holds_key t a k) (ground arith)
            ∙ find_key-miss t a k new lt
      ]

  write_both-chosen :
      (a b : Str) (bytes_a bytes_b : List ℕ) (i : ℕ) (s : Db F.Store)
      → choose a s.table ≡ some i
      → choose b s.table ≡ some i
      → (write_at i a bytes_a s).0 ≡ true
      → (write_at i b bytes_b (write_at i a bytes_a s).1).0 ≡ true
      → write_both a bytes_a b bytes_b s
        ≡ some (true, true, (write_at i b bytes_b (write_at i a bytes_a s).1).1)
  unfolding write_both
  write_both-chosen a b bytes_a bytes_b i s ea eb ok_a ok_b =
      rw (ea, eb, write_both)
        (ap₂ (λ x y. some (x, y, (write_at i b bytes_b (write_at i a bytes_a s).1).1)) ok_a ok_b)

  db_read-absent :
      (name : Str) (s : Db F.Store) → find_key s.table name ≡ none → db_read name s ≡ none
  unfolding db_read
  db_read-absent name s gone = rw (gone, db_read)

  -- Two `db_write` calls with two different new names of at most 30 bytes, where both scan the
  -- table, with `i` its first free record, before either marks a record, and whose file
  -- operations succeed: both report success, and the first name is then not in the table, so
  -- that `db_read` of it fails.
  pub write_both-loses :
      (a b : Str) (bytes_a bytes_b : List ℕ) (i : ℕ) (s : Db F.Store)
      → length a ≤ 30
      → length b ≤ 30
      → str_eq b a ≡ false
      → find_key s.table a ≡ none
      → find_key s.table b ≡ none
      → free_index s.table ≡ some i
      → (write_at i a bytes_a s).0 ≡ true
      → (write_at i b bytes_b (write_at i a bytes_a s).1).0 ≡ true
      → (s₂ : Db F.Store) × (write_both a bytes_a b bytes_b s ≡ some (true, true, s₂))
        × (find_key s₂.table a ≡ none)
        × (db_read a s₂ ≡ none)
  write_both-loses a b bytes_a bytes_b i s fits_a fits_b ne new_a new_b free ok_a ok_b =
      let s₁ = (write_at i a bytes_a s).1 in
      let w₁ = write_at-Written i a bytes_a s ok_a in
      let w₂ = write_at-Written i b bytes_b s₁ ok_b in
      let t₁ : s₁.table ≡ filled s.table i a = ap (λ (r : Db F.Store). r.table) w₁.state in
      let t₂ : (write_at i b bytes_b s₁).1.table ≡ filled (filled s.table i a) i b =
        ap (λ (r : Db F.Store). r.table) w₂.state ∙ ap (λ t. filled t i b) t₁ in
      let gone : find_key (write_at i b bytes_b s₁).1.table a ≡ none =
        ap (λ t. find_key t a) t₂ ∙ lost_key s.table i a b fits_a fits_b ne new_a in
      (
        (write_at i b bytes_b s₁).1,
        write_both-chosen a b bytes_a bytes_b i s (choose-new a s.table i new_a free)
            (choose-new b s.table i new_b free) ok_a ok_b,
        gone,
        db_read-absent a (write_at i b bytes_b s₁).1 gone,
      )
