-- ===== src/Server/Database/Delete.antt =====
-- `db_delete`, and the tables in which no two valid records have one name.
use cs5600_computer_systems.Prelude.{
  ℕ, ◌<◌, ◌≡◌, ◌≢◌, Bool, true, false, none, some, arith, ◌==◌, ==_iff, if◌then◌else◌, Str, str_eq,
  str_eq_sound, find_from-same, find_from-none, Bool-cases, Option-cases, inl, inr, ap, ◌∙◌, sym,
  subst,
}
use cs5600_computer_systems.Server.Database.{
  Files, Db, Table, invalid, holds_key, max_keys, find_key, is_busy, set_status, db_read, db_delete,
}
use cs5600_computer_systems.Server.Database.Laws.{IsSound, find_key-hit, unique-other, holds-other}

-- Which keys a record answers to once record `i` was given up.
holds_key-given_up :
    (t : Table) (i k : ℕ) (key : Str)
    → holds_key (set_status t i invalid) key k ≡ (if k == i then false else holds_key t key k)
holds_key-given_up t i k key = elim (Bool-cases (k == i)) [
  | inl same ↦ rw same
  | inr other ↦ rw other
]

if_true-other : (k i : ℕ) (b : Bool) → (if k == i then false else b) ≡ true → (b ≡ true) × (k ≢ i)
if_true-other k i b h = ground arith

-- Giving a record up leaves a sound table sound.
given_up-IsSound : (t : Table) (i : ℕ) → IsSound t → IsSound (set_status t i invalid)
given_up-IsSound t i sound = record {
  unique = λ j k key lj lk hj hk.
      let (j_held, _) =
        if_true-other j i (holds_key t key j) (sym (holds_key-given_up t i j key) ∙ hj) in
      let (k_held, _) =
        if_true-other k i (holds_key t key k) (sym (holds_key-given_up t i k key) ∙ hk) in
      sound.unique j k key lj lk j_held k_held;
}

module _ (t : Table) (i : ℕ) (name : Str) (sound : IsSound t)
    (here : find_key t name ≡ some i) where
  find_key-gone : find_key (set_status t i invalid) name ≡ none
  unfolding find_key
  find_key-gone =
      let (lt, hit) = find_key-hit t name i here in
      find_from-none (holds_key (set_status t i invalid) name) max_keys 0
        λ k lo hi. holds_key-given_up t i k name ∙ gone k (omega arith) lt hit
    where
      gone :
          (k : ℕ)
          → k < max_keys
          → i < max_keys
          → holds_key t name i ≡ true
          → (if k == i then false else holds_key t name k) ≡ false
      gone k lk lt hit = elim (Bool-cases (k == i)) [
        | inl same ↦ rw same
        | inr other ↦ rw other (unique-other t name i k sound lt lk hit (ground arith))
      ]

  find_key-others :
      (key : Str)
      → holds_key t key i ≡ false
      → find_key (set_status t i invalid) key ≡ find_key t key
  unfolding find_key
  find_key-others key miss =
      find_from-same (holds_key (set_status t i invalid) key) (holds_key t key) max_keys 0
        λ k lo hi. holds_key-given_up t i k key ∙ kept k
    where
      kept : (k : ℕ) → (if k == i then false else holds_key t key k) ≡ holds_key t key k
      kept k = elim (Bool-cases (k == i)) [
        | inl same ↦
            rw same (sym (subst (λ m. holds_key t key m ≡ false) (sym ((==_iff k i).0 same)) miss))
        | inr other ↦ rw other
      ]

module _ ⦃F : Files⦄ where
  -- How a successful delete ends.
  record Deleted (name : Str) (s s' : Db F.Store) : Type 0 where
    slot : ℕ
    here : find_key s.table name ≡ some slot
    state :
        s' ≡ record { table = set_status s.table slot invalid; files = (F.unlink slot s.files).1 }

  abbrev delete_at : ℕ → Db F.Store → Bool × Db F.Store
  delete_at i s =
      if is_busy (s.table i).status
      then (false, s)
      else if (F.unlink i s.files).0
      then (true, record { table = set_status s.table i invalid; files = (F.unlink i s.files).1 })
      else (false, record s { files = (F.unlink i s.files).1 })

  delete_at-true :
      (i : ℕ) (s : Db F.Store)
      → (delete_at i s).0 ≡ true
      → (delete_at i s).1
        ≡ record { table = set_status s.table i invalid; files = (F.unlink i s.files).1 }
  delete_at-true i s h = elim (Bool-cases (is_busy (s.table i).status)) [
    | inl taken ↦ cc (rw taken at h)
    | inr idle ↦ elim (Bool-cases (F.unlink i s.files).0) [
      | inl removed ↦ rw (idle, removed)
      | inr kept ↦ cc (rw (idle, kept) at h)
    ]
  ]

  db_delete-none :
      (name : Str) (s : Db F.Store) → find_key s.table name ≡ none → db_delete name s ≡ (false, s)
  unfolding db_delete
  db_delete-none name s e = rw (e, db_delete)

  db_delete-some :
      (name : Str) (s : Db F.Store) (i : ℕ)
      → find_key s.table name ≡ some i
      → db_delete name s ≡ delete_at i s
  unfolding db_delete
  db_delete-some name s i e = rw (e, db_delete)

  db_delete-Deleted :
      (name : Str) (s : Db F.Store)
      → (db_delete name s).0 ≡ true
      → Deleted name s (db_delete name s).1
  db_delete-Deleted name s ok = elim (Option-cases (find_key s.table name)) [
    | inl missing ↦ cc (ap (λ (r : Bool × Db F.Store). r.0) (db_delete-none name s missing), ok)
    | inr (i, here) ↦
        let run = db_delete-some name s i here in
        let ok' : (delete_at i s).0 ≡ true = subst (λ (r : Bool × Db F.Store). r.0 ≡ true) run ok in
        record {
          slot = i;
          here = here;
          state = ap (λ (r : Bool × Db F.Store). r.1) run ∙ delete_at-true i s ok';
        }
  ]

  db_read-none : (key : Str) (s : Db F.Store) → find_key s.table key ≡ none → db_read key s ≡ none
  unfolding db_read
  db_read-none key s e = rw (e, db_read)

  db_read-some :
      (key : Str) (s : Db F.Store) (i : ℕ)
      → find_key s.table key ≡ some i
      → db_read key s ≡ F.read i s.files
  unfolding db_read
  db_read-some key s i e = rw (e, db_read)

  read-Deleted :
      (name key : Str) (s s' : Db F.Store)
      → IsSound s.table
      → Deleted name s s'
      → db_read key s' ≡ (if str_eq name key then none else db_read key s)
  read-Deleted name key s s' sound del = elim (Bool-cases (str_eq name key)) [
    | inl same ↦ rw same (
        subst (λ u. db_read u s' ≡ none) (str_eq_sound name key same)
          (db_read-none name s' (
            ap (λ (t : Db F.Store). find_key t.table name) del.state
            ∙ find_key-gone s.table del.slot name sound del.here)))
    | inr other ↦
        let (lt, hit) = find_key-hit s.table name del.slot del.here in
        let miss = holds-other (s.table del.slot) name key hit other in
        let kept : find_key s'.table key ≡ find_key s.table key =
          ap (λ (t : Db F.Store). find_key t.table key) del.state
          ∙ find_key-others s.table del.slot name sound del.here key miss in
        rw other (elim (Option-cases (find_key s.table key)) [
          | inl missing ↦ db_read-none key s' (kept ∙ missing) ∙ sym (db_read-none key s missing)
          | inr (j, at) ↦
              db_read-some key s' j (kept ∙ at)
              ∙ ap (λ (t : Db F.Store). F.read j t.files) del.state
              ∙ F.read-unlink_ne del.slot j s.files (λ e. cc (
                subst (λ m. holds_key s.table key m ≡ false) e miss,
                (find_key-hit s.table key j at).1,
              ))
              ∙ sym (db_read-some key s j at)
        ])
  ]

  -- On a table where no two valid records have one name, after a `db_delete` that succeeded,
  -- `db_read` of this name fails, `db_read` of any other name returns what it returned before,
  -- and still no two valid records have one name.
  pub db_read-db_delete :
      (name key : Str) (s : Db F.Store)
      → IsSound s.table
      → (db_delete name s).0 ≡ true
      → (db_read key (db_delete name s).1 ≡ (if str_eq name key then none else db_read key s))
        × IsSound (db_delete name s).1.table
  db_read-db_delete name key s sound ok =
      let del = db_delete-Deleted name s ok in
      (
        read-Deleted name key s (db_delete name s).1 sound del,
        subst IsSound (sym (ap (λ (t : Db F.Store). t.table) del.state))
            (given_up-IsSound s.table del.slot sound),
      )
