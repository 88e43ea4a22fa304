-- ===== src/Server/Database/Reads.antt =====
-- What `db_read` returns after `db_write` and `db_delete`.
use cs5600_computer_systems.Prelude.{
  ℕ, ◌≤◌, ◌≡◌, ◌≢◌, refl, Bool, true, false, Option, none, some, List, ◌==◌, ==_iff, if◌then◌else◌,
  Str, str_eq, take, length, Bool-cases, Option-cases, inl, inr, ap, ◌∙◌, sym, subst,
}
use cs5600_computer_systems.Server.Database.{
  Files, Db, holds_key, find_key, free_index, or_else, after_write, after_open, write_at, db_write,
  db_read,
}
use cs5600_computer_systems.Server.Database.Laws.{
  IsSound, filled, Chosen, chosen, find_key-filled, find_key-hit,
}

module _ ⦃F : Files⦄ where
  -- How a successful write ends.
  pub record Written (i : ℕ) (name : Str) (bytes : List ℕ) (s s' : Db F.Store) : Type 0 where
    pub opened : F.Store
    pub open_ok : F.open_write i s.files ≡ some opened
    pub write_ok : (F.write i bytes opened).0 ≡ some (length bytes)
    pub state : s' ≡ record { table = filled s.table i name; files = (F.write i bytes opened).1 }

  after_write-Written :
      (i : ℕ) (name : Str) (len : ℕ) (s : Db F.Store) (o : Option ℕ) (u : F.Store)
      → (after_write i name len s o u).0 ≡ true
      → (o ≡ some len)
        × ((after_write i name len s o u).1 ≡ record { table = filled s.table i name; files = u })
  after_write-Written i name len s none u h = cc
  after_write-Written i name len s (some n) u h = elim (Bool-cases (n == len)) [
    | inl whole ↦ (ap some ((==_iff n len).0 whole), rw whole)
    | inr short ↦ cc (rw short at h)
  ]

  after_open-Written :
      (i : ℕ) (name : Str) (bytes : List ℕ) (s : Db F.Store) (o : Option F.Store)
      → F.open_write i s.files ≡ o
      → (after_open i name bytes s o).0 ≡ true
      → Written i name bytes s (after_open i name bytes s o).1
  after_open-Written i name bytes s none e h = cc
  after_open-Written i name bytes s (some u) e h =
      let (wrote, state) =
        after_write-Written i name (length bytes) s (F.write i bytes u).0 (F.write i bytes u).1 h in
      record { opened = u; open_ok = e; write_ok = wrote; state = state }

  pub write_at-Written :
      (i : ℕ) (name : Str) (bytes : List ℕ) (s : Db F.Store)
      → (write_at i name bytes s).0 ≡ true
      → Written i name bytes s (write_at i name bytes s).1
  unfolding write_at
  write_at-Written i name bytes s h =
      after_open-Written i name bytes s (F.open_write i s.files) refl h

  -- `db_write` as the choice of a record and the write.
  abbrev write_chosen : Str → List ℕ → Db F.Store → Option ℕ → Bool × Db F.Store
  write_chosen name bytes s o = elim o [ none ↦ (false, s) | some i ↦ write_at i name bytes s ]

  abbrev read_found : Option ℕ → F.Store → Option (List ℕ)
  read_found o u = elim o [ none ↦ none | some i ↦ F.read i u ]

  -- The file of every other record is untouched.
  read_found-kept :
      (i : ℕ) (name : Str) (key : Str) (bytes : List ℕ) (s s' : Db F.Store) (o : Option ℕ)
      → Written i name bytes s s'
      → ((j : ℕ) → o ≡ some j → i ≢ j)
      → read_found o s'.files ≡ read_found o s.files
  read_found-kept i name key bytes s s' none w ne = refl
  read_found-kept i name key bytes s s' (some j) w ne =
      ap (λ (t : Db F.Store). F.read j t.files) w.state
      ∙ F.read-write_ne i j bytes w.opened (ne j refl)
      ∙ F.read-open_write_ne i j s.files w.opened (ne j refl) w.open_ok

  db_read-found :
      (key : Str) (s : Db F.Store) (o : Option ℕ)
      → find_key s.table key ≡ o
      → db_read key s ≡ read_found o s.files
  unfolding db_read
  db_read-found key s o e = rw (e, db_read)

  -- What is read of a name after record `i` was written.
  read-Written :
      (i : ℕ) (name key : Str) (bytes : List ℕ) (s s' : Db F.Store)
      → length name ≤ 30
      → Chosen s.table name i
      → Written i name bytes s s'
      → db_read key s' ≡ (if str_eq name key then some (take 4096 bytes) else db_read key s)
  read-Written i name key bytes s s' fits c w =
      let found : find_key s'.table key
          ≡ (if str_eq name key then some i else find_key s.table key) =
        ap (λ (t : Db F.Store). find_key t.table key) w.state
        ∙ find_key-filled s.table i name key fits c in
      elim (Bool-cases (str_eq name key)) [
        | inl same ↦
            let hit : find_key s'.table key ≡ some i = rw same at found in
            rw same (
              db_read-found key s' (some i) hit
              ∙ ap (λ (t : Db F.Store). F.read i t.files) w.state
              ∙ F.read-write_self i bytes s.files w.opened w.open_ok w.write_ok)
        | inr other ↦
            let kept : find_key s'.table key ≡ find_key s.table key = rw other at found in
            rw other (
              db_read-found key s' (find_key s.table key) kept
              ∙ read_found-kept i name key bytes s s' (find_key s.table key) w (λ j e q.
                let hit : holds_key s.table key i ≡ true =
                  subst (λ m. holds_key s.table key m ≡ true) (sym q)
                    (find_key-hit s.table key j e).1 in
                cc (c.other_keys key other, hit))
              ∙ sym (db_read-found key s (find_key s.table key) refl))
      ]

  db_write-chosen :
      (name : Str) (bytes : List ℕ) (s : Db F.Store) (o : Option ℕ)
      → or_else (find_key s.table name) (free_index s.table) ≡ o
      → db_write name bytes s ≡ write_chosen name bytes s o
  unfolding db_write
  db_write-chosen name bytes s o e = rw (e, db_write)

  -- On a table where no two valid records have one name, after a `db_write` of a name of at most
  -- 30 bytes that succeeded, `db_read` of this name returns the first 4096 bytes written, and
  -- `db_read` of any other name returns what it returned before.
  pub db_read-db_write :
      (name key : Str) (bytes : List ℕ) (s : Db F.Store)
      → IsSound s.table
      → length name ≤ 30
      → (db_write name bytes s).0 ≡ true
      → db_read key (db_write name bytes s).1
        ≡ (if str_eq name key then some (take 4096 bytes) else db_read key s)
  db_read-db_write name key bytes s sound fits ok =
      elim (Option-cases (or_else (find_key s.table name) (free_index s.table))) [
        | inl full ↦
            cc (ap (λ (r : Bool × Db F.Store). r.0) (db_write-chosen name bytes s none full), ok)
        | inr (i, here) ↦
            let run : db_write name bytes s ≡ write_at i name bytes s =
              db_write-chosen name bytes s (some i) here in
            let ok' : (write_at i name bytes s).0 ≡ true =
              subst (λ (r : Bool × Db F.Store). r.0 ≡ true) run ok in
            subst
              (λ (r : Bool × Db F.Store).
                db_read key r.1
                ≡ (if str_eq name key then some (take 4096 bytes) else db_read key s))
              (sym run)
              (read-Written i name key bytes s (write_at i name bytes s).1 fits
                (chosen s.table name i sound here) (write_at-Written i name bytes s ok'))
      ]

  -- With no record of the name and no free record, `db_write` fails and changes nothing.
  pub db_write-full :
      (name : Str) (bytes : List ℕ) (s : Db F.Store)
      → find_key s.table name ≡ none
      → free_index s.table ≡ none
      → db_write name bytes s ≡ (false, s)
  db_write-full name bytes s new full = db_write-chosen name bytes s none (rw (new, full))
