-- ===== src/Server/Database.antt =====
-- The record table of project2/database.c. A record's contents are a file /tmp/data.<index>; the
-- files are the operating system's, and stand behind an interface.
pub mod Delete
pub mod Laws
pub mod Race
pub mod Reads
use cs5600_computer_systems.Prelude.{
  ℕ, zero, suc, ◌+◌, ◌<◌, ◌≡◌, ◌≢◌, Bool, true, false, ◌&&◌, Option, none, some, List, ◌==◌,
  if◌then◌else◌, Str, str_eq, take, length, find_from,
}

-- The files /tmp/data.<index>. `open_write` is an `open` that creates or empties the file, `none` if
-- it fails. `write` appends to the open file, and returns how many bytes it took. `read` is an `open`
-- for reading and one `read` of 4096 bytes, `none` if either fails. `unlink` says whether it removed
-- the file. `rm_data` is the shell command `rm -f /tmp/data.*`, and whether it succeeded.
pub record Files : Type 1 where
  pub Store : Type 0
  pub open_write : ℕ → Store → Option Store
  pub write : ℕ → List ℕ → Store → Option ℕ × Store
  pub read : ℕ → Store → Option (List ℕ)
  pub unlink : ℕ → Store → Bool × Store
  pub rm_data : Store → Bool × Store
  pub read-write_self :
      (i : ℕ) (bytes : List ℕ) (t u : Store)
      → open_write i t ≡ some u
      → (write i bytes u).0 ≡ some (length bytes)
      → read i (write i bytes u).1 ≡ some (take 4096 bytes)
  pub read-open_write_ne :
      (i j : ℕ) (t u : Store) → i ≢ j → open_write i t ≡ some u → read j u ≡ read j t
  pub read-write_ne :
      (i j : ℕ) (bytes : List ℕ) (t : Store) → i ≢ j → read j (write i bytes t).1 ≡ read j t
  pub read-unlink_ne : (i j : ℕ) (t : Store) → i ≢ j → read j (unlink i t).1 ≡ read j t
  pub read-rm_data : (i : ℕ) (t : Store) → (rm_data t).0 ≡ true → read i (rm_data t).1 ≡ none

-- INVALID, BUSY and VALID
pub data Status : Type 0 where
  invalid busy valid : Status

pub record DbRecord : Type 0 where
  pub record_name : Str
  pub status : Status

-- MAX_KEYS
abbrev pub max_keys : ℕ
max_keys = 200

abbrev pub Table : Type 0
Table = ℕ → DbRecord

abbrev pub is_valid : Status → Bool
is_valid valid = true
is_valid invalid = false
is_valid busy = false

abbrev pub is_invalid : Status → Bool
is_invalid invalid = true
is_invalid valid = false
is_invalid busy = false

abbrev pub is_busy : Status → Bool
is_busy busy = true
is_busy valid = false
is_busy invalid = false

-- `db_table[i].status == VALID && strcmp(db_table[i].record_name, key) == 0`
abbrev pub holds_key : Table → Str → ℕ → Bool
holds_key t key i = is_valid (t i).status && str_eq (t i).record_name key

unfoldable pub find_key : Table → Str → Option ℕ
find_key t key = find_from (holds_key t key) max_keys 0

unfoldable pub free_index : Table → Option ℕ
free_index t = find_from (λ i. is_invalid (t i).status) max_keys 0

abbrev pub or_else : Option ℕ → Option ℕ → Option ℕ
or_else (some i) o = some i
or_else none o = o

abbrev pub set_record : Table → ℕ → DbRecord → Table
set_record t i r k = if k == i then r else t k

abbrev pub set_status : Table → ℕ → Status → Table
set_status t i st = set_record t i (record (t i) { status = st })

-- `for (i ...) if (status == VALID) count++;` over `n` records from `i` on.
unfoldable pub count_from : Table → ℕ → ℕ → ℕ
count_from t zero i = 0
count_from t (suc n) i = (if is_valid (t i).status then 1 else 0) + count_from t n (i + 1)

unfoldable pub count_valid_objects : Table → ℕ
count_valid_objects t = count_from t max_keys 0

pub record Db (Store : Type 0) : Type 0 where
  pub table : Table
  pub files : Store

module _ ⦃F : Files⦄ where
  -- The table with record `i` given up.
  abbrev pub given_up : Table → ℕ → Table
  given_up t i = set_status (set_status t i busy) i invalid

  -- `db_write` after the `write`, which took so many bytes of `len`. A name is stored in 31 bytes.
  abbrev pub after_write : ℕ → Str → ℕ → Db F.Store → Option ℕ → F.Store → Bool × Db F.Store
  after_write i name len s none u = (false, record { table = given_up s.table i; files = u })
  after_write i name len s (some n) u =
      if n == len
      then (
        true,
        record {
          table =
              set_record (set_status s.table i busy) i
                (record { record_name = take 31 name; status = valid });
          files = u;
        },
      )
      else (false, record { table = given_up s.table i; files = u })

  -- `db_write` after the `open`.
  abbrev pub after_open : ℕ → Str → List ℕ → Db F.Store → Option F.Store → Bool × Db F.Store
  after_open i name bytes s none = (false, record s { table = given_up s.table i })
  after_open i name bytes s (some u) =
      after_write i name (length bytes) s (F.write i bytes u).0 (F.write i bytes u).1

  -- `db_write` once the index is chosen: the record is BUSY while its file is written.
  unfoldable pub write_at : ℕ → Str → List ℕ → Db F.Store → Bool × Db F.Store
  write_at i name bytes s = after_open i name bytes s (F.open_write i s.files)

  -- `db_write(name, data, len)`: whether it returned 0, and the new state.
  unfoldable pub db_write : Str → List ℕ → Db F.Store → Bool × Db F.Store
  db_write name bytes s = elim (or_else (find_key s.table name) (free_index s.table)) [
    | none ↦ (false, s)
    | some i ↦ write_at i name bytes s
  ]

  -- `db_read(name, buf)`: the bytes read, or `none` for -1.
  unfoldable pub db_read : Str → Db F.Store → Option (List ℕ)
  db_read name s = elim (find_key s.table name) [ none ↦ none | some i ↦ F.read i s.files ]

  -- `db_delete(name)`: whether it returned 0, and the new state.
  unfoldable pub db_delete : Str → Db F.Store → Bool × Db F.Store
  db_delete name s = elim (find_key s.table name) [
    | none ↦ (false, s)
    | some i ↦
        if is_busy (s.table i).status
        then (false, s)
        else if (F.unlink i s.files).0
        then (true, record { table = set_status s.table i invalid; files = (F.unlink i s.files).1 })
        else (false, record s { files = (F.unlink i s.files).1 })
  ]

  -- `db_cleanup()`. The result of `system` is not looked at, and the table stays.
  unfoldable pub db_cleanup : Db F.Store → Db F.Store
  db_cleanup s = record s { files = (F.rm_data s.files).1 }
