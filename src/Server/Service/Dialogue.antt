-- ===== src/Server/Service/Dialogue.antt =====
-- What a client is told after earlier requests.
use cs5600_computer_systems.Prelude.{
  ℕ, ◌+◌, ◌<◌, ◌≤◌, ◌≡◌, refl, Bool, true, Option, none, some, List, [], arith, ltb, lt→ltb, ◌==◌,
  if◌then◌else◌, Str, str_eq_refl, length, take, take-length, ap, ◌∙◌,
}
use Prim.Native.Nat.{min}
use cs5600_computer_systems.Server.Database.{Files, db_write, db_read, db_delete}
use cs5600_computer_systems.Server.Database.Laws.{IsSound}
use cs5600_computer_systems.Server.Database.Reads.{db_read-db_write}
use cs5600_computer_systems.Server.Database.Delete.{db_read-db_delete}
use cs5600_computer_systems.Server.Service.{
  Request, Response, Socket, Service, Handled, answered, response, answer_read, answer_status,
  answer, counted, finish, handle_work,
}

abbrev pub read_request : Str → Request
read_request key = record { op_status = b'R'; key = key; len = some 0 }

abbrev pub write_request : Str → ℕ → Request
write_request key n = record { op_status = b'W'; key = key; len = some n }

abbrev pub delete_request : Str → Request
delete_request key = record { op_status = b'D'; key = key; len = some 0 }

abbrev pub socket : Request → (ℕ → Option (List ℕ)) → Socket
socket r data_read = record { request = some r; data_read = data_read }

module _ ⦃F : Files⦄ where
  handle_work-read :
      (key : Str) (data_read : ℕ → Option (List ℕ)) (v : Service F.Store)
      → handle_work (socket (read_request key) data_read) v
        ≡ finish b'R' v.stats (some (answer_read (db_read key v.db), v.db))
  unfolding handle_work answer
  handle_work-read key data_read v = refl

  handle_work-write :
      (key : Str) (bytes : List ℕ) (data_read : ℕ → Option (List ℕ)) (v : Service F.Store)
      → length bytes ≤ 4096
      → data_read (length bytes) ≡ some bytes
      → handle_work (socket (write_request key (length bytes)) data_read) v
        ≡ finish b'W' v.stats
            (some (answer_status (db_write key bytes v.db).0, (db_write key bytes v.db).1))
  unfolding handle_work answer
  handle_work-write key bytes data_read v fits sent =
      let cut : min (length bytes) 4096 ≡ length bytes = omega arith in
      let whole : (length bytes == length bytes) ≡ true = ground arith in rw (cut, sent, whole)

  handle_work-delete :
      (key : Str) (data_read : ℕ → Option (List ℕ)) (v : Service F.Store)
      → handle_work (socket (delete_request key) data_read) v
        ≡ finish b'D' v.stats (some (answer_status (db_delete key v.db).0, (db_delete key v.db).1))
  unfolding handle_work answer
  handle_work-delete key data_read v = refl

  -- The response of a service to a read of a key.
  abbrev pub read_response : Str → (ℕ → Option (List ℕ)) → Service F.Store → Handled F.Store
  read_response key data_read v = handle_work (socket (read_request key) data_read) v

  kept :
      (bytes : List ℕ)
      → 0 < length bytes
      → length bytes ≤ 4096
      → answer_read (some (take 4096 bytes)) ≡ response b'K' (some (length bytes)) bytes
  kept bytes some_data fits =
      let more : ltb 0 (length bytes) ≡ true = lt→ltb 0 (length bytes) some_data in
      rw (take-length 4096 bytes fits, more)

  -- On a table where no two valid records have one name, for a 'W' request with a name of at
  -- most 30 bytes and 1 to 4096 bytes of data, all of which the socket yields, and whose
  -- `db_write` succeeds: `handle_work` answers 'K', and then answers an 'R' request of this name
  -- with 'K', the number of the bytes, and the bytes themselves, without a change of the table
  -- or the files.
  pub handle_work-stores :
      (key : Str) (bytes : List ℕ) (data_read : ℕ → Option (List ℕ)) (v : Service F.Store)
      → IsSound v.db.table
      → length key ≤ 30
      → 0 < length bytes
      → length bytes ≤ 4096
      → data_read (length bytes) ≡ some bytes
      → (db_write key bytes v.db).0 ≡ true
      → (v₁ v₂ : Service F.Store) × (handle_work
            (socket (write_request key (length bytes)) data_read)
            v
          ≡ answered (response b'K' (some 0) []) v₁)
        × (read_response key data_read v₁ ≡ answered (response b'K' (some (length bytes)) bytes) v₂)
        × (v₂.db ≡ v₁.db)
  handle_work-stores key bytes data_read v sound short some_data fits sent ok =
      let s = (db_write key bytes v.db).1 in
      let done_write : Response = response b'K' (some 0) [] in
      let done_read : Response = response b'K' (some (length bytes)) bytes in
      let v₁ : Service F.Store = record { db = s; stats = counted b'W' done_write v.stats } in
      let found : db_read key s ≡ some (take 4096 bytes) =
        db_read-db_write key key bytes v.db sound short ok
        ∙ ap (λ (b : Bool). if b then some (take 4096 bytes) else db_read key v.db)
            (str_eq_refl key) in
      (
        v₁,
        record { db = s; stats = counted b'R' done_read v₁.stats },
        handle_work-write key bytes data_read v fits sent
            ∙ ap (λ (b : Bool). finish b'W' v.stats (some (answer_status b, s))) ok,
        handle_work-read key data_read v₁
            ∙ ap (λ o. finish b'R' v₁.stats (some (answer_read o, s))) found
            ∙ ap (λ r. finish b'R' v₁.stats (some (r, s))) (kept bytes some_data fits),
        refl,
      )

  -- On a table where no two valid records have one name, for a 'D' request whose `db_delete`
  -- succeeds: `handle_work` answers 'K', and then answers an 'R' request of this name with 'X'
  -- and no data, and the two requests count as one failure.
  pub handle_work-deletes :
      (key : Str) (data_read : ℕ → Option (List ℕ)) (v : Service F.Store)
      → IsSound v.db.table
      → (db_delete key v.db).0 ≡ true
      → (v₁ v₂ : Service F.Store) × (handle_work (socket (delete_request key) data_read) v
          ≡ answered (response b'K' (some 0) []) v₁)
        × (read_response key data_read v₁ ≡ answered (response b'X' (some 0) []) v₂)
        × (v₂.stats.stat_failed ≡ v.stats.stat_failed + 1)
  unfolding counted
  handle_work-deletes key data_read v sound ok =
      let s = (db_delete key v.db).1 in
      let done_delete : Response = response b'K' (some 0) [] in
      let no_record : Response = response b'X' (some 0) [] in
      let v₁ : Service F.Store = record { db = s; stats = counted b'D' done_delete v.stats } in
      let gone : db_read key s ≡ none =
        (db_read-db_delete key key v.db sound ok).0
        ∙ ap (λ (b : Bool). if b then none else db_read key v.db) (str_eq_refl key) in
      (
        v₁,
        record { db = s; stats = counted b'R' no_record v₁.stats },
        handle_work-delete key data_read v
            ∙ ap (λ (b : Bool). finish b'D' v.stats (some (answer_status b, s))) ok,
        handle_work-read key data_read v₁
            ∙ ap (λ o. finish b'R' v₁.stats (some (answer_read o, s))) gone,
        refl,
      )
