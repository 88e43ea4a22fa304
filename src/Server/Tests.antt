-- ===== src/Server/Tests.antt =====
-- The theorems on the queue and on the table, on small examples.
mod Threads
use cs5600_computer_systems.Prelude.{
  ℕ, ◌==◌, ◌≡◌, ◌≢◌, refl, true, false, Option, none, some, List, [], ◌∷◌, arith, if◌then◌else◌,
  Str, str_eq, take, length, ap, ◌∙◌, sym, find_from,
}
use cs5600_computer_systems.Server.Queue.{
  Queue, work_item, write, enqueue_work, dequeue_work, got, shut, waits, queue_cleanup,
  queue_length, queue_init,
}
use cs5600_computer_systems.Server.Queue.Chain.{
  IsQueue, enqueue_work-snoc, dequeue_work-cons, dequeue_work-nil, queue_cleanup-closes, close_all,
}
use cs5600_computer_systems.Server.Queue.History.{
  Run, submit, Reach, here, next, IsFifo, start, queue-IsFifo,
}
use cs5600_computer_systems.Server.Database.{
  Files, Db, Table, DbRecord, invalid, valid, find_key, free_index, write_at, db_write, db_read,
  db_delete,
}
use cs5600_computer_systems.Server.Database.Laws.{IsSound}
use cs5600_computer_systems.Server.Database.Reads.{db_read-db_write, db_write-full}
use cs5600_computer_systems.Server.Database.Delete.{db_read-db_delete}
use cs5600_computer_systems.Server.Database.Race.{write_both, write_both-loses}
use cs5600_computer_systems.Server.Service.{Service, answered, response, handle_work}
use cs5600_computer_systems.Server.Service.Dialogue.{
  write_request, delete_request, socket, read_response, handle_work-stores, handle_work-deletes,
}

abbrev pub empty : Queue
empty = record {
  heap = λ p. none;
  queue_head = 0;
  queue_tail = 0;
  queued_requests = 0;
  shutdown_flag = false;
  closed = [];
}

empty-IsQueue : IsQueue empty []
empty-IsQueue = record { chain = tt; head = refl; tail = refl; count = refl }

-- One item, at place 16, with socket 3.
abbrev pub one_item : Queue
one_item = record {
  heap = λ p. if p == 16 then some (work_item 3 0) else none;
  queue_head = 16;
  queue_tail = 16;
  queued_requests = 1;
  shutdown_flag = false;
  closed = [];
}

pub one_item-IsQueue : IsQueue one_item ((16, 3) ∷ [])
one_item-IsQueue = record {
  chain = (omega arith, refl, tt, tt);
  head = refl;
  tail = refl;
  count = refl;
}

queue_cleanup-closes_example :
    (q : Queue) × (queue_cleanup 1 one_item ≡ some q)
    × (q.queue_head ≡ 0)
    × (q.queue_tail ≡ 0)
    × (q.closed ≡ close_all ((16, 3) ∷ []) [])
    × (q.shutdown_flag ≡ false)
    × (queue_length q ≡ 1)
queue_cleanup-closes_example =
    queue_cleanup-closes 1 one_item ((16, 3) ∷ []) one_item-IsQueue (omega arith)

-- The run that put one socket in.
abbrev pub one_submitted : Run
one_submitted = record {
  queue = record (start empty).queue {
    heap = write (λ p. none) 16 (some (work_item 3 0));
    queue_head = 16;
    queue_tail = 16;
    queued_requests = 1;
  };
  accepted = 3 ∷ [];
  served = [];
}

one_step : Reach (start empty) one_submitted
unfolding queue_init enqueue_work
one_step = next here (submit (start empty) 16 3 one_submitted.queue (omega arith) refl refl)

queue-IsFifo_example : IsFifo one_submitted
queue-IsFifo_example = queue-IsFifo empty one_submitted one_step

-- Files in memory.
abbrev pub stored : ℕ → Option (List ℕ) → (ℕ → Option (List ℕ)) → ℕ → Option (List ℕ)
stored i o m k = if k == i then o else m k

abbrev pub taken : Option (List ℕ) → Option (List ℕ)
taken none = none
taken (some bytes) = some (take 4096 bytes)

abbrev pub read_in : ℕ → (ℕ → Option (List ℕ)) → Option (List ℕ)
read_in i m = taken (m i)

pub stored_self : (i : ℕ) (o : Option (List ℕ)) (m : ℕ → Option (List ℕ)) → stored i o m i ≡ o
stored_self i o m = ground arith

pub read_in-stored_ne :
    (i j : ℕ) (o : Option (List ℕ)) (m : ℕ → Option (List ℕ))
    → i ≢ j
    → read_in j (stored i o m) ≡ read_in j m
read_in-stored_ne i j o m ne = ap taken (differs (ground arith))
  where
    differs : (j == i) ≡ false → stored i o m j ≡ m j
    differs other = rw other

pub opened-same : {A : Type 0} (a b : A) → some a ≡ some b → a ≡ b
opened-same a b e = cc

instance unfoldable pub memory : Files
memory = record {
  Store = ℕ → Option (List ℕ);
  open_write = λ i m. some (stored i (some []) m);
  write = λ i bytes m. (some (length bytes), stored i (some bytes) m);
  read = read_in;
  unlink = λ i m. (true, stored i none m);
  rm_data = λ m. (true, λ i. none);
  read-write_self = λ i bytes t u opened wrote. ap taken (stored_self i (some bytes) u);
  read-open_write_ne = λ i j t u ne opened.
      ap (read_in j) (sym (opened-same (stored i (some []) t) u opened))
      ∙ read_in-stored_ne i j (some []) t ne;
  read-write_ne = λ i j bytes t ne. read_in-stored_ne i j (some bytes) t ne;
  read-unlink_ne = λ i j t ne. read_in-stored_ne i j none t ne;
  read-rm_data = λ i t removed. refl;
}

abbrev pub name_k : Str
name_k = b'k' ∷ []

abbrev name_j : Str
name_j = b'j' ∷ []

abbrev no_record : DbRecord
no_record = record { record_name = []; status = invalid }

abbrev pub one_record : Table
one_record i = if i == 0 then record { record_name = name_k; status = valid } else no_record

abbrev pub no_records : Table
no_records i = no_record

abbrev all_records : Table
all_records i = record { record_name = name_k; status = valid }

abbrev pub db : Table → Db memory.Store
unfolding memory
db t = record { table = t; files = λ i. if i == 0 then some (1 ∷ 2 ∷ []) else none }

one_record-IsSound : IsSound one_record
one_record-IsSound = record { unique = λ i j key li lj hi hj. ground arith }

stored_ok : (db_write name_j (7 ∷ []) (db one_record)).0 ≡ true
unfolding memory db db_write write_at find_key free_index find_from str_eq
stored_ok = refl

db_read-db_write_example :
    db_read name_j (db_write name_j (7 ∷ []) (db one_record)).1
    ≡ (if str_eq name_j name_j then some (take 4096 (7 ∷ [])) else db_read name_j (db one_record))
unfolding db
db_read-db_write_example =
    db_read-db_write name_j name_j (7 ∷ []) (db one_record) one_record-IsSound (omega arith)
      stored_ok

absent_j : find_key all_records name_j ≡ none
unfolding find_key find_from str_eq
absent_j = refl

no_free : free_index all_records ≡ none
unfolding free_index find_from
no_free = refl

deleted_ok : (db_delete name_k (db one_record)).0 ≡ true
unfolding memory db db_delete find_key find_from str_eq
deleted_ok = refl

db_read-db_delete_example :
    (db_read name_j (db_delete name_k (db one_record)).1
      ≡ (if str_eq name_k name_j then none else db_read name_j (db one_record)))
    × IsSound (db_delete name_k (db one_record)).1.table
unfolding db
db_read-db_delete_example =
    db_read-db_delete name_k name_j (db one_record) one_record-IsSound deleted_ok

new_name_k : find_key no_records name_k ≡ none
unfolding find_key find_from str_eq
new_name_k = refl

new_name_j : find_key no_records name_j ≡ none
unfolding find_key find_from str_eq
new_name_j = refl

first_record : free_index no_records ≡ some 0
unfolding free_index find_from
first_record = refl

differ_j_k : str_eq name_j name_k ≡ false
unfolding str_eq
differ_j_k = refl

write_k : (write_at 0 name_k (7 ∷ []) (db no_records)).0 ≡ true
unfolding memory db write_at
write_k = refl

write_j : (write_at 0 name_j (8 ∷ []) (write_at 0 name_k (7 ∷ []) (db no_records)).1).0 ≡ true
unfolding memory db write_at
write_j = refl

write_both-loses_example :
    (s : Db memory.Store) × (write_both name_k (7 ∷ []) name_j (8 ∷ []) (db no_records)
      ≡ some (true, true, s))
    × (find_key s.table name_k ≡ none)
    × (db_read name_k s ≡ none)
unfolding db
write_both-loses_example =
    write_both-loses name_k name_j (7 ∷ []) (8 ∷ []) 0 (db no_records) (omega arith) (omega arith)
      differ_j_k new_name_k new_name_j first_record write_k write_j

abbrev pub service : Table → Service memory.Store
unfolding db
service t = record {
  db = db t;
  stats = record { stat_reads = 0; stat_writes = 0; stat_deletes = 0; stat_failed = 0 };
}

handle_work-stores_example :
    (v₁ v₂ : Service memory.Store) × (handle_work
        (socket (write_request name_j 1) (λ n. some (7 ∷ [])))
        (service one_record)
      ≡ answered (response b'K' (some 0) []) v₁)
    × (read_response name_j (λ n. some (7 ∷ [])) v₁ ≡ answered (response b'K' (some 1) (7 ∷ [])) v₂)
    × (v₂.db ≡ v₁.db)
unfolding db service
handle_work-stores_example =
    handle_work-stores name_j (7 ∷ []) (λ n. some (7 ∷ [])) (service one_record) one_record-IsSound
      (omega arith) (omega arith) (omega arith) refl stored_ok

handle_work-deletes_example :
    (v₁ v₂ : Service memory.Store) × (handle_work
        (socket (delete_request name_k) (λ n. none))
        (service one_record)
      ≡ answered (response b'K' (some 0) []) v₁)
    × (read_response name_k (λ n. none) v₁ ≡ answered (response b'X' (some 0) []) v₂)
    × (v₂.stats.stat_failed ≡ 1)
unfolding db service
handle_work-deletes_example =
    handle_work-deletes name_k (λ n. none) (service one_record) one_record-IsSound deleted_ok
