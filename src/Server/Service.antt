-- ===== src/Server/Service.antt =====
-- The requests of project2/dbserver.c: `handle_work`, one round of a worker and of the listener, and
-- the statistics.
pub mod Dialogue
use cs5600_computer_systems.Prelude.{
  ℕ, ◌+◌, ◌<◌, Bool, true, false, Option, none, some, List, [], ◌∷◌, ltb, ◌==◌, if◌then◌else◌, Str,
  length,
}
use Prim.Native.Nat.{min}
use cs5600_computer_systems.Server.Queue.{
  Ptr, Queue, enqueue_work, dequeue_work, waits, shut, got, fault, queue_length,
}
use cs5600_computer_systems.Server.Database.{
  Files, Db, db_write, db_read, db_delete, count_valid_objects,
}

-- A `struct request` as the code reads it: `len` is what `atoi` makes of the text, `none` if that
-- is below zero.
pub record Request : Type 0 where
  pub op_status : ℕ
  pub key : Str
  pub len : Option ℕ

-- What is sent back: the response's `op_status`, its `len` (`none` where the code leaves it
-- uninitialised), and the bytes that follow it.
pub record Response : Type 0 where
  pub op_status : ℕ
  pub len : Option ℕ
  pub body : List ℕ

pub record Stats : Type 0 where
  pub stat_reads : ℕ
  pub stat_writes : ℕ
  pub stat_deletes : ℕ
  pub stat_failed : ℕ

-- A client's socket: the request that the first `read` yields, `none` if it fails or yields nothing,
-- and what a second `read` of so many bytes yields, `none` if it fails.
pub record Socket : Type 0 where
  pub request : Option Request
  pub data_read : ℕ → Option (List ℕ)

abbrev pub response : ℕ → Option ℕ → List ℕ → Response
response op len body = record { op_status = op; len = len; body = body }

abbrev pub count_if : Bool → ℕ → ℕ
count_if b n = if b then n + 1 else n

-- The counting at the end of `handle_work`.
unfoldable pub counted : ℕ → Response → Stats → Stats
counted op r t = record {
  stat_reads = count_if (op == b'R') t.stat_reads;
  stat_writes = count_if (op == b'W') t.stat_writes;
  stat_deletes = count_if (op == b'D') t.stat_deletes;
  stat_failed = count_if (r.op_status == b'X') t.stat_failed;
}

-- The case 'R', by what `db_read` returned.
abbrev pub answer_read : Option (List ℕ) → Response
answer_read none = response b'X' (some 0) []
answer_read (some bytes) =
    if ltb 0 (length bytes)
    then response b'K' (some (length bytes)) bytes
    else response b'X' (some 0) []

-- 'K' or 'X', by whether the call returned 0.
abbrev pub answer_status : Bool → Response
answer_status ok = response (if ok then b'K' else b'X') (some 0) []

pub record Service (Store : Type 0) : Type 0 where
  pub db : Db Store
  pub stats : Stats

-- How `handle_work` ends: it has answered, it has dropped the connection, the process exits, or its
-- behaviour is undefined.
pub data Handled (Store : Type 0) : Type 0 where
  answered : Response → Service Store → Handled Store
  dropped : Service Store → Handled Store
  exits : Handled Store
  undefined : Handled Store

module _ ⦃F : Files⦄ where
  -- The case 'W' with a length that was cut to 4096, by what the `read` of the data yields.
  abbrev pub answer_write : Str → ℕ → Option (List ℕ) → Db F.Store → Response × Db F.Store
  answer_write key n none s = (response b'X' none [], s)
  answer_write key n (some bytes) s =
      if length bytes == n
      then (answer_status (db_write key bytes s).0, (db_write key bytes s).1)
      else (response b'X' none [], s)

  -- The `switch` of `handle_work`. A length below zero makes the code read without a bound into a
  -- buffer of 4096 bytes.
  unfoldable pub answer :
      Request → (ℕ → Option (List ℕ)) → Db F.Store → Option (Response × Db F.Store)
  answer r data_read s =
      if r.op_status == b'W'
      then elim r.len [
        | none ↦ none
        | some n ↦ some (answer_write r.key (min n 4096) (data_read (min n 4096)) s)
      ]
      else if r.op_status == b'R'
      then some (answer_read (db_read r.key s), s)
      else if r.op_status == b'D'
      then some (answer_status (db_delete r.key s).0, (db_delete r.key s).1)
      else some (response b'X' (some 0) [], s)

  abbrev pub finish : ℕ → Stats → Option (Response × Db F.Store) → Handled F.Store
  finish op t none = undefined
  finish op t (some (r, s)) = answered r (record { db = s; stats = counted op r t })

  -- `handle_work(sock_fd)`. On 'Q' the process shuts the queue down and exits.
  unfoldable pub handle_work : Socket → Service F.Store → Handled F.Store
  handle_work k v = elim k.request [
    | none ↦ dropped (record v { stats = record v.stats { stat_failed = v.stats.stat_failed + 1 } })
    | some r ↦
        if r.op_status == b'Q'
        then exits
        else finish r.op_status v.stats (answer r k.data_read v.db)
  ]

  -- What `print_stats` prints: the objects, the four counters, and the requests in the queue.
  unfoldable pub print_stats : Service F.Store → Queue → List ℕ
  print_stats v q =
      count_valid_objects v.db.table
      ∷ v.stats.stat_reads
      ∷ v.stats.stat_writes
      ∷ v.stats.stat_deletes
      ∷ v.stats.stat_failed
      ∷ queue_length q
      ∷ []

  -- How one round of `worker_thread` goes. It closes the socket that it served.
  pub data Round : Type 0 where
    blocks : Round
    stops : Round
    serves : ℕ → Queue → Handled F.Store → Round
    reads_freed : Round

  -- One round of `worker_thread`: it takes a socket from the queue and handles it.
  unfoldable pub worker_round : (ℕ → Socket) → Queue → Service F.Store → Round
  worker_round sockets q v = elim (dequeue_work q) [
    | waits ↦ blocks
    | shut ↦ stops
    | got fd q' ↦ serves fd q' (handle_work (sockets fd) v)
    | fault ↦ reads_freed
  ]

-- One round of the loop of `listener_thread`: `connection` is the socket that `accept` returns,
-- `item` the memory that `enqueue_work` gets. `none` is a fault. A failed `accept` is passed over.
unfoldable pub listener_round : Ptr → Option ℕ → Queue → Option Queue
listener_round item connection q = elim connection [
  | none ↦ some q
  | some fd ↦ enqueue_work item fd q
]
