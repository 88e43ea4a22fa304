-- ===== src/Server/Threads.antt =====
-- The threads of project2/dbserver.c: the loop of `worker_thread`, the commands that `main` reads, and the
-- steps of the whole server.
pub mod Drain
pub mod Quit
pub mod Sequential
use cs5600_computer_systems.Prelude.{
  ℕ, zero, suc, ◌+◌, ◌≡◌, ◌≢◌, Bool, true, false, ◌&&◌, Option, none, some, List, [], ◌∷◌, ◌++◌,
  ◌==◌, if◌then◌else◌, Str, str_eq, take,
}
use cs5600_computer_systems.Server.Queue.{
  Ptr, Queue, queue_init, queue_shutdown, queue_cleanup, dequeue_work, waits, shut, got,
}
use cs5600_computer_systems.Server.Database.{Files, db_cleanup}
use cs5600_computer_systems.Server.Service.{
  Socket, Response, Service, Handled, answered, dropped, exits, undefined, Round, blocks, stops,
  serves, reads_freed, handle_work, worker_round, listener_round, print_stats,
}

-- A socket that was served, and what was sent to it, if anything.
abbrev pub Reply : Type 0
Reply = ℕ × Option Response

module _ ⦃F : Files⦄ where
  -- What the thread goes on with after `handle_work`, `none` if it does not.
  abbrev pub goes_on : Handled F.Store → Option (Option Response × Service F.Store)
  goes_on (answered r v) = some (some r, v)
  goes_on (dropped v) = some (none, v)
  goes_on exits = none
  goes_on undefined = none

  -- How a worker that runs by itself ends: it returns, or it waits for a request. With it what it sent, the queue, and
  -- the rest of the server.
  pub data Worked : Type 0 where
    returned : List Reply → Queue → Service F.Store → Worked
    sleeping : List Reply → Queue → Service F.Store → Worked

  abbrev pub sent_first : Reply → Option Worked → Option Worked
  sent_first r none = none
  sent_first r (some (returned rs q v)) = some (returned (r ∷ rs) q v)
  sent_first r (some (sleeping rs q v)) = some (sleeping (r ∷ rs) q v)

  -- The loop of `worker_thread`, with fuel. `none` is the end of the process, a fault, or the end of the fuel.
  unfoldable pub worker_thread : ℕ → (ℕ → Socket) → Queue → Service F.Store → Option Worked
  worker_thread zero sockets q v = none
  worker_thread (suc fuel) sockets q v = elim (worker_round sockets q v) [
    | blocks ↦ some (sleeping [] q v)
    | stops ↦ some (returned [] q v)
    | serves fd q' h ↦ elim (goes_on h) [
      | none ↦ none
      | some (r, v') ↦ sent_first (fd, r) (worker_thread fuel sockets q' v')
    ]
    | reads_freed ↦ none
  ]

  -- The requests of these sockets, handled one by one: the replies, and the service before and after.
  pub data Served (sockets : ℕ → Socket)
      : List ℕ → Service F.Store → List Reply → Service F.Store → Type 0 where
    no_more : {v : Service F.Store} → Served sockets [] v [] v
    one_more :
        {fd : ℕ} {fds : List ℕ} {r : Option Response} {rs : List Reply} {u v w : Service F.Store}
        → goes_on (handle_work (sockets fd) u) ≡ some (r, v)
        → Served sockets fds v rs w
        → Served sockets (fd ∷ fds) u ((fd, r) ∷ rs) w

abbrev pub stats_command : Str
stats_command = b's' ∷ b't' ∷ b'a' ∷ b't' ∷ b's' ∷ []

abbrev pub quit_command : Str
quit_command = b'q' ∷ b'u' ∷ b'i' ∷ b't' ∷ []

-- `shutdown_flag` of dbserver.c, and whether the socket of the listener is open.
pub record Listener : Type 0 where
  pub shutdown_flag : Bool
  pub socket_open : Bool

-- What `main` does with a line: it prints numbers or the hint on commands and reads on, or it ends its loop.
pub data Console (Store : Type 0) : Type 0 where
  prints : List ℕ → Console Store
  invalid : Console Store
  quits : Listener → Queue → Service Store → Console Store

-- A line of the loop of `main`. The quit command sets the flag of the listener, closes its socket, shuts the queue
-- and cleans up. `none` is a fault.
unfoldable pub console_round :
    ⦃F : Files⦄ → ℕ → Str → Listener → Queue → Service F.Store → Option (Console F.Store)
console_round fuel line l q v =
    if str_eq (take 5 line) stats_command
    then some (prints (print_stats v q))
    else if str_eq (take 4 line) quit_command
    then elim (queue_cleanup fuel (queue_shutdown q)) [
      | none ↦ none
      | some q' ↦ some (
          quits (record l { shutdown_flag = true; socket_open = false }) q'
            (record v { db = db_cleanup v.db }))
    ]
    else some invalid

-- How a round of the loop of `listener_thread` goes: it goes on with this queue, or the loop ends and the socket is
-- closed.
pub data Turn : Type 0 where
  listens : Queue → Turn
  ends : Listener → Turn

-- The loop of `listener_thread` from its test on, at `l`. The thread waits in `accept`, and at `l'` it looks at the
-- flag again if that failed. `none` is a fault.
unfoldable pub listener_turn : Listener → Listener → Ptr → Option ℕ → Queue → Option Turn
listener_turn l l' item connection q =
    if l.shutdown_flag then some (ends (record l { socket_open = false })) else elim connection [
      | none ↦
          if l'.shutdown_flag
          then some (ends (record l' { socket_open = false }))
          else some (listens q)
      | some fd ↦ elim (listener_round item (some fd) q) [
        | none ↦ none
        | some q' ↦ some (listens q')
      ]
    ]

-- The server: its queue and its service, the connections that were accepted and the replies that were sent, both from
-- the first to the last.
pub record Server (Store : Type 0) : Type 0 where
  pub queue : Queue
  pub service : Service Store
  pub accepted : List ℕ
  pub replies : List Reply

module _ ⦃F : Files⦄ where
  -- A step of some thread: a round of the listener, with or without a connection and with or without memory
  -- for the item, a round of a worker, or the shutdown of the queue. A worker's round is one step: the rounds of two workers do not overlap.
  pub data Step (sockets : ℕ → Socket) : Server F.Store → Server F.Store → Type 0 where
    accepts :
        (s : Server F.Store) (item : Ptr) (fd : ℕ) (q' : Queue)
        → item ≢ 0
        → s.queue.heap item ≡ none
        → listener_round item (some fd) s.queue ≡ some q'
        → Step sockets s (record s { queue = q'; accepted = s.accepted ++ fd ∷ [] })
    refuses :
        (s : Server F.Store) (fd : ℕ) (q' : Queue)
        → listener_round 0 (some fd) s.queue ≡ some q'
        → Step sockets s (record s { queue = q' })
    misses :
        (s : Server F.Store) (item : Ptr) (q' : Queue)
        → listener_round item none s.queue ≡ some q'
        → Step sockets s (record s { queue = q' })
    works :
        (s : Server F.Store) (fd : ℕ) (q' : Queue) (h : Handled F.Store) (r : Option Response)
        (v' : Service F.Store)
        → worker_round sockets s.queue s.service ≡ serves fd q' h
        → goes_on h ≡ some (r, v')
        → Step sockets s
            (record s { queue = q'; service = v'; replies = s.replies ++ (fd, r) ∷ [] })
    shuts : (s : Server F.Store) → Step sockets s (record s { queue = queue_shutdown s.queue })

  pub data Reach (sockets : ℕ → Socket) (start : Server F.Store) : Server F.Store → Type 0 where
    here : Reach sockets start start
    next :
        {s s' : Server F.Store} → Reach sockets start s → Step sockets s s' → Reach sockets start s'

  -- The server when its threads begin.
  abbrev pub started : Queue → Service F.Store → Server F.Store
  started q v = record { queue = queue_init q; service = v; accepted = []; replies = [] }
