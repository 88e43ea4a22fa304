-- ===== src/Server/Threads/Quit.antt =====
-- The command that ends the server.
use cs5600_computer_systems.Prelude.{
  ℕ, suc, ◌≤◌, ◌≡◌, refl, true, false, Option, none, some, [], ◌∷◌, Str, str_eq, length, inl, inr,
  Option-cases,
}
use cs5600_computer_systems.Server.Queue.{Ptr, Queue, queue_shutdown, dequeue_work, shut}
use cs5600_computer_systems.Server.Queue.Chain.{Items, IsQueue, close_all, queue_cleanup-closes}
use cs5600_computer_systems.Server.Database.{Files, Db, find_key, db_read, db_cleanup}
use cs5600_computer_systems.Server.Service.{Socket, Service}
use cs5600_computer_systems.Server.Threads.{
  returned, worker_thread, quits, console_round, Listener, ends, listener_turn,
}
use cs5600_computer_systems.Server.Threads.Drain.{worker_round-empty, worker_thread-none}

dequeue_work-shut : (q : Queue) → q.queue_head ≡ 0 → q.shutdown_flag ≡ true → dequeue_work q ≡ shut
unfolding dequeue_work
dequeue_work-shut q head flag = rw (head, flag) refl

queue_shutdown-IsQueue : (q : Queue) (xs : Items) → IsQueue q xs → IsQueue (queue_shutdown q) xs
unfolding queue_shutdown
queue_shutdown-IsQueue q xs is = record {
  chain = is.chain;
  head = is.head;
  tail = is.tail;
  count = is.count;
}

module _ ⦃F : Files⦄ where
  worker_thread-shut :
      (sockets : ℕ → Socket) (fuel : ℕ) (q : Queue) (v : Service F.Store)
      → q.queue_head ≡ 0
      → q.shutdown_flag ≡ true
      → worker_thread (suc fuel) sockets q v ≡ some (returned [] q v)
  worker_thread-shut sockets fuel q v head flag =
      worker_thread-none sockets true fuel q v
        (worker_round-empty sockets true q v (dequeue_work-shut q head flag))

  db_read-db_cleanup :
      (key : Str) (s : Db F.Store)
      → (F.rm_data s.files).0 ≡ true
      → db_read key (db_cleanup s) ≡ none
  unfolding db_read db_cleanup
  db_read-db_cleanup key s removed = elim (Option-cases (find_key s.table key)) [
    | inl missing ↦ rw (db_read, missing) refl
    | inr (i, found) ↦ rw (db_read, found) (F.read-rm_data i s.files removed)
  ]

  -- With the queue's variables describing some items, fuel for as many rounds of its cleanup,
  -- and a shell command for the data files that succeeds: for a line that begins with the quit
  -- command, the loop of `main` ends with the listener's socket and those of all items closed,
  -- the latter in order; `db_read` of any name fails in the state that is left; the loop of the
  -- listener ends when it tests its flag next, be it at its head or after a failed `accept`; and
  -- any worker returns in its next round without a reply.
  pub console_round-quits :
      (fuel : ℕ) (rest : Str) (l : Listener) (q : Queue) (xs : Items) (v : Service F.Store)
      → IsQueue q xs
      → length xs ≤ fuel
      → (F.rm_data v.db.files).0 ≡ true
      → (l' : Listener) × (q' : Queue) × (v' : Service F.Store) × (console_round fuel
            (b'q' ∷ b'u' ∷ b'i' ∷ b't' ∷ rest)
            l
            q
            v
          ≡ some (quits l' q' v'))
        × (l'.socket_open ≡ false)
        × (q'.closed ≡ close_all xs q.closed)
        × ((key : Str) → db_read key v'.db ≡ none)
        × ((later : Listener) (item : Ptr) (connection : Option ℕ) (r : Queue)
            → listener_turn l' later item connection r
              ≡ some (ends (record l' { socket_open = false })))
        × ((before : Listener) (item : Ptr) (r : Queue)
            → before.shutdown_flag ≡ false
            → listener_turn before l' item none r ≡ some (ends (record l' { socket_open = false })))
        × ((sockets : ℕ → Socket) (w : Service F.Store)
            → worker_thread 1 sockets q' w ≡ some (returned [] q' w))
  unfolding console_round queue_shutdown str_eq listener_turn
  console_round-quits fuel rest l q xs v is enough removed =
      let (q', run, head, tail, closed, flag, count) =
        queue_cleanup-closes fuel (queue_shutdown q) xs (queue_shutdown-IsQueue q xs is) enough in
      (
        record l { shutdown_flag = true; socket_open = false },
        q',
        record v { db = db_cleanup v.db },
        rw (console_round, run) refl,
        refl,
        closed,
        λ key. db_read-db_cleanup key v.db removed,
        λ later item connection r. refl,
        λ before item r clear. rw (listener_turn, clear) refl,
        λ sockets w. worker_thread-shut sockets 0 q' w head flag,
      )
