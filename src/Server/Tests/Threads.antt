-- ===== src/Server/Tests/Threads.antt =====
-- The theorems on the threads, with a client that reads a record that is not there.
use cs5600_computer_systems.Prelude.{
  ℕ, ◌≡◌, refl, true, false, Option, none, some, [], ◌∷◌, Str, arith, if◌then◌else◌, str_eq,
  find_from,
}
use cs5600_computer_systems.Server.Queue.{
  Ptr, Queue, work_item, write, queue_init, enqueue_work, dequeue_work,
}
use cs5600_computer_systems.Server.Queue.Chain.{IsQueue, close_all}
use cs5600_computer_systems.Server.Database.{find_key, db_read}
use cs5600_computer_systems.Server.Service.{
  Socket, Response, Service, response, handle_work, answer, counted, worker_round, serves,
  listener_round,
}
use cs5600_computer_systems.Server.Service.Dialogue.{socket, read_request}
use cs5600_computer_systems.Server.Threads.{
  goes_on, returned, sleeping, worker_thread, Served, no_more, one_more, quits, console_round,
  Listener, ends, listener_turn, Server, accepts, works, Reach, here, next, started,
}
use cs5600_computer_systems.Server.Threads.Drain.{worker_thread-drains}
use cs5600_computer_systems.Server.Threads.Quit.{console_round-quits}
use cs5600_computer_systems.Server.Threads.Sequential.{IsSequential, server-IsSequential}
use cs5600_computer_systems.Server.Tests.{
  empty, one_item, one_item-IsQueue, one_submitted, memory, db, service, no_records, name_k,
}

abbrev clients : ℕ → Socket
clients fd = socket (read_request name_k) (λ n. none)

abbrev refused : Response
refused = response b'X' (some 0) []

-- The service with one read and one failure counted.
abbrev after : Service memory.Store
unfolding memory db service
after = record (service no_records) {
  stats = record { stat_reads = 1; stat_writes = 0; stat_deletes = 0; stat_failed = 1 };
}

handled : goes_on (handle_work (clients 3) (service no_records)) ≡ some (some refused, after)
unfolding memory db service after handle_work answer counted db_read find_key find_from str_eq
handled = refl

served : Served clients (3 ∷ []) (service no_records) ((3, some refused) ∷ []) after
served = one_more handled no_more

worker_thread-drains_example :
    (q' : Queue) × (worker_thread 2 clients one_item (service no_records)
      ≡ some (
          if false
          then returned ((3, some refused) ∷ []) q' after
          else sleeping ((3, some refused) ∷ []) q' after))
    × IsQueue q' []
worker_thread-drains_example =
    worker_thread-drains clients 2 one_item ((16, 3) ∷ []) (service no_records) after
      ((3, some refused) ∷ []) one_item-IsQueue served (omega arith)

removed : (memory.rm_data (service no_records).db.files).0 ≡ true
unfolding memory
removed = refl

-- The listener while the server runs.
abbrev open_listener : Listener
open_listener = record { shutdown_flag = false; socket_open = true }

console_round-quits_example :
    (l' : Listener) × (q' : Queue) × (v' : Service memory.Store) × (console_round 1
        (b'q' ∷ b'u' ∷ b'i' ∷ b't' ∷ 10 ∷ [])
        open_listener
        one_item
        (service no_records)
      ≡ some (quits l' q' v'))
    × (l'.socket_open ≡ false)
    × (q'.closed ≡ close_all ((16, 3) ∷ []) [])
    × ((key : Str) → db_read key v'.db ≡ none)
    × ((later : Listener) (item : Ptr) (connection : Option ℕ) (r : Queue)
        → listener_turn l' later item connection r
          ≡ some (ends (record l' { socket_open = false })))
    × ((before : Listener) (item : Ptr) (r : Queue)
        → before.shutdown_flag ≡ false
        → listener_turn before l' item none r ≡ some (ends (record l' { socket_open = false })))
    × ((sockets : ℕ → Socket) (w : Service memory.Store)
        → worker_thread 1 sockets q' w ≡ some (returned [] q' w))
console_round-quits_example =
    console_round-quits 1 (10 ∷ []) open_listener one_item ((16, 3) ∷ []) (service no_records)
      one_item-IsQueue (omega arith) removed

-- The queue after a connection came and was served.
abbrev emptied : Queue
emptied = record empty { heap = write (write (λ p. none) 16 (some (work_item 3 0))) 16 none }

abbrev answered_one : Server memory.Store
unfolding after
answered_one = record {
  queue = emptied;
  service = after;
  accepted = 3 ∷ [];
  replies = (3, some refused) ∷ [];
}

accepted_one :
    Reach clients
      (started empty (service no_records))
      (record (started empty (service no_records)) {
        queue = one_submitted.queue;
        accepted = 3 ∷ [];
      })
unfolding queue_init enqueue_work listener_round
accepted_one =
    next here (
      accepts (started empty (service no_records)) 16 3 one_submitted.queue (omega arith) refl refl)

took :
    worker_round clients one_submitted.queue (service no_records)
    ≡ serves 3 emptied (handle_work (clients 3) (service no_records))
unfolding worker_round dequeue_work queue_init
took = refl

past : Reach clients (started empty (service no_records)) answered_one
unfolding answered_one
past = next accepted_one (
    works
      (record (started empty (service no_records)) {
        queue = one_submitted.queue;
        accepted = 3 ∷ [];
      })
      3 emptied (handle_work (clients 3) (service no_records)) (some refused) after took handled)

server-IsSequential_example : IsSequential clients (service no_records) answered_one
server-IsSequential_example =
    server-IsSequential clients empty (service no_records) answered_one past
