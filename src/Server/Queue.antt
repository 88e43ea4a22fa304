-- ===== src/Server/Queue.antt =====
-- The work queue of project2/queue.c: its items on a heap, and its calls, each of which runs as one
-- step under `queue_mutex`.
pub mod Chain
pub mod History
use cs5600_computer_systems.Prelude.{
  ℕ, zero, suc, ◌+◌, ◌-◌, Bool, true, false, not, ◌&&◌, Option, none, some, List, [], ◌∷◌, ◌==◌,
  if◌then◌else◌,
}

-- A pointer to a `work_item`; 0 is NULL.
abbrev pub Ptr : Type 0
Ptr = ℕ

pub record WorkItem : Type 0 where
  pub sock_fd : ℕ
  pub next : Ptr

abbrev pub work_item : ℕ → Ptr → WorkItem
work_item fd p = record { sock_fd = fd; next = p }

abbrev pub Heap : Type 0
Heap = Ptr → Option WorkItem

abbrev pub write : Heap → Ptr → Option WorkItem → Heap
write h p c a = if a == p then c else h a

-- The file's static variables, the heap, and the sockets that were closed, the last one first.
pub record Queue : Type 0 where
  pub heap : Heap
  pub queue_head : Ptr
  pub queue_tail : Ptr
  pub queued_requests : ℕ
  pub shutdown_flag : Bool
  pub closed : List ℕ

unfoldable pub queue_init : Queue → Queue
queue_init q = record q {
  queue_head = 0;
  queue_tail = 0;
  queued_requests = 0;
  shutdown_flag = false;
}

unfoldable pub queue_shutdown : Queue → Queue
queue_shutdown q = record q { shutdown_flag = true }

-- `tail->next = p`; `none` is a fault.
unfoldable pub set_next : Heap → Ptr → Ptr → Option Heap
set_next h tail p = elim (h tail) [
  | none ↦ none
  | some it ↦ some (write h tail (some (record it { next = p })))
]

-- `enqueue_work(sock_fd)`, where `item` is what `malloc` returns. `none` is a fault.
unfoldable pub enqueue_work : Ptr → ℕ → Queue → Option Queue
enqueue_work item fd q =
    if item == 0
    then some (record q { closed = fd ∷ q.closed })
    else if q.queue_tail == 0
    then some (record q {
      heap = write q.heap item (some (work_item fd 0));
      queue_head = item;
      queue_tail = item;
      queued_requests = q.queued_requests + 1;
    })
    else elim (set_next (write q.heap item (some (work_item fd 0))) q.queue_tail item) [
      | none ↦ none
      | some h ↦
          some (record q { heap = h; queue_tail = item; queued_requests = q.queued_requests + 1 })
    ]

-- How a call of `dequeue_work` that holds the mutex goes on: it waits on the condition, returns -1,
-- returns a socket, or reads through a pointer to no item.
pub data Dequeued : Type 0 where
  waits : Dequeued
  shut : Dequeued
  got : ℕ → Queue → Dequeued
  fault : Dequeued

unfoldable pub dequeue_work : Queue → Dequeued
dequeue_work q =
    if (q.queue_head == 0) && not q.shutdown_flag
    then waits
    else if q.shutdown_flag && (q.queue_head == 0)
    then shut
    else elim (q.heap q.queue_head) [
      | none ↦ fault
      | some it ↦ got it.sock_fd (record q {
        heap = write q.heap q.queue_head none;
        queue_head = it.next;
        queue_tail = if it.next == 0 then 0 else q.queue_tail;
        queued_requests = q.queued_requests - 1;
      })
    ]

unfoldable pub queue_length : Queue → ℕ
queue_length q = q.queued_requests

-- The loop of `queue_cleanup`, with fuel: it closes and frees every item. `none` is a fault, or the
-- end of the fuel.
unfoldable pub cleanup_loop : ℕ → Heap → Ptr → List ℕ → Option (Heap × List ℕ)
cleanup_loop fuel h zero closed = some (h, closed)
cleanup_loop zero h (suc p) closed = none
cleanup_loop (suc fuel) h (suc p) closed = elim (h (suc p)) [
  | none ↦ none
  | some it ↦ cleanup_loop fuel (write h (suc p) none) it.next (it.sock_fd ∷ closed)
]

-- `queue_cleanup()`. It does not touch `queued_requests`.
unfoldable pub queue_cleanup : ℕ → Queue → Option Queue
queue_cleanup fuel q = elim (cleanup_loop fuel q.heap q.queue_head q.closed) [
  | none ↦ none
  | some (h, closed) ↦ some (record q { heap = h; queue_head = 0; queue_tail = 0; closed = closed })
]
