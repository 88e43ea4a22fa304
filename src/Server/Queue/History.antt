-- ===== src/Server/Queue/History.antt =====
-- Runs of the listener, the workers and the main thread on the queue. Each call runs under the
-- mutex, so a run of all the threads is a sequence of whole calls, in any order.
use cs5600_computer_systems.Prelude.{
  some-inj, map-snoc, ℕ, ◌≡◌, ◌≢◌, refl, Bool, true, false, none, some, List, [], ◌∷◌, ◌++◌, map,
  ap, ◌∙◌, sym, append_assoc, if◌then◌else◌,
}
use cs5600_computer_systems.Server.Queue.{
  Ptr, Queue, queue_init, queue_shutdown, enqueue_work, dequeue_work, waits, shut, got,
}
use cs5600_computer_systems.Server.Queue.Chain.{
  Items, IsQueue, enqueue_work-snoc, dequeue_work-cons, dequeue_work-nil,
}

-- The queue, and what went through it: the sockets that were put in, and those that were handed
-- out, both from the first to the last.
pub record Run : Type 0 where
  pub queue : Queue
  pub accepted : List ℕ
  pub served : List ℕ

-- One whole call by some thread. `malloc` returns a place that is not in use.
pub data Step : Run → Run → Type 0 where
  submit :
      (r : Run) (item : Ptr) (fd : ℕ) (q' : Queue)
      → item ≢ 0
      → r.queue.heap item ≡ none
      → enqueue_work item fd r.queue ≡ some q'
      → Step r (record r { queue = q'; accepted = r.accepted ++ fd ∷ [] })
  serve :
      (r : Run) (fd : ℕ) (q' : Queue)
      → dequeue_work r.queue ≡ got fd q'
      → Step r (record r { queue = q'; served = r.served ++ fd ∷ [] })
  shut_down : (r : Run) → Step r (record r { queue = queue_shutdown r.queue })

pub data Reach (start : Run) : Run → Type 0 where
  here : Reach start start
  next : {r r' : Run} → Reach start r → Step r r' → Reach start r'

-- What was put in is what was handed out, followed by what stands in the queue.
pub record IsFifo (r : Run) : Type 0 where
  pub items : Items
  pub queue : IsQueue r.queue items
  pub order : r.accepted ≡ r.served ++ map (λ x. x.1) items

got-inj : (a b : ℕ) (q r : Queue) → got a q ≡ got b r → (a ≡ b) × (q ≡ r)
got-inj a b q r e = (cc, cc)

no_got : (b : Bool) (fd : ℕ) (q : Queue) → (if b then shut else waits) ≡ got fd q → ⊥
no_got true fd q e = cc
no_got false fd q e = cc

serve-IsFifo :
    (r : Run) (fd : ℕ) (q' : Queue) (xs : Items)
    → IsQueue r.queue xs
    → r.accepted ≡ r.served ++ map (λ x. x.1) xs
    → dequeue_work r.queue ≡ got fd q'
    → IsFifo (record r { queue = q'; served = r.served ++ fd ∷ [] })
serve-IsFifo r fd q' [] is order e =
    absurd (no_got r.queue.shutdown_flag fd q' (sym (dequeue_work-nil r.queue is) ∙ e))
serve-IsFifo r fd q' ((p, a) ∷ xs) is order e =
    let (q'', run, is', freed, flag) = dequeue_work-cons r.queue p a xs is in
    let (same_fd, same_q) = got-inj a fd q'' q' (sym run ∙ e) in
    record {
      items = xs;
      queue = rw same_q at is';
      order = order ∙ rw same_fd (sym (append_assoc r.served (fd ∷ []) (map (λ x. x.1) xs)));
    }

Step-IsFifo : {r r' : Run} → Step r r' → IsFifo r → IsFifo r'
Step-IsFifo (submit r item fd q' ne free e) h =
    let (q'', run, is, flag, closed) = enqueue_work-snoc item fd r.queue h.items h.queue ne free in
    record {
      items = h.items ++ (item, fd) ∷ [];
      queue = rw (some-inj q'' q' (sym run ∙ e)) at is;
      order =
          ap (λ xs. xs ++ fd ∷ []) h.order
          ∙ append_assoc r.served (map (λ x. x.1) h.items) (fd ∷ [])
          ∙ ap (r.served ++◌) (sym (map-snoc (λ (x : ℕ × ℕ). x.1) h.items (item, fd)));
    }
Step-IsFifo (serve r fd q' e) h = serve-IsFifo r fd q' h.items h.queue h.order e
Step-IsFifo (shut_down r) h = record {
  items = h.items;
  queue =
      unfold queue_shutdown in
      record {
        chain = h.queue.chain;
        head = h.queue.head;
        tail = h.queue.tail;
        count = h.queue.count;
      };
  order = h.order;
}

-- The run that begins with an empty queue.
abbrev pub start : Queue → Run
start q = record { queue = queue_init q; accepted = []; served = [] }

start-IsFifo : (q : Queue) → IsFifo (start q)
unfolding queue_init
start-IsFifo q = record {
  items = [];
  queue = record { chain = tt; head = refl; tail = refl; count = refl };
  order = refl;
}

Reach-IsFifo : {s r : Run} → IsFifo s → Reach s r → IsFifo r
Reach-IsFifo h here = h
Reach-IsFifo h (next past step) = Step-IsFifo step (Reach-IsFifo h past)

-- After any sequence of calls of `enqueue_work` (with memory for the item), `dequeue_work` and
-- `queue_shutdown` from `queue_init` on: the sockets put in are those handed out followed by
-- those in the queue, in this order, and the queue's variables describe the items on the heap.
pub queue-IsFifo : (q : Queue) (r : Run) → Reach (start q) r → IsFifo r
queue-IsFifo q r past = Reach-IsFifo (start-IsFifo q) past
