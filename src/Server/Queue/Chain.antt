-- ===== src/Server/Queue/Chain.antt =====
-- The queue as a list: which items the pointers lead through, and what the calls do to them.
use cs5600_computer_systems.Prelude.{
  ℕ, zero, suc, ◌+◌, ◌-◌, ◌≤◌, ◌≡◌, ◌≢◌, refl, Bool, true, false, ◌&&◌, Option, none, some, List,
  [], ◌∷◌, ◌++◌, arith, ◌==◌, if◌then◌else◌, ap, ◌∙◌, sym, subst, length, length-append,
}
use cs5600_computer_systems.Server.Queue.{
  Ptr, WorkItem, work_item, Heap, write, Queue, enqueue_work, dequeue_work, waits, shut, got,
  set_next, cleanup_loop, queue_cleanup, queue_length,
}

-- The items in order: where each stands, and its socket.
abbrev pub Items : Type 0
Items = List (Ptr × ℕ)

abbrev pub first : Items → Ptr
first [] = 0
first ((p, fd) ∷ xs) = p

abbrev pub last : Items → Ptr
last [] = 0
last ((p, fd) ∷ []) = p
last ((p, fd) ∷ (x ∷ xs)) = last (x ∷ xs)

abbrev pub NotIn : Ptr → Items → Type 0
NotIn a [] = Unit
NotIn a ((p, fd) ∷ xs) = (a ≢ p) × NotIn a xs

-- The items stand on the heap at distinct places, each with a pointer to the one behind it.
abbrev pub Chain : Heap → Items → Type 0
Chain h [] = Unit
Chain h ((p, fd) ∷ xs) = (p ≢ 0) × (h p ≡ some (work_item fd (first xs))) × NotIn p xs × Chain h xs

-- What the static variables have to do with the items.
pub record IsQueue (q : Queue) (xs : Items) : Type 0 where
  pub chain : Chain q.heap xs
  pub head : q.queue_head ≡ first xs
  pub tail : q.queue_tail ≡ last xs
  pub count : q.queued_requests ≡ length xs

-- A write elsewhere leaves a chain alone.
Chain-write :
    (h : Heap) (a : Ptr) (c : Option WorkItem) (xs : Items)
    → NotIn a xs
    → Chain h xs
    → Chain (write h a c) xs
Chain-write h a c [] out ch = tt
Chain-write h a c ((p, fd) ∷ xs) out ch =
    (ch.0, ground arith, ch.2, Chain-write h a c xs out.1 ch.3)

NotIn-free : (h : Heap) (a : Ptr) (xs : Items) → h a ≡ none → Chain h xs → NotIn a xs
NotIn-free h a [] free ch = tt
NotIn-free h a ((p, fd) ∷ xs) free ch = (λ e. cc (ap h e, free, ch.1), NotIn-free h a xs free ch.3)

NotIn-snoc : (a b : Ptr) (fd : ℕ) (xs : Items) → NotIn a xs → a ≢ b → NotIn a (xs ++ (b, fd) ∷ [])
NotIn-snoc a b fd [] out ne = (ne, tt)
NotIn-snoc a b fd ((p, e) ∷ xs) out ne = (out.0, NotIn-snoc a b fd xs out.1 ne)

last-snoc : (xs : Items) (p : Ptr) (fd : ℕ) → last (xs ++ (p, fd) ∷ []) ≡ p
last-snoc [] p fd = refl
last-snoc (x ∷ []) p fd = refl
last-snoc (x ∷ (y ∷ xs)) p fd = last-snoc (y ∷ xs) p fd

last_fd : Items → ℕ
last_fd [] = 0
last_fd ((p, fd) ∷ []) = fd
last_fd ((p, fd) ∷ (x ∷ xs)) = last_fd (x ∷ xs)

NotIn-last : (a : Ptr) (x : Ptr × ℕ) (xs : Items) → NotIn a (x ∷ xs) → a ≢ last (x ∷ xs)
NotIn-last a x [] out = out.0
NotIn-last a x (y ∷ xs) out = NotIn-last a y xs out.1

-- The last item has no item behind it.
Chain-last :
    (h : Heap) (x : Ptr × ℕ) (xs : Items)
    → Chain h (x ∷ xs)
    → (h (last (x ∷ xs)) ≡ some (work_item (last_fd (x ∷ xs)) 0)) × (last (x ∷ xs) ≢ 0)
unfolding last_fd
Chain-last h x [] ch = (ch.1, ch.0)
Chain-last h x (y ∷ xs) ch = Chain-last h y xs ch.3

Chain-snoc :
    (h g : Heap) (x : Ptr × ℕ) (xs : Items) (p : Ptr) (fd : ℕ)
    → Chain h (x ∷ xs)
    → NotIn p (x ∷ xs)
    → p ≢ 0
    → ((a : Ptr) → a ≢ last (x ∷ xs) → a ≢ p → g a ≡ h a)
    → g p ≡ some (work_item fd 0)
    → g (last (x ∷ xs)) ≡ some (work_item (last_fd (x ∷ xs)) p)
    → Chain g ((x ∷ xs) ++ (p, fd) ∷ [])
unfolding last_fd
Chain-snoc h g x [] p fd ch out ne same at_p at_last =
    (ch.0, at_last, (λ e. out.0 (sym e), tt), (ne, at_p, tt, tt))
Chain-snoc h g x (y ∷ xs) p fd ch out ne same at_p at_last = (
  ch.0,
  same x.0 (NotIn-last x.0 y xs ch.2) (λ e. out.0 (sym e)) ∙ ch.1,
  NotIn-snoc x.0 p fd (y ∷ xs) ch.2 (λ e. out.0 (sym e)),
  Chain-snoc h g y xs p fd ch.3 out.1 ne same at_p at_last,
)

-- With the queue's variables describing some items, and a new item that is not NULL and not in
-- use: `enqueue_work` succeeds, the variables then describe those items followed by the new one,
-- and neither the shutdown flag nor the closed sockets change.
pub enqueue_work-snoc :
    (item : Ptr) (fd : ℕ) (q : Queue) (xs : Items)
    → IsQueue q xs
    → item ≢ 0
    → q.heap item ≡ none
    → (q' : Queue) × (enqueue_work item fd q ≡ some q')
      × IsQueue q' (xs ++ (item, fd) ∷ [])
      × (q'.shutdown_flag ≡ q.shutdown_flag)
      × (q'.closed ≡ q.closed)
unfolding enqueue_work set_next
enqueue_work-snoc item fd q [] is ne free =
    let some_item : (item == 0) ≡ false = ground arith in
    let empty : (q.queue_tail == 0) ≡ true = rw is.tail in
    (
      record q {
        heap = write q.heap item (some (work_item fd 0));
        queue_head = item;
        queue_tail = item;
        queued_requests = q.queued_requests + 1;
      },
      rw (some_item, empty),
      record {
        chain = (ne, ground arith, tt, tt);
        head = refl;
        tail = refl;
        count = omega (arith, is.count);
      },
      refl,
      refl,
    )
enqueue_work-snoc item fd q (x ∷ xs) is ne free =
    let some_item : (item == 0) ≡ false = ground arith in
    let (at_last, above) = Chain-last q.heap x xs is.chain in
    let used : (q.queue_tail == 0) ≡ false = rw is.tail (ground arith) in
    let out = NotIn-free q.heap item (x ∷ xs) free is.chain in
    let apart : last (x ∷ xs) ≢ item = λ e. NotIn-last item x xs out (sym e) in
    let h = write q.heap item (some (work_item fd 0)) in
    let there : h (last (x ∷ xs)) ≡ some (work_item (last_fd (x ∷ xs)) 0) = ground arith in
    let met : h q.queue_tail ≡ some (work_item (last_fd (x ∷ xs)) 0) = ap h is.tail ∙ there in
    (
      record q {
        heap = write h q.queue_tail (some (work_item (last_fd (x ∷ xs)) item));
        queue_tail = item;
        queued_requests = q.queued_requests + 1;
      },
      rw (some_item, used, met),
      record {
        chain =
            subst
              (λ t.
                Chain (write h t (some (work_item (last_fd (x ∷ xs)) item)))
                  ((x ∷ xs) ++ (item, fd) ∷ []))
              (sym is.tail)
              (Chain-snoc q.heap
                (write h (last (x ∷ xs)) (some (work_item (last_fd (x ∷ xs)) item))) x xs item fd
                is.chain out ne (λ a nl ni. ground arith) (ground arith) (ground arith));
        head = is.head;
        tail = sym (last-snoc (x ∷ xs) item fd);
        count = omega (arith, is.count, length-append {0} (x ∷ xs) ((item, fd) ∷ []));
      },
      refl,
      refl,
    )

and-false : (b : Bool) → (b && false) ≡ false
and-false b = ground arith

-- The tail pointer after the first item was taken.
tail-after :
    (h : Heap) (p t : Ptr) (fd : ℕ) (xs : Items)
    → Chain h xs
    → t ≡ last ((p, fd) ∷ xs)
    → (if first xs == 0 then 0 else t) ≡ last xs
tail-after h p t fd [] ch e = refl
tail-after h p t fd (y ∷ xs) ch e =
    let some_item : (y.0 == 0) ≡ false = ground arith in rw some_item e

-- With the queue's variables describing at least one item: `dequeue_work` returns the first
-- item's socket, whether or not the queue was shut down; the variables then describe the other
-- items, the item is freed, and the shutdown flag is unchanged.
pub dequeue_work-cons :
    (q : Queue) (p : Ptr) (fd : ℕ) (xs : Items)
    → IsQueue q ((p, fd) ∷ xs)
    → (q' : Queue) × (dequeue_work q ≡ got fd q')
      × IsQueue q' xs
      × (q'.heap p ≡ none)
      × (q'.shutdown_flag ≡ q.shutdown_flag)
unfolding dequeue_work
dequeue_work-cons q p fd xs is =
    let some_item : (q.queue_head == 0) ≡ false = rw is.head (ground arith) in
    let met : q.heap q.queue_head ≡ some (work_item fd (first xs)) =
      ap q.heap is.head ∙ is.chain.1 in
    (
      record q {
        heap = write q.heap q.queue_head none;
        queue_head = first xs;
        queue_tail = if first xs == 0 then 0 else q.queue_tail;
        queued_requests = q.queued_requests - 1;
      },
      rw (some_item, and-false q.shutdown_flag, met),
      record {
        chain =
            Chain-write q.heap q.queue_head none xs
              (subst (λ a. NotIn a xs) (sym is.head) is.chain.2) is.chain.3;
        head = refl;
        tail = tail-after q.heap p q.queue_tail fd xs is.chain.3 is.tail;
        count = omega (arith, is.count);
      },
      ground (arith, is.head),
      refl,
    )

-- On an empty queue it waits, or returns -1 once the queue was shut down.
pub dequeue_work-nil :
    (q : Queue) → IsQueue q [] → dequeue_work q ≡ (if q.shutdown_flag then shut else waits)
unfolding dequeue_work
dequeue_work-nil q is = rw is.head (ground arith)

-- The sockets of some items, put before others one by one.
abbrev pub close_all : Items → List ℕ → List ℕ
close_all [] closed = closed
close_all ((p, fd) ∷ xs) closed = close_all xs (fd ∷ closed)

cleanup_loop-done :
    (fuel : ℕ) (h : Heap) (xs : Items) (closed : List ℕ)
    → Chain h xs
    → length xs ≤ fuel
    → (g : Heap) × (cleanup_loop fuel h (first xs) closed ≡ some (g, close_all xs closed))
unfolding cleanup_loop
cleanup_loop-done zero h [] closed ch enough = (h, refl)
cleanup_loop-done (suc fuel) h [] closed ch enough = (h, refl)
cleanup_loop-done zero h (x ∷ xs) closed ch enough = absurd (omega arith)
cleanup_loop-done (suc fuel) h ((zero, fd) ∷ xs) closed ch enough = absurd (ch.0 refl)
cleanup_loop-done (suc fuel) h ((suc p, fd) ∷ xs) closed ch enough = rw ch.1 (
    cleanup_loop-done fuel (write h (suc p) none) xs (fd ∷ closed)
      (Chain-write h (suc p) none xs ch.2 ch.3) (omega arith))

-- With the queue's variables describing some items, and fuel for as many rounds: `queue_cleanup`
-- ends with an empty list, has closed the socket of every item in order, and `queue_length`
-- still returns the number of items there were.
pub queue_cleanup-closes :
    (fuel : ℕ) (q : Queue) (xs : Items)
    → IsQueue q xs
    → length xs ≤ fuel
    → (q' : Queue) × (queue_cleanup fuel q ≡ some q')
      × (q'.queue_head ≡ 0)
      × (q'.queue_tail ≡ 0)
      × (q'.closed ≡ close_all xs q.closed)
      × (q'.shutdown_flag ≡ q.shutdown_flag)
      × (queue_length q' ≡ length xs)
unfolding queue_cleanup queue_length
queue_cleanup-closes fuel q xs is enough =
    let (g, run) = cleanup_loop-done fuel q.heap xs q.closed is.chain enough in
    let met : cleanup_loop fuel q.heap q.queue_head q.closed ≡ some (g, close_all xs q.closed) =
      ap (λ p. cleanup_loop fuel q.heap p q.closed) is.head ∙ run in
    (
      record q { heap = g; queue_head = 0; queue_tail = 0; closed = close_all xs q.closed },
      rw (met, queue_cleanup),
      refl,
      refl,
      refl,
      refl,
      is.count,
    )
