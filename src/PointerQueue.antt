-- ===== src/PointerQueue.antt =====
-- The queue of project0/part4/queue.c: nodes on a heap, and a pointer to each end.
pub mod Chain
pub mod Trace
mod Tests
use cs5600_computer_systems.Prelude.{
  ℕ, ◌≡◌, ◌≢◌, refl, Bool, true, false, Option, none, some, arith, ◌==◌, if◌then◌else◌,
}

-- A pointer is a number, 0 for NULL. `Element` is what the `void *` of a node stands for.
pub record Node (Element : Type 0) : Type 0 where
  pub element : Element
  pub next : ℕ

-- `queue_t`, and the heap that its nodes stand on.
pub record Ends (Element : Type 0) : Type 0 where
  pub nodes : ℕ → Option (Node Element)
  pub front : ℕ
  pub rear : ℕ

module _ {Element : Type 0} where
  abbrev pub with_node :
      ℕ → Option (Node Element) → (ℕ → Option (Node Element)) → ℕ → Option (Node Element)
  with_node p n h a = if a == p then n else h a

  unfoldable pub init_queue : Ends Element → Ends Element
  init_queue q = record q { front = 0; rear = 0 }

  -- `enqueue(queue, element)`, where `new_node` is what `malloc` returns. `none` is the exit for want of
  -- memory, or a fault.
  unfoldable pub enqueue : ℕ → Element → Ends Element → Option (Ends Element)
  enqueue new_node e q =
      if new_node == 0
      then none
      else if q.rear == 0
      then some (record {
        nodes = with_node new_node (some (record { element = e; next = 0 })) q.nodes;
        front = new_node;
        rear = new_node;
      })
      else elim (with_node new_node (some (record { element = e; next = 0 })) q.nodes q.rear) [
        | none ↦ none
        | some last ↦ some (record q {
          nodes =
              with_node q.rear (some (record last { next = new_node }))
                (with_node new_node (some (record { element = e; next = 0 })) q.nodes);
          rear = new_node;
        })
      ]

  -- `dequeue(queue)`: the element, `none` for NULL, and the queue. The outer `none` is a fault.
  unfoldable pub dequeue : Ends Element → Option (Option Element × Ends Element)
  dequeue q = if q.front == 0 then some (none, q) else elim (q.nodes q.front) [
    | none ↦ none
    | some n ↦ some (
      some n.element,
      record {
        nodes = with_node q.front none q.nodes;
        front = n.next;
        rear = if n.next == 0 then 0 else q.rear;
      },
    )
  ]

  unfoldable pub is_empty : Ends Element → Bool
  is_empty q = q.front == 0

  -- With a queue of project0 whose `rear` is NULL and memory for a node: `enqueue` succeeds and
  -- the queue is then not empty; `dequeue` then returns the element, and the queue is empty
  -- again.
  pub dequeue-enqueue :
      (p : ℕ) (e : Element) (q : Ends Element)
      → p ≢ 0
      → q.rear ≡ 0
      → (q₁ q₂ : Ends Element) × (enqueue p e q ≡ some q₁)
        × (is_empty q₁ ≡ false)
        × (dequeue q₁ ≡ some (some e, q₂))
        × (is_empty q₂ ≡ true)
  unfolding enqueue dequeue is_empty
  dequeue-enqueue p e q ne empty =
      let here : (p == 0) ≡ false = ground arith in
      let no_rear : (q.rear == 0) ≡ true = ground arith in
      let same : (p == p) ≡ true = ground arith in
      (
        record {
          nodes = with_node p (some (record { element = e; next = 0 })) q.nodes;
          front = p;
          rear = p;
        },
        record {
          nodes = with_node p none (with_node p (some (record { element = e; next = 0 })) q.nodes);
          front = 0;
          rear = 0;
        },
        rw (here, no_rear),
        here,
        rw (here, same),
        refl,
      )
