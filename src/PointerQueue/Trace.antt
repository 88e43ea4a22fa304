-- ===== src/PointerQueue/Trace.antt =====
-- The queue of project0 against a list: what sequences of its calls return.
use cs5600_computer_systems.Prelude.{
  some-inj, map-snoc, ℕ, ◌≡◌, ◌≢◌, refl, Bool, true, false, Option, none, some, List, [], ◌∷◌, ◌++◌,
  map, arith, ◌==◌, ap, ◌∙◌, sym, subst,
}
use cs5600_computer_systems.PointerQueue.{Ends, init_queue, enqueue, dequeue, is_empty}
use cs5600_computer_systems.PointerQueue.Chain.{
  Nodes, IsQueue, enqueue-snoc, dequeue-cons, dequeue-nil,
}

-- A call that came back: an element was put in, `dequeue` returned an element or NULL, or `is_empty`
-- returned a truth value.
pub data Event (E : Type 0) : Type 0 where
  entered : E → Event E
  returned : Option E → Event E
  tested : Bool → Event E

-- A sequence of calls. `malloc` returns a place that is not in use.
pub data Trace {E : Type 0} : Ends E → List (Event E) → Ends E → Type 0 where
  stop : {q : Ends E} → Trace q [] q
  put :
      {q q' q'' : Ends E} {l : List (Event E)} (p : ℕ) (e : E)
      → p ≢ 0
      → q.nodes p ≡ none
      → enqueue p e q ≡ some q'
      → Trace q' l q''
      → Trace q (entered e ∷ l) q''
  take :
      {q q' q'' : Ends E} {l : List (Event E)} (o : Option E)
      → dequeue q ≡ some (o, q')
      → Trace q' l q''
      → Trace q (returned o ∷ l) q''
  test : {q q' : Ends E} {l : List (Event E)} → Trace q l q' → Trace q (tested (is_empty q) ∷ l) q'

abbrev pub is_nil : {E : Type 0} → List E → Bool
is_nil [] = true
is_nil (x ∷ xs) = false

-- The same calls on a list.
pub data Fifo {E : Type 0} : List E → List (Event E) → List E → Type 0 where
  stop : {xs : List E} → Fifo xs [] xs
  put :
      {xs ys : List E} {l : List (Event E)} (e : E)
      → Fifo (xs ++ e ∷ []) l ys
      → Fifo xs (entered e ∷ l) ys
  take :
      {xs ys : List E} {l : List (Event E)} (x : E)
      → Fifo xs l ys
      → Fifo (x ∷ xs) (returned (some x) ∷ l) ys
  take_none : {ys : List E} {l : List (Event E)} → Fifo [] l ys → Fifo [] (returned none ∷ l) ys
  test : {xs ys : List E} {l : List (Event E)} → Fifo xs l ys → Fifo xs (tested (is_nil xs) ∷ l) ys

abbrev pub elements : {E : Type 0} → Nodes E → List E
elements xs = map (λ x. x.1) xs

pair-inj :
    {A B : Type 0} (o : Option (A × B)) (a b : A) (c d : B)
    → o ≡ some (a, c)
    → o ≡ some (b, d)
    → (a ≡ b) × (c ≡ d)
pair-inj {A} {B} o a b c d e e' = (
  ap (λ (v : Option (A × B)). elim v [ none ↦ a | some p ↦ p.0 ]) (sym e ∙ e'),
  ap (λ (v : Option (A × B)). elim v [ none ↦ c | some p ↦ p.1 ]) (sym e ∙ e'),
)

module _ {E : Type 0} where
  -- The list that a state of the queue stands for, after calls from a list on.
  pub record Refines (xs : List E) (l : List (Event E)) (q : Ends E) : Type 0 where
    pub nodes : Nodes E
    pub queue : IsQueue q nodes
    pub fifo : Fifo xs l (elements nodes)

  is_empty-is_nil : (q : Ends E) (xs : Nodes E) → IsQueue q xs → is_empty q ≡ is_nil (elements xs)
  unfolding is_empty
  is_empty-is_nil q [] is = rw is.front refl
  is_empty-is_nil q (x ∷ xs) is =
      let used : (x.0 == 0) ≡ false = ground (arith, is.chain.0) in rw is.front used

  Trace-Refines :
      {q q' : Ends E} {l : List (Event E)} (xs : Nodes E)
      → IsQueue q xs
      → Trace q l q'
      → Refines (elements xs) l q'
  Trace-Refines xs is stop = record { nodes = xs; queue = is; fifo = Fifo.stop }
  Trace-Refines {q} xs is (put {q'} {l} p e ne free run more) =
      let (q₁, run₁, is₁) = enqueue-snoc p e q xs is ne free in
      let r =
        Trace-Refines (xs ++ (p, e) ∷ [])
          (subst (λ (k : Ends E). IsQueue k (xs ++ (p, e) ∷ [])) (some-inj q₁ q' (sym run₁ ∙ run))
            is₁)
          more in
      record {
        nodes = r.nodes;
        queue = r.queue;
        fifo = Fifo.put e (
            subst (λ k. Fifo k l (elements r.nodes)) (map-snoc (λ (x : ℕ × E). x.1) xs (p, e))
              r.fifo);
      }
  Trace-Refines {q} {q'} [] is (take {q' = q₁} {l} o run more) =
      let (same_o, same_q) = pair-inj (dequeue q) none o q q₁ (dequeue-nil q is) run in
      let r = Trace-Refines [] (subst (λ (k : Ends E). IsQueue k []) same_q is) more in
      subst (λ (v : Option E). Refines [] (returned v ∷ l) q') same_o
        (record { nodes = r.nodes; queue = r.queue; fifo = Fifo.take_none r.fifo })
  Trace-Refines {q} {q'} (x ∷ xs) is (take {q' = q₁} {l} o run more) =
      let (q₂, took, is₂) = dequeue-cons q x xs is in
      let (same_o, same_q) = pair-inj (dequeue q) (some x.1) o q₂ q₁ took run in
      let r = Trace-Refines xs (subst (λ (k : Ends E). IsQueue k xs) same_q is₂) more in
      subst (λ (v : Option E). Refines (x.1 ∷ elements xs) (returned v ∷ l) q') same_o
        (record { nodes = r.nodes; queue = r.queue; fifo = Fifo.take x.1 r.fifo })
  Trace-Refines {q} xs is (test {l} more) =
      let r = Trace-Refines xs is more in
      record {
        nodes = r.nodes;
        queue = r.queue;
        fifo =
            subst (λ (b : Bool). Fifo (elements xs) (tested b ∷ l) (elements r.nodes))
              (sym (is_empty-is_nil q xs is)) (Fifo.test r.fifo);
      }

  init_queue-IsQueue : (q : Ends E) → IsQueue (init_queue q) []
  unfolding init_queue
  init_queue-IsQueue q = record { chain = tt; front = refl; rear = refl }

  -- After any sequence of calls of `enqueue` (with memory for the node), `dequeue` and
  -- `is_empty` from `init_queue` on: every call returned what it returns on a list of elements,
  -- `dequeue` the first one or NULL on the empty list and `is_empty` whether the list is empty;
  -- and the nodes that the two pointers lead through have the elements of that list, in order.
  pub queue-Refines :
      (q q' : Ends E) (l : List (Event E)) → Trace (init_queue q) l q' → Refines [] l q'
  queue-Refines q q' l calls = Trace-Refines [] (init_queue-IsQueue q) calls
