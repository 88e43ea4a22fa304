-- ===== src/PointerQueue/Chain.antt =====
-- The queue of project0 as a list of its elements.
use cs5600_computer_systems.Prelude.{
  ℕ, ◌≡◌, ◌≢◌, refl, true, false, Option, none, some, List, [], ◌∷◌, ◌++◌, arith, ◌==◌,
  if◌then◌else◌, ap, ◌∙◌, sym, subst,
}
use cs5600_computer_systems.PointerQueue.{Node, Ends, with_node, enqueue, dequeue}

-- The nodes in order: where each stands, and its element.
abbrev pub Nodes : Type 0 → Type 0
Nodes E = List (ℕ × E)

abbrev pub NodeHeap : Type 0 → Type 0
NodeHeap E = ℕ → Option (Node E)

module _ {E : Type 0} where
  abbrev pub node : E → ℕ → Option (Node E)
  node e p = some (record { element = e; next = p })

  abbrev pub first : Nodes E → ℕ
  first [] = 0
  first (x ∷ xs) = x.0

  abbrev pub last_of : ℕ × E → Nodes E → ℕ × E
  last_of x [] = x
  last_of x (y ∷ ys) = last_of y ys

  abbrev pub last : Nodes E → ℕ
  last [] = 0
  last (x ∷ xs) = (last_of x xs).0

  abbrev pub NotIn : ℕ → Nodes E → Type 0
  NotIn p [] = Unit
  NotIn p (x ∷ xs) = (p ≢ x.0) × NotIn p xs

  -- The nodes stand on the heap at distinct places, each with a pointer to the one behind it.
  abbrev pub Chain : NodeHeap E → Nodes E → Type 0
  Chain h [] = Unit
  Chain h (x ∷ xs) = (x.0 ≢ 0) × (h x.0 ≡ node x.1 (first xs)) × NotIn x.0 xs × Chain h xs

  -- What the two pointers have to do with the nodes.
  pub record IsQueue (q : Ends E) (xs : Nodes E) : Type 0 where
    pub chain : Chain q.nodes xs
    pub front : q.front ≡ first xs
    pub rear : q.rear ≡ last xs

  -- A chain depends on the heap at its own places only.
  Chain-same :
      (h g : NodeHeap E) (p : ℕ) (xs : Nodes E)
      → NotIn p xs
      → ((a : ℕ) → a ≢ p → g a ≡ h a)
      → Chain h xs
      → Chain g xs
  Chain-same h g p [] out same ch = tt
  Chain-same h g p (x ∷ xs) out same ch =
      (ch.0, same x.0 (λ e. out.0 (sym e)) ∙ ch.1, ch.2, Chain-same h g p xs out.1 same ch.3)

  NotIn-free : (h : NodeHeap E) (p : ℕ) (xs : Nodes E) → h p ≡ none → Chain h xs → NotIn p xs
  NotIn-free h p [] free ch = tt
  NotIn-free h p (x ∷ xs) free ch =
      (λ e. no_node (sym free ∙ ap h e ∙ ch.1), NotIn-free h p xs free ch.3)
    where
      no_node : none ≡ node x.1 (first xs) → ⊥
      no_node e = cc e

  NotIn-snoc : (a : ℕ) (x : ℕ × E) (xs : Nodes E) → NotIn a xs → a ≢ x.0 → NotIn a (xs ++ x ∷ [])
  NotIn-snoc a x [] out ne = (ne, tt)
  NotIn-snoc a x (y ∷ ys) out ne = (out.0, NotIn-snoc a x ys out.1 ne)

  NotIn-last : (a : ℕ) (x : ℕ × E) (xs : Nodes E) → NotIn a (x ∷ xs) → a ≢ (last_of x xs).0
  NotIn-last a x [] out = out.0
  NotIn-last a x (y ∷ ys) out = NotIn-last a y ys out.1

  last_of-snoc : (x y : ℕ × E) (xs : Nodes E) → last_of x (xs ++ y ∷ []) ≡ y
  last_of-snoc x y [] = refl
  last_of-snoc x y (z ∷ zs) = last_of-snoc z y zs

  -- The last node has none behind it.
  Chain-last :
      (h : NodeHeap E) (x : ℕ × E) (xs : Nodes E)
      → Chain h (x ∷ xs)
      → (h (last_of x xs).0 ≡ node (last_of x xs).1 0) × ((last_of x xs).0 ≢ 0)
  Chain-last h x [] ch = (ch.1, ch.0)
  Chain-last h x (y ∷ ys) ch = Chain-last h y ys ch.3

  Chain-snoc :
      (h g : NodeHeap E) (x y : ℕ × E) (xs : Nodes E)
      → Chain h (x ∷ xs)
      → NotIn y.0 (x ∷ xs)
      → y.0 ≢ 0
      → ((a : ℕ) → a ≢ (last_of x xs).0 → a ≢ y.0 → g a ≡ h a)
      → g y.0 ≡ node y.1 0
      → g (last_of x xs).0 ≡ node (last_of x xs).1 y.0
      → Chain g ((x ∷ xs) ++ y ∷ [])
  Chain-snoc h g x y [] ch out ne same at_y at_last =
      (ch.0, at_last, (λ e. out.0 (sym e), tt), (ne, at_y, tt, tt))
  Chain-snoc h g x y (z ∷ zs) ch out ne same at_y at_last = (
    ch.0,
    same x.0 (NotIn-last x.0 z zs ch.2) (λ e. out.0 (sym e)) ∙ ch.1,
    NotIn-snoc x.0 y (z ∷ zs) ch.2 (λ e. out.0 (sym e)),
    Chain-snoc h g z y zs ch.3 out.1 ne same at_y at_last,
  )

  pub enqueue-snoc :
      (p : ℕ) (e : E) (q : Ends E) (xs : Nodes E)
      → IsQueue q xs
      → p ≢ 0
      → q.nodes p ≡ none
      → (q' : Ends E) × (enqueue p e q ≡ some q') × IsQueue q' (xs ++ (p, e) ∷ [])
  unfolding enqueue
  enqueue-snoc p e q [] is ne free =
      let here : (p == 0) ≡ false = ground arith in
      let empty : (q.rear == 0) ≡ true = rw is.rear in
      (
        record { nodes = with_node p (node e 0) q.nodes; front = p; rear = p },
        rw (here, empty),
        record { chain = (ne, ground arith, tt, tt); front = refl; rear = refl },
      )
  enqueue-snoc p e q (x ∷ xs) is ne free =
      let here : (p == 0) ≡ false = ground arith in
      let l = last_of x xs in
      let (at_last, above) = Chain-last q.nodes x xs is.chain in
      let used : (q.rear == 0) ≡ false = rw is.rear (ground arith) in
      let out = NotIn-free q.nodes p (x ∷ xs) free is.chain in
      let apart : l.0 ≢ p = λ same. NotIn-last p x xs out (sym same) in
      let h = with_node p (node e 0) q.nodes in
      let there : h l.0 ≡ node l.1 0 = ground arith in
      let met : h q.rear ≡ node l.1 0 = ap h is.rear ∙ there in
      (
        record q { nodes = with_node q.rear (node l.1 p) h; rear = p },
        rw (here, used, met),
        record {
          chain =
              subst (λ r. Chain (with_node r (node l.1 p) h) ((x ∷ xs) ++ (p, e) ∷ []))
                (sym is.rear)
                (Chain-snoc q.nodes (with_node l.0 (node l.1 p) h) x (p, e) xs is.chain out ne
                  (λ a nl np. ground arith) (ground arith) (ground arith));
          front = is.front;
          rear = ap (λ (y : ℕ × E). y.0) (sym (last_of-snoc x (p, e) xs));
        },
      )

  rear-after :
      (h : NodeHeap E) (x : ℕ × E) (xs : Nodes E)
      → Chain h xs
      → (if first xs == 0 then 0 else last (x ∷ xs)) ≡ last xs
  rear-after h x [] ch = refl
  rear-after h x (y ∷ ys) ch = let used : (y.0 == 0) ≡ false = ground arith in rw used refl

  pub dequeue-cons :
      (q : Ends E) (x : ℕ × E) (xs : Nodes E)
      → IsQueue q (x ∷ xs)
      → (q' : Ends E) × (dequeue q ≡ some (some x.1, q')) × IsQueue q' xs
  unfolding dequeue
  dequeue-cons q x xs is =
      let used : (q.front == 0) ≡ false = rw is.front (ground arith) in
      let met : q.nodes q.front ≡ node x.1 (first xs) = ap q.nodes is.front ∙ is.chain.1 in
      (
        record {
          nodes = with_node q.front none q.nodes;
          front = first xs;
          rear = if first xs == 0 then 0 else q.rear;
        },
        rw (used, met),
        record {
          chain =
              Chain-same q.nodes (with_node q.front none q.nodes) q.front xs
                (subst (λ a. NotIn a xs) (sym is.front) is.chain.2) (λ a ne. ground arith)
                is.chain.3;
          front = refl;
          rear =
              ap (λ r. if first xs == 0 then 0 else r) is.rear ∙ rear-after q.nodes x xs is.chain.3;
        },
      )

  pub dequeue-nil : (q : Ends E) → IsQueue q [] → dequeue q ≡ some (none, q)
  unfolding dequeue
  dequeue-nil q is = let empty : (q.front == 0) ≡ true = rw is.front in rw empty
