-- ===== src/PointerQueue/Tests.antt =====
-- Two elements through the queue of project0, one of which is taken again.
use cs5600_computer_systems.Prelude.{ℕ, ◌==◌, refl, none, some, [], ◌∷◌, arith, List, if◌then◌else◌}
use cs5600_computer_systems.PointerQueue.{Ends, init_queue, enqueue, dequeue}
use cs5600_computer_systems.PointerQueue.Chain.{node}
use cs5600_computer_systems.PointerQueue.Trace.{
  Event, entered, returned, Trace, Refines, queue-Refines,
}

abbrev fresh : Ends ℕ
fresh = record { nodes = λ p. none; front = 0; rear = 0 }

abbrev one_in : Ends ℕ
one_in = record { nodes = λ a. if a == 16 then node 5 0 else none; front = 16; rear = 16 }

abbrev two_in : Ends ℕ
two_in = record {
  nodes = λ a. if a == 16 then node 5 32 else if a == 32 then node 6 0 else one_in.nodes a;
  front = 16;
  rear = 32;
}

abbrev one_out : Ends ℕ
one_out = record { nodes = λ a. if a == 16 then none else two_in.nodes a; front = 32; rear = 32 }

abbrev calls : List (Event ℕ)
calls = entered 5 ∷ entered 6 ∷ returned (some 5) ∷ []

ran : Trace (init_queue fresh) calls one_out
unfolding init_queue enqueue dequeue
ran =
    Trace.put {q' = one_in} 16 5 (omega arith) refl refl
      (Trace.put {q' = two_in} 32 6 (omega arith) refl refl (Trace.take (some 5) refl Trace.stop))

queue-Refines_example : Refines [] calls one_out
queue-Refines_example = queue-Refines fresh one_out calls ran
