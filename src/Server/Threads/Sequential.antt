-- ===== src/Server/Threads/Sequential.antt =====
-- Whatever the order of the threads' rounds, the server answers as one that handles the connections one
-- by one, in the order in which they came.
use cs5600_computer_systems.Prelude.{
  some-inj, map-snoc, ℕ, ◌≡◌, refl, Bool, true, false, Option, some, List, [], ◌∷◌, ◌++◌, map,
  if◌then◌else◌, ap, ◌∙◌, sym, subst, append_assoc,
}
use cs5600_computer_systems.Server.Queue.{Ptr, Queue, queue_init, queue_shutdown, enqueue_work}
use cs5600_computer_systems.Server.Queue.Chain.{
  Items, IsQueue, enqueue_work-snoc, dequeue_work-cons, dequeue_work-nil,
}
use cs5600_computer_systems.Server.Database.{Files}
use cs5600_computer_systems.Server.Service.{
  Socket, Response, Service, Handled, Round, blocks, stops, serves, handle_work, worker_round,
  listener_round,
}
use cs5600_computer_systems.Server.Threads.{
  Reply, goes_on, Served, no_more, one_more, Server, Step, accepts, refuses, misses, works, shuts,
  Reach, here, next, started,
}
use cs5600_computer_systems.Server.Threads.Drain.{sockets_of, worker_round-got, worker_round-empty}

abbrev pub replied : List Reply → List ℕ
replied rs = map (λ x. x.0) rs

module _ ⦃F : Files⦄ (sockets : ℕ → Socket) where
  -- The connections that were accepted are those that were replied to and those in the queue, in this order; the
  -- replies and the service are those of a server that handled the former one by one.
  pub record IsSequential (v0 : Service F.Store) (s : Server F.Store) : Type 0 where
    pub items : Items
    pub queue : IsQueue s.queue items
    pub order : s.accepted ≡ replied s.replies ++ sockets_of items
    pub served : Served sockets (replied s.replies) v0 s.replies s.service

  Served-snoc :
      {fds : List ℕ} {u v w : Service F.Store} {rs : List Reply} (fd : ℕ) (r : Option Response)
      → Served sockets fds u rs v
      → goes_on (handle_work (sockets fd) v) ≡ some (r, w)
      → Served sockets (fds ++ fd ∷ []) u (rs ++ (fd, r) ∷ []) w
  Served-snoc fd r no_more e = one_more e no_more
  Served-snoc fd r (one_more e' served) e = one_more e' (Served-snoc fd r served e)

  no_serves :
      (o : Round) (b : Bool) (fd : ℕ) (q : Queue) (h : Handled F.Store)
      → o ≡ (if b then stops else blocks)
      → o ≡ serves fd q h
      → ⊥
  no_serves o true fd q h e e' = cc (sym e ∙ e')
  no_serves o false fd q h e e' = cc (sym e ∙ e')

  serves-inj :
      (o : Round) (fd fd' : ℕ) (q q' : Queue) (h h' : Handled F.Store)
      → o ≡ serves fd q h
      → o ≡ serves fd' q' h'
      → (fd ≡ fd') × (q ≡ q') × (h ≡ h')
  serves-inj o fd fd' q q' h h' e e' = (cc, cc, cc)

  works-IsSequential :
      (v0 : Service F.Store) (s : Server F.Store) (fd : ℕ) (q' : Queue) (h : Handled F.Store)
      (r : Option Response) (v' : Service F.Store) (xs : Items)
      → IsQueue s.queue xs
      → s.accepted ≡ replied s.replies ++ sockets_of xs
      → Served sockets (replied s.replies) v0 s.replies s.service
      → worker_round sockets s.queue s.service ≡ serves fd q' h
      → goes_on h ≡ some (r, v')
      → IsSequential v0 (record s { queue = q'; service = v'; replies = s.replies ++ (fd, r) ∷ [] })
  works-IsSequential v0 s fd q' h r v' [] is order served run on =
      let flag = s.queue.shutdown_flag in
      absurd (
        no_serves (worker_round sockets s.queue s.service) flag fd q' h
          (worker_round-empty sockets flag s.queue s.service (dequeue_work-nil s.queue is)) run)
  works-IsSequential v0 s fd q' h r v' ((p, a) ∷ xs) is order served run on =
      let (q'', took, is', freed, flag) = dequeue_work-cons s.queue p a xs is in
      let (same_fd, same_q, same_h) =
        serves-inj (worker_round sockets s.queue s.service) a fd q'' q' _ h
          (worker_round-got sockets s.queue q'' s.service a took) run in
      let names = map-snoc (λ (x : Reply). x.0) s.replies (fd, r) in
      let handled : goes_on (handle_work (sockets fd) s.service) ≡ some (r, v') =
        subst (λ k. goes_on (handle_work (sockets k) s.service) ≡ some (r, v')) same_fd
          (ap goes_on same_h ∙ on) in
      record {
        items = xs;
        queue = subst (λ (q : Queue). IsQueue q xs) same_q is';
        order =
            order
            ∙ ap (λ k. replied s.replies ++ k ∷ sockets_of xs) same_fd
            ∙ sym (append_assoc (replied s.replies) (fd ∷ []) (sockets_of xs))
            ∙ ap (λ l. l ++ sockets_of xs) (sym names);
        served =
            subst (λ l. Served sockets l v0 (s.replies ++ (fd, r) ∷ []) v') (sym names)
              (Served-snoc fd r served handled);
      }

  Step-IsSequential :
      (v0 : Service F.Store) {s s' : Server F.Store}
      → Step sockets s s'
      → IsSequential v0 s
      → IsSequential v0 s'
  unfolding listener_round enqueue_work
  Step-IsSequential v0 (accepts s item fd q' ne free e) h =
      let (q'', run, is, flag, closed) =
        enqueue_work-snoc item fd s.queue h.items h.queue ne free in
      record {
        items = h.items ++ (item, fd) ∷ [];
        queue =
            subst (λ (q : Queue). IsQueue q (h.items ++ (item, fd) ∷ []))
              (some-inj q'' q' (sym run ∙ e)) is;
        order =
            ap (λ xs. xs ++ fd ∷ []) h.order
            ∙ append_assoc (replied s.replies) (sockets_of h.items) (fd ∷ [])
            ∙ ap (replied s.replies ++◌) (sym (map-snoc (λ (x : Ptr × ℕ). x.1) h.items (item, fd)));
        served = h.served;
      }
  Step-IsSequential v0 (refuses s fd q' e) h = record {
    items = h.items;
    queue =
        subst (λ (q : Queue). IsQueue q h.items)
          (some-inj (record s.queue { closed = fd ∷ s.queue.closed }) q' e)
          (record {
            chain = h.queue.chain;
            head = h.queue.head;
            tail = h.queue.tail;
            count = h.queue.count;
          });
    order = h.order;
    served = h.served;
  }
  Step-IsSequential v0 (misses s item q' e) h = record {
    items = h.items;
    queue = subst (λ (q : Queue). IsQueue q h.items) (some-inj s.queue q' e) h.queue;
    order = h.order;
    served = h.served;
  }
  Step-IsSequential v0 (works s fd q' h' r v' run on) h =
      works-IsSequential v0 s fd q' h' r v' h.items h.queue h.order h.served run on
  Step-IsSequential v0 (shuts s) h = record {
    items = h.items;
    queue =
        unfold queue_shutdown in
        record {
          chain = h.queue.chain;
          head = h.queue.head;
          tail = h.queue.tail;
          count = h.queue.count;
        };
    order = h.order;
    served = h.served;
  }

  started-IsSequential : (q : Queue) (v : Service F.Store) → IsSequential v (started q v)
  unfolding queue_init
  started-IsSequential q v = record {
    items = [];
    queue = record { chain = tt; head = refl; tail = refl; count = refl };
    order = refl;
    served = no_more;
  }

  Reach-IsSequential :
      (v0 : Service F.Store) {s s' : Server F.Store}
      → IsSequential v0 s
      → Reach sockets s s'
      → IsSequential v0 s'
  Reach-IsSequential v0 h here = h
  Reach-IsSequential v0 h (next past step) =
      Step-IsSequential v0 step (Reach-IsSequential v0 h past)

  -- In every state that the rounds of the listener, the rounds of the workers and shutdowns
  -- reach from the start, in any order of whole rounds: the connections that were accepted are
  -- those that were replied to followed by those in the queue, in this order; the replies and
  -- the service are those of a server that handles the former one by one in that order; and the
  -- queue's variables describe the items on the heap.
  pub server-IsSequential :
      (q : Queue) (v : Service F.Store) (s : Server F.Store)
      → Reach sockets (started q v) s
      → IsSequential v s
  server-IsSequential q v s past = Reach-IsSequential v (started-IsSequential q v) past
