-- ===== src/Server/Threads/Drain.antt =====
-- A worker that runs by itself serves the whole queue, and returns after a shutdown.
use cs5600_computer_systems.Prelude.{
  ℕ, zero, suc, ◌<◌, ◌≡◌, refl, Bool, true, false, Option, some, List, [], ◌∷◌, map, arith,
  if◌then◌else◌, ap, ◌∙◌, length,
}
use cs5600_computer_systems.Server.Queue.{Queue, dequeue_work, waits, shut, got}
use cs5600_computer_systems.Server.Queue.Chain.{Items, IsQueue, dequeue_work-cons, dequeue_work-nil}
use cs5600_computer_systems.Server.Database.{Files}
use cs5600_computer_systems.Server.Service.{
  Socket, Response, Service, blocks, stops, serves, handle_work, worker_round,
}
use cs5600_computer_systems.Server.Threads.{
  Reply, goes_on, Worked, returned, sleeping, sent_first, worker_thread, Served, no_more, one_more,
}

-- The sockets of the items.
abbrev pub sockets_of : Items → List ℕ
sockets_of xs = map (λ x. x.1) xs

module _ ⦃F : Files⦄ (sockets : ℕ → Socket) where
  -- How a worker ends that has served everything: after a shutdown it returns, before it waits.
  abbrev pub ends : Bool → List Reply → Queue → Service F.Store → Worked
  ends flag rs q v = if flag then returned rs q v else sleeping rs q v

  sent_first-ends :
      (flag : Bool) (r : Reply) (rs : List Reply) (q : Queue) (v : Service F.Store)
      → sent_first r (some (ends flag rs q v)) ≡ some (ends flag (r ∷ rs) q v)
  sent_first-ends true r rs q v = refl
  sent_first-ends false r rs q v = refl

  pub worker_round-got :
      (q q' : Queue) (v : Service F.Store) (fd : ℕ)
      → dequeue_work q ≡ got fd q'
      → worker_round sockets q v ≡ serves fd q' (handle_work (sockets fd) v)
  unfolding worker_round
  worker_round-got q q' v fd e = rw (worker_round, e) refl

  worker_thread-one :
      (fuel : ℕ) (q q' : Queue) (u v : Service F.Store) (fd : ℕ) (r : Option Response)
      → dequeue_work q ≡ got fd q'
      → goes_on (handle_work (sockets fd) u) ≡ some (r, v)
      → worker_thread (suc fuel) sockets q u ≡ sent_first (fd, r) (worker_thread fuel sockets q' v)
  unfolding worker_thread
  worker_thread-one fuel q q' u v fd r e handled =
      rw (worker_thread, worker_round-got q q' u fd e, handled) refl

  -- A round on an empty queue, by the flag.
  pub worker_round-empty :
      (b : Bool) (q : Queue) (v : Service F.Store)
      → dequeue_work q ≡ (if b then shut else waits)
      → worker_round sockets q v ≡ (if b then stops else blocks)
  unfolding worker_round
  worker_round-empty true q v e = rw (worker_round, e) refl
  worker_round-empty false q v e = rw (worker_round, e) refl

  pub worker_thread-none :
      (b : Bool) (fuel : ℕ) (q : Queue) (v : Service F.Store)
      → worker_round sockets q v ≡ (if b then stops else blocks)
      → worker_thread (suc fuel) sockets q v ≡ some (ends b [] q v)
  unfolding worker_thread
  worker_thread-none true fuel q v e = rw (worker_thread, e) refl
  worker_thread-none false fuel q v e = rw (worker_thread, e) refl

  -- With the queue's variables describing some items whose requests can be handled one by one
  -- without an end of the process, and fuel for one round more than there are items: a worker
  -- that runs by itself serves every item in the order of the queue, with the replies of
  -- handling them one by one, and leaves the queue empty; then it returns if the queue was shut
  -- down, and waits if it was not.
  pub worker_thread-drains :
      (fuel : ℕ) (q : Queue) (xs : Items) (u w : Service F.Store) (rs : List Reply)
      → IsQueue q xs
      → Served sockets (sockets_of xs) u rs w
      → length xs < fuel
      → (q' : Queue) × (worker_thread fuel sockets q u
          ≡ some (if q.shutdown_flag then returned rs q' w else sleeping rs q' w))
        × IsQueue q' []
  worker_thread-drains zero q xs u w rs is served enough = absurd (omega arith)
  worker_thread-drains (suc fuel) q [] u w rs is no_more enough = (
    q,
    worker_thread-none q.shutdown_flag fuel q u
        (worker_round-empty q.shutdown_flag q u (dequeue_work-nil q is)),
    is,
  )
  worker_thread-drains (suc fuel) q ((p, fd) ∷ xs) u w rs is
        (one_more {r} {rs = rest} {v} handled served) enough =
      let (q', took, is', freed, flag) = dequeue_work-cons q p fd xs is in
      let (q'', run, empty) = worker_thread-drains fuel q' xs v w rest is' served (omega arith) in
      (
        q'',
        worker_thread-one fuel q q' u v fd r took handled
            ∙ ap (sent_first (fd, r)) run
            ∙ sent_first-ends q'.shutdown_flag (fd, r) rest q'' w
            ∙ ap (λ b. some (ends b ((fd, r) ∷ rest) q'' w)) flag,
        empty,
      )
