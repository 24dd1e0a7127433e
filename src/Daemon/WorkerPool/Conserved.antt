-- ===== src/Daemon/WorkerPool/Conserved.antt =====
-- No connection is lost or handled twice, and the queue keeps its bound.
use patience.Base.{
  ℕ, ◌+◌, ◌*◌, ◌≤◌, ◌≡◌, ◌∙◌, refl, ap, ℤ, List, [], ◌∷◌, ◌++◌, length, length-append, count,
  count-append, ◌==◌, if◌then◌else◌, arith,
}
use patience.Daemon.WorkerPool.{
  WorkerPool, Peers, Step, Reach, start, stop_mark, stop_cancel, submit_stopped, submit_check,
  submit_queued, submit_cancelled, submit_full, worker_take, worker_done, worker_exit, here, next,
  new_worker_pool, worker_count, queue_capacity,
}

pub times_in : ℕ → List ℕ → ℕ
times_in conn conns = count (λ c. c == conn) conns

-- A connection that has arrived is, as often as it arrived, waiting at the select, queued, in the
-- hands of a worker, or closed.
abbrev pub places : ℕ → WorkerPool → ℕ
places conn wp =
    times_in conn wp.submitting
    + times_in conn wp.job_queue
    + times_in conn wp.busy
    + times_in conn wp.closed

pub record IsSound (wp : WorkerPool) : Type 0 where
  pub accounted : (conn : ℕ) → times_in conn wp.arrived ≡ places conn wp
  pub bounded : length wp.job_queue ≤ queue_capacity wp

times_in-cons :
    (conn c : ℕ) (cs : List ℕ)
    → times_in conn (c ∷ cs) ≡ (if c == conn then 1 else 0) + times_in conn cs
unfolding times_in count
times_in-cons conn c cs = refl

times_in-append :
    (conn : ℕ) (xs ys : List ℕ) → times_in conn (xs ++ ys) ≡ times_in conn xs + times_in conn ys
unfolding times_in
times_in-append conn xs ys = count-append (λ c. c == conn) xs ys

times_in-nil : (conn : ℕ) → times_in conn [] ≡ 0
unfolding times_in count
times_in-nil conn = refl

times_in-split :
    (conn c : ℕ) (cs : List ℕ) → times_in conn (c ∷ cs) ≡ times_in conn (c ∷ []) + times_in conn cs
times_in-split conn c cs =
    omega (arith, times_in-cons conn c cs, times_in-cons conn c [], times_in-nil conn)

-- Taking one connection out of the middle of a list.
times_in-middle :
    (conn c : ℕ) (all before after : List ℕ)
    → all ≡ before ++ c ∷ after
    → times_in conn all ≡ times_in conn (c ∷ []) + times_in conn (before ++ after)
times_in-middle conn c all before after e =
    ap (times_in conn) e
    ∙ omega (
      arith,
      times_in-append conn before (c ∷ after),
      times_in-append conn before after,
      times_in-cons conn c after,
      times_in-cons conn c [],
      times_in-nil conn,
    )

pub Step-accounted :
    {peers : Peers} {wp wp' : WorkerPool} (conn : ℕ)
    → Step peers wp wp'
    → times_in conn wp.arrived ≡ places conn wp
    → times_in conn wp'.arrived ≡ places conn wp'
Step-accounted conn (start wp g) h = h
Step-accounted conn (stop_mark wp g) h = h
Step-accounted conn (stop_cancel wp n e) h = h
Step-accounted conn (submit_stopped wp c g) h =
    omega (arith, times_in-split conn c wp.closed, times_in-split conn c wp.arrived)
Step-accounted conn (submit_check wp c g) h =
    omega (arith, times_in-split conn c wp.submitting, times_in-split conn c wp.arrived)
Step-accounted conn (submit_queued wp before after c e g) h = omega (
  arith,
  times_in-middle conn c wp.submitting before after e,
  times_in-append conn wp.job_queue (c ∷ []),
)
Step-accounted conn (submit_cancelled wp before after c e g) h =
    omega
      (arith, times_in-middle conn c wp.submitting before after e, times_in-split conn c wp.closed)
Step-accounted conn (submit_full wp before after c e g n) h =
    omega
      (arith, times_in-middle conn c wp.submitting before after e, times_in-split conn c wp.closed)
Step-accounted conn (worker_take wp i c rest e q) h =
    omega (arith, ap (times_in conn) q, times_in-split conn c rest, times_in-split conn c wp.busy)
Step-accounted conn (worker_done wp before after c at e f) h =
    omega (arith, times_in-middle conn c wp.busy before after e, times_in-split conn c wp.closed)
Step-accounted conn (worker_exit wp i e g) h = h

Step-bounded :
    {peers : Peers} {wp wp' : WorkerPool}
    → Step peers wp wp'
    → length wp.job_queue ≤ queue_capacity wp
    → length wp'.job_queue ≤ queue_capacity wp'
Step-bounded (submit_queued wp before after c e g) h =
    omega (arith, length-append wp.job_queue (c ∷ []))
Step-bounded (worker_take wp i c rest e q) h = omega (arith, ap length q)
Step-bounded (start wp g) h = h
Step-bounded (stop_mark wp g) h = h
Step-bounded (stop_cancel wp n e) h = h
Step-bounded (submit_stopped wp c g) h = h
Step-bounded (submit_check wp c g) h = h
Step-bounded (submit_cancelled wp before after c e g) h = h
Step-bounded (submit_full wp before after c e g n) h = h
Step-bounded (worker_done wp before after c at e f) h = h
Step-bounded (worker_exit wp i e g) h = h

Step-workers : {peers : Peers} {wp wp' : WorkerPool} → Step peers wp wp' → wp'.workers ≡ wp.workers
Step-workers (start wp g) = refl
Step-workers (stop_mark wp g) = refl
Step-workers _ = refl

Reach-workers :
    {peers : Peers} {wp wp' : WorkerPool} → Reach peers wp wp' → wp'.workers ≡ wp.workers
Reach-workers here = refl
Reach-workers (next r s) = Step-workers s ∙ Reach-workers r

worker_count_bounds : (workers : ℤ) → (1 ≤ worker_count workers) × (worker_count workers ≤ 1000)
unfolding worker_count
worker_count_bounds workers = ground arith

new_worker_pool-IsSound : (workers : ℤ) → IsSound (new_worker_pool workers)
unfolding new_worker_pool
new_worker_pool-IsSound workers = record {
  accounted = λ conn. omega (arith, times_in-nil conn);
  bounded = omega arith;
}

new_worker_pool-workers : (workers : ℤ) → (new_worker_pool workers).workers ≡ worker_count workers
unfolding new_worker_pool
new_worker_pool-workers workers = refl

Reach-IsSound :
    {peers : Peers} {wp wp' : WorkerPool} → Reach peers wp wp' → IsSound wp → IsSound wp'
Reach-IsSound here h = h
Reach-IsSound (next r s) h = record {
  accounted = λ conn. Step-accounted conn s ((Reach-IsSound r h).accounted conn);
  bounded = Step-bounded s (Reach-IsSound r h).bounded;
}

-- In every state that a new pool reaches, under every interleaving of submissions, workers, starts
-- and stops, each connection that has arrived is in exactly one place for each arrival: at the
-- select, queued, with one worker, or closed; and the queue never exceeds twice the number of
-- workers, which lies between 1 and 1000.
pub Reach-sound :
    {peers : Peers} (workers : ℤ) (wp : WorkerPool) (conn : ℕ)
    → Reach peers (new_worker_pool workers) wp
    → (times_in conn wp.arrived ≡ places conn wp)
      × (length wp.job_queue ≤ wp.workers * 2)
      × (1 ≤ wp.workers)
      × (wp.workers ≤ 1000)
Reach-sound workers wp conn r =
    let sound = Reach-IsSound r (new_worker_pool-IsSound workers) in
    let same = Reach-workers r ∙ new_worker_pool-workers workers in
    (
      sound.accounted conn,
      sound.bounded,
      omega (arith, same, worker_count_bounds workers),
      omega (arith, same, worker_count_bounds workers),
    )
