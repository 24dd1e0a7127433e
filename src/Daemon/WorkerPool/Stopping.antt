-- ===== src/Daemon/WorkerPool/Stopping.antt =====
-- Why Stop of pkg/daemon/worker_pool.go returns: what the goroutines of a stopped pool have left to do.
use patience.Base.{ℕ, suc, ◌+◌, ◌*◌, ◌≤◌, ◌≡◌, Bool, true, false, length}
use patience.Daemon.WorkerPool.{
  WorkerPool, Peers, Step, start, stop_mark, stop_cancel, submit_stopped, submit_check,
  submit_queued, submit_cancelled, submit_full, worker_take, worker_done, worker_exit,
}

-- A step of a worker, or of a submission that is past its check; not a new call of a method.
abbrev pub is_own : {peers : Peers} {s t : WorkerPool} → Step peers s t → Bool
is_own (submit_queued wp before after c e g) = true
is_own (submit_cancelled wp before after c e g) = true
is_own (submit_full wp before after c e g n) = true
is_own (worker_take wp i c rest e q) = true
is_own (worker_done wp before after c at e f) = true
is_own (worker_exit wp i e g) = true
is_own (start wp g) = false
is_own (stop_mark wp g) = false
is_own (stop_cancel wp n e) = false
is_own (submit_stopped wp c g) = false
is_own (submit_check wp c g) = false

-- Runs in which the pool is not started again, by the number of the pool's own steps; between them there
-- may be any number of calls of SubmitConnection and Stop.
pub data Work (peers : Peers) (wp : WorkerPool) : ℕ → WorkerPool → Type 0 where
  no_work : Work peers wp 0 wp
  works :
      {n : ℕ} {t u : WorkerPool}
      → Work peers wp n t
      → (st : Step peers t u) → is_own st ≡ true
      → Work peers wp (suc n) u
  called :
      {n : ℕ} {t u : WorkerPool}
      → Work peers wp n t
      → (st : Step peers t u) → is_own st ≡ false
      → u.started ≡ false
      → Work peers wp n u

-- No run makes more own steps than this.
abbrev pub load : WorkerPool → ℕ
load wp = 3 * length wp.submitting + 2 * length wp.job_queue + 2 * length wp.busy + wp.idle

-- What holds after a run out of a stopped pool.
pub record StaysStopped (wp t : WorkerPool) (n : ℕ) : Type 0 where
  pub off : t.started ≡ false
  pub cancelled : t.cancelled ≡ true
  pub left : n + load t ≤ load wp

-- A worker that has not left has a step to take.
abbrev pub CanGoOn : Peers → WorkerPool → Type 0
CanGoOn peers t = (u : WorkerPool) × (st : Step peers t u) × (is_own st ≡ true)
