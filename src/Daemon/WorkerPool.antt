-- ===== src/Daemon/WorkerPool.antt =====
-- WorkerPool (pkg/daemon/worker_pool.go): the goroutines that submit connections, the workers, and
-- the two calls that start and stop the pool, as steps between their synchronisation points. A
-- connection is a number, and the argument Peers says what its other end does. A worker is done with a
-- connection when `handleConnection` (Daemon.Handling) returns; on each of its paths the deferred
-- `conn.Close()` closes the connection. What it stores is not part of this state.
pub mod Conserved
pub mod Stopped
pub mod Stopping
use patience.Base.{
  ℕ, zero, suc, ◌+◌, ◌*◌, ◌≤◌, ◌<◌, ◌≡◌, ℤ, pos, pos_part, ltb_ℤ, leb_ℤ, Bool, true, false, List,
  [], ◌∷◌, ◌++◌, length, if◌then◌else◌, Text, Option, some,
}
use patience.Metrics.{RunMetrics}
use patience.Daemon.Handling.{Event, Handled, handle_connection, finished_at}

pub record WorkerPool : Type 0 where
  pub workers : ℕ
  pub started : Bool
  pub stopping : ℕ  -- Stop calls between the lock and the cancel
  pub cancelled : Bool  -- wp.ctx is done
  pub submitting : List ℕ  -- past the `started` check of SubmitConnection, before its select
  pub job_queue : List ℕ
  pub idle : ℕ  -- workers at their select
  pub busy : List ℕ  -- connections in handleConnection
  pub closed : List ℕ
  pub arrived : List ℕ  -- every connection that SubmitConnection was called with

-- The clamps of NewWorkerPool.
unfoldable pub worker_count : ℤ → ℕ
worker_count workers =
    if leb_ℤ workers (pos 0)
    then 10
    else if ltb_ℤ (pos 1000) workers
    then 1000
    else pos_part workers

unfoldable pub new_worker_pool : ℤ → WorkerPool
unfolding worker_count
new_worker_pool workers = record {
  workers = worker_count workers;
  started = false;
  stopping = 0;
  cancelled = false;
  submitting = [];
  job_queue = [];
  idle = 0;
  busy = [];
  closed = [];
  arrived = [];
}

-- cap(wp.jobQueue)
abbrev pub queue_capacity : WorkerPool → ℕ
queue_capacity wp = wp.workers * 2

-- What comes through each connection while it is handled, and what json.Unmarshal makes of it.
pub record Peers : Type 0 where
  pub events : ℕ → List Event
  pub unmarshal : Text → Option RunMetrics

-- What handleConnection makes of a connection.
abbrev pub handled : Peers → ℕ → Handled
handled peers conn = handle_connection peers.unmarshal (peers.events conn)

pub data Step (peers : Peers) : WorkerPool → WorkerPool → Type 0 where
  -- Start of a pool that is not started; a started one is left as it is.
  start :
      (wp : WorkerPool)
      → wp.started ≡ false
      → Step peers wp (record wp { started = true; idle = wp.idle + wp.workers })
  -- Stop marks the pool under the lock, and cancels the context after it.
  stop_mark :
      (wp : WorkerPool)
      → wp.started ≡ true
      → Step peers wp (record wp { started = false; stopping = suc wp.stopping })
  stop_cancel :
      (wp : WorkerPool) (stopping' : ℕ)
      → wp.stopping ≡ suc stopping'
      → Step peers wp (record wp { cancelled = true; stopping = stopping' })
  -- SubmitConnection of a pool that is not started closes the connection.
  submit_stopped :
      (wp : WorkerPool) (conn : ℕ)
      → wp.started ≡ false
      → Step peers wp (record wp { closed = conn ∷ wp.closed; arrived = conn ∷ wp.arrived })
  submit_check :
      (wp : WorkerPool) (conn : ℕ)
      → wp.started ≡ true
      → Step peers wp (record wp { submitting = conn ∷ wp.submitting; arrived = conn ∷ wp.arrived })
  -- The three cases of its select.
  submit_queued :
      (wp : WorkerPool) (before after : List ℕ) (conn : ℕ)
      → wp.submitting ≡ before ++ conn ∷ after
      → length wp.job_queue < queue_capacity wp
      → Step peers wp
          (record wp { submitting = before ++ after; job_queue = wp.job_queue ++ conn ∷ [] })
  submit_cancelled :
      (wp : WorkerPool) (before after : List ℕ) (conn : ℕ)
      → wp.submitting ≡ before ++ conn ∷ after
      → wp.cancelled ≡ true
      → Step peers wp (record wp { submitting = before ++ after; closed = conn ∷ wp.closed })
  submit_full :
      (wp : WorkerPool) (before after : List ℕ) (conn : ℕ)
      → wp.submitting ≡ before ++ conn ∷ after
      → queue_capacity wp ≤ length wp.job_queue
      → wp.cancelled ≡ false
      → Step peers wp (record wp { submitting = before ++ after; closed = conn ∷ wp.closed })
  -- A worker takes the oldest connection, and comes back to its select when it is handled.
  worker_take :
      (wp : WorkerPool) (idle' conn : ℕ) (rest : List ℕ)
      → wp.idle ≡ suc idle'
      → wp.job_queue ≡ conn ∷ rest
      → Step peers wp (record wp { idle = idle'; job_queue = rest; busy = conn ∷ wp.busy })
  worker_done :
      (wp : WorkerPool) (before after : List ℕ) (conn at : ℕ)
      → wp.busy ≡ before ++ conn ∷ after
      → finished_at (handled peers conn) ≡ some at
      → Step peers wp
          (record wp { idle = suc wp.idle; busy = before ++ after; closed = conn ∷ wp.closed })
  worker_exit :
      (wp : WorkerPool) (idle' : ℕ)
      → wp.idle ≡ suc idle'
      → wp.cancelled ≡ true
      → Step peers wp (record wp { idle = idle' })

pub data Reach (peers : Peers) (wp : WorkerPool) : WorkerPool → Type 0 where
  here : Reach peers wp wp
  next : {t u : WorkerPool} → Reach peers wp t → Step peers t u → Reach peers wp u

-- `Stop` returns once the wait group is empty.
abbrev pub StopReturns : WorkerPool → Type 0
StopReturns wp = (wp.idle ≡ 0) × (wp.busy ≡ [])
