-- ===== src/Examples/PoolRuns.antt =====
-- The worker pool of pkg/daemon at concrete runs.
use patience.Base.{
  ◌*◌, ◌≤◌, ◌≡◌, refl, pos, true, false, [], ◌∷◌, length, arith, none, some, codes, is_empty,
  saturate64, ◌-ℤ◌,
}
use patience.Daemon.WorkerPool.{
  WorkerPool, Reach, new_worker_pool, start, submit_check, submit_queued, here, next, Peers,
}
use patience.Daemon.WorkerPool.Conserved.{times_in, places, Reach-sound}
use patience.Daemon.WorkerPool.Stopped.{HasStopped}
use patience.Daemon.Handling.{
  handle_connection, read_all, sends, closes, stored, skipped, storage_after,
}
use patience.Storage.{new_metrics_storage, store, appended, cleanup_if_needed}
use patience.Metrics.{RunMetrics, FinalStatus}

-- No connection says anything.
abbrev quiet : Peers
quiet = record { events = λ conn. []; unmarshal = λ bytes. none }

abbrev fresh : WorkerPool
fresh = record {
  workers = 1;
  started = false;
  stopping = 0;
  cancelled = false;
  submitting = [];
  job_queue = [];
  idle = 0;
  busy = [];
  closed = [];
  arrived = [];
}

abbrev running : WorkerPool
running = record fresh { started = true; idle = 1 }

abbrev arriving : WorkerPool
arriving = record running { submitting = 7 ∷ []; arrived = 7 ∷ [] }

abbrev queued : WorkerPool
queued = record arriving { submitting = []; job_queue = 7 ∷ [] }

queued_reached : Reach quiet (new_worker_pool (pos 1)) queued
unfolding new_worker_pool
queued_reached =
    next {t = arriving}
      (next {t = running} (next {t = fresh} here (start fresh refl)) (submit_check running 7 refl))
      (submit_queued arriving [] [] 7 refl (omega arith))

Reach-sound_example :
    (times_in 7 queued.arrived ≡ places 7 queued)
    × (length queued.job_queue ≤ queued.workers * 2)
    × (1 ≤ queued.workers)
    × (queued.workers ≤ 1000)
Reach-sound_example = Reach-sound (pos 1) queued 7 queued_reached

-- Stopped, with the connection still in the queue.
abbrev left_over : WorkerPool
left_over = record queued { started = false; cancelled = true; idle = 0 }

left_over-HasStopped : HasStopped left_over
left_over-HasStopped = record { off = refl; no_idle = refl; no_busy = refl }

-- Stopped, with the connection in the queue and another with the worker.
abbrev stopped_busy : WorkerPool
stopped_busy = record queued { started = false; cancelled = true; idle = 0; busy = 3 ∷ [] }

abbrev freed : WorkerPool
freed = record stopped_busy { idle = 1; busy = []; closed = 3 ∷ [] }

-- What comes before the deadline is stored, if it is the end and is parsed; what comes later is not.
abbrev report : RunMetrics
report = record {
  command = "make";
  final_status = FinalStatus.succeeded;
  total_duration = pos 4000;
  total_attempts = 1;
  successful_attempts = 1;
  failed_attempts = 0;
  attempts = [];
}

handled_in_time :
    (handle_connection (λ bytes. some report) (sends 10 (codes "{}") ∷ closes 20 ∷ [])
      ≡ stored 20 report)
    × (handle_connection (λ bytes. some report) (sends 10 (codes "{}") ∷ closes 6000000000 ∷ [])
        ≡ skipped 5000000000)
    × (handle_connection (λ bytes. some report) (closes 20 ∷ []) ≡ skipped 20)
unfolding handle_connection read_all is_empty
handled_in_time = (refl, refl, refl)

-- The report is stored, and a connection that ends without a word leaves the storage as it is.
report_stored :
    let handle = handle_connection (λ bytes. some report) in
    let empty = new_metrics_storage 10 (pos 0) (pos 0) in
    ((storage_after (handle (sends 10 (codes "{}") ∷ closes 20 ∷ [])) (pos 1) (pos 2) empty).metrics
      ≡ record { timestamp = pos 1; metrics = report } ∷ [])
    × (storage_after (handle (closes 20 ∷ [])) (pos 1) (pos 2) empty ≡ empty)
unfolding handle_connection read_all is_empty store appended cleanup_if_needed saturate64 ◌-ℤ◌
    new_metrics_storage
report_stored = (refl, refl)
