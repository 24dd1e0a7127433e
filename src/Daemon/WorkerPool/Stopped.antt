-- ===== src/Daemon/WorkerPool/Stopped.antt =====
-- What becomes of a pool whose context is cancelled.
use patience.Base.{
  ℕ, zero, suc, ◌+◌, ◌≡◌, ◌∙◌, refl, ap, sym, true, false, List, [], ◌∷◌, ◌++◌, arith,
}
use mathlib.Core.List.{append-nil, append_assoc}
use mathlib.Core.Path.{subst}
use patience.Daemon.WorkerPool.{
  WorkerPool, Peers, Step, Reach, start, stop_mark, stop_cancel, submit_stopped, submit_check,
  submit_queued, submit_cancelled, submit_full, worker_take, worker_done, worker_exit, here, next,
}

Reach-trans :
    {peers : Peers} {s t u : WorkerPool} → Reach peers s t → Reach peers t u → Reach peers s u
Reach-trans r here = r
Reach-trans r (next q st) = next (Reach-trans r q) st

-- Steps taken while the pool is not started again.
pub data Calm (peers : Peers) (wp : WorkerPool) : WorkerPool → Type 0 where
  calm : Calm peers wp wp
  calmly :
      {t u : WorkerPool} → Calm peers wp t → Step peers t u → u.started ≡ false → Calm peers wp u

pub record HasStopped (wp : WorkerPool) : Type 0 where
  pub off : wp.started ≡ false
  pub no_idle : wp.idle ≡ 0
  pub no_busy : wp.busy ≡ []

abbrev Grows : List ℕ → List ℕ → Type 0
Grows xs ys = (more : List ℕ) × (ys ≡ xs ++ more)

middle_ne_nil : (before after : List ℕ) (c : ℕ) → before ++ c ∷ after ≡ [] → ⊥
middle_ne_nil [] after c e = cc
middle_ne_nil (b ∷ before) after c e = cc

-- In one step out of a stopped pool that leaves it stopped the queue only grows.
stopped-Step :
    {peers : Peers} {s t : WorkerPool}
    → Step peers s t
    → HasStopped s
    → t.started ≡ false
    → HasStopped t × Grows s.job_queue t.job_queue
stopped-Step (start wp g) h off = cc
stopped-Step (stop_mark wp g) h off = absurd (cc (h.off, g))
stopped-Step (stop_cancel wp n e) h off =
    (record { off = h.off; no_idle = h.no_idle; no_busy = h.no_busy }, ([], sym (append-nil _)))
stopped-Step (submit_stopped wp c g) h off =
    (record { off = h.off; no_idle = h.no_idle; no_busy = h.no_busy }, ([], sym (append-nil _)))
stopped-Step (submit_check wp c g) h off = absurd (cc (h.off, g))
stopped-Step (submit_queued wp before after c e g) h off =
    (record { off = h.off; no_idle = h.no_idle; no_busy = h.no_busy }, (c ∷ [], refl))
stopped-Step (submit_cancelled wp before after c e g) h off =
    (record { off = h.off; no_idle = h.no_idle; no_busy = h.no_busy }, ([], sym (append-nil _)))
stopped-Step (submit_full wp before after c e g n) h off =
    (record { off = h.off; no_idle = h.no_idle; no_busy = h.no_busy }, ([], sym (append-nil _)))
stopped-Step (worker_take wp i c rest e q) h off = absurd (omega (arith, e, h.no_idle))
stopped-Step (worker_done wp before after c at e f) h off =
    absurd (middle_ne_nil before after c (sym e ∙ h.no_busy))
stopped-Step (worker_exit wp i e g) h off = absurd (omega (arith, e, h.no_idle))

-- Once Stop has returned and the pool is not started again, every connection that stands in the
-- queue stays there, in its place: it is neither handled nor closed.
pub stopped_queue_kept :
    {peers : Peers} {s t : WorkerPool}
    → HasStopped s
    → Calm peers s t
    → HasStopped t × ((more : List ℕ) × (t.job_queue ≡ s.job_queue ++ more))
stopped_queue_kept h calm = (h, ([], sym (append-nil _)))
stopped_queue_kept {s = s} h (calmly c st off) =
    let (h', (more, e)) = stopped_queue_kept h c in
    let (h'', (more', e')) = stopped-Step st h' off in
    (
      h'',
      (more ++ more', e' ∙ ap (λ (q : List ℕ). q ++ more') e ∙ append_assoc s.job_queue more more'),
    )

leave :
    {peers : Peers} (n : ℕ) (wp : WorkerPool)
    → wp.cancelled ≡ true
    → wp.idle ≡ n
    → Reach peers wp (record wp { idle = 0 })
leave {peers = peers} zero wp c e =
    subst (λ (k : ℕ). Reach peers wp (record wp { idle = k })) e here
leave (suc n) wp c e =
    Reach-trans (next here (worker_exit wp n e c)) (leave n (record wp { idle = n }) c refl)

-- A pool that is started again after a Stop keeps its cancelled context, so all its workers can
-- leave at once while the pool stands as started.
pub restarted_pool_starves :
    {peers : Peers} (wp : WorkerPool)
    → wp.cancelled ≡ true
    → wp.started ≡ false
    → (t : WorkerPool) × Reach peers wp t
      × (t.started ≡ true)
      × (t.cancelled ≡ true)
      × (t.idle ≡ 0)
      × (t.busy ≡ wp.busy)
restarted_pool_starves wp c off =
    let restarted : WorkerPool = record wp { started = true; idle = wp.idle + wp.workers } in
    (
      record restarted { idle = 0 },
      Reach-trans (next here (start wp off)) (leave restarted.idle restarted c refl),
      refl,
      c,
      refl,
      refl,
    )
