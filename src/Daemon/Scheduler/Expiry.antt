-- ===== src/Daemon/Scheduler/Expiry.antt =====
-- The cleanup drops what has expired, and no later answer of the scheduler depends on it.
use patience.Base.{
  ◌≡◌, ◌∙◌, refl, ap, ℤ, ◌≤ℤ◌, String, true, List, [], ◌∷◌, map, select, select-select, All,
  All-true, All-select, arith,
}
use patience.Backoff.Diophantine.{Diophantine, can_schedule_request}
use patience.Daemon.Scheduler.{
  ScheduledRequest, RequestTable, RequestScheduler, requests_of, is_active, cleanup_table,
  cleanup_expired_requests, get_active_requests, can_schedule_with_strategy,
}

requests_of-cleanup :
    (now : ℤ) (resource : String) (table : RequestTable)
    → requests_of resource (cleanup_table now table)
      ≡ select (is_active now) (requests_of resource table)
unfolding requests_of cleanup_table select
requests_of-cleanup now resource [] = refl
requests_of-cleanup now resource ((key, reqs) ∷ table) =
    ground (arith, requests_of-cleanup now resource table)

active_earlier :
    (now later : ℤ) (req : ScheduledRequest)
    → now ≤ℤ later
    → is_active later req ≡ true
    → is_active now req ≡ true
active_earlier now later req h k = ground arith

active-cleanup :
    (now later : ℤ) (resource : String) (table : RequestTable)
    → now ≤ℤ later
    → select (is_active later) (requests_of resource (cleanup_table now table))
      ≡ select (is_active later) (requests_of resource table)
active-cleanup now later resource table h =
    ap (select (is_active later)) (requests_of-cleanup now resource table)
    ∙ select-select (is_active now) (is_active later) (requests_of resource table)
        (All-true (λ req. active_earlier now later req h) (requests_of resource table))

-- A cleanup keeps only requests that have not expired, and from then on changes no answer: at any
-- time not before it, the active requests of a resource and every scheduling decision are what they
-- would have been without it.
pub cleanup_invisible :
    (s : RequestScheduler) (now later : ℤ) (resource : String) (strategy : Diophantine)
    (request_time : ℤ)
    → now ≤ℤ later
    → let s' = cleanup_expired_requests now s in
      All (λ req. is_active now req ≡ true) (requests_of resource s'.requests)
      × (get_active_requests s' resource later ≡ get_active_requests s resource later)
      × (can_schedule_with_strategy s' resource strategy request_time later
          ≡ can_schedule_with_strategy s resource strategy request_time later)
unfolding cleanup_expired_requests get_active_requests can_schedule_with_strategy
cleanup_invisible s now later resource strategy request_time h =
    let same = active-cleanup now later resource s.requests h in
    (
      rw (requests_of-cleanup now resource s.requests)
          (All-select (is_active now) (requests_of resource s.requests)),
      same,
      ap
          (λ (reqs : List ScheduledRequest).
            can_schedule_request strategy (map (λ req. req.scheduled_at) reqs) request_time)
          same,
    )
