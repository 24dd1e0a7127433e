-- ===== src/Daemon/Scheduler/Admission.antt =====
-- Registering what was admitted keeps the rate limit in every window.
use patience.Base.{
  ◌≡◌, ◌∙◌, sym, refl, ap, ℤ, pos, ◌≤ℤ◌, String, str_eq_iff, true, none, List, [], ◌∷◌, ◌++◌, map,
  select, select-append, count, All, arith,
}
use mathlib.Core.List.{append-nil, append_assoc, map-append}
use patience.Backoff.Diophantine.{Diophantine, planned}
use patience.Backoff.Diophantine.Windows.{in_window, can_schedule_request_iff}
use patience.Daemon.Scheduler.{
  ScheduledRequest, RequestScheduler, requests_of, is_active, append_request, add_request,
  get_active_requests, can_schedule_with_strategy,
}
use patience.Daemon.Scheduler.Table.{requests_of-append_request}

-- A sequence of additions, none of which was refused.
pub data Registers (s : RequestScheduler) : List ScheduledRequest → RequestScheduler → Type 0 where
  registered : Registers s [] s
  register :
      {reqs : List ScheduledRequest} {t u : RequestScheduler} (req : ScheduledRequest)
      → Registers s reqs t
      → add_request req t ≡ (u, none)
      → Registers s (reqs ++ (req ∷ [])) u

added_requests :
    (req : ScheduledRequest) (t u : RequestScheduler)
    → add_request req t ≡ (u, none)
    → u.requests ≡ append_request req.resource_id req t.requests
unfolding add_request
added_requests req t u h = ground arith

All-init {ℓ} :
    {A : Type ℓ} (P : A → Type 0) (xs : List A) (x : A) → All P (xs ++ (x ∷ [])) → All P xs × P x
All-init P [] x h = (tt, h.0)
All-init P (y ∷ ys) x h = let (a, b) = All-init P ys x h.1 in ((h.0, a), b)

requests_of-Registers :
    (resource : String) (s : RequestScheduler) {reqs : List ScheduledRequest} {u : RequestScheduler}
    → Registers s reqs u
    → All (λ req. req.resource_id ≡ resource) reqs
    → requests_of resource u.requests ≡ requests_of resource s.requests ++ reqs
requests_of-Registers resource s registered all = sym (append-nil _)
requests_of-Registers resource s (register {reqs = rs} {t = t} {u = u} req before added) all =
    let (older, own) = All-init (λ (r : ScheduledRequest). r.resource_id ≡ resource) rs req all in
    ap (requests_of resource) (added_requests req t u added)
    ∙ requests_of-append_request req.resource_id resource req t.requests
    ∙ rw ((str_eq_iff req.resource_id resource).1 own) (
        ap (λ (l : List ScheduledRequest). l ++ (req ∷ []))
          (requests_of-Registers resource s before older)
        ∙ append_assoc _ rs (req ∷ []))

select-All :
    (now : ℤ) (reqs : List ScheduledRequest)
    → All (λ req. is_active now req ≡ true) reqs
    → select (is_active now) reqs ≡ reqs
unfolding select
select-All now [] h = refl
select-All now (r ∷ rs) h = ground (arith, h.0, select-All now rs h.1)

abbrev times : List ScheduledRequest → List ℤ
times reqs = map (λ req. req.scheduled_at) reqs

active_times :
    (resource : String) (s u : RequestScheduler) (reqs : List ScheduledRequest) (now : ℤ)
    → Registers s reqs u
    → All (λ req. req.resource_id ≡ resource) reqs
    → All (λ req. is_active now req ≡ true) reqs
    → times (get_active_requests u resource now)
      ≡ times (select (is_active now) (requests_of resource s.requests)) ++ times reqs
unfolding get_active_requests
active_times resource s u reqs now r own active =
    ap (λ (l : List ScheduledRequest). times (select (is_active now) l))
      (requests_of-Registers resource s r own)
    ∙ ap times (select-append (is_active now) (requests_of resource s.requests) reqs)
    ∙ map-append _ _ _
    ∙ ap
        (λ (l : List ScheduledRequest).
          times (select (is_active now) (requests_of resource s.requests)) ++ times l)
        (select-All now reqs active)

-- If the scheduler admits a request at some time, and the planned requests, none of them expired
-- then, are registered for the resource without a refusal, then no window of the strategy's length,
-- wherever it starts, holds more active requests of the resource than the limit. The limit is not
-- negative.
pub registered_keeps_limit :
    (resource : String) (strategy : Diophantine) (s u : RequestScheduler)
    (reqs : List ScheduledRequest) (request_time now start : ℤ)
    → pos 0 ≤ℤ strategy.rate_limit
    → can_schedule_with_strategy s resource strategy request_time now ≡ true
    → Registers s reqs u
    → map (λ req. req.scheduled_at) reqs ≡ planned strategy request_time
    → All (λ req. req.resource_id ≡ resource) reqs
    → All (λ req. is_active now req ≡ true) reqs
    → pos (
        count
          (in_window start strategy.window)
          (map (λ req. req.scheduled_at) (get_active_requests u resource now)))
      ≤ℤ strategy.rate_limit
unfolding can_schedule_with_strategy
registered_keeps_limit resource strategy s u reqs request_time now start z admitted r plan own
      active =
    let existing = times (select (is_active now) (requests_of resource s.requests)) in
    let all =
      active_times resource s u reqs now r own active ∙ ap (λ (l : List ℤ). existing ++ l) plan in
    rw all ((can_schedule_request_iff strategy existing request_time z).0 admitted start)
