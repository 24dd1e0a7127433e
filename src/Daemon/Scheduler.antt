-- ===== src/Daemon/Scheduler.antt =====
-- RequestScheduler (pkg/daemon/scheduler.go) and ScheduledRequest (pkg/daemon/protocol.go).
-- The map from resources to requests is an association list; every read of `time.Now()` is an
-- argument. A method that takes the lock holds it throughout, so it is one step on the state; the search
-- for a slot takes it once in each round, and between two rounds the requests may change.
pub mod Table
pub mod Identifiers
pub mod Expiry
pub mod Slots
pub mod Admission
use patience.Base.{
  ℕ, zero, suc, ◌+◌, ℤ, pos, ◌+ℤ◌, ltb_ℤ, String, str_eq, Bool, true, false, ◌||◌, Option, none,
  some, List, [], ◌∷◌, ◌++◌, map, select, if◌then◌else◌,
}
use patience.Backoff.Diophantine.{Diophantine, can_schedule_request}

pub record ScheduledRequest : Type 0 where
  pub id : String
  pub resource_id : String
  pub scheduled_at : ℤ
  pub expires_at : ℤ

abbrev pub RequestTable : Type 0
RequestTable = List (String × List ScheduledRequest)

pub record RequestScheduler : Type 0 where
  pub requests : RequestTable

abbrev pub new_request_scheduler : RequestScheduler
new_request_scheduler = record { requests = [] }

-- s.requests[resourceID]: a missing key reads as no requests.
unfoldable pub requests_of : String → RequestTable → List ScheduledRequest
requests_of resource [] = []
requests_of resource ((key, reqs) ∷ table) =
    if str_eq key resource then reqs else requests_of resource table

-- s.requests[resourceID] = append(s.requests[resourceID], req)
unfoldable pub append_request : String → ScheduledRequest → RequestTable → RequestTable
append_request resource req [] = (resource, req ∷ []) ∷ []
append_request resource req ((key, reqs) ∷ table) =
    let rest = append_request resource req table in
    if str_eq key resource then (key, reqs ++ (req ∷ [])) ∷ table else (key, reqs) ∷ rest

unfoldable pub has_id_in : String → List ScheduledRequest → Bool
has_id_in id [] = false
has_id_in id (req ∷ reqs) = str_eq req.id id || has_id_in id reqs

-- The search for a duplicate, over every resource.
unfoldable pub has_id : String → RequestTable → Bool
has_id id [] = false
has_id id ((key, reqs) ∷ table) = has_id_in id reqs || has_id id table

pub data SchedulerError : Type 0 where
  duplicate_id : String → SchedulerError

unfoldable pub add_request :
    ScheduledRequest → RequestScheduler → RequestScheduler × Option SchedulerError
add_request req s =
    if has_id req.id s.requests
    then (s, some (duplicate_id req.id))
    else (record { requests = append_request req.resource_id req s.requests }, none)

-- req.ExpiresAt.After(now)
abbrev pub is_active : ℤ → ScheduledRequest → Bool
is_active now req = ltb_ℤ now req.expires_at

unfoldable pub get_active_requests : RequestScheduler → String → ℤ → List ScheduledRequest
get_active_requests s resource now = select (is_active now) (requests_of resource s.requests)

unfoldable pub cleanup_table : ℤ → RequestTable → RequestTable
cleanup_table now [] = []
cleanup_table now ((key, reqs) ∷ table) =
    (key, select (is_active now) reqs) ∷ cleanup_table now table

unfoldable pub cleanup_expired_requests : ℤ → RequestScheduler → RequestScheduler
cleanup_expired_requests now s = record { requests = cleanup_table now s.requests }

unfoldable pub can_schedule_with_strategy : RequestScheduler → String → Diophantine → ℤ → ℤ → Bool
can_schedule_with_strategy s resource strategy request_time now =
    can_schedule_request strategy
      (map (λ req. req.scheduled_at) (select (is_active now) (requests_of resource s.requests)))
      request_time

abbrev pub minute : ℤ
minute = pos 60000000000

abbrev pub day : ℤ
day = pos 86400000000000

-- The search for a slot, by the rounds left. `state i` is the scheduler as the test of round `i` finds
-- it, `clock i` what `time.Now()` returns in that round; `none` means that no candidate was free.
unfoldable pub slot_loop :
    (ℕ → RequestScheduler) → String → Diophantine → (ℕ → ℤ) → ℕ → ℕ → ℤ → Option ℤ
slot_loop state resource strategy clock zero i candidate = none
slot_loop state resource strategy clock (suc rounds) i candidate =
    let rest = slot_loop state resource strategy clock rounds (i + 1) (candidate +ℤ minute) in
    if can_schedule_with_strategy (state i) resource strategy candidate (clock i)
    then some candidate
    else rest

abbrev pub slot_or : Option ℤ → ℤ → ℤ
slot_or none late = late
slot_or (some slot) late = slot

unfoldable pub get_next_available_slot :
    (ℕ → RequestScheduler) → String → Diophantine → (ℕ → ℤ) → ℤ → ℤ
get_next_available_slot state resource strategy clock preferred =
    slot_or (slot_loop state resource strategy clock 1440 0 preferred) (preferred +ℤ day)
