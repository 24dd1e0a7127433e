-- ===== src/Examples/SchedulerRuns.antt =====
-- The scheduler of pkg/daemon and the socket protocol at concrete inputs.
use patience.Base.{
  ℕ, ◌+◌, ◌*◌, ◌<◌, ◌≡◌, refl, ◌⊎◌, pos, ◌≤ℤ◌, ◌+ℤ◌, str_eq, true, false, none, some, [], ◌∷◌, map,
  select, count, All, arith, if◌then◌else◌, suc, zero,
}
use patience.Backoff.Diophantine.{
  Diophantine, planned, can_schedule_request, sort_times, windows_fit, count_window, insert_time,
}
use patience.Backoff.Diophantine.Windows.{in_window}
use patience.Daemon.Scheduler.{
  ScheduledRequest, RequestScheduler, requests_of, is_active, add_request, has_id, has_id_in,
  append_request, new_request_scheduler, cleanup_expired_requests, get_active_requests,
  can_schedule_with_strategy, get_next_available_slot, duplicate_id, slot_loop,
}
use patience.Daemon.Scheduler.Identifiers.{
  occurrences, add_request-occurrences, HasUniqueIds, perform, perform-HasUniqueIds, add, cleanup,
}
use patience.Daemon.Scheduler.Expiry.{cleanup_invisible}
use patience.Daemon.Scheduler.Slots.{get_next_available_slot_first}
use patience.Daemon.Scheduler.Admission.{Registers, registered, register, registered_keeps_limit}

abbrev limited : Diophantine
limited = record { rate_limit = pos 2; window = pos 10; retry_offsets = pos 0 ∷ pos 20 ∷ [] }

abbrev first : ScheduledRequest
first = record { id = "a"; resource_id = "api"; scheduled_at = pos 5; expires_at = pos 100 }

abbrev retry : ScheduledRequest
retry = record { id = "b"; resource_id = "api"; scheduled_at = pos 25; expires_at = pos 120 }

abbrev one_registered : RequestScheduler
one_registered = record { requests = ("api", first ∷ []) ∷ [] }

abbrev both_registered : RequestScheduler
both_registered = record { requests = ("api", first ∷ retry ∷ []) ∷ [] }

add_request-occurrences_example :
    ((occurrences "b" one_registered.requests ≡ 0)
      × ((add_request retry one_registered).1 ≡ none)
      × (occurrences "b" (add_request retry one_registered).0.requests
          ≡ (if str_eq "b" "b" then 1 else 0) + occurrences "b" one_registered.requests))
    ⊎ ((0 < occurrences "b" one_registered.requests)
        × (add_request retry one_registered ≡ (one_registered, some (duplicate_id "b"))))
add_request-occurrences_example = add_request-occurrences retry one_registered "b"

perform-HasUniqueIds_example :
    HasUniqueIds (perform new_request_scheduler (add first ∷ add first ∷ cleanup (pos 7) ∷ []))
perform-HasUniqueIds_example = perform-HasUniqueIds (add first ∷ add first ∷ cleanup (pos 7) ∷ [])

refused_twice : add_request first one_registered ≡ (one_registered, some (duplicate_id "a"))
unfolding add_request has_id has_id_in
refused_twice = refl

cleanup_invisible_example :
    let s' = cleanup_expired_requests (pos 110) both_registered in
    All (λ req. is_active (pos 110) req ≡ true) (requests_of "api" s'.requests)
    × (get_active_requests s' "api" (pos 115) ≡ get_active_requests both_registered "api" (pos 115))
    × (can_schedule_with_strategy s' "api" limited (pos 130) (pos 115)
        ≡ can_schedule_with_strategy both_registered "api" limited (pos 130) (pos 115))
cleanup_invisible_example =
    cleanup_invisible both_registered (pos 110) (pos 115) "api" limited (pos 130) (omega arith)

abbrev tight : Diophantine
tight = record { rate_limit = pos 1; window = pos 10; retry_offsets = pos 0 ∷ pos 20 ∷ [] }

-- The requests expire and are removed between the first and the second round.
abbrev emptied : ℕ → RequestScheduler
emptied zero = both_registered
emptied (suc i) = new_request_scheduler

emptied_waits : get_next_available_slot emptied "api" tight (λ i. pos 1) (pos 5) ≡ pos 60000000005
unfolding get_next_available_slot slot_loop can_schedule_with_strategy requests_of
    can_schedule_request windows_fit sort_times select insert_time planned ◌+ℤ◌ count_window
emptied_waits = refl

get_next_available_slot_first_example :
    let slot = get_next_available_slot emptied "api" tight (λ i. pos 1) (pos 5) in
    ((j : ℕ) × (j < 1440)
      × (slot ≡ pos 5 +ℤ pos (j * 60000000000))
      × (can_schedule_with_strategy (emptied j) "api" tight (pos 5 +ℤ pos (j * 60000000000)) (pos 1)
          ≡ true)
      × ((k : ℕ)
          → k < j
          → can_schedule_with_strategy
              (emptied k)
              "api"
              tight
              (pos 5 +ℤ pos (k * 60000000000))
              (pos 1)
            ≡ false))
    ⊎ ((slot ≡ pos 5 +ℤ pos (1440 * 60000000000))
        × ((k : ℕ)
            → k < 1440
            → can_schedule_with_strategy
                (emptied k)
                "api"
                tight
                (pos 5 +ℤ pos (k * 60000000000))
                (pos 1)
              ≡ false))
get_next_available_slot_first_example =
    get_next_available_slot_first emptied "api" tight (λ i. pos 1) (pos 5)

both_added : Registers new_request_scheduler (first ∷ retry ∷ []) both_registered
unfolding add_request has_id has_id_in append_request
both_added =
    register {reqs = first ∷ []} {t = one_registered} retry
      (register {reqs = []} {t = new_request_scheduler} first registered refl) refl

registered_keeps_limit_example :
    pos (
      count
        (in_window (pos 0) (pos 10))
        (map (λ req. req.scheduled_at) (get_active_requests both_registered "api" (pos 1))))
    ≤ℤ pos 2
unfolding planned ◌+ℤ◌ can_schedule_with_strategy can_schedule_request sort_times windows_fit
    count_window insert_time requests_of select
registered_keeps_limit_example =
    registered_keeps_limit "api" limited new_request_scheduler both_registered (first ∷ retry ∷ [])
      (pos 5) (pos 1) (pos 0) (omega arith) refl both_added refl (refl, (refl, tt))
      (refl, (refl, tt))
