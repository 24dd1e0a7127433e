-- ===== src/Daemon/Scheduler/Identifiers.antt =====
-- No identifier is registered twice.
use patience.Base.{
  ℕ, ◌+◌, ◌≤◌, ◌<◌, ◌≡◌, ap, ℤ, ◌↔◌, ◌⊎◌, count-select-le, String, str_eq, str_eq_iff, true, false,
  none, some, List, [], ◌∷◌, count, inl, inr, Bool-cases, if◌then◌else◌, arith,
}
use patience.Daemon.Scheduler.{
  ScheduledRequest, RequestTable, RequestScheduler, has_id, has_id_in, add_request, duplicate_id,
  append_request, new_request_scheduler, cleanup_table, cleanup_expired_requests, is_active,
}
use patience.Daemon.Scheduler.Table.{count_table, count_table-append_request}

-- How often an identifier stands in the scheduler, over all resources.
abbrev pub occurrences : String → RequestTable → ℕ
occurrences id table = count_table (λ req. str_eq req.id id) table

has_id_in-count :
    (id : String) (reqs : List ScheduledRequest)
    → (has_id_in id reqs ≡ false) ↔ (count (λ (req : ScheduledRequest). str_eq req.id id) reqs ≡ 0)
unfolding has_id_in count
has_id_in-count id [] = ground arith
has_id_in-count id (req ∷ reqs) = ground (arith, has_id_in-count id reqs)

has_id-occurrences :
    (id : String) (table : RequestTable) → (has_id id table ≡ false) ↔ (occurrences id table ≡ 0)
unfolding has_id count_table
has_id-occurrences id [] = ground arith
has_id-occurrences id ((key, reqs) ∷ table) =
    ground (arith, has_id_in-count id reqs, has_id-occurrences id table)

pub record HasUniqueIds (s : RequestScheduler) : Type 0 where
  pub at_most_once : (id : String) → occurrences id s.requests ≤ 1

occurrences_pos :
    (id : String) (table : RequestTable) → has_id id table ≡ true → 0 < occurrences id table
occurrences_pos id table h = ground (arith, has_id-occurrences id table)

unique_step :
    (a b : String) (m n : ℕ)
    → m ≡ 0
    → n ≤ 1
    → (a ≡ b → m ≡ n)
    → (if str_eq a b then 1 else 0) + n ≤ 1
unique_step a b m n z h same = elim (Bool-cases (str_eq a b)) [
  | inl e ↦ rw e (omega (arith, same ((str_eq_iff a b).0 e)))
  | inr e ↦ rw e (omega arith)
]

occurrences-append_request :
    (id resource : String) (req : ScheduledRequest) (table : RequestTable)
    → occurrences id (append_request resource req table)
      ≡ (if str_eq req.id id then 1 else 0) + occurrences id table
occurrences-append_request id resource req table =
    count_table-append_request (λ r. str_eq r.id id) resource req table

-- A request whose identifier is new is added once and nothing else changes in number; a request
-- whose identifier is known is refused with an error that names it, and the state stays as it was.
pub add_request-occurrences :
    (req : ScheduledRequest) (s : RequestScheduler) (id : String)
    → ((occurrences req.id s.requests ≡ 0)
        × ((add_request req s).1 ≡ none)
        × (occurrences id (add_request req s).0.requests
            ≡ (if str_eq req.id id then 1 else 0) + occurrences id s.requests))
      ⊎ ((0 < occurrences req.id s.requests)
          × (add_request req s ≡ (s, some (duplicate_id req.id))))
unfolding add_request
add_request-occurrences req s id = elim (Bool-cases (has_id req.id s.requests)) [
  | inl known ↦ inr (occurrences_pos req.id s.requests known, rw known)
  | inr fresh ↦ inl (
    (has_id-occurrences req.id s.requests).0 fresh,
    rw fresh,
    rw fresh (occurrences-append_request id req.resource_id req s.requests),
  )
]

add_request_unique :
    (req : ScheduledRequest) (s : RequestScheduler) (id : String)
    → HasUniqueIds s
    → occurrences id (add_request req s).0.requests ≤ 1
unfolding add_request
add_request_unique req s id h = elim (Bool-cases (has_id req.id s.requests)) [
  | inl known ↦ rw known (h.at_most_once id)
  | inr fresh ↦
      rw (fresh, occurrences-append_request id req.resource_id req s.requests)
        (unique_step req.id id (occurrences req.id s.requests) (occurrences id s.requests)
          ((has_id-occurrences req.id s.requests).0 fresh) (h.at_most_once id)
          (λ e. ap (λ (k : String). occurrences k s.requests) e))
]

pub add_request-HasUniqueIds :
    (req : ScheduledRequest) (s : RequestScheduler)
    → HasUniqueIds s
    → HasUniqueIds (add_request req s).0
add_request-HasUniqueIds req s h = record { at_most_once = λ id. add_request_unique req s id h }

occurrences-cleanup :
    (now : ℤ) (id : String) (table : RequestTable)
    → occurrences id (cleanup_table now table) ≤ occurrences id table
unfolding cleanup_table count_table
occurrences-cleanup now id [] = omega arith
occurrences-cleanup now id ((key, reqs) ∷ table) = omega (
  arith,
  count-select-le (is_active now) (λ (r : ScheduledRequest). str_eq r.id id) reqs,
  occurrences-cleanup now id table,
)

pub cleanup-HasUniqueIds :
    (now : ℤ) (s : RequestScheduler)
    → HasUniqueIds s
    → HasUniqueIds (cleanup_expired_requests now s)
unfolding cleanup_expired_requests
cleanup-HasUniqueIds now s h = record {
  at_most_once = λ id. omega (arith, occurrences-cleanup now id s.requests, h.at_most_once id);
}

-- The calls that change the scheduler, in any order.
pub data Call : Type 0 where
  add : ScheduledRequest → Call
  cleanup : ℤ → Call

unfoldable pub perform : RequestScheduler → List Call → RequestScheduler
perform s [] = s
perform s (add req ∷ calls) = perform (add_request req s).0 calls
perform s (cleanup now ∷ calls) = perform (cleanup_expired_requests now s) calls

perform_unique :
    (s : RequestScheduler) (calls : List Call) → HasUniqueIds s → HasUniqueIds (perform s calls)
unfolding perform
perform_unique s [] h = h
perform_unique s (add req ∷ calls) h =
    perform_unique (add_request req s).0 calls (add_request-HasUniqueIds req s h)
perform_unique s (cleanup now ∷ calls) h =
    perform_unique (cleanup_expired_requests now s) calls (cleanup-HasUniqueIds now s h)

-- After any sequence of additions and cleanups of a new scheduler no identifier stands twice,
-- over all resources.
pub perform-HasUniqueIds : (calls : List Call) → HasUniqueIds (perform new_request_scheduler calls)
unfolding count_table
perform-HasUniqueIds calls =
    perform_unique new_request_scheduler calls (record { at_most_once = λ id. omega arith })
