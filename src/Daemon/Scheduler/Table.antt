-- ===== src/Daemon/Scheduler/Table.antt =====
-- The laws of the table of requests.
use patience.Base.{
  ℕ, ◌+◌, ◌≡◌, String, str_eq, str_eq_iff, Bool, [], ◌∷◌, ◌++◌, count, count-append, if◌then◌else◌,
  arith,
}
use patience.Daemon.Scheduler.{ScheduledRequest, RequestTable, requests_of, append_request}

pub requests_of-append_request :
    (resource other : String) (req : ScheduledRequest) (table : RequestTable)
    → requests_of other (append_request resource req table) ≡ (
        if str_eq resource other
        then requests_of other table ++ (req ∷ [])
        else requests_of other table)
unfolding requests_of append_request
requests_of-append_request resource other req [] = ground arith
requests_of-append_request resource other req ((key, reqs) ∷ table) = ground (
  arith,
  str_eq_iff key resource,
  str_eq_iff key other,
  str_eq_iff resource other,
  requests_of-append_request resource other req table,
)

-- How many requests of the table pass a test, over all resources.
unfoldable pub count_table : (ScheduledRequest → Bool) → RequestTable → ℕ
count_table p [] = 0
count_table p ((key, reqs) ∷ table) = count p reqs + count_table p table

pub count_table-append_request :
    (p : ScheduledRequest → Bool) (resource : String) (req : ScheduledRequest)
    (table : RequestTable)
    → count_table p (append_request resource req table)
      ≡ (if p req then 1 else 0) + count_table p table
unfolding count_table append_request count
count_table-append_request p resource req [] = ground arith
count_table-append_request p resource req ((key, reqs) ∷ table) =
    ground (arith, count-append p reqs (req ∷ []), count_table-append_request p resource req table)
