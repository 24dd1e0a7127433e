-- ===== src/Executor/Coordination.antt =====
-- The executor's coordination with the daemon (pkg/executor/executor.go): what it asks, how long it
-- waits and what it registers. The daemon client is an argument, as are the two env readings.
pub mod Plans
use patience.Base.{
  ℕ, zero, suc, ◌+◌, ◌/◌, ◌%◌, ltb, ◌==◌, ℤ, pos, negsuc, ◌+ℤ◌, ◌-ℤ◌, ltb_ℤ, saturate64, String,
  str_eq, Bool, true, false, Option, none, some, List, [], ◌∷◌, ◌||◌, if◌then◌else◌,
}
use Prim.Native.String.{◌++◌}
use text.Mathlib.Text.{starts_with}
use patience.Daemon.Scheduler.{ScheduledRequest}
use patience.Backoff.Diophantine.{Diophantine}

-- fmt.Sprintf("%d", n), on fuel that exceeds the number of digits.
digit : ℕ → String
digit d =
    if d == 0
    then "0"
    else if d == 1
    then "1"
    else if d == 2
    then "2"
    else if d == 3
    then "3"
    else if d == 4
    then "4"
    else if d == 5
    then "5"
    else if d == 6
    then "6"
    else if d == 7
    then "7"
    else if d == 8
    then "8"
    else "9"

decimal_fuel : ℕ → ℕ → String
decimal_fuel zero n = ""
decimal_fuel (suc fuel) n =
    let front = decimal_fuel fuel (n / 10) in if ltb n 10 then digit n else front ++ digit (n % 10)

unfoldable pub decimal : ℤ → String
unfolding decimal_fuel digit
decimal (pos n) = decimal_fuel (suc n) n
decimal (negsuc n) = "-" ++ decimal_fuel (suc (suc n)) (suc n)

-- time.Time.Unix: whole seconds, rounded down.
unfoldable pub unix : ℤ → ℤ
unix (pos n) = pos (n / 1000000000)
unix (negsuc n) = negsuc (n / 1000000000)

abbrev pub hour : ℤ
hour = pos 3600000000000

-- The loop of createPlannedRequests from index i on.
unfoldable pub planned_from : String → ℤ → ℕ → List ℤ → List ScheduledRequest
planned_from resource base i [] = []
planned_from resource base i (offset ∷ offsets) =
    record {
      id = resource ++ "-" ++ decimal (unix base) ++ "-" ++ decimal (pos i);
      resource_id = resource;
      scheduled_at = base +ℤ offset;
      expires_at = base +ℤ offset +ℤ hour;
    }
    ∷ planned_from resource base (suc i) offsets

unfoldable pub create_planned_requests : String → ℤ → List ℤ → List ScheduledRequest
create_planned_requests resource base offsets = planned_from resource base 0 offsets

-- The first argument of curl that is no option; `host` is url.Parse and the host of its result.
unfoldable pub curl_resource : (String → Option String) → List String → String
curl_resource host [] = "http-api"
curl_resource host (arg ∷ args) =
    let rest = curl_resource host args in
    if starts_with arg "-"
    then rest
    else (if starts_with arg "http"
        then elim (host arg) [ none ↦ "http-" ++ arg | some h ↦ "http-" ++ h ]
        else "http-" ++ arg)

unfoldable pub derive_resource_id : (String → Option String) → List String → String
derive_resource_id host [] = "unknown"
derive_resource_id host (name ∷ args) =
    if str_eq name "curl"
    then curl_resource host args
    else if str_eq name "psql" || str_eq name "mysql"
    then "database"
    else if str_eq name "aws"
    then "aws-api"
    else if str_eq name "kubectl"
    then "kubernetes-api"
    else "cmd-" ++ name

pub record ScheduleResponse : Type 0 where
  pub can_schedule : Bool
  pub wait_until : ℤ

-- DaemonClient: `ask resource strategy now` is CanScheduleRequest, `none` an error of it, and
-- `register` tells whether RegisterScheduledRequests succeeds.
pub record DaemonClient : Type 0 where
  pub ask : String → Diophantine → ℤ → Option ScheduleResponse
  pub register : List ScheduledRequest → Bool

pub data CoordinationError : Type 0 where
  coordination_failed : String → CoordinationError

pub data Warning : Type 0 where
  daemon_unavailable registration_failed : Warning

-- What a coordination does: its waits, the requests sent for registration, its warnings and its
-- result.
pub record Coordination : Type 0 where
  pub waits : List ℤ
  pub registered : List ScheduledRequest
  pub warnings : List Warning
  pub error : Option CoordinationError

abbrev pub no_coordination : Coordination
no_coordination = record { waits = []; registered = []; warnings = []; error = none }

-- `time.Until(response.WaitUntil)` at the env reading `later`.
unfoldable pub waits_for : ScheduleResponse → ℤ → List ℤ
waits_for response later =
    if response.can_schedule
    then []
    else (if ltb_ℤ (pos 0) (saturate64 (response.wait_until -ℤ later))
        then saturate64 (response.wait_until -ℤ later) ∷ []
        else [])

registration : DaemonClient → List ScheduledRequest → List ℤ → Coordination
registration client requests waits = record {
  waits = waits;
  registered = requests;
  warnings = if client.register requests then [] else registration_failed ∷ [];
  error = none;
}

after_answer : DaemonClient → String → Diophantine → ℤ → ℤ → Option ScheduleResponse → Coordination
after_answer client resource strategy now later none = record {
  waits = [];
  registered = [];
  warnings = daemon_unavailable ∷ [];
  error = none;
}
after_answer client resource strategy now later (some response) =
    registration client (create_planned_requests resource now strategy.retry_offsets)
      (waits_for response later)

-- `resource_id` is the configured one, "" if there is none.
unfoldable pub coordinate_with_daemon :
    (String → Option String)
    → Option DaemonClient
    → String
    → Diophantine
    → List String
    → ℤ
    → ℤ
    → Coordination
unfolding after_answer registration
coordinate_with_daemon host none resource_id strategy command now later = no_coordination
coordinate_with_daemon host (some client) resource_id strategy command now later =
    let resource = if str_eq resource_id "" then derive_resource_id host command else resource_id in
    after_answer client resource strategy now later (client.ask resource strategy now)

-- Only a Diophantine strategy is coordinated.
unfoldable pub coordinate_daemon :
    (String → Option String)
    → Option DaemonClient
    → String
    → Option Diophantine
    → List String
    → ℤ
    → ℤ
    → Coordination
coordinate_daemon host client resource_id none command now later = no_coordination
coordinate_daemon host client resource_id (some strategy) command now later =
    coordinate_with_daemon host client resource_id strategy command now later
