-- ===== src/Daemon/Protocol.antt =====
-- The protocol handlers of the Unix socket server (pkg/daemon/unix_server.go) and the messages
-- (pkg/daemon/protocol_types.go). Reading JSON is the standard library's, taken as the argument
-- `json`; `now` and `later` are the two readings of `time.Now()`.
use patience.Base.{
  ℤ, pos, ◌+ℤ◌, String, str_eq, Bool, true, false, not, ◌&&◌, Option, none, some, List, ◌≢◌,
  if◌then◌else◌, arith,
}

pub record HandshakeRequest : Type 0 where
  pub version : String
  pub client : String

pub record ScheduleRequest : Type 0 where
  pub resource_id : String
  pub command : List String
  pub requested_at : ℤ

pub record RequestInfo : Type 0 where
  pub requested_at : ℤ
  pub command : List String

pub record RegisterRequest : Type 0 where
  pub resource_id : String
  pub requests : List RequestInfo

pub data ProtocolError : Type 0 where
  invalid_json invalid_handshake invalid_schedule invalid_register unknown_type : ProtocolError
  unsupported_version : String → ProtocolError

pub data Response : Type 0 where
  handshake_response : Response
  -- can_schedule, scheduled_at, expires_at
  schedule_response : Bool → ℤ → ℤ → Response
  register_response : Bool → Response
  error_response : ProtocolError → Response

-- json.Unmarshal into each of the structs.
pub record Json : Type 0 where
  pub type_of : String → Option String
  pub handshake : String → Option HandshakeRequest
  pub schedule : String → Option ScheduleRequest
  pub register : String → Option RegisterRequest

abbrev pub hour : ℤ
hour = pos 3600000000000

unfoldable pub handle_handshake : HandshakeRequest → Response
handle_handshake req =
    if not (str_eq req.version "") && not (str_eq req.version "1.0")
    then error_response (unsupported_version req.version)
    else handshake_response

unfoldable pub handle_schedule_request : ScheduleRequest → ℤ → ℤ → Response
handle_schedule_request req now later = schedule_response true now (later +ℤ hour)

unfoldable pub handle_register_request : RegisterRequest → Response
handle_register_request req = register_response true

abbrev parsed {ℓ} : {A : Type ℓ} → Option A → ProtocolError → (A → Response) → Response
parsed none e f = error_response e
parsed (some a) e f = f a

unfoldable pub dispatch : Json → String → ℤ → ℤ → String → Response
dispatch json message now later kind =
    if str_eq kind "handshake"
    then parsed (json.handshake message) invalid_handshake handle_handshake
    else if str_eq kind "schedule_request"
    then parsed (json.schedule message) invalid_schedule
        (λ req. handle_schedule_request req now later)
    else if str_eq kind "register_request"
    then parsed (json.register message) invalid_register handle_register_request
    else error_response unknown_type

unfoldable pub handle_protocol_message : Json → String → ℤ → ℤ → Response
unfolding dispatch
handle_protocol_message json message now later =
    parsed (json.type_of message) invalid_json (dispatch json message now later)

-- A message is never answered by a refusal to schedule: whatever was scheduled before, the answer
-- to a message is an error, a handshake, an accepted registration, or a schedule that is granted
-- for the time of the call.
pub never_refuses :
    (json : Json) (message : String) (now later start end : ℤ)
    → handle_protocol_message json message now later ≢ schedule_response false start end
unfolding handle_protocol_message handle_handshake handle_schedule_request handle_register_request
never_refuses json message now later start end h = ground arith
