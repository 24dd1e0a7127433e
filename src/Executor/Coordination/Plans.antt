-- ===== src/Executor/Coordination/Plans.antt =====
-- What the executor registers with the daemon.
use patience.Base.{
  ℕ, suc, ◌≡◌, refl, sym, ap, ℤ, pos, ◌+ℤ◌, ◌-ℤ◌, ◌<ℤ◌, -ℤ_parts, ltb_ℤ, saturate64_self, Fits64,
  String, str_eq, true, false, Option, none, some, List, [], ◌∷◌, map, arith, if◌then◌else◌,
}
use mathlib.Core.Path.{ap₂, subst}
use Prim.Native.String.{◌++◌}
use patience.Backoff.Diophantine.{Diophantine, planned}
use patience.Executor.Coordination.{
  ScheduleResponse, DaemonClient, create_planned_requests, planned_from, unix, decimal, waits_for,
  after_answer, registration, coordinate_with_daemon, coordinate_daemon, derive_resource_id,
}

positive : (z : ℤ) → pos 0 <ℤ z → ltb_ℤ (pos 0) z ≡ true
positive z h = ground arith

planned_from-times :
    (resource : String) (base : ℤ) (i : ℕ) (offsets : List ℤ)
    → map (λ req. req.scheduled_at) (planned_from resource base i offsets)
      ≡ map (λ offset. base +ℤ offset) offsets
unfolding planned_from
planned_from-times resource base i [] = refl
planned_from-times resource base i (o ∷ os) =
    ap (λ (l : List ℤ). (base +ℤ o) ∷ l) (planned_from-times resource base (suc i) os)

planned_from-ids :
    (resource : String) (base other : ℤ) (i : ℕ) (offsets : List ℤ)
    → unix base ≡ unix other
    → map (λ req. req.id) (planned_from resource base i offsets)
      ≡ map (λ req. req.id) (planned_from resource other i offsets)
unfolding planned_from
planned_from-ids resource base other i [] same = refl
planned_from-ids resource base other i (o ∷ os) same =
    ap₂ (λ (t : ℤ) (l : List String). (resource ++ "-" ++ decimal t ++ "-" ++ decimal (pos i)) ∷ l)
      same (planned_from-ids resource base other (suc i) os same)

-- The requests registered for a run stand at the times that the strategy plans for the time of the
-- question; and two runs whose questions fall in the same second register the same identifiers.
pub create_planned_requests_plan :
    (resource : String) (strategy : Diophantine) (now other : ℤ)
    → unix now ≡ unix other
    → (map (λ req. req.scheduled_at) (create_planned_requests resource now strategy.retry_offsets)
        ≡ planned strategy now)
      × (map (λ req. req.id) (create_planned_requests resource now strategy.retry_offsets)
          ≡ map (λ req. req.id) (create_planned_requests resource other strategy.retry_offsets))
unfolding create_planned_requests planned
create_planned_requests_plan resource strategy now other same = (
  planned_from-times resource now 0 strategy.retry_offsets,
  planned_from-ids resource now other 0 strategy.retry_offsets same,
)

after_answer_never_fails :
    (client : DaemonClient) (resource : String) (strategy : Diophantine) (now later : ℤ)
    (answer : Option ScheduleResponse)
    → (after_answer client resource strategy now later answer).error ≡ none
unfolding after_answer registration
after_answer_never_fails client resource strategy now later none = refl
after_answer_never_fails client resource strategy now later (some response) = refl

after_refusal :
    (client : DaemonClient) (resource : String) (strategy : Diophantine) (now later wait_until : ℤ)
    → later <ℤ wait_until
    → Fits64 (wait_until -ℤ later)
    → let c =
        after_answer client resource strategy now later
          (some (record { can_schedule = false; wait_until = wait_until })) in
      (c.waits ≡ (wait_until -ℤ later) ∷ [])
      × (map (λ req. req.scheduled_at) c.registered ≡ planned strategy now)
unfolding after_answer registration waits_for create_planned_requests planned
after_refusal client resource strategy now later wait_until l f =
    let exact = saturate64_self (wait_until -ℤ later) f in
    (
      rw (exact, positive (wait_until -ℤ later) (omega (arith, -ℤ_parts wait_until later))) refl,
      planned_from-times resource now 0 strategy.retry_offsets,
    )

-- The coordination never fails: without a client, with a daemon that does not answer, that refuses,
-- or that does not register, the run goes on.
pub coordinate_daemon_never_fails :
    (host : String → Option String) (client : Option DaemonClient) (resource_id : String)
    (strategy : Option Diophantine) (command : List String) (now later : ℤ)
    → (coordinate_daemon host client resource_id strategy command now later).error ≡ none
unfolding coordinate_daemon coordinate_with_daemon
coordinate_daemon_never_fails host client resource_id none command now later = refl
coordinate_daemon_never_fails host none resource_id (some strategy) command now later = refl
coordinate_daemon_never_fails host (some client) resource_id (some strategy) command now later =
    after_answer_never_fails client
      (if str_eq resource_id "" then derive_resource_id host command else resource_id) strategy now
      later _

-- When the daemon refuses and names a later time, the run waits until exactly that time, but what it
-- registers are the times planned for the moment of the question, before the wait.
pub refused_run_registers_early :
    (host : String → Option String) (client : DaemonClient) (resource_id : String)
    (strategy : Diophantine) (command : List String) (now later wait_until : ℤ)
    → client.ask
        (if str_eq resource_id "" then derive_resource_id host command else resource_id)
        strategy
        now
      ≡ some (record { can_schedule = false; wait_until = wait_until })
    → later <ℤ wait_until
    → Fits64 (wait_until -ℤ later)
    → let c = coordinate_with_daemon host (some client) resource_id strategy command now later in
      (c.waits ≡ (wait_until -ℤ later) ∷ [])
      × (map (λ req. req.scheduled_at) c.registered ≡ planned strategy now)
unfolding coordinate_with_daemon waits_for
refused_run_registers_early host client resource_id strategy command now later wait_until e l f =
    let resource = if str_eq resource_id "" then derive_resource_id host command else resource_id in
    subst
      (λ (answer : Option ScheduleResponse).
        let c = after_answer client resource strategy now later answer in
        (c.waits ≡ (wait_until -ℤ later) ∷ [])
        × (map (λ req. req.scheduled_at) c.registered ≡ planned strategy now))
      (sym e) (after_refusal client resource strategy now later wait_until l f)
