-- ===== src/Executor/Run.antt =====
-- Executor.Run as a whole (pkg/executor/executor.go): the coordination, then the attempts.
use patience.Base.{ℤ, ◌≡◌, ap, String, Option, none, some, List}
use patience.Backoff.Diophantine.{Diophantine}
use patience.Executor.Attempts.{Executor}
use patience.Executor.Loop.{Environment, Outcome, run_attempts}
use patience.Executor.Coordination.{
  DaemonClient, Coordination, CoordinationError, coordinate_daemon,
}
use patience.Executor.Coordination.Plans.{coordinate_daemon_never_fails}

pub data RunOutcome (S : Type 0) : Type 0 where
  not_coordinated : CoordinationError → RunOutcome S
  ran : Coordination → Outcome S → RunOutcome S

after_coordination :
    {S : Type 0}
    → Executor S
    → Environment
    → S
    → Coordination
    → Option CoordinationError
    → RunOutcome S
after_coordination e env s c (some error) = not_coordinated error
after_coordination e env s c none = ran c (run_attempts e env s)

unfoldable pub run : {S : Type 0} → Executor S → Environment → Coordination → S → RunOutcome S
unfolding after_coordination
run e env c s = after_coordination e env s c c.error

-- Whatever the client, the daemon's answers, the configured resource and the command, the
-- coordination does not keep a run from its attempts: the run waits and registers as the
-- coordination says and then makes the attempts that it would make without it.
pub run_coordinated :
    {S : Type 0} (e : Executor S) (env : Environment) (s : S) (host : String → Option String)
    (client : Option DaemonClient) (resource_id : String) (strategy : Option Diophantine)
    (command : List String) (now later : ℤ)
    → let c = coordinate_daemon host client resource_id strategy command now later in
      run e env c s ≡ ran c (run_attempts e env s)
unfolding run
run_coordinated e env s host client resource_id strategy command now later =
    ap
      (after_coordination e env s
        (coordinate_daemon host client resource_id strategy command now later))
      (coordinate_daemon_never_fails host client resource_id strategy command now later)
