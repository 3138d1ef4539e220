-- ===== src/Control/Pause.antt =====
-- Pausing and resuming the management of a cluster, control/pause.go: the request, the data of a
-- result, and the results.
pub mod Contract
pub mod Readbacks
pub mod Sending
pub mod Preparation
pub mod Soundness
pub mod Costs
pub mod Settlement
pub mod Safety
pub mod Validity
pub mod Execution
use go_patroni.Base.{Bool, true, false, Option, none, some, List, [], ℤ, is_empty}
use go_patroni.Texts.{Text}
use go_patroni.Target.{Target, TargetError, normalize, validate}
use go_patroni.Control.Types.{
  Category, Outcome, SendState, Verification, Route, Cause, Evidence, OperationResult,
}
use go_patroni.Control.Errors.{new_error}
use go_patroni.Control.Writes.{MemberWrite}

pub record PauseRequest : Type 0 where
  pub target : Target
  pub wait : Bool
  pub citus : Bool

-- `pauseIntent`
pub record PauseIntent : Type 0 where
  pub operation : Text
  pub target : Target
  pub desired : Bool
  pub wait : Bool
  pub citus : Bool

pub data PauseRequestError : Type 0 where
  not_a_cluster : PauseRequestError
  bad_target : TargetError → PauseRequestError

abbrev bad_pause_target : Option TargetError → Option PauseRequestError
bad_pause_target none = none
bad_pause_target (some e) = some (bad_target e)

unfoldable pub pause_intent : Text → Bool → PauseRequest → PauseIntent
unfolding normalize
pause_intent operation desired request = record {
  operation = operation;
  target = normalize request.target;
  desired = desired;
  wait = request.wait;
  citus = request.citus;
}

unfoldable pub check_pause_target : Target → Option PauseRequestError
unfolding validate
check_pause_target t = elim (is_empty t.member) [
  | false ↦ some not_a_cluster
  | true ↦ bad_pause_target (validate t true)
]

unfoldable pub normalize_pause_request :
    Text → Bool → PauseRequest → PauseIntent × Option PauseRequestError
unfolding pause_intent check_pause_target
normalize_pause_request operation desired request =
    (pause_intent operation desired request, check_pause_target (normalize request.target))

-- `PauseData` of control/write_types.go.
pub record PauseData : Type 0 where
  pub paused : Bool
  pub wait : Bool
  pub results : List MemberWrite
  pub rest_send_state : SendState
  pub verification : Verification
  pub dcs_revision : ℤ
  pub pending_members : List Text
  pub noop : Bool

unfoldable pub set_pause_verification : PauseData → Verification → PauseData
set_pause_verification d v = record {
  paused = d.paused;
  wait = d.wait;
  results = d.results;
  rest_send_state = d.rest_send_state;
  verification = v;
  dcs_revision = d.dcs_revision;
  pending_members = d.pending_members;
  noop = d.noop;
}

unfoldable pub set_readback : PauseData → List Text → ℤ → PauseData
set_readback d pending revision = record {
  paused = d.paused;
  wait = d.wait;
  results = d.results;
  rest_send_state = d.rest_send_state;
  verification = d.verification;
  dcs_revision = revision;
  pending_members = pending;
  noop = d.noop;
}

unfoldable pub set_noop : PauseData → PauseData
set_noop d = record {
  paused = d.paused;
  wait = d.wait;
  results = d.results;
  rest_send_state = d.rest_send_state;
  verification = d.verification;
  dcs_revision = d.dcs_revision;
  pending_members = d.pending_members;
  noop = true;
}

abbrev pub PauseResult : Type 0
PauseResult = OperationResult PauseData

unfoldable pub pause_success : Text → PauseIntent → PauseData → List Evidence → PauseResult
pause_success id i d evidence = record {
  operation_id = id;
  outcome = Outcome.succeeded;
  target = i.target;
  path = Route.rest;
  payload = d;
  evidence = evidence;
  error = none;
}

unfoldable pub pause_failure :
    Text
    → PauseIntent
    → PauseData
    → Category × Bool
    → Text
    → Option Cause
    → List Evidence
    → PauseResult
unfolding set_pause_verification new_error
pause_failure id i d (category, retryable) message cause evidence = record {
  operation_id = id;
  outcome = Outcome.failed;
  target = i.target;
  path = Route.rest;
  payload = set_pause_verification d Verification.verified_failed;
  evidence = evidence;
  error = some (new_error category i.operation i.target retryable message cause evidence);
}

unfoldable pub pause_unknown :
    Text → PauseIntent → PauseData → Text → Option Cause → List Evidence → PauseResult
unfolding set_pause_verification new_error
pause_unknown id i d message cause evidence = record {
  operation_id = id;
  outcome = Outcome.unknown;
  target = i.target;
  path = Route.rest;
  payload = set_pause_verification d Verification.unverified;
  evidence = evidence;
  error = some (new_error Category.unknown i.operation i.target false message cause evidence);
}
