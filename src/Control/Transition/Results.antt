-- ===== src/Control/Transition/Results.antt =====
-- `transitionSuccess`, `transitionFailure`, `transitionFailureWithRetry` and `transitionUnknown` of
-- control/failover.go.
use go_patroni.Base.{Bool, false, Option, none, some, List, ℤ}
use go_patroni.Texts.{Text}
use go_patroni.Control.Types.{
  Category, Outcome, SendState, Verification, Route, Cause, Evidence, OperationResult,
}
use go_patroni.Control.Errors.{new_error}
use go_patroni.Control.Transition.Intents.{Intent, ClusterWriteData}

unfoldable pub set_verification : ClusterWriteData → Verification → ClusterWriteData
set_verification d v = record {
  leader = d.leader;
  candidate = d.candidate;
  scheduled_at = d.scheduled_at;
  rest_send_state = d.rest_send_state;
  dcs_send_state = d.dcs_send_state;
  verification = v;
  http_status = d.http_status;
  dcs_revision = d.dcs_revision;
  legacy_endpoint = d.legacy_endpoint;
}

unfoldable pub set_dcs : ClusterWriteData → SendState → ℤ → ClusterWriteData
set_dcs d send revision = record {
  leader = d.leader;
  candidate = d.candidate;
  scheduled_at = d.scheduled_at;
  rest_send_state = d.rest_send_state;
  dcs_send_state = send;
  verification = d.verification;
  http_status = d.http_status;
  dcs_revision = revision;
  legacy_endpoint = d.legacy_endpoint;
}

unfoldable pub set_rest : ClusterWriteData → SendState → ℤ → Bool → ClusterWriteData
set_rest d send status legacy = record {
  leader = d.leader;
  candidate = d.candidate;
  scheduled_at = d.scheduled_at;
  rest_send_state = send;
  dcs_send_state = d.dcs_send_state;
  verification = d.verification;
  http_status = status;
  dcs_revision = d.dcs_revision;
  legacy_endpoint = legacy;
}

abbrev pub TransitionResult : Type 0
TransitionResult = OperationResult ClusterWriteData

unfoldable pub transition_success :
    Text → Intent → Route → ClusterWriteData → List Evidence → TransitionResult
transition_success id i path d evidence = record {
  operation_id = id;
  outcome = Outcome.succeeded;
  target = i.target;
  path = path;
  payload = d;
  evidence = evidence;
  error = none;
}

unfoldable pub transition_failure_with_retry :
    Text
    → Intent
    → Route
    → ClusterWriteData
    → Category
    → Bool
    → Text
    → Option Cause
    → List Evidence
    → TransitionResult
unfolding new_error
transition_failure_with_retry id i path d category retryable message cause evidence = record {
  operation_id = id;
  outcome = Outcome.failed;
  target = i.target;
  path = path;
  payload = d;
  evidence = evidence;
  error = some (new_error category i.operation i.target retryable message cause evidence);
}

unfoldable pub transition_failure :
    Text
    → Intent
    → Route
    → ClusterWriteData
    → Category
    → Text
    → Option Cause
    → List Evidence
    → TransitionResult
unfolding transition_failure_with_retry
transition_failure id i path d category message cause evidence =
    transition_failure_with_retry id i path d category false message cause evidence

unfoldable pub transition_unknown :
    Text
    → Intent
    → Route
    → ClusterWriteData
    → Text
    → Option Cause
    → List Evidence
    → TransitionResult
unfolding new_error set_verification
transition_unknown id i path d message cause evidence = record {
  operation_id = id;
  outcome = Outcome.unknown;
  target = i.target;
  path = path;
  payload = set_verification d Verification.unverified;
  evidence = evidence;
  error = some (new_error Category.unknown i.operation i.target false message cause evidence);
}
