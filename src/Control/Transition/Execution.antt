-- ===== src/Control/Transition/Execution.antt =====
-- `executeTransition` of control/failover.go, `ExecuteFailover` and `ExecuteSwitchover`.
use go_patroni.Base.{
  Bool, true, false, ◌&&◌, Option, none, some, List, [], ◌∷◌, ◌++◌, if◌then◌else◌, is_some, pos,
  eqb_ℤ,
}
use go_patroni.Base.Result.{ok, err}
use go_patroni.Texts.{Text, text}
use go_patroni.Texts.Space.{trim_space}
use go_patroni.Dcs.Snapshots.{Snapshot}
use go_patroni.Control.Types.{
  Category, SendState, Verification, EvidenceSource, Route, plain, Evidence, Plan, route_text,
}
use go_patroni.Control.Errors.{classify_read_error, classify_http_status}
use go_patroni.Control.Service.{Service, Run, ◌>>=◌, pure, snapshot, context_error, operation_id}
use go_patroni.Control.Reports.{observe, snapshot_evidence}
use go_patroni.Control.VersionGate.{check_snapshot_patroni_version}
use go_patroni.Control.Transition.Intents.{
  Intent, ClusterWriteData, RequestError, FailoverRequest, SwitchoverRequest,
  normalize_failover_request, normalize_switchover_request,
}
use go_patroni.Control.Transition.Selections.{Selection, resolve_transition}
use go_patroni.Control.Transition.Contract.{
  validate_transition_plan, revalidate_transition_plan, transition_data,
}
use go_patroni.Control.Transition.Results.{
  TransitionResult, set_verification, set_dcs, set_rest, transition_success, transition_failure,
  transition_failure_with_retry, transition_unknown,
}
use go_patroni.Control.Transition.Rest.{
  RestReport, accepted_status, call_transition_rest, transition_rest_payload,
}
use go_patroni.Control.Transition.Fallback.{verify_transition_fallback}
use go_patroni.Control.Transition.Recovery.{may_have_arrived, execute_transition_fallback}
use go_patroni.Control.Transition.Preparation.{refused, unsupported_version}

-- The zero value of `ClusterWriteData`.
abbrev pub zero_data : ClusterWriteData
zero_data = record {
  leader = [];
  candidate = [];
  scheduled_at = [];
  rest_send_state = SendState.unset;
  dcs_send_state = SendState.unset;
  verification = Verification.unset;
  http_status = pos 0;
  dcs_revision = pos 0;
  legacy_endpoint = false;
}

-- A response was accepted: a scheduled switchover is read back from the DCS first.
unfoldable pub accept_response :
    Service
    → Text
    → Intent
    → Selection
    → ClusterWriteData
    → RestReport
    → List Evidence
    → Run TransitionResult
unfolding transition_success transition_unknown set_verification set_dcs verify_transition_fallback
accept_response service id i sel d report evidence =
    elim (eqb_ℤ report.response.status_code (pos 202) && is_some i.scheduled_at) [
      | true ↦ do
        v ← verify_transition_fallback service i sel.leader
        let d' = set_dcs d d.dcs_send_state v.revision
        pure (
            if v.verified
            then transition_success id i Route.rest
                (set_verification d' Verification.verified_succeeded) (evidence ++ v.evidence)
            else transition_unknown id i Route.rest d'
                (text
                  "Patroni accepted the scheduled switchover but DCS readback did not verify it")
                report.error (evidence ++ v.evidence))
      | false ↦ pure (
          transition_success id i Route.rest (set_verification d Verification.verified_succeeded)
            evidence)
    ]

-- No response came: a context that ended stops here, else the fallback.
unfoldable pub after_no_response :
    Service
    → Text
    → Intent
    → Selection
    → ClusterWriteData
    → RestReport
    → List Evidence
    → Run TransitionResult
unfolding context_error transition_unknown transition_failure set_verification
    execute_transition_fallback
after_no_response service id i sel d report evidence = do
  ended ← context_error service
  elim ended [
    | some e ↦ pure (
        if may_have_arrived d.rest_send_state
        then transition_unknown id i Route.rest (set_verification d Verification.unverified)
            (i.operation ++ text " may have been sent before cancellation; verify before retrying")
            (some e) evidence
        else transition_failure id i Route.rest (set_verification d Verification.verified_failed)
            Category.failed (i.operation ++ text " was canceled before fallback") (some e) evidence)
    | none ↦ execute_transition_fallback service id i sel d report.error evidence
  ]

-- `response.StatusCode == 200 || 202`, `!= 0`, or no response.
unfoldable pub after_rest :
    Service
    → Text
    → Intent
    → Selection
    → ClusterWriteData
    → RestReport
    → List Evidence
    → Run TransitionResult
unfolding accept_response after_no_response transition_failure_with_retry classify_http_status
    set_verification
after_rest service id i sel d report evidence = elim (accepted_status report.response.status_code) [
  | true ↦ accept_response service id i sel d report evidence
  | false ↦ elim (eqb_ℤ report.response.status_code (pos 0)) [
    | false ↦ pure (
        transition_failure_with_retry id i Route.rest
          (set_verification d Verification.verified_failed)
          (classify_http_status report.response.status_code).0
          (classify_http_status report.response.status_code).1
          (text "Patroni rejected " ++ i.operation) report.error evidence)
    | true ↦ after_no_response service id i sel d report evidence
  ]
]

-- The plan holds for the current cluster: the REST call and what follows.
unfoldable pub execute_write :
    Service → Text → Intent → Selection → List Evidence → Run TransitionResult
unfolding context_error observe route_text transition_failure transition_data set_verification
    call_transition_rest transition_rest_payload set_rest after_rest
execute_write service id i sel evidence = do
  ended ← context_error service
  elim ended [
    | some e ↦ do
      note ←
          observe service EvidenceSource.control (i.operation ++ text " canceled before REST write")
            [] (route_text Route.rest) SendState.not_sent
      pure (
          transition_failure id i Route.rest
            (set_verification (transition_data service.os i sel) Verification.verified_failed)
            Category.failed (i.operation ++ text " was canceled before it was sent") (some e)
            (evidence ++ note ∷ []))
    | none ↦ do
      report ← call_transition_rest service i sel (transition_rest_payload service.os i sel)
      after_rest service id i sel
          (set_rest (transition_data service.os i sel) report.send report.response.status_code
            report.legacy)
          report (evidence ++ report.evidence)
  ]

abbrev pub topology_changed_data : ClusterWriteData
topology_changed_data = record {
  leader = [];
  candidate = [];
  scheduled_at = [];
  rest_send_state = SendState.not_sent;
  dcs_send_state = SendState.unset;
  verification = Verification.verified_failed;
  http_status = pos 0;
  dcs_revision = pos 0;
  legacy_endpoint = false;
}

unfoldable pub execute_selected :
    Service → Text → Intent → Plan → Selection → List Evidence → Run TransitionResult
unfolding revalidate_transition_plan transition_failure transition_data execute_write
execute_selected service id i p sel evidence = elim (revalidate_transition_plan p sel) [
  | false ↦ pure (
      transition_failure id i Route.rest (transition_data service.os i sel) Category.conflict
        (i.operation ++ text " was not sent because confirmed preconditions changed") (some plain)
        evidence)
  | true ↦ execute_write service id i sel evidence
]

unfoldable pub execute_from : Service → Text → Intent → Plan → Snapshot → Run TransitionResult
unfolding check_snapshot_patroni_version unsupported_version resolve_transition snapshot_evidence
    transition_failure execute_selected
execute_from service id i p s = elim (check_snapshot_patroni_version service s false) [
  | some _ ↦ unsupported_version zero_data service id i s
  | none ↦ do
    base ← snapshot_evidence service s (i.operation ++ text " target revalidated before execution")
    elim (resolve_transition service.os s i) [
      | err _ ↦ pure (
          transition_failure id i Route.rest topology_changed_data Category.conflict
            (i.operation ++ text " was not sent because cluster topology changed") (some plain)
            (base ∷ []))
      | ok sel ↦ execute_selected service id i p sel (base ∷ [])
    ]
]

unfoldable pub execute_checked : Service → Text → Intent → Plan → Run TransitionResult
unfolding validate_transition_plan snapshot refused classify_read_error execute_from
execute_checked service id i p = elim (validate_transition_plan service.os p i) [
  | some _ ↦
      refused zero_data service id i (Category.usage, false)
        (i.operation ++ text " plan does not match the request") (some plain) []
  | none ↦ do
    answer ← snapshot service i.target
    elim answer [
      | err e ↦
          refused zero_data service id i (classify_read_error (some e))
            (i.operation ++ text " execution snapshot failed") (some e) []
      | ok s ↦ execute_from service id i p s
    ]
]

abbrev pub or_new_id : Service → Text → Run Text
or_new_id service [] = operation_id service
or_new_id service (c ∷ value) = pure (c ∷ value)

unfoldable pub execute_transition :
    Service → Bool → Intent × Option RequestError → Plan → Run TransitionResult
unfolding operation_id refused execute_checked
execute_transition service context_given (i, request_error) p = do
  id ← or_new_id service (trim_space p.operation_id)
  elim context_given [
    | false ↦
        refused zero_data service id i (Category.usage, false)
          (i.operation ++ text " requires a context") none []
    | true ↦ elim request_error [
      | some _ ↦
          refused zero_data service id i (Category.usage, false)
            (i.operation ++ text " request is invalid") (some plain) []
      | none ↦ execute_checked service id i p
    ]
  ]

unfoldable pub execute_failover : Service → Bool → FailoverRequest → Plan → Run TransitionResult
unfolding normalize_failover_request execute_transition
execute_failover service context_given request p =
    execute_transition service context_given (normalize_failover_request request) p

unfoldable pub execute_switchover : Service → Bool → SwitchoverRequest → Plan → Run TransitionResult
unfolding normalize_switchover_request execute_transition
execute_switchover service context_given request p =
    execute_transition service context_given (normalize_switchover_request request) p
