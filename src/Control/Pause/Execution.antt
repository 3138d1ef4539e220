-- ===== src/Control/Pause/Execution.antt =====
-- `executePause` of control/pause.go, `ExecutePause` and `ExecuteResume`.
pub mod Laws
use go_patroni.Base.{Bool, true, false, Option, none, some, List, [], ◌∷◌, ◌++◌, pos}
use go_patroni.Base.Result.{ok, err}
use go_patroni.Texts.{Text, text, text_eq, join}
use go_patroni.Texts.Space.{trim_space}
use go_patroni.Dcs.Snapshots.{Snapshot}
use go_patroni.Control.Types.{Category, SendState, Verification, Route, plain, Evidence, Plan}
use go_patroni.Control.Errors.{classify_read_error}
use go_patroni.Control.Service.{◌>>=◌, Service, Run, pure, snapshot}
use go_patroni.Control.Reports.{snapshot_evidence, unsupported_version_result}
use go_patroni.Control.VersionGate.{check_snapshot_patroni_version}
use go_patroni.Control.Transition.Selections.{is_paused}
use go_patroni.Control.Transition.Contract.{comma}
use go_patroni.Control.Transition.Execution.{or_new_id}
use go_patroni.Control.Writes.Members.{
  leader_first_rest_members, member_targets, member_names_from_targets,
}
use go_patroni.Control.Pause.{
  PauseRequest, PauseIntent, PauseRequestError, PauseData, PauseResult, normalize_pause_request,
  set_pause_verification, set_readback, set_noop, pause_success, pause_failure,
}
use go_patroni.Control.Pause.Contract.{validate_pause_plan}
use go_patroni.Control.Pause.Readbacks.{same_bool}
use go_patroni.Control.Pause.Sending.{decide_by_readback, pause_rounds}
use go_patroni.Control.Pause.Preparation.{refuse_pause, pause_word}

-- The zero value of `PauseData`.
abbrev pub zero_pause_data : PauseData
zero_pause_data = record {
  paused = false;
  wait = false;
  results = [];
  rest_send_state = SendState.unset;
  verification = Verification.unset;
  dcs_revision = pos 0;
  pending_members = [];
  noop = false;
}

unfoldable pub initial_pause_data : PauseIntent → PauseData
initial_pause_data i = record {
  paused = i.desired;
  wait = i.wait;
  results = [];
  rest_send_state = SendState.not_sent;
  verification = Verification.unverified;
  dcs_revision = pos 0;
  pending_members = [];
  noop = false;
}

-- The cluster has the desired state already.
unfoldable pub finish_noop :
    Service → Text → PauseIntent → Plan → Snapshot → List Evidence → Run PauseResult
unfolding pause_success set_pause_verification set_readback set_noop initial_pause_data
    decide_by_readback member_names_from_targets text
finish_noop service id i p s evidence = elim i.wait [
  | false ↦ pure (
      pause_success id i
        (set_readback
          (set_pause_verification (set_noop (initial_pause_data i)) Verification.verified_succeeded)
          [] s.revision)
        evidence)
  | true ↦
      decide_by_readback service id i (set_noop (initial_pause_data i))
        (member_names_from_targets p.targets)
        (i.operation ++ text " state is set but member convergence is unverified") none evidence
]

-- The comma-separated names of the members that the plan names and of those that can be reached now.
unfoldable pub same_rest_members : PauseIntent → Plan → Snapshot → Bool
unfolding leader_first_rest_members member_targets member_names_from_targets join text_eq
same_rest_members i p s =
    text_eq
      (join comma
        (member_names_from_targets (member_targets i.target (leader_first_rest_members s.cluster))))
      (join comma (member_names_from_targets p.targets))

unfoldable pub execute_pause_from : Service → Text → PauseIntent → Plan → Snapshot → Run PauseResult
unfolding check_snapshot_patroni_version unsupported_version_result snapshot_evidence is_paused
    finish_noop same_rest_members pause_failure set_pause_verification initial_pause_data
    pause_rounds member_names_from_targets text
execute_pause_from service id i p s = elim (check_snapshot_patroni_version service s false) [
  | some _ ↦ unsupported_version_result zero_pause_data service id i.operation i.target Route.rest s
  | none ↦ do
    base ← snapshot_evidence service s (i.operation ++ text " targets revalidated before execution")
    elim (same_bool (is_paused s.cluster) i.desired) [
      | true ↦ finish_noop service id i p s (base ∷ [])
      | false ↦ elim (same_rest_members i p s) [
        | false ↦ pure (
            pause_failure id i
              (set_pause_verification (initial_pause_data i) Verification.verified_failed)
              (Category.conflict, false)
              (i.operation ++ text " was not sent because the confirmed REST member set changed")
              none (base ∷ []))
        | true ↦
            pause_rounds service id i s (member_names_from_targets p.targets) p.targets
              (initial_pause_data i) (base ∷ [])
      ]
    ]
]

unfoldable pub execute_pause_checked : Service → Text → PauseIntent → Plan → Run PauseResult
unfolding validate_pause_plan snapshot refuse_pause classify_read_error execute_pause_from text
execute_pause_checked service id i p = elim (validate_pause_plan p i) [
  | some _ ↦
      refuse_pause zero_pause_data service id i (Category.usage, false)
        (i.operation ++ text " plan does not match the request") (some plain) []
  | none ↦ do
    answer ← snapshot service i.target
    elim answer [
      | err e ↦
          refuse_pause zero_pause_data service id i (classify_read_error (some e))
            (i.operation ++ text " execution snapshot failed") (some e) []
      | ok s ↦ execute_pause_from service id i p s
    ]
]

unfoldable pub execute_pause :
    Service → Bool → PauseIntent × Option PauseRequestError → Plan → Run PauseResult
unfolding refuse_pause execute_pause_checked trim_space text
execute_pause service context_given (i, request_error) p = do
  id ← or_new_id service (trim_space p.operation_id)
  elim context_given [
    | false ↦
        refuse_pause zero_pause_data service id i (Category.usage, false)
          (i.operation ++ text " requires a context") none []
    | true ↦ elim request_error [
      | some _ ↦
          refuse_pause zero_pause_data service id i (Category.usage, false)
            (i.operation ++ text " request is invalid") (some plain) []
      | none ↦ execute_pause_checked service id i p
    ]
  ]

-- `ExecutePause` for `true`, `ExecuteResume` for `false`.
unfoldable pub execute_pause_or_resume :
    Service → Bool → Bool → PauseRequest → Plan → Run PauseResult
unfolding normalize_pause_request execute_pause
execute_pause_or_resume service desired context_given request p =
    execute_pause service context_given
      (normalize_pause_request (pause_word desired) desired request) p
