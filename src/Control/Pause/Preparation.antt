-- ===== src/Control/Pause/Preparation.antt =====
-- `preparePause` of control/pause.go, `PreparePause` and `PrepareResume`.
use go_patroni.Base.{Bool, true, false, Option, none, some, List, [], ◌∷◌, ◌++◌, is_empty}
use go_patroni.Base.Result.{ok, err}
use go_patroni.Texts.{Text, text}
use go_patroni.Target.{Target}
use go_patroni.Dcs.Snapshots.{Snapshot}
use go_patroni.Control.Types.{
  Category, Outcome, Route, Cause, plain, Evidence, Plan, OperationResult,
}
use go_patroni.Control.Errors.{classify_read_error}
use go_patroni.Control.Plans.{validate_plan}
use go_patroni.Control.Service.{◌>>=◌, Service, Run, pure, snapshot, operation_id}
use go_patroni.Control.Reports.{snapshot_evidence, failed_read, unsupported_version_result}
use go_patroni.Control.VersionGate.{check_snapshot_patroni_version}
use go_patroni.Control.Transition.Selections.{is_paused}
use go_patroni.Control.Transition.Preparation.{zero_plan}
use go_patroni.Control.Writes.Members.{leader_first_rest_members, member_targets}
use go_patroni.Control.Pause.{PauseRequest, PauseIntent, PauseRequestError, normalize_pause_request}
use go_patroni.Control.Pause.Contract.{pause_plan}
use go_patroni.Control.Pause.Readbacks.{same_bool}

-- `failedRead` for the intent, whose path is the REST API.
unfoldable pub refuse_pause :
    {T : Type 0}
    → T
    → Service
    → Text
    → PauseIntent
    → Category × Bool
    → Text
    → Option Cause
    → List Evidence
    → Run (OperationResult T)
unfolding failed_read
refuse_pause zero_value service id i (category, retryable) message cause evidence =
    failed_read zero_value service id i.operation i.target Route.rest category retryable message
      cause evidence

abbrev already : Bool → Text
already true = text "cluster is already paused"
already false = text "cluster is not paused"

-- The plan for the targets, when it is valid.
unfoldable pub prepare_pause_with :
    Service → Text → PauseIntent → Snapshot → List Target → Run (OperationResult Plan)
unfolding pause_plan validate_plan refuse_pause snapshot_evidence text
prepare_pause_with service id i s targets = elim (validate_plan (pause_plan id s i targets)) [
  | some _ ↦ do
    e ← snapshot_evidence service s (i.operation ++ text " member selection completed")
    refuse_pause zero_plan service id i (Category.internal, false)
        (i.operation ++ text " plan construction failed") (some plain) (e ∷ [])
  | none ↦ do
    e ← snapshot_evidence service s (i.operation ++ text " plan built from fresh cluster snapshot")
    pure (record {
      operation_id = id;
      outcome = Outcome.succeeded;
      target = i.target;
      path = Route.rest;
      payload = pause_plan id s i targets;
      evidence = e ∷ [];
      error = none;
    })
]

unfoldable pub prepare_pause_from :
    Service → Text → PauseIntent → Snapshot → Run (OperationResult Plan)
unfolding check_snapshot_patroni_version unsupported_version_result is_paused refuse_pause
    snapshot_evidence prepare_pause_with leader_first_rest_members member_targets text
prepare_pause_from service id i s = elim (check_snapshot_patroni_version service s false) [
  | some _ ↦ unsupported_version_result zero_plan service id i.operation i.target Route.rest s
  | none ↦ elim (same_bool (is_paused s.cluster) i.desired) [
    | true ↦ do
      e ← snapshot_evidence service s (i.operation ++ text " observed current cluster state")
      refuse_pause zero_plan service id i (Category.conflict, false) (already i.desired) none
          (e ∷ [])
    | false ↦ elim (is_empty (leader_first_rest_members s.cluster)) [
      | true ↦ do
        e ← snapshot_evidence service s (i.operation ++ text " member selection completed")
        refuse_pause zero_plan service id i (Category.not_found, false)
            (text "cannot find an accessible cluster member") none (e ∷ [])
      | false ↦
          prepare_pause_with service id i s
            (member_targets i.target (leader_first_rest_members s.cluster))
    ]
  ]
]

unfoldable pub prepare_pause_checked : Service → Text → PauseIntent → Run (OperationResult Plan)
unfolding snapshot refuse_pause classify_read_error prepare_pause_from text
prepare_pause_checked service id i = do
  answer ← snapshot service i.target
  elim answer [
    | err e ↦
        refuse_pause zero_plan service id i (classify_read_error (some e))
          (i.operation ++ text " cluster discovery failed") (some e) []
    | ok s ↦ prepare_pause_from service id i s
  ]

-- The context is `none` where the caller passes nil.
unfoldable pub prepare_pause :
    Service → Bool → PauseIntent × Option PauseRequestError → Run (OperationResult Plan)
unfolding operation_id refuse_pause prepare_pause_checked text
prepare_pause service context_given (i, request_error) = do
  id ← operation_id service
  elim context_given [
    | false ↦
        refuse_pause zero_plan service id i (Category.usage, false)
          (i.operation ++ text " requires a context") none []
    | true ↦ elim request_error [
      | some _ ↦
          refuse_pause zero_plan service id i (Category.usage, false)
            (i.operation ++ text " request is invalid") (some plain) []
      | none ↦ prepare_pause_checked service id i
    ]
  ]

-- `PreparePause` for `true`, `PrepareResume` for `false`.
abbrev pub pause_word : Bool → Text
pause_word true = text "pause"
pause_word false = text "resume"

unfoldable pub prepare_pause_or_resume :
    Service → Bool → Bool → PauseRequest → Run (OperationResult Plan)
unfolding normalize_pause_request prepare_pause text
prepare_pause_or_resume service desired context_given request =
    prepare_pause service context_given
      (normalize_pause_request (pause_word desired) desired request)
