-- ===== src/Control/Transition/Preparation.antt =====
-- `prepareTransition` of control/failover.go, `PrepareFailover` and `PrepareSwitchover`, and the
-- refusals that preparation and execution share.
use go_patroni.Base.{Bool, true, false, Option, none, some, List, [], ◌∷◌, ◌++◌}
use go_patroni.Base.Result.{ok, err}
use go_patroni.Texts.{Text, text}
use go_patroni.Dcs.Snapshots.{Snapshot}
use go_patroni.Control.Types.{
  Category, Outcome, Route, Risk, RetrySafety, Cause, plain, Evidence, Plan, OperationResult,
}
use go_patroni.Control.Errors.{classify_read_error}
use go_patroni.Control.Plans.{validate_plan}
use go_patroni.Control.Service.{
  patroni_version_range, Service, Run, ◌>>=◌, pure, snapshot, operation_id,
}
use go_patroni.Control.Reports.{snapshot_evidence, failed_read}
use go_patroni.Version.Range.{range_text}
use go_patroni.Control.VersionGate.{check_snapshot_patroni_version}
use go_patroni.Control.Transition.Intents.{
  Intent, RequestError, FailoverRequest, SwitchoverRequest, normalize_failover_request,
  normalize_switchover_request,
}
use go_patroni.Control.Transition.Selections.{Selection, resolve_transition}
use go_patroni.Control.Transition.Contract.{transition_plan}

-- The zero value of `Plan`.
abbrev pub zero_plan : Plan
zero_plan = record {
  operation_id = [];
  operation = [];
  target = record { context = []; namespace = []; scope = []; group = none; member = [] };
  targets = [];
  path = Route.other [];
  risk = Risk.other [];
  retry_safety = RetrySafety.other [];
  summary = [];
  preconditions = [];
}

-- A failure before any call of Patroni.
unfoldable pub refused :
    {T : Type 0}
    → T
    → Service
    → Text
    → Intent
    → Category × Bool
    → Text
    → Option Cause
    → List Evidence
    → Run (OperationResult T)
unfolding failed_read
refused zero_value service id i (category, retryable) message cause evidence =
    failed_read zero_value service id i.operation i.target Route.rest category retryable message
      cause evidence

-- `unsupportedVersionResult`
unfoldable pub unsupported_version :
    {T : Type 0} → T → Service → Text → Intent → Snapshot → Run (OperationResult T)
unfolding refused snapshot_evidence
unsupported_version zero_value service id i s = do
  e ← snapshot_evidence service s (text "Patroni compatibility range checked before operation")
  refused zero_value service id i (Category.unsupported, false)
      (i.operation ++ (text " requires Patroni " ++ range_text (patroni_version_range service)))
      (some plain) (e ∷ [])

-- The plan, when it is valid.
unfoldable pub prepare_with :
    Service → Text → Intent → Snapshot → Selection → Run (OperationResult Plan)
unfolding transition_plan validate_plan refused snapshot_evidence
prepare_with service id i s sel =
    let p = transition_plan service.os id s i sel in
    elim (validate_plan p) [
      | some _ ↦ do
        e ← snapshot_evidence service s (i.operation ++ text " target selection completed")
        refused zero_plan service id i (Category.internal, false)
            (i.operation ++ text " plan construction failed") (some plain) (e ∷ [])
      | none ↦ do
        e ←
            snapshot_evidence service s
              (i.operation ++ text " plan built from fresh cluster snapshot")
        pure (record {
          operation_id = id;
          outcome = Outcome.succeeded;
          target = i.target;
          path = Route.rest;
          payload = p;
          evidence = e ∷ [];
          error = none;
        })
    ]

unfoldable pub prepare_from : Service → Text → Intent → Snapshot → Run (OperationResult Plan)
unfolding check_snapshot_patroni_version unsupported_version resolve_transition refused prepare_with
    snapshot_evidence
prepare_from service id i s = elim (check_snapshot_patroni_version service s false) [
  | some _ ↦ unsupported_version zero_plan service id i s
  | none ↦ elim (resolve_transition service.os s i) [
    | err category ↦ do
      e ← snapshot_evidence service s (i.operation ++ text " target selection completed")
      refused zero_plan service id i (category, false)
          (i.operation ++ text " target selection failed") (some plain) (e ∷ [])
    | ok sel ↦ prepare_with service id i s sel
  ]
]

unfoldable pub prepare_checked : Service → Text → Intent → Run (OperationResult Plan)
unfolding snapshot prepare_from refused classify_read_error
prepare_checked service id i = do
  answer ← snapshot service i.target
  elim answer [
    | err e ↦
        refused zero_plan service id i (classify_read_error (some e))
          (i.operation ++ text " cluster discovery failed") (some e) []
    | ok s ↦ prepare_from service id i s
  ]

-- The context is `none` where the caller passes nil.
unfoldable pub prepare_transition :
    Service → Bool → Intent × Option RequestError → Run (OperationResult Plan)
unfolding operation_id refused prepare_checked
prepare_transition service context_given (i, request_error) = do
  id ← operation_id service
  elim context_given [
    | false ↦
        refused zero_plan service id i (Category.usage, false)
          (i.operation ++ text " requires a context") none []
    | true ↦ elim request_error [
      | some _ ↦
          refused zero_plan service id i (Category.usage, false)
            (i.operation ++ text " request is invalid") (some plain) []
      | none ↦ prepare_checked service id i
    ]
  ]

unfoldable pub prepare_failover : Service → Bool → FailoverRequest → Run (OperationResult Plan)
unfolding normalize_failover_request prepare_transition
prepare_failover service context_given request =
    prepare_transition service context_given (normalize_failover_request request)

unfoldable pub prepare_switchover : Service → Bool → SwitchoverRequest → Run (OperationResult Plan)
unfolding normalize_switchover_request prepare_transition
prepare_switchover service context_given request =
    prepare_transition service context_given (normalize_switchover_request request)
