-- ===== src/Control/Restart/Preparation.antt =====
-- `PrepareRestart` of control/restart.go.
use go_patroni.Base.{
  Bool, true, false, ◌&&◌, Option, none, some, List, [], ◌∷◌, ◌++◌, if◌then◌else◌, is_empty,
  is_some, not, ℤ, pos, negsuc, length, ℕ, zero, suc,
}
use go_patroni.Base.Result.{Result, ok, err}
use go_patroni.Texts.{Text, text}
use go_patroni.Target.{Target, normalize}
use go_patroni.Dcs.Snapshots.{Member, Snapshot}
use go_patroni.Control.Types.{
  Category, Outcome, Route, Plan, Cause, plain, Evidence, OperationResult,
}
use go_patroni.Control.Plans.{validate_plan}
use go_patroni.Control.Platform.{Platform}
use go_patroni.Control.Service.{◌>>=◌, Service, Run, pure, call, Call, operation_id}
use go_patroni.Control.Reports.{snapshot_evidence}
use go_patroni.Control.Groups.{GroupRead, operation_snapshots}
use go_patroni.Control.Transition.Selections.{is_paused}
use go_patroni.Control.Transition.Preparation.{zero_plan}
use go_patroni.Control.Writes.Members.{normalized_write_role, select_members, member_targets}
use go_patroni.Control.Restart.{
  RestartRequest, RestartIntent, normalize_restart_request, pending_restart_members, pending_now,
}
use go_patroni.Control.Restart.Contract.{restart_plan, refuse_restart}

abbrev ask_pending : RestartRequest → List Member → List Member
ask_pending request members =
    if pending_now request then pending_restart_members members else members

-- The members that the snapshots select, or the first snapshot of a paused cluster, where a restart
-- cannot be scheduled.
unfoldable pub restart_targets :
    Platform → RestartRequest → List Text → List Snapshot → Result Snapshot (List Target)
unfolding member_targets select_members normalize is_paused pending_restart_members
    normalized_write_role
restart_targets os request requested [] = ok []
restart_targets os request requested (s ∷ ss) =
    elim (is_some request.scheduled_at && is_paused s.cluster) [
      | true ↦ err s
      | false ↦ elim (restart_targets os request requested ss) [
        | err paused ↦ err paused
        | ok targets ↦ ok (
            member_targets (normalize s.target) (
              ask_pending request
                (select_members os s.cluster (normalized_write_role request.role) requested true))
            ++ targets)
      ]
    ]

-- `selected[index]`, and no target for an index out of range.
unfoldable pub target_at : List Target → ℕ → Option Target
target_at [] n = none
target_at (x ∷ xs) zero = some x
target_at (x ∷ xs) (suc n) = target_at xs n

abbrev pub chosen_target : List Target → ℤ × Option Cause → Option Target
chosen_target targets (index, some cause) = none
chosen_target targets (pos n, none) = target_at targets n
chosen_target targets (negsuc n, none) = none

unfoldable pub prepare_restart_with :
    Service
    → Text
    → RestartRequest
    → RestartIntent
    → List Snapshot
    → List Evidence
    → List Target
    → Run (OperationResult Plan)
unfolding restart_plan validate_plan refuse_restart text
prepare_restart_with service id request i ss evidence targets = elim (is_empty targets) [
  | true ↦
      refuse_restart zero_plan service id i.target (Category.not_found, false)
        (text "restart found no matching members") none evidence
  | false ↦ elim (validate_plan (restart_plan service.os id request i ss targets)) [
    | some _ ↦
        refuse_restart zero_plan service id i.target (Category.internal, false)
          (text "restart plan construction failed") (some plain) evidence
    | none ↦ pure (record {
      operation_id = id;
      outcome = Outcome.succeeded;
      target = i.target;
      path = Route.rest;
      payload = restart_plan service.os id request i ss targets;
      evidence = evidence;
      error = none;
    })
  ]
]

-- `request.Any`: one of the selected members at random.
unfoldable pub prepare_restart_any :
    Service
    → Text
    → RestartRequest
    → RestartIntent
    → List Snapshot
    → List Evidence
    → List Target
    → Run (OperationResult Plan)
unfolding prepare_restart_with refuse_restart call target_at text
prepare_restart_any service id request i ss evidence targets =
    elim (request.any_member && not (is_empty targets)) [
      | false ↦ prepare_restart_with service id request i ss evidence targets
      | true ↦ do
        let n = length targets
        answer ← call (Call.random_index n) (λ t. service.on_random_index t n)
        elim (chosen_target targets answer) [
          | none ↦
              refuse_restart zero_plan service id i.target (Category.internal, false)
                (text "restart random member selection failed") answer.1 evidence
          | some target ↦ prepare_restart_with service id request i ss evidence (target ∷ [])
        ]
    ]

unfoldable pub prepare_restart_from :
    Service → Text → RestartRequest → RestartIntent → GroupRead → Run (OperationResult Plan)
unfolding refuse_restart prepare_restart_any restart_targets snapshot_evidence text
prepare_restart_from service id request i (GroupRead.failed evidence f) =
    refuse_restart zero_plan service id i.target (f.category, f.retryable) f.message f.cause
      evidence
prepare_restart_from service id request i (GroupRead.read ss evidence) =
    elim (restart_targets service.os request i.members ss) [
      | ok targets ↦ prepare_restart_any service id request i ss evidence targets
      | err s ↦ do
        e ← snapshot_evidence service s (text "paused cluster state observed")
        refuse_restart zero_plan service id i.target (Category.conflict, false)
            (text "cannot schedule restart while the cluster is paused") none (evidence ++ e ∷ [])
    ]

-- `PrepareRestart`; the context is `none` where the caller passes nil.
unfoldable pub prepare_restart : Service → Bool → RestartRequest → Run (OperationResult Plan)
unfolding operation_id normalize_restart_request refuse_restart operation_snapshots
    prepare_restart_from text
prepare_restart service context_given request = do
  id ← operation_id service
  let i = normalize_restart_request service.os request
  elim context_given [
    | false ↦
        refuse_restart zero_plan service id i.target (Category.usage, false)
          (text "restart requires a context") none []
    | true ↦ elim i.error [
      | some _ ↦
          refuse_restart zero_plan service id i.target (Category.usage, false)
            (text "restart request is invalid") (some plain) []
      | none ↦ do
        answer ← operation_snapshots service (text "restart") i.target request.citus false
        prepare_restart_from service id request i answer
    ]
  ]
