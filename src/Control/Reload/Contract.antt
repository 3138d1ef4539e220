-- ===== src/Control/Reload/Contract.antt =====
-- The plan of a reload, `PrepareReload` and `validateReloadPlan` of control/reload.go.
pub mod Laws
use go_patroni.Base.{
  Bool, true, false, ◌&&◌, Option, none, some, List, [], ◌∷◌, ◌++◌, if◌then◌else◌, is_empty,
  is_some, not, ℤ, pos, length,
}
use go_patroni.Texts.{Text, text, text_eq, join}
use go_patroni.Texts.Decimal.{itoa, format_bool}
use go_patroni.Target.{Target, normalize, cluster_id}
use go_patroni.Dcs.Values.{Fields}
use go_patroni.Dcs.Snapshots.{Snapshot}
use go_patroni.Control.Types.{
  Category, Outcome, Route, Risk, RetrySafety, EvidenceSource, Precondition, Plan, Cause, plain,
  Evidence, OperationResult,
}
use go_patroni.Control.Plans.{PlanError, validate_plan, expected_precondition, matches}
use go_patroni.Control.Platform.{Platform}
use go_patroni.Control.Service.{◌>>=◌, Service, Run, pure, operation_id}
use go_patroni.Control.Reports.{failed_read}
use go_patroni.Control.Groups.{GroupRead, operation_snapshots, snapshot_group_ids}
use go_patroni.Control.Transition.Contract.{condition, comma, is_rest, is_unsafe_after_send}
use go_patroni.Control.Transition.Preparation.{zero_plan}
use go_patroni.Control.Writes.Members.{
  Role, role_text, normalized_write_role, member_names_from_targets,
}
use go_patroni.Control.Reload.{
  ReloadRequest, ReloadIntent, normalize_reload_request, cluster_loop_wait, reload_targets,
}

-- `snapshots[0]` is the first of the snapshots, of which there is at least one.
abbrev pub first_revision : List Snapshot → ℤ
first_revision [] = pos 0
first_revision (s ∷ ss) = s.revision

abbrev first_config : List Snapshot → Fields
first_config [] = Fields.end
first_config (s ∷ ss) = s.cluster.config

unfoldable pub reload_preconditions :
    Platform → List Snapshot → ReloadRequest → List Text → List Precondition
unfolding text itoa role_text normalized_write_role snapshot_group_ids cluster_loop_wait
reload_preconditions os ss request members =
    condition (text "dcs.revision") (itoa (first_revision ss)) EvidenceSource.dcs
    ∷ condition (text "selector.role") (role_text (normalized_write_role request.role))
        EvidenceSource.control
    ∷ condition (text "selector.members") (join comma members) EvidenceSource.control
    ∷ condition (text "selector.citus") (format_bool request.citus) EvidenceSource.control
    ∷ condition (text "citus.groups") (snapshot_group_ids ss) EvidenceSource.dcs
    ∷ condition (text "cluster.loopWait") (itoa (cluster_loop_wait os (first_config ss)))
        EvidenceSource.dcs
    ∷ []

unfoldable pub reload_plan :
    Platform → Text → ReloadRequest → ReloadIntent → List Snapshot → List Target → Plan
unfolding reload_preconditions text member_names_from_targets itoa
reload_plan os id request i ss targets = record {
  operation_id = id;
  operation = text "reload";
  target = i.target;
  targets = targets;
  path = Route.rest;
  risk = Risk.admin_write;
  retry_safety = RetrySafety.unsafe_after_send;
  summary =
      text "reload "
      ++ (itoa (pos (length targets))
          ++ (text " selected member(s): "
              ++ join (text ", ") (member_names_from_targets targets)));
  preconditions = reload_preconditions os ss request i.members;
}

abbrev pub is_admin_write : Risk → Bool
is_admin_write Risk.admin_write = true
is_admin_write _ = false

pub data ReloadPlanError : Type 0 where
  invalid : PlanError → ReloadPlanError
  other_operation other_cluster other_selectors : ReloadPlanError

-- The operation, path, risk and retry safety of a reload.
unfoldable pub is_reload_plan : Plan → Bool
unfolding text_eq text
is_reload_plan p =
    text_eq p.operation (text "reload")
    && (is_rest p.path && (is_admin_write p.risk && is_unsafe_after_send p.retry_safety))

unfoldable pub same_selectors : Plan → Role → List Text → Bool → Bool
unfolding role_text join text
same_selectors p role members citus =
    is_some (expected_precondition p (text "citus.groups"))
    && (matches (expected_precondition p (text "selector.role")) (role_text role)
        && (matches (expected_precondition p (text "selector.members")) (join comma members)
            && matches (expected_precondition p (text "selector.citus")) (format_bool citus)))

-- `validateReloadPlan`
unfoldable pub validate_reload_plan :
    Plan → Target → Role → List Text → Bool → Option ReloadPlanError
unfolding validate_plan cluster_id normalize is_reload_plan same_selectors
validate_reload_plan p target role members citus = elim (validate_plan p) [
  | some e ↦ some (invalid e)
  | none ↦
      if not (is_reload_plan p)
      then some other_operation
      else if not (text_eq (cluster_id (normalize p.target)) (cluster_id (normalize target)))
      then some other_cluster
      else if not (same_selectors p role members citus)
      then some other_selectors
      else none
]

-- `failedRead` of a reload.
unfoldable pub refuse_reload :
    {T : Type 0}
    → T
    → Service
    → Text
    → Target
    → Category × Bool
    → Text
    → Option Cause
    → List Evidence
    → Run (OperationResult T)
unfolding failed_read text
refuse_reload zero_value service id target (category, retryable) message cause evidence =
    failed_read zero_value service id (text "reload") target Route.rest category retryable message
      cause evidence

unfoldable pub prepare_reload_with :
    Service
    → Text
    → ReloadRequest
    → ReloadIntent
    → List Snapshot
    → List Target
    → List Evidence
    → Run (OperationResult Plan)
unfolding reload_plan validate_plan refuse_reload text
prepare_reload_with service id request i ss targets evidence = elim (is_empty targets) [
  | true ↦
      refuse_reload zero_plan service id i.target (Category.not_found, false)
        (text "reload found no matching members") none evidence
  | false ↦ elim (validate_plan (reload_plan service.os id request i ss targets)) [
    | some _ ↦
        refuse_reload zero_plan service id i.target (Category.internal, false)
          (text "reload plan construction failed") (some plain) evidence
    | none ↦ pure (record {
      operation_id = id;
      outcome = Outcome.succeeded;
      target = i.target;
      path = Route.rest;
      payload = reload_plan service.os id request i ss targets;
      evidence = evidence;
      error = none;
    })
  ]
]

unfoldable pub prepare_reload_from :
    Service → Text → ReloadRequest → ReloadIntent → GroupRead → Run (OperationResult Plan)
unfolding refuse_reload prepare_reload_with reload_targets normalized_write_role
prepare_reload_from service id request i (GroupRead.failed evidence f) =
    refuse_reload zero_plan service id i.target (f.category, f.retryable) f.message f.cause evidence
prepare_reload_from service id request i (GroupRead.read ss evidence) =
    prepare_reload_with service id request i ss
      (reload_targets service.os (normalized_write_role request.role) i.members ss) evidence

-- `PrepareReload`; the context is `none` where the caller passes nil.
unfoldable pub prepare_reload : Service → Bool → ReloadRequest → Run (OperationResult Plan)
unfolding operation_id normalize_reload_request refuse_reload operation_snapshots
    prepare_reload_from text
prepare_reload service context_given request = do
  id ← operation_id service
  let i = normalize_reload_request request
  elim context_given [
    | false ↦
        refuse_reload zero_plan service id i.target (Category.usage, false)
          (text "reload requires a context") none []
    | true ↦ elim i.error [
      | some _ ↦
          refuse_reload zero_plan service id i.target (Category.usage, false)
            (text "reload request is invalid") (some plain) []
      | none ↦ do
        answer ← operation_snapshots service (text "reload") i.target request.citus false
        prepare_reload_from service id request i answer
    ]
  ]
