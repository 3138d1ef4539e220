-- ===== src/Control/Restart/Contract.antt =====
-- The plan of a restart and its check, `restartPreconditions` and `validateRestartPlan` of
-- control/restart.go.
pub mod Laws
use go_patroni.Base.{
  Bool, true, ◌&&◌, ◌||◌, Option, none, some, List, [], ◌∷◌, ◌++◌, if◌then◌else◌, is_some, not, ℤ,
  pos, length,
}
use go_patroni.Texts.{Text, text, text_eq, join}
use go_patroni.Texts.Decimal.{itoa, format_bool}
use go_patroni.Target.{Target, normalize, cluster_id}
use go_patroni.Dcs.Snapshots.{Snapshot}
use go_patroni.Control.Types.{
  Time, Category, Route, Risk, RetrySafety, EvidenceSource, Precondition, Plan, Cause, Evidence,
  OperationResult,
}
use go_patroni.Control.Plans.{PlanError, validate_plan, expected_precondition, matches}
use go_patroni.Control.Platform.{Platform, rfc3339_nano}
use go_patroni.Control.Service.{Service, Run, operation_id}
use go_patroni.Control.Reports.{failed_read}
use go_patroni.Control.Groups.{snapshot_group_ids}
use go_patroni.Control.Transition.Contract.{
  condition, comma, is_rest, is_availability, is_unsafe_after_send,
}
use go_patroni.Control.Writes.Members.{role_text, normalized_write_role, member_names_from_targets}
use go_patroni.Control.Reload.Contract.{first_revision}
use go_patroni.Control.Restart.{RestartRequest, RestartIntent}

abbrev restart_schedule : Platform → Option Time → Text
restart_schedule os none = []
restart_schedule os (some at) = os.format_time rfc3339_nano at

-- All of `restartPreconditions` but the first.
unfoldable pub restart_conditions : Platform → RestartRequest → List Text → Text → List Precondition
unfolding text role_text normalized_write_role
restart_conditions os request members groups =
    condition (text "selector.role") (role_text (normalized_write_role request.role))
      EvidenceSource.control
    ∷ condition (text "selector.members") (join comma members) EvidenceSource.control
    ∷ condition (text "selector.citus") (format_bool request.citus) EvidenceSource.control
    ∷ condition (text "citus.groups") groups EvidenceSource.dcs
    ∷ condition (text "restart.any") (format_bool request.any_member) EvidenceSource.control
    ∷ condition (text "restart.schedule") (restart_schedule os request.scheduled_at)
        EvidenceSource.control
    ∷ condition (text "restart.postgresVersion") request.postgres_version EvidenceSource.control
    ∷ condition (text "restart.pending") (format_bool request.pending) EvidenceSource.control
    ∷ condition (text "restart.timeout") request.timeout EvidenceSource.control
    ∷ condition (text "restart.force") (format_bool request.force) EvidenceSource.control
    ∷ []

-- `restartPreconditions`
unfoldable pub restart_preconditions :
    Platform → ℤ → RestartRequest → List Text → Text → List Precondition
unfolding text itoa restart_conditions
restart_preconditions os revision request members groups =
    condition (text "dcs.revision") (itoa revision) EvidenceSource.dcs
    ∷ restart_conditions os request members groups

unfoldable pub restart_plan :
    Platform → Text → RestartRequest → RestartIntent → List Snapshot → List Target → Plan
unfolding restart_preconditions text member_names_from_targets itoa snapshot_group_ids
restart_plan os id request i ss targets = record {
  operation_id = id;
  operation = text "restart";
  target = i.target;
  targets = targets;
  path = Route.rest;
  risk = Risk.availability;
  retry_safety = RetrySafety.unsafe_after_send;
  summary =
      text "restart "
      ++ (itoa (pos (length targets))
          ++ (text " selected member(s): "
              ++ join (text ", ") (member_names_from_targets targets)));
  preconditions =
      restart_preconditions os (first_revision ss) request i.members (snapshot_group_ids ss);
}

pub data RestartPlanError : Type 0 where
  invalid : PlanError → RestartPlanError
  other_operation other_cluster other_request : RestartPlanError

unfoldable pub is_restart_plan : Plan → Bool
unfolding text_eq text
is_restart_plan p =
    text_eq p.operation (text "restart")
    && (is_rest p.path && (is_availability p.risk && is_unsafe_after_send p.retry_safety))

-- The plan has each condition; the value of the Citus groups is not compared.
unfoldable pub same_conditions : Plan → List Precondition → Bool
unfolding text_eq text
same_conditions p [] = true
same_conditions p (c ∷ cs) =
    is_some (expected_precondition p c.field)
    && (text_eq c.field (text "citus.groups")
        || matches (expected_precondition p c.field) c.expected)
    && same_conditions p cs

-- `validateRestartPlan`
unfoldable pub validate_restart_plan :
    Platform → Plan → Target → RestartRequest → List Text → Option RestartPlanError
unfolding validate_plan cluster_id normalize is_restart_plan same_conditions restart_conditions
validate_restart_plan os p target request members = elim (validate_plan p) [
  | some e ↦ some (invalid e)
  | none ↦
      if not (is_restart_plan p)
      then some other_operation
      else if not (text_eq (cluster_id (normalize p.target)) (cluster_id (normalize target)))
      then some other_cluster
      else if not (same_conditions p (restart_conditions os request members []))
      then some other_request
      else none
]

-- `failedRead` of a restart.
unfoldable pub refuse_restart :
    {T : Type 0}
    → T
    → Service
    → Text
    → Target
    → Category × Bool
    → Text
    → Option Cause
    → List Evidence
    → Run (OperationResult T)
unfolding failed_read text
refuse_restart zero_value service id target (category, retryable) message cause evidence =
    failed_read zero_value service id (text "restart") target Route.rest category retryable message
      cause evidence
