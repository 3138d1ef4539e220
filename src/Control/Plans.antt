-- ===== src/Control/Plans.antt =====
-- control/plan.go: what makes a plan valid, and the preconditions that a plan carries
-- (`expectedPrecondition` of control/reload.go).
pub mod Laws
use go_patroni.Base.{
  Bool, true, false, ◌&&◌, ◌||◌, Option, none, some, List, [], ◌∷◌, if◌then◌else◌, is_empty, any,
  not,
}
use go_patroni.Texts.{Text, text, text_eq}
use go_patroni.Target.{Target, TargetError, normalize, validate, cluster_id, member_id}
use go_patroni.Control.Types.{Route, Risk, RetrySafety, EvidenceSource, Precondition, Plan}

abbrev pub route_valid : Route → Bool
route_valid (Route.other _) = false
route_valid _ = true

abbrev pub risk_valid : Risk → Bool
risk_valid (Risk.other _) = false
risk_valid _ = true

abbrev pub retry_safety_valid : RetrySafety → Bool
retry_safety_valid (RetrySafety.other _) = false
retry_safety_valid _ = true

-- The errors of `Plan.Validate`, without their wording.
pub data PlanError : Type 0 where
  incomplete bad_path bad_risk bad_retry_safety member_required : PlanError
  bad_target bad_member_target : TargetError → PlanError
  no_member other_cluster duplicate bad_precondition : PlanError

-- The operations whose plan for a whole Citus cluster may hold members of its groups.
unfoldable pub crosses_groups : Text → Bool
unfolding text text_eq any
crosses_groups operation = any (text_eq operation) (
    text "reload"
    ∷ text "restart"
    ∷ text "reinit"
    ∷ text "flush"
    ∷ text "demote-cluster"
    ∷ text "promote-cluster"
    ∷ [])

abbrev pub no_group : Target → Bool
no_group t = elim t.group [ none ↦ true | some _ ↦ false ]

-- Both targets are normalised.
unfoldable pub cross_group_batch : Text → Target → Target → Bool
unfolding crosses_groups
cross_group_batch operation plan_target t =
    crosses_groups operation
    && (no_group plan_target
        && (not (no_group t)
            && (text_eq t.context plan_target.context
                && (text_eq t.namespace plan_target.namespace
                    && text_eq t.scope plan_target.scope))))

abbrev bad_member : Option TargetError → Option PlanError
bad_member none = none
bad_member (some e) = some (bad_member_target e)

-- One round of the loop over the targets, with the member identities seen so far.
unfoldable pub check_target : Plan → List Text → Target → Option PlanError
unfolding cross_group_batch any
check_target p seen t = elim (validate t true) [
  | some e ↦ some (bad_member_target e)
  | none ↦
      if is_empty t.member
      then some no_member
      else if not (text_eq (cluster_id t) (cluster_id (normalize p.target)))
          && not (cross_group_batch p.operation (normalize p.target) t)
      then some other_cluster
      else if any (text_eq (member_id t)) seen
      then some duplicate
      else none
]

unfoldable pub check_targets : Plan → List Text → List Target → Option PlanError
unfolding check_target
check_targets p seen [] = none
check_targets p seen (t ∷ ts) = elim (check_target p seen (normalize t)) [
  | some e ↦ some e
  | none ↦ check_targets p (member_id (normalize t) ∷ seen) ts
]

abbrev pub source_unset : EvidenceSource → Bool
source_unset EvidenceSource.unset = true
source_unset _ = false

unfoldable pub precondition_incomplete : Precondition → Bool
precondition_incomplete c = is_empty c.field || source_unset c.source

abbrev pub check_preconditions : List Precondition → Option PlanError
check_preconditions conditions =
    if any precondition_incomplete conditions then some bad_precondition else none

abbrev after : Option PlanError → Option PlanError → Option PlanError
after none later = later
after (some e) later = some e

-- `plan.Operation == "restart" || plan.Operation == "reload"`
unfoldable pub requires_member : Text → Bool
requires_member operation = text_eq operation (text "restart") || text_eq operation (text "reload")

abbrev bad_plan_target : Option TargetError → Option PlanError
bad_plan_target none = none
bad_plan_target (some e) = some (bad_target e)

unfoldable pub validate_plan : Plan → Option PlanError
unfolding check_targets
validate_plan p =
    if is_empty p.operation_id || (is_empty p.operation || is_empty p.summary)
    then some incomplete
    else if not (route_valid p.path)
    then some bad_path
    else if not (risk_valid p.risk)
    then some bad_risk
    else if not (retry_safety_valid p.retry_safety)
    then some bad_retry_safety
    else after (bad_plan_target (validate p.target true)) (
        if requires_member p.operation && (is_empty p.target.member && is_empty p.targets)
        then some member_required
        else after (check_targets p [] p.targets) (check_preconditions p.preconditions))

-- The first precondition with the field.
unfoldable pub expected_in : List Precondition → Text → Option Text
expected_in [] field = none
expected_in (c ∷ cs) field = elim (text_eq c.field field) [
  | true ↦ some c.expected
  | false ↦ expected_in cs field
]

abbrev pub expected_precondition : Plan → Text → Option Text
expected_precondition p field = expected_in p.preconditions field

-- `ok && observed == value`, the test on one planned field.
abbrev pub matches : Option Text → Text → Bool
matches none value = false
matches (some observed) value = text_eq observed value
