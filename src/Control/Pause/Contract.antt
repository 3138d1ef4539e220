-- ===== src/Control/Pause/Contract.antt =====
-- The plan of a pause and `validatePausePlan` of control/pause.go.
pub mod Laws
use go_patroni.Base.{◌||◌, Option, none, some, List, [], ◌∷◌, ◌++◌, if◌then◌else◌, not, is_empty}
use go_patroni.Texts.{Text, text, text_eq, join}
use go_patroni.Texts.Decimal.{itoa, format_bool}
use go_patroni.Target.{Target, normalize, cluster_id}
use go_patroni.Dcs.Snapshots.{Snapshot}
use go_patroni.Control.Types.{Route, Risk, RetrySafety, EvidenceSource, Precondition, Plan}
use go_patroni.Control.Plans.{PlanError, validate_plan}
use go_patroni.Control.Transition.Selections.{is_paused}
use go_patroni.Control.Transition.Contract.{
  condition, comma, all_match, is_rest, is_availability, is_unsafe_after_send,
}
use go_patroni.Control.Writes.Members.{member_names_from_targets}
use go_patroni.Control.Pause.{PauseIntent}

unfoldable pub pause_preconditions : Snapshot → PauseIntent → List Target → List Precondition
unfolding text is_paused member_names_from_targets
pause_preconditions s i targets =
    condition (text "dcs.revision") (itoa s.revision) EvidenceSource.dcs
    ∷ condition (text "pause.current") (format_bool (is_paused s.cluster)) EvidenceSource.dcs
    ∷ condition (text "pause.desired") (format_bool i.desired) EvidenceSource.control
    ∷ condition (text "request.wait") (format_bool i.wait) EvidenceSource.control
    ∷ condition (text "request.citus") (format_bool i.citus) EvidenceSource.control
    ∷ condition (text "rest.members") (join comma (member_names_from_targets targets))
        EvidenceSource.dcs
    ∷ []

-- The plan that `preparePause` builds.
unfoldable pub pause_plan : Text → Snapshot → PauseIntent → List Target → Plan
unfolding pause_preconditions text
pause_plan id s i targets = record {
  operation_id = id;
  operation = i.operation;
  target = i.target;
  targets = targets;
  path = Route.rest;
  risk = Risk.availability;
  retry_safety = RetrySafety.unsafe_after_send;
  summary =
      i.operation
      ++ (text " cluster management through leader-first members: "
          ++ join (text ", ") (member_names_from_targets targets));
  preconditions = pause_preconditions s i targets;
}

-- The map of expected fields; the order of its loop does not matter.
unfoldable pub pause_fields : Plan → PauseIntent → List (Text × Text)
unfolding text member_names_from_targets
pause_fields p i =
    (text "pause.desired", format_bool i.desired)
    ∷ (text "request.wait", format_bool i.wait)
    ∷ (text "request.citus", format_bool i.citus)
    ∷ (text "rest.members", join comma (member_names_from_targets p.targets))
    ∷ []

pub data PausePlanError : Type 0 where
  invalid : PlanError → PausePlanError
  other_operation other_cluster other_request no_targets : PausePlanError

unfoldable pub validate_pause_plan : Plan → PauseIntent → Option PausePlanError
unfolding all_match pause_fields
validate_pause_plan p i = elim (validate_plan p) [
  | some e ↦ some (invalid e)
  | none ↦
      if not (text_eq p.operation i.operation)
        || (not (is_rest p.path)
            || (not (is_availability p.risk) || not (is_unsafe_after_send p.retry_safety)))
      then some other_operation
      else if not (text_eq (cluster_id (normalize p.target)) (cluster_id i.target))
      then some other_cluster
      else if not (all_match p (pause_fields p i))
      then some other_request
      else if is_empty p.targets
      then some no_targets
      else none
]
