-- ===== src/Control/Transition/Contract.antt =====
-- The plan of a transition and its two checks before execution, control/failover.go.
pub mod Laws
use go_patroni.Base.{
  Bool, true, false, ◌||◌, Option, none, some, List, [], ◌∷◌, if◌then◌else◌, not, all, ℤ,
}
use go_patroni.Texts.{Text, text, text_eq, join}
use go_patroni.Texts.Decimal.{itoa, format_bool}
use go_patroni.Target.{normalize, cluster_id}
use go_patroni.Dcs.Snapshots.{Snapshot}
use go_patroni.Control.Types.{
  Route, Risk, RetrySafety, EvidenceSource, Precondition, Plan, route_text, SendState, Verification,
}
use go_patroni.Control.Plans.{PlanError, validate_plan, expected_precondition, matches}
use go_patroni.Control.Platform.{Platform}
use go_patroni.Control.Transition.Intents.{
  Intent, ClusterWriteData, transition_schedule, is_switchover,
}
use go_patroni.Control.Transition.Selections.{Selection, transition_summary}

abbrev pub condition : Text → Text → EvidenceSource → Precondition
condition field expected source = record { field = field; expected = expected; source = source }

abbrev pub comma : Text
comma = b',' ∷ []

unfoldable pub transition_preconditions : Platform → ℤ → Intent → Selection → List Precondition
unfolding text route_text transition_schedule
transition_preconditions os revision i sel =
    condition (text "dcs.revision") (itoa revision) EvidenceSource.dcs
    ∷ condition (text "leader.name") sel.leader EvidenceSource.dcs
    ∷ condition (text "candidate.name") i.candidate EvidenceSource.control
    ∷ condition (text "candidate.options") (join comma sel.candidate_names) EvidenceSource.dcs
    ∷ condition (text "candidate.syncEligible") (format_bool sel.sync_eligible) EvidenceSource.dcs
    ∷ condition (text "cluster.paused") (format_bool sel.paused) EvidenceSource.dcs
    ∷ condition (text "failover.modRevision") (itoa sel.failover_version) EvidenceSource.dcs
    ∷ condition (text "request.leader") i.leader EvidenceSource.control
    ∷ condition (text "request.schedule") (transition_schedule os i) EvidenceSource.control
    ∷ condition (text "request.force") (format_bool i.force) EvidenceSource.control
    ∷ condition (text "request.citus") (format_bool i.citus) EvidenceSource.control
    ∷ condition (text "fallback.path") (route_text Route.rest_to_dcs) EvidenceSource.control
    ∷ []

-- The plan that `prepareTransition` builds.
unfoldable pub transition_plan : Platform → Text → Snapshot → Intent → Selection → Plan
unfolding transition_preconditions transition_summary
transition_plan os operation_id s i sel = record {
  operation_id = operation_id;
  operation = i.operation;
  target = i.target;
  targets = [];
  path = Route.rest;
  risk = Risk.availability;
  retry_safety = RetrySafety.unsafe_after_send;
  summary = transition_summary os i sel;
  preconditions = transition_preconditions os s.revision i sel;
}

-- The loops over the maps of expected fields: any order, since every mismatch is the same error.
unfoldable pub all_match : Plan → List (Text × Text) → Bool
unfolding all
all_match p expected = all (λ entry. matches (expected_precondition p entry.0) entry.1) expected

unfoldable pub request_fields : Platform → Intent → List (Text × Text)
unfolding text route_text transition_schedule
request_fields os i =
    (text "candidate.name", i.candidate)
    ∷ (text "request.leader", i.leader)
    ∷ (text "request.schedule", transition_schedule os i)
    ∷ (text "request.force", format_bool i.force)
    ∷ (text "request.citus", format_bool i.citus)
    ∷ (text "fallback.path", route_text Route.rest_to_dcs)
    ∷ []

unfoldable pub cluster_fields : Selection → List (Text × Text)
unfolding text
cluster_fields sel =
    (text "leader.name", sel.leader)
    ∷ (text "candidate.options", join comma sel.candidate_names)
    ∷ (text "candidate.syncEligible", format_bool sel.sync_eligible)
    ∷ (text "cluster.paused", format_bool sel.paused)
    ∷ (text "failover.modRevision", itoa sel.failover_version)
    ∷ []

abbrev pub is_rest : Route → Bool
is_rest Route.rest = true
is_rest _ = false

abbrev pub is_availability : Risk → Bool
is_availability Risk.availability = true
is_availability _ = false

abbrev pub is_unsafe_after_send : RetrySafety → Bool
is_unsafe_after_send RetrySafety.unsafe_after_send = true
is_unsafe_after_send _ = false

pub data ContractError : Type 0 where
  invalid : PlanError → ContractError
  other_operation other_cluster other_request : ContractError

unfoldable pub validate_transition_plan : Platform → Plan → Intent → Option ContractError
unfolding all_match request_fields
validate_transition_plan os p i = elim (validate_plan p) [
  | some e ↦ some (invalid e)
  | none ↦
      if not (text_eq p.operation i.operation)
        || (not (is_rest p.path)
            || (not (is_availability p.risk) || not (is_unsafe_after_send p.retry_safety)))
      then some other_operation
      else if not (text_eq (cluster_id (normalize p.target)) (cluster_id i.target))
      then some other_cluster
      else if not (all_match p (request_fields os i))
      then some other_request
      else none
]

-- `err == nil` of `revalidateTransitionPlan`
unfoldable pub revalidate_transition_plan : Plan → Selection → Bool
unfolding all_match cluster_fields
revalidate_transition_plan p sel = all_match p (cluster_fields sel)

unfoldable pub transition_data : Platform → Intent → Selection → ClusterWriteData
unfolding transition_schedule is_switchover
transition_data os i sel = record {
  leader = if is_switchover i then sel.leader else [];
  candidate = i.candidate;
  scheduled_at = transition_schedule os i;
  rest_send_state = SendState.not_sent;
  dcs_send_state = SendState.unset;
  verification = Verification.unverified;
  http_status = ℤ.pos 0;
  dcs_revision = ℤ.pos 0;
  legacy_endpoint = false;
}
