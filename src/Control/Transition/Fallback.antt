-- ===== src/Control/Transition/Fallback.antt =====
-- The checks of the DCS fallback of control/failover.go, its payload, and the reading back of its
-- effect.
pub mod Laws
use go_patroni.Base.{
  ℕ, zero, suc, Bool, true, false, ◌&&◌, ◌||◌, Option, none, some, List, [], ◌∷◌, ◌++◌,
  if◌then◌else◌, is_empty, not, any, keep, is_some, ℤ, pos, eqb_ℤ,
}
use go_patroni.Base.Result.{Result, ok, err}
use go_patroni.Texts.{Text, text, text_eq, join}
use go_patroni.Texts.Order.{sort_by}
use go_patroni.Texts.Decimal.{itoa}
use go_patroni.Dcs.Snapshots.{Failover, ClusterState}
use go_patroni.Control.Types.{
  SendState, EvidenceSource, Delivery, DcsError, Time, Cause, Evidence, Route, route_text,
}
use go_patroni.Control.Platform.{Platform, rfc3339_nano}
use go_patroni.Control.Service.{Service, Run, ◌>>=◌, pure, WriteResult, snapshot, wait_interval}
use go_patroni.Control.Reports.{observe}
use go_patroni.Control.Transition.Intents.{Intent, transition_schedule, is_switchover}
use go_patroni.Control.Transition.Selections.{Selection, leader_name, is_option, is_paused, names}
use go_patroni.Control.Transition.Contract.{comma}

pub data FallbackError : Type 0 where
  leader_changed became_paused candidate_gone options_changed : FallbackError

unfoldable pub option_names : ClusterState → Text → List Text
unfolding keep is_option sort_by
option_names c leader = sort_by (λ name. name) (names (keep (is_option leader) c.members))

unfoldable pub validate_fallback_transition :
    ClusterState → Intent → Selection → Option FallbackError
unfolding is_paused is_option any option_names join
validate_fallback_transition c i planned =
    let leader = leader_name c.leader in
    if not (text_eq leader planned.leader)
    then some leader_changed
    else if is_some i.scheduled_at && is_paused c
    then some became_paused
    else if not (is_empty i.candidate)
    then (if any (λ m. text_eq m.name i.candidate && is_option leader m) c.members
        then none
        else some candidate_gone)
    else if not (text_eq (join comma (option_names c leader)) (join comma planned.candidate_names))
    then some options_changed
    else none

abbrev field_if : Bool → Text → Text → List (Text × Text)
field_if true key value = (key, value) ∷ []
field_if false key value = []

unfoldable pub transition_dcs_fields : Platform → Intent → Selection → List (Text × Text)
unfolding transition_schedule is_switchover text
transition_dcs_fields os i planned =
    field_if (is_switchover i && not (is_empty planned.leader)) (text "leader") planned.leader
    ++ (field_if (not (is_empty i.candidate)) (text "member") i.candidate
        ++ field_if (not (is_empty (transition_schedule os i))) (text "scheduled_at")
            (transition_schedule os i))

unfoldable pub transition_dcs_payload : Platform → Intent → Selection → Result Cause Text
unfolding transition_dcs_fields
transition_dcs_payload os i planned = os.marshal (transition_dcs_fields os i planned)

abbrev pub has_conflict : Option Cause → Bool
has_conflict none = false
has_conflict (some cause) = is_some cause.conflict

abbrev untyped_state : Cause → SendState
untyped_state cause = if is_some cause.conflict then SendState.not_sent else SendState.maybe_sent

typed_state : Cause → Option DcsError → SendState
typed_state cause none = untyped_state cause
typed_state cause (some d) = elim d.delivery [
  | Delivery.not_sent ↦ SendState.not_sent
  | Delivery.maybe_sent ↦ SendState.maybe_sent
  | Delivery.response_received ↦ SendState.accepted
  | Delivery.unknown ↦ untyped_state cause
  | Delivery.other _ ↦ untyped_state cause
]

-- A nil error has nothing in its chain.
unfoldable pub dcs_send_state : Option Cause → Bool → SendState
unfolding typed_state
dcs_send_state none applied = if applied then SendState.accepted else SendState.maybe_sent
dcs_send_state (some cause) applied = typed_state cause cause.dcs

unfoldable pub transition_dcs_write_summary : WriteResult → Option Cause → Text
transition_dcs_write_summary result error =
    if not (is_some error) && result.applied
    then text "DCS failover fallback CAS was applied"
    else if has_conflict error
    then text "DCS failover fallback CAS conflicted"
    else text "DCS failover fallback ended without a verified apply"

unfoldable pub transition_leader_completed : ClusterState → Intent → Text → Bool
unfolding is_switchover
transition_leader_completed c i planned_leader =
    let leader = leader_name c.leader in
    if not (is_some i.scheduled_at)
    then (if not (is_empty i.candidate) && text_eq leader i.candidate
        then true
        else is_switchover i
          && (is_empty i.candidate
              && (not (is_empty leader) && not (text_eq leader planned_leader))))
    else false

abbrev same_instant : Option Time → Option Time → Bool
same_instant (some a) (some b) = eqb_ℤ a.instant b.instant
same_instant _ _ = false

unfoldable pub schedule_matches : Platform → Text → Text → Bool
schedule_matches os expected observed =
    if is_empty expected
    then is_empty observed
    else if text_eq observed expected
    then true
    else same_instant (os.parse_time rfc3339_nano expected) (os.parse_time rfc3339_nano observed)

abbrev pub expected_leader : Intent → Text → Text
expected_leader i planned_leader = if is_switchover i then planned_leader else []

-- The failover key holds the request.
unfoldable pub failover_matches : Platform → Option Failover → Intent → Text → Bool
unfolding schedule_matches transition_schedule is_switchover
failover_matches os none i planned_leader = false
failover_matches os (some f) i planned_leader =
    if not (text_eq f.leader (expected_leader i planned_leader))
      || not (text_eq f.candidate i.candidate)
    then false
    else schedule_matches os (transition_schedule os i) f.scheduled_at

unfoldable pub transition_completed : Platform → ClusterState → Intent → Text → Bool
unfolding transition_leader_completed failover_matches
transition_completed os c i planned_leader =
    if transition_leader_completed c i planned_leader
    then true
    else failover_matches os c.failover i planned_leader

-- What the verification loop returns: the verdict, the last revision read, the evidence.
pub record Verdict : Type 0 where
  pub verified : Bool
  pub revision : ℤ
  pub evidence : List Evidence

abbrev pub verdict : Bool → ℤ → List Evidence → Verdict
verdict verified revision evidence = record {
  verified = verified;
  revision = revision;
  evidence = evidence;
}

readback_summary : Intent → Bool → Text
readback_summary i true = i.operation ++ text " fallback state matches the request"
readback_summary i false = i.operation ++ text " fallback state does not yet match the request"

-- One readback: the revision and the evidence, and whether it matched.
unfoldable pub read_back : Service → Intent → Text → Verdict → Run Verdict
unfolding snapshot observe transition_completed readback_summary itoa route_text
read_back service i planned_leader before = do
  answer ← snapshot service i.target
  elim answer [
    | err _ ↦ do
      e ←
          observe service EvidenceSource.dcs (i.operation ++ text " fallback readback failed") []
            (route_text Route.dcs) SendState.unset
      pure (verdict false before.revision (before.evidence ++ e ∷ []))
    | ok s ↦ do
      let matched = transition_completed service.os s.cluster i planned_leader
      e ←
          observe service EvidenceSource.dcs (readback_summary i matched) (itoa s.revision) s.prefix
            SendState.unset
      pure (verdict matched s.revision (before.evidence ++ e ∷ []))
  ]

-- The rounds of the loop that are left; `first` is `attempt == 0`.
unfoldable pub verify_rounds : Service → Intent → Text → ℕ → Bool → Verdict → Run Verdict
unfolding read_back wait_interval observe route_text
verify_rounds service i planned_leader zero first before =
    pure (verdict false before.revision before.evidence)
verify_rounds service i planned_leader (suc rounds) first before = do
  canceled ← elim first [ true ↦ pure none | false ↦ wait_interval service ]
  elim canceled [
    | some _ ↦ do
      e ←
          observe service EvidenceSource.control
            (i.operation ++ text " fallback verification canceled") [] (route_text Route.dcs)
            SendState.unset
      pure (verdict false before.revision (before.evidence ++ e ∷ []))
    | none ↦ do
      after ← read_back service i planned_leader before
      elim after.verified [
        | true ↦ pure after
        | false ↦ verify_rounds service i planned_leader rounds false after
      ]
  ]

unfoldable pub verify_transition_fallback : Service → Intent → Text → Run Verdict
unfolding verify_rounds
verify_transition_fallback service i planned_leader =
    verify_rounds service i planned_leader service.verification_attempts true
      (verdict false (pos 0) [])
