-- ===== src/Control/Transition/Intents.antt =====
-- The requests of control/write_types.go and their normalisation in control/failover.go.
use go_patroni.Base.{
  Bool, true, ◌&&◌, Option, none, some, List, [], ◌∷◌, if◌then◌else◌, is_empty, not, is_some, ℤ,
}
use go_patroni.Texts.{Text, text, text_eq}
use go_patroni.Texts.Space.{trim_space}
use go_patroni.Target.{Target, TargetError, normalize, validate}
use go_patroni.Control.Types.{Time, is_zero, SendState, Verification}
use go_patroni.Control.Platform.{Platform, format_patroni_timestamp}

pub record FailoverRequest : Type 0 where
  pub target : Target
  pub candidate : Text
  pub force : Bool
  pub citus : Bool

pub record SwitchoverRequest : Type 0 where
  pub target : Target
  pub leader : Text
  pub candidate : Text
  pub scheduled_at : Option Time
  pub force : Bool
  pub citus : Bool

-- `transitionIntent`
pub record Intent : Type 0 where
  pub operation : Text
  pub target : Target
  pub leader : Text
  pub candidate : Text
  pub scheduled_at : Option Time
  pub force : Bool
  pub citus : Bool

pub record ClusterWriteData : Type 0 where
  pub leader : Text
  pub candidate : Text
  pub scheduled_at : Text
  pub rest_send_state : SendState
  pub dcs_send_state : SendState
  pub verification : Verification
  pub http_status : ℤ
  pub dcs_revision : ℤ
  pub legacy_endpoint : Bool

pub data RequestError : Type 0 where
  member_given zero_schedule group_required : RequestError
  bad_target : TargetError → RequestError

unfoldable pub with_member : Target → Text → Target
with_member t name = record {
  context = t.context;
  namespace = t.namespace;
  scope = t.scope;
  group = t.group;
  member = name;
}

abbrev bad : Option TargetError → Option RequestError
bad none = none
bad (some e) = some (bad_target e)

abbrev or_later : Option RequestError → Option RequestError → Option RequestError
or_later none later = later
or_later (some e) later = some e

unfoldable pub validate_names : Target → List Text → Option RequestError
unfolding with_member
validate_names t [] = none
validate_names t (name ∷ names) =
    let rest = validate_names t names in
    if is_empty name then rest else or_later (bad (validate (with_member t name) true)) rest

unfoldable pub validate_transition_target : Target → List Text → Option RequestError
unfolding validate_names
validate_transition_target t names =
    if not (is_empty t.member)
    then some member_given
    else or_later (bad (validate t true)) (validate_names t names)

unfoldable pub is_failover : Intent → Bool
is_failover i = text_eq i.operation (text "failover")

unfoldable pub is_switchover : Intent → Bool
is_switchover i = text_eq i.operation (text "switchover")

abbrev group_missing : Intent → Option RequestError
group_missing i = if i.citus && not (is_some i.target.group) then some group_required else none

abbrev schedule_zero : Option Time → Option RequestError
schedule_zero none = none
schedule_zero (some t) = if is_zero t then some zero_schedule else none

unfoldable pub failover_intent : FailoverRequest → Intent
unfolding text
failover_intent r = record {
  operation = text "failover";
  target = normalize r.target;
  leader = [];
  candidate = trim_space r.candidate;
  scheduled_at = none;
  force = r.force;
  citus = r.citus;
}

unfoldable pub normalize_failover_request : FailoverRequest → Intent × Option RequestError
unfolding failover_intent validate_transition_target
normalize_failover_request r =
    let i = failover_intent r in
    (i, or_later (validate_transition_target i.target (i.candidate ∷ [])) (group_missing i))

unfoldable pub switchover_intent : SwitchoverRequest → Intent
unfolding text
switchover_intent r = record {
  operation = text "switchover";
  target = normalize r.target;
  leader = trim_space r.leader;
  candidate = trim_space r.candidate;
  scheduled_at = r.scheduled_at;
  force = r.force;
  citus = r.citus;
}

unfoldable pub normalize_switchover_request : SwitchoverRequest → Intent × Option RequestError
unfolding switchover_intent validate_transition_target
normalize_switchover_request r =
    let i = switchover_intent r in
    (
      i,
      or_later (validate_transition_target i.target (i.leader ∷ i.candidate ∷ []))
          (or_later (schedule_zero i.scheduled_at) (group_missing i)),
    )

abbrev pub schedule_text : Platform → Option Time → Text
schedule_text os none = []
schedule_text os (some t) = format_patroni_timestamp os t

unfoldable pub transition_schedule : Platform → Intent → Text
transition_schedule os i = schedule_text os i.scheduled_at
