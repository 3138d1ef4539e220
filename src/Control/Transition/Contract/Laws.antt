-- ===== src/Control/Transition/Contract/Laws.antt =====
-- What the two checks of a transition plan accept.
use go_patroni.Base.{◌≡◌, refl, ◌∙◌, sym, Bool, true, false, ◌&&◌, Option, none, some, arith, all}
use go_patroni.Texts.{Text, text, text_eq, text_eq_refl, eq_of_text_eq, join}
use go_patroni.Texts.Decimal.{itoa, format_bool}
use go_patroni.Target.{Target, normalize, cluster_id}
use go_patroni.Target.Namespace.{normalize_idem}
use go_patroni.Dcs.Snapshots.{Snapshot}
use go_patroni.Control.Types.{Plan}
use go_patroni.Control.Plans.{validate_plan, expected_in, expected_precondition, matches}
use go_patroni.Control.Platform.{Platform}
use go_patroni.Control.Transition.Intents.{Intent, transition_schedule}
use go_patroni.Control.Transition.Selections.{Selection}
use go_patroni.Control.Transition.Contract.{
  is_rest, is_availability, is_unsafe_after_send, comma, transition_preconditions, transition_plan,
  all_match, request_fields, cluster_fields, validate_transition_plan, revalidate_transition_plan,
}

-- A plan carries every field that the checks ask for.
request_fields-match :
    (os : Platform) (id : Text) (s : Snapshot) (i : Intent) (sel : Selection)
    → all_match (transition_plan os id s i sel) (request_fields os i) ≡ true
unfolding all_match request_fields transition_plan transition_preconditions expected_in text_eq text
request_fields-match os id s i sel = ground (
  arith,
  text_eq_refl i.candidate,
  text_eq_refl i.leader,
  text_eq_refl (transition_schedule os i),
  text_eq_refl (format_bool i.force),
  text_eq_refl (format_bool i.citus),
)

cluster_fields-match :
    (os : Platform) (id : Text) (s : Snapshot) (i : Intent) (sel : Selection)
    → all_match (transition_plan os id s i sel) (cluster_fields sel) ≡ true
unfolding all_match cluster_fields transition_plan transition_preconditions expected_in text_eq text
cluster_fields-match os id s i sel = ground (
  arith,
  text_eq_refl sel.leader,
  text_eq_refl (join comma sel.candidate_names),
  text_eq_refl (format_bool sel.sync_eligible),
  text_eq_refl (format_bool sel.paused),
  text_eq_refl (itoa sel.failover_version),
)

pub cluster_id-normalize : (t : Target) → cluster_id (normalize t) ≡ cluster_id t
unfolding cluster_id
cluster_id-normalize t = rw (normalize_idem t) refl

accepts :
    (os : Platform) (p : Plan) (i : Intent)
    → validate_plan p ≡ none
    → text_eq p.operation i.operation ≡ true
    → is_rest p.path && (is_availability p.risk && is_unsafe_after_send p.retry_safety) ≡ true
    → text_eq (cluster_id (normalize p.target)) (cluster_id i.target) ≡ true
    → all_match p (request_fields os i) ≡ true
    → validate_transition_plan os p i ≡ none
unfolding validate_transition_plan
accepts os p i valid operation contract cluster fields =
    rw (valid, validate_transition_plan) (ground arith)

-- A plan that validates is accepted for the request that it was made for.
pub validate_transition_plan-transition_plan :
    (os : Platform) (id : Text) (s : Snapshot) (i : Intent) (sel : Selection)
    → validate_plan (transition_plan os id s i sel) ≡ none
    → validate_transition_plan os (transition_plan os id s i sel) i ≡ none
unfolding transition_plan
validate_transition_plan-transition_plan os id s i sel valid =
    accepts os (transition_plan os id s i sel) i valid (text_eq_refl i.operation) refl
      (rw (cluster_id-normalize i.target) (text_eq_refl (cluster_id i.target)))
      (request_fields-match os id s i sel)

-- The same plan holds for the selection that it was made from.
pub revalidate_transition_plan-transition_plan :
    (os : Platform) (id : Text) (s : Snapshot) (i : Intent) (sel : Selection)
    → revalidate_transition_plan (transition_plan os id s i sel) sel ≡ true
unfolding revalidate_transition_plan
revalidate_transition_plan-transition_plan os id s i sel = cluster_fields-match os id s i sel

-- What the check compares of two requests.
pub record IsSameRequest (os : Platform) (i j : Intent) : Type 0 where
  pub operation : i.operation ≡ j.operation
  pub cluster : cluster_id i.target ≡ cluster_id j.target
  pub candidate : i.candidate ≡ j.candidate
  pub leader : i.leader ≡ j.leader
  pub schedule : transition_schedule os i ≡ transition_schedule os j
  pub force : i.force ≡ j.force
  pub citus : i.citus ≡ j.citus

pub matches-same : (o : Option Text) (a b : Text) → matches o a ≡ true → matches o b ≡ true → a ≡ b
matches-same none a b h k = ground arith
matches-same (some o) a b h k = sym (eq_of_text_eq o a h) ∙ eq_of_text_eq o b k

pub format_bool-injective : (a b : Bool) → format_bool a ≡ format_bool b → a ≡ b
unfolding format_bool text
format_bool-injective true true h = refl
format_bool-injective false false h = refl
format_bool-injective true false h = ground arith
format_bool-injective false true h = ground arith

-- The fields of an accepted request, one by one.
record Accepted (os : Platform) (p : Plan) (i : Intent) : Type 0 where
  operation : p.operation ≡ i.operation
  cluster : cluster_id (normalize p.target) ≡ cluster_id i.target
  candidate : matches (expected_precondition p (text "candidate.name")) i.candidate ≡ true
  leader : matches (expected_precondition p (text "request.leader")) i.leader ≡ true
  schedule :
      matches (expected_precondition p (text "request.schedule")) (transition_schedule os i) ≡ true
  force : matches (expected_precondition p (text "request.force")) (format_bool i.force) ≡ true
  citus : matches (expected_precondition p (text "request.citus")) (format_bool i.citus) ≡ true

validate_transition_plan-Accepted :
    (os : Platform) (p : Plan) (i : Intent)
    → validate_transition_plan os p i ≡ none
    → Accepted os p i
unfolding validate_transition_plan all_match request_fields all
validate_transition_plan-Accepted os p i h = record {
  operation = ground (arith, eq_of_text_eq p.operation i.operation);
  cluster = ground (arith, eq_of_text_eq (cluster_id (normalize p.target)) (cluster_id i.target));
  candidate = ground arith;
  leader = ground arith;
  schedule = ground arith;
  force = ground arith;
  citus = ground arith;
}

-- A plan authorises one request: two requests that the check accepts for the same plan agree on the
-- operation, the cluster, the candidate, the leader, the schedule's text, `force` and `citus`.
pub validate_transition_plan-IsSameRequest :
    (os : Platform) (p : Plan) (i j : Intent)
    → validate_transition_plan os p i ≡ none
    → validate_transition_plan os p j ≡ none
    → IsSameRequest os i j
validate_transition_plan-IsSameRequest os p i j h k =
    let a = validate_transition_plan-Accepted os p i h in
    let b = validate_transition_plan-Accepted os p j k in
    record {
      operation = sym a.operation ∙ b.operation;
      cluster = sym a.cluster ∙ b.cluster;
      candidate = matches-same _ _ _ a.candidate b.candidate;
      leader = matches-same _ _ _ a.leader b.leader;
      schedule = matches-same _ _ _ a.schedule b.schedule;
      force = format_bool-injective i.force j.force (matches-same _ _ _ a.force b.force);
      citus = format_bool-injective i.citus j.citus (matches-same _ _ _ a.citus b.citus);
    }
