-- ===== src/Control/Pause/Contract/Laws.antt =====
-- What the check of a pause plan accepts.
use go_patroni.Base.{◌≡◌, refl, ◌∙◌, sym, true, false, ◌&&◌, none, List, arith, all, is_empty}
use go_patroni.Texts.{Text, text, text_eq, text_eq_refl, eq_of_text_eq, join}
use go_patroni.Texts.Decimal.{format_bool}
use go_patroni.Target.{Target, normalize, cluster_id}
use go_patroni.Dcs.Snapshots.{Snapshot}
use go_patroni.Control.Types.{Plan}
use go_patroni.Control.Plans.{validate_plan, expected_in, expected_precondition, matches}
use go_patroni.Control.Transition.Contract.{
  comma, is_rest, is_availability, is_unsafe_after_send, all_match,
}
use go_patroni.Control.Transition.Contract.Laws.{
  cluster_id-normalize, matches-same, format_bool-injective,
}
use go_patroni.Control.Writes.Members.{member_names_from_targets}
use go_patroni.Control.Pause.{PauseIntent}
use go_patroni.Control.Pause.Contract.{
  pause_preconditions, pause_plan, pause_fields, validate_pause_plan,
}

pause_fields-match :
    (id : Text) (s : Snapshot) (i : PauseIntent) (targets : List Target)
    → all_match (pause_plan id s i targets) (pause_fields (pause_plan id s i targets) i) ≡ true
unfolding all_match pause_fields pause_plan pause_preconditions expected_in text_eq text
pause_fields-match id s i targets = ground (
  arith,
  text_eq_refl (format_bool i.desired),
  text_eq_refl (format_bool i.wait),
  text_eq_refl (format_bool i.citus),
  text_eq_refl (join comma (member_names_from_targets targets)),
)

accepts :
    (p : Plan) (i : PauseIntent)
    → validate_plan p ≡ none
    → text_eq p.operation i.operation ≡ true
    → is_rest p.path && (is_availability p.risk && is_unsafe_after_send p.retry_safety) ≡ true
    → text_eq (cluster_id (normalize p.target)) (cluster_id i.target) ≡ true
    → all_match p (pause_fields p i) ≡ true
    → is_empty p.targets ≡ false
    → validate_pause_plan p i ≡ none
unfolding validate_pause_plan
accepts p i valid operation contract cluster fields targets =
    rw (valid, validate_pause_plan) (ground arith)

-- A plan that validates and has targets is accepted for the request that it was made for.
pub validate_pause_plan-pause_plan :
    (id : Text) (s : Snapshot) (i : PauseIntent) (targets : List Target)
    → validate_plan (pause_plan id s i targets) ≡ none
    → is_empty targets ≡ false
    → validate_pause_plan (pause_plan id s i targets) i ≡ none
unfolding pause_plan
validate_pause_plan-pause_plan id s i targets valid some_target =
    accepts (pause_plan id s i targets) i valid (text_eq_refl i.operation) refl
      (rw (cluster_id-normalize i.target) (text_eq_refl (cluster_id i.target)))
      (pause_fields-match id s i targets) some_target

-- What the check compares of two requests.
pub record IsSamePause (i j : PauseIntent) : Type 0 where
  pub operation : i.operation ≡ j.operation
  pub cluster : cluster_id i.target ≡ cluster_id j.target
  pub desired : i.desired ≡ j.desired
  pub wait : i.wait ≡ j.wait
  pub citus : i.citus ≡ j.citus

-- The fields of an accepted request.
record Accepted (p : Plan) (i : PauseIntent) : Type 0 where
  valid : validate_plan p ≡ none
  operation : p.operation ≡ i.operation
  cluster : cluster_id (normalize p.target) ≡ cluster_id i.target
  desired : matches (expected_precondition p (text "pause.desired")) (format_bool i.desired) ≡ true
  wait : matches (expected_precondition p (text "request.wait")) (format_bool i.wait) ≡ true
  citus : matches (expected_precondition p (text "request.citus")) (format_bool i.citus) ≡ true

validate_pause_plan-Accepted :
    (p : Plan) (i : PauseIntent) → validate_pause_plan p i ≡ none → Accepted p i
unfolding validate_pause_plan all_match pause_fields all
validate_pause_plan-Accepted p i h = record {
  valid = ground arith;
  operation = ground (arith, eq_of_text_eq p.operation i.operation);
  cluster = ground (arith, eq_of_text_eq (cluster_id (normalize p.target)) (cluster_id i.target));
  desired = ground arith;
  wait = ground arith;
  citus = ground arith;
}

pub validate_pause_plan-validate_plan :
    (p : Plan) (i : PauseIntent) → validate_pause_plan p i ≡ none → validate_plan p ≡ none
validate_pause_plan-validate_plan p i h = (validate_pause_plan-Accepted p i h).valid

-- A plan authorises one pause or resume: two requests that the check accepts for the same plan agree
-- on the operation, the cluster, the desired state, `wait` and `citus`.
pub validate_pause_plan-IsSamePause :
    (p : Plan) (i j : PauseIntent)
    → validate_pause_plan p i ≡ none
    → validate_pause_plan p j ≡ none
    → IsSamePause i j
validate_pause_plan-IsSamePause p i j h k =
    let a = validate_pause_plan-Accepted p i h in
    let b = validate_pause_plan-Accepted p j k in
    record {
      operation = sym a.operation ∙ b.operation;
      cluster = sym a.cluster ∙ b.cluster;
      desired = format_bool-injective i.desired j.desired (matches-same _ _ _ a.desired b.desired);
      wait = format_bool-injective i.wait j.wait (matches-same _ _ _ a.wait b.wait);
      citus = format_bool-injective i.citus j.citus (matches-same _ _ _ a.citus b.citus);
    }
