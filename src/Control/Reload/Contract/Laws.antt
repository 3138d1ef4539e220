-- ===== src/Control/Reload/Contract/Laws.antt =====
-- What the check of a reload plan accepts.
use go_patroni.Base.{
  ◌≡◌, refl, ◌∙◌, sym, inl, inr, Bool, true, false, ◌&&◌, Option, none, some, List, arith, is_empty,
  not, if◌then◌else◌, Bool-cases, Option-cases,
}
use go_patroni.Texts.{Text, text, text_eq, text_eq_refl, eq_of_text_eq, join}
use go_patroni.Texts.Decimal.{format_bool}
use go_patroni.Target.{Target, normalize, cluster_id}
use go_patroni.Dcs.Snapshots.{Snapshot}
use go_patroni.Control.Types.{Plan, Outcome, Evidence}
use go_patroni.Control.Plans.{PlanError, validate_plan, expected_in, expected_precondition, matches}
use go_patroni.Control.Platform.{Platform}
use go_patroni.Control.Service.{Service, Trace}
use go_patroni.Control.Groups.{GroupRead, snapshot_group_ids}
use go_patroni.Control.Reports.{failed_read}
use go_patroni.Control.Transition.Contract.{comma}
use go_patroni.Control.Transition.Contract.Laws.{matches-same, format_bool-injective}
use go_patroni.Control.Writes.Members.{Role, role_text, normalized_write_role}
use go_patroni.Control.Reload.{ReloadRequest, ReloadIntent, reload_targets}
use go_patroni.Control.Reload.Contract.{
  invalid, other_operation, other_cluster, other_selectors, reload_preconditions, reload_plan,
  is_reload_plan, same_selectors, validate_reload_plan, prepare_reload_with, prepare_reload_from,
  refuse_reload,
}

record Accepted (p : Plan) (target : Target) (role : Role) (members : List Text) (citus : Bool)
    : Type 0 where
  contract : is_reload_plan p ≡ true
  cluster : text_eq (cluster_id (normalize p.target)) (cluster_id (normalize target)) ≡ true
  selectors : same_selectors p role members citus ≡ true

accepts :
    (p : Plan) (target : Target) (role : Role) (members : List Text) (citus : Bool)
    → validate_plan p ≡ none
    → Accepted p target role members citus
    → validate_reload_plan p target role members citus ≡ none
unfolding validate_reload_plan
accepts p target role members citus valid a =
    rw (valid, validate_reload_plan) (rw (a.contract, a.cluster, a.selectors) refl)

-- The tests of the check, each passed.
guards :
    (v : Option PlanError) (a b c : Bool)
    → elim v [
      | some e ↦ some (invalid e)
      | none ↦
          if not a
          then some other_operation
          else if not b
          then some other_cluster
          else if not c
          then some other_selectors
          else none
    ]
      ≡ none
    → (a ≡ true) × (b ≡ true) × (c ≡ true)
guards (some e) a b c h = cc
guards none true true true h = (refl, refl, refl)
guards none true true false h = cc
guards none true false c h = cc
guards none false b c h = cc

validate_reload_plan-Accepted :
    (p : Plan) (target : Target) (role : Role) (members : List Text) (citus : Bool)
    → validate_reload_plan p target role members citus ≡ none
    → Accepted p target role members citus
unfolding validate_reload_plan
validate_reload_plan-Accepted p target role members citus h =
    let (contract, cluster, selectors) = guards _ _ _ _ h in
    record { contract = contract; cluster = cluster; selectors = selectors }

-- The selectors that the check compares.
record SameSelectors (p : Plan) (role : Role) (members : List Text) (citus : Bool) : Type 0 where
  same_role : matches (expected_precondition p (text "selector.role")) (role_text role) ≡ true
  same_members :
      matches (expected_precondition p (text "selector.members")) (join comma members) ≡ true
  same_citus : matches (expected_precondition p (text "selector.citus")) (format_bool citus) ≡ true

and_left : (a b : Bool) → (a && b) ≡ true → a ≡ true
and_left a b h = ground arith

and_right : (a b : Bool) → (a && b) ≡ true → b ≡ true
and_right a b h = ground arith

same_selectors-SameSelectors :
    (p : Plan) (role : Role) (members : List Text) (citus : Bool)
    → same_selectors p role members citus ≡ true
    → SameSelectors p role members citus
unfolding same_selectors
same_selectors-SameSelectors p role members citus h =
    let rest = and_right _ _ h in
    record {
      same_role = and_left _ _ rest;
      same_members = and_left _ _ (and_right _ _ rest);
      same_citus = and_right _ _ (and_right _ _ rest);
    }

-- What the check compares of two requests: the cluster, the role, the members and `citus`.
pub record IsSameReload (target target' : Target) (role role' : Role) (members members' : List Text)
    (citus citus' : Bool) : Type 0 where
  pub cluster : cluster_id (normalize target) ≡ cluster_id (normalize target')
  pub roles : role_text role ≡ role_text role'
  pub names : join comma members ≡ join comma members'
  pub groups : citus ≡ citus'

-- A plan authorises one reload: two requests that the check accepts for the same plan agree on the
-- cluster, the role's text, the comma-separated members and `citus`.
pub validate_reload_plan-IsSameReload :
    (p : Plan) (target target' : Target) (role role' : Role) (members members' : List Text)
    (citus citus' : Bool)
    → validate_reload_plan p target role members citus ≡ none
    → validate_reload_plan p target' role' members' citus' ≡ none
    → IsSameReload target target' role role' members members' citus citus'
validate_reload_plan-IsSameReload p target target' role role' members members' citus citus' h k =
    let a = validate_reload_plan-Accepted p target role members citus h in
    let b = validate_reload_plan-Accepted p target' role' members' citus' k in
    let c = same_selectors-SameSelectors p role members citus a.selectors in
    let d = same_selectors-SameSelectors p role' members' citus' b.selectors in
    record {
      cluster = sym (eq_of_text_eq _ _ a.cluster) ∙ eq_of_text_eq _ _ b.cluster;
      roles = matches-same _ _ _ c.same_role d.same_role;
      names = matches-same _ _ _ c.same_members d.same_members;
      groups = format_bool-injective citus citus' (matches-same _ _ _ c.same_citus d.same_citus);
    }

module _ (os : Platform) (id : Text) (request : ReloadRequest) (i : ReloadIntent)
    (ss : List Snapshot) (targets : List Target) where
  reload_plan-Accepted :
      Accepted
        (reload_plan os id request i ss targets)
        i.target
        (normalized_write_role request.role)
        i.members
        request.citus
  unfolding reload_plan reload_preconditions expected_in text_eq text is_reload_plan same_selectors
  reload_plan-Accepted = record {
    contract = refl;
    cluster = text_eq_refl (cluster_id (normalize i.target));
    selectors =
        rw
          (
            text_eq_refl (role_text (normalized_write_role request.role)),
            text_eq_refl (join comma i.members),
            text_eq_refl (format_bool request.citus),
          )
          refl;
  }

  -- The groups that the plan records are those of the snapshots.
  reload_plan-groups :
      expected_precondition (reload_plan os id request i ss targets) (text "citus.groups")
      ≡ some (snapshot_group_ids ss)
  unfolding reload_plan reload_preconditions expected_in text_eq text
  reload_plan-groups = refl

-- A plan that the preparation of a reload returns with success is accepted by both checks of an execution
-- of the same request with the same groups: the selectors' and that of the Citus groups. Its targets
-- are the selected members of the snapshots.
pub prepare_reload_from-validate_reload_plan :
    (service : Service) (id : Text) (request : ReloadRequest) (i : ReloadIntent)
    (ss : List Snapshot) (evidence : List Evidence) (t : Trace)
    → (prepare_reload_from service id request i (GroupRead.read ss evidence) t).0.outcome
      ≡ Outcome.succeeded
    → (validate_reload_plan
          (prepare_reload_from service id request i (GroupRead.read ss evidence) t).0.payload
          i.target
          (normalized_write_role request.role)
          i.members
          request.citus
        ≡ none)
      × (expected_precondition
            (prepare_reload_from service id request i (GroupRead.read ss evidence) t).0.payload
            (text "citus.groups")
          ≡ some (snapshot_group_ids ss))
      × ((prepare_reload_from service id request i (GroupRead.read ss evidence) t).0.payload.targets
          ≡ reload_targets service.os (normalized_write_role request.role) i.members ss)
unfolding prepare_reload_from prepare_reload_with refuse_reload failed_read
prepare_reload_from-validate_reload_plan service id request i ss evidence t succeeded =
    let targets = reload_targets service.os (normalized_write_role request.role) i.members ss in
    let p = reload_plan service.os id request i ss targets in
    elim (Bool-cases (is_empty targets)) [
      | inl nobody ↦ absurd (ground (arith, rw (nobody, prepare_reload_with) at succeeded))
      | inr somebody ↦ elim (Option-cases (validate_plan p)) [
        | inr (e, refusal) ↦
            absurd (ground (arith, rw (somebody, refusal, prepare_reload_with) at succeeded))
        | inl valid ↦
            rw (somebody, valid, prepare_reload_with)
              (
                accepts p i.target (normalized_write_role request.role) i.members request.citus
                    valid (reload_plan-Accepted service.os id request i ss targets),
                reload_plan-groups service.os id request i ss targets,
                refl,
              )
      ]
    ]
