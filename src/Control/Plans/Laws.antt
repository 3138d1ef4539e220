-- ===== src/Control/Plans/Laws.antt =====
-- What a valid plan promises of its member targets.
use go_patroni.Base.{
  ◌≡◌, ◌⊎◌, inl, inr, true, false, none, List, [], ◌∷◌, arith, is_empty, any, All, Option-cases,
}
use go_patroni.Texts.{Text, text_eq, text_eq_iff}
use go_patroni.Target.{Target, normalize, validate, cluster_id, member_id}
use go_patroni.Control.Types.{Plan}
use go_patroni.Control.Plans.{check_target, check_targets, cross_group_batch, validate_plan}

-- What the loop of `Plan.Validate` establishes of one normalised member target.
pub record IsMemberOf (p : Plan) (t : Target) : Type 0 where
  pub valid : validate t true ≡ none
  pub names_member : is_empty t.member ≡ false
  pub same_cluster :
      (cluster_id t ≡ cluster_id (normalize p.target))
      ⊎ (cross_group_batch p.operation (normalize p.target) t ≡ true)

check_target-IsMemberOf :
    (p : Plan) (seen : List Text) (t : Target)
    → check_target p seen t ≡ none
    → IsMemberOf p t × (any (text_eq (member_id t)) seen ≡ false)
unfolding check_target
check_target-IsMemberOf p seen t h =
    ground (arith, text_eq_iff (cluster_id t) (cluster_id (normalize p.target)))

-- No identity of the list is among the earlier ones, nor twice in the list.
abbrev pub FreshIds : List Text → List Text → Type 0
FreshIds seen [] = Unit
FreshIds seen (i ∷ ids) = (any (text_eq i) seen ≡ false) × FreshIds (i ∷ seen) ids

abbrev pub member_ids : List Target → List Text
member_ids [] = []
member_ids (t ∷ ts) = member_id (normalize t) ∷ member_ids ts

check_targets_sound :
    (p : Plan) (seen : List Text) (ts : List Target)
    → check_targets p seen ts ≡ none
    → All (λ t. IsMemberOf p (normalize t)) ts × FreshIds seen (member_ids ts)
unfolding check_targets
check_targets_sound p seen [] h = (tt, tt)
check_targets_sound p seen (t ∷ ts) h = elim (Option-cases (check_target p seen (normalize t))) [
  | inl passed ↦
      let here = check_target-IsMemberOf p seen (normalize t) passed in
      let later =
        check_targets_sound p (member_id (normalize t) ∷ seen) ts
          (rw (passed, check_targets) at h) in
      ((here.0, later.0), (here.1, later.1))
  | inr (e, failed) ↦ cc (rw (failed, check_targets) at h)
]

validate_plan-check_targets :
    (p : Plan) → validate_plan p ≡ none → check_targets p [] p.targets ≡ none
unfolding validate_plan
validate_plan-check_targets p h = ground arith

-- In a plan that `Validate` accepts, every member target is a valid target that names a member, and
-- belongs to the plan's cluster or, for a batch operation over a whole Citus cluster, to one of its
-- groups; and no member identity occurs twice.
pub validate_plan-targets :
    (p : Plan)
    → validate_plan p ≡ none
    → All (λ t. IsMemberOf p (normalize t)) p.targets × FreshIds [] (member_ids p.targets)
validate_plan-targets p h = check_targets_sound p [] p.targets (validate_plan-check_targets p h)
