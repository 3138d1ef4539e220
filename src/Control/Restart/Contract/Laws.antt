-- ===== src/Control/Restart/Contract/Laws.antt =====
-- What the check of a restart plan accepts.
use go_patroni.Base.{
  ◌≡◌, refl, inl, inr, true, ◌&&◌, none, some, List, [], ◌∷◌, arith, is_empty, not, Bool-cases,
  Option-cases, length,
}
use go_patroni.Base.Result.{Result-cases}
use go_patroni.Texts.{Text, text, text_eq, text_eq_refl, join}
use go_patroni.Texts.Decimal.{format_bool}
use go_patroni.Target.{Target, normalize, cluster_id}
use go_patroni.Dcs.Snapshots.{Snapshot}
use go_patroni.Control.Types.{Plan, Outcome, Evidence}
use go_patroni.Control.Plans.{validate_plan, expected_in, expected_precondition}
use go_patroni.Control.Platform.{Platform}
use go_patroni.Control.Service.{Service, Trace, call}
use go_patroni.Control.Groups.{GroupRead, snapshot_group_ids}
use go_patroni.Control.Reports.{failed_read, snapshot_evidence}
use go_patroni.Control.Transition.Contract.{comma}
use go_patroni.Control.Writes.Members.{role_text, normalized_write_role}
use go_patroni.Control.Restart.{RestartRequest, RestartIntent}
use go_patroni.Control.Restart.Contract.{
  restart_conditions, restart_preconditions, restart_plan, is_restart_plan, same_conditions,
  validate_restart_plan, refuse_restart, restart_schedule,
}
use go_patroni.Control.Restart.Preparation.{
  restart_targets, chosen_target, prepare_restart_with, prepare_restart_any, prepare_restart_from,
}

-- The plan is accepted for the request, and records the groups of the snapshots.
pub record IsAccepted (os : Platform) (request : RestartRequest) (i : RestartIntent)
    (ss : List Snapshot) (p : Plan) : Type 0 where
  pub accepted : validate_restart_plan os p i.target request i.members ≡ none
  pub groups : expected_precondition p (text "citus.groups") ≡ some (snapshot_group_ids ss)

module _ (os : Platform) (id : Text) (request : RestartRequest) (i : RestartIntent)
    (ss : List Snapshot) (targets : List Target) where
  restart_plan-same_conditions :
      same_conditions
        (restart_plan os id request i ss targets)
        (restart_conditions os request i.members [])
      ≡ true
  unfolding restart_plan restart_preconditions restart_conditions expected_in text_eq text
      same_conditions
  restart_plan-same_conditions =
      rw
        (
          text_eq_refl (role_text (normalized_write_role request.role)),
          text_eq_refl (join comma i.members),
          text_eq_refl (format_bool request.citus),
          text_eq_refl (format_bool request.any_member),
          text_eq_refl (restart_schedule os request.scheduled_at),
          text_eq_refl request.postgres_version,
          text_eq_refl (format_bool request.pending),
          text_eq_refl request.timeout,
          text_eq_refl (format_bool request.force),
        )
        refl

  restart_plan-is_restart_plan : is_restart_plan (restart_plan os id request i ss targets) ≡ true
  unfolding restart_plan is_restart_plan text_eq text
  restart_plan-is_restart_plan = refl

  restart_plan-groups :
      expected_precondition (restart_plan os id request i ss targets) (text "citus.groups")
      ≡ some (snapshot_group_ids ss)
  unfolding restart_plan restart_preconditions restart_conditions expected_in text_eq text
  restart_plan-groups = refl

  restart_plan-IsAccepted :
      validate_plan (restart_plan os id request i ss targets) ≡ none
      → IsAccepted os request i ss (restart_plan os id request i ss targets)
  unfolding validate_restart_plan restart_plan
  restart_plan-IsAccepted valid = record {
    accepted =
        rw (valid, validate_restart_plan)
          (rw
            (
              restart_plan-is_restart_plan,
              text_eq_refl (cluster_id (normalize i.target)),
              restart_plan-same_conditions,
            )
            refl);
    groups = restart_plan-groups;
  }

module _ (service : Service) (id : Text) (request : RestartRequest) (i : RestartIntent)
    (ss : List Snapshot) (evidence : List Evidence) where
  prepare_restart_with-IsAccepted :
      (targets : List Target) (t : Trace)
      → (prepare_restart_with service id request i ss evidence targets t).0.outcome
        ≡ Outcome.succeeded
      → IsAccepted service.os request i ss
          (prepare_restart_with service id request i ss evidence targets t).0.payload
  unfolding prepare_restart_with refuse_restart failed_read
  prepare_restart_with-IsAccepted targets t h =
      let p = restart_plan service.os id request i ss targets in
      elim (Bool-cases (is_empty targets)) [
        | inl nobody ↦ absurd (ground (arith, rw (nobody, prepare_restart_with) at h))
        | inr somebody ↦ elim (Option-cases (validate_plan p)) [
          | inr (e, refusal) ↦
              absurd (ground (arith, rw (somebody, refusal, prepare_restart_with) at h))
          | inl valid ↦
              rw (somebody, valid, prepare_restart_with)
                (restart_plan-IsAccepted service.os id request i ss targets valid)
        ]
      ]

  prepare_restart_any-IsAccepted :
      (targets : List Target) (t : Trace)
      → (prepare_restart_any service id request i ss evidence targets t).0.outcome
        ≡ Outcome.succeeded
      → IsAccepted service.os request i ss
          (prepare_restart_any service id request i ss evidence targets t).0.payload
  unfolding prepare_restart_any call refuse_restart failed_read
  prepare_restart_any-IsAccepted targets t h =
      let answer = service.on_random_index t (length targets) in
      elim (Bool-cases (request.any_member && not (is_empty targets))) [
        | inr all_of_them ↦
            rw (all_of_them, prepare_restart_any)
              (prepare_restart_with-IsAccepted targets t
                (rw (all_of_them, prepare_restart_any) at h))
        | inl one ↦ elim (Option-cases (chosen_target targets answer)) [
          | inl nobody ↦ absurd (ground (arith, rw (one, nobody, prepare_restart_any) at h))
          | inr (target, chosen) ↦
              rw (one, chosen, prepare_restart_any)
                (prepare_restart_with-IsAccepted (target ∷ []) _
                  (rw (one, chosen, prepare_restart_any) at h))
        ]
      ]

  -- A plan that the preparation of a restart returns with success, also for one member chosen at random,
  -- is accepted by both checks of an execution of the same request with the same groups: that of the
  -- request's fields and that of the Citus groups.
  pub prepare_restart_from-IsAccepted :
      (t : Trace)
      → (prepare_restart_from service id request i (GroupRead.read ss evidence) t).0.outcome
        ≡ Outcome.succeeded
      → IsAccepted service.os request i ss
          (prepare_restart_from service id request i (GroupRead.read ss evidence) t).0.payload
  unfolding prepare_restart_from refuse_restart failed_read snapshot_evidence
  prepare_restart_from-IsAccepted t h =
      elim (Result-cases (restart_targets service.os request i.members ss)) [
        | inr (s, paused) ↦ absurd (ground (arith, rw (paused, prepare_restart_from) at h))
        | inl (targets, selected) ↦
            rw (selected, prepare_restart_from)
              (prepare_restart_any-IsAccepted targets t (rw (selected, prepare_restart_from) at h))
      ]
