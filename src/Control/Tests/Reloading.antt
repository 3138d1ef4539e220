-- ===== src/Control/Tests/Reloading.antt =====
-- Runs of a reload on the sample cluster, and of what it is made of.
use go_patroni.Base.{◌≡◌, refl, true, false, none, some, [], ◌∷◌, pos, ◌≤◌, ◌+◌, All, is_empty, map}
use go_patroni.Texts.{text, text_eq, join}
use go_patroni.Texts.Order.{text_lt}
use go_patroni.Texts.Space.{trim_space}
use go_patroni.Texts.Escape.{path_escape}
use go_patroni.Target.{
  Target, normalize, validate, invalid_identity_part, normalize_namespace, cluster_id, member_id,
}
use go_patroni.Control.Types.{Plan, Outcome, Route, plain}
use go_patroni.Control.Plans.{
  requires_member, precondition_incomplete, expected_in, expected_precondition,
}
use go_patroni.Control.Platform.{patroni_base_url}
use go_patroni.Control.Service.Costs.{reloads}
use go_patroni.Control.Outcomes.{outcome_fits}
use go_patroni.Control.VersionGate.{check_snapshot_patroni_version}
use go_patroni.Control.Groups.{GroupRead, operation_snapshots_with, snapshot_group_ids}
use go_patroni.Control.Groups.Laws.{AllChecked, operation_snapshots_with-AllChecked}
use go_patroni.Control.Writes.{MemberWrite, member_write_valid}
use go_patroni.Control.Writes.Laws.{ClockRuns, IsMemberTarget, classify_response-member_write_valid}
use go_patroni.Control.Writes.Members.{Role, normalized_write_role}
use go_patroni.Control.Writes.Responses.{classify_response, reload_endpoint}
use go_patroni.Control.Writes.Batches.{finalize_batch_write}
use go_patroni.Control.Writes.Batches.Laws.{
  worst, any_unknown, any_failed, finalize_batch_write-worst,
}
use go_patroni.Control.Reload.{
  ReloadRequest, ReloadIntent, normalize_reload_request, reload_targets,
}
use go_patroni.Control.Reload.Contract.{prepare_reload_from, validate_reload_plan}
use go_patroni.Control.Reload.Contract.Laws.{prepare_reload_from-validate_reload_plan}
use go_patroni.Control.Reload.Resolution.{Resolved, resolve_planned_members}
use go_patroni.Control.Reload.Resolution.Laws.{
  IsCurrent, targets_of, planned_posts, resolve_planned_members-IsCurrent,
}
use go_patroni.Control.Reload.Execution.{
  reload_resolved, execute_reload_on, execute_reload, expected_or_empty,
}
use go_patroni.Control.Reload.Execution.Laws.{reload_resolved-abort, reported_ids, planned_ids}
use go_patroni.Control.Reload.Safety.{execute_reload_on-reloads, execute_reload-outcome_fits}
use go_patroni.Control.Tests.Sample.{target, state, restart_plan}
use go_patroni.Control.Tests.Pausing.{service, client}

abbrev request : ReloadRequest
request = record { target = target; members = []; role = Role.any; citus = false }

abbrev intent : ReloadIntent
intent = normalize_reload_request request

prepared :
    (prepare_reload_from
      (service 200)
      (text "op-4")
      request
      intent
      (GroupRead.read (state ∷ []) [])
      []).0.outcome
    ≡ Outcome.succeeded
unfolding prepare_reload_from normalize_reload_request text_lt invalid_identity_part
    normalize_namespace requires_member cluster_id path_escape member_id precondition_incomplete
    service
prepared = refl

prepare_reload_from-validate_reload_plan_example :
    (validate_reload_plan
        (prepare_reload_from
          (service 200)
          (text "op-4")
          request
          intent
          (GroupRead.read (state ∷ []) [])
          []).0.payload
        intent.target
        (normalized_write_role request.role)
        intent.members
        request.citus
      ≡ none)
    × (expected_precondition
          (prepare_reload_from
            (service 200)
            (text "op-4")
            request
            intent
            (GroupRead.read (state ∷ []) [])
            []).0.payload
          (text "citus.groups")
        ≡ some (snapshot_group_ids (state ∷ [])))
    × ((prepare_reload_from
          (service 200)
          (text "op-4")
          request
          intent
          (GroupRead.read (state ∷ []) [])
          []).0.payload.targets
        ≡ reload_targets
            (service 200).os
            (normalized_write_role request.role)
            intent.members
            (state ∷ []))
prepare_reload_from-validate_reload_plan_example =
    prepare_reload_from-validate_reload_plan (service 200) (text "op-4") request intent (state ∷ [])
      [] [] prepared

abbrev plan : Plan
unfolding prepare_reload_from
plan =
    (prepare_reload_from (service 200) (text "op-4") request intent (GroupRead.read (state ∷ []) [])
      []).0.payload

execute_reload-outcome_fits_example :
    outcome_fits
      (execute_reload (service 200) true request plan []).0.outcome
      (execute_reload (service 200) true request plan []).0.error
    ≡ true
execute_reload-outcome_fits_example = execute_reload-outcome_fits (service 200) true request plan []

same_groups :
    text_eq
      (snapshot_group_ids (state ∷ []))
      (expected_or_empty (expected_precondition plan (text "citus.groups")))
    ≡ true
unfolding plan expected_in normalize_reload_request text_lt invalid_identity_part
    normalize_namespace requires_member cluster_id path_escape member_id precondition_incomplete
    service
same_groups = refl

execute_reload_on-reloads_example :
    (reported_ids
        (execute_reload_on
          (service 200)
          (client 200)
          (text "op-4")
          request
          intent
          plan
          (state ∷ [])
          []
          []).0.payload.members
      ≡ planned_ids plan.targets)
    × (reloads
          (text_eq (text "10.0.0.1:8008"))
          (execute_reload_on
            (service 200)
            (client 200)
            (text "op-4")
            request
            intent
            plan
            (state ∷ [])
            []
            []).1
        ≤ reloads (text_eq (text "10.0.0.1:8008")) []
          + planned_posts
              (service 200).os
              (normalized_write_role request.role)
              (state ∷ [])
              (text_eq (text "10.0.0.1:8008"))
              plan.targets)
execute_reload_on-reloads_example =
    execute_reload_on-reloads (service 200) (client 200) plan (text "op-4") request intent
      (state ∷ []) [] (text_eq (text "10.0.0.1:8008")) [] same_groups

posted :
    reloads
      (λ base. true)
      (execute_reload_on
        (service 200)
        (client 200)
        (text "op-4")
        request
        intent
        plan
        (state ∷ [])
        []
        []).1
    ≡ 2
unfolding execute_reload_on reloads expected_in plan patroni_base_url normalize_reload_request
    text_lt invalid_identity_part normalize_namespace requires_member cluster_id path_escape
    member_id precondition_incomplete service
posted = refl

-- The planned member is not in the snapshots.
abbrev gone : Resolved
unfolding resolve_planned_members
gone = (resolve_planned_members (service 200) (text "reload") [] restart_plan.targets Role.any []).0

is_gone : is_empty gone.conflicts ≡ false
unfolding gone
is_gone = refl

reload_resolved-abort_example :
    (reloads (λ base. true) (reload_resolved (service 200) (client 200) restart_plan gone []).1
      ≡ reloads (λ base. true) [])
    × (reported_ids (reload_resolved (service 200) (client 200) restart_plan gone []).0
        ≡ planned_ids restart_plan.targets)
reload_resolved-abort_example =
    reload_resolved-abort (service 200) (client 200) restart_plan (λ base. true) gone [] is_gone

resolve_planned_members-IsCurrent_example :
    All
      (IsCurrent (service 200).os Role.replica (state ∷ []))
      (resolve_planned_members
        (service 200)
        (text "reload")
        (state ∷ [])
        restart_plan.targets
        Role.replica
        []).0.members
    × (is_empty
            (resolve_planned_members
              (service 200)
              (text "reload")
              (state ∷ [])
              restart_plan.targets
              Role.replica
              []).0.conflicts
          ≡ true
        → targets_of
            (resolve_planned_members
              (service 200)
              (text "reload")
              (state ∷ [])
              restart_plan.targets
              Role.replica
              []).0.members
          ≡ map normalize restart_plan.targets)
resolve_planned_members-IsCurrent_example =
    resolve_planned_members-IsCurrent (service 200) (text "reload") (state ∷ []) Role.replica
      restart_plan.targets []

operation_snapshots_with-AllChecked_example :
    AllChecked
      (check_snapshot_patroni_version (service 200))
      false
      (operation_snapshots_with
        (service 200)
        (text "reload")
        target
        false
        false
        (check_snapshot_patroni_version (service 200))
        []).0
operation_snapshots_with-AllChecked_example =
    operation_snapshots_with-AllChecked (service 200) (text "reload") false
      (check_snapshot_patroni_version (service 200)) target false []

abbrev member_target : Target
member_target = record {
  context = text "default";
  namespace = text "/service";
  scope = text "alpha";
  group = none;
  member = text "pg2";
}

is_member : IsMemberTarget member_target
unfolding validate invalid_identity_part normalize trim_space text normalize_namespace join
is_member = record { valid = refl; named = refl }

clock : ClockRuns (service 200)
unfolding service
clock t = refl

classify_response-member_write_valid_example :
    member_write_valid
      (classify_response
        (service 200)
        (text "reload")
        reload_endpoint
        member_target
        (pos 0, some plain)
        []).0
    ≡ true
classify_response-member_write_valid_example =
    classify_response-member_write_valid (service 200) clock (text "reload") reload_endpoint
      member_target (pos 0, some plain) is_member []

abbrev lost : MemberWrite
unfolding classify_response
lost =
    (classify_response (service 200) (text "reload") reload_endpoint member_target
      (pos 0, some plain) []).0

finalize_batch_write-worst_example :
    (finalize_batch_write (text "op-4") (text "reload") target Route.rest (lost ∷ []) []).outcome
    ≡ worst (any_unknown (lost ∷ [])) (any_failed (lost ∷ []))
finalize_batch_write-worst_example =
    finalize_batch_write-worst (text "op-4") (text "reload") target Route.rest [] (lost ∷ [])
