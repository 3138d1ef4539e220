-- ===== src/Control/Tests.antt =====
-- Concrete runs on a sample cluster.
mod Sample
mod Pausing
mod Reloading
mod Restarting
use go_patroni.Base.{◌≡◌, refl, ◌≢◌, ◌⊎◌, true, false, none, some, [], is_some, All, arith}
use go_patroni.Base.Result.{ok}
use go_patroni.Texts.{text, text_eq, join}
use go_patroni.Texts.Space.{trim_space}
use go_patroni.Texts.Decimal.{format_bool}
use go_patroni.Texts.Escape.{path_escape}
use go_patroni.Target.{
  normalize, validate, invalid_identity_part, normalize_namespace, cluster_id, member_id,
}
use go_patroni.Version.{parse_version}
use go_patroni.Version.Precedence.{compare_version}
use go_patroni.Version.Range.{contains}
use go_patroni.Control.Types.{Outcome, SendState, Verification}
use go_patroni.Control.Plans.{validate_plan, requires_member, precondition_incomplete, expected_in}
use go_patroni.Control.Plans.Laws.{IsMemberOf, FreshIds, member_ids, validate_plan-targets}
use go_patroni.Control.Outcomes.{outcome_fits, classify_write}
use go_patroni.Control.Outcomes.Laws.{classify_write-failed}
use go_patroni.Control.Service.{patroni_version_range}
use go_patroni.Control.Service.Runs.{Spent, dcs_writes}
use go_patroni.Control.Transition.Silence.{last_status, answered_writes}
use go_patroni.Control.VersionGate.{check_snapshot_patroni_version}
use go_patroni.Control.VersionGate.Laws.{ReportsSupported, check_snapshot_patroni_version-All}
use go_patroni.Control.Doubts.{doubts}
use go_patroni.Control.Transition.Intents.{normalize_switchover_request, is_switchover}
use go_patroni.Control.Transition.Selections.{Selection, selection_of, resolve_transition}
use go_patroni.Control.Transition.Selections.Laws.{IsResolved, resolve_transition-IsResolved}
use go_patroni.Control.Transition.Contract.{
  validate_transition_plan, revalidate_transition_plan, transition_data,
}
use go_patroni.Control.Transition.Contract.Laws.{
  IsSameRequest, validate_transition_plan-IsSameRequest,
}
use go_patroni.Control.Transition.Fallback.{
  validate_fallback_transition, transition_leader_completed,
}
use go_patroni.Control.Transition.Fallback.Laws.{
  StillHolds, validate_fallback_transition-resolve_transition,
}
use go_patroni.Control.Transition.Recovery.{fallback_from}
use go_patroni.Control.Transition.Recovery.Laws.{fallback_from-StillHolds}
use go_patroni.Control.Transition.Preparation.{prepare_switchover, prepare_transition, prepare_from}
use go_patroni.Control.Transition.Execution.{execute_transition}
use go_patroni.Control.Transition.Soundness.{NotPending, NotWritten}
use go_patroni.Control.Transition.Soundness.Fallbacks.{Marshals}
use go_patroni.Control.Transition.Spending.Executions.{
  execute_transition-Spends, prepare_transition-Spends,
}
use go_patroni.Control.Transition.Safety.{
  execute_transition-outcome_fits, execute_transition-failed, execute_transition-fallback,
  prepare_from-validate_transition_plan,
}
use go_patroni.Control.Tests.Sample.{
  os, cluster, state, service, request, plan, intent, usage_error, selection, restart_plan,
}

os-Marshals : Marshals service
os-Marshals fields = (text "{}", refl)

prepared : (prepare_switchover service true request []).0.outcome ≡ Outcome.succeeded
unfolding prepare_switchover normalize validate invalid_identity_part normalize_namespace join
    parse_version contains compare_version patroni_version_range requires_member
    precondition_incomplete
prepared = refl

raced : (execute_transition service true intent plan []).0.outcome ≡ Outcome.failed
unfolding execute_transition prepare_switchover normalize_switchover_request normalize validate
    invalid_identity_part normalize_namespace join parse_version contains compare_version
    patroni_version_range requires_member precondition_incomplete cluster_id path_escape expected_in
    format_bool
raced = refl

execute_transition-failed_example :
    (doubts service (execute_transition service true intent plan []).1 ≡ doubts service [])
    × NotPending (execute_transition service true intent plan []).0
    × NotWritten (execute_transition service true intent plan []).0
execute_transition-failed_example =
    execute_transition-failed service os-Marshals true intent plan [] raced

execute_transition-outcome_fits_example :
    outcome_fits
      (execute_transition service true intent plan []).0.outcome
      (execute_transition service true intent plan []).0.error
    ≡ true
execute_transition-outcome_fits_example =
    execute_transition-outcome_fits service os-Marshals true intent plan []

written : dcs_writes (execute_transition service true intent plan []).1 ≡ 1
unfolding dcs_writes execute_transition prepare_switchover normalize_switchover_request normalize
    validate invalid_identity_part normalize_namespace join parse_version contains compare_version
    patroni_version_range requires_member precondition_incomplete cluster_id path_escape expected_in
    format_bool
written = refl

execute_transition-fallback_example :
    (answered_writes service (execute_transition service true intent plan []).1
      ≡ answered_writes service [])
    × (dcs_writes (execute_transition service true intent plan []).1 ≡ 1)
unfolding last_status
execute_transition-fallback_example =
    (execute_transition-fallback service true intent plan [] refl, written)

execute_transition-Spends_example : Spent 2 1 [] (execute_transition service true intent plan []).1
execute_transition-Spends_example = execute_transition-Spends service true intent plan []

prepare_transition-Spends_example : Spent 0 0 [] (prepare_transition service true intent []).1
prepare_transition-Spends_example = prepare_transition-Spends service true intent []

prepared_from : (prepare_from service (text "op-1") intent.0 state []).0.outcome ≡ Outcome.succeeded
unfolding prepare_from normalize_switchover_request selection_of normalize validate
    invalid_identity_part normalize_namespace join parse_version contains compare_version
    patroni_version_range requires_member precondition_incomplete
prepared_from = refl

prepare_from-validate_transition_plan_example :
    (validate_transition_plan os
        (prepare_from service (text "op-1") intent.0 state []).0.payload
        intent.0
      ≡ none)
    × (sel : Selection) × (resolve_transition os state intent.0 ≡ ok sel)
    × (revalidate_transition_plan
          (prepare_from service (text "op-1") intent.0 state []).0.payload
          sel
        ≡ true)
prepare_from-validate_transition_plan_example =
    prepare_from-validate_transition_plan service (text "op-1") intent.0 state [] prepared_from

accepted : validate_transition_plan os plan intent.0 ≡ none
unfolding execute_transition prepare_switchover normalize_switchover_request normalize validate
    invalid_identity_part normalize_namespace join parse_version contains compare_version
    patroni_version_range requires_member precondition_incomplete cluster_id path_escape expected_in
    format_bool validate_transition_plan
accepted = refl

validate_transition_plan-IsSameRequest_example : IsSameRequest os intent.0 intent.0
validate_transition_plan-IsSameRequest_example =
    validate_transition_plan-IsSameRequest os plan intent.0 intent.0 accepted accepted

resolved : resolve_transition os state intent.0 ≡ ok selection
unfolding prepare_from normalize_switchover_request selection_of normalize validate
    invalid_identity_part normalize_namespace join parse_version contains compare_version
    patroni_version_range requires_member precondition_incomplete resolve_transition
resolved = refl

resolve_transition-IsResolved_example : IsResolved state intent.0 selection
resolve_transition-IsResolved_example =
    resolve_transition-IsResolved os state intent.0 selection resolved

is_a_switchover : is_switchover intent.0 ≡ true
unfolding is_switchover normalize_switchover_request text_eq text
is_a_switchover = refl

validate_fallback_transition-resolve_transition_example :
    validate_fallback_transition state.cluster intent.0 selection ≡ none
validate_fallback_transition-resolve_transition_example =
    validate_fallback_transition-resolve_transition os state intent.0 selection resolved
      is_a_switchover

fallback_wrote :
    dcs_writes
      (fallback_from service
        (text "op-1")
        intent.0
        selection
        (transition_data os intent.0 selection)
        none
        state
        []
        []).1
    ≡ 1
unfolding prepare_from normalize_switchover_request selection_of normalize validate
    invalid_identity_part normalize_namespace join parse_version contains compare_version
    patroni_version_range requires_member precondition_incomplete fallback_from dcs_writes
fallback_wrote = refl

fallback_counts :
    dcs_writes
      (fallback_from service
        (text "op-1")
        intent.0
        selection
        (transition_data os intent.0 selection)
        none
        state
        []
        []).1
    ≢ dcs_writes []
unfolding dcs_writes
fallback_counts e = absurd (omega (arith, fallback_wrote, e))

fallback_from-StillHolds_example :
    (transition_leader_completed state.cluster intent.0 selection.leader ≡ false)
    × StillHolds state.cluster intent.0 selection
fallback_from-StillHolds_example =
    fallback_from-StillHolds service (text "op-1") intent.0 selection
      (transition_data os intent.0 selection) none state [] [] fallback_counts

unsent_failure :
    classify_write SendState.not_sent Verification.unverified (some usage_error) ≡ Outcome.failed
unfolding classify_write
unsent_failure = refl

classify_write-failed_example :
    (Verification.unverified ≡ Verification.verified_failed)
    ⊎ ((SendState.not_sent ≡ SendState.not_sent) × (is_some (some usage_error) ≡ true))
classify_write-failed_example =
    classify_write-failed SendState.not_sent Verification.unverified (some usage_error)
      unsent_failure

gated : check_snapshot_patroni_version service state false ≡ none
unfolding prepare_from normalize_switchover_request selection_of normalize validate
    invalid_identity_part normalize_namespace join parse_version contains compare_version
    patroni_version_range requires_member precondition_incomplete check_snapshot_patroni_version
gated = refl

check_snapshot_patroni_version-All_example : All (ReportsSupported service) state.cluster.members
check_snapshot_patroni_version-All_example = check_snapshot_patroni_version-All service state gated

restart_valid : validate_plan restart_plan ≡ none
unfolding validate_plan normalize validate invalid_identity_part normalize_namespace join cluster_id
    member_id path_escape requires_member precondition_incomplete trim_space
restart_valid = refl

validate_plan-targets_example :
    All (λ t. IsMemberOf restart_plan (normalize t)) restart_plan.targets
    × FreshIds [] (member_ids restart_plan.targets)
validate_plan-targets_example = validate_plan-targets restart_plan restart_valid
