-- ===== src/Control/Transition/Soundness/Executions.antt =====
-- Every result of an execution is sound.
use go_patroni.Base.{
  ◌≡◌, refl, ◌≢◌, inl, inr, ◌∙◌, Bool, true, false, ◌&&◌, Option, none, some, List, [], ◌++◌, arith,
  pos, eqb_ℤ, eqb_ℤ_iff, is_some, Bool-cases, Option-cases,
}
use go_patroni.Base.Result.{Result-cases}
use go_patroni.Texts.{Text, text}
use go_patroni.Dcs.Snapshots.{Snapshot}
use go_patroni.Control.Types.{
  Category, SendState, Verification, Cause, Evidence, Plan, plain, Route,
}
use go_patroni.Control.Errors.{classify_read_error, classify_http_status, new_error}
use go_patroni.Control.Errors.Laws.{classify_read_error-known, classify_http_status-known}
use go_patroni.Control.Outcomes.{outcome_fits}
use go_patroni.Control.Service.{Service, call, context_error, snapshot}
use go_patroni.Control.Service.Runs.{Returns}
use go_patroni.Control.Reports.{failed_read}
use go_patroni.Control.VersionGate.{check_snapshot_patroni_version}
use go_patroni.Control.Transition.Intents.{Intent, ClusterWriteData, RequestError}
use go_patroni.Control.Transition.Selections.{Selection, resolve_transition}
use go_patroni.Control.Transition.Contract.{
  validate_transition_plan, revalidate_transition_plan, transition_data,
}
use go_patroni.Control.Transition.Results.{
  transition_success, transition_failure, transition_failure_with_retry, transition_unknown,
  set_dcs, set_rest, set_verification,
}
use go_patroni.Control.Transition.Rest.{
  RestReport, accepted_status, call_transition_rest, transition_rest_payload,
}
use go_patroni.Control.Transition.Fallback.{verify_transition_fallback}
use go_patroni.Control.Transition.Recovery.{may_have_arrived}
use go_patroni.Control.Transition.Preparation.{refused, unsupported_version}
use go_patroni.Control.Transition.Execution.{
  zero_data, topology_changed_data, accept_response, after_no_response, after_rest, execute_write,
  execute_selected, execute_from, execute_checked, execute_transition,
}
use go_patroni.Control.Transition.Soundness.{IsSound, not_unknown}
use go_patroni.Control.Transition.Soundness.Fallbacks.{
  Marshals, execute_transition_fallback-IsSound,
}

-- A failure before anything was sent.
unsent-IsSound :
    (id : Text) (i : Intent) (path : Route) (d : ClusterWriteData) (category : Category)
    (retryable : Bool) (message : Text) (cause : Option Cause) (evidence : List Evidence)
    → category ≢ Category.unknown
    → may_have_arrived d.rest_send_state ≡ false
    → d.dcs_send_state ≡ SendState.unset
    → IsSound (transition_failure_with_retry id i path d category retryable message cause evidence)
unfolding transition_failure_with_retry new_error outcome_fits
unsent-IsSound id i path d category retryable message cause evidence k h u = record {
  fits = ground (arith, not_unknown category);
  verified = λ e. cc;
  not_pending = λ _. inl h;
  not_written = λ _. inl u;
  fallback_only = λ e. absurd (e u);
}

success-IsSound :
    (id : Text) (i : Intent) (path : Route) (d : ClusterWriteData) (evidence : List Evidence)
    → d.dcs_send_state ≡ SendState.unset
    → IsSound
        (transition_success id i path (set_verification d Verification.verified_succeeded) evidence)
unfolding transition_success set_verification outcome_fits
success-IsSound id i path d evidence u = record {
  fits = refl;
  verified = λ _. refl;
  not_pending = λ e. cc;
  not_written = λ e. cc;
  fallback_only = λ e. absurd (e u);
}

unknown-IsSound :
    (id : Text) (i : Intent) (path : Route) (d : ClusterWriteData) (message : Text)
    (cause : Option Cause) (evidence : List Evidence)
    → d.dcs_send_state ≡ SendState.unset
    → IsSound (transition_unknown id i path d message cause evidence)
unfolding transition_unknown set_verification outcome_fits new_error
unknown-IsSound id i path d message cause evidence u = record {
  fits = refl;
  verified = λ e. cc;
  not_pending = λ e. cc;
  not_written = λ e. cc;
  fallback_only = λ e. absurd (e u);
}

refused-IsSound :
    (service : Service) (id : Text) (i : Intent) (c : Category × Bool) (message : Text)
    (cause : Option Cause) (evidence : List Evidence)
    → c.0 ≢ Category.unknown
    → Returns IsSound (refused zero_data service id i c message cause evidence)
unfolding refused failed_read new_error outcome_fits
refused-IsSound service id i c message cause evidence k t = record {
  fits = ground (arith, not_unknown c.0);
  verified = λ e. cc;
  not_pending = λ _. inl refl;
  not_written = λ _. inl refl;
  fallback_only = λ e. absurd (e refl);
}

unsupported-IsSound :
    (service : Service) (id : Text) (i : Intent) (s : Snapshot)
    → Returns IsSound (unsupported_version zero_data service id i s)
unfolding unsupported_version refused failed_read new_error outcome_fits
unsupported-IsSound service id i s t = record {
  fits = refl;
  verified = λ e. cc;
  not_pending = λ _. inl refl;
  not_written = λ _. inl refl;
  fallback_only = λ e. absurd (e refl);
}

module _ (service : Service) (marshals : Marshals service) (id : Text) (i : Intent)
    (sel : Selection) where
  module _ (d : ClusterWriteData) (report : RestReport) (evidence : List Evidence)
      (h : d.http_status ≡ report.response.status_code)
      (k : d.dcs_send_state ≡ SendState.unset) where
    accept_response-IsSound : Returns IsSound (accept_response service id i sel d report evidence)
    unfolding accept_response set_dcs
    accept_response-IsSound t =
        elim (Bool-cases (eqb_ℤ report.response.status_code (pos 202) && is_some i.scheduled_at)) [
          | inr at_once ↦
              rw (at_once, accept_response) (success-IsSound id i Route.rest d evidence k)
          | inl scheduled ↦
              elim (Bool-cases (verify_transition_fallback service i sel.leader t).0.verified) [
                | inl seen ↦
                    rw (scheduled, accept_response, seen)
                      (success-IsSound id i Route.rest
                        (set_dcs d d.dcs_send_state
                          (verify_transition_fallback service i sel.leader t).0.revision)
                        _ k)
                | inr unseen ↦
                    rw (scheduled, accept_response, unseen)
                      (unknown-IsSound id i Route.rest
                        (set_dcs d d.dcs_send_state
                          (verify_transition_fallback service i sel.leader t).0.revision)
                        _ report.error _ k)
              ]
        ]

    after_no_response-IsSound :
        report.response.status_code ≡ pos 0
        → Returns IsSound (after_no_response service id i sel d report evidence)
    unfolding after_no_response context_error call transition_failure set_verification
    after_no_response-IsSound zero_status t = elim (Option-cases (service.on_context t)) [
      | inl running ↦
          rw (running, after_no_response)
            (execute_transition_fallback-IsSound service marshals id i sel d report.error
              (h ∙ zero_status) k evidence _)
      | inr (e, ended) ↦ elim (Bool-cases (may_have_arrived d.rest_send_state)) [
        | inl arrived ↦
            rw (ended, arrived, after_no_response)
              (unknown-IsSound id i Route.rest (set_verification d Verification.unverified) _
                (some e) evidence k)
        | inr lost ↦
            rw (ended, lost, after_no_response)
              (unsent-IsSound id i Route.rest _ Category.failed false _ (some e) evidence
                (ground arith) lost k)
      ]
    ]

    -- Patroni answered: the failure is its own.
    rejected-IsSound :
        eqb_ℤ report.response.status_code (pos 0) ≡ false
        → IsSound (
            transition_failure_with_retry id i Route.rest
              (set_verification d Verification.verified_failed)
              (classify_http_status report.response.status_code).0
              (classify_http_status report.response.status_code).1
              (text "Patroni rejected " ++ i.operation)
              report.error
              evidence)
    unfolding transition_failure_with_retry set_verification outcome_fits new_error
    rejected-IsSound answered = record {
      fits = ground (
        arith,
        not_unknown (classify_http_status report.response.status_code).0,
        classify_http_status-known report.response.status_code,
      );
      verified = λ e. cc;
      not_pending = λ _. inr (ground (arith, eqb_ℤ_iff report.response.status_code (pos 0)));
      not_written = λ _. inl k;
      fallback_only = λ e. absurd (e k);
    }

    after_rest-IsSound : Returns IsSound (after_rest service id i sel d report evidence)
    unfolding after_rest
    after_rest-IsSound t = elim (Bool-cases (accepted_status report.response.status_code)) [
      | inl accepted ↦ rw (accepted, after_rest) (accept_response-IsSound t)
      | inr not_accepted ↦ elim (Bool-cases (eqb_ℤ report.response.status_code (pos 0))) [
        | inr answered ↦ rw (not_accepted, answered, after_rest) (rejected-IsSound answered)
        | inl silent ↦
            rw (not_accepted, silent, after_rest)
              (after_no_response-IsSound ((eqb_ℤ_iff report.response.status_code (pos 0)).0 silent)
                t)
      ]
    ]

  execute_write-IsSound :
      (evidence : List Evidence) → Returns IsSound (execute_write service id i sel evidence)
  unfolding execute_write context_error call transition_failure transition_data set_verification
      set_rest
  execute_write-IsSound evidence t = elim (Option-cases (service.on_context t)) [
    | inl running ↦
        let (report, t') =
          call_transition_rest service i sel (transition_rest_payload service.os i sel)
            (context_error service t).1 in
        rw (running, execute_write)
          (after_rest-IsSound
            (set_rest (transition_data service.os i sel) report.send report.response.status_code
              report.legacy)
            report (evidence ++ report.evidence) refl refl t')
    | inr (e, ended) ↦
        rw (ended, execute_write)
          (unsent-IsSound id i Route.rest _ Category.failed false _ (some e) _ (ground arith) refl
            refl)
  ]

  execute_selected-IsSound :
      (p : Plan) (evidence : List Evidence)
      → Returns IsSound (execute_selected service id i p sel evidence)
  unfolding execute_selected transition_failure transition_data
  execute_selected-IsSound p evidence t = elim (Bool-cases (revalidate_transition_plan p sel)) [
    | inl same ↦ rw (same, execute_selected) (execute_write-IsSound evidence t)
    | inr changed ↦
        rw (changed, execute_selected)
          (unsent-IsSound id i Route.rest _ Category.conflict false _ (some plain) evidence
            (ground arith) refl refl)
  ]

module _ (service : Service) (marshals : Marshals service) (id : Text) (i : Intent) (p : Plan) where
  execute_from-IsSound : (s : Snapshot) → Returns IsSound (execute_from service id i p s)
  unfolding execute_from unsupported_version transition_failure
  execute_from-IsSound s t = elim (Option-cases (check_snapshot_patroni_version service s false)) [
    | inr (e, outside) ↦ rw (outside, execute_from) (unsupported-IsSound service id i s t)
    | inl within ↦ elim (Result-cases (resolve_transition service.os s i)) [
      | inr (e, changed) ↦
          rw (within, changed, execute_from)
            (unsent-IsSound id i Route.rest topology_changed_data Category.conflict false _
              (some plain) _ (ground arith) refl refl)
      | inl (sel, resolved) ↦
          rw (within, resolved, execute_from)
            (execute_selected-IsSound service marshals id i sel p _ _)
    ]
  ]

  execute_checked-IsSound : Returns IsSound (execute_checked service id i p)
  unfolding execute_checked snapshot call
  execute_checked-IsSound t = elim (Option-cases (validate_transition_plan service.os p i)) [
    | inr (e, invalid) ↦
        rw (invalid, execute_checked)
          (refused-IsSound service id i (Category.usage, false) _ (some plain) [] (ground arith) t)
    | inl valid ↦ elim (Result-cases (service.on_snapshot t i.target)) [
      | inl (s, answered) ↦ rw (valid, answered, execute_checked) (execute_from-IsSound s _)
      | inr (e, failed) ↦
          rw (valid, failed, execute_checked)
            (refused-IsSound service id i (classify_read_error (some e)) _ (some e) []
              (classify_read_error-known (some e)) _)
    ]
  ]

pub execute_transition-IsSound :
    (service : Service)
    → Marshals service
    → (context_given : Bool) (request : Intent × Option RequestError) (p : Plan)
    → Returns IsSound (execute_transition service context_given request p)
unfolding execute_transition
execute_transition-IsSound service marshals false (i, e) p t =
    refused-IsSound service _ i (Category.usage, false) _ none [] (ground arith) _
execute_transition-IsSound service marshals true (i, some e) p t =
    refused-IsSound service _ i (Category.usage, false) _ (some plain) [] (ground arith) _
execute_transition-IsSound service marshals true (i, none) p t =
    execute_checked-IsSound service marshals _ i p _
