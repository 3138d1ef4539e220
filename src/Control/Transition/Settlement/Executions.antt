-- ===== src/Control/Transition/Settlement/Executions.antt =====
-- `executeTransition` of control/failover.go: the calls that a failure leaves in doubt.
use go_patroni.Base.{
  ℕ, ◌≡◌, refl, ◌∙◌, inl, inr, Bool, true, false, ◌&&◌, Option, none, some, List, [], ◌∷◌, ◌++◌,
  Bool-cases, Option-cases, is_some, pos, eqb_ℤ,
}
use go_patroni.Base.Result.{Result-cases}
use go_patroni.Texts.{Text, text}
use go_patroni.Texts.Space.{trim_space}
use go_patroni.Dcs.Snapshots.{Snapshot}
use go_patroni.Control.Types.{Category, Cause, Evidence, Plan, plain}
use go_patroni.Control.Errors.{classify_read_error}
use go_patroni.Control.Service.{Service, Trace, Call, call, now, context_error, snapshot}
use go_patroni.Control.Doubts.{doubts, in_doubt}
use go_patroni.Control.Reports.{observe, snapshot_evidence, failed_read, evidence_or_message}
use go_patroni.Control.VersionGate.{check_snapshot_patroni_version}
use go_patroni.Control.Pause.Settlement.Executions.{or_new_id-doubts}
use go_patroni.Control.Transition.Intents.{Intent, ClusterWriteData, RequestError}
use go_patroni.Control.Transition.Selections.{Selection, resolve_transition}
use go_patroni.Control.Transition.Contract.{
  validate_transition_plan, revalidate_transition_plan, transition_data,
}
use go_patroni.Control.Transition.Results.{transition_success, transition_unknown, set_rest}
use go_patroni.Control.Transition.Rest.{
  RestReport, accepted_status, call_transition_rest, transition_rest_payload,
}
use go_patroni.Control.Transition.Fallback.{verify_transition_fallback}
use go_patroni.Control.Transition.Recovery.{may_have_arrived}
use go_patroni.Control.Transition.Preparation.{refused, unsupported_version}
use go_patroni.Control.Transition.Execution.{
  zero_data, accept_response, after_no_response, after_rest, execute_write, execute_selected,
  execute_from, execute_checked, or_new_id, execute_transition,
}
use go_patroni.Control.Transition.Soundness.Fallbacks.{Marshals}
use go_patroni.Control.Transition.Settlement.{Reported, call_transition_rest-Reported}
use go_patroni.Control.Transition.Settlement.Fallbacks.{
  Settled, Accounts, execute_transition_fallback-Settled,
}

module _ (service : Service) (id : Text) (i : Intent) where
  refused-doubts :
      (c : Category × Bool) (message : Text) (cause : Option Cause) (evidence : List Evidence)
      (t : Trace)
      → doubts service (refused zero_data service id i c message cause evidence t).1
        ≡ doubts service t
  unfolding refused failed_read evidence_or_message observe now call doubts in_doubt
  refused-doubts c message cause [] t = refl
  refused-doubts c message cause (e ∷ es) t = refl

  unsupported-doubts :
      (s : Snapshot) (t : Trace)
      → doubts service (unsupported_version zero_data service id i s t).1 ≡ doubts service t
  unfolding unsupported_version refused snapshot_evidence failed_read evidence_or_message observe
      now call doubts in_doubt
  unsupported-doubts s t = refl

  module _ (marshals : Marshals service) where
    module _ (n : ℕ) (sel : Selection) (d : ClusterWriteData) (report : RestReport)
        (evidence : List Evidence) where
      accept_response-Settled :
          (t : Trace) → Settled service n (accept_response service id i sel d report evidence t)
      unfolding accept_response transition_success transition_unknown
      accept_response-Settled t =
          elim (Bool-cases
            (eqb_ℤ report.response.status_code (pos 202) && is_some i.scheduled_at)) [
              | inr at_once ↦ rw (at_once, accept_response) (λ e. cc)
              | inl scheduled ↦
                  elim (Bool-cases (verify_transition_fallback service i sel.leader t).0.verified) [
                    | inl seen ↦ rw (scheduled, accept_response, seen) (λ e. cc)
                    | inr unseen ↦ rw (scheduled, accept_response, unseen) (λ e. cc)
                  ]
            ]

      after_no_response-Settled :
          (t : Trace)
          → Accounts service n d t
          → Settled service n (after_no_response service id i sel d report evidence t)
      unfolding after_no_response context_error call transition_unknown doubts in_doubt
      after_no_response-Settled t h =
          let t' = Call.check_context ∷ t in
          elim (Option-cases (service.on_context t)) [
            | inl running ↦
                rw (running, after_no_response)
                  (execute_transition_fallback-Settled service n id i sel d report.error marshals
                    evidence t' h)
            | inr (e, ended) ↦ elim (Bool-cases (may_have_arrived d.rest_send_state)) [
              | inl arrived ↦ rw (ended, arrived, after_no_response) (λ e. cc)
              | inr lost ↦ rw (ended, lost, after_no_response) (λ _. h lost)
            ]
          ]

      after_rest-Settled :
          (t : Trace)
          → Accounts service n d t
          → Reported service n report t
          → Settled service n (after_rest service id i sel d report evidence t)
      unfolding after_rest
      after_rest-Settled t h r = elim (Bool-cases (accepted_status report.response.status_code)) [
        | inl accepted ↦ rw (accepted, after_rest) (accept_response-Settled t)
        | inr not_accepted ↦ elim (Bool-cases (eqb_ℤ report.response.status_code (pos 0))) [
          | inr answered ↦ rw (not_accepted, answered, after_rest) (λ _. r.answered answered)
          | inl silent ↦ rw (not_accepted, silent, after_rest) (after_no_response-Settled t h)
        ]
      ]

    execute_write-Settled :
        (sel : Selection) (evidence : List Evidence) (t : Trace)
        → Settled service (doubts service t) (execute_write service id i sel evidence t)
    unfolding execute_write context_error observe now call set_rest doubts in_doubt
    execute_write-Settled sel evidence t =
        let t' = Call.check_context ∷ t in
        elim (Option-cases (service.on_context t)) [
          | inr (e, ended) ↦ rw (ended, execute_write) (λ _. refl)
          | inl running ↦
              let payload = transition_rest_payload service.os i sel in
              let (report, t'') = call_transition_rest service i sel payload t' in
              let reported = call_transition_rest-Reported service i sel payload t' in
              rw (running, execute_write)
                (after_rest-Settled (doubts service t) sel
                  (set_rest (transition_data service.os i sel) report.send
                    report.response.status_code report.legacy)
                  report (evidence ++ report.evidence) t'' reported.not_arrived reported)
        ]

    module _ (p : Plan) where
      execute_selected-Settled :
          (sel : Selection) (evidence : List Evidence) (t : Trace)
          → Settled service (doubts service t) (execute_selected service id i p sel evidence t)
      unfolding execute_selected
      execute_selected-Settled sel evidence t =
          elim (Bool-cases (revalidate_transition_plan p sel)) [
            | inl same ↦ rw (same, execute_selected) (execute_write-Settled sel evidence t)
            | inr changed ↦ rw (changed, execute_selected) (λ _. refl)
          ]

      execute_from-Settled :
          (s : Snapshot) (t : Trace)
          → Settled service (doubts service t) (execute_from service id i p s t)
      unfolding execute_from snapshot_evidence observe now call doubts in_doubt
      execute_from-Settled s t =
          elim (Option-cases (check_snapshot_patroni_version service s false)) [
            | inr (e, outside) ↦ rw (outside, execute_from) (λ _. unsupported-doubts s t)
            | inl within ↦ elim (Result-cases (resolve_transition service.os s i)) [
              | inr (e, changed) ↦ rw (within, changed, execute_from) (λ _. refl)
              | inl (sel, resolved) ↦
                  rw (within, resolved, execute_from)
                    (execute_selected-Settled sel _ (Call.read_clock ∷ t))
            ]
          ]

      execute_checked-Settled :
          (t : Trace) → Settled service (doubts service t) (execute_checked service id i p t)
      unfolding execute_checked snapshot call doubts in_doubt
      execute_checked-Settled t =
          let t' = Call.read_snapshot i.target ∷ t in
          elim (Option-cases (validate_transition_plan service.os p i)) [
            | inr (e, invalid) ↦
                rw (invalid, execute_checked)
                  (λ _.
                    refused-doubts (Category.usage, false)
                      (i.operation ++ text " plan does not match the request") (some plain) [] t)
            | inl valid ↦ elim (Result-cases (service.on_snapshot t i.target)) [
              | inl (s, answered) ↦
                  rw (valid, answered, execute_checked) (execute_from-Settled s t')
              | inr (e, failed) ↦
                  rw (valid, failed, execute_checked)
                    (λ _.
                      refused-doubts (classify_read_error (some e))
                        (i.operation ++ text " execution snapshot failed") (some e) [] t')
            ]
          ]

pub execute_transition-Settled :
    (service : Service)
    → Marshals service
    → (context_given : Bool) (request : Intent × Option RequestError) (p : Plan) (t : Trace)
    → Settled service (doubts service t) (execute_transition service context_given request p t)
unfolding execute_transition
execute_transition-Settled service marshals false (i, e) p t =
    let (id, t') = or_new_id service (trim_space p.operation_id) t in
    λ _.
      refused-doubts service id i (Category.usage, false)
        (i.operation ++ text " requires a context") none [] t'
      ∙ or_new_id-doubts service (trim_space p.operation_id) t
execute_transition-Settled service marshals true (i, some e) p t =
    let (id, t') = or_new_id service (trim_space p.operation_id) t in
    λ _.
      refused-doubts service id i (Category.usage, false)
        (i.operation ++ text " request is invalid") (some plain) [] t'
      ∙ or_new_id-doubts service (trim_space p.operation_id) t
execute_transition-Settled service marshals true (i, none) p t =
    let (id, t') = or_new_id service (trim_space p.operation_id) t in
    λ failed.
      execute_checked-Settled service id i marshals p t' failed
      ∙ or_new_id-doubts service (trim_space p.operation_id) t
