-- ===== src/Control/Transition/Silence/Executions.antt =====
-- `executeTransition` of control/failover.go: its DCS writes against Patroni's answers.
use go_patroni.Base.{
  ℕ, ◌≡◌, refl, ◌∙◌, inl, inr, Bool, true, false, ◌&&◌, Option, none, some, List, [], ◌∷◌, ◌++◌,
  Bool-cases, Option-cases, is_some, pos, eqb_ℤ, eqb_ℤ_iff,
}
use go_patroni.Base.Result.{Result-cases}
use go_patroni.Texts.{Text, text}
use go_patroni.Texts.Space.{trim_space}
use go_patroni.Dcs.Snapshots.{Snapshot}
use go_patroni.Control.Types.{Category, Cause, Evidence, Plan, plain}
use go_patroni.Control.Errors.{classify_read_error}
use go_patroni.Control.Service.{
  Service, Trace, Call, call, now, context_error, snapshot, operation_id, random_operation_id,
  or_random_id, new_id,
}
use go_patroni.Control.Reports.{observe, snapshot_evidence, failed_read, evidence_or_message}
use go_patroni.Control.VersionGate.{check_snapshot_patroni_version}
use go_patroni.Control.Transition.Intents.{Intent, ClusterWriteData, RequestError}
use go_patroni.Control.Transition.Selections.{Selection, resolve_transition}
use go_patroni.Control.Transition.Contract.{
  validate_transition_plan, revalidate_transition_plan, transition_data,
}
use go_patroni.Control.Transition.Results.{TransitionResult, set_rest}
use go_patroni.Control.Transition.Rest.{
  RestReport, accepted_status, call_transition_rest, transition_rest_payload,
}
use go_patroni.Control.Transition.Execution.{
  zero_data, accept_response, after_no_response, after_rest, execute_write, execute_selected,
  execute_from, execute_checked, or_new_id, execute_transition,
}
use go_patroni.Control.Transition.Preparation.{refused, unsupported_version}
use go_patroni.Control.Transition.Settlement.{verify_transition_fallback_keeps}
use go_patroni.Control.Transition.Silence.{
  last_status, answered_writes, call_transition_rest-ReportsLast,
}
use go_patroni.Control.Transition.Silence.Fallbacks.{execute_transition_fallback-answered_writes}

-- The writes that were made after an HTTP response are the given number.
abbrev Founded : Service → ℕ → TransitionResult × Trace → Type 0
Founded service n (r, t) = answered_writes service t ≡ n

module _ (service : Service) (id : Text) (i : Intent) where
  refused-answered_writes :
      (c : Category × Bool) (message : Text) (cause : Option Cause) (evidence : List Evidence)
      (t : Trace)
      → Founded service
          (answered_writes service t)
          (refused zero_data service id i c message cause evidence t)
  unfolding refused failed_read evidence_or_message observe now call answered_writes
  refused-answered_writes c message cause [] t = refl
  refused-answered_writes c message cause (e ∷ es) t = refl

  unsupported-answered_writes :
      (s : Snapshot) (t : Trace)
      → Founded service (answered_writes service t) (unsupported_version zero_data service id i s t)
  unfolding unsupported_version refused snapshot_evidence failed_read evidence_or_message observe
      now call answered_writes
  unsupported-answered_writes s t = refl

module _ (service : Service) (n : ℕ) (id : Text) (i : Intent) where
  module _ (sel : Selection) (d : ClusterWriteData) (report : RestReport)
      (evidence : List Evidence) where
    accept_response-Founded :
        (t : Trace)
        → answered_writes service t ≡ n
        → Founded service n (accept_response service id i sel d report evidence t)
    unfolding accept_response answered_writes
    accept_response-Founded t same =
        elim (Bool-cases (eqb_ℤ report.response.status_code (pos 202) && is_some i.scheduled_at)) [
          | inr at_once ↦ rw (at_once, accept_response) same
          | inl scheduled ↦
              rw (scheduled, accept_response)
                (verify_transition_fallback_keeps service i sel.leader (answered_writes service)
                    (λ t. refl) (λ t. refl) (λ t. refl) t
                  ∙ same)
        ]

    after_no_response-Founded :
        (t : Trace)
        → answered_writes service t ≡ n
        → last_status service t ≡ pos 0
        → Founded service n (after_no_response service id i sel d report evidence t)
    unfolding after_no_response context_error call last_status answered_writes
    after_no_response-Founded t same silent =
        let t' = Call.check_context ∷ t in
        elim (Option-cases (service.on_context t)) [
          | inr (e, ended) ↦ rw (ended, after_no_response) same
          | inl running ↦
              rw (running, after_no_response)
                (execute_transition_fallback-answered_writes service id i sel d report.error
                    evidence t' silent
                  ∙ same)
        ]

    after_rest-Founded :
        (t : Trace)
        → answered_writes service t ≡ n
        → last_status service t ≡ report.response.status_code
        → Founded service n (after_rest service id i sel d report evidence t)
    unfolding after_rest
    after_rest-Founded t same last =
        elim (Bool-cases (accepted_status report.response.status_code)) [
          | inl accepted ↦ rw (accepted, after_rest) (accept_response-Founded t same)
          | inr not_accepted ↦ elim (Bool-cases (eqb_ℤ report.response.status_code (pos 0))) [
            | inr answered ↦ rw (not_accepted, answered, after_rest) same
            | inl silent ↦
                rw (not_accepted, silent, after_rest)
                  (after_no_response-Founded t same
                    (last ∙ (eqb_ℤ_iff report.response.status_code (pos 0)).0 silent))
          ]
        ]

  execute_write-Founded :
      (sel : Selection) (evidence : List Evidence) (t : Trace)
      → answered_writes service t ≡ n
      → last_status service t ≡ pos 0
      → Founded service n (execute_write service id i sel evidence t)
  unfolding execute_write context_error observe now call answered_writes last_status
  execute_write-Founded sel evidence t same silent =
      let t' = Call.check_context ∷ t in
      elim (Option-cases (service.on_context t)) [
        | inr (e, ended) ↦ rw (ended, execute_write) same
        | inl running ↦
            let payload = transition_rest_payload service.os i sel in
            let (report, t'') = call_transition_rest service i sel payload t' in
            let reported = call_transition_rest-ReportsLast service i sel payload t' silent in
            rw (running, execute_write)
              (after_rest-Founded sel
                (set_rest (transition_data service.os i sel) report.send report.response.status_code
                  report.legacy)
                report (evidence ++ report.evidence) t'' (reported.1 ∙ same) reported.0)
      ]

  module _ (p : Plan) where
    execute_selected-Founded :
        (sel : Selection) (evidence : List Evidence) (t : Trace)
        → answered_writes service t ≡ n
        → last_status service t ≡ pos 0
        → Founded service n (execute_selected service id i p sel evidence t)
    unfolding execute_selected
    execute_selected-Founded sel evidence t same silent =
        elim (Bool-cases (revalidate_transition_plan p sel)) [
          | inl unchanged ↦
              rw (unchanged, execute_selected) (execute_write-Founded sel evidence t same silent)
          | inr changed ↦ rw (changed, execute_selected) same
        ]

    execute_from-Founded :
        (s : Snapshot) (t : Trace)
        → answered_writes service t ≡ n
        → last_status service t ≡ pos 0
        → Founded service n (execute_from service id i p s t)
    unfolding execute_from snapshot_evidence observe now call answered_writes last_status
    execute_from-Founded s t same silent =
        elim (Option-cases (check_snapshot_patroni_version service s false)) [
          | inr (e, outside) ↦
              rw (outside, execute_from) (unsupported-answered_writes service id i s t ∙ same)
          | inl within ↦ elim (Result-cases (resolve_transition service.os s i)) [
            | inr (e, changed) ↦ rw (within, changed, execute_from) same
            | inl (sel, resolved) ↦
                rw (within, resolved, execute_from)
                  (execute_selected-Founded sel _ (Call.read_clock ∷ t) same silent)
          ]
        ]

    execute_checked-Founded :
        (t : Trace)
        → answered_writes service t ≡ n
        → last_status service t ≡ pos 0
        → Founded service n (execute_checked service id i p t)
    unfolding execute_checked snapshot call answered_writes last_status
    execute_checked-Founded t same silent =
        let t' = Call.read_snapshot i.target ∷ t in
        elim (Option-cases (validate_transition_plan service.os p i)) [
          | inr (e, invalid) ↦
              rw (invalid, execute_checked)
                (refused-answered_writes service id i (Category.usage, false)
                    (i.operation ++ text " plan does not match the request") (some plain) [] t
                  ∙ same)
          | inl valid ↦ elim (Result-cases (service.on_snapshot t i.target)) [
            | inl (s, answered) ↦
                rw (valid, answered, execute_checked) (execute_from-Founded s t' same silent)
            | inr (e, failed) ↦
                rw (valid, failed, execute_checked)
                  (refused-answered_writes service id i (classify_read_error (some e))
                      (i.operation ++ text " execution snapshot failed") (some e) [] t'
                    ∙ same)
          ]
        ]

-- What the calls for an operation's id keep.
module _ {ℓ} {A : Type ℓ} (service : Service) (f : Trace → A)
    (at_id : (t : Trace) → f (new_id ∷ t) ≡ f t)
    (at_random : (t : Trace) → f (Call.random_id ∷ t) ≡ f t) where
  or_random_id_keeps : (value : Text) (t : Trace) → f (or_random_id service value t).1 ≡ f t
  unfolding random_operation_id call
  or_random_id_keeps [] t = at_random t
  or_random_id_keeps (c ∷ value) t = refl

  or_new_id_keeps : (value : Text) (t : Trace) → f (or_new_id service value t).1 ≡ f t
  unfolding operation_id call
  or_new_id_keeps [] t =
      or_random_id_keeps (trim_space (service.on_new_id t)) (new_id ∷ t) ∙ at_id t
  or_new_id_keeps (c ∷ value) t = refl

pub execute_transition-Founded :
    (service : Service) (context_given : Bool) (request : Intent × Option RequestError) (p : Plan)
    (t : Trace)
    → last_status service t ≡ pos 0
    → Founded service
        (answered_writes service t)
        (execute_transition service context_given request p t)
unfolding execute_transition answered_writes last_status
execute_transition-Founded service false (i, e) p t silent =
    let (id, t') = or_new_id service (trim_space p.operation_id) t in
    refused-answered_writes service id i (Category.usage, false)
      (i.operation ++ text " requires a context") none [] t'
    ∙ or_new_id_keeps service (answered_writes service) (λ t. refl) (λ t. refl)
        (trim_space p.operation_id) t
execute_transition-Founded service true (i, some e) p t silent =
    let (id, t') = or_new_id service (trim_space p.operation_id) t in
    refused-answered_writes service id i (Category.usage, false)
      (i.operation ++ text " request is invalid") (some plain) [] t'
    ∙ or_new_id_keeps service (answered_writes service) (λ t. refl) (λ t. refl)
        (trim_space p.operation_id) t
execute_transition-Founded service true (i, none) p t silent =
    let (id, t') = or_new_id service (trim_space p.operation_id) t in
    let same =
      or_new_id_keeps service (answered_writes service) (λ t. refl) (λ t. refl)
        (trim_space p.operation_id) t in
    let quiet =
      or_new_id_keeps service (last_status service) (λ t. refl) (λ t. refl)
        (trim_space p.operation_id) t in
    execute_checked-Founded service (answered_writes service t) id i p t' same (quiet ∙ silent)
