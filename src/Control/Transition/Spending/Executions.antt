-- ===== src/Control/Transition/Spending/Executions.antt =====
-- The writes of whole operations.
use go_patroni.Base.{
  inl, inr, Bool, true, false, ◌&&◌, Option, none, some, List, [], ◌∷◌, ◌++◌, arith, Bool-cases,
  Option-cases, is_some, eqb_ℤ, pos,
}
use go_patroni.Base.Result.{Result-cases}
use go_patroni.Texts.{Text}
use go_patroni.Texts.Space.{trim_space}
use go_patroni.Dcs.Snapshots.{Snapshot}
use go_patroni.Control.Types.{Category, Cause, Evidence, Plan}
use go_patroni.Control.Plans.{validate_plan}
use go_patroni.Control.Service.{Service, call, context_error, snapshot, operation_id}
use go_patroni.Control.Service.Runs.{
  Spends, Spent-trans, Spent-any, Spent-weaken, now-Spends, context_error-Spends, snapshot-Spends,
  operation_id-Spends,
}
use go_patroni.Control.Reports.{observe, snapshot_evidence}
use go_patroni.Control.Reports.Spending.{failed_read-Spends}
use go_patroni.Control.VersionGate.{check_snapshot_patroni_version}
use go_patroni.Control.Transition.Intents.{Intent, ClusterWriteData, RequestError}
use go_patroni.Control.Transition.Selections.{Selection, resolve_transition}
use go_patroni.Control.Transition.Contract.{
  transition_plan, validate_transition_plan, revalidate_transition_plan, transition_data,
}
use go_patroni.Control.Transition.Rest.{
  RestReport, accepted_status, call_transition_rest, transition_rest_payload,
}
use go_patroni.Control.Transition.Results.{set_rest}
use go_patroni.Control.Transition.Preparation.{
  refused, unsupported_version, prepare_with, prepare_from, prepare_checked, prepare_transition,
}
use go_patroni.Control.Transition.Execution.{
  accept_response, after_no_response, after_rest, execute_write, execute_selected, execute_from,
  execute_checked, or_new_id, execute_transition, zero_data,
}
use go_patroni.Control.Transition.Spending.{call_transition_rest-Spends}
use go_patroni.Control.Transition.Spending.Fallbacks.{
  verify_transition_fallback-Spends, execute_transition_fallback-Spends,
}

module _ (service : Service) (id : Text) (i : Intent) where
  refused-Spends :
      {T : Type 0} (zero_value : T) (c : Category × Bool) (message : Text) (cause : Option Cause)
      (evidence : List Evidence)
      → Spends 0 0 (refused zero_value service id i c message cause evidence)
  unfolding refused
  refused-Spends zero_value c message cause evidence t =
      search (failed_read-Spends service zero_value)

  unsupported-Spends :
      {T : Type 0} (zero_value : T) (s : Snapshot)
      → Spends 0 0 (unsupported_version zero_value service id i s)
  unfolding unsupported_version snapshot_evidence observe
  unsupported-Spends zero_value s t =
      Spent-trans 0 0 0 0 (now-Spends service t) (search (refused-Spends zero_value))

  module _ (sel : Selection) (d : ClusterWriteData) (report : RestReport)
      (evidence : List Evidence) where
    accept_response-Spends : Spends 0 1 (accept_response service id i sel d report evidence)
    unfolding accept_response
    accept_response-Spends t =
        elim (Bool-cases (eqb_ℤ report.response.status_code (pos 202) && is_some i.scheduled_at)) [
          | inr at_once ↦ rw (at_once, accept_response) (Spent-any 0 1 t)
          | inl scheduled ↦
              rw (scheduled, accept_response)
                (Spent-weaken 0 0 0 1 (omega arith) (omega arith)
                  (verify_transition_fallback-Spends service i sel.leader t))
        ]

    after_no_response-Spends : Spends 0 1 (after_no_response service id i sel d report evidence)
    unfolding after_no_response context_error call
    after_no_response-Spends t = elim (Option-cases (service.on_context t)) [
      | inr (e, ended) ↦
          rw (ended, after_no_response)
            (Spent-weaken 0 0 0 1 (omega arith) (omega arith) (context_error-Spends service t))
      | inl running ↦
          rw (running, after_no_response)
            (Spent-trans 0 0 0 1 (context_error-Spends service t)
              (execute_transition_fallback-Spends service i id sel d report.error evidence _))
    ]

    after_rest-Spends : Spends 0 1 (after_rest service id i sel d report evidence)
    unfolding after_rest
    after_rest-Spends t = elim (Bool-cases (accepted_status report.response.status_code)) [
      | inl accepted ↦ rw (accepted, after_rest) (accept_response-Spends t)
      | inr not_accepted ↦ elim (Bool-cases (eqb_ℤ report.response.status_code (pos 0))) [
        | inr answered ↦ rw (not_accepted, answered, after_rest) (Spent-any 0 1 t)
        | inl silent ↦ rw (not_accepted, silent, after_rest) (after_no_response-Spends t)
      ]
    ]

  execute_write-Spends :
      (sel : Selection) (evidence : List Evidence)
      → Spends 2 1 (execute_write service id i sel evidence)
  unfolding execute_write context_error observe call
  execute_write-Spends sel evidence t = elim (Option-cases (service.on_context t)) [
    | inr (e, ended) ↦
        rw (ended, execute_write)
          (Spent-weaken 0 0 2 1 (omega arith) (omega arith)
            (Spent-trans 0 0 0 0 (context_error-Spends service t) (now-Spends service _)))
    | inl running ↦
        let (report, t') =
          call_transition_rest service i sel (transition_rest_payload service.os i sel)
            (context_error service t).1 in
        rw (running, execute_write)
          (Spent-trans 0 0 2 1 (context_error-Spends service t) (
            Spent-trans 2 0 0 1
              (call_transition_rest-Spends service i sel (transition_rest_payload service.os i sel)
                _)
              (after_rest-Spends sel
                (set_rest (transition_data service.os i sel) report.send report.response.status_code
                  report.legacy)
                report (evidence ++ report.evidence) t')))
  ]

  module _ (p : Plan) where
    execute_selected-Spends :
        (sel : Selection) (evidence : List Evidence)
        → Spends 2 1 (execute_selected service id i p sel evidence)
    unfolding execute_selected
    execute_selected-Spends sel evidence t = elim (Bool-cases (revalidate_transition_plan p sel)) [
      | inl same ↦ rw (same, execute_selected) (execute_write-Spends sel evidence t)
      | inr changed ↦ rw (changed, execute_selected) (Spent-any 2 1 t)
    ]

    execute_from-Spends : (s : Snapshot) → Spends 2 1 (execute_from service id i p s)
    unfolding execute_from snapshot_evidence observe
    execute_from-Spends s t = elim (Option-cases (check_snapshot_patroni_version service s false)) [
      | inr (e, outside) ↦
          rw (outside, execute_from)
            (Spent-weaken 0 0 2 1 (omega arith) (omega arith) (unsupported-Spends zero_data s t))
      | inl within ↦ elim (Result-cases (resolve_transition service.os s i)) [
        | inr (e, changed) ↦
            rw (within, changed, execute_from)
              (Spent-weaken 0 0 2 1 (omega arith) (omega arith) (now-Spends service t))
        | inl (sel, resolved) ↦
            rw (within, resolved, execute_from)
              (Spent-trans 0 0 2 1 (now-Spends service t) (execute_selected-Spends sel _ _))
      ]
    ]

    execute_checked-Spends : Spends 2 1 (execute_checked service id i p)
    unfolding execute_checked snapshot call
    execute_checked-Spends t = elim (Option-cases (validate_transition_plan service.os p i)) [
      | inr (e, invalid) ↦
          rw (invalid, execute_checked)
            (Spent-weaken 0 0 2 1 (omega arith) (omega arith) (search (refused-Spends zero_data)))
      | inl valid ↦ elim (Result-cases (service.on_snapshot t i.target)) [
        | inl (s, answered) ↦
            rw (valid, answered, execute_checked)
              (Spent-trans 0 0 2 1 (snapshot-Spends service i.target t) (execute_from-Spends s _))
        | inr (e, failed) ↦
            rw (valid, failed, execute_checked)
              (Spent-weaken 0 0 2 1 (omega arith) (omega arith) (
                Spent-trans 0 0 0 0 (snapshot-Spends service i.target t)
                  (search (refused-Spends zero_data))))
      ]
    ]

  prepare_with-Spends :
      (s : Snapshot) (sel : Selection) → Spends 0 0 (prepare_with service id i s sel)
  unfolding prepare_with snapshot_evidence observe
  prepare_with-Spends s sel t =
      elim (Option-cases (validate_plan (transition_plan service.os id s i sel))) [
        | inl valid ↦ rw (valid, prepare_with) (now-Spends service t)
        | inr (e, invalid) ↦
            rw (invalid, prepare_with)
              (Spent-trans 0 0 0 0 (now-Spends service t) (search refused-Spends))
      ]

  prepare_from-Spends : (s : Snapshot) → Spends 0 0 (prepare_from service id i s)
  unfolding prepare_from snapshot_evidence observe
  prepare_from-Spends s t = elim (Option-cases (check_snapshot_patroni_version service s false)) [
    | inr (e, outside) ↦ rw (outside, prepare_from) (search unsupported-Spends)
    | inl within ↦ elim (Result-cases (resolve_transition service.os s i)) [
      | inr (category, refusal) ↦
          rw (within, refusal, prepare_from)
            (Spent-trans 0 0 0 0 (now-Spends service t) (search refused-Spends))
      | inl (sel, resolved) ↦ rw (within, resolved, prepare_from) (prepare_with-Spends s sel t)
    ]
  ]

  prepare_checked-Spends : Spends 0 0 (prepare_checked service id i)
  unfolding prepare_checked snapshot call
  prepare_checked-Spends t = elim (Result-cases (service.on_snapshot t i.target)) [
    | inl (s, answered) ↦
        rw (answered, prepare_checked)
          (Spent-trans 0 0 0 0 (snapshot-Spends service i.target t) (prepare_from-Spends s _))
    | inr (e, failed) ↦
        rw (failed, prepare_checked)
          (Spent-trans 0 0 0 0 (snapshot-Spends service i.target t) (search refused-Spends))
  ]

or_new_id-Spends : (service : Service) (value : Text) → Spends 0 0 (or_new_id service value)
or_new_id-Spends service [] t = operation_id-Spends service t
or_new_id-Spends service (c ∷ value) t = Spent-any 0 0 t

-- Whatever Patroni, the DCS, the context and the clock answer, one execution makes at most two calls of
-- Patroni's REST API, of any endpoint, and at most one write to the DCS.
pub execute_transition-Spends :
    (service : Service) (context_given : Bool) (request : Intent × Option RequestError) (p : Plan)
    → Spends 2 1 (execute_transition service context_given request p)
unfolding execute_transition
execute_transition-Spends service false (i, e) p t =
    Spent-weaken 0 0 2 1 (omega arith) (omega arith) (
      Spent-trans 0 0 0 0 (or_new_id-Spends service (trim_space p.operation_id) t)
        (search refused-Spends))
execute_transition-Spends service true (i, some e) p t =
    Spent-weaken 0 0 2 1 (omega arith) (omega arith) (
      Spent-trans 0 0 0 0 (or_new_id-Spends service (trim_space p.operation_id) t)
        (search refused-Spends))
execute_transition-Spends service true (i, none) p t =
    let (id, t') = or_new_id service (trim_space p.operation_id) t in
    Spent-trans 0 0 2 1 (or_new_id-Spends service (trim_space p.operation_id) t)
      (execute_checked-Spends service id i p t')

-- Preparing a transition makes no call of Patroni's REST API, of any endpoint, and no write to the DCS.
pub prepare_transition-Spends :
    (service : Service) (context_given : Bool) (request : Intent × Option RequestError)
    → Spends 0 0 (prepare_transition service context_given request)
unfolding prepare_transition
prepare_transition-Spends service false (i, e) t =
    Spent-trans 0 0 0 0 (operation_id-Spends service t) (search refused-Spends)
prepare_transition-Spends service true (i, some e) t =
    Spent-trans 0 0 0 0 (operation_id-Spends service t) (search refused-Spends)
prepare_transition-Spends service true (i, none) t =
    let (id, t') = operation_id service t in
    Spent-trans 0 0 0 0 (operation_id-Spends service t) (prepare_checked-Spends service id i t')
