-- ===== src/Control/Transition/Silence.antt =====
-- `executeTransition` of control/failover.go: the status of Patroni's latest answer, read off the calls.
pub mod Fallbacks
pub mod Executions
use go_patroni.Base.{
  ℕ, suc, ◌∙◌, if◌then◌else◌, eqb_ℤ, ◌≡◌, refl, inl, inr, Option, none, some, List, [], ◌∷◌,
  Bool-cases, Option-cases, ℤ, pos,
}
use go_patroni.Texts.{Text}
use go_patroni.Target.{Target}
use go_patroni.Dcs.Snapshots.{Member}
use go_patroni.Control.Types.{Cause, Evidence}
use go_patroni.Control.Service.{
  Service, PatroniClient, TransitionPayload, Response, Trace, Call, call, now, context_error,
}
use go_patroni.Control.Reports.{observe}
use go_patroni.Control.Transition.Intents.{Intent, is_failover}
use go_patroni.Control.Transition.Selections.{Selection}
use go_patroni.Control.Transition.Rest.{
  RestReport, rest_report, unsent, post_to_failover, post_to_switchover, legacy_answer, call_legacy,
  after_first_post, first_post, call_at, call_with, call_transition_rest, transition_rest_evidence,
  usable_address,
}

failover_status : Option PatroniClient → Text → TransitionPayload → Trace → ℤ
failover_status none base payload t = pos 0
failover_status (some client) base payload t = (client.on_failover t base payload).0.status_code

switchover_status : Option PatroniClient → Text → TransitionPayload → Trace → ℤ
switchover_status none base payload t = pos 0
switchover_status (some client) base payload t = (client.on_switchover t base payload).0.status_code

-- 0 where the latest of these calls had no HTTP response, or where there is none.
unfoldable pub last_status : Service → Trace → ℤ
unfolding failover_status switchover_status
last_status service [] = pos 0
last_status service (Call.post_failover base payload ∷ t) =
    failover_status service.patroni base payload t
last_status service (Call.post_switchover base payload ∷ t) =
    switchover_status service.patroni base payload t
last_status service (_ ∷ t) = last_status service t

-- The writes to the DCS that were made where the latest answer was an HTTP response.
unfoldable pub answered_writes : Service → Trace → ℕ
unfolding last_status
answered_writes service [] = 0
answered_writes service (Call.write_failover _ _ _ ∷ t) =
    let earlier = answered_writes service t in
    if eqb_ℤ (last_status service t) (pos 0) then earlier else suc earlier
answered_writes service (_ ∷ t) = answered_writes service t

-- A write after no HTTP response adds none.
pub answered_writes-silent :
    (service : Service) (target : Target) (payload : Text) (revision : ℤ) (t : Trace)
    → last_status service t ≡ pos 0
    → answered_writes service (Call.write_failover target payload revision ∷ t)
      ≡ answered_writes service t
unfolding answered_writes
answered_writes-silent service target payload revision t h = rw (h, answered_writes) refl

-- The report has the status of the latest answer, and the calls for it add no write.
abbrev pub ReportsLast : Service → ℕ → RestReport × Trace → Type 0
ReportsLast service n (r, t) =
    (last_status service t ≡ r.response.status_code) × (answered_writes service t ≡ n)

module _ (service : Service) (i : Intent) where
  module _ (client : PatroniClient) (able : service.patroni ≡ some client) where
    first_post-last_status :
        (base : Text) (payload : TransitionPayload) (t : Trace)
        → (last_status service (first_post client i base payload t).1
            ≡ (first_post client i base payload t).0.0.status_code)
          × (answered_writes service (first_post client i base payload t).1
              ≡ answered_writes service t)
    unfolding first_post post_to_failover post_to_switchover call last_status failover_status
        switchover_status answered_writes
    first_post-last_status base payload t = elim (Bool-cases (is_failover i)) [
      | inl e ↦ rw (e, first_post) (rw (able, last_status) refl, refl)
      | inr e ↦ rw (e, first_post) (rw (able, last_status) refl, refl)
    ]

    call_legacy-ReportsLast :
        (base : Text) (payload : TransitionPayload) (evidence : List Evidence) (t : Trace)
        → ReportsLast service
            (answered_writes service t)
            (call_legacy service client i base payload evidence t)
    unfolding call_legacy post_to_failover transition_rest_evidence rest_report observe now call
        last_status failover_status answered_writes
    call_legacy-ReportsLast base payload evidence t = (rw (able, last_status) refl, refl)

    after_first_post-ReportsLast :
        (base : Text) (payload : TransitionPayload) (first : Response × Option Cause)
        (evidence : List Evidence) (t : Trace)
        → last_status service t ≡ first.0.status_code
        → ReportsLast service
            (answered_writes service t)
            (after_first_post service client i base payload first evidence t)
    unfolding after_first_post context_error rest_report call last_status answered_writes
    after_first_post-ReportsLast base payload first evidence t h =
        elim (Bool-cases (legacy_answer i first.0)) [
          | inr other ↦ rw (other, after_first_post) (h, refl)
          | inl legacy ↦ elim (Option-cases (service.on_context t)) [
            | inr (e, ended) ↦ rw (legacy, ended, after_first_post) (h, refl)
            | inl running ↦
                rw (legacy, running, after_first_post)
                  (call_legacy-ReportsLast base payload evidence (Call.check_context ∷ t))
          ]
        ]

    call_at-ReportsLast :
        (payload : TransitionPayload) (address : Option Text) (t : Trace)
        → last_status service t ≡ pos 0
        → ReportsLast service
            (answered_writes service t)
            (call_at service client i payload address t)
    unfolding call_at transition_rest_evidence unsent observe now call last_status answered_writes
    call_at-ReportsLast payload none t h = (h, refl)
    call_at-ReportsLast payload (some base) t h =
        let (first, t') = first_post client i base payload t in
        let sent = first_post-last_status base payload t in
        let reported =
          after_first_post-ReportsLast base payload first _ (Call.read_clock ∷ t') sent.0 in
        (reported.0, reported.1 ∙ sent.1)

  call_with-ReportsLast :
      (client : Option PatroniClient) (member : Option Member) (payload : TransitionPayload)
      (t : Trace)
      → service.patroni ≡ client
      → last_status service t ≡ pos 0
      → ReportsLast service
          (answered_writes service t)
          (call_with service client member i payload t)
  unfolding call_with unsent observe now call last_status answered_writes
  call_with-ReportsLast none member payload t able h = (h, refl)
  call_with-ReportsLast (some client) none payload t able h = (h, refl)
  call_with-ReportsLast (some client) (some m) payload t able h =
      call_at-ReportsLast client able payload (usable_address service m) t h

  pub call_transition_rest-ReportsLast :
      (sel : Selection) (payload : TransitionPayload) (t : Trace)
      → last_status service t ≡ pos 0
      → ReportsLast service
          (answered_writes service t)
          (call_transition_rest service i sel payload t)
  unfolding call_transition_rest
  call_transition_rest-ReportsLast sel payload t h =
      call_with-ReportsLast service.patroni sel.rest_member payload t refl h
