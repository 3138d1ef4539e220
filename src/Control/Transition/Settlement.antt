-- ===== src/Control/Transition/Settlement.antt =====
-- What the REST call and the reading back of a transition leave in doubt.
pub mod Fallbacks
pub mod Executions
use go_patroni.Base.{
  ℕ, zero, suc, ◌≡◌, refl, ◌∙◌, inl, inr, Bool, true, false, ◌&&◌, Option, none, some, List, [],
  ◌∷◌, arith, Bool-cases, Option-cases, pos, eqb_ℤ, eqb_ℤ_iff,
}
use go_patroni.Base.Result.{Result-cases}
use go_patroni.Texts.{Text}
use go_patroni.Dcs.Snapshots.{Member}
use go_patroni.Control.Types.{SendState, Cause, Evidence}
use go_patroni.Control.Errors.{patroni_send_state}
use go_patroni.Control.Service.{
  Service, PatroniClient, TransitionPayload, Response, Trace, Call, call, now, context_error,
  snapshot, wait_interval,
}
use go_patroni.Control.Doubts.{doubts, doubts-settled, in_doubt, rest_in_doubt, is_lost, status_of}
use go_patroni.Control.Reports.{observe}
use go_patroni.Control.Writes.Responses.{may_be_sent}
use go_patroni.Control.Transition.Intents.{Intent, is_failover}
use go_patroni.Control.Transition.Selections.{Selection}
use go_patroni.Control.Transition.Recovery.{may_have_arrived}
use go_patroni.Control.Transition.Fallback.{
  Verdict, read_back, verify_rounds, verify_transition_fallback,
}
use go_patroni.Control.Transition.Rest.{
  RestReport, rest_report, unsent, post_to_failover, post_to_switchover, legacy_answer, call_legacy,
  after_first_post, first_post, call_at, call_with, call_transition_rest, transition_rest_evidence,
  usable_address,
}

-- The report accounts for the doubts: there are `n`, unless the call may have arrived and had no HTTP
-- response.
pub record Reported (service : Service) (n : ℕ) (r : RestReport) (t : Trace) : Type 0 where
  pub not_arrived : may_have_arrived r.send ≡ false → doubts service t ≡ n
  pub answered : eqb_ℤ r.response.status_code (pos 0) ≡ false → doubts service t ≡ n

not_sent_not_lost :
    (answer : Response × Option Cause)
    → may_have_arrived (patroni_send_state answer.1 answer.0.status_code) ≡ false
    → is_lost (status_of answer) ≡ false
unfolding is_lost
not_sent_not_lost (response, cause) h = and_false _ _ (same _ h)
  where
    and_false : (a b : Bool) → b ≡ false → (a && b) ≡ false
    and_false a b h = ground arith

    same : (send : SendState) → may_have_arrived send ≡ false → may_be_sent send ≡ false
    same send h = ground (arith, h)

answered_not_lost :
    (answer : Response × Option Cause)
    → eqb_ℤ answer.0.status_code (pos 0) ≡ false
    → is_lost (status_of answer) ≡ false
unfolding is_lost
answered_not_lost (response, cause) h = rw (h, is_lost) refl

-- The report of an answer whose call is the latest.
rest_report-Reported :
    (service : Service) (n : ℕ) (answer : Response × Option Cause) (legacy : Bool)
    (evidence : List Evidence) (error : Option Cause) (t : Trace)
    → (is_lost (status_of answer) ≡ false → doubts service t ≡ n)
    → Reported service n (rest_report answer legacy evidence error) t
unfolding rest_report
rest_report-Reported service n (response, cause) legacy evidence error t h = record {
  not_arrived = λ k. h (not_sent_not_lost (response, cause) k);
  answered = λ k. h (answered_not_lost (response, cause) k);
}

module _ (service : Service) (i : Intent) where
  module _ (client : PatroniClient) (able : service.patroni ≡ some client) where
    first_post-doubts :
        (base : Text) (payload : TransitionPayload) (t : Trace)
        → is_lost (status_of (first_post client i base payload t).0) ≡ false
        → doubts service (first_post client i base payload t).1 ≡ doubts service t
    unfolding first_post post_to_failover post_to_switchover call in_doubt rest_in_doubt
    first_post-doubts base payload t h = elim (Bool-cases (is_failover i)) [
      | inl e ↦
          rw (e, first_post)
            (doubts-settled service (Call.post_failover base payload) t
              (rw (able, in_doubt) (rw (e, first_post) at h)))
      | inr e ↦
          rw (e, first_post)
            (doubts-settled service (Call.post_switchover base payload) t
              (rw (able, in_doubt) (rw (e, first_post) at h)))
    ]

    call_legacy-Reported :
        (base : Text) (payload : TransitionPayload) (evidence : List Evidence) (t : Trace)
        → Reported service
            (doubts service t)
            (call_legacy service client i base payload evidence t).0
            (call_legacy service client i base payload evidence t).1
    unfolding call_legacy post_to_failover transition_rest_evidence observe now call in_doubt
        rest_in_doubt doubts
    call_legacy-Reported base payload evidence t =
        rest_report-Reported service (doubts service t) (client.on_failover t base payload) true _
          (client.on_failover t base payload).1 _
          (λ h. doubts-settled service (Call.post_failover base payload) t (rw (able, in_doubt) h))

    legacy_answered :
        (response : Response)
        → legacy_answer i response ≡ true
        → eqb_ℤ response.status_code (pos 0) ≡ false
    unfolding legacy_answer
    legacy_answered response h =
        ground (
          arith,
          eqb_ℤ_iff response.status_code (pos 501),
          eqb_ℤ_iff response.status_code (pos 0),
          h,
        )

    after_first_post-Reported :
        (base : Text) (payload : TransitionPayload) (first : Response × Option Cause)
        (evidence : List Evidence) (n : ℕ) (t : Trace)
        → (is_lost (status_of first) ≡ false → doubts service t ≡ n)
        → Reported service n
            (after_first_post service client i base payload first evidence t).0
            (after_first_post service client i base payload first evidence t).1
    unfolding after_first_post context_error call doubts in_doubt
    after_first_post-Reported base payload first evidence n t h =
        elim (Bool-cases (legacy_answer i first.0)) [
          | inr other ↦
              rw (other, after_first_post)
                (rest_report-Reported service n first false evidence first.1 t h)
          | inl legacy ↦
              let same = h (answered_not_lost first (legacy_answered first.0 legacy)) in
              let t' = Call.check_context ∷ t in
              elim (Option-cases (service.on_context t)) [
                | inr (e, ended) ↦
                    rw (legacy, ended, after_first_post)
                      (rest_report-Reported service n first false evidence (some e) t' (λ _. same))
                | inl running ↦
                    let r = call_legacy-Reported base payload evidence t' in
                    rw (legacy, running, after_first_post)
                      (record {
                        not_arrived = λ k. r.not_arrived k ∙ same;
                        answered = λ k. r.answered k ∙ same;
                      })
              ]
        ]

    call_at-Reported :
        (payload : TransitionPayload) (address : Option Text) (t : Trace)
        → Reported service
            (doubts service t)
            (call_at service client i payload address t).0
            (call_at service client i payload address t).1
    unfolding call_at transition_rest_evidence unsent observe now call doubts in_doubt
    call_at-Reported payload none t = record { not_arrived = λ _. refl; answered = λ _. refl }
    call_at-Reported payload (some base) t =
        let (first, t') = first_post client i base payload t in
        after_first_post-Reported base payload first _ (doubts service t) (Call.read_clock ∷ t')
          (first_post-doubts base payload t)

  call_with-Reported :
      (client : Option PatroniClient) (member : Option Member) (payload : TransitionPayload)
      (t : Trace)
      → service.patroni ≡ client
      → Reported service
          (doubts service t)
          (call_with service client member i payload t).0
          (call_with service client member i payload t).1
  unfolding call_with unsent observe now call doubts in_doubt
  call_with-Reported none member payload t able = record {
    not_arrived = λ _. refl;
    answered = λ _. refl;
  }
  call_with-Reported (some client) none payload t able = record {
    not_arrived = λ _. refl;
    answered = λ _. refl;
  }
  call_with-Reported (some client) (some m) payload t able =
      call_at-Reported client able payload (usable_address service m) t

  pub call_transition_rest-Reported :
      (sel : Selection) (payload : TransitionPayload) (t : Trace)
      → Reported service
          (doubts service t)
          (call_transition_rest service i sel payload t).0
          (call_transition_rest service i sel payload t).1
  unfolding call_transition_rest
  call_transition_rest-Reported sel payload t =
      call_with-Reported service.patroni sel.rest_member payload t refl

-- What the calls of a verification keep: a number read off the trace that they do not change.
module _ {ℓ} {A : Type ℓ} (service : Service) (i : Intent) (leader : Text) (f : Trace → A)
    (at_clock : (t : Trace) → f (Call.read_clock ∷ t) ≡ f t)
    (at_wait : (t : Trace) → f (Call.wait ∷ t) ≡ f t)
    (at_read : (t : Trace) → f (Call.read_snapshot i.target ∷ t) ≡ f t) where
  read_back_keeps : (before : Verdict) (t : Trace) → f (read_back service i leader before t).1 ≡ f t
  unfolding read_back snapshot observe now call
  read_back_keeps before t = elim (Result-cases (service.on_snapshot t i.target)) [
    | inl (s, answered) ↦
        rw (answered, read_back) (at_clock (Call.read_snapshot i.target ∷ t) ∙ at_read t)
    | inr (e, failed) ↦
        rw (failed, read_back) (at_clock (Call.read_snapshot i.target ∷ t) ∙ at_read t)
  ]

  round_keeps :
      (rounds : ℕ) (before : Verdict)
      → ((after : Verdict) (t : Trace)
          → f (verify_rounds service i leader rounds false after t).1 ≡ f t)
      → (t : Trace) → f (verify_rounds service i leader (suc rounds) true before t).1 ≡ f t
  unfolding verify_rounds
  round_keeps rounds before ih t =
      let (after, t') = read_back service i leader before t in
      elim (Bool-cases after.verified) [
        | inl seen ↦ rw (verify_rounds, seen) (read_back_keeps before t)
        | inr unseen ↦ rw (verify_rounds, unseen) (ih after t' ∙ read_back_keeps before t)
      ]

  verify_rounds_keeps :
      (rounds : ℕ) (first : Bool) (before : Verdict) (t : Trace)
      → f (verify_rounds service i leader rounds first before t).1 ≡ f t
  unfolding verify_rounds wait_interval observe now call
  verify_rounds_keeps zero first before t = refl
  verify_rounds_keeps (suc rounds) true before t =
      round_keeps rounds before (verify_rounds_keeps rounds false) t
  verify_rounds_keeps (suc rounds) false before t = elim (Option-cases (service.on_wait t)) [
    | inr (e, canceled) ↦ rw (canceled, verify_rounds) (at_clock (Call.wait ∷ t) ∙ at_wait t)
    | inl waited ↦
        rw (waited, verify_rounds)
          (round_keeps rounds before (verify_rounds_keeps rounds false) (Call.wait ∷ t) ∙ at_wait t)
  ]

  pub verify_transition_fallback_keeps :
      (t : Trace) → f (verify_transition_fallback service i leader t).1 ≡ f t
  unfolding verify_transition_fallback
  verify_transition_fallback_keeps t = verify_rounds_keeps service.verification_attempts true _ t

pub verify_transition_fallback-doubts :
    (service : Service) (i : Intent) (leader : Text) (t : Trace)
    → doubts service (verify_transition_fallback service i leader t).1 ≡ doubts service t
unfolding doubts in_doubt
verify_transition_fallback-doubts service i leader t =
    verify_transition_fallback_keeps service i leader (doubts service) (λ t. refl) (λ t. refl)
      (λ t. refl) t
