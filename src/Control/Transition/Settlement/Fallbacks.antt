-- ===== src/Control/Transition/Settlement/Fallbacks.antt =====
-- `executeTransitionFallback` of control/failover.go: the calls that a failure leaves in doubt.
use go_patroni.Base.{
  ℕ, ◌≡◌, refl, ◌∙◌, inl, inr, Bool, true, false, ◌&&◌, Option, none, some, List, ◌∷◌, ◌++◌, arith,
  Bool-cases, Option-cases, is_some,
}
use go_patroni.Base.Result.{Result-cases}
use go_patroni.Texts.{Text}
use go_patroni.Dcs.Snapshots.{ClusterState, Snapshot}
use go_patroni.Control.Types.{Outcome, Category, Verification, Cause, Evidence, plain}
use go_patroni.Control.Errors.{classify_read_error}
use go_patroni.Control.Service.{
  Service, FailoverWriter, WriteResult, Trace, Call, call, now, context_error, snapshot,
}
use go_patroni.Control.Doubts.{doubts, doubts-settled, in_doubt, write_in_doubt, is_pending_write}
use go_patroni.Control.Reports.{observe, snapshot_evidence}
use go_patroni.Control.Transition.Intents.{Intent, ClusterWriteData}
use go_patroni.Control.Transition.Selections.{Selection, failover_revision}
use go_patroni.Control.Transition.Results.{
  TransitionResult, transition_success, transition_unknown, set_dcs, set_verification,
}
use go_patroni.Control.Transition.Fallback.{
  Verdict, has_conflict, dcs_send_state, transition_dcs_fields, transition_dcs_payload,
  transition_leader_completed, validate_fallback_transition, verify_transition_fallback,
}
use go_patroni.Control.Transition.Recovery.{
  may_have_arrived, is_not_sent, give_up, unverified_write, newest, finish_write, write_to_dcs,
  write_fallback, fallback_with, fallback_if_able, fallback_from, execute_transition_fallback,
}
use go_patroni.Control.Transition.Soundness.Fallbacks.{Marshals}
use go_patroni.Control.Transition.Settlement.{verify_transition_fallback-doubts}

-- The doubts are the given number wherever the result is a failure.
abbrev pub Settled : Service → ℕ → TransitionResult × Trace → Type 0
Settled service n (r, t) = r.outcome ≡ Outcome.failed → doubts service t ≡ n

-- Where the REST call of the data did not arrive, the doubts are the given number.
abbrev pub Accounts : Service → ℕ → ClusterWriteData → Trace → Type 0
Accounts service n d t = may_have_arrived d.rest_send_state ≡ false → doubts service t ≡ n

module _ (service : Service) (n : ℕ) (id : Text) (i : Intent) where
  give_up-Settled :
      (d : ClusterWriteData) (c : Category × Bool) (ambiguous refusal : Text) (cause : Option Cause)
      (evidence : List Evidence) (t : Trace)
      → Accounts service n d t
      → Settled service n (give_up id i d c ambiguous refusal cause evidence, t)
  unfolding give_up transition_unknown
  give_up-Settled d c ambiguous refusal cause evidence t h =
      elim (Bool-cases (may_have_arrived d.rest_send_state)) [
        | inl arrived ↦ rw (arrived, give_up) (λ e. cc)
        | inr not_arrived ↦ rw (not_arrived, give_up) (λ _. h not_arrived)
      ]

  unverified_write-Settled :
      (d : ClusterWriteData) (write_error rest_error : Option Cause) (evidence : List Evidence)
      (t : Trace)
      → (has_conflict write_error ≡ true → Accounts service n d t)
      → (is_not_sent d.dcs_send_state ≡ true → Accounts service n d t)
      → Settled service n (unverified_write id i d write_error rest_error evidence, t)
  unfolding unverified_write transition_unknown
  unverified_write-Settled d write_error rest_error evidence t refused unsent =
      elim (Bool-cases (has_conflict write_error)) [
        | inl conflicted ↦
            rw (conflicted, unverified_write)
              (give_up-Settled d (Category.conflict, false) _ _ write_error evidence t
                (refused conflicted))
        | inr other ↦
            elim (Bool-cases (
              is_some write_error
              && (is_not_sent d.dcs_send_state && is_not_sent d.rest_send_state))) [
                | inl never ↦
                    rw (other, never, unverified_write)
                      (λ _. unsent (ground (arith, never)) (ground (arith, never)))
                | inr maybe ↦ rw (other, maybe, unverified_write) (λ e. cc)
              ]
      ]

  finish_write-Settled :
      (d : ClusterWriteData) (answer : WriteResult × Option Cause) (v : Verdict)
      (rest_error : Option Cause) (evidence : List Evidence) (t : Trace)
      → (is_pending_write answer ≡ false → Accounts service n d t)
      → Settled service n (finish_write id i d answer v rest_error evidence, t)
  unfolding finish_write transition_success set_verification set_dcs is_pending_write
  finish_write-Settled d (result, write_error) v rest_error evidence t h =
      elim (Bool-cases v.verified) [
        | inl seen ↦ rw (seen, finish_write) (λ e. cc)
        | inr unseen ↦
            rw (unseen, finish_write)
              (unverified_write-Settled
                (set_verification
                  (set_dcs d (dcs_send_state write_error result.applied)
                    (newest result.revision v.revision))
                  Verification.unverified)
                write_error rest_error (evidence ++ v.evidence) t (λ k. h (ground (arith, k)))
                (λ k. h (ground (arith, k))))
      ]

  module _ (planned : Selection) (d : ClusterWriteData) (rest_error : Option Cause) where
    write_fallback-Settled :
        (writer : FailoverWriter) (fresh : ClusterState) (evidence : List Evidence) (payload : Text)
        (t : Trace)
        → service.failover_dcs ≡ some writer
        → Accounts service n d t
        → Settled service n
            (write_fallback service writer id i planned d rest_error fresh evidence payload t)
    unfolding write_fallback write_to_dcs observe now call doubts in_doubt write_in_doubt
    write_fallback-Settled writer fresh evidence payload t able h =
        let revision = failover_revision fresh.failover in
        let answer = writer.on_write t i.target payload revision in
        let write = Call.write_failover i.target payload revision in
        let t' = Call.read_clock ∷ write ∷ t in
        let (v, t'') = verify_transition_fallback service i planned.leader t' in
        finish_write-Settled d answer v rest_error _ t'' (λ k l.
          verify_transition_fallback-doubts service i planned.leader t'
          ∙ doubts-settled service write t (rw (able, in_doubt) k)
          ∙ h l)

    module _ (marshals : Marshals service) where
      fallback_with-Settled :
          (writer : FailoverWriter) (fresh : ClusterState) (evidence : List Evidence) (t : Trace)
          → service.failover_dcs ≡ some writer
          → Accounts service n d t
          → Settled service n
              (fallback_with service writer id i planned d rest_error fresh evidence t)
      unfolding fallback_with context_error transition_dcs_payload call doubts in_doubt
      fallback_with-Settled writer fresh evidence t able h =
          let t' = Call.check_context ∷ t in
          elim (Option-cases (service.on_context t)) [
            | inr (e, ended) ↦
                rw (ended, fallback_with)
                  (give_up-Settled d (Category.failed, false) _ _ (some e) evidence t' h)
            | inl running ↦
                let (payload, encoded) = marshals (transition_dcs_fields service.os i planned) in
                rw (running, encoded, fallback_with)
                  (write_fallback-Settled writer fresh evidence payload t' able h)
          ]

      fallback_if_able-Settled :
          (writer : Option FailoverWriter) (fresh : ClusterState) (evidence : List Evidence)
          (t : Trace)
          → service.failover_dcs ≡ writer
          → Accounts service n d t
          → Settled service n
              (fallback_if_able service writer id i planned d rest_error fresh evidence t)
      unfolding fallback_if_able
      fallback_if_able-Settled none fresh evidence t able h =
          give_up-Settled d (Category.config, false) _ _ (some plain) evidence t h
      fallback_if_able-Settled (some writer) fresh evidence t able h =
          fallback_with-Settled writer fresh evidence t able h

      fallback_from-Settled :
          (fresh : Snapshot) (evidence : List Evidence) (t : Trace)
          → Accounts service n d t
          → Settled service n (fallback_from service id i planned d rest_error fresh evidence t)
      unfolding fallback_from transition_success
      fallback_from-Settled fresh evidence t h =
          elim (Bool-cases (transition_leader_completed fresh.cluster i planned.leader)) [
            | inl done ↦ rw (done, fallback_from) (λ e. cc)
            | inr not_done ↦
                elim (Option-cases (validate_fallback_transition fresh.cluster i planned)) [
                  | inr (e, changed) ↦
                      rw (not_done, changed, fallback_from)
                        (give_up-Settled d (Category.conflict, false) _ _ (some plain) evidence t h)
                  | inl same ↦
                      rw (not_done, same, fallback_from)
                        (fallback_if_able-Settled service.failover_dcs fresh.cluster evidence t refl
                          h)
                ]
          ]

      pub execute_transition_fallback-Settled :
          (evidence : List Evidence) (t : Trace)
          → Accounts service n d t
          → Settled service n
              (execute_transition_fallback service id i planned d rest_error evidence t)
      unfolding execute_transition_fallback snapshot snapshot_evidence observe now call doubts
          in_doubt
      execute_transition_fallback-Settled evidence t h =
          let t' = Call.read_clock ∷ Call.read_snapshot i.target ∷ t in
          elim (Result-cases (service.on_snapshot t i.target)) [
            | inl (fresh, answered) ↦
                rw (answered, execute_transition_fallback) (fallback_from-Settled fresh _ t' h)
            | inr (e, failed) ↦
                rw (failed, execute_transition_fallback)
                  (give_up-Settled d (classify_read_error (some e)) _ _ (some e) _ t' h)
          ]
