-- ===== src/Control/Transition/Silence/Fallbacks.antt =====
-- `executeTransitionFallback` of control/failover.go: its DCS write against Patroni's latest answer.
use go_patroni.Base.{
  pos, ◌∙◌, ◌≡◌, refl, inl, inr, Option, none, some, List, ◌∷◌, Bool-cases, Option-cases,
}
use go_patroni.Base.Result.{Result-cases}
use go_patroni.Texts.{Text}
use go_patroni.Dcs.Snapshots.{ClusterState, Snapshot}
use go_patroni.Control.Types.{Cause, Evidence}
use go_patroni.Control.Service.{
  Service, FailoverWriter, Trace, Call, call, now, context_error, snapshot,
}
use go_patroni.Control.Reports.{observe, snapshot_evidence}
use go_patroni.Control.Transition.Intents.{Intent, ClusterWriteData}
use go_patroni.Control.Transition.Selections.{Selection, failover_revision}
use go_patroni.Control.Transition.Fallback.{
  transition_dcs_payload, transition_leader_completed, validate_fallback_transition,
}
use go_patroni.Control.Transition.Recovery.{
  write_to_dcs, write_fallback, fallback_with, fallback_if_able, fallback_from,
  execute_transition_fallback,
}
use go_patroni.Control.Transition.Settlement.{verify_transition_fallback_keeps}
use go_patroni.Control.Transition.Silence.{last_status, answered_writes, answered_writes-silent}

module _ (service : Service) (id : Text) (i : Intent) (planned : Selection) (d : ClusterWriteData)
    (rest_error : Option Cause) where
  write_fallback-answered_writes :
      (writer : FailoverWriter) (fresh : ClusterState) (evidence : List Evidence) (payload : Text)
      (t : Trace)
      → last_status service t ≡ pos 0
      → answered_writes service
          (write_fallback service writer id i planned d rest_error fresh evidence payload t).1
        ≡ answered_writes service t
  unfolding write_fallback write_to_dcs observe now call answered_writes last_status
  write_fallback-answered_writes writer fresh evidence payload t silent =
      let revision = failover_revision fresh.failover in
      verify_transition_fallback_keeps service i planned.leader (answered_writes service)
        (λ t. refl) (λ t. refl) (λ t. refl)
        (Call.read_clock ∷ Call.write_failover i.target payload revision ∷ t)
      ∙ answered_writes-silent service i.target payload revision t silent

  fallback_with-answered_writes :
      (writer : FailoverWriter) (fresh : ClusterState) (evidence : List Evidence) (t : Trace)
      → last_status service t ≡ pos 0
      → answered_writes service
          (fallback_with service writer id i planned d rest_error fresh evidence t).1
        ≡ answered_writes service t
  unfolding fallback_with context_error call answered_writes last_status
  fallback_with-answered_writes writer fresh evidence t silent =
      elim (Option-cases (service.on_context t)) [
        | inr (e, ended) ↦ rw (ended, fallback_with) refl
        | inl running ↦ elim (Result-cases (transition_dcs_payload service.os i planned)) [
          | inr (e, failed) ↦ rw (running, failed, fallback_with) refl
          | inl (payload, encoded) ↦
              rw (running, encoded, fallback_with)
                (write_fallback-answered_writes writer fresh evidence payload
                  (Call.check_context ∷ t) silent)
        ]
      ]

  fallback_if_able-answered_writes :
      (writer : Option FailoverWriter) (fresh : ClusterState) (evidence : List Evidence) (t : Trace)
      → last_status service t ≡ pos 0
      → answered_writes service
          (fallback_if_able service writer id i planned d rest_error fresh evidence t).1
        ≡ answered_writes service t
  unfolding fallback_if_able
  fallback_if_able-answered_writes none fresh evidence t silent = refl
  fallback_if_able-answered_writes (some writer) fresh evidence t silent =
      fallback_with-answered_writes writer fresh evidence t silent

  fallback_from-answered_writes :
      (fresh : Snapshot) (evidence : List Evidence) (t : Trace)
      → last_status service t ≡ pos 0
      → answered_writes service (fallback_from service id i planned d rest_error fresh evidence t).1
        ≡ answered_writes service t
  unfolding fallback_from
  fallback_from-answered_writes fresh evidence t silent =
      elim (Bool-cases (transition_leader_completed fresh.cluster i planned.leader)) [
        | inl done ↦ rw (done, fallback_from) refl
        | inr not_done ↦
            elim (Option-cases (validate_fallback_transition fresh.cluster i planned)) [
              | inr (e, changed) ↦ rw (not_done, changed, fallback_from) refl
              | inl same ↦
                  rw (not_done, same, fallback_from)
                    (fallback_if_able-answered_writes service.failover_dcs fresh.cluster evidence t
                      silent)
            ]
      ]

  pub execute_transition_fallback-answered_writes :
      (evidence : List Evidence) (t : Trace)
      → last_status service t ≡ pos 0
      → answered_writes service
          (execute_transition_fallback service id i planned d rest_error evidence t).1
        ≡ answered_writes service t
  unfolding execute_transition_fallback snapshot snapshot_evidence observe now call answered_writes
      last_status
  execute_transition_fallback-answered_writes evidence t silent =
      elim (Result-cases (service.on_snapshot t i.target)) [
        | inr (e, failed) ↦ rw (failed, execute_transition_fallback) refl
        | inl (fresh, answered) ↦
            rw (answered, execute_transition_fallback)
              (fallback_from-answered_writes fresh _
                (Call.read_clock ∷ Call.read_snapshot i.target ∷ t) silent)
      ]
