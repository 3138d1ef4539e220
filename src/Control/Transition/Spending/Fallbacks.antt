-- ===== src/Control/Transition/Spending/Fallbacks.antt =====
-- The writes of the DCS fallback.
use go_patroni.Base.{
  ℕ, zero, suc, inl, inr, Bool, true, false, Option, none, some, List, arith, Bool-cases,
  Option-cases,
}
use go_patroni.Base.Result.{Result-cases}
use go_patroni.Texts.{Text}
use go_patroni.Dcs.Snapshots.{ClusterState, Snapshot}
use go_patroni.Control.Types.{Cause, Evidence}
use go_patroni.Control.Service.{
  Service, call, FailoverWriter, context_error, snapshot, wait_interval,
}
use go_patroni.Control.Service.Runs.{
  posts, dcs_writes, Spends, Spent-trans, Spent-any, Spent-weaken, now-Spends, context_error-Spends,
  snapshot-Spends, wait_interval-Spends,
}
use go_patroni.Control.Reports.{observe, snapshot_evidence}
use go_patroni.Control.Transition.Intents.{Intent, ClusterWriteData}
use go_patroni.Control.Transition.Selections.{Selection}
use go_patroni.Control.Transition.Fallback.{
  Verdict, read_back, verify_rounds, verify_transition_fallback, validate_fallback_transition,
  transition_leader_completed, transition_dcs_payload,
}
use go_patroni.Control.Transition.Recovery.{
  write_to_dcs, write_fallback, fallback_with, fallback_if_able, fallback_from,
  execute_transition_fallback,
}

module _ (service : Service) (i : Intent) where
  module _ (leader : Text) where
    read_back-Spends : (before : Verdict) → Spends 0 0 (read_back service i leader before)
    unfolding read_back snapshot observe call
    read_back-Spends before t = elim (Result-cases (service.on_snapshot t i.target)) [
      | inl (s, answered) ↦
          rw (answered, read_back)
            (Spent-trans 0 0 0 0 (snapshot-Spends service i.target t) (now-Spends service _))
      | inr (e, failed) ↦
          rw (failed, read_back)
            (Spent-trans 0 0 0 0 (snapshot-Spends service i.target t) (now-Spends service _))
    ]

    -- A round that does not wait.
    round-Spends :
        (rounds : ℕ) (before : Verdict)
        → ((after : Verdict) → Spends 0 0 (verify_rounds service i leader rounds false after))
        → Spends 0 0 (verify_rounds service i leader (suc rounds) true before)
    unfolding verify_rounds
    round-Spends rounds before ih t =
        let (after, t') = read_back service i leader before t in
        elim (Bool-cases after.verified) [
          | inl seen ↦ rw (verify_rounds, seen) (read_back-Spends before t)
          | inr unseen ↦
              rw (verify_rounds, unseen)
                (Spent-trans 0 0 0 0 (read_back-Spends before t) (ih after t'))
        ]

    verify_rounds-Spends :
        (rounds : ℕ) (first : Bool) (before : Verdict)
        → Spends 0 0 (verify_rounds service i leader rounds first before)
    unfolding verify_rounds wait_interval observe call
    verify_rounds-Spends zero first before t = Spent-any 0 0 t
    verify_rounds-Spends (suc rounds) true before t =
        round-Spends rounds before (verify_rounds-Spends rounds false) t
    verify_rounds-Spends (suc rounds) false before t = elim (Option-cases (service.on_wait t)) [
      | inr (e, canceled) ↦
          rw (canceled, verify_rounds)
            (Spent-trans 0 0 0 0 (wait_interval-Spends service t) (now-Spends service _))
      | inl waited ↦
          rw (waited, verify_rounds)
            (Spent-trans 0 0 0 0 (wait_interval-Spends service t)
              (round-Spends rounds before (verify_rounds-Spends rounds false) _))
    ]

    pub verify_transition_fallback-Spends : Spends 0 0 (verify_transition_fallback service i leader)
    unfolding verify_transition_fallback
    verify_transition_fallback-Spends t =
        verify_rounds-Spends service.verification_attempts true _ t

  module _ (id : Text) (planned : Selection) (d : ClusterWriteData)
      (rest_error : Option Cause) where
    write_fallback-Spends :
        (writer : FailoverWriter) (fresh : ClusterState) (evidence : List Evidence) (payload : Text)
        → Spends 0 1
            (write_fallback service writer id i planned d rest_error fresh evidence payload)
    unfolding write_fallback write_to_dcs observe call posts dcs_writes
    write_fallback-Spends writer fresh evidence payload t =
        Spent-trans 0 1 0 0 (record { posted = omega arith; written = omega arith })
          (Spent-trans 0 0 0 0 (now-Spends service _)
            (verify_transition_fallback-Spends planned.leader _))

    fallback_with-Spends :
        (writer : FailoverWriter) (fresh : ClusterState) (evidence : List Evidence)
        → Spends 0 1 (fallback_with service writer id i planned d rest_error fresh evidence)
    unfolding fallback_with context_error call
    fallback_with-Spends writer fresh evidence t = elim (Option-cases (service.on_context t)) [
      | inr (e, ended) ↦
          rw (ended, fallback_with)
            (Spent-weaken 0 0 0 1 (omega arith) (omega arith) (context_error-Spends service t))
      | inl running ↦ elim (Result-cases (transition_dcs_payload service.os i planned)) [
        | inr (e, failed) ↦
            rw (running, failed, fallback_with)
              (Spent-weaken 0 0 0 1 (omega arith) (omega arith) (context_error-Spends service t))
        | inl (payload, encoded) ↦
            rw (running, encoded, fallback_with)
              (Spent-trans 0 0 0 1 (context_error-Spends service t)
                (write_fallback-Spends writer fresh evidence payload _))
      ]
    ]

    fallback_if_able-Spends :
        (writer : Option FailoverWriter) (fresh : ClusterState) (evidence : List Evidence)
        → Spends 0 1 (fallback_if_able service writer id i planned d rest_error fresh evidence)
    unfolding fallback_if_able
    fallback_if_able-Spends none fresh evidence t = Spent-any 0 1 t
    fallback_if_able-Spends (some writer) fresh evidence t =
        fallback_with-Spends writer fresh evidence t

    fallback_from-Spends :
        (fresh : Snapshot) (evidence : List Evidence)
        → Spends 0 1 (fallback_from service id i planned d rest_error fresh evidence)
    unfolding fallback_from
    fallback_from-Spends fresh evidence t =
        elim (Bool-cases (transition_leader_completed fresh.cluster i planned.leader)) [
          | inl complete ↦ rw (complete, fallback_from) (Spent-any 0 1 t)
          | inr incomplete ↦
              elim (Option-cases (validate_fallback_transition fresh.cluster i planned)) [
                | inr (e, changed) ↦ rw (incomplete, changed, fallback_from) (Spent-any 0 1 t)
                | inl same ↦
                    rw (incomplete, same, fallback_from)
                      (fallback_if_able-Spends service.failover_dcs fresh.cluster evidence t)
              ]
        ]

    pub execute_transition_fallback-Spends :
        (evidence : List Evidence)
        → Spends 0 1 (execute_transition_fallback service id i planned d rest_error evidence)
    unfolding execute_transition_fallback snapshot snapshot_evidence observe call
    execute_transition_fallback-Spends evidence t =
        elim (Result-cases (service.on_snapshot t i.target)) [
          | inl (fresh, answered) ↦
              rw (answered, execute_transition_fallback)
                (Spent-trans 0 0 0 1 (snapshot-Spends service i.target t)
                  (Spent-trans 0 0 0 1 (now-Spends service _) (fallback_from-Spends fresh _ _)))
          | inr (e, failed) ↦
              rw (failed, execute_transition_fallback)
                (Spent-weaken 0 0 0 1 (omega arith) (omega arith)
                  (Spent-trans 0 0 0 0 (snapshot-Spends service i.target t) (now-Spends service _)))
        ]
