-- ===== src/Control/Transition/Soundness/Fallbacks.antt =====
-- Every result of the DCS fallback is sound.
use go_patroni.Base.{
  ◌≡◌, refl, inl, inr, false, Option, none, some, List, arith, pos, Bool-cases, Option-cases,
}
use go_patroni.Base.Result.{ok, Result-cases}
use go_patroni.Texts.{Text}
use go_patroni.Dcs.Snapshots.{ClusterState, Snapshot}
use go_patroni.Control.Types.{Category, SendState, Cause, Evidence, plain}
use go_patroni.Control.Errors.{classify_read_error}
use go_patroni.Control.Errors.Laws.{classify_read_error-known}
use go_patroni.Control.Outcomes.{outcome_fits}
use go_patroni.Control.Service.{Service, FailoverWriter, call, context_error, snapshot}
use go_patroni.Control.Service.Runs.{Returns}
use go_patroni.Control.Transition.Intents.{Intent, ClusterWriteData}
use go_patroni.Control.Transition.Selections.{Selection}
use go_patroni.Control.Transition.Results.{transition_success, set_dcs, set_verification}
use go_patroni.Control.Transition.Fallback.{
  transition_dcs_fields, transition_dcs_payload, transition_leader_completed,
  validate_fallback_transition,
}
use go_patroni.Control.Transition.Recovery.{
  write_fallback, fallback_with, fallback_if_able, fallback_from, execute_transition_fallback,
}
use go_patroni.Control.Transition.Soundness.{IsSound, give_up-IsSound, finish_write-IsSound}

-- `json.Marshal` of a map of strings to strings gives no error.
abbrev pub Marshals : Service → Type 0
Marshals service =
    (fields : List (Text × Text)) → (encoded : Text) × (service.os.marshal fields ≡ ok encoded)

module _ (service : Service) (marshals : Marshals service) (id : Text) (i : Intent)
    (planned : Selection) (d : ClusterWriteData) (rest_error : Option Cause)
    (h : d.http_status ≡ pos 0) (k : d.dcs_send_state ≡ SendState.unset) where
  write_fallback-IsSound :
      (writer : FailoverWriter) (fresh : ClusterState) (evidence : List Evidence) (payload : Text)
      → Returns IsSound
          (write_fallback service writer id i planned d rest_error fresh evidence payload)
  unfolding write_fallback
  write_fallback-IsSound writer fresh evidence payload t = search finish_write-IsSound

  fallback_with-IsSound :
      (writer : FailoverWriter) (fresh : ClusterState) (evidence : List Evidence)
      → Returns IsSound (fallback_with service writer id i planned d rest_error fresh evidence)
  unfolding fallback_with context_error transition_dcs_payload call
  fallback_with-IsSound writer fresh evidence t = elim (Option-cases (service.on_context t)) [
    | inr (e, ended) ↦
        rw (ended, fallback_with)
          (give_up-IsSound id i d (Category.failed, false) _ _ (some e) evidence h (inl k)
            (ground arith))
    | inl running ↦
        let (payload, encoded) = marshals (transition_dcs_fields service.os i planned) in
        rw (running, encoded, fallback_with)
          (write_fallback-IsSound writer fresh evidence payload _)
  ]

  fallback_if_able-IsSound :
      (writer : Option FailoverWriter) (fresh : ClusterState) (evidence : List Evidence)
      → Returns IsSound (fallback_if_able service writer id i planned d rest_error fresh evidence)
  unfolding fallback_if_able
  fallback_if_able-IsSound none fresh evidence t =
      give_up-IsSound id i d (Category.config, false) _ _ (some plain) evidence h (inl k)
        (ground arith)
  fallback_if_able-IsSound (some writer) fresh evidence t =
      fallback_with-IsSound writer fresh evidence t

  fallback_from-IsSound :
      (fresh : Snapshot) (evidence : List Evidence)
      → Returns IsSound (fallback_from service id i planned d rest_error fresh evidence)
  unfolding fallback_from transition_success set_dcs set_verification outcome_fits
  fallback_from-IsSound fresh evidence t =
      elim (Bool-cases (transition_leader_completed fresh.cluster i planned.leader)) [
        | inl done ↦
            rw (done, fallback_from)
              (record {
                fits = refl;
                verified = λ _. refl;
                not_pending = λ e. cc;
                not_written = λ e. cc;
                fallback_only = λ _. h;
              })
        | inr not_done ↦
            elim (Option-cases (validate_fallback_transition fresh.cluster i planned)) [
              | inr (e, changed) ↦
                  rw (not_done, changed, fallback_from)
                    (give_up-IsSound id i d (Category.conflict, false) _ _ (some plain) evidence h
                      (inl k) (ground arith))
              | inl same ↦
                  rw (not_done, same, fallback_from)
                    (fallback_if_able-IsSound service.failover_dcs fresh.cluster evidence t)
            ]
      ]

  pub execute_transition_fallback-IsSound :
      (evidence : List Evidence)
      → Returns IsSound (execute_transition_fallback service id i planned d rest_error evidence)
  unfolding execute_transition_fallback snapshot call
  execute_transition_fallback-IsSound evidence t =
      elim (Result-cases (service.on_snapshot t i.target)) [
        | inl (fresh, answered) ↦
            rw (answered, execute_transition_fallback) (fallback_from-IsSound fresh _ _)
        | inr (e, failed) ↦
            rw (failed, execute_transition_fallback)
              (give_up-IsSound id i d (classify_read_error (some e)) _ _ (some e) _ h (inl k)
                (classify_read_error-known (some e)))
      ]
