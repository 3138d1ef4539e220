-- ===== src/Control/Pause/Safety.antt =====
-- The promises of pause and resume to their callers.
use go_patroni.Base.{
  ◌≡◌, refl, Bool, true, false, Option, none, List, [], ◌∷◌, inl, inr, arith, All, is_empty,
  Option-cases, Bool-cases,
}
use go_patroni.Texts.{Text, text_eq_refl, join}
use go_patroni.Target.{Target}
use go_patroni.Dcs.Snapshots.{Member, Snapshot}
use go_patroni.Control.Types.{Outcome, Plan}
use go_patroni.Control.Outcomes.{outcome_fits}
use go_patroni.Control.Plans.{validate_plan}
use go_patroni.Control.Service.{Service, Trace}
use go_patroni.Control.Reports.{failed_read, unsupported_version_result}
use go_patroni.Control.VersionGate.{check_snapshot_patroni_version}
use go_patroni.Control.Transition.Selections.{is_paused}
use go_patroni.Control.Transition.Contract.{comma}
use go_patroni.Control.Writes.Batches.{has_ambiguous_rest}
use go_patroni.Control.Writes.Members.{
  leader_first_rest_members, member_targets, member_names_from_targets,
}
use go_patroni.Control.Writes.Fits.{Fits}
use go_patroni.Control.Pause.{PauseIntent, PauseRequestError}
use go_patroni.Control.Pause.Contract.{pause_plan, validate_pause_plan}
use go_patroni.Control.Pause.Contract.Laws.{validate_pause_plan-pause_plan}
use go_patroni.Control.Pause.Readbacks.{same_bool}
use go_patroni.Control.Pause.Soundness.{OnlyLastAnswered}
use go_patroni.Control.Pause.Preparation.{prepare_pause_with, prepare_pause_from, refuse_pause}
use go_patroni.Control.Pause.Execution.{execute_pause, same_rest_members}
use go_patroni.Control.Doubts.{doubts}
use go_patroni.Control.Pause.Settlement.Executions.{execute_pause-Settled}
use go_patroni.Control.Pause.Execution.Laws.{execute_pause-IsSound}

module _ (service : Service) (context_given : Bool)
    (request : PauseIntent × Option PauseRequestError) (p : Plan) (t : Trace) where
  -- Every result of an executed pause or resume has the error that its outcome asks for: none on
  -- success, one of a known category on failure, one of the category `unknown` on an unknown outcome.
  pub execute_pause-outcome_fits :
      outcome_fits
        (execute_pause service context_given request p t).0.outcome
        (execute_pause service context_given request p t).0.error
      ≡ true
  execute_pause-outcome_fits = (execute_pause-IsSound service context_given request p t).fits

  -- An executed pause or resume that reports a failure has made no call that is in doubt, so no patch
  -- without an HTTP response may have been sent; and its results name none either.
  pub execute_pause-has_ambiguous_rest :
      (execute_pause service context_given request p t).0.outcome ≡ Outcome.failed
      → (doubts service (execute_pause service context_given request p t).1 ≡ doubts service t)
        × (has_ambiguous_rest (execute_pause service context_given request p t).0.payload.results
            ≡ false)
  execute_pause-has_ambiguous_rest failed = (
    execute_pause-Settled service context_given request p t failed,
    (execute_pause-IsSound service context_given request p t).unambiguous failed,
  )

  -- In the results of an executed pause or resume only the last member has given an HTTP response,
  -- and each member's result has the error and the verification that its outcome asks for.
  pub execute_pause-OnlyLastAnswered :
      OnlyLastAnswered (execute_pause service context_given request p t).0.payload.results
      × All Fits (execute_pause service context_given request p t).0.payload.results
  execute_pause-OnlyLastAnswered =
      let sound = execute_pause-IsSound service context_given request p t in
      (sound.only_last, sound.results)

member_targets-present :
    (target : Target) (ms : List Member)
    → is_empty ms ≡ false
    → is_empty (member_targets target ms) ≡ false
unfolding member_targets
member_targets-present target [] h = cc
member_targets-present target (m ∷ ms) h = refl

-- A plan that the preparation of a pause or resume returns with success is accepted by both checks of an
-- execution of the same request on the same snapshot: the request's, and that of the reachable
-- members; and the snapshot's cluster is not in the desired state yet.
pub prepare_pause_from-validate_pause_plan :
    (service : Service) (id : Text) (i : PauseIntent) (s : Snapshot) (t : Trace)
    → (prepare_pause_from service id i s t).0.outcome ≡ Outcome.succeeded
    → (validate_pause_plan (prepare_pause_from service id i s t).0.payload i ≡ none)
      × (same_rest_members i (prepare_pause_from service id i s t).0.payload s ≡ true)
      × (same_bool (is_paused s.cluster) i.desired ≡ false)
unfolding prepare_pause_from prepare_pause_with unsupported_version_result refuse_pause failed_read
    same_rest_members
prepare_pause_from-validate_pause_plan service id i s t succeeded =
    elim (Option-cases (check_snapshot_patroni_version service s false)) [
      | inr (e, outside) ↦ absurd (ground (arith, rw (outside, prepare_pause_from) at succeeded))
      | inl within ↦ elim (Bool-cases (same_bool (is_paused s.cluster) i.desired)) [
        | inl already ↦
            absurd (ground (arith, rw (within, already, prepare_pause_from) at succeeded))
        | inr needed ↦ elim (Bool-cases (is_empty (leader_first_rest_members s.cluster))) [
          | inl alone ↦
              absurd (ground (arith, rw (within, needed, alone, prepare_pause_from) at succeeded))
          | inr reachable ↦
              let targets = member_targets i.target (leader_first_rest_members s.cluster) in
              elim (Option-cases (validate_plan (pause_plan id s i targets))) [
                | inr (e, invalid) ↦ absurd (
                    ground (
                      arith,
                      rw (within, needed, reachable, invalid, prepare_pause_from) at succeeded,
                    ))
                | inl valid ↦
                    rw (within, needed, reachable, valid, prepare_pause_from)
                      (
                        validate_pause_plan-pause_plan id s i targets valid (
                            member_targets-present i.target (leader_first_rest_members s.cluster)
                              reachable),
                        text_eq_refl (join comma (member_names_from_targets targets)),
                        refl,
                      )
              ]
        ]
      ]
    ]
