-- ===== src/Control/Transition/Safety.antt =====
-- The promises of failover and switchover to their callers.
use go_patroni.Base.{◌≡◌, refl, Bool, true, Option, none, pos, inl, inr, false, arith, Option-cases}
use go_patroni.Base.Result.{ok, Result-cases}
use go_patroni.Texts.{Text}
use go_patroni.Dcs.Snapshots.{Snapshot}
use go_patroni.Control.Types.{Outcome, Plan}
use go_patroni.Control.Outcomes.{outcome_fits}
use go_patroni.Control.Plans.{validate_plan}
use go_patroni.Control.Service.{Service, Trace}
use go_patroni.Control.VersionGate.{check_snapshot_patroni_version}
use go_patroni.Control.Reports.{failed_read}
use go_patroni.Control.Transition.Intents.{Intent, RequestError}
use go_patroni.Control.Transition.Selections.{Selection, resolve_transition}
use go_patroni.Control.Transition.Contract.{
  transition_plan, validate_transition_plan, revalidate_transition_plan,
}
use go_patroni.Control.Transition.Contract.Laws.{
  validate_transition_plan-transition_plan, revalidate_transition_plan-transition_plan,
}
use go_patroni.Control.Transition.Preparation.{
  refused, unsupported_version, prepare_with, prepare_from,
}
use go_patroni.Control.Transition.Execution.{execute_transition}
use go_patroni.Control.Doubts.{doubts}
use go_patroni.Control.Transition.Settlement.Executions.{execute_transition-Settled}
use go_patroni.Control.Transition.Silence.{last_status, answered_writes}
use go_patroni.Control.Transition.Silence.Executions.{execute_transition-Founded}
use go_patroni.Control.Transition.Soundness.{NotPending, NotWritten}
use go_patroni.Control.Transition.Soundness.Fallbacks.{Marshals}
use go_patroni.Control.Transition.Soundness.Executions.{execute_transition-IsSound}

module _ (service : Service) (marshals : Marshals service) (context_given : Bool)
    (request : Intent × Option RequestError) (p : Plan) (t : Trace) where
  -- Where json.Marshal encodes maps of strings: every result of an execution has the error that its outcome asks for: none on success, one of a
  -- known category on failure, one of the category `unknown` on an unknown outcome.
  pub execute_transition-outcome_fits :
      outcome_fits
        (execute_transition service context_given request p t).0.outcome
        (execute_transition service context_given request p t).0.error
      ≡ true
  execute_transition-outcome_fits =
      (execute_transition-IsSound service marshals context_given request p t).fits

  -- Where json.Marshal encodes maps of strings: an execution that reports a failure has left no call in
  -- doubt. Patroni answered each request, or the client knows that it was not sent; each write to the
  -- DCS was not sent, or was refused by its compare-and-swap. The data of the result say the same.
  pub execute_transition-failed :
      (execute_transition service context_given request p t).0.outcome ≡ Outcome.failed
      → (doubts service (execute_transition service context_given request p t).1 ≡ doubts service t)
        × NotPending (execute_transition service context_given request p t).0
        × NotWritten (execute_transition service context_given request p t).0
  execute_transition-failed failed =
      let sound = execute_transition-IsSound service marshals context_given request p t in
      (
        execute_transition-Settled service marshals context_given request p t failed,
        sound.not_pending failed,
        sound.not_written failed,
      )

-- `last_status` is the HTTP status of Patroni's latest answer to a POST of a failover or a switchover,
-- read off the calls, to the older endpoint included: 0 where that answer was no HTTP response, or where
-- there is no such POST. An execution that starts where it is 0 makes each write to the DCS where it is
-- 0: it adds none to `answered_writes`, the writes to the DCS made where it is not.
pub execute_transition-fallback :
    (service : Service) (context_given : Bool) (request : Intent × Option RequestError) (p : Plan)
    (t : Trace)
    → last_status service t ≡ pos 0
    → answered_writes service (execute_transition service context_given request p t).1
      ≡ answered_writes service t
execute_transition-fallback = execute_transition-Founded

-- A plan that preparation returns with success is accepted by both checks of an execution of the
-- same request on the same snapshot: the request's, and that of the cluster's state.
pub prepare_from-validate_transition_plan :
    (service : Service) (id : Text) (i : Intent) (s : Snapshot) (t : Trace)
    → (prepare_from service id i s t).0.outcome ≡ Outcome.succeeded
    → (validate_transition_plan service.os (prepare_from service id i s t).0.payload i ≡ none)
      × (sel : Selection) × (resolve_transition service.os s i ≡ ok sel)
      × (revalidate_transition_plan (prepare_from service id i s t).0.payload sel ≡ true)
unfolding prepare_from prepare_with unsupported_version refused failed_read
prepare_from-validate_transition_plan service id i s t succeeded =
    elim (Option-cases (check_snapshot_patroni_version service s false)) [
      | inr (e, outside) ↦ absurd (ground (arith, rw (outside, prepare_from) at succeeded))
      | inl within ↦ elim (Result-cases (resolve_transition service.os s i)) [
        | inr (e, refusal) ↦
            absurd (ground (arith, rw (within, refusal, prepare_from) at succeeded))
        | inl (sel, resolved) ↦
            elim (Option-cases (validate_plan (transition_plan service.os id s i sel))) [
              | inr (e, invalid) ↦
                  absurd (ground (arith, rw (within, resolved, invalid, prepare_from) at succeeded))
              | inl valid ↦
                  rw (within, resolved, valid, prepare_from)
                    (
                      validate_transition_plan-transition_plan service.os id s i sel valid,
                      sel,
                      refl,
                      revalidate_transition_plan-transition_plan service.os id s i sel,
                    )
            ]
      ]
    ]
