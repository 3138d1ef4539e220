-- ===== src/Control/Transition/Soundness.antt =====
-- What every result of an execution says of its own data.
pub mod Fallbacks
pub mod Executions
use go_patroni.Base.{
  ◌≡◌, refl, ◌≢◌, ◌⊎◌, inl, inr, Bool, true, false, Option, none, some, List, arith, pos, is_some,
  Bool-cases, [], ◌&&◌, ◌++◌,
}
use go_patroni.Texts.{Text}
use go_patroni.Control.Types.{
  Category, Outcome, SendState, Verification, ControlError, Cause, Evidence,
}
use go_patroni.Control.Errors.{classify_read_error, new_error}
use go_patroni.Control.Outcomes.{outcome_fits, category_unknown}
use go_patroni.Control.Transition.Intents.{Intent, ClusterWriteData}
use go_patroni.Control.Transition.Results.{
  TransitionResult, transition_unknown, transition_failure_with_retry, set_verification, set_dcs,
  transition_success,
}
use go_patroni.Control.Errors.Laws.{classify_read_error-known}
use go_patroni.Control.Transition.Fallback.{has_conflict, Verdict, dcs_send_state}
use go_patroni.Control.Transition.Recovery.{
  may_have_arrived, is_not_sent, give_up, unverified_write, finish_write, newest,
}
use go_patroni.Control.Service.{WriteResult}

abbrev pub cause_of : Option ControlError → Option Cause
cause_of none = none
cause_of (some e) = e.cause

-- The DCS write did not take place: none was tried, or it was not sent, or the compare-and-swap was
-- refused.
abbrev pub NotWritten : TransitionResult → Type 0
NotWritten r =
    (r.payload.dcs_send_state ≡ SendState.unset)
    ⊎ (r.payload.dcs_send_state ≡ SendState.not_sent)
    ⊎ (has_conflict (cause_of r.error) ≡ true)

-- Patroni did not get the request, or it answered.
abbrev pub NotPending : TransitionResult → Type 0
NotPending r =
    (may_have_arrived r.payload.rest_send_state ≡ false) ⊎ (r.payload.http_status ≢ pos 0)

pub record IsSound (r : TransitionResult) : Type 0 where
  pub fits : outcome_fits r.outcome r.error ≡ true
  pub verified :
      r.outcome ≡ Outcome.succeeded → r.payload.verification ≡ Verification.verified_succeeded
  pub not_pending : r.outcome ≡ Outcome.failed → NotPending r
  pub not_written : r.outcome ≡ Outcome.failed → NotWritten r
  pub fallback_only : r.payload.dcs_send_state ≢ SendState.unset → r.payload.http_status ≡ pos 0

not_unknown : (c : Category) → c ≢ Category.unknown → category_unknown c ≡ false
not_unknown c h = ground arith

-- The data at the start of a fallback, or after its write when that write conflicted.
abbrev pub Undelivered : ClusterWriteData → Option Cause → Type 0
Undelivered d cause = (d.dcs_send_state ≡ SendState.unset) ⊎ (has_conflict cause ≡ true)

pub give_up-IsSound :
    (id : Text) (i : Intent) (d : ClusterWriteData) (c : Category × Bool) (ambiguous refusal : Text)
    (cause : Option Cause) (evidence : List Evidence)
    → d.http_status ≡ pos 0
    → Undelivered d cause
    → c.0 ≢ Category.unknown
    → IsSound (give_up id i d c ambiguous refusal cause evidence)
unfolding give_up transition_unknown transition_failure_with_retry new_error set_verification
    outcome_fits
give_up-IsSound id i d c ambiguous refusal cause evidence h u k =
    elim (Bool-cases (may_have_arrived d.rest_send_state)) [
      | inl arrived ↦
          rw (arrived, give_up)
            (record {
              fits = refl;
              verified = λ e. cc;
              not_pending = λ e. cc;
              not_written = λ e. cc;
              fallback_only = λ _. h;
            })
      | inr not_arrived ↦
          rw (not_arrived, give_up)
            (record {
              fits = ground (arith, not_unknown c.0);
              verified = λ e. cc;
              not_pending = λ _. inl not_arrived;
              not_written = λ _. ground arith;
              fallback_only = λ _. h;
            })
    ]

unverified_write-IsSound :
    (id : Text) (i : Intent) (d : ClusterWriteData) (write_error rest_error : Option Cause)
    (evidence : List Evidence)
    → d.http_status ≡ pos 0
    → IsSound (unverified_write id i d write_error rest_error evidence)
unfolding unverified_write transition_unknown transition_failure_with_retry new_error
    set_verification outcome_fits
unverified_write-IsSound id i d write_error rest_error evidence h =
    elim (Bool-cases (has_conflict write_error)) [
      | inl conflicted ↦
          rw (conflicted, unverified_write)
            (give_up-IsSound id i d (Category.conflict, false) _ _ write_error evidence h
              (inr conflicted) (ground arith))
      | inr other ↦
          elim (Bool-cases (
            is_some write_error
            && (is_not_sent d.dcs_send_state && is_not_sent d.rest_send_state))) [
              | inl unsent ↦
                  rw (other, unsent, unverified_write)
                    (record {
                      fits = not_unknown_fits;
                      verified = λ e. cc;
                      not_pending = λ _. inl (ground arith);
                      not_written = λ _. ground arith;
                      fallback_only = λ _. h;
                    })
              | inr maybe ↦
                  rw (other, maybe, unverified_write)
                    (record {
                      fits = refl;
                      verified = λ e. cc;
                      not_pending = λ e. cc;
                      not_written = λ e. cc;
                      fallback_only = λ _. h;
                    })
            ]
    ]
  where
    not_unknown_fits :
        outcome_fits Outcome.failed (
          some (
            new_error
              (classify_read_error write_error).0
              i.operation
              i.target
              (classify_read_error write_error).1
              []
              write_error
              evidence))
        ≡ true
    not_unknown_fits = ground (
      arith,
      not_unknown (classify_read_error write_error).0,
      classify_read_error-known write_error,
    )

pub finish_write-IsSound :
    (id : Text) (i : Intent) (d : ClusterWriteData) (answer : WriteResult × Option Cause)
    (v : Verdict) (rest_error : Option Cause) (evidence : List Evidence)
    → d.http_status ≡ pos 0
    → IsSound (finish_write id i d answer v rest_error evidence)
unfolding finish_write transition_success set_verification set_dcs outcome_fits
finish_write-IsSound id i d (result, write_error) v rest_error evidence h =
    elim (Bool-cases v.verified) [
      | inl ended ↦
          rw (ended, finish_write)
            (record {
              fits = refl;
              verified = λ _. refl;
              not_pending = λ e. cc;
              not_written = λ e. cc;
              fallback_only = λ _. h;
            })
      | inr not_ended ↦
          rw (not_ended, finish_write)
            (unverified_write-IsSound id i
              (set_verification
                (set_dcs d (dcs_send_state write_error result.applied)
                  (newest result.revision v.revision))
                Verification.unverified)
              write_error rest_error (evidence ++ v.evidence) h)
    ]
