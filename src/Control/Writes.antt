-- ===== src/Control/Writes.antt =====
-- Writes to single members: `MemberWriteResult` of control/write_types.go and the results that
-- control/restart.go and control/pause.go build for a member that was not written to.
pub mod Members
pub mod Responses
pub mod Batches
pub mod Laws
pub mod Fits
use go_patroni.Base.{
  Bool, true, false, ◌&&◌, Option, none, some, List, [], ◌∷◌, ◌++◌, is_empty, not, is_some, ℤ, pos,
}
use go_patroni.Texts.{Text, text}
use go_patroni.Texts.Decimal.{itoa}
use go_patroni.Target.{Target, validate}
use go_patroni.Dcs.Snapshots.{Snapshot}
use go_patroni.Control.Types.{
  Category, Outcome, SendState, Verification, EvidenceSource, Route, Cause, plain, Evidence,
  ControlError, route_text,
}
use go_patroni.Control.Errors.{new_error}
use go_patroni.Control.Outcomes.{all_evidence_valid, send_state_valid_or_empty, category_unknown}
use go_patroni.Control.Service.{◌>>=◌, Service, Run, pure}
use go_patroni.Control.Reports.{observe}

-- `MemberWriteResult`
pub record MemberWrite : Type 0 where
  pub target : Target
  pub outcome : Outcome
  pub send_state : SendState
  pub verification : Verification
  pub http_status : ℤ
  pub summary : Text
  pub evidence : List Evidence
  pub error : Option ControlError

abbrev pub is_set : SendState → Bool
is_set SendState.unset = false
is_set _ = true

abbrev pub verification_known : Verification → Bool
verification_known Verification.unverified = true
verification_known Verification.verified_succeeded = true
verification_known Verification.verified_failed = true
verification_known _ = false

abbrev pub is_verified_succeeded : Verification → Bool
is_verified_succeeded Verification.verified_succeeded = true
is_verified_succeeded _ = false

abbrev pub is_verified_failed : Verification → Bool
is_verified_failed Verification.verified_failed = true
is_verified_failed _ = false

-- The `switch` of `MemberWriteResult.Validate` on the outcome.
unfoldable pub write_fits : Outcome → Verification → Option ControlError → Bool
write_fits Outcome.succeeded v error = not (is_some error) && is_verified_succeeded v
write_fits Outcome.failed v none = false
write_fits Outcome.failed v (some e) = not (category_unknown e.category) && is_verified_failed v
write_fits Outcome.unknown v none = false
write_fits Outcome.unknown v (some e) = category_unknown e.category
write_fits (Outcome.other _) v error = false

-- `err == nil` of `MemberWriteResult.Validate`
unfoldable pub member_write_valid : MemberWrite → Bool
unfolding all_evidence_valid write_fits
member_write_valid r =
    not (is_some (validate r.target true))
    && (not (is_empty r.target.member)
        && (send_state_valid_or_empty r.send_state
            && (is_set r.send_state
                && (verification_known r.verification
                    && (not (is_empty r.summary)
                        && (not (is_empty r.evidence)
                            && (all_evidence_valid r.evidence
                                && write_fits r.outcome r.verification r.error)))))))

-- A control error as the cause of another: its chain is its own cause's.
abbrev pub as_cause : ControlError → Cause
as_cause e = elim e.cause [ none ↦ plain | some c ↦ c ]

-- A write that failed for certain; the summary is the error's message.
unfoldable pub failed_write :
    Text → Target → SendState → ℤ → Category × Bool → Text → Option Cause → Evidence → MemberWrite
unfolding new_error
failed_write operation target send status (category, retryable) message cause e = record {
  target = target;
  outcome = Outcome.failed;
  send_state = send;
  verification = Verification.verified_failed;
  http_status = status;
  summary = message;
  evidence = e ∷ [];
  error = some (new_error category operation target retryable message cause (e ∷ []));
}

-- A write that was never sent.
unfoldable pub unsent_write :
    Text → Target → Category × Bool → Text → Option Cause → Evidence → MemberWrite
unfolding failed_write
unsent_write operation target c message cause e =
    failed_write operation target SendState.not_sent (pos 0) c message cause e

-- `skippedWriteAfterCancellation`
unfoldable pub skipped_write_after_cancellation : Service → Text → Target → Cause → Run MemberWrite
unfolding observe unsent_write text
skipped_write_after_cancellation service operation target cause = do
  e ←
      observe service EvidenceSource.control (operation ++ text " skipped after cancellation") []
        (b'/' ∷ operation) SendState.not_sent
  pure (
      unsent_write operation target (Category.failed, false)
        (operation ++ text " was not sent because the operation was canceled") (some cause) e)

-- `invalidRESTAddressWrite`
unfoldable pub invalid_rest_address_write : Service → Text → Target → Snapshot → Run MemberWrite
unfolding observe unsent_write text itoa
invalid_rest_address_write service operation target s = do
  e ←
      observe service EvidenceSource.dcs (text "member has no usable Patroni REST address")
        (itoa s.revision) s.prefix SendState.not_sent
  pure (
      unsent_write operation target (Category.config, false)
        (operation ++ text " was not sent because the member REST address is invalid") (some plain)
        e)

-- `pauseMemberNotSent`
unfoldable pub pause_member_not_sent :
    Service → Text → Target → Category × Bool → Text → Option Cause → Run MemberWrite
unfolding observe unsent_write route_text
pause_member_not_sent service operation target c message cause = do
  e ← observe service EvidenceSource.control message [] (route_text Route.rest) SendState.not_sent
  pure (unsent_write operation target c message cause e)
