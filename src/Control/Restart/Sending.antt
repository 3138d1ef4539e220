-- ===== src/Control/Restart/Sending.antt =====
-- The restart of single members, the loop of `ExecuteRestart` of control/restart.go.
pub mod Laws
use go_patroni.Base.{
  Bool, true, false, ◌&&◌, ◌||◌, Option, none, some, List, [], ◌∷◌, ◌++◌, is_some, not, ℤ, pos,
  eqb_ℤ,
}
use go_patroni.Texts.{Text, text}
use go_patroni.Target.{Target}
use go_patroni.Control.Types.{Time, Category, Outcome, SendState, Verification, Evidence, Cause}
use go_patroni.Control.Errors.{new_error}
use go_patroni.Control.Platform.{Platform, patroni_base_url, format_patroni_timestamp}
use go_patroni.Control.Service.{
  ◌>>=◌, Service, PatroniClient, RestartPayload, Run, pure, call, Call, context_error,
}
use go_patroni.Control.Transition.Intents.{schedule_text}
use go_patroni.Control.Writes.{
  MemberWrite, skipped_write_after_cancellation, invalid_rest_address_write,
}
use go_patroni.Control.Writes.Responses.{classify_restart_response}
use go_patroni.Control.Reload.Resolution.{ResolvedMember}
use go_patroni.Control.Restart.{RestartRequest}
use go_patroni.Control.Restart.Schedule.{
  Flushed, goes_on, stops, has_scheduled_restart, classify_forced_restart_flush,
  verify_scheduled_restart,
}

abbrev asked_pending : Bool → Option Bool
asked_pending true = some true
asked_pending false = none

unfoldable pub restart_payload : Platform → RestartRequest → RestartPayload
unfolding format_patroni_timestamp
restart_payload os request = record {
  schedule = schedule_text os request.scheduled_at;
  postgres_version = request.postgres_version;
  timeout = request.timeout;
  restart_pending = asked_pending request.pending;
}

-- The answer leaves open whether the schedule was taken.
abbrev pub needs_readback : SendState → ℤ → Bool
needs_readback SendState.maybe_sent status = true
needs_readback SendState.accepted status = eqb_ℤ status (pos 202) || eqb_ℤ status (pos 0)
needs_readback _ status = eqb_ℤ status (pos 202)

abbrev pub is_failed : Outcome → Bool
is_failed Outcome.failed = true
is_failed _ = false

unfoldable pub with_evidence : MemberWrite → List Evidence → MemberWrite
with_evidence r evidence = record {
  target = r.target;
  outcome = r.outcome;
  send_state = r.send_state;
  verification = r.verification;
  http_status = r.http_status;
  summary = r.summary;
  evidence = evidence;
  error = r.error;
}

unfoldable pub schedule_verified : MemberWrite → List Evidence → MemberWrite
unfolding text
schedule_verified r evidence = record {
  target = r.target;
  outcome = Outcome.succeeded;
  send_state = r.send_state;
  verification = Verification.verified_succeeded;
  http_status = r.http_status;
  summary = text "scheduled restart verified in DCS";
  evidence = evidence;
  error = none;
}

unfoldable pub schedule_unverified :
    Target → Option Cause → MemberWrite → List Evidence → MemberWrite
unfolding text new_error
schedule_unverified target cause r evidence = record {
  target = r.target;
  outcome = Outcome.unknown;
  send_state = r.send_state;
  verification = Verification.unverified;
  http_status = r.http_status;
  summary = text "scheduled restart was not verified in DCS";
  evidence = evidence;
  error = some (
      new_error Category.unknown (text "restart") target false
        (text "scheduled restart outcome is unknown; verify before retrying") cause evidence);
}

-- What the readback of a schedule makes of the result.
unfoldable pub after_readback :
    Target → Option Cause → MemberWrite → Bool × List Evidence → MemberWrite
unfolding schedule_verified schedule_unverified with_evidence
after_readback target cause r (verified, seen) = elim verified [
  | true ↦ schedule_verified r (r.evidence ++ seen)
  | false ↦ elim (is_failed r.outcome) [
    | true ↦ with_evidence r (r.evidence ++ seen)
    | false ↦ schedule_unverified target cause r (r.evidence ++ seen)
  ]
]

unfoldable pub confirm_schedule :
    Service → ResolvedMember → Option Time → ℤ × Option Cause → MemberWrite → Run MemberWrite
unfolding verify_scheduled_restart after_readback
confirm_schedule service m none answer r = pure r
confirm_schedule service m (some at) (status, cause) r = elim (needs_readback r.send_state status) [
  | false ↦ pure r
  | true ↦ do
    v ← verify_scheduled_restart service m.target m.member.name at
    pure (after_readback m.target cause r v)
]

-- The restart itself, after a flush that gave the evidence.
unfoldable pub post_restart :
    Service
    → PatroniClient
    → RestartRequest
    → ResolvedMember
    → Text
    → List Evidence
    → Run MemberWrite
unfolding call restart_payload classify_restart_response confirm_schedule with_evidence
post_restart service client request m base flushed = do
  let payload = restart_payload service.os request
  answer ← call (Call.post_restart base payload) (λ t. client.on_restart t base payload)
  r ← classify_restart_response service m.target answer
  confirm_schedule service m request.scheduled_at answer (with_evidence r (flushed ++ r.evidence))

unfoldable pub after_flush :
    Service → PatroniClient → RestartRequest → ResolvedMember → Text → Flushed → Run MemberWrite
unfolding post_restart
after_flush service client request m base (goes_on evidence) =
    post_restart service client request m base evidence
after_flush service client request m base (stops r) = pure r

-- A forced schedule replaces the one that the member has.
unfoldable pub replaces_schedule : Platform → RestartRequest → ResolvedMember → Bool
unfolding has_scheduled_restart
replaces_schedule os request m =
    is_some request.scheduled_at
    && (request.force && has_scheduled_restart os m.member.member_data.scheduled_restart)

unfoldable pub restart_at :
    Service → PatroniClient → RestartRequest → ResolvedMember → Option Text → Run MemberWrite
unfolding invalid_rest_address_write replaces_schedule call classify_forced_restart_flush
    after_flush post_restart text
restart_at service client request m none =
    invalid_rest_address_write service (text "restart") m.target m.snapshot
restart_at service client request m (some base) = elim (replaces_schedule service.os request m) [
  | false ↦ post_restart service client request m base []
  | true ↦ do
    answer ← call (Call.delete_restart base) (λ t. client.on_delete_restart t base)
    f ← classify_forced_restart_flush service m.target answer
    after_flush service client request m base f
]

-- One round of the loop over the resolved members.
unfoldable pub restart_member :
    Service → PatroniClient → RestartRequest → ResolvedMember → Run MemberWrite
unfolding context_error skipped_write_after_cancellation restart_at text
restart_member service client request m = do
  ended ← context_error service
  elim ended [
    | some e ↦ skipped_write_after_cancellation service (text "restart") m.target e
    | none ↦
        restart_at service client request m
          (patroni_base_url service.os m.member.member_data.api_url)
  ]

unfoldable pub restart_members :
    Service → PatroniClient → RestartRequest → List ResolvedMember → Run (List MemberWrite)
unfolding restart_member
restart_members service client request [] = pure []
restart_members service client request (m ∷ ms) = do
  r ← restart_member service client request m
  rs ← restart_members service client request ms
  pure (r ∷ rs)
