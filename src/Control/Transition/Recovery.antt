-- ===== src/Control/Transition/Recovery.antt =====
-- `executeTransitionFallback` of control/failover.go: what follows a REST call without an HTTP
-- response.
pub mod Laws
use go_patroni.Base.{
  Bool, true, false, ◌&&◌, Option, none, some, List, [], ◌∷◌, ◌++◌, if◌then◌else◌, is_some, ltb_ℤ,
  ℤ,
}
use go_patroni.Base.Result.{ok, err}
use go_patroni.Texts.{Text, text}
use go_patroni.Texts.Decimal.{itoa}
use go_patroni.Dcs.Snapshots.{Snapshot, ClusterState}
use go_patroni.Control.Types.{
  Category, SendState, Verification, EvidenceSource, Route, Cause, plain, Evidence, route_text,
}
use go_patroni.Control.Errors.{classify_read_error}
use go_patroni.Control.Service.{
  Service, Run, ◌>>=◌, pure, call, Call, FailoverWriter, WriteResult, snapshot, context_error,
}
use go_patroni.Control.Reports.{observe, snapshot_evidence}
use go_patroni.Control.Transition.Intents.{Intent, ClusterWriteData}
use go_patroni.Control.Transition.Selections.{Selection, failover_revision}
use go_patroni.Control.Transition.Results.{
  TransitionResult, set_verification, set_dcs, transition_success, transition_failure,
  transition_failure_with_retry, transition_unknown,
}
use go_patroni.Control.Transition.Fallback.{
  Verdict, has_conflict, dcs_send_state, validate_fallback_transition, transition_dcs_payload,
  transition_dcs_write_summary, transition_leader_completed, verify_transition_fallback,
}

-- `RESTSendState == SendMaybeSent || RESTSendState == SendAccepted`
abbrev pub may_have_arrived : SendState → Bool
may_have_arrived SendState.maybe_sent = true
may_have_arrived SendState.accepted = true
may_have_arrived _ = false

abbrev pub is_not_sent : SendState → Bool
is_not_sent SendState.not_sent = true
is_not_sent _ = false

-- The pattern of each early return: unknown when the REST call may have arrived, else a failure.
unfoldable pub give_up :
    Text
    → Intent
    → ClusterWriteData
    → Category × Bool
    → Text
    → Text
    → Option Cause
    → List Evidence
    → TransitionResult
unfolding transition_unknown transition_failure_with_retry set_verification
give_up id i d (category, retryable) ambiguous refused cause evidence =
    if may_have_arrived d.rest_send_state
    then transition_unknown id i Route.rest_to_dcs d ambiguous cause evidence
    else transition_failure_with_retry id i Route.rest_to_dcs
        (set_verification d Verification.verified_failed) category retryable refused cause evidence

unfoldable pub write_to_dcs :
    Service → FailoverWriter → Intent → Text → ℤ → Run (WriteResult × Option Cause)
unfolding call
write_to_dcs service writer i payload revision =
    call (Call.write_failover i.target payload revision)
      (λ t. writer.on_write t i.target payload revision)

abbrev cause_or : Option Cause → Option Cause → Option Cause
cause_or none other = other
cause_or (some e) other = some e

-- The classification of a write that was not verified.
unfoldable pub unverified_write :
    Text
    → Intent
    → ClusterWriteData
    → Option Cause
    → Option Cause
    → List Evidence
    → TransitionResult
unfolding give_up transition_failure_with_retry transition_unknown classify_read_error
    set_verification
unverified_write id i d write_error rest_error evidence =
    if has_conflict write_error
    then give_up id i d (Category.conflict, false)
        (i.operation ++ text " REST may have been sent and DCS fallback conflicted")
        (i.operation ++ text " DCS fallback lost a compare-and-swap race") write_error evidence
    else if is_some write_error && (is_not_sent d.dcs_send_state && is_not_sent d.rest_send_state)
    then transition_failure_with_retry id i Route.rest_to_dcs
        (set_verification d Verification.verified_failed) (classify_read_error write_error).0
        (classify_read_error write_error).1
        (i.operation ++ text " was not sent through REST or DCS") write_error evidence
    else transition_unknown id i Route.rest_to_dcs d
        (i.operation ++ text " fallback was not verified; inspect DCS before retrying")
        (cause_or write_error rest_error) evidence

unfoldable pub newest : ℤ → ℤ → ℤ
newest current read = if ltb_ℤ current read then read else current

unfoldable pub finish_write :
    Text
    → Intent
    → ClusterWriteData
    → WriteResult × Option Cause
    → Verdict
    → Option Cause
    → List Evidence
    → TransitionResult
unfolding unverified_write transition_success dcs_send_state newest set_dcs set_verification
finish_write id i d (result, write_error) v rest_error evidence =
    let d' =
      set_dcs d (dcs_send_state write_error result.applied) (newest result.revision v.revision) in
    if v.verified
    then transition_success id i Route.rest_to_dcs
        (set_verification d' Verification.verified_succeeded) (evidence ++ v.evidence)
    else unverified_write id i (set_verification d' Verification.unverified) write_error rest_error
        (evidence ++ v.evidence)

-- The compare-and-swap write of the failover key, and the reading back.
unfoldable pub write_fallback :
    Service
    → FailoverWriter
    → Text
    → Intent
    → Selection
    → ClusterWriteData
    → Option Cause
    → ClusterState
    → List Evidence
    → Text
    → Run TransitionResult
unfolding write_to_dcs observe transition_dcs_write_summary verify_transition_fallback finish_write
    dcs_send_state itoa route_text
write_fallback service writer id i planned d rest_error fresh evidence payload = do
  answer ← write_to_dcs service writer i payload (failover_revision fresh.failover)
  e ←
      observe service EvidenceSource.dcs (transition_dcs_write_summary answer.0 answer.1)
        (itoa answer.0.revision) (route_text Route.dcs) (dcs_send_state answer.1 answer.0.applied)
  v ← verify_transition_fallback service i planned.leader
  pure (finish_write id i d answer v rest_error (evidence ++ e ∷ []))

-- The context and the payload, before the write.
unfoldable pub fallback_with :
    Service
    → FailoverWriter
    → Text
    → Intent
    → Selection
    → ClusterWriteData
    → Option Cause
    → ClusterState
    → List Evidence
    → Run TransitionResult
unfolding give_up context_error transition_dcs_payload transition_failure write_fallback
    set_verification
fallback_with service writer id i planned d rest_error fresh evidence = do
  ended ← context_error service
  elim ended [
    | some e ↦ pure (
        give_up id i d (Category.failed, false)
          (i.operation ++ text " may have been sent; cancellation prevented fallback")
          (i.operation ++ text " fallback was canceled before DCS write") (some e) evidence)
    | none ↦ elim (transition_dcs_payload service.os i planned) [
      | err e ↦ pure (
          transition_failure id i Route.rest_to_dcs
            (set_verification d Verification.verified_failed) Category.internal
            (i.operation ++ text " fallback payload construction failed") (some e) evidence)
      | ok payload ↦ write_fallback service writer id i planned d rest_error fresh evidence payload
    ]
  ]

unfoldable pub fallback_if_able :
    Service
    → Option FailoverWriter
    → Text
    → Intent
    → Selection
    → ClusterWriteData
    → Option Cause
    → ClusterState
    → List Evidence
    → Run TransitionResult
unfolding give_up fallback_with
fallback_if_able service none id i planned d rest_error fresh evidence = pure (
    give_up id i d (Category.config, false)
      (i.operation ++ text " may have been sent and DCS fallback is unavailable")
      (i.operation ++ text " fallback requires a DCS failover capability") (some plain) evidence)
fallback_if_able service (some writer) id i planned d rest_error fresh evidence =
    fallback_with service writer id i planned d rest_error fresh evidence

-- The fallback on a fresh snapshot, already in the evidence.
unfoldable pub fallback_from :
    Service
    → Text
    → Intent
    → Selection
    → ClusterWriteData
    → Option Cause
    → Snapshot
    → List Evidence
    → Run TransitionResult
unfolding transition_leader_completed transition_success set_dcs set_verification
    validate_fallback_transition give_up fallback_if_able
fallback_from service id i planned d rest_error fresh evidence =
    elim (transition_leader_completed fresh.cluster i planned.leader) [
      | true ↦ pure (
          transition_success id i Route.rest_to_dcs
            (set_verification (set_dcs d d.dcs_send_state fresh.revision)
              Verification.verified_succeeded)
            evidence)
      | false ↦ elim (validate_fallback_transition fresh.cluster i planned) [
        | some _ ↦ pure (
            give_up id i d (Category.conflict, false)
              (i.operation ++ text " may have been sent but fallback preconditions changed")
              (i.operation ++ text " fallback aborted because cluster topology changed")
              (some plain) evidence)
        | none ↦
            fallback_if_able service service.failover_dcs id i planned d rest_error fresh.cluster
              evidence
      ]
    ]

unfoldable pub execute_transition_fallback :
    Service
    → Text
    → Intent
    → Selection
    → ClusterWriteData
    → Option Cause
    → List Evidence
    → Run TransitionResult
unfolding snapshot observe give_up classify_read_error fallback_from snapshot_evidence route_text
execute_transition_fallback service id i planned d rest_error evidence = do
  answer ← snapshot service i.target
  elim answer [
    | err e ↦ do
      note ←
          observe service EvidenceSource.dcs
            (i.operation ++ text " fallback could not obtain a fresh DCS snapshot") []
            (route_text Route.dcs) SendState.not_sent
      pure (
          give_up id i d (classify_read_error (some e))
            (i.operation
              ++ text " REST outcome is ambiguous and DCS fallback could not be verified")
            (i.operation ++ text " fallback could not read DCS") (some e) (evidence ++ note ∷ []))
    | ok fresh ↦ do
      note ←
          snapshot_evidence service fresh
            (i.operation ++ text " fallback obtained a fresh DCS snapshot")
      fallback_from service id i planned d rest_error fresh (evidence ++ note ∷ [])
  ]
