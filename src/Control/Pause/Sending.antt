-- ===== src/Control/Pause/Sending.antt =====
-- The configuration patches of control/pause.go, one member after the other until one answers, and
-- what follows an answer: `finishPauseHTTPResponse` and `finishCanceledPause`.
use go_patroni.Base.{Bool, true, false, Option, none, some, List, [], ◌∷◌, ◌++◌, pos, eqb_ℤ, not}
use go_patroni.Texts.{Text, text}
use go_patroni.Target.{Target}
use go_patroni.Dcs.Values.{Value, Fields}
use go_patroni.Dcs.Snapshots.{Member, Snapshot}
use go_patroni.Control.Types.{Category, Verification, Cause, plain, Evidence, ControlError}
use go_patroni.Control.Errors.{classify_http_status}
use go_patroni.Control.Platform.{patroni_base_url}
use go_patroni.Control.Service.{◌>>=◌, Service, Run, pure, call, Call, PatroniClient, context_error}
use go_patroni.Control.Writes.{
  MemberWrite, as_cause, invalid_rest_address_write, pause_member_not_sent,
}
use go_patroni.Control.Writes.Members.{member_named}
use go_patroni.Control.Writes.Responses.{classify_pause_response}
use go_patroni.Control.Writes.Batches.{
  aggregate_rest_send_state, has_ambiguous_rest, append_evidence,
}
use go_patroni.Control.Pause.{
  PauseIntent, PauseData, PauseResult, set_pause_verification, set_readback, pause_success,
  pause_failure, pause_unknown,
}
use go_patroni.Control.Pause.Readbacks.{verify_pause_state}

-- `{"pause": true}`, or `{"pause": null}` to resume.
abbrev pub pause_payload : Bool → Fields
pause_payload true = Fields.field (text "pause") (Value.boolean true) Fields.end
pause_payload false = Fields.field (text "pause") Value.null Fields.end

-- `member.Data.APIURL` of the zero value where the member is gone.
abbrev pub api_url_of : Option Member → Text
api_url_of none = []
api_url_of (some m) = m.member_data.api_url

unfoldable pub patch_at :
    Service → PatroniClient → PauseIntent → Target → Snapshot → Option Text → Run MemberWrite
unfolding invalid_rest_address_write call classify_pause_response
patch_at service client i target s none = invalid_rest_address_write service i.operation target s
patch_at service client i target s (some base) = do
  answer ←
      call (Call.patch_config base (pause_payload i.desired))
        (λ t. client.on_patch_config t base (pause_payload i.desired))
  classify_pause_response service i.operation target answer

unfoldable pub patch_member :
    Service → Option PatroniClient → PauseIntent → Target → Snapshot → Run MemberWrite
unfolding pause_member_not_sent patch_at member_named text
patch_member service none i target s =
    pause_member_not_sent service i.operation target (Category.config, false)
      (text "Patroni REST client is unavailable") none
patch_member service (some client) i target s =
    patch_at service client i target s
      (patroni_base_url service.os (api_url_of (member_named s.cluster.members target.member)))

unfoldable pub add_result : PauseData → MemberWrite → PauseData
unfolding aggregate_rest_send_state
add_result d r = record {
  paused = d.paused;
  wait = d.wait;
  results = d.results ++ r ∷ [];
  rest_send_state = aggregate_rest_send_state (d.results ++ r ∷ []);
  verification = d.verification;
  dcs_revision = d.dcs_revision;
  pending_members = d.pending_members;
  noop = d.noop;
}

-- A readback decides: success when it verified the state, an unknown outcome otherwise.
unfoldable pub decide_by_readback :
    Service
    → Text
    → PauseIntent
    → PauseData
    → List Text
    → Text
    → Option Cause
    → List Evidence
    → Run PauseResult
unfolding verify_pause_state pause_success pause_unknown set_pause_verification set_readback
decide_by_readback service id i d planned message cause evidence = do
  v ← verify_pause_state service i planned
  pure (elim v.verified [
    | true ↦
        pause_success id i
          (set_pause_verification (set_readback d v.pending v.revision)
            Verification.verified_succeeded)
          (evidence ++ v.evidence)
    | false ↦
        pause_unknown id i (set_readback d v.pending v.revision) message cause
          (evidence ++ v.evidence)
  ])

-- A `*Error` passed as an `error`: a nil pointer too is an error then, with nothing in its chain.
abbrev pub pointer_cause : Option ControlError → Option Cause
pointer_cause none = some plain
pointer_cause (some e) = some (as_cause e)

unfoldable pub finish_pause_http_response :
    Service
    → Text
    → PauseIntent
    → PauseData
    → MemberWrite
    → List Text
    → List Evidence
    → Run PauseResult
unfolding append_evidence pause_success set_pause_verification decide_by_readback has_ambiguous_rest
    pause_failure classify_http_status text
finish_pause_http_response service id i d terminal planned base =
    let evidence = append_evidence base d.results in
    elim (eqb_ℤ terminal.http_status (pos 200)) [
      | true ↦ elim i.wait [
        | false ↦
            pure (
              pause_success id i (set_pause_verification d Verification.verified_succeeded)
                evidence)
        | true ↦
            decide_by_readback service id i d planned
              (i.operation ++ text " was accepted but member convergence was not verified")
              (pointer_cause terminal.error) evidence
      ]
      | false ↦ elim (has_ambiguous_rest d.results) [
        | true ↦
            decide_by_readback service id i d planned
              (i.operation ++ text " had an earlier ambiguous send and was not verified")
              (pointer_cause terminal.error) evidence
        | false ↦ pure (
            pause_failure id i d (classify_http_status terminal.http_status)
              (text "Patroni rejected " ++ i.operation) (pointer_cause terminal.error) evidence)
      ]
    ]

unfoldable pub finish_canceled_pause :
    Text → PauseIntent → PauseData → Cause → List Evidence → PauseResult
unfolding has_ambiguous_rest append_evidence pause_unknown pause_failure text
finish_canceled_pause id i d cause evidence = elim (has_ambiguous_rest d.results) [
  | true ↦
      pause_unknown id i d
        (i.operation ++ text " may have been sent before cancellation; verify DCS") (some cause)
        (append_evidence evidence d.results)
  | false ↦
      pause_failure id i d (Category.failed, false)
        (i.operation ++ text " was canceled before completion") (some cause)
        (append_evidence evidence d.results)
]

-- The error of the last result that has one.
unfoldable pub last_error : List MemberWrite → Option ControlError
last_error [] = none
last_error (r ∷ rs) = elim (last_error rs) [ some e ↦ some e | none ↦ r.error ]

abbrev pub error_cause : Option ControlError → Option Cause
error_cause none = none
error_cause (some e) = some (as_cause e)

-- `terminalPauseFailure`, without the cause, which is that of the last error.
abbrev pub terminal_pause_failure : Option ControlError → Category × Bool
terminal_pause_failure none = (Category.unreachable, true)
terminal_pause_failure (some e) = (e.category, e.retryable)

-- After the loop: no member gave an HTTP response.
unfoldable pub after_pause_rounds :
    Service → Text → PauseIntent → PauseData → List Text → List Evidence → Run PauseResult
unfolding has_ambiguous_rest decide_by_readback append_evidence last_error pause_failure text
after_pause_rounds service id i d planned evidence = elim (has_ambiguous_rest d.results) [
  | true ↦
      decide_by_readback service id i d planned
        (i.operation ++ text " may have been sent but authoritative state did not verify it")
        (error_cause (last_error d.results)) (append_evidence evidence d.results)
  | false ↦ pure (
      pause_failure id i d (terminal_pause_failure (last_error d.results))
        (text "cannot find an accessible cluster member") (error_cause (last_error d.results))
        (append_evidence evidence d.results))
]

-- `result.HTTPStatus != 0`
unfoldable pub has_answered : MemberWrite → Bool
has_answered r = not (eqb_ℤ r.http_status (pos 0))

-- A response ends the loop.
unfoldable pub after_patch :
    Service
    → Text
    → PauseIntent
    → List Text
    → PauseData
    → List Evidence
    → (PauseData → Run PauseResult)
    → MemberWrite
    → Run PauseResult
unfolding add_result finish_pause_http_response has_answered
after_patch service id i planned d evidence continue r = elim (has_answered r) [
  | true ↦ finish_pause_http_response service id i (add_result d r) r planned evidence
  | false ↦ continue (add_result d r)
]

-- The loop over the planned members.
unfoldable pub pause_rounds :
    Service
    → Text
    → PauseIntent
    → Snapshot
    → List Text
    → List Target
    → PauseData
    → List Evidence
    → Run PauseResult
unfolding after_pause_rounds context_error finish_canceled_pause patch_member after_patch
pause_rounds service id i s planned [] d evidence =
    after_pause_rounds service id i d planned evidence
pause_rounds service id i s planned (target ∷ targets) d evidence = do
  ended ← context_error service
  elim ended [
    | some e ↦ pure (finish_canceled_pause id i d e evidence)
    | none ↦ do
      r ← patch_member service service.patroni i target s
      after_patch service id i planned d evidence
          (λ d'. pause_rounds service id i s planned targets d' evidence) r
  ]
