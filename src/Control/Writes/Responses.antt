-- ===== src/Control/Writes/Responses.antt =====
-- What Patroni's answer to a write means: `classifyReloadResponse` of control/reload.go,
-- `classifyPauseResponse` of control/pause.go and `classifyRestartResponse` of control/restart.go. They
-- share their steps, and differ in the path, the accepted statuses and the wording.
use go_patroni.Base.{Bool, true, false, ◌||◌, Option, none, [], ◌∷◌, ◌++◌, ℤ, pos, eqb_ℤ}
use go_patroni.Texts.{Text, text}
use go_patroni.Target.{Target}
use go_patroni.Control.Types.{
  Category, Outcome, SendState, Verification, EvidenceSource, Cause, Evidence,
}
use go_patroni.Control.Errors.{
  new_error, classify_read_error, classify_http_status, patroni_send_state,
}
use go_patroni.Control.Service.{◌>>=◌, Service, Run, pure}
use go_patroni.Control.Reports.{observe}
use go_patroni.Control.Writes.{MemberWrite, failed_write, unsent_write}

-- What differs between the classifications.
pub record Endpoint : Type 0 where
  pub path : Text
  pub accepts : ℤ → Bool
  -- `"<operation> request"` or `"<operation> configuration"`
  pub subject : Text
  -- the end of the message of an unknown outcome
  pub advice : Text

unfoldable pub accepted_write : Target → SendState → ℤ → Text → Evidence → MemberWrite
accepted_write target send status summary e = record {
  target = target;
  outcome = Outcome.succeeded;
  send_state = send;
  verification = Verification.verified_succeeded;
  http_status = status;
  summary = summary;
  evidence = e ∷ [];
  error = none;
}

unfoldable pub unknown_write :
    Text → Target → SendState → Text → Option Cause → Evidence → MemberWrite
unfolding new_error
unknown_write operation target send message cause e = record {
  target = target;
  outcome = Outcome.unknown;
  send_state = send;
  verification = Verification.unverified;
  http_status = pos 0;
  summary = message;
  evidence = e ∷ [];
  error = Option.some (new_error Category.unknown operation target false message cause (e ∷ []));
}

-- `send == SendMaybeSent || send == SendAccepted`
abbrev pub may_be_sent : SendState → Bool
may_be_sent SendState.maybe_sent = true
may_be_sent SendState.accepted = true
may_be_sent _ = false

-- No response came.
unfoldable pub without_response :
    Text → Endpoint → Target → SendState → Option Cause → Evidence → MemberWrite
unfolding unknown_write unsent_write classify_read_error text
without_response operation endpoint target send cause e = elim (may_be_sent send) [
  | true ↦
      unknown_write operation target send
        (operation ++ (text " may have been sent" ++ endpoint.advice)) cause e
  | false ↦
      unsent_write operation target (classify_read_error cause) (operation ++ text " was not sent")
        cause e
]

unfoldable pub classify_response :
    Service → Text → Endpoint → Target → ℤ × Option Cause → Run MemberWrite
unfolding observe patroni_send_state accepted_write failed_write without_response
    classify_http_status text
classify_response service operation endpoint target (status, cause) =
    let send = patroni_send_state cause status in
    elim (endpoint.accepts status) [
      | true ↦ do
        let summary = text "Patroni accepted " ++ endpoint.subject
        e ← observe service EvidenceSource.patroni summary [] endpoint.path send
        pure (accepted_write target send status summary e)
      | false ↦ elim (eqb_ℤ status (pos 0)) [
        | false ↦ do
          let message = text "Patroni rejected " ++ endpoint.subject
          e ← observe service EvidenceSource.patroni message [] endpoint.path send
          pure (
              failed_write operation target send status (classify_http_status status) message cause
                e)
        | true ↦ do
          e ←
              observe service EvidenceSource.patroni
                (operation ++ text " transport ended without an HTTP response") [] endpoint.path
                send
          pure (without_response operation endpoint target send cause e)
      ]
    ]

abbrev pub ok_or_accepted : ℤ → Bool
ok_or_accepted status = eqb_ℤ status (pos 200) || eqb_ℤ status (pos 202)

abbrev pub reload_endpoint : Endpoint
reload_endpoint = record {
  path = text "/reload";
  accepts = ok_or_accepted;
  subject = text "reload request";
  advice = text "; verify the member before retrying";
}

unfoldable pub classify_reload_response : Service → Target → ℤ × Option Cause → Run MemberWrite
unfolding classify_response
classify_reload_response service target answer =
    classify_response service (text "reload") reload_endpoint target answer

abbrev pub restart_endpoint : Endpoint
restart_endpoint = record {
  path = text "/restart";
  accepts = ok_or_accepted;
  subject = text "restart request";
  advice = text "; verify before retrying";
}

unfoldable pub classify_restart_response : Service → Target → ℤ × Option Cause → Run MemberWrite
unfolding classify_response
classify_restart_response service target answer =
    classify_response service (text "restart") restart_endpoint target answer

abbrev pub config_endpoint : Text → Endpoint
config_endpoint operation = record {
  path = text "/config";
  accepts = λ status. eqb_ℤ status (pos 200);
  subject = operation ++ text " configuration";
  advice = [];
}

unfoldable pub classify_pause_response :
    Service → Text → Target → ℤ × Option Cause → Run MemberWrite
unfolding classify_response
classify_pause_response service operation target answer =
    classify_response service operation (config_endpoint operation) target answer
