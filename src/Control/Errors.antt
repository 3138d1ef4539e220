-- ===== src/Control/Errors.antt =====
-- control/errors.go, and the classification of transport errors of control/read.go and
-- control/reload.go.
pub mod Laws
use go_patroni.Base.{
  Bool, true, false, ◌||◌, Option, none, some, List, ℕ, ℤ, pos, ltb_ℤ, eqb_ℤ, if◌then◌else◌, not,
}
use go_patroni.Texts.{Text}
use go_patroni.Target.{Target, normalize}
use go_patroni.Control.Types.{
  Category, SendState, Delivery, DcsErrorKind, DcsError, PatroniErrorKind, PatroniError, Cause,
  Evidence, ControlError,
}

unfoldable pub new_error :
    Category → Text → Target → Bool → Text → Option Cause → List Evidence → ControlError
new_error category operation target retryable message cause evidence = record {
  category = category;
  operation = operation;
  target = normalize target;
  retryable = retryable;
  message = message;
  evidence = evidence;
  cause = cause;
}

unfoldable pub exit_code : Category → ℕ
exit_code Category.failed = 1
exit_code Category.usage = 2
exit_code Category.config = 2
exit_code Category.unsupported = 3
exit_code Category.auth = 4
exit_code Category.tls = 4
exit_code Category.not_found = 5
exit_code Category.conflict = 6
exit_code Category.unreachable = 7
exit_code Category.unknown = 8
exit_code Category.internal = 9
exit_code (Category.other s) = 9

classify_dcs : DcsErrorKind → Category × Bool
classify_dcs DcsErrorKind.configuration = (Category.config, false)
classify_dcs DcsErrorKind.authentication = (Category.auth, false)
classify_dcs DcsErrorKind.conflict = (Category.conflict, false)
classify_dcs DcsErrorKind.canceled = (Category.failed, false)
classify_dcs DcsErrorKind.deadline = (Category.unreachable, true)
classify_dcs DcsErrorKind.transport = (Category.unreachable, true)
classify_dcs _ = (Category.failed, false)

classify_patroni : PatroniErrorKind → Category × Bool
classify_patroni PatroniErrorKind.authentication = (Category.auth, false)
classify_patroni PatroniErrorKind.request = (Category.config, false)
classify_patroni PatroniErrorKind.transport = (Category.unreachable, true)
classify_patroni _ = (Category.failed, false)

classify_chain : Option DcsError → Option PatroniError → Category × Bool
classify_chain (some d) p = classify_dcs d.kind
classify_chain none (some p) = classify_patroni p.kind
classify_chain none none = (Category.unreachable, true)

-- `classifyReadError`; `none` is a nil error, in whose chain nothing is found.
unfoldable pub classify_read_error : Option Cause → Category × Bool
unfolding classify_chain classify_dcs classify_patroni
classify_read_error none = (Category.unreachable, true)
classify_read_error (some cause) =
    if cause.canceled
    then (Category.failed, false)
    else if cause.deadline_exceeded
    then (Category.unreachable, true)
    else classify_chain cause.dcs cause.patroni

unfoldable pub classify_http_status : ℤ → Category × Bool
classify_http_status status =
    if eqb_ℤ status (pos 401) || eqb_ℤ status (pos 403)
    then (Category.auth, false)
    else if eqb_ℤ status (pos 404)
    then (Category.not_found, false)
    else if eqb_ℤ status (pos 409) || eqb_ℤ status (pos 412)
    then (Category.conflict, false)
    else if not (ltb_ℤ status (pos 500))
    then (Category.unreachable, true)
    else (Category.failed, false)

-- A delivery that is none of the three constants falls out of the `switch`.
abbrev pub delivery_state : Delivery → SendState
delivery_state Delivery.not_sent = SendState.not_sent
delivery_state Delivery.maybe_sent = SendState.maybe_sent
delivery_state Delivery.response_received = SendState.accepted
delivery_state _ = SendState.maybe_sent

abbrev pub patroni_of : Option Cause → Option PatroniError
patroni_of none = none
patroni_of (some cause) = cause.patroni

abbrev pub patroni_delivery : Option PatroniError → SendState
patroni_delivery (some e) = delivery_state e.delivery
patroni_delivery none = SendState.maybe_sent

-- `patroniSendState`
unfoldable pub patroni_send_state : Option Cause → ℤ → SendState
patroni_send_state cause status =
    if not (eqb_ℤ status (pos 0)) then SendState.accepted else patroni_delivery (patroni_of cause)
