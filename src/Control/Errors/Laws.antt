-- ===== src/Control/Errors/Laws.antt =====
-- What the classifications of transport errors and HTTP statuses never give.
use go_patroni.Base.{◌≡◌, ◌⊎◌, ◌≢◌, Option, none, some, arith, ℤ}
use go_patroni.Control.Types.{
  Category, SendState, DcsErrorKind, DcsError, PatroniErrorKind, PatroniError, Cause,
}
use go_patroni.Control.Errors.{
  classify_dcs, classify_patroni, classify_chain, classify_read_error, classify_http_status,
  patroni_send_state,
}

classify_dcs-known : (k : DcsErrorKind) → (classify_dcs k).0 ≢ Category.unknown
unfolding classify_dcs
classify_dcs-known k = ground arith

classify_patroni-known : (k : PatroniErrorKind) → (classify_patroni k).0 ≢ Category.unknown
unfolding classify_patroni
classify_patroni-known k = ground arith

classify_chain-known :
    (d : Option DcsError) (p : Option PatroniError) → (classify_chain d p).0 ≢ Category.unknown
unfolding classify_chain
classify_chain-known (some d) p = classify_dcs-known d.kind
classify_chain-known none (some p) = classify_patroni-known p.kind
classify_chain-known none none = ground arith

pub classify_read_error-known : (e : Option Cause) → (classify_read_error e).0 ≢ Category.unknown
unfolding classify_read_error
classify_read_error-known none = ground arith
classify_read_error-known (some cause) =
    ground (arith, classify_chain-known cause.dcs cause.patroni)

pub classify_http_status-known : (status : ℤ) → (classify_http_status status).0 ≢ Category.unknown
unfolding classify_http_status
classify_http_status-known status = ground arith

-- A response with a status is always `accepted`, and the state is one of the three constants.
pub patroni_send_state-known :
    (e : Option Cause) (status : ℤ)
    → (patroni_send_state e status ≡ SendState.not_sent)
      ⊎ (patroni_send_state e status ≡ SendState.maybe_sent)
      ⊎ (patroni_send_state e status ≡ SendState.accepted)
unfolding patroni_send_state
patroni_send_state-known none status = ground arith
patroni_send_state-known (some cause) status = ground arith
