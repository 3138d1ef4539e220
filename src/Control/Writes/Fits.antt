-- ===== src/Control/Writes/Fits.antt =====
-- Each result for a member has the error and the verification that its outcome asks for.
use go_patroni.Base.{
  ◌≡◌, refl, ◌≢◌, inl, inr, Bool, true, false, Option, ◌++◌, arith, Bool-cases, ℤ, pos, eqb_ℤ,
}
use go_patroni.Texts.{Text, text}
use go_patroni.Target.{Target}
use go_patroni.Control.Types.{Category, SendState, Evidence, Cause}
use go_patroni.Control.Errors.{new_error, classify_read_error, classify_http_status}
use go_patroni.Control.Errors.Laws.{classify_read_error-known, classify_http_status-known}
use go_patroni.Control.Outcomes.{category_unknown}
use go_patroni.Control.Service.{Service}
use go_patroni.Control.Service.Runs.{Returns}
use go_patroni.Control.Writes.{MemberWrite, write_fits, failed_write, unsent_write}
use go_patroni.Control.Writes.Responses.{
  Endpoint, classify_response, without_response, may_be_sent, unknown_write, accepted_write,
}

-- The `switch` of `MemberWriteResult.Validate` passes.
abbrev pub Fits : MemberWrite → Type 0
Fits r = write_fits r.outcome r.verification r.error ≡ true

pub not_unknown : (c : Category) → c ≢ Category.unknown → category_unknown c ≡ false
not_unknown c h = ground arith

-- The result for one member.
pub failed_write-Fits :
    (operation : Text) (target : Target) (send : SendState) (status : ℤ) (c : Category × Bool)
    (message : Text) (cause : Option Cause) (e : Evidence)
    → c.0 ≢ Category.unknown
    → Fits (failed_write operation target send status c message cause e)
unfolding failed_write new_error write_fits
failed_write-Fits operation target send status c message cause e k =
    ground (arith, not_unknown c.0 k)

module _ (service : Service) (operation : Text) (endpoint : Endpoint) (target : Target) where
  without_response-Fits :
      (send : SendState) (cause : Option Cause) (e : Evidence)
      → Fits (without_response operation endpoint target send cause e)
  unfolding without_response unsent_write unknown_write new_error write_fits
  without_response-Fits send cause e = elim (Bool-cases (may_be_sent send)) [
    | inl maybe ↦ rw (maybe, without_response) refl
    | inr never ↦
        rw (never, without_response)
          (failed_write-Fits operation target SendState.not_sent (pos 0) (classify_read_error cause)
            (operation ++ text " was not sent") cause e (classify_read_error-known cause))
  ]

  pub classify_response-Fits :
      (answer : ℤ × Option Cause)
      → Returns Fits (classify_response service operation endpoint target answer)
  unfolding classify_response accepted_write failed_write new_error write_fits
  classify_response-Fits (status, cause) t = elim (Bool-cases (endpoint.accepts status)) [
    | inl accepted ↦ rw (accepted, classify_response) refl
    | inr other ↦ elim (Bool-cases (eqb_ℤ status (pos 0))) [
      | inl silent ↦ rw (other, silent, classify_response) (without_response-Fits _ cause _)
      | inr answered ↦
          rw (other, answered, classify_response)
            (ground (
              arith,
              not_unknown (classify_http_status status).0 (classify_http_status-known status),
            ))
    ]
  ]
