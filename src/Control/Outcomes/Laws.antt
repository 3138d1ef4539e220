-- ===== src/Control/Outcomes/Laws.antt =====
-- What `ClassifyWrite` may call a failure.
use go_patroni.Base.{◌≡◌, ◌⊎◌, true, Option, is_some, arith}
use go_patroni.Control.Types.{Outcome, SendState, Verification, ControlError}
use go_patroni.Control.Outcomes.{classify_write}

-- A write is classified as failed only when its failure was verified, or when it was not sent and
-- there is an error; so a write that may have been sent or was accepted is never reported as failed
-- without that verification.
pub classify_write-failed :
    (send : SendState) (v : Verification) (e : Option ControlError)
    → classify_write send v e ≡ Outcome.failed
    → (v ≡ Verification.verified_failed) ⊎ ((send ≡ SendState.not_sent) × (is_some e ≡ true))
unfolding classify_write
classify_write-failed send v e h = ground arith
