-- ===== src/Control/Outcomes.antt =====
-- control/result.go and the validation of control/errors.go: when evidence, an error and a result
-- are well formed, and the classification of a write.
pub mod Laws
use go_patroni.Base.{
  Bool, true, false, ◌&&◌, Option, none, some, List, [], ◌∷◌, is_empty, not, is_some,
}
use go_patroni.Target.{validate}
use go_patroni.Control.Types.{
  Category, Outcome, SendState, Verification, EvidenceSource, Evidence, ControlError,
  OperationResult, is_zero,
}
use go_patroni.Control.Plans.{route_valid}

abbrev pub source_valid : EvidenceSource → Bool
source_valid EvidenceSource.unset = false
source_valid (EvidenceSource.other _) = false
source_valid _ = true

abbrev pub send_state_valid_or_empty : SendState → Bool
send_state_valid_or_empty (SendState.other _) = false
send_state_valid_or_empty _ = true

-- `err == nil` of `Evidence.Validate`
unfoldable pub evidence_valid : Evidence → Bool
evidence_valid e =
    source_valid e.source
    && (not (is_zero e.observed_at)
        && (not (is_empty e.summary) && send_state_valid_or_empty e.send_state))

unfoldable pub all_evidence_valid : List Evidence → Bool
unfolding evidence_valid
all_evidence_valid [] = true
all_evidence_valid (e ∷ es) = evidence_valid e && all_evidence_valid es

abbrev pub category_valid : Category → Bool
category_valid (Category.other _) = false
category_valid _ = true

abbrev pub category_unknown : Category → Bool
category_unknown Category.unknown = true
category_unknown _ = false

-- `err == nil` of `Error.Validate`
unfoldable pub error_valid : ControlError → Bool
unfolding all_evidence_valid
error_valid e =
    category_valid e.category
    && (not (is_empty e.operation) && (not (is_empty e.message) && all_evidence_valid e.evidence))

-- The `switch` of `Result.Validate` on the outcome.
unfoldable pub outcome_fits : Outcome → Option ControlError → Bool
outcome_fits Outcome.succeeded error = not (is_some error)
outcome_fits Outcome.failed none = false
outcome_fits Outcome.failed (some e) = not (category_unknown e.category)
outcome_fits Outcome.unknown none = false
outcome_fits Outcome.unknown (some e) = category_unknown e.category
outcome_fits (Outcome.other _) error = false

abbrev pub error_valid_or_nil : Option ControlError → Bool
error_valid_or_nil none = true
error_valid_or_nil (some e) = error_valid e

-- `err == nil` of `Result.Validate`
unfoldable pub result_valid : {T : Type 0} → OperationResult T → Bool
unfolding outcome_fits error_valid all_evidence_valid
result_valid r =
    not (is_empty r.operation_id)
    && (not (is_some (validate r.target (not (is_empty r.target.scope))))
        && (route_valid r.path
            && (not (is_empty r.evidence)
                && (all_evidence_valid r.evidence
                    && (outcome_fits r.outcome r.error && error_valid_or_nil r.error)))))

unfoldable pub classify_write : SendState → Verification → Option ControlError → Outcome
classify_write send Verification.verified_succeeded error = Outcome.succeeded
classify_write send Verification.verified_failed error = Outcome.failed
classify_write SendState.not_sent _ (some _) = Outcome.failed
classify_write _ _ _ = Outcome.unknown
