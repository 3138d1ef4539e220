-- ===== src/Control/Writes/Laws.antt =====
-- What a classified response says, and what a batch makes of its members.
use go_patroni.Base.{
  ◌≡◌, refl, ◌≢◌, ◌⊎◌, inl, inr, Bool, true, false, Option, none, [], ◌∷◌, ◌++◌, ℤ, pos, arith,
  Bool-cases, is_empty, eqb_ℤ,
}
use go_patroni.Texts.{Text, text}
use go_patroni.Target.{Target, validate}
use go_patroni.Control.Types.{Category, SendState, Evidence, Cause, is_zero, EvidenceSource}
use go_patroni.Control.Errors.{
  new_error, classify_read_error, classify_http_status, patroni_send_state,
}
use go_patroni.Control.Errors.Laws.{
  classify_read_error-known, classify_http_status-known, patroni_send_state-known,
}
use go_patroni.Control.Outcomes.{
  evidence_valid, all_evidence_valid, category_unknown, source_valid, send_state_valid_or_empty,
}
use go_patroni.Control.Service.{Service, Trace, now, call}
use go_patroni.Control.Service.Runs.{Returns}
use go_patroni.Control.Reports.{observe}
use go_patroni.Control.Writes.{member_write_valid, write_fits, failed_write, unsent_write}
use go_patroni.Control.Writes.Responses.{
  Endpoint, accepted_write, unknown_write, without_response, classify_response, may_be_sent,
}

-- The clock never shows the zero time.
abbrev pub ClockRuns : Service → Type 0
ClockRuns service = (t : Trace) → is_zero (service.os.utc (service.on_clock t)) ≡ false

-- The target of a member that `Validate` accepts.
pub record IsMemberTarget (target : Target) : Type 0 where
  pub valid : validate target true ≡ none
  pub named : is_empty target.member ≡ false

append_present : (s t : Text) → is_empty t ≡ false → is_empty (s ++ t) ≡ false
append_present [] t h = h
append_present (c ∷ s) t h = refl

category_known : (c : Category) → c ≢ Category.unknown → category_unknown c ≡ false
category_known c h = ground arith

-- A definite failure with good evidence is a valid result.
pub failed_write-member_write_valid :
    (operation : Text) (target : Target) (send : SendState) (status : ℤ) (c : Category × Bool)
    (message : Text) (cause : Option Cause) (e : Evidence)
    → IsMemberTarget target
    → (send ≡ SendState.not_sent) ⊎ (send ≡ SendState.maybe_sent) ⊎ (send ≡ SendState.accepted)
    → c.0 ≢ Category.unknown
    → is_empty message ≡ false
    → evidence_valid e ≡ true
    → member_write_valid (failed_write operation target send status c message cause e) ≡ true
unfolding member_write_valid failed_write new_error write_fits all_evidence_valid
failed_write-member_write_valid operation target send status c message cause e t s k m v =
    ground (arith, t.valid, t.named, s, category_known c.0 k, m, v)

unknown_write-member_write_valid :
    (operation : Text) (target : Target) (send : SendState) (message : Text) (cause : Option Cause)
    (e : Evidence)
    → IsMemberTarget target
    → may_be_sent send ≡ true
    → is_empty message ≡ false
    → evidence_valid e ≡ true
    → member_write_valid (unknown_write operation target send message cause e) ≡ true
unfolding member_write_valid unknown_write new_error write_fits all_evidence_valid
unknown_write-member_write_valid operation target send message cause e t s m v =
    ground (arith, t.valid, t.named, s, m, v)

accepted_write-member_write_valid :
    (target : Target) (send : SendState) (status : ℤ) (summary : Text) (e : Evidence)
    → IsMemberTarget target
    → (send ≡ SendState.not_sent) ⊎ (send ≡ SendState.maybe_sent) ⊎ (send ≡ SendState.accepted)
    → is_empty summary ≡ false
    → evidence_valid e ≡ true
    → member_write_valid (accepted_write target send status summary e) ≡ true
unfolding member_write_valid accepted_write write_fits all_evidence_valid
accepted_write-member_write_valid target send status summary e t s m v =
    ground (arith, t.valid, t.named, s, m, v)

without_response-member_write_valid :
    (operation : Text) (endpoint : Endpoint) (target : Target) (send : SendState)
    (cause : Option Cause) (e : Evidence)
    → IsMemberTarget target
    → evidence_valid e ≡ true
    → member_write_valid (without_response operation endpoint target send cause e) ≡ true
unfolding without_response unsent_write text
without_response-member_write_valid operation endpoint target send cause e t v =
    elim (Bool-cases (may_be_sent send)) [
      | inl maybe ↦
          rw (maybe, without_response)
            (unknown_write-member_write_valid operation target send _ cause e t maybe
              (append_present operation _ refl) v)
      | inr never ↦
          rw (never, without_response)
            (failed_write-member_write_valid operation target SendState.not_sent (pos 0)
              (classify_read_error cause) _ cause e t (inl refl) (classify_read_error-known cause)
              (append_present operation _ refl) v)
    ]

known_valid :
    (send : SendState)
    → (send ≡ SendState.not_sent) ⊎ (send ≡ SendState.maybe_sent) ⊎ (send ≡ SendState.accepted)
    → send_state_valid_or_empty send ≡ true
known_valid send h = ground arith

module _ (service : Service) (clock : ClockRuns service) where
  observe-evidence_valid :
      (source : EvidenceSource) (summary revision path : Text) (send : SendState) (t : Trace)
      → is_empty summary ≡ false
      → source_valid source ≡ true
      → send_state_valid_or_empty send ≡ true
      → evidence_valid (observe service source summary revision path send t).0 ≡ true
  unfolding observe now call evidence_valid
  observe-evidence_valid source summary revision path send t s v k =
      ground (arith, clock t, s, v, k)

  -- Where the clock does not show the zero time, and the target is valid and names a member: what
  -- the answer of a reload, a restart or a pause is classified as passes `MemberWriteResult.Validate`,
  -- for every endpoint, status and transport error.
  pub classify_response-member_write_valid :
      (operation : Text) (endpoint : Endpoint) (target : Target) (answer : ℤ × Option Cause)
      → IsMemberTarget target
      → Returns
          (λ r. member_write_valid r ≡ true)
          (classify_response service operation endpoint target answer)
  unfolding classify_response text
  classify_response-member_write_valid operation endpoint target (status, cause) ok t =
      let known = patroni_send_state-known cause status in
      let send_valid = known_valid (patroni_send_state cause status) known in
      elim (Bool-cases (endpoint.accepts status)) [
        | inl accepted ↦
            rw (accepted, classify_response)
              (accepted_write-member_write_valid target _ status _ _ ok known refl
                (observe-evidence_valid EvidenceSource.patroni _ _ _ _ t refl refl send_valid))
        | inr other ↦ elim (Bool-cases (eqb_ℤ status (pos 0))) [
          | inl silent ↦
              rw (other, silent, classify_response)
                (without_response-member_write_valid operation endpoint target _ cause _ ok (
                  observe-evidence_valid EvidenceSource.patroni _ _ _ _ t
                    (append_present operation _ refl) refl send_valid))
          | inr answered ↦
              rw (other, answered, classify_response)
                (failed_write-member_write_valid operation target _ status
                  (classify_http_status status) _ cause _ ok known
                  (classify_http_status-known status) refl
                  (observe-evidence_valid EvidenceSource.patroni _ _ _ _ t refl refl send_valid))
        ]
      ]
