-- ===== src/Control/Pause/Settlement.antt =====
-- `executePause` of control/pause.go: the calls that a failure leaves in doubt.
pub mod Executions
use go_patroni.Base.{
  ◌≡◌, refl, ◌∙◌, inl, inr, Bool, true, false, ◌&&◌, ◌||◌, Option, none, some, List, [], ◌∷◌, ◌++◌,
  arith, Bool-cases, ℤ, pos, eqb_ℤ, eqb_ℤ_iff,
}
use go_patroni.Texts.{Text}
use go_patroni.Target.{Target}
use go_patroni.Dcs.Snapshots.{Snapshot}
use go_patroni.Control.Types.{Cause, Evidence, SendState}
use go_patroni.Control.Errors.{patroni_send_state}
use go_patroni.Control.Platform.{patroni_base_url}
use go_patroni.Control.Service.{Service, PatroniClient, Trace, Call, call, now}
use go_patroni.Control.Doubts.{doubts, doubts-settled, in_doubt, is_lost, rest_in_doubt}
use go_patroni.Control.Reports.{observe}
use go_patroni.Control.Writes.{MemberWrite, invalid_rest_address_write, pause_member_not_sent}
use go_patroni.Control.Writes.Responses.{
  Endpoint, classify_response, classify_pause_response, config_endpoint, without_response,
  unknown_write, may_be_sent,
}
use go_patroni.Control.Writes.Members.{member_named}
use go_patroni.Control.Writes.Batches.{has_ambiguous_rest, is_unknown}
use go_patroni.Control.Pause.{PauseIntent}
use go_patroni.Control.Pause.Sending.{patch_at, patch_member, api_url_of, pause_payload}

-- An answer that is accepted is an HTTP response.
abbrev AcceptsResponses : Endpoint → Type 0
AcceptsResponses endpoint =
    (status : ℤ) → endpoint.accepts status ≡ true → eqb_ℤ status (pos 0) ≡ false

config_endpoint-AcceptsResponses : (operation : Text) → AcceptsResponses (config_endpoint operation)
config_endpoint-AcceptsResponses operation status h =
    ground (arith, eqb_ℤ_iff status (pos 200), eqb_ℤ_iff status (pos 0), h)

and_false : (a b : Bool) → b ≡ false → (a && b) ≡ false
and_false a b h = ground arith

module _ (service : Service) (operation : Text) (endpoint : Endpoint) (target : Target) where
  pub classify_response-doubts :
      (answer : ℤ × Option Cause) (t : Trace)
      → doubts service (classify_response service operation endpoint target answer t).1
        ≡ doubts service t
  unfolding classify_response observe now call doubts in_doubt
  classify_response-doubts (status, cause) t = elim (Bool-cases (endpoint.accepts status)) [
    | inl accepted ↦ rw (accepted, classify_response) refl
    | inr other ↦ elim (Bool-cases (eqb_ℤ status (pos 0))) [
      | inl silent ↦ rw (other, silent, classify_response) refl
      | inr answered ↦ rw (other, answered, classify_response) refl
    ]
  ]

  without_response_open :
      (send : SendState) (cause : Option Cause) (e : Evidence)
      → is_unknown (without_response operation endpoint target send cause e).outcome ≡ false
      → may_be_sent send ≡ false
  unfolding without_response unknown_write
  without_response_open send cause e h = elim (Bool-cases (may_be_sent send)) [
    | inl maybe ↦ absurd (ground (arith, rw (maybe, without_response) at h))
    | inr never ↦ never
  ]

  pub classify_response-is_lost :
      (answer : ℤ × Option Cause) (t : Trace)
      → AcceptsResponses endpoint
      → is_unknown (classify_response service operation endpoint target answer t).0.outcome ≡ false
      → is_lost answer ≡ false
  unfolding classify_response is_lost
  classify_response-is_lost (status, cause) t a h = elim (Bool-cases (endpoint.accepts status)) [
    | inl accepted ↦ rw (a status accepted, is_lost) refl
    | inr other ↦ elim (Bool-cases (eqb_ℤ status (pos 0))) [
      | inl silent ↦ and_false _ _ (
          without_response_open (patroni_send_state cause status) cause _
            (rw (other, silent, classify_response) at h))
      | inr answered ↦ rw (answered, is_lost) refl
    ]
  ]

module _ (service : Service) (i : PauseIntent) (target : Target) (s : Snapshot) where
  patch_at-doubts :
      (client : PatroniClient) (address : Option Text) (t : Trace)
      → service.patroni ≡ some client
      → is_unknown (patch_at service client i target s address t).0.outcome ≡ false
      → doubts service (patch_at service client i target s address t).1 ≡ doubts service t
  unfolding patch_at invalid_rest_address_write observe now call doubts in_doubt rest_in_doubt
      classify_pause_response
  patch_at-doubts client none t e h = refl
  patch_at-doubts client (some base) t e h =
      let payload = pause_payload i.desired in
      let answer = client.on_patch_config t base payload in
      let c = Call.patch_config base payload in
      let found =
        classify_response-is_lost service i.operation (config_endpoint i.operation) target answer
          (c ∷ t) (config_endpoint-AcceptsResponses i.operation) h in
      classify_response-doubts service i.operation (config_endpoint i.operation) target answer
        (c ∷ t)
      ∙ doubts-settled service c t (rw (e, in_doubt) found)

  pub patch_member-doubts :
      (client : Option PatroniClient) (t : Trace)
      → service.patroni ≡ client
      → is_unknown (patch_member service client i target s t).0.outcome ≡ false
      → doubts service (patch_member service client i target s t).1 ≡ doubts service t
  unfolding patch_member pause_member_not_sent observe now call doubts in_doubt
  patch_member-doubts none t e h = refl
  patch_member-doubts (some client) t e h =
      patch_at-doubts client
        (patroni_base_url service.os (api_url_of (member_named s.cluster.members target.member))) t
        e h

pub has_ambiguous_rest-append :
    (rs : List MemberWrite) (r : MemberWrite)
    → has_ambiguous_rest (rs ++ r ∷ []) ≡ (has_ambiguous_rest rs || is_unknown r.outcome)
unfolding has_ambiguous_rest
has_ambiguous_rest-append [] r = elim (Bool-cases (is_unknown r.outcome)) [
  | inl e ↦ rw (e, has_ambiguous_rest) refl
  | inr e ↦ rw (e, has_ambiguous_rest) refl
]
has_ambiguous_rest-append (x ∷ rs) r = elim (Bool-cases (is_unknown x.outcome)) [
  | inl e ↦ rw (e, has_ambiguous_rest) refl
  | inr e ↦ rw (e, has_ambiguous_rest) (has_ambiguous_rest-append rs r)
]
