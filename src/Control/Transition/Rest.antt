-- ===== src/Control/Transition/Rest.antt =====
-- `callTransitionREST` of control/failover.go: one POST to Patroni, and a second to the older
-- endpoint when a switchover is answered by 501 with the legacy body.
use go_patroni.Base.{
  Bool, true, false, ◌&&◌, ◌||◌, Option, none, some, List, [], ◌∷◌, ◌++◌, if◌then◌else◌, not, ℤ,
  pos, eqb_ℤ,
}
use go_patroni.Texts.{Text, text, contains}
use go_patroni.Control.Types.{SendState, EvidenceSource, Cause, plain, Evidence}
use go_patroni.Control.Errors.{patroni_send_state}
use go_patroni.Control.Platform.{Platform, patroni_base_url}
use go_patroni.Dcs.Snapshots.{Member}
use go_patroni.Control.Service.{
  Service, Run, ◌>>=◌, pure, call, Call, TransitionPayload, Response, PatroniClient, context_error,
}
use go_patroni.Control.Reports.{observe}
use go_patroni.Control.Transition.Intents.{Intent, is_failover, is_switchover, transition_schedule}
use go_patroni.Control.Transition.Selections.{Selection}

unfoldable pub transition_rest_payload : Platform → Intent → Selection → TransitionPayload
unfolding transition_schedule is_switchover
transition_rest_payload os i sel = record {
  leader = if is_switchover i then sel.leader else [];
  candidate = i.candidate;
  scheduled_at = transition_schedule os i;
}

-- What `callTransitionREST` returns.
pub record RestReport : Type 0 where
  pub response : Response
  pub send : SendState
  pub legacy : Bool
  pub evidence : List Evidence
  pub error : Option Cause

abbrev pub no_response : Response
no_response = record { status_code = pos 0; body = [] }

abbrev pub accepted_status : ℤ → Bool
accepted_status status = eqb_ℤ status (pos 200) || eqb_ℤ status (pos 202)

rest_summary : Text → ℤ → Text
rest_summary operation status =
    if accepted_status status
    then text "Patroni accepted " ++ operation
    else if not (eqb_ℤ status (pos 0))
    then text "Patroni rejected " ++ operation
    else text "Patroni " ++ (operation ++ text " transport ended without an HTTP response")

unfoldable pub transition_rest_evidence :
    Service → Text → Text → Response → Option Cause → Run Evidence
unfolding observe rest_summary patroni_send_state
transition_rest_evidence service operation path response error =
    observe service EvidenceSource.patroni (rest_summary operation response.status_code) [] path
      (patroni_send_state error response.status_code)

-- No call of Patroni is possible.
unfoldable pub unsent : Service → Intent → Text → Run RestReport
unfolding observe
unsent service i summary = do
  e ←
      observe service EvidenceSource.patroni (i.operation ++ summary) [] (b'/' ∷ i.operation)
        SendState.not_sent
  pure (record {
    response = no_response;
    send = SendState.not_sent;
    legacy = false;
    evidence = e ∷ [];
    error = some plain;
  })

unfoldable pub post_to_failover :
    PatroniClient → Text → TransitionPayload → Run (Response × Option Cause)
unfolding call
post_to_failover client base payload =
    call (Call.post_failover base payload) (λ t. client.on_failover t base payload)

unfoldable pub post_to_switchover :
    PatroniClient → Text → TransitionPayload → Run (Response × Option Cause)
unfolding call
post_to_switchover client base payload =
    call (Call.post_switchover base payload) (λ t. client.on_switchover t base payload)

unfoldable pub legacy_answer : Intent → Response → Bool
unfolding contains is_switchover text
legacy_answer i response =
    is_switchover i
    && (eqb_ℤ response.status_code (pos 501)
        && contains (text "Server does not support this operation") response.body)

unfoldable pub rest_report :
    Response × Option Cause → Bool → List Evidence → Option Cause → RestReport
unfolding patroni_send_state
rest_report (response, e) legacy evidence error = record {
  response = response;
  send = patroni_send_state e response.status_code;
  legacy = legacy;
  evidence = evidence;
  error = error;
}

-- The second POST, to the older endpoint.
unfoldable pub call_legacy :
    Service → PatroniClient → Intent → Text → TransitionPayload → List Evidence → Run RestReport
unfolding post_to_failover observe transition_rest_evidence rest_report
call_legacy service client i base payload evidence = do
  second ← post_to_failover client base payload
  note ←
      observe service EvidenceSource.control
        (text "Patroni 501 selected the source-compatible legacy /failover endpoint") []
        (text "/switchover->/failover") SendState.not_sent
  later ← transition_rest_evidence service i.operation (text "/failover") second.0 second.1
  pure (rest_report second true (evidence ++ (note ∷ later ∷ [])) second.1)

unfoldable pub after_first_post :
    Service
    → PatroniClient
    → Intent
    → Text
    → TransitionPayload
    → Response × Option Cause
    → List Evidence
    → Run RestReport
unfolding call_legacy legacy_answer rest_report context_error
after_first_post service client i base payload first evidence = elim (legacy_answer i first.0) [
  | true ↦ do
    ended ← context_error service
    elim ended [
      | some e ↦ pure (rest_report first false evidence (some e))
      | none ↦ call_legacy service client i base payload evidence
    ]
  | false ↦ pure (rest_report first false evidence first.1)
]

unfoldable pub first_post :
    PatroniClient → Intent → Text → TransitionPayload → Run (Response × Option Cause)
unfolding post_to_failover post_to_switchover is_failover
first_post client i base payload = elim (is_failover i) [
  | true ↦ post_to_failover client base payload
  | false ↦ post_to_switchover client base payload
]

unfoldable pub call_at :
    Service → PatroniClient → Intent → TransitionPayload → Option Text → Run RestReport
unfolding unsent after_first_post first_post transition_rest_evidence
call_at service client i payload none =
    unsent service i (text " REST target has no usable address; command fallback is required")
call_at service client i payload (some base) = do
  first ← first_post client i base payload
  e ← transition_rest_evidence service i.operation (b'/' ∷ i.operation) first.0 first.1
  after_first_post service client i base payload first (e ∷ [])

abbrev pub usable_address : Service → Member → Option Text
usable_address service m = patroni_base_url service.os m.member_data.api_url

unfoldable pub call_with :
    Service → Option PatroniClient → Option Member → Intent → TransitionPayload → Run RestReport
unfolding unsent call_at
call_with service none member i payload =
    unsent service i (text " REST client is unavailable; command fallback is required")
call_with service (some client) none i payload =
    unsent service i (text " REST target is unavailable; command fallback is required")
call_with service (some client) (some m) i payload =
    call_at service client i payload (usable_address service m)

unfoldable pub call_transition_rest :
    Service → Intent → Selection → TransitionPayload → Run RestReport
unfolding call_with
call_transition_rest service i sel payload =
    call_with service service.patroni sel.rest_member i payload
