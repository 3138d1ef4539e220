-- ===== src/Control/Pause/Execution/Laws.antt =====
-- Every result of an executed pause or resume is sound.
use go_patroni.Base.{
  refl, inl, inr, Bool, true, false, Option, none, some, List, [], ◌∷◌, Bool-cases, Option-cases,
  All, All-append, pos, eqb_ℤ,
}
use go_patroni.Base.Result.{Result-cases}
use go_patroni.Texts.{Text}
use go_patroni.Texts.Space.{trim_space}
use go_patroni.Target.{Target}
use go_patroni.Dcs.Snapshots.{Snapshot}
use go_patroni.Control.Types.{Category, Verification, Evidence, Cause, Plan, plain}
use go_patroni.Control.Errors.{new_error, classify_read_error, classify_http_status}
use go_patroni.Control.Errors.Laws.{classify_read_error-known, classify_http_status-known}
use go_patroni.Control.Platform.{patroni_base_url}
use go_patroni.Control.Service.{Service, PatroniClient, Run, call, Call, snapshot, context_error}
use go_patroni.Control.Service.Runs.{Returns}
use go_patroni.Control.VersionGate.{check_snapshot_patroni_version}
use go_patroni.Control.Transition.Selections.{is_paused}
use go_patroni.Control.Transition.Execution.{or_new_id}
use go_patroni.Control.Writes.{
  MemberWrite, write_fits, failed_write, unsent_write, invalid_rest_address_write,
  pause_member_not_sent,
}
use go_patroni.Control.Writes.Responses.{classify_pause_response, config_endpoint}
use go_patroni.Control.Writes.Batches.{has_ambiguous_rest, append_evidence}
use go_patroni.Control.Writes.Members.{member_named}
use go_patroni.Control.Pause.{
  PauseIntent, PauseData, PauseResult, PauseRequestError, set_pause_verification, set_readback,
  set_noop,
}
use go_patroni.Control.Pause.Contract.{validate_pause_plan}
use go_patroni.Control.Pause.Readbacks.{verify_pause_state, same_bool}
use go_patroni.Control.Pause.Sending.{
  patch_at, patch_member, add_result, decide_by_readback, finish_pause_http_response,
  finish_canceled_pause, last_error, terminal_pause_failure, has_answered, after_patch,
  after_pause_rounds, pause_rounds, api_url_of, pause_payload,
}
use go_patroni.Control.Pause.Execution.{
  finish_noop, execute_pause_from, execute_pause_checked, execute_pause, same_rest_members,
  initial_pause_data,
}
use go_patroni.Control.Writes.Fits.{Fits, not_unknown, classify_response-Fits}
use go_patroni.Control.Pause.Soundness.{
  IsSound, IsSilent, OnlyLastAnswered, success-IsSound, unknown-IsSound, failure-IsSound,
  refuse_pause-IsSound, unsupported-IsSound, only_last_append, silent_only_last, last_error-known,
}

module _ (service : Service) (i : PauseIntent) (target : Target) (s : Snapshot) where
  patch_at-Fits :
      (client : PatroniClient) (address : Option Text)
      → Returns Fits (patch_at service client i target s address)
  unfolding patch_at invalid_rest_address_write unsent_write failed_write new_error write_fits
      classify_pause_response call
  patch_at-Fits client none t = refl
  patch_at-Fits client (some base) t =
      let payload = pause_payload i.desired in
      classify_response-Fits service i.operation (config_endpoint i.operation) target
        (client.on_patch_config t base payload) (Call.patch_config base payload ∷ t)

  patch_member-Fits :
      (client : Option PatroniClient) → Returns Fits (patch_member service client i target s)
  unfolding patch_member pause_member_not_sent unsent_write failed_write new_error write_fits
  patch_member-Fits none t = refl
  patch_member-Fits (some client) t =
      patch_at-Fits client
        (patroni_base_url service.os (api_url_of (member_named s.cluster.members target.member))) t

module _ (service : Service) (id : Text) (i : PauseIntent) (planned : List Text) where
  decide_by_readback-IsSound :
      (d : PauseData) (message : Text) (cause : Option Cause) (evidence : List Evidence)
      → All Fits d.results
      → OnlyLastAnswered d.results
      → Returns IsSound (decide_by_readback service id i d planned message cause evidence)
  unfolding decide_by_readback set_readback
  decide_by_readback-IsSound d message cause evidence f o t =
      let v = (verify_pause_state service i planned t).0 in
      elim (Bool-cases v.verified) [
        | inl seen ↦
            rw (seen, decide_by_readback)
              (success-IsSound id i (set_readback d v.pending v.revision) _ f o)
        | inr unseen ↦
            rw (unseen, decide_by_readback)
              (unknown-IsSound id i (set_readback d v.pending v.revision) message cause _ f o)
      ]

  finish_pause_http_response-IsSound :
      (d : PauseData) (terminal : MemberWrite) (base : List Evidence)
      → All Fits d.results
      → OnlyLastAnswered d.results
      → Returns IsSound (finish_pause_http_response service id i d terminal planned base)
  unfolding finish_pause_http_response
  finish_pause_http_response-IsSound d terminal base f o t =
      elim (Bool-cases (eqb_ℤ terminal.http_status (pos 200))) [
        | inl accepted ↦ elim (Bool-cases i.wait) [
          | inr at_once ↦
              rw (accepted, at_once, finish_pause_http_response)
                (success-IsSound id i d (append_evidence base d.results) f o)
          | inl waiting ↦
              rw (accepted, waiting, finish_pause_http_response)
                (decide_by_readback-IsSound d _ _ _ f o t)
        ]
        | inr rejected ↦ elim (Bool-cases (has_ambiguous_rest d.results)) [
          | inl ambiguous ↦
              rw (rejected, ambiguous, finish_pause_http_response)
                (decide_by_readback-IsSound d _ _ _ f o t)
          | inr definite ↦
              rw (rejected, definite, finish_pause_http_response)
                (failure-IsSound id i d (classify_http_status terminal.http_status) _ _ _
                  (not_unknown _ (classify_http_status-known terminal.http_status)) definite f o)
        ]
      ]

  finish_canceled_pause-IsSound :
      (d : PauseData) (cause : Cause) (evidence : List Evidence)
      → IsSilent d
      → IsSound (finish_canceled_pause id i d cause evidence)
  unfolding finish_canceled_pause
  finish_canceled_pause-IsSound d cause evidence h =
      elim (Bool-cases (has_ambiguous_rest d.results)) [
        | inl ambiguous ↦
            rw (ambiguous, finish_canceled_pause)
              (unknown-IsSound id i d _ (some cause) (append_evidence evidence d.results) h.fits
                (silent_only_last d.results h.silent))
        | inr definite ↦
            rw (definite, finish_canceled_pause)
              (failure-IsSound id i d (Category.failed, false) _ (some cause)
                (append_evidence evidence d.results) refl definite h.fits
                (silent_only_last d.results h.silent))
      ]

  after_pause_rounds-IsSound :
      (d : PauseData) (evidence : List Evidence)
      → IsSilent d
      → Returns IsSound (after_pause_rounds service id i d planned evidence)
  unfolding after_pause_rounds
  after_pause_rounds-IsSound d evidence h t = elim (Bool-cases (has_ambiguous_rest d.results)) [
    | inl ambiguous ↦
        rw (ambiguous, after_pause_rounds)
          (decide_by_readback-IsSound d _ _ _ h.fits (silent_only_last d.results h.silent) t)
    | inr definite ↦
        rw (definite, after_pause_rounds)
          (failure-IsSound id i d (terminal_pause_failure (last_error d.results)) _ _ _
            (last_error-known d.results h.fits definite) definite h.fits
            (silent_only_last d.results h.silent))
  ]

  after_patch-IsSound :
      (d : PauseData) (evidence : List Evidence) (continue : PauseData → Run PauseResult)
      → IsSilent d
      → ((d' : PauseData) → IsSilent d' → Returns IsSound (continue d'))
      → (r : MemberWrite) → Fits r
      → Returns IsSound (after_patch service id i planned d evidence continue r)
  unfolding after_patch add_result
  after_patch-IsSound d evidence continue h ih r fit t =
      let fits = All-append Fits d.results (r ∷ []) h.fits (fit, tt) in
      elim (Bool-cases (has_answered r)) [
        | inl answered ↦
            rw (answered, after_patch)
              (finish_pause_http_response-IsSound (add_result d r) r evidence fits
                (only_last_append d.results r h.silent) t)
        | inr silent ↦
            rw (silent, after_patch)
              (ih (add_result d r)
                (record {
                  fits = fits;
                  silent = All-append _ d.results (r ∷ []) h.silent (silent, tt);
                })
                t)
      ]

  module _ (s : Snapshot) where
    pause_rounds-IsSound :
        (targets : List Target) (d : PauseData) (evidence : List Evidence)
        → IsSilent d
        → Returns IsSound (pause_rounds service id i s planned targets d evidence)
    unfolding pause_rounds context_error call
    pause_rounds-IsSound [] d evidence h t = after_pause_rounds-IsSound d evidence h t
    pause_rounds-IsSound (target ∷ targets) d evidence h t =
        elim (Option-cases (service.on_context t)) [
          | inr (e, ended) ↦ rw (ended, pause_rounds) (finish_canceled_pause-IsSound d e evidence h)
          | inl running ↦
              let (r, t') =
                patch_member service service.patroni i target s (Call.check_context ∷ t) in
              rw (running, pause_rounds)
                (after_patch-IsSound d evidence
                  (λ d'. pause_rounds service id i s planned targets d' evidence) h
                  (λ d' h'. pause_rounds-IsSound targets d' evidence h') r
                  (patch_member-Fits service i target s service.patroni (Call.check_context ∷ t))
                  t')
        ]

module _ (service : Service) (id : Text) (i : PauseIntent) (p : Plan) where
  finish_noop-IsSound :
      (s : Snapshot) (evidence : List Evidence)
      → Returns IsSound (finish_noop service id i p s evidence)
  unfolding finish_noop set_noop set_readback set_pause_verification initial_pause_data
  finish_noop-IsSound s evidence t = elim (Bool-cases i.wait) [
    | inr at_once ↦
        rw (at_once, finish_noop)
          (success-IsSound id i (set_readback (set_noop (initial_pause_data i)) [] s.revision)
            evidence tt tt)
    | inl waiting ↦
        rw (waiting, finish_noop)
          (decide_by_readback-IsSound service id i _ (set_noop (initial_pause_data i)) _ _ evidence
            tt tt t)
  ]

  execute_pause_from-IsSound :
      (s : Snapshot) → Returns IsSound (execute_pause_from service id i p s)
  unfolding execute_pause_from initial_pause_data set_pause_verification
  execute_pause_from-IsSound s t =
      elim (Option-cases (check_snapshot_patroni_version service s false)) [
        | inr (e, outside) ↦ rw (outside, execute_pause_from) (unsupported-IsSound service id i s t)
        | inl within ↦ elim (Bool-cases (same_bool (is_paused s.cluster) i.desired)) [
          | inl already ↦ rw (within, already, execute_pause_from) (finish_noop-IsSound s _ _)
          | inr needed ↦ elim (Bool-cases (same_rest_members i p s)) [
            | inr changed ↦
                rw (within, needed, changed, execute_pause_from)
                  (failure-IsSound id i
                    (set_pause_verification (initial_pause_data i) Verification.verified_failed)
                    (Category.conflict, false) _ none _ refl refl tt tt)
            | inl same ↦
                rw (within, needed, same, execute_pause_from)
                  (pause_rounds-IsSound service id i _ s p.targets (initial_pause_data i) _
                    (record { fits = tt; silent = tt }) _)
          ]
        ]
      ]

  execute_pause_checked-IsSound : Returns IsSound (execute_pause_checked service id i p)
  unfolding execute_pause_checked snapshot call
  execute_pause_checked-IsSound t = elim (Option-cases (validate_pause_plan p i)) [
    | inr (e, other) ↦
        rw (other, execute_pause_checked)
          (refuse_pause-IsSound service id i (Category.usage, false) _ (some plain) [] refl t)
    | inl accepted ↦ elim (Result-cases (service.on_snapshot t i.target)) [
      | inr (e, failed) ↦
          rw (accepted, failed, execute_pause_checked)
            (refuse_pause-IsSound service id i (classify_read_error (some e)) _ (some e) []
              (not_unknown _ (classify_read_error-known (some e))) _)
      | inl (s, answered) ↦
          rw (accepted, answered, execute_pause_checked) (execute_pause_from-IsSound s _)
    ]
  ]

pub execute_pause-IsSound :
    (service : Service) (context_given : Bool) (request : PauseIntent × Option PauseRequestError)
    (p : Plan)
    → Returns IsSound (execute_pause service context_given request p)
unfolding execute_pause
execute_pause-IsSound service false (i, e) p t =
    let (id, t') = or_new_id service (trim_space p.operation_id) t in
    refuse_pause-IsSound service id i (Category.usage, false) _ none [] refl t'
execute_pause-IsSound service true (i, some e) p t =
    let (id, t') = or_new_id service (trim_space p.operation_id) t in
    refuse_pause-IsSound service id i (Category.usage, false) _ (some plain) [] refl t'
execute_pause-IsSound service true (i, none) p t =
    let (id, t') = or_new_id service (trim_space p.operation_id) t in
    execute_pause_checked-IsSound service id i p t'
