-- ===== src/Control/Pause/Costs.antt =====
-- How many configuration patches and snapshot reads an executed pause makes.
pub mod Executions
use go_patroni.Base.{
  ◌+◌, ◌≤◌, ◌≡◌, ℕ, zero, suc, inl, inr, Bool, true, false, Option, none, some, List, [], ◌∷◌,
  arith, Bool-cases, Option-cases, length, ℤ, pos, eqb_ℤ,
}
use go_patroni.Base.Result.{Result-cases}
use go_patroni.Texts.{Text}
use go_patroni.Target.{Target}
use go_patroni.Dcs.Values.{Fields}
use go_patroni.Dcs.Snapshots.{Snapshot}
use go_patroni.Control.Types.{Category, Evidence, Cause, Route}
use go_patroni.Control.Platform.{Platform, patroni_base_url}
use go_patroni.Control.Service.{
  Trace, Service, PatroniClient, Run, Call, call, snapshot, context_error, wait_interval,
}
use go_patroni.Control.Service.Costs.{
  patches, reads, if_counted, Cost, Costs, Cost-trans, Cost-any, Cost-weaken, Cost-then, now-Costs,
  snapshot-Costs, context_error-Costs, wait_interval-Costs,
}
use go_patroni.Control.Reports.{observe, evidence_or_message, failed_read}
use go_patroni.Control.Writes.{MemberWrite, invalid_rest_address_write, pause_member_not_sent}
use go_patroni.Control.Writes.Members.{member_named}
use go_patroni.Control.Writes.Responses.{
  Endpoint, classify_response, classify_pause_response, config_endpoint,
}
use go_patroni.Control.Writes.Batches.{has_ambiguous_rest}
use go_patroni.Control.Pause.{PauseIntent, PauseData, PauseResult}
use go_patroni.Control.Pause.Readbacks.{
  Readback, read_pause_state, verify_pause_rounds, verify_pause_state,
}
use go_patroni.Control.Pause.Sending.{
  patch_at, patch_member, add_result, decide_by_readback, finish_pause_http_response,
  after_pause_rounds, after_patch, pause_rounds, api_url_of, pause_payload, has_answered,
}

module _ {counted : Text → Bool} (service : Service) where
  pub failed_read-Costs :
      {T : Type 0} (zero_value : T) (id operation : Text) (target : Target) (path : Route)
      (category : Category) (retryable : Bool) (message : Text) (cause : Option Cause)
      (evidence : List Evidence)
      → Costs counted 0 0 (
          failed_read zero_value service id operation target path category retryable message cause
            evidence)
  unfolding failed_read evidence_or_message observe
  failed_read-Costs zero_value id operation target path category retryable message cause [] t =
      now-Costs service t
  failed_read-Costs zero_value id operation target path category retryable message cause (e ∷ es)
        t =
      Cost-any 0 0 t

  classify_response-Costs :
      (operation : Text) (endpoint : Endpoint) (target : Target) (answer : ℤ × Option Cause)
      → Costs counted 0 0 (classify_response service operation endpoint target answer)
  unfolding classify_response observe
  classify_response-Costs operation endpoint target (status, cause) t =
      elim (Bool-cases (endpoint.accepts status)) [
        | inl accepted ↦ rw (accepted, classify_response) (now-Costs service t)
        | inr other ↦ elim (Bool-cases (eqb_ℤ status (pos 0))) [
          | inl silent ↦ rw (other, silent, classify_response) (now-Costs service t)
          | inr answered ↦ rw (other, answered, classify_response) (now-Costs service t)
        ]
      ]

-- The address that the snapshot has for a planned member; it counts or not.
abbrev pub member_patches : Platform → (Text → Bool) → Snapshot → Target → ℕ
member_patches os counted s target =
    if_counted counted
      (patroni_base_url os (api_url_of (member_named s.cluster.members target.member)))

-- How many planned members have an address in the snapshot that counts.
unfoldable pub planned_patches : Platform → (Text → Bool) → Snapshot → List Target → ℕ
unfolding patroni_base_url member_named
planned_patches os counted s [] = 0
planned_patches os counted s (target ∷ targets) =
    member_patches os counted s target + planned_patches os counted s targets

at_most_one : (counted : Text → Bool) (address : Option Text) → if_counted counted address ≤ 1
at_most_one counted none = omega arith
at_most_one counted (some base) = elim (Bool-cases (counted base)) [
  | inl here ↦ rw here (omega arith)
  | inr elsewhere ↦ rw elsewhere (omega arith)
]

pub planned_patches-length :
    (os : Platform) (counted : Text → Bool) (s : Snapshot) (targets : List Target)
    → planned_patches os counted s targets ≤ length targets
unfolding planned_patches
planned_patches-length os counted s [] = omega arith
planned_patches-length os counted s (target ∷ targets) = omega (
  arith,
  at_most_one counted
      (patroni_base_url os (api_url_of (member_named s.cluster.members target.member))),
  planned_patches-length os counted s targets,
)

patch_config-patches :
    (counted : Text → Bool) (base : Text) (payload : Fields) (t : Trace)
    → patches counted (Call.patch_config base payload ∷ t)
      ≡ patches counted t + if_counted counted (some base)
unfolding patches
patch_config-patches counted base payload t = elim (Bool-cases (counted base)) [
  | inl here ↦ rw (here, patches) (omega arith)
  | inr elsewhere ↦ rw (elsewhere, patches) (omega arith)
]

patch_config-Cost :
    {counted : Text → Bool} (base : Text) (payload : Fields) (t : Trace)
    → Cost counted (if_counted counted (some base)) 0 t (Call.patch_config base payload ∷ t)
unfolding reads
patch_config-Cost {counted} base payload t = record {
  patched = omega (arith, patch_config-patches counted base payload t);
  seen = omega arith;
}

module _ {counted : Text → Bool} (service : Service) (i : PauseIntent) where
  module _ (target : Target) (s : Snapshot) where
    patch_at-Costs :
        (client : PatroniClient) (address : Option Text)
        → Costs counted (if_counted counted address) 0 (patch_at service client i target s address)
    unfolding patch_at invalid_rest_address_write observe classify_pause_response call patches reads
    patch_at-Costs client none t = now-Costs service t
    patch_at-Costs client (some base) t =
        let payload = pause_payload i.desired in
        let t' = Call.patch_config base payload ∷ t in
        Cost-then (if_counted counted (some base)) 0 0 0 _ 0 {t = t} {t' = t'} (omega arith)
          (omega arith) (patch_config-Cost base payload t)
          (classify_response-Costs service i.operation (config_endpoint i.operation) target
            (client.on_patch_config t base payload) t')

    patch_member-Costs :
        (client : Option PatroniClient)
        → Costs counted
            (member_patches service.os counted s target)
            0
            (patch_member service client i target s)
    unfolding patch_member pause_member_not_sent observe
    patch_member-Costs none t =
        Cost-weaken 0 0 _ 0 (omega arith) (omega arith) (now-Costs service t)
    patch_member-Costs (some client) t =
        patch_at-Costs client
          (patroni_base_url service.os (api_url_of (member_named s.cluster.members target.member)))
          t

  module _ (planned : List Text) where
    read_pause_state-Costs :
        (before : Readback) → Costs counted 0 1 (read_pause_state service i planned before)
    unfolding read_pause_state snapshot call observe
    read_pause_state-Costs before t = elim (Result-cases (service.on_snapshot t i.target)) [
      | inr (e, failed) ↦
          rw (failed, read_pause_state)
            (Cost-trans 0 1 0 0 (snapshot-Costs service i.target t) (now-Costs service _))
      | inl (s, answered) ↦
          rw (answered, read_pause_state)
            (Cost-trans 0 1 0 0 (snapshot-Costs service i.target t) (now-Costs service _))
    ]

    round-Costs :
        (rounds : ℕ)
        → ((after : Readback)
            → Costs counted 0 rounds (verify_pause_rounds service i planned rounds false after))
        → (before : Readback)
        → Costs counted 0
            (suc rounds)
            (verify_pause_rounds service i planned (suc rounds) true before)
    unfolding verify_pause_rounds
    round-Costs rounds ih before t =
        let (after, t') = read_pause_state service i planned before t in
        let first = read_pause_state-Costs before t in
        elim (Bool-cases after.verified) [
          | inl seen ↦
              rw (verify_pause_rounds, seen)
                (Cost-weaken 0 1 0 (suc rounds) (omega arith) (omega arith) first)
          | inr unseen ↦
              rw (verify_pause_rounds, unseen)
                (Cost-then 0 1 0 rounds 0 (suc rounds) (omega arith) (omega arith) first
                  (ih after t'))
        ]

    verify_pause_rounds-Costs :
        (rounds : ℕ) (first : Bool) (before : Readback)
        → Costs counted 0 rounds (verify_pause_rounds service i planned rounds first before)
    unfolding verify_pause_rounds wait_interval call observe
    verify_pause_rounds-Costs zero first before t = Cost-any 0 0 t
    verify_pause_rounds-Costs (suc rounds) true before t =
        round-Costs rounds (verify_pause_rounds-Costs rounds false) before t
    verify_pause_rounds-Costs (suc rounds) false before t =
        let waited = wait_interval-Costs service t in
        elim (Option-cases (service.on_wait t)) [
          | inr (e, canceled) ↦
              rw (canceled, verify_pause_rounds)
                (Cost-weaken 0 0 0 (suc rounds) (omega arith) (omega arith)
                  (Cost-trans 0 0 0 0 waited (now-Costs service _)))
          | inl running ↦
              rw (running, verify_pause_rounds)
                (Cost-then 0 0 0 (suc rounds) 0 (suc rounds) (omega arith) (omega arith) waited
                  (round-Costs rounds (verify_pause_rounds-Costs rounds false) before _))
        ]

    pub verify_pause_state-Costs :
        Costs counted 0 service.verification_attempts (verify_pause_state service i planned)
    unfolding verify_pause_state
    verify_pause_state-Costs t = verify_pause_rounds-Costs service.verification_attempts true _ t

    module _ (id : Text) where
      finish_pause_http_response-Costs :
          (d : PauseData) (terminal : MemberWrite) (base : List Evidence)
          → Costs counted 0 service.verification_attempts
              (finish_pause_http_response service id i d terminal planned base)
      unfolding finish_pause_http_response decide_by_readback
      finish_pause_http_response-Costs d terminal base t =
          elim (Bool-cases (eqb_ℤ terminal.http_status (pos 200))) [
            | inl accepted ↦ elim (Bool-cases i.wait) [
              | inr at_once ↦ rw (accepted, at_once, finish_pause_http_response) (Cost-any 0 _ t)
              | inl waiting ↦
                  rw (accepted, waiting, finish_pause_http_response) (verify_pause_state-Costs t)
            ]
            | inr rejected ↦ elim (Bool-cases (has_ambiguous_rest d.results)) [
              | inl ambiguous ↦
                  rw (rejected, ambiguous, finish_pause_http_response) (verify_pause_state-Costs t)
              | inr definite ↦ rw (rejected, definite, finish_pause_http_response) (Cost-any 0 _ t)
            ]
          ]

      after_pause_rounds-Costs :
          (d : PauseData) (evidence : List Evidence)
          → Costs counted 0 service.verification_attempts
              (after_pause_rounds service id i d planned evidence)
      unfolding after_pause_rounds decide_by_readback
      after_pause_rounds-Costs d evidence t = elim (Bool-cases (has_ambiguous_rest d.results)) [
        | inl ambiguous ↦ rw (ambiguous, after_pause_rounds) (verify_pause_state-Costs t)
        | inr definite ↦ rw (definite, after_pause_rounds) (Cost-any 0 _ t)
      ]

      after_patch-Costs :
          (n : ℕ) (d : PauseData) (evidence : List Evidence)
          (continue : PauseData → Run PauseResult)
          → ((d' : PauseData) → Costs counted n service.verification_attempts (continue d'))
          → (r : MemberWrite)
          → Costs counted n service.verification_attempts
              (after_patch service id i planned d evidence continue r)
      unfolding after_patch
      after_patch-Costs n d evidence continue ih r t = elim (Bool-cases (has_answered r)) [
        | inl answered ↦
            rw (answered, after_patch)
              (Cost-weaken 0 _ n _ (omega arith) (omega arith)
                (finish_pause_http_response-Costs (add_result d r) r evidence t))
        | inr silent ↦ rw (silent, after_patch) (ih (add_result d r) t)
      ]

      pub pause_rounds-Costs :
          (s : Snapshot) (targets : List Target) (d : PauseData) (evidence : List Evidence)
          → Costs counted
              (planned_patches service.os counted s targets)
              service.verification_attempts
              (pause_rounds service id i s planned targets d evidence)
      unfolding pause_rounds context_error call planned_patches
      pause_rounds-Costs s [] d evidence t = after_pause_rounds-Costs d evidence t
      pause_rounds-Costs s (target ∷ targets) d evidence t =
          let asked = context_error-Costs service t in
          elim (Option-cases (service.on_context t)) [
            | inr (e, ended) ↦
                rw (ended, pause_rounds) (Cost-weaken 0 0 _ _ (omega arith) (omega arith) asked)
            | inl running ↦
                let before = Call.check_context ∷ t in
                let (r, t') = patch_member service service.patroni i target s before in
                rw (running, pause_rounds)
                  (Cost-then 0 0 (planned_patches service.os counted s (target ∷ targets))
                    service.verification_attempts _ _ (omega arith) (omega arith) asked
                    (Cost-then (member_patches service.os counted s target) 0
                      (planned_patches service.os counted s targets) service.verification_attempts _
                      _ (omega arith) (omega arith)
                      (patch_member-Costs target s service.patroni before)
                      (after_patch-Costs (planned_patches service.os counted s targets) d evidence
                        (λ d'. pause_rounds service id i s planned targets d' evidence)
                        (λ d'. pause_rounds-Costs s targets d' evidence) r t')))
          ]
