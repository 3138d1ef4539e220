-- ===== src/Control/Pause/Settlement/Executions.antt =====
-- `executePause` of control/pause.go as a whole: the calls left in doubt.
use go_patroni.Base.{
  ℕ, ◌≡◌, refl, ◌∙◌, inl, inr, Bool, true, false, ◌||◌, Option, none, some, List, [], ◌∷◌, ◌++◌,
  arith, Bool-cases, Option-cases, pos, eqb_ℤ,
}
use go_patroni.Base.Result.{Result-cases}
use go_patroni.Texts.{Text, text}
use go_patroni.Control.Errors.{classify_read_error}
use go_patroni.Texts.Space.{trim_space}
use go_patroni.Target.{Target}
use go_patroni.Dcs.Snapshots.{Snapshot}
use go_patroni.Control.Types.{Outcome, Category, Cause, Evidence, Plan, Route, plain}
use go_patroni.Control.Service.{
  Service, Run, Trace, Call, call, now, snapshot, context_error, operation_id, or_random_id,
  random_operation_id, new_id,
}
use go_patroni.Control.Doubts.{doubts, in_doubt}
use go_patroni.Control.Reports.{
  observe, failed_read, evidence_or_message, snapshot_evidence, unsupported_version_result,
}
use go_patroni.Control.VersionGate.{check_snapshot_patroni_version}
use go_patroni.Control.Transition.Selections.{is_paused}
use go_patroni.Control.Transition.Execution.{or_new_id}
use go_patroni.Control.Writes.{MemberWrite}
use go_patroni.Control.Writes.Batches.{has_ambiguous_rest}
use go_patroni.Control.Pause.{
  PauseIntent, PauseData, PauseResult, PauseRequestError, pause_success, pause_unknown, set_noop,
}
use go_patroni.Control.Pause.Contract.{validate_pause_plan}
use go_patroni.Control.Pause.Readbacks.{verify_pause_state, same_bool}
use go_patroni.Control.Pause.Preparation.{refuse_pause}
use go_patroni.Control.Pause.Sending.{
  patch_member, add_result, decide_by_readback, finish_pause_http_response, finish_canceled_pause,
  has_answered, after_patch, after_pause_rounds, pause_rounds,
}
use go_patroni.Control.Pause.Execution.{
  finish_noop, execute_pause_from, execute_pause_checked, execute_pause, same_rest_members,
  zero_pause_data, initial_pause_data,
}
use go_patroni.Control.Pause.Settlement.{patch_member-doubts, has_ambiguous_rest-append}

-- The doubts are the given number wherever the result is a failure.
abbrev Settled : Service → ℕ → PauseResult × Trace → Type 0
Settled service n (r, t) = r.outcome ≡ Outcome.failed → doubts service t ≡ n

-- The results so far account for the doubts.
abbrev Accounts : Service → ℕ → PauseData → Trace → Type 0
Accounts service n d t = has_ambiguous_rest d.results ≡ false → doubts service t ≡ n

neither : (a b : Bool) → (a || b) ≡ false → (a ≡ false) × (b ≡ false)
neither a b h = (ground arith, ground arith)

module _ (service : Service) (id : Text) (i : PauseIntent) (planned : List Text) (n : ℕ) where
  decide_by_readback-Settled :
      (d : PauseData) (message : Text) (cause : Option Cause) (evidence : List Evidence) (t : Trace)
      → Settled service n (decide_by_readback service id i d planned message cause evidence t)
  unfolding decide_by_readback pause_success pause_unknown
  decide_by_readback-Settled d message cause evidence t failed =
      elim (Bool-cases (verify_pause_state service i planned t).0.verified) [
        | inl seen ↦ absurd (ground (arith, rw (seen, decide_by_readback) at failed))
        | inr unseen ↦ absurd (ground (arith, rw (unseen, decide_by_readback) at failed))
      ]

  finish_pause_http_response-Settled :
      (d : PauseData) (terminal : MemberWrite) (base : List Evidence) (t : Trace)
      → Accounts service n d t
      → Settled service n (finish_pause_http_response service id i d terminal planned base t)
  unfolding finish_pause_http_response pause_success
  finish_pause_http_response-Settled d terminal base t h =
      elim (Bool-cases (eqb_ℤ terminal.http_status (pos 200))) [
        | inl accepted ↦ elim (Bool-cases i.wait) [
          | inr at_once ↦ rw (accepted, at_once, finish_pause_http_response) (λ e. cc)
          | inl waiting ↦
              rw (accepted, waiting, finish_pause_http_response)
                (decide_by_readback-Settled d _ _ _ t)
        ]
        | inr rejected ↦ elim (Bool-cases (has_ambiguous_rest d.results)) [
          | inl ambiguous ↦
              rw (rejected, ambiguous, finish_pause_http_response)
                (decide_by_readback-Settled d _ _ _ t)
          | inr definite ↦ rw (rejected, definite, finish_pause_http_response) (λ _. h definite)
        ]
      ]

  finish_canceled_pause-Settled :
      (d : PauseData) (cause : Cause) (evidence : List Evidence) (t : Trace)
      → Accounts service n d t
      → Settled service n (finish_canceled_pause id i d cause evidence, t)
  unfolding finish_canceled_pause pause_unknown
  finish_canceled_pause-Settled d cause evidence t h =
      elim (Bool-cases (has_ambiguous_rest d.results)) [
        | inl ambiguous ↦ rw (ambiguous, finish_canceled_pause) (λ e. cc)
        | inr definite ↦ rw (definite, finish_canceled_pause) (λ _. h definite)
      ]

  after_pause_rounds-Settled :
      (d : PauseData) (evidence : List Evidence) (t : Trace)
      → Accounts service n d t
      → Settled service n (after_pause_rounds service id i d planned evidence t)
  unfolding after_pause_rounds
  after_pause_rounds-Settled d evidence t h = elim (Bool-cases (has_ambiguous_rest d.results)) [
    | inl ambiguous ↦ rw (ambiguous, after_pause_rounds) (decide_by_readback-Settled d _ _ _ t)
    | inr definite ↦ rw (definite, after_pause_rounds) (λ _. h definite)
  ]

  after_patch-Settled :
      (d : PauseData) (evidence : List Evidence) (continue : PauseData → Run PauseResult)
      (r : MemberWrite) (t : Trace)
      → Accounts service n (add_result d r) t
      → (Accounts service n (add_result d r) t → Settled service n (continue (add_result d r) t))
      → Settled service n (after_patch service id i planned d evidence continue r t)
  unfolding after_patch
  after_patch-Settled d evidence continue r t h ih = elim (Bool-cases (has_answered r)) [
    | inl answered ↦
        rw (answered, after_patch)
          (finish_pause_http_response-Settled (add_result d r) r evidence t h)
    | inr silent ↦ rw (silent, after_patch) (ih h)
  ]

  module _ (s : Snapshot) where
    pause_rounds-Settled :
        (targets : List Target) (d : PauseData) (evidence : List Evidence) (t : Trace)
        → Accounts service n d t
        → Settled service n (pause_rounds service id i s planned targets d evidence t)
    unfolding pause_rounds context_error call doubts in_doubt add_result
    pause_rounds-Settled [] d evidence t h = after_pause_rounds-Settled d evidence t h
    pause_rounds-Settled (target ∷ targets) d evidence t h =
        let before = Call.check_context ∷ t in
        elim (Option-cases (service.on_context t)) [
          | inr (e, ended) ↦
              rw (ended, pause_rounds) (finish_canceled_pause-Settled d e evidence before h)
          | inl running ↦
              let (r, t') = patch_member service service.patroni i target s before in
              let sent = patch_member-doubts service i target s service.patroni before refl in
              let accounts : Accounts service n (add_result d r) t' = λ k.
                let (earlier, this) =
                  neither _ _ (rw (has_ambiguous_rest-append d.results r) at k) in
                sent this ∙ h earlier in
              rw (running, pause_rounds)
                (after_patch-Settled d evidence
                  (λ d'. pause_rounds service id i s planned targets d' evidence) r t' accounts
                  (pause_rounds-Settled targets (add_result d r) evidence t'))
        ]

module _ (service : Service) where
  refuse_pause-doubts :
      (id : Text) (i : PauseIntent) (c : Category × Bool) (message : Text) (cause : Option Cause)
      (evidence : List Evidence) (t : Trace)
      → doubts service (refuse_pause zero_pause_data service id i c message cause evidence t).1
        ≡ doubts service t
  unfolding refuse_pause failed_read evidence_or_message observe now call doubts in_doubt
  refuse_pause-doubts id i c message cause [] t = refl
  refuse_pause-doubts id i c message cause (e ∷ es) t = refl

  unsupported-doubts :
      (id operation : Text) (target : Target) (s : Snapshot) (t : Trace)
      → doubts service
          (unsupported_version_result zero_pause_data service id operation target Route.rest s t).1
        ≡ doubts service t
  unfolding unsupported_version_result snapshot_evidence failed_read evidence_or_message observe now
      call doubts in_doubt
  unsupported-doubts id operation target s t = refl

  or_random_id-doubts :
      (value : Text) (t : Trace)
      → doubts service (or_random_id service value t).1 ≡ doubts service t
  unfolding random_operation_id call doubts in_doubt
  or_random_id-doubts [] t = refl
  or_random_id-doubts (c ∷ value) t = refl

  pub or_new_id-doubts :
      (value : Text) (t : Trace) → doubts service (or_new_id service value t).1 ≡ doubts service t
  unfolding operation_id call doubts in_doubt
  or_new_id-doubts [] t = or_random_id-doubts (trim_space (service.on_new_id t)) (new_id ∷ t)
  or_new_id-doubts (c ∷ value) t = refl

  module _ (id : Text) (i : PauseIntent) (p : Plan) where
    finish_noop-Settled :
        (s : Snapshot) (evidence : List Evidence) (n : ℕ) (t : Trace)
        → Settled service n (finish_noop service id i p s evidence t)
    unfolding finish_noop pause_success
    finish_noop-Settled s evidence n t = elim (Bool-cases i.wait) [
      | inr at_once ↦ rw (at_once, finish_noop) (λ e. cc)
      | inl waiting ↦
          rw (waiting, finish_noop)
            (decide_by_readback-Settled service id i _ n (set_noop (initial_pause_data i)) _ _
              evidence t)
    ]

    execute_pause_from-Settled :
        (s : Snapshot) (t : Trace)
        → Settled service (doubts service t) (execute_pause_from service id i p s t)
    unfolding execute_pause_from snapshot_evidence observe now call doubts in_doubt
    execute_pause_from-Settled s t =
        let t' = Call.read_clock ∷ t in
        elim (Option-cases (check_snapshot_patroni_version service s false)) [
          | inr (e, outside) ↦
              rw (outside, execute_pause_from) (λ _. unsupported-doubts id i.operation i.target s t)
          | inl within ↦ elim (Bool-cases (same_bool (is_paused s.cluster) i.desired)) [
            | inl already ↦
                rw (within, already, execute_pause_from)
                  (finish_noop-Settled s _ (doubts service t) t')
            | inr needed ↦ elim (Bool-cases (same_rest_members i p s)) [
              | inr changed ↦ rw (within, needed, changed, execute_pause_from) (λ _. refl)
              | inl same ↦
                  rw (within, needed, same, execute_pause_from)
                    (pause_rounds-Settled service id i _ (doubts service t) s p.targets
                      (initial_pause_data i) _ t' (λ _. refl))
            ]
          ]
        ]

    pub execute_pause_checked-Settled :
        (t : Trace) → Settled service (doubts service t) (execute_pause_checked service id i p t)
    unfolding execute_pause_checked snapshot call doubts in_doubt
    execute_pause_checked-Settled t =
        let t' = Call.read_snapshot i.target ∷ t in
        elim (Option-cases (validate_pause_plan p i)) [
          | inr (e, other) ↦
              rw (other, execute_pause_checked)
                (λ _.
                  refuse_pause-doubts id i (Category.usage, false)
                    (i.operation ++ text " plan does not match the request") (some plain) [] t)
          | inl accepted ↦ elim (Result-cases (service.on_snapshot t i.target)) [
            | inr (e, failed) ↦
                rw (accepted, failed, execute_pause_checked)
                  (λ _.
                    refuse_pause-doubts id i (classify_read_error (some e))
                      (i.operation ++ text " execution snapshot failed") (some e) [] t')
            | inl (s, answered) ↦
                rw (accepted, answered, execute_pause_checked) (execute_pause_from-Settled s t')
          ]
        ]

  pub execute_pause-Settled :
      (context_given : Bool) (request : PauseIntent × Option PauseRequestError) (p : Plan)
      (t : Trace)
      → Settled service (doubts service t) (execute_pause service context_given request p t)
  unfolding execute_pause
  execute_pause-Settled false (i, e) p t =
      let (id, t') = or_new_id service (trim_space p.operation_id) t in
      λ _.
        refuse_pause-doubts id i (Category.usage, false) (i.operation ++ text " requires a context")
          none [] t'
        ∙ or_new_id-doubts (trim_space p.operation_id) t
  execute_pause-Settled true (i, some e) p t =
      let (id, t') = or_new_id service (trim_space p.operation_id) t in
      λ _.
        refuse_pause-doubts id i (Category.usage, false) (i.operation ++ text " request is invalid")
          (some plain) [] t'
        ∙ or_new_id-doubts (trim_space p.operation_id) t
  execute_pause-Settled true (i, none) p t =
      let (id, t') = or_new_id service (trim_space p.operation_id) t in
      λ failed.
        execute_pause_checked-Settled id i p t' failed
        ∙ or_new_id-doubts (trim_space p.operation_id) t
