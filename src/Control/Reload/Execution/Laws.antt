-- ===== src/Control/Reload/Execution/Laws.antt =====
-- Which members an executed reload reports on, and which addresses it posts to.
use go_patroni.Base.{
  ◌+◌, ◌≤◌, ◌≡◌, refl, ◌∙◌, ap, inl, inr, true, false, Option, none, some, List, [], ◌∷◌, map,
  arith, Bool-cases, Option-cases, is_empty, Bool, some_eq, ap₂, subst, ℤ, eqb_ℤ, pos,
}
use go_patroni.Texts.{Text, text, text_eq, eq_of_text_eq}
use go_patroni.Target.Namespace.{normalize_idem}
use go_patroni.Target.{Target, normalize, member_id}
use go_patroni.Dcs.Snapshots.{Snapshot}
use go_patroni.Control.Errors.{patroni_send_state}
use go_patroni.Control.Types.{Plan, Cause, Evidence, SendState}
use go_patroni.Control.Platform.{patroni_base_url}
use go_patroni.Control.Service.{Service, PatroniClient, Trace, Call, call, now, context_error}
use go_patroni.Control.Service.Costs.{reloads, if_counted}
use go_patroni.Control.Reports.{observe}
use go_patroni.Control.Writes.{
  MemberWrite, unsent_write, failed_write, skipped_write_after_cancellation,
  invalid_rest_address_write,
}
use go_patroni.Control.Writes.Members.{Role}
use go_patroni.Control.Writes.Responses.{
  accepted_write, without_response, unknown_write, may_be_sent, Endpoint, classify_response,
  classify_reload_response, reload_endpoint,
}
use go_patroni.Control.Writes.Batches.{
  conflict_of, skipped_for_change, conflict_or_skipped, abort_batch,
}
use go_patroni.Control.Reload.Resolution.{ResolvedMember, Resolved, resolve_planned_members}
use go_patroni.Control.Reload.Resolution.Laws.{
  found_posts, targets_of, resolve_planned_members-IsCurrent,
}
use go_patroni.Control.Reload.Execution.{reload_at, reload_member, reload_members, reload_resolved}

-- The identities that a batch reports on, and those that a plan names.
abbrev pub reported_ids : List MemberWrite → List Text
reported_ids rs = map (λ r. member_id (normalize r.target)) rs

abbrev pub planned_ids : List Target → List Text
planned_ids ts = map (λ target. member_id (normalize target)) ts

conflict_of-member_id :
    (conflicts : List MemberWrite) (id : Text) (r : MemberWrite)
    → conflict_of conflicts id ≡ some r
    → member_id (normalize r.target) ≡ id
unfolding conflict_of
conflict_of-member_id [] id r h = absurd (ground (arith, h))
conflict_of-member_id (x ∷ xs) id r h = elim (Option-cases (conflict_of xs id)) [
  | inr (later, e) ↦ conflict_of-member_id xs id r (e ∙ (rw (e, conflict_of) at h))
  | inl e ↦ elim (Bool-cases (text_eq (member_id (normalize x.target)) id)) [
    | inl same ↦
        subst (λ y. member_id (normalize y.target) ≡ id) (some_eq (rw (e, same, conflict_of) at h))
          (eq_of_text_eq _ _ same)
    | inr other ↦ absurd (ground (arith, rw (e, other, conflict_of) at h))
  ]
]

-- Resolved members of the plan's targets stand for the plan's identities.
targets_of_ids :
    (ms : List ResolvedMember) (ts : List Target)
    → targets_of ms ≡ map normalize ts
    → planned_ids (targets_of ms) ≡ planned_ids ts
targets_of_ids ms ts h = ap planned_ids h ∙ again ts
  where
    again : (ts : List Target) → planned_ids (map normalize ts) ≡ planned_ids ts
    again [] = refl
    again (target ∷ ts) = ap₂ (λ x xs. member_id x ∷ xs) (normalize_idem target) (again ts)

module _ (service : Service) where
  -- The results and the posts of an aborted batch.
  module _ (conflicts : List MemberWrite) where
    conflict_or_skipped-member_id :
        (target : Target) (o : Option MemberWrite) (t : Trace)
        → ((r : MemberWrite)
            → o ≡ some r
            → member_id (normalize r.target) ≡ member_id (normalize target))
        → member_id (normalize (conflict_or_skipped service (text "reload") target o t).0.target)
          ≡ member_id (normalize target)
    unfolding conflict_or_skipped skipped_for_change unsent_write failed_write
    conflict_or_skipped-member_id target none t h = refl
    conflict_or_skipped-member_id target (some r) t h = h r refl

    abort_batch-reported_ids :
        (ts : List Target) (t : Trace)
        → reported_ids (abort_batch service (text "reload") ts conflicts t).0 ≡ planned_ids ts
    unfolding abort_batch
    abort_batch-reported_ids [] t = refl
    abort_batch-reported_ids (target ∷ ts) t =
        let id = member_id (normalize target) in
        ap₂ (λ x xs. x ∷ xs)
          (conflict_or_skipped-member_id target (conflict_of conflicts id) t
            (conflict_of-member_id conflicts id))
          (abort_batch-reported_ids ts _)

    module _ (counted : Text → Bool) where
      conflict_or_skipped-reloads :
          (target : Target) (o : Option MemberWrite) (t : Trace)
          → reloads counted (conflict_or_skipped service (text "reload") target o t).1
            ≡ reloads counted t
      unfolding conflict_or_skipped skipped_for_change observe now call reloads
      conflict_or_skipped-reloads target none t = refl
      conflict_or_skipped-reloads target (some r) t = refl

      abort_batch-reloads :
          (ts : List Target) (t : Trace)
          → reloads counted (abort_batch service (text "reload") ts conflicts t).1
            ≡ reloads counted t
      unfolding abort_batch
      abort_batch-reloads [] t = refl
      abort_batch-reloads (target ∷ ts) t =
          abort_batch-reloads ts _
          ∙ conflict_or_skipped-reloads target
              (conflict_of conflicts (member_id (normalize target))) t

  without_response-target :
      (operation : Text) (endpoint : Endpoint) (target : Target) (send : SendState)
      (cause : Option Cause) (e : Evidence)
      → (without_response operation endpoint target send cause e).target ≡ target
  unfolding without_response unknown_write unsent_write failed_write
  without_response-target operation endpoint target send cause e =
      elim (Bool-cases (may_be_sent send)) [
        | inl maybe ↦ rw (maybe, without_response) refl
        | inr never ↦ rw (never, without_response) refl
      ]

  classify_response-target :
      (operation : Text) (endpoint : Endpoint) (target : Target) (answer : ℤ × Option Cause)
      (t : Trace)
      → (classify_response service operation endpoint target answer t).0.target ≡ target
  unfolding classify_response accepted_write failed_write
  classify_response-target operation endpoint target (status, cause) t =
      elim (Bool-cases (endpoint.accepts status)) [
        | inl accepted ↦ rw (accepted, classify_response) refl
        | inr other ↦ elim (Bool-cases (eqb_ℤ status (pos 0))) [
          | inl silent ↦
              rw (other, silent, classify_response)
                (without_response-target operation endpoint target (patroni_send_state cause status)
                  cause _)
          | inr answered ↦ rw (other, answered, classify_response) refl
        ]
      ]

  module _ (client : PatroniClient) where
    reload_at-target :
        (m : ResolvedMember) (address : Option Text) (t : Trace)
        → (reload_at service client m address t).0.target ≡ m.target
    unfolding reload_at invalid_rest_address_write unsent_write failed_write
        classify_reload_response call
    reload_at-target m none t = refl
    reload_at-target m (some base) t =
        classify_response-target (text "reload") reload_endpoint m.target (client.on_reload t base)
          (Call.post_reload base ∷ t)

    reload_member-target :
        (m : ResolvedMember) (t : Trace) → (reload_member service client m t).0.target ≡ m.target
    unfolding reload_member context_error skipped_write_after_cancellation unsent_write failed_write
        call
    reload_member-target m t = elim (Option-cases (service.on_context t)) [
      | inr (e, ended) ↦ rw (ended, reload_member) refl
      | inl running ↦
          rw (running, reload_member)
            (reload_at-target m (patroni_base_url service.os m.member.member_data.api_url)
              (Call.check_context ∷ t))
    ]

    pub reload_members-reported_ids :
        (ms : List ResolvedMember) (t : Trace)
        → reported_ids (reload_members service client ms t).0 ≡ planned_ids (targets_of ms)
    unfolding reload_members
    reload_members-reported_ids [] t = refl
    reload_members-reported_ids (m ∷ ms) t =
        ap₂ (λ x xs. member_id (normalize x) ∷ xs) (reload_member-target m t)
          (reload_members-reported_ids ms _)

    module _ (counted : Text → Bool) where
      classify_response-reloads :
          (operation : Text) (endpoint : Endpoint) (target : Target) (answer : ℤ × Option Cause)
          (t : Trace)
          → reloads counted (classify_response service operation endpoint target answer t).1
            ≡ reloads counted t
      unfolding classify_response observe now call reloads
      classify_response-reloads operation endpoint target (status, cause) t =
          elim (Bool-cases (endpoint.accepts status)) [
            | inl accepted ↦ rw (accepted, classify_response) refl
            | inr other ↦ elim (Bool-cases (eqb_ℤ status (pos 0))) [
              | inl silent ↦ rw (other, silent, classify_response) refl
              | inr answered ↦ rw (other, answered, classify_response) refl
            ]
          ]

      post_reload-reloads :
          (base : Text) (t : Trace)
          → reloads counted (Call.post_reload base ∷ t)
            ≡ reloads counted t + if_counted counted (some base)
      unfolding reloads
      post_reload-reloads base t = elim (Bool-cases (counted base)) [
        | inl here ↦ rw (here, reloads) (omega arith)
        | inr elsewhere ↦ rw (elsewhere, reloads) (omega arith)
      ]

      reload_at-reloads :
          (m : ResolvedMember) (address : Option Text) (t : Trace)
          → reloads counted (reload_at service client m address t).1
            ≤ reloads counted t + if_counted counted address
      unfolding reload_at invalid_rest_address_write observe now call reloads
          classify_reload_response
      reload_at-reloads m none t = omega arith
      reload_at-reloads m (some base) t =
          let t' = Call.post_reload base ∷ t in
          omega (
            arith,
            classify_response-reloads (text "reload") reload_endpoint m.target
                (client.on_reload t base) t',
            post_reload-reloads base t,
          )

      reload_member-reloads :
          (m : ResolvedMember) (t : Trace)
          → reloads counted (reload_member service client m t).1
            ≤ reloads counted t
              + if_counted counted (patroni_base_url service.os m.member.member_data.api_url)
      unfolding reload_member context_error skipped_write_after_cancellation observe now call
          reloads
      reload_member-reloads m t = elim (Option-cases (service.on_context t)) [
        | inr (e, ended) ↦ rw (ended, reload_member) (omega arith)
        | inl running ↦
            rw (running, reload_member)
              (reload_at-reloads m (patroni_base_url service.os m.member.member_data.api_url)
                (Call.check_context ∷ t))
      ]

      pub reload_members-reloads :
          (ms : List ResolvedMember) (t : Trace)
          → reloads counted (reload_members service client ms t).1
            ≤ reloads counted t + found_posts service.os counted ms
      unfolding reload_members found_posts
      reload_members-reloads [] t = omega arith
      reload_members-reloads (m ∷ ms) t =
          let (r, t') = reload_member service client m t in
          omega (arith, reload_member-reloads m t, reload_members-reloads ms t')

    module _ (p : Plan) where
      -- A conflict on one planned member keeps the reload from being posted to any member: the batch makes
      -- no further call of the reload endpoint at any address, and its results have the identities of the
      -- planned members, in the plan's order.
      pub reload_resolved-abort :
          (counted : Text → Bool) (r : Resolved) (t : Trace)
          → is_empty r.conflicts ≡ false
          → (reloads counted (reload_resolved service client p r t).1 ≡ reloads counted t)
            × (reported_ids (reload_resolved service client p r t).0 ≡ planned_ids p.targets)
      unfolding reload_resolved
      reload_resolved-abort counted r t h =
          rw (h, reload_resolved)
            (
              abort_batch-reloads r.conflicts counted p.targets t,
              abort_batch-reported_ids r.conflicts p.targets t,
            )

      pub resolved_members_ids :
          (ss : List Snapshot) (role : Role) (t : Trace)
          → is_empty
              (resolve_planned_members service (text "reload") ss p.targets role t).0.conflicts
            ≡ true
          → planned_ids (
              targets_of
                (resolve_planned_members service (text "reload") ss p.targets role t).0.members)
            ≡ planned_ids p.targets
      resolved_members_ids ss role t h =
          let (_, complete) =
            resolve_planned_members-IsCurrent service (text "reload") ss role p.targets t in
          targets_of_ids _ p.targets (complete h)
