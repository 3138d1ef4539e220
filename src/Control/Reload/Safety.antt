-- ===== src/Control/Reload/Safety.antt =====
-- The promises of a reload to its callers.
use go_patroni.Base.{
  ◌+◌, ◌≤◌, ◌≡◌, refl, ◌∙◌, inl, inr, Bool, true, false, Option, none, some, List, [], arith,
  Bool-cases, Option-cases, is_empty,
}
use go_patroni.Texts.{Text, text, text_eq}
use go_patroni.Texts.Space.{trim_space}
use go_patroni.Target.{Target}
use go_patroni.Dcs.Snapshots.{Snapshot}
use go_patroni.Control.Types.{Category, Plan, Evidence, Route, Cause, plain}
use go_patroni.Control.Errors.{new_error}
use go_patroni.Control.Outcomes.{outcome_fits, category_unknown}
use go_patroni.Control.Plans.{expected_precondition}
use go_patroni.Control.Service.{Service, PatroniClient, Trace}
use go_patroni.Control.Service.Runs.{Returns}
use go_patroni.Control.Service.Costs.{reloads}
use go_patroni.Control.Reports.{failed_read}
use go_patroni.Control.VersionGate.{check_snapshot_patroni_version}
use go_patroni.Control.Groups.{GroupRead, operation_snapshots, snapshot_group_ids}
use go_patroni.Control.Groups.Laws.{AllChecked, operation_snapshots_with-AllChecked}
use go_patroni.Control.Transition.Execution.{or_new_id}
use go_patroni.Control.Writes.Members.{Role, normalized_write_role}
use go_patroni.Control.Writes.Batches.{finalize_batch_write}
use go_patroni.Control.Writes.Batches.Laws.{finalize_batch_write-outcome_fits}
use go_patroni.Control.Reload.{ReloadRequest, ReloadIntent, normalize_reload_request}
use go_patroni.Control.Reload.Contract.{validate_reload_plan, refuse_reload}
use go_patroni.Control.Reload.Resolution.{resolve_planned_members}
use go_patroni.Control.Reload.Resolution.Laws.{
  planned_posts, resolve_planned_members-reloads, resolve_planned_members-found_posts,
}
use go_patroni.Control.Reload.Execution.{
  reload_resolved, execute_reload_on, execute_reload_read, execute_reload_checked, execute_reload,
  zero_batch, expected_or_empty,
}
use go_patroni.Control.Reload.Execution.Laws.{
  reload_resolved-abort, resolved_members_ids, reload_members-reloads, reported_ids, planned_ids,
  reload_members-reported_ids,
}

module _ (service : Service) (id : Text) (target : Target) where
  refuse_reload-outcome_fits :
      (c : Category × Bool) (message : Text) (cause : Option Cause) (evidence : List Evidence)
      → category_unknown c.0 ≡ false
      → Returns
          (λ r. outcome_fits r.outcome r.error ≡ true)
          (refuse_reload zero_batch service id target c message cause evidence)
  unfolding refuse_reload failed_read new_error outcome_fits
  refuse_reload-outcome_fits c message cause evidence k t = ground (arith, k)

module _ (service : Service) (client : PatroniClient) (p : Plan) where
  resolved-reloads :
      (counted : Text → Bool) (ss : List Snapshot) (role : Role) (t : Trace)
      → let r = (resolve_planned_members service (text "reload") ss p.targets role t).0 in
        let t' = (resolve_planned_members service (text "reload") ss p.targets role t).1 in
        (reloads counted (reload_resolved service client p r t').1
          ≤ reloads counted t + planned_posts service.os role ss counted p.targets)
        × (reported_ids (reload_resolved service client p r t').0 ≡ planned_ids p.targets)
  unfolding reload_resolved
  resolved-reloads counted ss role t =
      let (r, t') = resolve_planned_members service (text "reload") ss p.targets role t in
      let quiet =
        resolve_planned_members-reloads service (text "reload") ss role counted p.targets t in
      let found =
        resolve_planned_members-found_posts service (text "reload") ss role counted p.targets t in
      elim (Bool-cases (is_empty r.conflicts)) [
        | inr conflicted ↦
            let (posts, ids) = reload_resolved-abort service client p counted r t' conflicted in
            (omega (arith, posts, quiet), ids)
        | inl clear ↦
            rw (clear, reload_resolved)
              (
                omega (
                  arith,
                  reload_members-reloads service client counted r.members t',
                  found,
                  quiet,
                ),
                reload_members-reported_ids service client r.members t'
                    ∙ resolved_members_ids service client p ss role t clear,
              )
      ]

  module _ (id : Text) (request : ReloadRequest) (i : ReloadIntent) (ss : List Snapshot)
      (base : List Evidence) where
    -- Where the Citus groups are those of the plan: the results of an executed reload have the identities
    -- of the planned members, in the plan's order; and whichever addresses are counted, it posts to them
    -- at most once for each planned target whose member has such an address in the snapshots.
    pub execute_reload_on-reloads :
        (counted : Text → Bool) (t : Trace)
        → text_eq
            (snapshot_group_ids ss)
            (expected_or_empty (expected_precondition p (text "citus.groups")))
          ≡ true
        → (reported_ids
              (execute_reload_on service client id request i p ss base t).0.payload.members
            ≡ planned_ids p.targets)
          × (reloads counted (execute_reload_on service client id request i p ss base t).1
              ≤ reloads counted t
                + planned_posts service.os
                    (normalized_write_role request.role)
                    ss
                    counted
                    p.targets)
    unfolding execute_reload_on finalize_batch_write
    execute_reload_on-reloads counted t same =
        let (posts, ids) = resolved-reloads counted ss (normalized_write_role request.role) t in
        rw (same, execute_reload_on) (ids, posts)

    execute_reload_on-outcome_fits :
        Returns
          (λ r. outcome_fits r.outcome r.error ≡ true)
          (execute_reload_on service client id request i p ss base)
    unfolding execute_reload_on
    execute_reload_on-outcome_fits t =
        elim (Bool-cases (
          text_eq (snapshot_group_ids ss)
            (expected_or_empty (expected_precondition p (text "citus.groups"))))) [
              | inr changed ↦
                  rw (changed, execute_reload_on)
                    (refuse_reload-outcome_fits service id i.target (Category.conflict, false) _
                      none base refl t)
              | inl same ↦
                  let (r, t') =
                    resolve_planned_members service (text "reload") ss p.targets
                      (normalized_write_role request.role) t in
                  rw (same, execute_reload_on)
                    (finalize_batch_write-outcome_fits id (text "reload") i.target Route.rest base
                      (reload_resolved service client p r t').0)
            ]

module _ (service : Service) (id : Text) (request : ReloadRequest) (i : ReloadIntent)
    (p : Plan) where
  execute_reload_read-outcome_fits :
      (client : PatroniClient) (answer : GroupRead)
      → AllChecked (check_snapshot_patroni_version service) false answer
      → Returns
          (λ r. outcome_fits r.outcome r.error ≡ true)
          (execute_reload_read service client id request i p answer)
  unfolding execute_reload_read
  execute_reload_read-outcome_fits client (GroupRead.failed evidence f) h t =
      refuse_reload-outcome_fits service id i.target (f.category, f.retryable) f.message f.cause
        evidence h t
  execute_reload_read-outcome_fits client (GroupRead.read ss base) h t =
      execute_reload_on-outcome_fits service client p id request i ss base t

  execute_reload_checked-outcome_fits :
      Returns
        (λ r. outcome_fits r.outcome r.error ≡ true)
        (execute_reload_checked service id request i p)
  unfolding execute_reload_checked operation_snapshots
  execute_reload_checked-outcome_fits t =
      elim (Option-cases (
        validate_reload_plan p i.target (normalized_write_role request.role) i.members
          request.citus)) [
            | inr (e, other) ↦
                rw (other, execute_reload_checked)
                  (refuse_reload-outcome_fits service id i.target (Category.usage, false) _
                    (some plain) [] refl t)
            | inl accepted ↦ elim (Option-cases service.patroni) [
              | inl missing ↦
                  rw (accepted, missing, execute_reload_checked)
                    (refuse_reload-outcome_fits service id i.target (Category.config, false) _ none
                      [] refl t)
              | inr (client, able) ↦
                  let (answer, t') =
                    operation_snapshots service (text "reload") i.target request.citus false t in
                  rw (accepted, able, execute_reload_checked)
                    (execute_reload_read-outcome_fits client answer
                      (operation_snapshots_with-AllChecked service (text "reload") false
                        (check_snapshot_patroni_version service) i.target request.citus t)
                      t')
            ]
          ]

-- Every result of an executed reload has the error that its outcome asks for: none on success, one of a
-- known category on failure, one of the category `unknown` on an unknown outcome.
pub execute_reload-outcome_fits :
    (service : Service) (context_given : Bool) (request : ReloadRequest) (p : Plan) (t : Trace)
    → outcome_fits
        (execute_reload service context_given request p t).0.outcome
        (execute_reload service context_given request p t).0.error
      ≡ true
unfolding execute_reload
execute_reload-outcome_fits service false request p t =
    let (id, t') = or_new_id service (trim_space p.operation_id) t in
    refuse_reload-outcome_fits service id (normalize_reload_request request).target
      (Category.usage, false) (text "reload requires a context") none [] refl t'
execute_reload-outcome_fits service true request p t =
    let (id, t') = or_new_id service (trim_space p.operation_id) t in
    let i = normalize_reload_request request in
    elim (Option-cases i.error) [
      | inr (e, invalid) ↦
          rw (invalid, execute_reload)
            (refuse_reload-outcome_fits service id i.target (Category.usage, false)
              (text "reload request is invalid") (some plain) [] refl t')
      | inl valid ↦
          rw (valid, execute_reload) (execute_reload_checked-outcome_fits service id request i p t')
    ]
