-- ===== src/Control/Pause/Costs/Executions.antt =====
-- The calls of a whole execution.
use go_patroni.Base.{
  suc, inl, inr, Bool, true, false, Option, none, some, List, [], ◌∷◌, ◌++◌, arith, Bool-cases,
  Option-cases, length,
}
use go_patroni.Base.Result.{Result-cases}
use go_patroni.Texts.{Text, text}
use go_patroni.Texts.Space.{trim_space}
use go_patroni.Dcs.Snapshots.{Snapshot}
use go_patroni.Control.Types.{Category, Evidence, Cause, Plan, Route, plain}
use go_patroni.Control.Service.{Service, call, snapshot}
use go_patroni.Control.Service.Costs.{
  Costs, Cost-trans, Cost-any, Cost-weaken, Cost-then, now-Costs, snapshot-Costs,
  operation_id-Costs,
}
use go_patroni.Control.Reports.{observe, snapshot_evidence, unsupported_version_result}
use go_patroni.Control.VersionGate.{check_snapshot_patroni_version}
use go_patroni.Control.Transition.Selections.{is_paused}
use go_patroni.Control.Transition.Execution.{or_new_id}
use go_patroni.Control.Writes.Members.{member_names_from_targets}
use go_patroni.Control.Pause.{PauseIntent, PauseRequestError}
use go_patroni.Control.Pause.Contract.{validate_pause_plan}
use go_patroni.Control.Pause.Readbacks.{same_bool}
use go_patroni.Control.Pause.Sending.{decide_by_readback}
use go_patroni.Control.Pause.Preparation.{refuse_pause}
use go_patroni.Control.Pause.Execution.{
  finish_noop, execute_pause_from, execute_pause_checked, execute_pause, same_rest_members,
  zero_pause_data, initial_pause_data,
}
use go_patroni.Control.Pause.Costs.{
  failed_read-Costs, verify_pause_state-Costs, pause_rounds-Costs, planned_patches,
  planned_patches-length,
}

module _ {counted : Text → Bool} (service : Service) where
  or_new_id-Costs : (id : Text) → Costs counted 0 0 (or_new_id service id)
  or_new_id-Costs [] t = operation_id-Costs service t
  or_new_id-Costs (c ∷ id) t = Cost-any 0 0 t

  module _ (id : Text) (i : PauseIntent) where
    refuse_pause-Costs :
        (c : Category × Bool) (message : Text) (cause : Option Cause) (evidence : List Evidence)
        → Costs counted 0 0 (refuse_pause zero_pause_data service id i c message cause evidence)
    unfolding refuse_pause
    refuse_pause-Costs c message cause evidence t =
        search (failed_read-Costs service zero_pause_data)

    unsupported-Costs :
        (s : Snapshot)
        → Costs counted 0 0 (
            unsupported_version_result zero_pause_data service id i.operation i.target Route.rest s)
    unfolding unsupported_version_result snapshot_evidence observe
    unsupported-Costs s t =
        Cost-trans 0 0 0 0 (now-Costs service t)
          (search (failed_read-Costs service zero_pause_data))

    module _ (p : Plan) where
      finish_noop-Costs :
          (s : Snapshot) (evidence : List Evidence)
          → Costs counted 0 service.verification_attempts (finish_noop service id i p s evidence)
      unfolding finish_noop decide_by_readback
      finish_noop-Costs s evidence t = elim (Bool-cases i.wait) [
        | inr at_once ↦ rw (at_once, finish_noop) (Cost-any 0 _ t)
        | inl waiting ↦
            rw (waiting, finish_noop)
              (verify_pause_state-Costs service i (member_names_from_targets p.targets) t)
      ]

      -- Whichever addresses are counted: an executed pause or resume that has read a snapshot sends at
      -- most one configuration patch to them for each planned member with such an address in the
      -- snapshot, and reads at most as many further snapshots as it has verification attempts.
      pub execute_pause_from-Costs :
          (s : Snapshot)
          → Costs counted
              (planned_patches service.os counted s p.targets)
              service.verification_attempts
              (execute_pause_from service id i p s)
      unfolding execute_pause_from snapshot_evidence observe
      execute_pause_from-Costs s t =
          elim (Option-cases (check_snapshot_patroni_version service s false)) [
            | inr (e, outside) ↦
                rw (outside, execute_pause_from)
                  (Cost-weaken 0 0 _ _ (omega arith) (omega arith) (unsupported-Costs s t))
            | inl within ↦ elim (Bool-cases (same_bool (is_paused s.cluster) i.desired)) [
              | inl already ↦
                  rw (within, already, execute_pause_from)
                    (Cost-then 0 0 0 service.verification_attempts _ _ (omega arith) (omega arith)
                      (now-Costs service t) (finish_noop-Costs s _ _))
              | inr needed ↦ elim (Bool-cases (same_rest_members i p s)) [
                | inr changed ↦
                    rw (within, needed, changed, execute_pause_from)
                      (Cost-weaken 0 0 _ _ (omega arith) (omega arith) (now-Costs service t))
                | inl same ↦
                    rw (within, needed, same, execute_pause_from)
                      (Cost-then 0 0 (planned_patches service.os counted s p.targets)
                        service.verification_attempts _ _ (omega arith) (omega arith)
                        (now-Costs service t)
                        (pause_rounds-Costs service i (member_names_from_targets p.targets) id s
                          p.targets (initial_pause_data i) _ _))
              ]
            ]
          ]

      execute_pause_checked-Costs :
          Costs counted
            (length p.targets)
            (suc service.verification_attempts)
            (execute_pause_checked service id i p)
      unfolding execute_pause_checked snapshot call
      execute_pause_checked-Costs t = elim (Option-cases (validate_pause_plan p i)) [
        | inr (e, other) ↦
            rw (other, execute_pause_checked)
              (Cost-weaken 0 0 _ _ (omega arith) (omega arith) (search refuse_pause-Costs))
        | inl accepted ↦
            let read = snapshot-Costs service i.target t in
            elim (Result-cases (service.on_snapshot t i.target)) [
              | inr (e, failed) ↦
                  rw (accepted, failed, execute_pause_checked)
                    (Cost-then 0 1 0 0 _ _ (omega arith) (omega arith) read
                      (search refuse_pause-Costs))
              | inl (s, answered) ↦
                  rw (accepted, answered, execute_pause_checked)
                    (Cost-then 0 1 (length p.targets) service.verification_attempts _ _
                      (omega arith) (omega arith) read
                      (Cost-weaken _ _ _ _ (planned_patches-length service.os counted s p.targets)
                        (omega arith) (execute_pause_from-Costs s _)))
            ]
      ]

  -- An executed pause or resume sends no more configuration patches than the plan has targets, and
  -- reads at most one snapshot more than it has verification attempts.
  pub execute_pause-Costs :
      (context_given : Bool) (request : PauseIntent × Option PauseRequestError) (p : Plan)
      → Costs counted
          (length p.targets)
          (suc service.verification_attempts)
          (execute_pause service context_given request p)
  unfolding execute_pause
  execute_pause-Costs false (i, e) p t =
      let (id, t') = or_new_id service (trim_space p.operation_id) t in
      Cost-then 0 0 0 0 _ _ (omega arith) (omega arith)
        (or_new_id-Costs (trim_space p.operation_id) t)
        (refuse_pause-Costs id i (Category.usage, false) (i.operation ++ text " requires a context")
          none [] t')
  execute_pause-Costs true (i, some e) p t =
      let (id, t') = or_new_id service (trim_space p.operation_id) t in
      Cost-then 0 0 0 0 _ _ (omega arith) (omega arith)
        (or_new_id-Costs (trim_space p.operation_id) t)
        (refuse_pause-Costs id i (Category.usage, false) (i.operation ++ text " request is invalid")
          (some plain) [] t')
  execute_pause-Costs true (i, none) p t =
      let (id, t') = or_new_id service (trim_space p.operation_id) t in
      Cost-then 0 0 (length p.targets) (suc service.verification_attempts) _ _ (omega arith)
        (omega arith) (or_new_id-Costs (trim_space p.operation_id) t)
        (execute_pause_checked-Costs id i p t')
