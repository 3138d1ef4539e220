-- ===== src/Control/Restart/Execution.antt =====
-- `ExecuteRestart` of control/restart.go, and `requirePendingRestart`.
use go_patroni.Base.{Bool, true, false, none, some, List, [], ◌∷◌, ◌++◌, is_empty}
use go_patroni.Texts.{Text, text, text_eq}
use go_patroni.Texts.Decimal.{itoa}
use go_patroni.Texts.Space.{trim_space}
use go_patroni.Dcs.Snapshots.{Snapshot}
use go_patroni.Control.Types.{
  Category, SendState, EvidenceSource, Route, plain, Evidence, Plan, OperationResult,
}
use go_patroni.Control.Plans.{expected_precondition}
use go_patroni.Control.Service.{◌>>=◌, Service, PatroniClient, Run, pure}
use go_patroni.Control.Reports.{observe}
use go_patroni.Control.Groups.{GroupRead, operation_snapshots, snapshot_group_ids}
use go_patroni.Control.Transition.Execution.{or_new_id}
use go_patroni.Control.Writes.{MemberWrite, unsent_write}
use go_patroni.Control.Writes.Members.{normalized_write_role}
use go_patroni.Control.Writes.Batches.{BatchWriteData, finalize_batch_write, abort_batch}
use go_patroni.Control.Reload.Resolution.{
  ResolvedMember, Resolved, resolve_planned_members, add_member,
}
use go_patroni.Control.Reload.Execution.{zero_batch, expected_or_empty}
use go_patroni.Control.Restart.{
  RestartRequest, RestartIntent, normalize_restart_request, says_pending, pending_now,
}
use go_patroni.Control.Restart.Contract.{validate_restart_plan, refuse_restart}
use go_patroni.Control.Restart.Sending.{restart_members}

unfoldable pub no_longer_pending : Service → ResolvedMember → Run MemberWrite
unfolding observe unsent_write itoa text
no_longer_pending service m = do
  e ←
      observe service EvidenceSource.dcs (text "confirmed member no longer has pending restart")
        (itoa m.snapshot.revision) m.snapshot.prefix SendState.not_sent
  pure (
      unsent_write (text "restart") m.target (Category.conflict, false)
        (text "restart was not sent because pending-restart state changed") none e)

-- `requirePendingRestart`: the members that still wait for a restart, and the conflicts found so far
-- with one for each other member.
unfoldable pub require_pending_restart :
    Service → List ResolvedMember → List MemberWrite → Run Resolved
unfolding no_longer_pending
require_pending_restart service [] conflicts = pure (record { members = []; conflicts = conflicts })
require_pending_restart service (m ∷ ms) conflicts =
    elim (says_pending m.member.member_data.pending_restart) [
      | true ↦ do r ← require_pending_restart service ms conflicts; pure (add_member m r)
      | false ↦ do
        c ← no_longer_pending service m
        require_pending_restart service ms (conflicts ++ c ∷ [])
    ]

unfoldable pub require_if_pending : Service → RestartRequest → Resolved → Run Resolved
unfolding require_pending_restart
require_if_pending service request r = elim (pending_now request) [
  | true ↦ require_pending_restart service r.members r.conflicts
  | false ↦ pure r
]

-- A conflict on any member stops the whole batch.
unfoldable pub restart_resolved :
    Service → PatroniClient → RestartRequest → Plan → Resolved → Run (List MemberWrite)
unfolding abort_batch restart_members text
restart_resolved service client request p r = elim (is_empty r.conflicts) [
  | false ↦ abort_batch service (text "restart") p.targets r.conflicts
  | true ↦ restart_members service client request r.members
]

abbrev pub RestartResult : Type 0
RestartResult = OperationResult BatchWriteData

unfoldable pub execute_restart_on :
    Service
    → PatroniClient
    → Text
    → RestartRequest
    → RestartIntent
    → Plan
    → List Snapshot
    → List Evidence
    → Run RestartResult
unfolding snapshot_group_ids refuse_restart resolve_planned_members normalized_write_role
    require_if_pending restart_resolved finalize_batch_write text text_eq
execute_restart_on service client id request i p ss base =
    elim (text_eq (snapshot_group_ids ss)
      (expected_or_empty (expected_precondition p (text "citus.groups")))) [
        | false ↦
            refuse_restart zero_batch service id i.target (Category.conflict, false)
              (text "restart was not sent because the Citus group inventory changed") none base
        | true ↦ do
          found ←
              resolve_planned_members service (text "restart") ss p.targets
                (normalized_write_role request.role)
          r ← require_if_pending service request found
          members ← restart_resolved service client request p r
          pure (finalize_batch_write id (text "restart") i.target Route.rest members base)
      ]

unfoldable pub execute_restart_read :
    Service
    → PatroniClient
    → Text
    → RestartRequest
    → RestartIntent
    → Plan
    → GroupRead
    → Run RestartResult
unfolding refuse_restart execute_restart_on
execute_restart_read service client id request i p (GroupRead.failed evidence f) =
    refuse_restart zero_batch service id i.target (f.category, f.retryable) f.message f.cause
      evidence
execute_restart_read service client id request i p (GroupRead.read ss base) =
    execute_restart_on service client id request i p ss base

unfoldable pub execute_restart_checked :
    Service → Text → RestartRequest → RestartIntent → Plan → Run RestartResult
unfolding validate_restart_plan refuse_restart operation_snapshots execute_restart_read text
execute_restart_checked service id request i p =
    elim (validate_restart_plan service.os p i.target request i.members) [
      | some _ ↦
          refuse_restart zero_batch service id i.target (Category.usage, false)
            (text "restart plan does not match the request") (some plain) []
      | none ↦ elim service.patroni [
        | none ↦
            refuse_restart zero_batch service id i.target (Category.config, false)
              (text "restart requires a Patroni REST client") none []
        | some client ↦ do
          answer ← operation_snapshots service (text "restart") i.target request.citus false
          execute_restart_read service client id request i p answer
      ]
    ]

-- `ExecuteRestart`
unfoldable pub execute_restart : Service → Bool → RestartRequest → Plan → Run RestartResult
unfolding normalize_restart_request refuse_restart execute_restart_checked trim_space text
execute_restart service context_given request p = do
  id ← or_new_id service (trim_space p.operation_id)
  let i = normalize_restart_request service.os request
  elim context_given [
    | false ↦
        refuse_restart zero_batch service id i.target (Category.usage, false)
          (text "restart requires a context") none []
    | true ↦ elim i.error [
      | some _ ↦
          refuse_restart zero_batch service id i.target (Category.usage, false)
            (text "restart request is invalid") (some plain) []
      | none ↦ execute_restart_checked service id request i p
    ]
  ]
