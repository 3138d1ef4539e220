-- ===== src/Control/Reload/Execution.antt =====
-- `ExecuteReload` of control/reload.go.
pub mod Laws
use go_patroni.Base.{Bool, true, false, Option, none, some, List, [], ◌∷◌, is_empty, not}
use go_patroni.Texts.{Text, text, text_eq}
use go_patroni.Texts.Space.{trim_space}
use go_patroni.Dcs.Snapshots.{Snapshot}
use go_patroni.Control.Types.{Category, Route, plain, Evidence, Plan, OperationResult}
use go_patroni.Control.Plans.{expected_precondition}
use go_patroni.Control.Platform.{patroni_base_url}
use go_patroni.Control.Service.{◌>>=◌, Service, PatroniClient, Run, pure, call, Call, context_error}
use go_patroni.Control.Groups.{GroupRead, operation_snapshots, snapshot_group_ids}
use go_patroni.Control.Transition.Execution.{or_new_id}
use go_patroni.Control.Writes.{
  MemberWrite, skipped_write_after_cancellation, invalid_rest_address_write,
}
use go_patroni.Control.Writes.Members.{normalized_write_role}
use go_patroni.Control.Writes.Responses.{classify_reload_response}
use go_patroni.Control.Writes.Batches.{BatchWriteData, finalize_batch_write, abort_batch}
use go_patroni.Control.Reload.{ReloadRequest, ReloadIntent, normalize_reload_request}
use go_patroni.Control.Reload.Contract.{validate_reload_plan, refuse_reload}
use go_patroni.Control.Reload.Resolution.{ResolvedMember, Resolved, resolve_planned_members}

unfoldable pub reload_at : Service → PatroniClient → ResolvedMember → Option Text → Run MemberWrite
unfolding invalid_rest_address_write call classify_reload_response text
reload_at service client m none =
    invalid_rest_address_write service (text "reload") m.target m.snapshot
reload_at service client m (some base) = do
  answer ← call (Call.post_reload base) (λ t. client.on_reload t base)
  classify_reload_response service m.target answer

-- One round of the loop over the resolved members.
unfoldable pub reload_member : Service → PatroniClient → ResolvedMember → Run MemberWrite
unfolding context_error skipped_write_after_cancellation reload_at text
reload_member service client m = do
  ended ← context_error service
  elim ended [
    | some e ↦ skipped_write_after_cancellation service (text "reload") m.target e
    | none ↦ reload_at service client m (patroni_base_url service.os m.member.member_data.api_url)
  ]

unfoldable pub reload_members :
    Service → PatroniClient → List ResolvedMember → Run (List MemberWrite)
unfolding reload_member
reload_members service client [] = pure []
reload_members service client (m ∷ ms) = do
  r ← reload_member service client m
  rs ← reload_members service client ms
  pure (r ∷ rs)

-- A conflict on any member stops the whole batch; the inline loop of `ExecuteReload` does what
-- `abortBatchForTargetChange` does.
unfoldable pub reload_resolved : Service → PatroniClient → Plan → Resolved → Run (List MemberWrite)
unfolding abort_batch reload_members text
reload_resolved service client p r = elim (is_empty r.conflicts) [
  | false ↦ abort_batch service (text "reload") p.targets r.conflicts
  | true ↦ reload_members service client r.members
]

abbrev pub zero_batch : BatchWriteData
zero_batch = record { members = [] }

abbrev pub ReloadResult : Type 0
ReloadResult = OperationResult BatchWriteData

-- `expectedPrecondition` gives the empty text where the field is missing.
abbrev pub expected_or_empty : Option Text → Text
expected_or_empty none = []
expected_or_empty (some value) = value

unfoldable pub execute_reload_on :
    Service
    → PatroniClient
    → Text
    → ReloadRequest
    → ReloadIntent
    → Plan
    → List Snapshot
    → List Evidence
    → Run ReloadResult
unfolding snapshot_group_ids refuse_reload resolve_planned_members normalized_write_role
    reload_resolved finalize_batch_write text text_eq
execute_reload_on service client id request i p ss base =
    elim (text_eq (snapshot_group_ids ss)
      (expected_or_empty (expected_precondition p (text "citus.groups")))) [
        | false ↦
            refuse_reload zero_batch service id i.target (Category.conflict, false)
              (text "reload was not sent because the Citus group inventory changed") none base
        | true ↦ do
          r ←
              resolve_planned_members service (text "reload") ss p.targets
                (normalized_write_role request.role)
          members ← reload_resolved service client p r
          pure (finalize_batch_write id (text "reload") i.target Route.rest members base)
      ]

unfoldable pub execute_reload_read :
    Service
    → PatroniClient
    → Text
    → ReloadRequest
    → ReloadIntent
    → Plan
    → GroupRead
    → Run ReloadResult
unfolding refuse_reload execute_reload_on
execute_reload_read service client id request i p (GroupRead.failed evidence f) =
    refuse_reload zero_batch service id i.target (f.category, f.retryable) f.message f.cause
      evidence
execute_reload_read service client id request i p (GroupRead.read ss base) =
    execute_reload_on service client id request i p ss base

unfoldable pub execute_reload_checked :
    Service → Text → ReloadRequest → ReloadIntent → Plan → Run ReloadResult
unfolding validate_reload_plan normalized_write_role refuse_reload operation_snapshots
    execute_reload_read text
execute_reload_checked service id request i p =
    elim (validate_reload_plan p i.target (normalized_write_role request.role) i.members
      request.citus) [
        | some _ ↦
            refuse_reload zero_batch service id i.target (Category.usage, false)
              (text "reload plan does not match the request") (some plain) []
        | none ↦ elim service.patroni [
          | none ↦
              refuse_reload zero_batch service id i.target (Category.config, false)
                (text "reload requires a Patroni REST client") none []
          | some client ↦ do
            answer ← operation_snapshots service (text "reload") i.target request.citus false
            execute_reload_read service client id request i p answer
        ]
      ]

-- `ExecuteReload`
unfoldable pub execute_reload : Service → Bool → ReloadRequest → Plan → Run ReloadResult
unfolding normalize_reload_request refuse_reload execute_reload_checked trim_space text
execute_reload service context_given request p = do
  id ← or_new_id service (trim_space p.operation_id)
  let i = normalize_reload_request request
  elim context_given [
    | false ↦
        refuse_reload zero_batch service id i.target (Category.usage, false)
          (text "reload requires a context") none []
    | true ↦ elim i.error [
      | some _ ↦
          refuse_reload zero_batch service id i.target (Category.usage, false)
            (text "reload request is invalid") (some plain) []
      | none ↦ execute_reload_checked service id request i p
    ]
  ]
