-- ===== src/Control/Writes/Batches.antt =====
-- Several member writes as one result: `finalizeBatchWrite` of control/reload.go,
-- `abortBatchForTargetChange` of control/restart.go, and the helpers of control/flush.go.
pub mod Laws
use go_patroni.Base.{Bool, true, false, Option, none, some, List, [], ◌∷◌, ◌++◌}
use go_patroni.Texts.{Text, text, text_eq}
use go_patroni.Target.{Target, normalize, member_id}
use go_patroni.Control.Types.{
  Category, Outcome, SendState, EvidenceSource, Route, Evidence, ControlError, OperationResult,
  route_text,
}
use go_patroni.Control.Errors.{new_error}
use go_patroni.Control.Service.{◌>>=◌, Service, Run, pure}
use go_patroni.Control.Reports.{observe}
use go_patroni.Control.Writes.{MemberWrite, unsent_write}

-- `BatchWriteData`
pub record BatchWriteData : Type 0 where
  pub members : List MemberWrite

-- One step of the loop on the outcome.
unfoldable pub add_outcome : Outcome → Outcome → Outcome
add_outcome outcome Outcome.unknown = Outcome.unknown
add_outcome Outcome.unknown Outcome.failed = Outcome.unknown
add_outcome outcome Outcome.failed = Outcome.failed
add_outcome outcome _ = outcome

unfoldable pub batch_outcome_from : Outcome → List MemberWrite → Outcome
unfolding add_outcome
batch_outcome_from outcome [] = outcome
batch_outcome_from outcome (r ∷ rs) = batch_outcome_from (add_outcome outcome r.outcome) rs

-- `appendFlushEvidence`, and the same loop of `finalizeBatchWrite`.
unfoldable pub append_evidence : List Evidence → List MemberWrite → List Evidence
append_evidence base [] = base
append_evidence base (r ∷ rs) = append_evidence (base ++ r.evidence) rs

-- The `switch` on the outcome.
unfoldable pub batch_error : Outcome → Text → Target → List Evidence → Option ControlError
unfolding new_error
batch_error Outcome.failed operation target evidence = some (
    new_error Category.failed operation target false
      (operation ++ text " failed for one or more members") none evidence)
batch_error Outcome.unknown operation target evidence = some (
    new_error Category.unknown operation target false
      (operation ++ text " outcome is unknown for one or more members; verify before retrying") none
      evidence)
batch_error _ operation target evidence = none

unfoldable pub finalize_batch_write :
    Text → Text → Target → Route → List MemberWrite → List Evidence → OperationResult BatchWriteData
unfolding batch_outcome_from append_evidence batch_error
finalize_batch_write id operation target path members base =
    let outcome = batch_outcome_from Outcome.succeeded members in
    let evidence = append_evidence base members in
    record {
      operation_id = id;
      outcome = outcome;
      target = target;
      path = path;
      payload = record { members = members };
      evidence = evidence;
      error = batch_error outcome operation target evidence;
    }

abbrev pub add_state : SendState → SendState → SendState
add_state SendState.accepted state = SendState.accepted
add_state _ state = state

-- The loop returns at the first `maybe_sent`.
abbrev pub stop_at_maybe : SendState → SendState → SendState
stop_at_maybe SendState.maybe_sent rest = SendState.maybe_sent
stop_at_maybe _ rest = rest

unfoldable pub send_state_from : SendState → List MemberWrite → SendState
send_state_from state [] = state
send_state_from state (r ∷ rs) =
    stop_at_maybe r.send_state (send_state_from (add_state r.send_state state) rs)

-- `aggregateRESTSendState`
unfoldable pub aggregate_rest_send_state : List MemberWrite → SendState
unfolding send_state_from
aggregate_rest_send_state results = send_state_from SendState.not_sent results

abbrev pub is_unknown : Outcome → Bool
is_unknown Outcome.unknown = true
is_unknown _ = false

-- `flushHasAmbiguousREST`
unfoldable pub has_ambiguous_rest : List MemberWrite → Bool
has_ambiguous_rest [] = false
has_ambiguous_rest (r ∷ rs) = elim (is_unknown r.outcome) [
  | true ↦ true
  | false ↦ has_ambiguous_rest rs
]

-- The conflict kept for a member: the map keeps the last one.
unfoldable pub conflict_of : List MemberWrite → Text → Option MemberWrite
conflict_of [] id = none
conflict_of (r ∷ rs) id = elim (conflict_of rs id) [
  | some later ↦ some later
  | none ↦ elim (text_eq (member_id (normalize r.target)) id) [ true ↦ some r | false ↦ none ]
]

unfoldable pub skipped_for_change : Service → Text → Target → Run MemberWrite
unfolding observe unsent_write route_text text
skipped_for_change service operation target = do
  e ←
      observe service EvidenceSource.control
        (operation ++ text " skipped because the confirmed target set changed") []
        (route_text Route.rest) SendState.not_sent
  pure (
      unsent_write operation target (Category.conflict, false)
        (operation ++ text " was not sent because the confirmed target set changed") none e)

unfoldable pub conflict_or_skipped : Service → Text → Target → Option MemberWrite → Run MemberWrite
unfolding skipped_for_change
conflict_or_skipped service operation target (some r) = pure r
conflict_or_skipped service operation target none = skipped_for_change service operation target

-- `abortBatchForTargetChange`
unfoldable pub abort_batch :
    Service → Text → List Target → List MemberWrite → Run (List MemberWrite)
unfolding conflict_or_skipped conflict_of
abort_batch service operation [] conflicts = pure []
abort_batch service operation (target ∷ targets) conflicts = do
  r ←
      conflict_or_skipped service operation target
        (conflict_of conflicts (member_id (normalize target)))
  rs ← abort_batch service operation targets conflicts
  pure (r ∷ rs)
