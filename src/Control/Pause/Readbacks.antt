-- ===== src/Control/Pause/Readbacks.antt =====
-- `verifyPauseState` and `pausePendingMembers` of control/pause.go.
pub mod Laws
use go_patroni.Base.{
  ℕ, zero, suc, Bool, true, false, ◌&&◌, ◌||◌, Option, none, some, List, [], ◌∷◌, ◌++◌, not,
  is_empty, ℤ, pos, if◌then◌else◌, keep,
}
use go_patroni.Base.Result.{ok, err}
use go_patroni.Texts.{Text, text}
use go_patroni.Texts.Order.{sort_by}
use go_patroni.Texts.Decimal.{itoa}
use go_patroni.Dcs.Snapshots.{Member, ClusterState}
use go_patroni.Control.Types.{SendState, EvidenceSource, Evidence, Route, route_text}
use go_patroni.Control.Service.{◌>>=◌, Service, Run, pure, snapshot, wait_interval}
use go_patroni.Control.Reports.{observe}
use go_patroni.Control.Transition.Selections.{is_paused}
use go_patroni.Control.Writes.Members.{member_named}
use go_patroni.Control.Pause.{PauseIntent}

abbrev pub says_paused : Option Bool → Bool
says_paused none = false
says_paused (some b) = b

abbrev pub same_bool : Bool → Bool → Bool
same_bool true b = b
same_bool false b = not b

-- The member exists and has the desired state.
abbrev pub has_state : Bool → Option Member → Bool
has_state desired none = false
has_state desired (some m) = same_bool (says_paused m.member_data.pause) desired

unfoldable pub is_pending : ClusterState → Bool → Text → Bool
unfolding member_named
is_pending c desired name = not (has_state desired (member_named c.members name))

-- `pausePendingMembers`
unfoldable pub pause_pending_members : ClusterState → List Text → Bool → List Text
unfolding is_pending keep sort_by
pause_pending_members c planned desired =
    sort_by (λ name. name) (keep (is_pending c desired) planned)

-- `configMatches && (!intent.wait || len(pending) == 0)`
unfoldable pub pause_matched : ClusterState → PauseIntent → List Text → Bool
unfolding pause_pending_members is_paused
pause_matched c i planned =
    same_bool (is_paused c) i.desired
    && (not i.wait || is_empty (pause_pending_members c planned i.desired))

-- What `verifyPauseState` returns.
pub record Readback : Type 0 where
  pub verified : Bool
  pub pending : List Text
  pub revision : ℤ
  pub evidence : List Evidence

abbrev pub readback : Bool → List Text → ℤ → List Evidence → Readback
readback verified pending revision evidence = record {
  verified = verified;
  pending = pending;
  revision = revision;
  evidence = evidence;
}

authority_summary : PauseIntent → Bool → Text
unfolding text
authority_summary i true = i.operation ++ text " state is authoritative"
authority_summary i false = i.operation ++ text " state is not yet authoritative"

-- One round after the wait.
unfoldable pub read_pause_state : Service → PauseIntent → List Text → Readback → Run Readback
unfolding snapshot observe pause_matched pause_pending_members authority_summary itoa route_text
    text
read_pause_state service i planned before = do
  answer ← snapshot service i.target
  elim answer [
    | err _ ↦ do
      e ←
          observe service EvidenceSource.dcs (i.operation ++ text " convergence readback failed") []
            (route_text Route.dcs) SendState.unset
      pure (readback false before.pending before.revision (before.evidence ++ e ∷ []))
    | ok s ↦ do
      let matched = pause_matched s.cluster i planned
      e ←
          observe service EvidenceSource.dcs (authority_summary i matched) (itoa s.revision)
            s.prefix SendState.unset
      pure (
          readback matched
            (if matched then [] else pause_pending_members s.cluster planned i.desired) s.revision
            (before.evidence ++ e ∷ []))
  ]

-- The rounds of the loop that are left; `first` is `attempt == 0`.
unfoldable pub verify_pause_rounds :
    Service → PauseIntent → List Text → ℕ → Bool → Readback → Run Readback
unfolding read_pause_state wait_interval observe route_text text
verify_pause_rounds service i planned zero first before =
    pure (readback false before.pending before.revision before.evidence)
verify_pause_rounds service i planned (suc rounds) first before = do
  canceled ← elim first [ true ↦ pure none | false ↦ wait_interval service ]
  elim canceled [
    | some _ ↦ do
      e ←
          observe service EvidenceSource.control
            (i.operation ++ text " convergence verification canceled") [] (route_text Route.dcs)
            SendState.unset
      pure (readback false before.pending before.revision (before.evidence ++ e ∷ []))
    | none ↦ do
      after ← read_pause_state service i planned before
      elim after.verified [
        | true ↦ pure after
        | false ↦ verify_pause_rounds service i planned rounds false after
      ]
  ]

unfoldable pub verify_pause_state : Service → PauseIntent → List Text → Run Readback
unfolding verify_pause_rounds
verify_pause_state service i planned =
    verify_pause_rounds service i planned service.verification_attempts true
      (readback false [] (pos 0) [])
