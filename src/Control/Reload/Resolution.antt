-- ===== src/Control/Reload/Resolution.antt =====
-- `resolvePlannedMembersAcrossSnapshots` of control/citus.go.
pub mod Laws
use go_patroni.Base.{true, false, Option, none, some, List, [], ◌∷◌, ◌++◌, find}
use go_patroni.Texts.{Text, text, text_eq}
use go_patroni.Texts.Decimal.{itoa}
use go_patroni.Target.{Target, normalize, cluster_id}
use go_patroni.Dcs.Snapshots.{Member, Snapshot}
use go_patroni.Control.Types.{Category, SendState, EvidenceSource, Route, route_text}
use go_patroni.Control.Platform.{Platform}
use go_patroni.Control.Service.{◌>>=◌, Service, Run, pure}
use go_patroni.Control.Reports.{observe}
use go_patroni.Control.Writes.{MemberWrite, unsent_write}
use go_patroni.Control.Writes.Members.{Role, member_matches_role}

-- `resolvedPlannedMember`
pub record ResolvedMember : Type 0 where
  pub target : Target
  pub member : Member
  pub snapshot : Snapshot

-- `byCluster[id]`: the last snapshot of the cluster.
unfoldable pub snapshot_of : List Snapshot → Text → Option Snapshot
unfolding cluster_id normalize text_eq
snapshot_of [] id = none
snapshot_of (s ∷ ss) id = elim (snapshot_of ss id) [
  | some later ↦ some later
  | none ↦ elim (text_eq (cluster_id (normalize s.target)) id) [ true ↦ some s | false ↦ none ]
]

-- The member of the snapshot, when it exists and still has the role.
unfoldable pub member_with_role : Platform → Role → Text → Snapshot → Option Member
unfolding find member_matches_role text_eq
member_with_role os role name s = elim (find (λ m. text_eq m.name name) s.cluster.members) [
  | none ↦ none
  | some m ↦ elim (member_matches_role os s.cluster m role) [ true ↦ some m | false ↦ none ]
]

abbrev resolved_in : Target → Option Snapshot → Option Member → Option ResolvedMember
resolved_in target (some s) (some m) = some (record { target = target; member = m; snapshot = s })
resolved_in target _ _ = none

abbrev found_member : Platform → Role → Text → Option Snapshot → Option Member
found_member os role name none = none
found_member os role name (some s) = member_with_role os role name s

-- The planned member in the snapshots.
unfoldable pub resolve_member : Platform → Role → List Snapshot → Target → Option ResolvedMember
unfolding snapshot_of cluster_id member_with_role
resolve_member os role ss target =
    let s = snapshot_of ss (cluster_id target) in
    resolved_in target s (found_member os role target.member s)

abbrev conflict_revision : Option Snapshot → Text
conflict_revision none = []
conflict_revision (some s) = itoa s.revision

abbrev conflict_path : Option Snapshot → Text
conflict_path none = route_text Route.dcs
conflict_path (some s) = s.prefix

unfoldable pub membership_changed : Service → Text → Option Snapshot → Target → Run MemberWrite
unfolding observe unsent_write text route_text itoa
membership_changed service operation s target = do
  e ←
      observe service EvidenceSource.dcs
        (text "confirmed member or Citus group is absent or no longer matches its role")
        (conflict_revision s) (conflict_path s) SendState.not_sent
  pure (
      unsent_write operation target (Category.conflict, false)
        (operation ++ text " was not sent because cluster membership changed") none e)

-- The resolved members and the conflicts.
pub record Resolved : Type 0 where
  pub members : List ResolvedMember
  pub conflicts : List MemberWrite

abbrev pub add_member : ResolvedMember → Resolved → Resolved
add_member m r = record { members = m ∷ r.members; conflicts = r.conflicts }

abbrev add_conflict : MemberWrite → Resolved → Resolved
add_conflict c r = record { members = r.members; conflicts = c ∷ r.conflicts }

unfoldable pub resolve_planned_members :
    Service → Text → List Snapshot → List Target → Role → Run Resolved
unfolding resolve_member membership_changed snapshot_of normalize cluster_id
resolve_planned_members service operation ss [] role =
    pure (record { members = []; conflicts = [] })
resolve_planned_members service operation ss (t ∷ ts) role =
    elim (resolve_member service.os role ss (normalize t)) [
      | some m ↦ do r ← resolve_planned_members service operation ss ts role; pure (add_member m r)
      | none ↦ do
        c ←
            membership_changed service operation (snapshot_of ss (cluster_id (normalize t)))
              (normalize t)
        r ← resolve_planned_members service operation ss ts role
        pure (add_conflict c r)
    ]
