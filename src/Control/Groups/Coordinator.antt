-- ===== src/Control/Groups/Coordinator.antt =====
-- `citusCoordinatorSnapshot` and `versionSnapshots` of control/citus.go.
use go_patroni.Base.{
  Bool, true, false, Option, none, some, List, [], ◌∷◌, find, is_some, pos, eqb_ℤ,
}
use go_patroni.Texts.{Text, text}
use go_patroni.Target.{Target, normalize}
use go_patroni.Dcs.Snapshots.{Snapshot}
use go_patroni.Control.Types.{Category, Evidence}
use go_patroni.Control.Service.{Service, Run, ◌>>=◌, pure}
use go_patroni.Control.VersionGate.{
  check_snapshot_patroni_version, check_snapshot_known_patroni_version,
}
use go_patroni.Control.Groups.{
  GroupRead, VersionCheck, failure, operation_snapshots, operation_snapshots_with,
  citus_group_snapshots,
}

-- The check applies to group 0 only.
abbrev is_coordinator : Snapshot → Bool
is_coordinator s = elim s.target.group [ none ↦ false | some g ↦ eqb_ℤ g (pos 0) ]

unfoldable pub coordinator_check : Service → VersionCheck
unfolding check_snapshot_patroni_version
coordinator_check service s allow = elim (is_coordinator s) [
  | true ↦ check_snapshot_patroni_version service s allow
  | false ↦ none
]

abbrev coordinator_of : Option Snapshot → List Evidence → GroupRead
coordinator_of (some s) evidence = GroupRead.read (s ∷ []) evidence
coordinator_of none evidence =
    GroupRead.failed evidence
      (failure (Category.not_found, false) (text "Citus scope has no coordinator group 0") none)

abbrev pub choose_coordinator : GroupRead → GroupRead
choose_coordinator (GroupRead.read ss evidence) = coordinator_of (find is_coordinator ss) evidence
choose_coordinator (GroupRead.failed evidence f) = GroupRead.failed evidence f

unfoldable pub citus_coordinator_snapshot : Service → Text → Target → Bool → Run GroupRead
unfolding normalize operation_snapshots citus_group_snapshots coordinator_check find text
citus_coordinator_snapshot service operation t allow = elim (is_some (normalize t).group) [
  | true ↦ operation_snapshots service operation (normalize t) true allow
  | false ↦ do
    answer ← citus_group_snapshots service operation (normalize t) allow (coordinator_check service)
    pure (choose_coordinator answer)
]

-- `versionSnapshots`
unfoldable pub version_snapshots : Service → Text → Target → Bool → Bool → Run GroupRead
unfolding operation_snapshots_with check_snapshot_known_patroni_version
version_snapshots service operation t citus allow =
    operation_snapshots_with service operation t citus allow
      (check_snapshot_known_patroni_version service)
