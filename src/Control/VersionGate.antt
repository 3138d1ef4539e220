-- ===== src/Control/VersionGate.antt =====
-- control/version_gate.go: the versions that a snapshot's members report against the supported
-- range.
pub mod Laws
use go_patroni.Base.{Bool, true, false, Option, none, some, List, [], ◌∷◌, if◌then◌else◌, is_empty}
use go_patroni.Base.Result.{Result, ok, err}
use go_patroni.Texts.{Text}
use go_patroni.Texts.Space.{trim_space}
use go_patroni.Version.{Version, VersionError, unsupported, parse_version}
use go_patroni.Version.Range.{VersionRange, contains}
use go_patroni.Catalog.{FeatureError, supports_feature}
use go_patroni.Dcs.Snapshots.{Member, Snapshot}
use go_patroni.Control.Service.{Service, patroni_version_range}

abbrev check_version_in : VersionRange → Result VersionError Version → Option VersionError
check_version_in range (err e) = some e
check_version_in range (ok v) = if contains range v then none else some unsupported

-- `checkPatroniVersion`; a version that does not parse is unsupported too, the parser's error says
-- why.
unfoldable pub check_service_version : Service → Text → Option VersionError
check_service_version service version =
    check_version_in (patroni_version_range service) (parse_version (trim_space version))

unfoldable pub check_member_versions : Service → List Member → Option VersionError
unfolding check_service_version
check_member_versions service [] = none
check_member_versions service (m ∷ ms) =
    let version = trim_space m.member_data.patroni_version in
    let rest = check_member_versions service ms in
    if is_empty version
    then some unsupported
    else elim (check_service_version service version) [ some e ↦ some e | none ↦ rest ]

unfoldable pub check_snapshot_patroni_version : Service → Snapshot → Bool → Option VersionError
unfolding check_member_versions
check_snapshot_patroni_version service s allow_unsupported_read =
    if allow_unsupported_read then none else check_member_versions service s.cluster.members

unfoldable pub check_known_versions : Service → List Member → Option VersionError
unfolding check_service_version
check_known_versions service [] = none
check_known_versions service (m ∷ ms) =
    let version = trim_space m.member_data.patroni_version in
    let rest = check_known_versions service ms in
    if is_empty version
    then rest
    else elim (check_service_version service version) [ some e ↦ some e | none ↦ rest ]

unfoldable pub check_snapshot_known_patroni_version :
    Service → Snapshot → Bool → Option VersionError
unfolding check_known_versions
check_snapshot_known_patroni_version service s allow_unsupported_read =
    if allow_unsupported_read then none else check_known_versions service s.cluster.members

-- Why a member may lack a feature.
pub data FeatureGateError : Type 0 where
  no_version lacks_feature : FeatureGateError
  bad_feature : FeatureError → FeatureGateError

abbrev feature_error : Result FeatureError Bool → Option FeatureGateError
feature_error (err e) = some (bad_feature e)
feature_error (ok true) = none
feature_error (ok false) = some lacks_feature

unfoldable pub check_members_feature : List Member → Text → Option FeatureGateError
unfolding supports_feature trim_space
check_members_feature [] feature = none
check_members_feature (m ∷ ms) feature =
    let version = trim_space m.member_data.patroni_version in
    let rest = check_members_feature ms feature in
    if is_empty version
    then some no_version
    else elim (feature_error (supports_feature version feature)) [ some e ↦ some e | none ↦ rest ]

-- `checkSnapshotsFeature`
unfoldable pub check_snapshots_feature : List Snapshot → Text → Option FeatureGateError
unfolding check_members_feature
check_snapshots_feature [] feature = none
check_snapshots_feature (s ∷ ss) feature = elim (check_members_feature s.cluster.members feature) [
  | some e ↦ some e
  | none ↦ check_snapshots_feature ss feature
]
