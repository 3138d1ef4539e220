-- ===== src/Control/VersionGate/Laws.antt =====
-- What a snapshot that passes the version gate says of its members.
use go_patroni.Base.{◌≡◌, inl, inr, true, false, none, List, [], ◌∷◌, All, arith}
use go_patroni.Base.Result.{ok, Result-cases}
use go_patroni.Texts.{Text}
use go_patroni.Texts.Space.{trim_space}
use go_patroni.Version.{Version, parse_version}
use go_patroni.Version.Range.{contains}
use go_patroni.Dcs.Snapshots.{Member, Snapshot}
use go_patroni.Control.Service.{Service, patroni_version_range}
use go_patroni.Control.VersionGate.{
  check_service_version, check_member_versions, check_snapshot_patroni_version,
}

-- The text, trimmed, is a version in the service's range.
abbrev pub IsSupported : Service → Text → Type 0
IsSupported service version =
    (v : Version) × (parse_version (trim_space version) ≡ ok v)
    × (contains (patroni_version_range service) v ≡ true)

check_service_version-IsSupported :
    (service : Service) (version : Text)
    → check_service_version service version ≡ none
    → IsSupported service version
unfolding check_service_version
check_service_version-IsSupported service version h =
    elim (Result-cases (parse_version (trim_space version))) [
      | inr (e, failed) ↦ absurd (ground (arith, rw (failed, check_service_version) at h))
      | inl (v, parsed) ↦ (v, parsed, ground (arith, rw (parsed, check_service_version) at h))
    ]

abbrev pub ReportsSupported : Service → Member → Type 0
ReportsSupported service m = IsSupported service (trim_space m.member_data.patroni_version)

check_member_versions-All :
    (service : Service) (ms : List Member)
    → check_member_versions service ms ≡ none
    → All (ReportsSupported service) ms
unfolding check_member_versions
check_member_versions-All service [] h = tt
check_member_versions-All service (m ∷ ms) h = (
  check_service_version-IsSupported service (trim_space m.member_data.patroni_version)
      (ground arith),
  check_member_versions-All service ms (ground arith),
)

-- When a snapshot passes the gate without leave for unsupported versions, every member in it reports
-- a version that parses and lies in the service's range.
pub check_snapshot_patroni_version-All :
    (service : Service) (s : Snapshot)
    → check_snapshot_patroni_version service s false ≡ none
    → All (ReportsSupported service) s.cluster.members
unfolding check_snapshot_patroni_version
check_snapshot_patroni_version-All service s h =
    check_member_versions-All service s.cluster.members h
