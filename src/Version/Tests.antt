-- ===== src/Version/Tests.antt =====
-- Runs of the version parser and comparison, and the witnesses of the theorems.
use Prim.Native.Nat.{Ordering}
use go_patroni.Texts.Order.{text_lt}
use go_patroni.Base.{◌≢◌, ◌≡◌, ◌↔◌, refl, true, some, none, [], arith, pos}
use go_patroni.Base.Result.{ok, err}
use go_patroni.Texts.{text, strip_prefix}
use go_patroni.Version.{Version, parse_version, invalid, unsupported}
use go_patroni.Version.Precedence.{compare_version, ◌or_else◌}
use go_patroni.Version.Order.{compare_version-flip, compare_version-Chains, flip}
use go_patroni.Version.Range.{
  VersionRange, contains, audited_patroni_range, check_patroni_version, contains-validate_range,
  validate_range,
}
use go_patroni.Version.Audit.{check_patroni_version_iff, is_audited}

abbrev release : Version
release = record { major = pos 4; minor = pos 0; patch = pos 0; suffix = [] }

abbrev candidate : Version
candidate = record { major = pos 4; minor = pos 0; patch = pos 0; suffix = text "-rc.10" }

abbrev beta : Version
beta = record { major = pos 4; minor = pos 0; patch = pos 0; suffix = text "-rc.2" }

parse_candidate : parse_version (text "v4.0.0-rc.10 (build 7)") ≡ ok candidate
unfolding parse_version text strip_prefix
parse_candidate = refl

parse_bad : parse_version (text "4.0") ≡ err invalid
unfolding parse_version text
parse_bad = refl

precedence :
    (compare_version candidate release ≡ Ordering.lt)
    × (compare_version beta candidate ≡ Ordering.lt)
unfolding compare_version text text_lt
precedence = (refl, refl)

ne_gt : {o : Ordering} → o ≡ Ordering.lt → o ≢ Ordering.gt
ne_gt e k = ground (arith, e, k)

compare_version-flip_example :
    compare_version release candidate ≡ flip (compare_version candidate release)
compare_version-flip_example = compare_version-flip candidate release

compare_version-Chains_example :
    compare_version beta release
    ≡ (compare_version beta candidate or_else compare_version candidate release)
compare_version-Chains_example =
    compare_version-Chains beta candidate release (ne_gt precedence.1) (ne_gt precedence.0)

abbrev narrow : VersionRange
narrow = record {
  min = record { major = pos 3; minor = pos 3; patch = pos 0; suffix = [] };
  max = release;
}

abbrev inside : Version
inside = record { major = pos 3; minor = pos 3; patch = pos 2; suffix = [] }

contains-validate_range_example : contains audited_patroni_range inside ≡ true
unfolding contains compare_version validate_range
contains-validate_range_example = contains-validate_range narrow inside refl refl

abbrev boundary : Version
boundary = record { major = pos 3; minor = pos 0; patch = pos 0; suffix = text "-rc1" }

check_patroni_version_iff_example :
    (check_patroni_version (text "3.0.0-rc1") ≡ none) ↔ (is_audited boundary ≡ true)
unfolding parse_version text strip_prefix
check_patroni_version_iff_example = check_patroni_version_iff (text "3.0.0-rc1") boundary refl

boundary_rejected : check_patroni_version (text "3.0.0-rc1") ≡ some unsupported
unfolding check_patroni_version parse_version contains compare_version text strip_prefix
boundary_rejected = refl
