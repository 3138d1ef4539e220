-- ===== src/Version/Range.antt =====
-- `VersionRange` and the audited range of model/version.go.
use Prim.Native.Nat.{Ordering}
use go_patroni.Base.{
  ◌++◌, ◌≡◌, ◌≢◌, Bool, true, false, ◌&&◌, ◌||◌, Option, none, some, [], arith, if◌then◌else◌, pos,
  not,
}
use go_patroni.Base.Result.{Result, ok, err, ◌>>=◌}
use go_patroni.Texts.{Text, text}
use go_patroni.Version.{
  Version, VersionError, unsupported, empty_range, outside_audited, parse_version, version_text,
}
use go_patroni.Version.Precedence.{compare_numeric_core, compare_version}
use go_patroni.Version.Order.{
  compare_numeric_core-Chains, compare_version-flip, compare_version-Chains,
}

pub record VersionRange : Type 0 where
  pub min : Version
  pub max : Version

-- `VersionRange.String`
unfoldable pub range_text : VersionRange → Text
range_text r = text ">=" ++ (version_text r.min ++ (text ",<" ++ version_text r.max))

abbrev pub is_lt : Ordering → Bool
is_lt Ordering.lt = true
is_lt _ = false

abbrev pub is_gt : Ordering → Bool
is_gt Ordering.gt = true
is_gt _ = false

unfoldable pub contains : VersionRange → Version → Bool
contains r v = not (is_lt (compare_version v r.min)) && is_lt (compare_numeric_core v r.max)

abbrev pub audited_patroni_range : VersionRange
audited_patroni_range = record {
  min = record { major = pos 3; minor = pos 0; patch = pos 0; suffix = [] };
  max = record { major = pos 5; minor = pos 0; patch = pos 0; suffix = [] };
}

unfoldable pub validate_range : VersionRange → Option VersionError
validate_range r =
    if not (is_lt (compare_version r.min r.max))
    then some empty_range
    else if is_lt (compare_version r.min audited_patroni_range.min)
        || is_gt (compare_version r.max audited_patroni_range.max)
    then some outside_audited
    else none

unfoldable pub new_version_range : Text → Text → Result VersionError VersionRange
unfolding validate_range
new_version_range minimum maximum = do
  minimum_version ← parse_version minimum
  maximum_version ← parse_version maximum
  let range : VersionRange = record { min = minimum_version; max = maximum_version }
  elim (validate_range range) [ none ↦ ok range | some e ↦ err e ]

abbrev pub check_contains : VersionRange → Version → Option VersionError
check_contains r v = if contains r v then none else some unsupported

unfoldable pub check_patroni_version : Text → Option VersionError
check_patroni_version value = elim (parse_version value) [
  | err e ↦ some e
  | ok v ↦ check_contains audited_patroni_range v
]

core_of_compare :
    (v w : Version) → compare_version v w ≢ Ordering.gt → compare_numeric_core v w ≢ Ordering.gt
unfolding compare_version
core_of_compare v w h = ground arith

below_max :
    (v : Version) (r : VersionRange)
    → compare_numeric_core v r.max ≡ Ordering.lt
    → compare_version r.max audited_patroni_range.max ≢ Ordering.gt
    → compare_numeric_core v audited_patroni_range.max ≡ Ordering.lt
below_max v r h k = ground (
  arith,
  core_of_compare r.max audited_patroni_range.max,
  compare_numeric_core-Chains v r.max audited_patroni_range.max,
)

above_min :
    (v : Version) (r : VersionRange)
    → compare_version v r.min ≢ Ordering.lt
    → compare_version r.min audited_patroni_range.min ≢ Ordering.lt
    → compare_version v audited_patroni_range.min ≢ Ordering.lt
above_min v r h k = ground (
  arith,
  compare_version-flip v r.min,
  compare_version-flip r.min audited_patroni_range.min,
  compare_version-flip v audited_patroni_range.min,
  compare_version-Chains audited_patroni_range.min r.min v,
)

-- A range that `Validate` accepts only narrows the audited range: every version that it contains is
-- contained in the audited range.
pub contains-validate_range :
    (r : VersionRange) (v : Version)
    → validate_range r ≡ none
    → contains r v ≡ true
    → contains audited_patroni_range v ≡ true
unfolding validate_range contains
contains-validate_range r v h k = ground (arith, below_max v r, above_min v r)
