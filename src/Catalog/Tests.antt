-- ===== src/Catalog/Tests.antt =====
-- Concrete versions and features.
use Prim.Native.Nat.{Ordering}
use go_patroni.Base.{◌≡◌, ◌≢◌, refl, true, false, none, [], pos, arith}
use go_patroni.Base.Result.{ok}
use go_patroni.Texts.{text}
use go_patroni.Version.{Version, parse_version}
use go_patroni.Version.Precedence.{compare_version}
use go_patroni.Version.Range.{check_patroni_version, contains}
use go_patroni.Catalog.{supports_feature, supports_feature_monotone, feature_catalog}

abbrev older : Version
older = record { major = pos 4; minor = pos 1; patch = pos 0; suffix = [] }

abbrev newer : Version
newer = record { major = pos 4; minor = pos 1; patch = pos 2; suffix = [] }

older_parsed : parse_version (text "4.1.0") ≡ ok older
unfolding parse_version text
older_parsed = refl

newer_parsed : parse_version (text "v4.1.2") ≡ ok newer
unfolding parse_version text
newer_parsed = refl

older_supports : supports_feature (text "4.1.0") (text "standby-cluster-cli") ≡ ok true
unfolding supports_feature text feature_catalog parse_version check_patroni_version compare_version
    contains
older_supports = refl

newer_accepted : check_patroni_version (text "v4.1.2") ≡ none
unfolding check_patroni_version text parse_version compare_version contains
newer_accepted = refl

four_lacks_it : supports_feature (text "4.0.7") (text "standby-cluster-cli") ≡ ok false
unfolding supports_feature text feature_catalog parse_version check_patroni_version compare_version
    contains
four_lacks_it = refl

ordered : compare_version older newer ≢ Ordering.gt
unfolding compare_version
ordered = lt_apart
  where
    lt_apart : Ordering.lt ≢ Ordering.gt
    lt_apart = ground arith

supports_feature_monotone_example :
    supports_feature (text "v4.1.2") (text "standby-cluster-cli") ≡ ok true
supports_feature_monotone_example =
    supports_feature_monotone (text "4.1.0") (text "v4.1.2") (text "standby-cluster-cli") older
      newer older_parsed newer_parsed newer_accepted ordered older_supports
