-- ===== src/Catalog.antt =====
-- The feature catalogue and `SupportsFeature` of catalog.go.
mod Tests
use Prim.Native.Nat.{Ordering}
use go_patroni.Base.{
  ◌≡◌, ◌≢◌, ap, inl, inr, Bool, true, false, not, Option, none, some, List, [], ◌∷◌, arith,
  Option-cases, Bool-cases,
}
use go_patroni.Base.Result.{Result, ok, err}
use go_patroni.Texts.{Text, text, text_eq}
use go_patroni.Version.{Version, VersionError, parse_version}
use go_patroni.Version.Precedence.{compare_version}
use go_patroni.Version.Order.{flip, Chains, compare_version-Chains, compare_version-flip}
use go_patroni.Version.Range.{is_lt, check_patroni_version}

-- `FeatureAvailability`, less the description.
pub record FeatureAvailability : Type 0 where
  pub feature : Text
  pub since : Text

pub data FeatureError : Type 0 where
  unknown_feature : FeatureError
  bad_version : VersionError → FeatureError

abbrev entry : Text → Text → FeatureAvailability
entry feature since = record { feature = feature; since = since }

unfoldable pub feature_catalog : List FeatureAvailability
unfolding text
feature_catalog =
    entry (text "core-rest-api") (text "3.0.0")
    ∷ entry (text "mpp-endpoint") (text "3.3.0")
    ∷ entry (text "quorum-status") (text "4.0.0")
    ∷ entry (text "failsafe-lsn-header") (text "4.0.0")
    ∷ entry (text "readiness-lag-mode") (text "4.1.0")
    ∷ entry (text "reinitialize-from-leader") (text "4.1.0")
    ∷ entry (text "standby-cluster-cli") (text "4.1.0")
    ∷ []

at_least : Version → Result VersionError Version → Result FeatureError Bool
unfolding compare_version
at_least v (err e) = err (bad_version e)
at_least v (ok since) = ok (not (is_lt (compare_version v since)))

-- The loop over the catalogue.
unfoldable pub supported_in : List FeatureAvailability → Version → Text → Result FeatureError Bool
unfolding text_eq at_least parse_version
supported_in [] v feature = err unknown_feature
supported_in (a ∷ rest) v feature = elim (text_eq a.feature feature) [
  | true ↦ at_least v (parse_version a.since)
  | false ↦ supported_in rest v feature
]

supports_checked : Option VersionError → Version → Text → Result FeatureError Bool
unfolding supported_in feature_catalog
supports_checked (some e) v feature = err (bad_version e)
supports_checked none v feature = supported_in feature_catalog v feature

unfoldable pub supports_feature : Text → Text → Result FeatureError Bool
unfolding parse_version check_patroni_version supports_checked
supports_feature version_text feature = elim (parse_version version_text) [
  | err e ↦ err (bad_version e)
  | ok v ↦ supports_checked (check_patroni_version version_text) v feature
]

not_less_after :
    (vs sv vw sw ws : Ordering)
    → sv ≡ flip vs
    → ws ≡ flip sw
    → Chains sv vw sw
    → vw ≢ Ordering.gt
    → not (is_lt vs) ≡ true
    → not (is_lt ws) ≡ true
not_less_after Ordering.lt sv vw sw ws e f c le h = cc
not_less_after Ordering.eq sv vw sw ws e f c le h = ground arith
not_less_after Ordering.gt sv vw sw ws e f c le h = ground arith

at_least-monotone :
    (v w : Version) (since : Result VersionError Version)
    → compare_version v w ≢ Ordering.gt
    → at_least v since ≡ ok true
    → at_least w since ≡ ok true
unfolding at_least
at_least-monotone v w (err e) le h = cc
at_least-monotone v w (ok since) le h = ap ok (
    not_less_after (compare_version v since) (compare_version since v) (compare_version v w)
      (compare_version since w) (compare_version w since) (compare_version-flip v since)
      (compare_version-flip since w) (compare_version-Chains since v w) le (ok-injective h))
  where
    ok-injective : {a c : Bool} → ◌≡◌ {A = Result FeatureError Bool} (ok a) (ok c) → a ≡ c
    ok-injective e = cc

supported_in-monotone :
    (catalog : List FeatureAvailability) (v w : Version) (feature : Text)
    → compare_version v w ≢ Ordering.gt
    → supported_in catalog v feature ≡ ok true
    → supported_in catalog w feature ≡ ok true
unfolding supported_in
supported_in-monotone [] v w feature le h = cc
supported_in-monotone (a ∷ rest) v w feature le h = elim (Bool-cases (text_eq a.feature feature)) [
  | inl e ↦
      rw (e, supported_in)
        (at_least-monotone v w (parse_version a.since) le (rw (e, supported_in) at h))
  | inr e ↦
      rw (e, supported_in) (supported_in-monotone rest v w feature le (rw (e, supported_in) at h))
]

supports_feature-parts :
    (s feature : Text) (v : Version)
    → parse_version s ≡ ok v
    → supports_feature s feature ≡ ok true
    → supported_in feature_catalog v feature ≡ ok true
unfolding supports_feature supports_checked
supports_feature-parts s feature v e h = elim (Option-cases (check_patroni_version s)) [
  | inl good ↦ rw (e, good, supports_feature) at h
  | inr (x, refusal) ↦ absurd (ground (arith, rw (e, refusal, supports_feature) at h))
]

-- A feature that one version supports is supported by every version that `CheckPatroniVersion`
-- accepts and that is not before the first.
pub supports_feature_monotone :
    (s t feature : Text) (v w : Version)
    → parse_version s ≡ ok v
    → parse_version t ≡ ok w
    → check_patroni_version t ≡ none
    → compare_version v w ≢ Ordering.gt
    → supports_feature s feature ≡ ok true
    → supports_feature t feature ≡ ok true
unfolding supports_feature supports_checked
supports_feature_monotone s t feature v w e e' good le h =
    rw (e', good, supports_feature)
      (supported_in-monotone feature_catalog v w feature le
        (supports_feature-parts s feature v e h))
