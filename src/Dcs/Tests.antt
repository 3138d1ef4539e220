-- ===== src/Dcs/Tests.antt =====
-- Concrete keys.
use go_patroni.Base.{◌≡◌, refl, none, some, [], pos, Option, ℤ}
use go_patroni.Base.Result.{ok}
use go_patroni.Texts.{Text, text, strip_prefix, join}
use go_patroni.Texts.Decimal.{itoa}
use go_patroni.Texts.Slashes.{trim_slashes}
use go_patroni.Texts.Space.{trim_space}
use go_patroni.Target.{
  Target, normalize, normalize_namespace, validate, invalid_identity_part, default_context,
}
use go_patroni.Dcs.Keys.{KeyKind, key_path, classify_relative_path}
use go_patroni.Dcs.Keys.Siblings.{key_path_same_scope}

abbrev cluster_at : Text → Option ℤ → Target
cluster_at scope group = record {
  context = [];
  namespace = text "service";
  scope = scope;
  group = group;
  member = [];
}

whole : key_path (cluster_at (text "alpha") none) [] ≡ ok (text "/service/alpha/")
unfolding key_path default_context text normalize normalize_namespace validate invalid_identity_part
    trim_space trim_slashes join
whole = refl

in_group :
    key_path (cluster_at (text "alpha") (some (pos 2))) (text "/leader")
    ≡ ok (text "/service/alpha/2/leader")
unfolding key_path default_context text normalize normalize_namespace validate invalid_identity_part
    trim_space trim_slashes join itoa
in_group = refl

below_whole :
    strip_prefix (text "/service/alpha/") (text "/service/alpha/2/leader") ≡ some (text "2/leader")
unfolding strip_prefix text
below_whole = refl

not_below : strip_prefix (text "/service/alpha/") (text "/service/alphabet/leader") ≡ none
unfolding strip_prefix text
not_below = refl

member_key : classify_relative_path (text "/members/pg1") ≡ KeyKind.member
unfolding classify_relative_path text
member_key = refl

key_path_same_scope_example :
    (normalize (cluster_at (text "alpha") none)).scope
    ≡ (normalize (cluster_at (text "alpha") (some (pos 2)))).scope
unfolding normalize trim_space text
key_path_same_scope_example =
    key_path_same_scope (cluster_at (text "alpha") none) (cluster_at (text "alpha") (some (pos 2)))
      (text "/leader") (text "/service/alpha/") (text "/service/alpha/2/leader") (text "2/leader")
      refl (refl, (refl, (refl, (refl, (refl, tt))))) (refl, (refl, (refl, (refl, (refl, tt)))))
      whole in_group below_whole
