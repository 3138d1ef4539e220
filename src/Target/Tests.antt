-- ===== src/Target/Tests.antt =====
-- Runs of target normalisation and identity on concrete values, and the witnesses of the theorems.
use go_patroni.Base.{◌≡◌, refl, true, none, some, [], arith, pos}
use go_patroni.Base.Result.{ok}
use go_patroni.Texts.{text, join}
use go_patroni.Texts.Decimal.{itoa}
use go_patroni.Texts.Escape.{path_escape}
use go_patroni.Texts.Space.{trim_space}
use go_patroni.Target.{
  Target, normalize, validate, cluster_id, member_id, parse_target_id, invalid_identity_part,
  normalize_namespace, default_context,
}
use go_patroni.Target.Namespace.{normalize_idem}
use go_patroni.Target.Identity.{parse_target_id-cluster_id, parse_target_id-member_id}

abbrev sample : Target
sample = record {
  context = [];
  namespace = text " //a / b/";
  scope = text "pg main";
  group = some (pos 12);
  member = text "node/1";
}

sample_normal : normalize sample ≡ record {
  context = text "default";
  namespace = text "/a/b";
  scope = text "pg main";
  group = some (pos 12);
  member = text "node/1";
}
unfolding normalize normalize_namespace default_context text trim_space join
sample_normal = refl

sample_id : member_id sample ≡ text "patroni:member/default/%2Fa%2Fb/pg%20main/12/node%2F1"
unfolding member_id normalize normalize_namespace default_context text trim_space join path_escape
    itoa
sample_id = refl

sample_valid : validate sample true ≡ none
unfolding validate normalize normalize_namespace default_context text trim_space
    invalid_identity_part join
sample_valid = refl

parse_target_id-cluster_id_example :
    parse_target_id (cluster_id sample) ≡ ok (record (normalize sample) { member = [] })
unfolding normalize normalize_namespace default_context text trim_space join
parse_target_id-cluster_id_example =
    parse_target_id-cluster_id sample sample_valid (omega arith) (omega arith)

parse_target_id-member_id_example : parse_target_id (member_id sample) ≡ ok (normalize sample)
unfolding normalize normalize_namespace default_context text trim_space join
parse_target_id-member_id_example =
    parse_target_id-member_id sample sample_valid refl (omega arith) (omega arith)

normalize_idem_example : normalize (normalize sample) ≡ normalize sample
normalize_idem_example = normalize_idem sample
