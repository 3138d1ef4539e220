-- ===== src/Dcs/Keys.antt =====
-- dcs/path.go and `ClassifyRelativePath` of dcs/types.go: where the keys of a cluster stand.
pub mod Siblings
use go_patroni.Base.{
  ℕ, suc, true, Option, none, some, List, [], ◌∷◌, ◌++◌, ◌==◌, if◌then◌else◌, is_empty, ℤ,
}
use go_patroni.Base.Result.{Result, ok, err}
use go_patroni.Texts.{Text, text, text_eq, join, strip_prefix}
use go_patroni.Texts.Decimal.{itoa}
use go_patroni.Texts.Slashes.{trim_slashes}
use go_patroni.Target.{Target, TargetError, slash, normalize, normalize_namespace, validate}

unfoldable pub namespace_prefix : Text → Text
unfolding normalize_namespace trim_slashes
namespace_prefix namespace = slash ++ (trim_slashes (normalize_namespace namespace) ++ slash)

abbrev pub group_part : Option ℤ → List Text
group_part none = []
group_part (some g) = itoa g ∷ []

abbrev prefix_or_error : Target → Option TargetError → Result TargetError Text
prefix_or_error t (some e) = err e
prefix_or_error t none =
    ok (join slash (([] ∷ trim_slashes t.namespace ∷ t.scope ∷ []) ++ group_part t.group))

unfoldable pub cluster_prefix_of : Target → Result TargetError Text
unfolding normalize validate join trim_slashes itoa
cluster_prefix_of t = prefix_or_error (normalize t) (validate (normalize t) true)

abbrev below : Text → Text → Text
below prefix relative = prefix ++ (slash ++ relative)

unfoldable pub key_path : Target → Text → Result TargetError Text
unfolding cluster_prefix_of trim_slashes
key_path t relative = elim (cluster_prefix_of t) [
  | err e ↦ err e
  | ok prefix ↦ ok (below prefix (trim_slashes relative))
]

pub data KeyKind : Type 0 where
  initialize config leader member failover history status leader_optime sync failsafe unknown :
      KeyKind

-- `strings.Count(s, "/")`
slash_count : Text → ℕ
slash_count [] = 0
slash_count (c ∷ s) = let rest = slash_count s in if c == b'/' then suc rest else rest

member_or_unknown : Text → Option Text → KeyKind
unfolding slash_count
member_or_unknown relative none = KeyKind.unknown
member_or_unknown relative (some name) =
    if slash_count relative == 1
    then (if is_empty name then KeyKind.unknown else KeyKind.member)
    else KeyKind.unknown

classify_trimmed : Text → KeyKind
unfolding text_eq text strip_prefix member_or_unknown
classify_trimmed r =
    if text_eq r (text "initialize")
    then KeyKind.initialize
    else if text_eq r (text "config")
    then KeyKind.config
    else if text_eq r (text "leader")
    then KeyKind.leader
    else if text_eq r (text "failover")
    then KeyKind.failover
    else if text_eq r (text "history")
    then KeyKind.history
    else if text_eq r (text "status")
    then KeyKind.status
    else if text_eq r (text "optime/leader")
    then KeyKind.leader_optime
    else if text_eq r (text "sync")
    then KeyKind.sync
    else if text_eq r (text "failsafe")
    then KeyKind.failsafe
    else member_or_unknown r (strip_prefix (text "members/") r)

unfoldable pub classify_relative_path : Text → KeyKind
unfolding classify_trimmed trim_slashes
classify_relative_path relative = classify_trimmed (trim_slashes relative)
