-- ===== src/Target.antt =====
-- model/target.go: the identity of a cluster or member, its defaults, its validation, and its
-- escaped text form.
pub mod Namespace
pub mod Identity
mod Tests
use go_patroni.Base.{
  Bool, true, false, ◌&&◌, ◌||◌, Option, none, some, List, [], ◌∷◌, ◌++◌, ◌==◌, if◌then◌else◌, ℤ,
  is_negative, is_empty, any, keep, length, not,
}
use go_patroni.Base.Result.{Result, ok, err, ◌>>=◌}
use go_patroni.Texts.{Text, text, text_eq, strip_prefix, split, join}
use go_patroni.Texts.Decimal.{itoa, atoi}
use go_patroni.Texts.Space.{trim_space}
use go_patroni.Texts.Escape.{path_escape, path_unescape}

-- A pointer field that may be nil is an `Option`; the copy that `Normalize` makes of the group is a
-- copy of the value, so the model needs no store.
pub record Target : Type 0 where
  pub context : Text
  pub namespace : Text
  pub scope : Text
  pub group : Option ℤ
  pub member : Text

abbrev pub slash : Text
slash = b'/' ∷ []

-- The loop of `NormalizeNamespace` over the parts.
unfoldable pub trimmed_parts : List Text → List Text
trimmed_parts [] = []
trimmed_parts (part ∷ parts) =
    let rest = trimmed_parts parts in
    let trimmed = trim_space part in if is_empty trimmed then rest else trimmed ∷ rest

-- `strings.FieldsFunc(s, r == '/')`: the non-empty pieces.
unfoldable pub fields_slash : Text → List Text
unfolding split keep
fields_slash s = keep (λ part. not (is_empty part)) (split b'/' s)

unfoldable pub default_context : Text
default_context = text "default"

unfoldable pub default_namespace : Text
default_namespace = text "/service"

abbrev pub rooted : List Text → Text
rooted [] = default_namespace
rooted (part ∷ parts) = b'/' ∷ join slash (part ∷ parts)

unfoldable pub normalize_namespace : Text → Text
unfolding trimmed_parts fields_slash
normalize_namespace namespace = rooted (trimmed_parts (fields_slash (trim_space namespace)))

abbrev pub or_default : Text → Text → Text
or_default fallback s = if is_empty s then fallback else s

unfoldable pub normalize : Target → Target
normalize t = record {
  context = or_default default_context (trim_space t.context);
  namespace = normalize_namespace t.namespace;
  scope = trim_space t.scope;
  group = t.group;
  member = trim_space t.member;
}

-- The errors of `Validate` and `ParseTargetID`, without their wording.
pub data TargetError : Type 0 where
  context_control namespace_control scope_required scope_control : TargetError
  member_without_scope member_control negative_group : TargetError
  unknown_prefix segment_count segment_escape group_syntax empty_segment : TargetError

unfoldable pub invalid_identity_part : Text → Bool
unfolding any
invalid_identity_part = any (λ c. c == 0 || (c == 10 || c == 13))

abbrev pub group_negative : Option ℤ → Bool
group_negative none = false
group_negative (some g) = is_negative g

unfoldable pub validate_normalized : Target → Bool → Option TargetError
validate_normalized t require_scope =
    if invalid_identity_part t.context
    then some context_control
    else if invalid_identity_part t.namespace
    then some namespace_control
    else if require_scope && is_empty t.scope
    then some scope_required
    else if invalid_identity_part t.scope
    then some scope_control
    else if not (is_empty t.member) && is_empty t.scope
    then some member_without_scope
    else if invalid_identity_part t.member
    then some member_control
    else if group_negative t.group
    then some negative_group
    else none

-- `none` is a nil error.
unfoldable pub validate : Target → Bool → Option TargetError
unfolding validate_normalized
validate t require_scope = validate_normalized (normalize t) require_scope

abbrev pub group_text : Option ℤ → Text
group_text none = b'-' ∷ []
group_text (some g) = itoa g

abbrev cluster_prefix : Text
cluster_prefix = text "patroni:cluster/"

abbrev member_prefix : Text
member_prefix = text "patroni:member/"

abbrev legacy_cluster_prefix : Text
legacy_cluster_prefix = text "boar:cluster/"

abbrev legacy_member_prefix : Text
legacy_member_prefix = text "boar:member/"

cluster_segments : Target → List Text
cluster_segments t =
    path_escape t.context ∷ path_escape t.namespace ∷ path_escape t.scope ∷ group_text t.group ∷ []

member_segments : Target → List Text
member_segments t =
    path_escape t.context
    ∷ path_escape t.namespace
    ∷ path_escape t.scope
    ∷ group_text t.group
    ∷ path_escape t.member
    ∷ []

unfoldable pub cluster_id : Target → Text
unfolding cluster_segments
cluster_id t = cluster_prefix ++ join slash (cluster_segments (normalize t))

unfoldable pub member_id : Target → Text
unfolding member_segments
member_id t =
    if is_empty (normalize t).member
    then []
    else member_prefix ++ join slash (member_segments (normalize t))

decode_segments : List Text → Result TargetError (List Text)
decode_segments [] = ok []
decode_segments (part ∷ parts) = elim (path_unescape part) [
  | none ↦ err segment_escape
  | some decoded ↦ elim (decode_segments parts) [ ok rest ↦ ok (decoded ∷ rest) | err e ↦ err e ]
]

decode_group : Text → Result TargetError (Option ℤ)
decode_group segment =
    if text_eq segment (text "-")
    then ok none
    else elim (atoi segment) [ none ↦ err group_syntax | some g ↦ ok (some g) ]

-- The last part of `ParseTargetID`: defaults, required segments, validation.
finish_target : Bool → Target → Result TargetError Target
finish_target member target =
    let t = normalize target in
    if is_empty t.context
      || (is_empty t.namespace || (is_empty t.scope || member && is_empty t.member))
    then err empty_segment
    else elim (validate t true) [ none ↦ ok t | some e ↦ err e ]

abbrev member_of : Bool → List Text → Text
member_of true (m ∷ _) = m
member_of _ _ = []

-- The decoded list has four segments, or five for a member: the length is checked before.
target_of_segments : Bool → List Text → Result TargetError Target
unfolding decode_group finish_target
target_of_segments member (context ∷ namespace ∷ scope ∷ group ∷ rest) = do
  g ← decode_group group
  finish_target member (record {
    context = context;
    namespace = namespace;
    scope = scope;
    group = g;
    member = member_of member rest;
  })
target_of_segments member _ = err segment_count

parse_segments : Bool → Text → Result TargetError Target
unfolding decode_segments target_of_segments
parse_segments member encoded =
    let parts = split b'/' encoded in
    if length parts == (if member then 5 else 4)
    then decode_segments parts >>= target_of_segments member
    else err segment_count

unfoldable pub parse_target_id : Text → Result TargetError Target
unfolding parse_segments
parse_target_id value = elim (strip_prefix cluster_prefix value) [
  | some encoded ↦ parse_segments false encoded
  | none ↦ elim (strip_prefix member_prefix value) [
    | some encoded ↦ parse_segments true encoded
    | none ↦ elim (strip_prefix legacy_cluster_prefix value) [
      | some encoded ↦ parse_segments false encoded
      | none ↦ elim (strip_prefix legacy_member_prefix value) [
        | some encoded ↦ parse_segments true encoded
        | none ↦ err unknown_prefix
      ]
    ]
  ]
]
