-- ===== src/Target/Identity.antt =====
-- Target identities read back: `ParseTargetID` reverses `ClusterID` and `MemberID`.
use go_patroni.Base.{
  ℕ, ◌≤◌, ◌≡◌, refl, ap, ◌∙◌, subst, Bool, true, false, ◌&&◌, Option, none, some, [], ◌∷◌, ◌++◌,
  arith, ◌==◌, is_empty, Bool-cases, inl, inr, ℤ, pos, negsuc,
}
use go_patroni.Base.Result.{ok}
use go_patroni.Texts.{
  Text, text, text_eq, Free, split, split-join, join, strip_prefix, strip_prefix-append,
}
use go_patroni.Texts.Decimal.{itoa, itoa-Free, is_digit, atoi-itoa, max_int}
use go_patroni.Texts.Escape.{
  IsBytes, path_escape, path_escape-Free, path_unescape, path_unescape-path_escape,
  path_unescape-Free,
}
use go_patroni.Target.{
  Target, normalize, validate, validate_normalized, cluster_id, member_id, cluster_segments,
  member_segments, group_text, decode_segments, decode_group, finish_target, target_of_segments,
  parse_segments, parse_target_id, invalid_identity_part, slash, cluster_prefix, member_prefix,
}
use go_patroni.Texts.Space.{trim_space}
use go_patroni.Target.Namespace.{
  normalize_idem, default_context-present, normalize_namespace-present,
}

-- The group fits Go's `int`, which `Atoi` reads back.
abbrev pub GroupFits : Option ℤ → Type 0
GroupFits none = Unit
GroupFits (some (pos n)) = n ≤ max_int
GroupFits (some (negsuc n)) = ⊥

-- The text fields are sequences of bytes, as every Go string is.
pub record IsByteTarget (t : Target) : Type 0 where
  pub context : IsBytes t.context
  pub namespace : IsBytes t.namespace
  pub scope : IsBytes t.scope
  pub member : IsBytes t.member

group_text-Free :
    (c : ℕ) (g : Option ℤ)
    → is_digit c ≡ false
    → (b'-' == c) ≡ false
    → GroupFits g
    → Free c (group_text g)
group_text-Free c none h k f = (k, tt)
group_text-Free c (some (pos n)) h k f = itoa-Free c n h
group_text-Free c (some (negsuc n)) h k f = absurd f

text_eq-dash-Free : (s : Text) → Free b'-' s → text_eq s (text "-") ≡ false
unfolding text text_eq
text_eq-dash-Free [] h = refl
text_eq-dash-Free (c ∷ s) (h, k) = ground arith

itoa-ne-dash : (n : ℕ) → text_eq (itoa (pos n)) (text "-") ≡ false
itoa-ne-dash n = text_eq-dash-Free (itoa (pos n)) (itoa-Free b'-' n (unfold is_digit in refl))

decode_group-group_text : (g : Option ℤ) → GroupFits g → decode_group (group_text g) ≡ ok g
unfolding decode_group
decode_group-group_text none f = unfold text text_eq in refl
decode_group-group_text (some (pos n)) f = rw (itoa-ne-dash n, atoi-itoa n f) refl
decode_group-group_text (some (negsuc n)) f = absurd f

group_text-unescape :
    (g : Option ℤ) → GroupFits g → path_unescape (group_text g) ≡ some (group_text g)
group_text-unescape g f =
    path_unescape-Free (group_text g) (group_text-Free b'%' g (unfold is_digit in refl) refl f)

module _ (t : Target) where
  context-present : is_empty (normalize t).context ≡ false
  unfolding normalize
  context-present = elim (Bool-cases (is_empty (trim_space t.context))) [
    | inl empty ↦ rw empty default_context-present
    | inr full ↦ rw (full, full) refl
  ]

  namespace-present : is_empty (normalize t).namespace ≡ false
  unfolding normalize
  namespace-present = normalize_namespace-present t.namespace

  -- `normalize t` without its member, which the cluster identity drops.
  abbrev pub cluster_of : Target
  cluster_of = record (normalize t) { member = [] }

  cluster_of-normal : normalize cluster_of ≡ cluster_of
  unfolding normalize trim_space
  cluster_of-normal = λ i. record (normalize_idem t i) { member = [] }

  cluster_of-valid : validate t true ≡ none → validate cluster_of true ≡ none
  unfolding validate invalid_identity_part
  cluster_of-valid h = rw cluster_of-normal (ground arith)

scope-present : (m : Target) → validate_normalized m true ≡ none → is_empty m.scope ≡ false
unfolding validate_normalized
scope-present m h = ground arith

finish_target_ok :
    (member : Bool) (m : Target)
    → normalize m ≡ m
    → validate m true ≡ none
    → is_empty m.context ≡ false
    → is_empty m.namespace ≡ false
    → (member && is_empty m.member) ≡ false
    → finish_target member m ≡ ok m
unfolding finish_target
finish_target_ok member m e v c n k =
    let s : is_empty m.scope ≡ false =
      scope-present m (subst (λ x. validate_normalized x true ≡ none) e (unfold validate in v)) in
    rw (e, c, n, s, k, v) (ap ok e)

-- The decoded segments of an identity, read back to the target.
decode_cluster :
    (n : Target)
    → IsByteTarget n
    → GroupFits n.group
    → decode_segments (cluster_segments n)
      ≡ ok (n.context ∷ n.namespace ∷ n.scope ∷ group_text n.group ∷ [])
unfolding decode_segments cluster_segments
decode_cluster n b f =
    rw
      (
        path_unescape-path_escape n.context b.context,
        decode_segments,
        path_unescape-path_escape n.namespace b.namespace,
        path_unescape-path_escape n.scope b.scope,
        group_text-unescape n.group f,
      )
      refl

decode_member :
    (n : Target)
    → IsByteTarget n
    → GroupFits n.group
    → decode_segments (member_segments n)
      ≡ ok (n.context ∷ n.namespace ∷ n.scope ∷ group_text n.group ∷ n.member ∷ [])
unfolding decode_segments member_segments
decode_member n b f =
    rw
      (
        path_unescape-path_escape n.context b.context,
        decode_segments,
        path_unescape-path_escape n.namespace b.namespace,
        path_unescape-path_escape n.scope b.scope,
        group_text-unescape n.group f,
        path_unescape-path_escape n.member b.member,
      )
      refl

split-cluster_segments :
    (n : Target)
    → IsByteTarget n
    → GroupFits n.group
    → split b'/' (join slash (cluster_segments n)) ≡ cluster_segments n
unfolding cluster_segments
split-cluster_segments n b f = split-join b'/' (path_escape n.context) _ (
  path_escape-Free n.context b.context,
  (
    path_escape-Free n.namespace b.namespace,
    (
      path_escape-Free n.scope b.scope,
      (group_text-Free b'/' n.group (unfold is_digit in refl) refl f, tt),
    ),
  ),
)

split-member_segments :
    (n : Target)
    → IsByteTarget n
    → GroupFits n.group
    → split b'/' (join slash (member_segments n)) ≡ member_segments n
unfolding member_segments
split-member_segments n b f = split-join b'/' (path_escape n.context) _ (
  path_escape-Free n.context b.context,
  (
    path_escape-Free n.namespace b.namespace,
    (
      path_escape-Free n.scope b.scope,
      (
        group_text-Free b'/' n.group (unfold is_digit in refl) refl f,
        (path_escape-Free n.member b.member, tt),
      ),
    ),
  ),
)

parse_cluster :
    (n : Target)
    → IsByteTarget n
    → GroupFits n.group
    → parse_segments false (join slash (cluster_segments n))
      ≡ finish_target false (record n { member = [] })
unfolding parse_segments target_of_segments
parse_cluster n b f =
    rw (split-cluster_segments n b f, decode_cluster n b f)
      (unfold cluster_segments in rw (decode_group-group_text n.group f) refl)

parse_member :
    (n : Target)
    → IsByteTarget n
    → GroupFits n.group
    → parse_segments true (join slash (member_segments n)) ≡ finish_target true n
unfolding parse_segments target_of_segments
parse_member n b f =
    rw (split-member_segments n b f, decode_member n b f)
      (unfold member_segments in rw (decode_group-group_text n.group f) refl)

member_id-not-cluster : (s : Text) → strip_prefix cluster_prefix (member_prefix ++ s) ≡ none
unfolding strip_prefix text
member_id-not-cluster s = refl

GroupFits-normalize : (t : Target) → GroupFits t.group → GroupFits (normalize t).group
unfolding normalize
GroupFits-normalize t f = f

-- When a target is valid, its parts are lists of bytes and its group fits 64 bits, parsing its
-- cluster identity gives the normalised target without its member.
pub parse_target_id-cluster_id :
    (t : Target)
    → validate t true ≡ none
    → IsByteTarget (normalize t)
    → GroupFits t.group
    → parse_target_id (cluster_id t) ≡ ok (record (normalize t) { member = [] })
unfolding parse_target_id cluster_id
parse_target_id-cluster_id t v b f =
    rw
      (
        strip_prefix-append cluster_prefix (join slash (cluster_segments (normalize t))),
        parse_target_id,
      )
      (parse_cluster (normalize t) b (GroupFits-normalize t f)
        ∙ finish_target_ok false (cluster_of t) (cluster_of-normal t) (cluster_of-valid t v)
            (context-present t) (namespace-present t) refl)

parse_member_prefix : (s : Text) → parse_target_id (member_prefix ++ s) ≡ parse_segments true s
unfolding parse_target_id
parse_member_prefix s =
    rw (member_id-not-cluster s, parse_target_id, strip_prefix-append member_prefix s) refl

member_id_eq :
    (t : Target)
    → is_empty (normalize t).member ≡ false
    → member_id t ≡ member_prefix ++ join slash (member_segments (normalize t))
unfolding member_id
member_id_eq t m = rw m refl

-- When a target is valid, names a member, its parts are lists of bytes and its group fits 64 bits,
-- parsing its member identity gives the normalised target.
pub parse_target_id-member_id :
    (t : Target)
    → validate t true ≡ none
    → is_empty (normalize t).member ≡ false
    → IsByteTarget (normalize t)
    → GroupFits t.group
    → parse_target_id (member_id t) ≡ ok (normalize t)
parse_target_id-member_id t v m b f =
    ap parse_target_id (member_id_eq t m)
    ∙ (parse_member_prefix (join slash (member_segments (normalize t)))
        ∙ (parse_member (normalize t) b (GroupFits-normalize t f)
            ∙ finish_target_ok true (normalize t) (normalize_idem t)
                (unfold validate in rw (normalize_idem t) v) (context-present t)
                (namespace-present t) m))
