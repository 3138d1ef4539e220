-- ===== src/Dcs/Keys/Siblings.antt =====
-- Keys of clusters with different scopes never stand below one another.
use go_patroni.Base.{
  ℕ, true, subst, inl, inr, ◌≡◌, ap, sym, ◌∙◌, Option, none, some, [], ◌∷◌, ◌++◌, append_assoc, ℤ,
  arith,
}
use go_patroni.Base.Result.{Result, ok, Result-cases}
use go_patroni.Texts.{Text, split, split-append, Free, join, strip_prefix, append-strip_prefix}
use go_patroni.Texts.Decimal.{itoa}
use go_patroni.Texts.Slashes.{trim_slashes}
use go_patroni.Target.{Target, TargetError, slash, normalize, validate}
use go_patroni.Dcs.Keys.{cluster_prefix_of, prefix_or_error, group_part, key_path, below}

first_part : (c : ℕ) (s t x y : Text) → Free c s → Free c t → s ++ c ∷ x ≡ t ++ c ∷ y → s ≡ t
first_part c s t x y h k e =
    ground (arith, sym (split-append c s x h) ∙ ap (split c) e ∙ split-append c t y k)

append-cancel : (s x y : Text) → s ++ x ≡ s ++ y → x ≡ y
append-cancel [] x y e = e
append-cancel (c ∷ s) x y e = append-cancel s x y (ground (arith, e))

-- What follows the scope in the path of a key starts with a slash.
joined :
    (namespace scope : Text) (g : Option ℤ) (r : Text)
    → (rest : Text) × (join slash (([] ∷ namespace ∷ scope ∷ []) ++ group_part g) ++ b'/' ∷ r
        ≡ b'/' ∷ (namespace ++ b'/' ∷ (scope ++ b'/' ∷ rest)))
unfolding join
joined namespace scope none r =
    (r, ap (λ s. b'/' ∷ s) (append_assoc namespace (b'/' ∷ scope) (b'/' ∷ r)))
joined namespace scope (some g) r = (
  itoa g ++ b'/' ∷ r,
  ap (λ s. b'/' ∷ s)
      (append_assoc namespace (b'/' ∷ (scope ++ b'/' ∷ itoa g)) (b'/' ∷ r)
        ∙ ap (λ s. namespace ++ b'/' ∷ s) (append_assoc scope (b'/' ∷ itoa g) (b'/' ∷ r))),
)

-- The path of a key of a target, in terms of its namespace and scope.
abbrev HasShape : Target → Text → Type 0
HasShape t path =
    (rest : Text) × (path ≡ b'/' ∷ (trim_slashes t.namespace ++ b'/' ∷ (t.scope ++ b'/' ∷ rest)))

prefix-HasShape :
    (t : Target) (o : Option TargetError) (prefix r : Text)
    → prefix_or_error t o ≡ ok prefix
    → HasShape t (below prefix r)
prefix-HasShape t (some e) prefix r h = cc
prefix-HasShape t none prefix r h =
    let (rest, shape) = joined (trim_slashes t.namespace) t.scope t.group r in
    (rest, ap (λ p. below p r) (sym (ok-injective h)) ∙ shape)
  where
    ok-injective : {a b : Text} → ◌≡◌ {A = Result TargetError Text} (ok a) (ok b) → a ≡ b
    ok-injective e = cc

key_path-HasShape :
    (t : Target) (relative path : Text)
    → key_path t relative ≡ ok path
    → HasShape (normalize t) path
unfolding key_path cluster_prefix_of
key_path-HasShape t relative path h = elim (Result-cases (cluster_prefix_of t)) [
  | inr (e, failed) ↦ absurd (ground (arith, rw (failed, key_path) at h))
  | inl (prefix, found) ↦
      subst (HasShape (normalize t)) (ground (arith, rw (found, key_path) at h)) (
        prefix-HasShape (normalize t) (validate (normalize t) true) prefix (trim_slashes relative)
          found)
]

shape-append :
    (n s a r : Text)
    → (b'/' ∷ (n ++ b'/' ∷ (s ++ b'/' ∷ a))) ++ r ≡ b'/' ∷ (n ++ b'/' ∷ (s ++ b'/' ∷ (a ++ r)))
shape-append n s a r =
    ap (λ x. b'/' ∷ x)
      (append_assoc n (b'/' ∷ (s ++ b'/' ∷ a)) r
        ∙ ap (λ x. n ++ b'/' ∷ x) (append_assoc s (b'/' ∷ a) r))

tail-injective : (c : ℕ) (x y : Text) → ◌≡◌ {A = Text} (c ∷ x) (c ∷ y) → x ≡ y
tail-injective c x y e = cc

scope_of_shape :
    (n s s' x y : Text)
    → Free b'/' s
    → Free b'/' s'
    → ◌≡◌ {A = Text} (b'/' ∷ (n ++ b'/' ∷ (s ++ b'/' ∷ x))) (b'/' ∷ (n ++ b'/' ∷ (s' ++ b'/' ∷ y)))
    → s ≡ s'
scope_of_shape n s s' x y f g e = first_part b'/' s s' x y f g (
    tail-injective b'/' _ _ (
      append-cancel n (b'/' ∷ (s ++ b'/' ∷ x)) (b'/' ∷ (s' ++ b'/' ∷ y))
        (tail-injective b'/' _ _ e)))

-- Two targets of one namespace whose scopes hold no slash have the same scope when the path of a key
-- of one begins with the directory of the other's keys.
pub key_path_same_scope :
    (t u : Target) (relative directory path rest : Text)
    → (normalize t).namespace ≡ (normalize u).namespace
    → Free b'/' (normalize t).scope
    → Free b'/' (normalize u).scope
    → key_path t [] ≡ ok directory
    → key_path u relative ≡ ok path
    → strip_prefix directory path ≡ some rest
    → (normalize t).scope ≡ (normalize u).scope
key_path_same_scope t u relative directory path rest namespace f g h k inside =
    let (a, directory_shape) = key_path-HasShape t [] directory h in
    let (b, path_shape) = key_path-HasShape u relative path k in
    let n = trim_slashes (normalize u).namespace in
    scope_of_shape n (normalize t).scope (normalize u).scope (a ++ rest) b f g (
      sym (shape-append n (normalize t).scope a rest)
      ∙ ap (λ d. d ++ rest)
          (sym (
            directory_shape
            ∙ ap (λ m. b'/' ∷ (trim_slashes m ++ b'/' ∷ ((normalize t).scope ++ b'/' ∷ a)))
                namespace))
      ∙ sym (append-strip_prefix directory path rest inside)
      ∙ path_shape)
