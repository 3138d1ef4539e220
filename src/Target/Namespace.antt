-- ===== src/Target/Namespace.antt =====
-- Normalising a namespace or a target a second time changes nothing.
use mathlib.Core.List.{reverse, reverse-append, reverse-cons}
use go_patroni.Base.{
  ◌≡◌, refl, ap, ◌∙◌, subst, false, List, [], ◌∷◌, ◌++◌, arith, is_empty, append_assoc, keep, All,
  not, Bool-cases, inl, inr,
}
use go_patroni.Texts.{
  Text, text, Free, Free-left, Free-right, AllFree, split, split-AllFree, join, split-join,
}
use go_patroni.Texts.Space.{
  trim_space, trim_space-piece, IsTrimmed, starts_space, space_one, space_two, space_three,
  flip_two, flip_three, trim_space_eq, trim_space_idem, trim_space-IsTrimmed,
}
use go_patroni.Target.{
  Target, slash, trimmed_parts, fields_slash, rooted, normalize_namespace, normalize,
  default_namespace, default_context, or_default,
}

-- A part of a normalised namespace.
record IsPart (s : Text) : Type 0 where
  present : is_empty s ≡ false
  trimmed : IsTrimmed s
  free : Free b'/' s

front-slash : (s : Text) → starts_space space_two space_three (b'/' ∷ s) ≡ false
unfolding starts_space space_one space_two space_three
front-slash [] = refl
front-slash (a ∷ []) = refl
front-slash (a ∷ b ∷ s) = refl

back-append-slash :
    (s r : Text)
    → is_empty s ≡ false
    → starts_space flip_two flip_three s ≡ false
    → starts_space flip_two flip_three (s ++ b'/' ∷ r) ≡ false
unfolding starts_space flip_two flip_three space_two space_three
back-append-slash [] r h k = ground arith
back-append-slash (a ∷ []) [] h k = ground arith
back-append-slash (a ∷ []) (c ∷ r) h k = ground arith
back-append-slash (a ∷ b ∷ []) r h k = ground arith
back-append-slash (a ∷ b ∷ c ∷ s) r h k = k

is_empty-append : (s t : Text) → is_empty t ≡ false → is_empty (s ++ t) ≡ false
is_empty-append [] t h = h
is_empty-append (a ∷ s) t h = refl

is_empty-reverse : (s : Text) → is_empty s ≡ false → is_empty (reverse s) ≡ false
is_empty-reverse [] h = h
is_empty-reverse (a ∷ s) h = rw reverse-cons (is_empty-append (reverse s) (a ∷ []) refl)

reverse-append-slash : (pre p : Text) → reverse (pre ++ b'/' ∷ p) ≡ reverse p ++ b'/' ∷ reverse pre
reverse-append-slash pre p = simp (reverse-append, reverse-cons, append_assoc)

back-join :
    (pre p : Text) (ps : List Text)
    → All IsPart (p ∷ ps)
    → starts_space flip_two flip_three (reverse (pre ++ b'/' ∷ join slash (p ∷ ps))) ≡ false
unfolding join
back-join pre p [] (h, _) =
    rw (reverse-append-slash pre p)
      (back-append-slash (reverse p) (reverse pre) (is_empty-reverse p h.present) h.trimmed.back)
back-join pre p (q ∷ ps) (h, k) =
    subst (λ s. starts_space flip_two flip_three (reverse s) ≡ false)
      (append_assoc pre (b'/' ∷ p) (b'/' ∷ join slash (q ∷ ps)))
      (back-join (pre ++ b'/' ∷ p) q ps k)

rooted-IsTrimmed : (p : Text) (ps : List Text) → All IsPart (p ∷ ps) → IsTrimmed (rooted (p ∷ ps))
rooted-IsTrimmed p ps h = record {
  front = front-slash (join slash (p ∷ ps));
  back = back-join [] p ps h;
}

parts-AllFree : (ps : List Text) → All IsPart ps → AllFree b'/' ps
parts-AllFree [] _ = tt
parts-AllFree (p ∷ ps) (h, k) = (h.free, parts-AllFree ps k)

keep_parts : (ps : List Text) → All IsPart ps → keep (λ part. not (is_empty part)) ps ≡ ps
unfolding keep
keep_parts [] _ = refl
keep_parts (p ∷ ps) (h, k) = rw (h.present, keep, keep_parts ps k)

trimmed_parts_eq : (ps : List Text) → All IsPart ps → trimmed_parts ps ≡ ps
unfolding trimmed_parts
trimmed_parts_eq [] _ = refl
trimmed_parts_eq (p ∷ ps) (h, k) =
    rw (trim_space_eq h.trimmed, h.present) (ap (λ l. p ∷ l) (trimmed_parts_eq ps k))

fields_slash-rooted :
    (p : Text) (ps : List Text) → All IsPart (p ∷ ps) → fields_slash (rooted (p ∷ ps)) ≡ p ∷ ps
unfolding fields_slash
fields_slash-rooted p ps h =
    ap (keep (λ part. not (is_empty part))) (split-join b'/' p ps (parts-AllFree (p ∷ ps) h))
    ∙ keep_parts (p ∷ ps) h

normalize_namespace-rooted :
    (p : Text) (ps : List Text)
    → All IsPart (p ∷ ps)
    → normalize_namespace (rooted (p ∷ ps)) ≡ rooted (p ∷ ps)
unfolding normalize_namespace
normalize_namespace-rooted p ps h =
    rw
      (
        trim_space_eq (rooted-IsTrimmed p ps h),
        fields_slash-rooted p ps h,
        trimmed_parts_eq (p ∷ ps) h,
      )
      refl

trim_space-Free : (s : Text) → Free b'/' s → Free b'/' (trim_space s)
trim_space-Free s h =
    let (l, r, e) = trim_space-piece s in
    Free-left b'/' (trim_space s) r
      (Free-right b'/' l (trim_space s ++ r) (subst (λ t. Free b'/' t) e h))

AllFree-keep :
    (ps : List Text) → AllFree b'/' ps → AllFree b'/' (keep (λ part. not (is_empty part)) ps)
unfolding keep
AllFree-keep [] _ = tt
AllFree-keep (p ∷ ps) (h, k) = elim (Bool-cases (not (is_empty p))) [
  | inl full ↦ rw (full, keep) (h, AllFree-keep ps k)
  | inr empty ↦ rw (empty, keep) (AllFree-keep ps k)
]

trimmed_parts-IsPart : (ps : List Text) → AllFree b'/' ps → All IsPart (trimmed_parts ps)
unfolding trimmed_parts
trimmed_parts-IsPart [] _ = tt
trimmed_parts-IsPart (p ∷ ps) (h, k) = elim (Bool-cases (is_empty (trim_space p))) [
  | inl empty ↦ rw empty (trimmed_parts-IsPart ps k)
  | inr full ↦ rw full (
    record { present = full; trimmed = trim_space-IsTrimmed p; free = trim_space-Free p h },
    trimmed_parts-IsPart ps k,
  )
]

default_namespace-rooted : default_namespace ≡ rooted (text "service" ∷ [])
unfolding default_namespace text join
default_namespace-rooted = refl

service-IsPart : IsPart (text "service")
unfolding text starts_space flip_two flip_three space_one space_two space_three
service-IsPart = record {
  present = refl;
  trimmed = record { front = refl; back = refl };
  free = (refl, (refl, (refl, (refl, (refl, (refl, (refl, tt)))))));
}

rooted_fixed : (ps : List Text) → All IsPart ps → normalize_namespace (rooted ps) ≡ rooted ps
rooted_fixed [] _ =
    rw default_namespace-rooted
      (normalize_namespace-rooted (text "service") [] (service-IsPart, tt))
rooted_fixed (p ∷ ps) h = normalize_namespace-rooted p ps h

normalize_namespace-parts :
    (s : Text) → (ps : List Text) × All IsPart ps × (normalize_namespace s ≡ rooted ps)
unfolding normalize_namespace fields_slash
normalize_namespace-parts s = (
  trimmed_parts (fields_slash (trim_space s)),
  trimmed_parts-IsPart (fields_slash (trim_space s))
      (AllFree-keep (split b'/' (trim_space s)) (split-AllFree b'/' (trim_space s))),
  refl,
)

normalize_namespace_idem :
    (s : Text) → normalize_namespace (normalize_namespace s) ≡ normalize_namespace s
normalize_namespace_idem s =
    let (ps, h, e) = normalize_namespace-parts s in rw e (rooted_fixed ps h)

default_context-IsTrimmed : IsTrimmed default_context
unfolding default_context text starts_space flip_two flip_three space_one space_two space_three
default_context-IsTrimmed = record { front = refl; back = refl }

pub default_context-present : is_empty default_context ≡ false
unfolding default_context text
default_context-present = refl

context_idem :
    (s : Text)
    → or_default default_context (trim_space (or_default default_context (trim_space s)))
      ≡ or_default default_context (trim_space s)
context_idem s = elim (Bool-cases (is_empty (trim_space s))) [
  | inl empty ↦ rw (empty, trim_space_eq default_context-IsTrimmed, default_context-present) refl
  | inr full ↦ rw (full, trim_space_idem s, full) refl
]

-- Normalising a target a second time changes none of its fields.
pub normalize_idem : (t : Target) → normalize (normalize t) ≡ normalize t
unfolding normalize
normalize_idem t = λ i. record {
  context = context_idem t.context i;
  namespace = normalize_namespace_idem t.namespace i;
  scope = trim_space_idem t.scope i;
  group = t.group;
  member = trim_space_idem t.member i;
}

rooted-present : (ps : List Text) → is_empty (rooted ps) ≡ false
unfolding default_namespace text
rooted-present [] = refl
rooted-present (p ∷ ps) = refl

pub normalize_namespace-present : (s : Text) → is_empty (normalize_namespace s) ≡ false
unfolding normalize_namespace
normalize_namespace-present s = rooted-present (trimmed_parts (fields_slash (trim_space s)))
