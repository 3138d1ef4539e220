-- ===== src/Version/Order.antt =====
-- Precedence is a total preorder: it flips with its arguments, and it chains.
use Prim.Native.Nat.{Ordering}
use go_patroni.Base.{◌≡◌, refl, ◌≢◌, Option, none, some, List, [], ◌∷◌, arith, ℤ}
use go_patroni.Texts.{Text, split}
use go_patroni.Texts.Order.{text_lt_irrefl, text_lt_asymm, text_lt_trans, text_eq_of_not_lt}
use go_patroni.Version.{Version}
use go_patroni.Version.Precedence.{
  ◌or_else◌, compare_int, compare_numeric_core, compare_number, compare_text, compare_kinds,
  compare_identifier, compare_identifiers, compare_trimmed, trim_separators, compare_prerelease,
  compare_version, numeric_identifier,
}

abbrev pub flip : Ordering → Ordering
flip Ordering.lt = Ordering.gt
flip Ordering.eq = Ordering.eq
flip Ordering.gt = Ordering.lt

-- `a` is at most `b`, and `b` at most `c`: then the comparison of `a` and `c` is known.
abbrev pub Chains : Ordering → Ordering → Ordering → Type 0
Chains ab bc ac = ab ≢ Ordering.gt → bc ≢ Ordering.gt → ac ≡ (ab or_else bc)

or_else-flip : (x y : Ordering) → flip (x or_else y) ≡ (flip x or_else flip y)
or_else-flip Ordering.lt y = refl
or_else-flip Ordering.eq y = refl
or_else-flip Ordering.gt y = refl

-- Chains of two comparisons compose to chains of their combination.
or_else-Chains :
    (ab bc ac ab' bc' ac' : Ordering)
    → Chains ab bc ac
    → Chains ab' bc' ac'
    → Chains (ab or_else ab') (bc or_else bc') (ac or_else ac')
or_else-Chains ab bc ac ab' bc' ac' p q h k = ground arith

compare_int-flip : (a b : ℤ) → compare_int b a ≡ flip (compare_int a b)
unfolding compare_int
compare_int-flip a b = ground arith

compare_int-Chains : (a b c : ℤ) → Chains (compare_int a b) (compare_int b c) (compare_int a c)
unfolding compare_int
compare_int-Chains a b c h k = ground arith

compare_text-flip : (s t : Text) → compare_text t s ≡ flip (compare_text s t)
unfolding compare_text
compare_text-flip s t = ground (arith, text_lt_asymm s t)

compare_text-Chains :
    (s t u : Text) → Chains (compare_text s t) (compare_text t u) (compare_text s u)
unfolding compare_text
compare_text-Chains s t u h k = ground (
  arith,
  text_lt_trans s t u,
  text_eq_of_not_lt s t,
  text_eq_of_not_lt t u,
  text_lt_irrefl s,
  text_lt_asymm s u,
)

compare_number-flip : (s t : Text) → compare_number t s ≡ flip (compare_number s t)
unfolding compare_number
compare_number-flip s t = ground (arith, text_lt_asymm s t)

compare_number-Chains :
    (s t u : Text) → Chains (compare_number s t) (compare_number t u) (compare_number s u)
unfolding compare_number
compare_number-Chains s t u h k = ground (
  arith,
  text_lt_trans s t u,
  text_eq_of_not_lt s t,
  text_eq_of_not_lt t u,
  text_lt_irrefl s,
  text_lt_asymm s u,
)

compare_kinds-flip :
    (m n : Option Text) (s t : Text) → compare_kinds n m t s ≡ flip (compare_kinds m n s t)
unfolding compare_kinds
compare_kinds-flip none none s t = compare_text-flip s t
compare_kinds-flip none (some n) s t = refl
compare_kinds-flip (some m) none s t = refl
compare_kinds-flip (some m) (some n) s t = compare_number-flip m n

compare_kinds-Chains :
    (l m n : Option Text) (s t u : Text)
    → Chains (compare_kinds l m s t) (compare_kinds m n t u) (compare_kinds l n s u)
unfolding compare_kinds
compare_kinds-Chains none none none s t u = compare_text-Chains s t u
compare_kinds-Chains none none (some n) s t u = ground arith
compare_kinds-Chains none (some m) n s t u = ground arith
compare_kinds-Chains (some l) none none s t u = ground arith
compare_kinds-Chains (some l) none (some n) s t u = ground arith
compare_kinds-Chains (some l) (some m) none s t u = ground arith
compare_kinds-Chains (some l) (some m) (some n) s t u = compare_number-Chains l m n

compare_identifiers-flip :
    (s t : List Text) → compare_identifiers t s ≡ flip (compare_identifiers s t)
unfolding compare_identifiers
compare_identifiers-flip [] [] = refl
compare_identifiers-flip [] (b ∷ t) = refl
compare_identifiers-flip (a ∷ s) [] = refl
compare_identifiers-flip (a ∷ s) (b ∷ t) =
    rw
      (
        or_else-flip (compare_identifier a b) (compare_identifiers s t),
        compare_kinds-flip (numeric_identifier a) (numeric_identifier b) a b,
        compare_identifiers-flip s t,
      )
      refl

compare_identifiers-Chains :
    (s t u : List Text)
    → Chains (compare_identifiers s t) (compare_identifiers t u) (compare_identifiers s u)
unfolding compare_identifiers
compare_identifiers-Chains [] [] [] = ground arith
compare_identifiers-Chains [] [] (c ∷ u) = ground arith
compare_identifiers-Chains [] (b ∷ t) [] = ground arith
compare_identifiers-Chains [] (b ∷ t) (c ∷ u) = ground arith
compare_identifiers-Chains (a ∷ s) [] u = ground arith
compare_identifiers-Chains (a ∷ s) (b ∷ t) [] = ground arith
compare_identifiers-Chains (a ∷ s) (b ∷ t) (c ∷ u) =
    or_else-Chains (compare_identifier a b) (compare_identifier b c) (compare_identifier a c)
      (compare_identifiers s t) (compare_identifiers t u) (compare_identifiers s u)
      (compare_kinds-Chains (numeric_identifier a) (numeric_identifier b) (numeric_identifier c) a b
        c)
      (compare_identifiers-Chains s t u)

compare_trimmed-flip : (s t : Text) → compare_trimmed t s ≡ flip (compare_trimmed s t)
unfolding compare_trimmed
compare_trimmed-flip [] [] = refl
compare_trimmed-flip [] (b ∷ t) = refl
compare_trimmed-flip (a ∷ s) [] = refl
compare_trimmed-flip (a ∷ s) (b ∷ t) =
    compare_identifiers-flip (split b'.' (a ∷ s)) (split b'.' (b ∷ t))

compare_trimmed-Chains :
    (s t u : Text) → Chains (compare_trimmed s t) (compare_trimmed t u) (compare_trimmed s u)
unfolding compare_trimmed
compare_trimmed-Chains [] [] [] = ground arith
compare_trimmed-Chains [] [] (c ∷ u) = ground arith
compare_trimmed-Chains [] (b ∷ t) u = ground arith
compare_trimmed-Chains (a ∷ s) [] [] = ground arith
compare_trimmed-Chains (a ∷ s) [] (c ∷ u) = ground arith
compare_trimmed-Chains (a ∷ s) (b ∷ t) [] = ground arith
compare_trimmed-Chains (a ∷ s) (b ∷ t) (c ∷ u) =
    compare_identifiers-Chains (split b'.' (a ∷ s)) (split b'.' (b ∷ t)) (split b'.' (c ∷ u))

pub compare_numeric_core-flip :
    (v w : Version) → compare_numeric_core w v ≡ flip (compare_numeric_core v w)
unfolding compare_numeric_core
compare_numeric_core-flip v w = ground (
  arith,
  compare_int-flip v.major w.major,
  compare_int-flip v.minor w.minor,
  compare_int-flip v.patch w.patch,
)

pub compare_numeric_core-Chains :
    (u v w : Version)
    → Chains (compare_numeric_core u v) (compare_numeric_core v w) (compare_numeric_core u w)
unfolding compare_numeric_core
compare_numeric_core-Chains u v w =
    or_else-Chains _ _ _ _ _ _ (compare_int-Chains u.major v.major w.major) (
      or_else-Chains _ _ _ _ _ _ (compare_int-Chains u.minor v.minor w.minor)
        (compare_int-Chains u.patch v.patch w.patch))

-- Comparing two versions the other way round gives the opposite answer.
pub compare_version-flip : (v w : Version) → compare_version w v ≡ flip (compare_version v w)
unfolding compare_version
compare_version-flip v w =
    rw
      (
        or_else-flip (compare_numeric_core v w) (compare_prerelease v.suffix w.suffix),
        compare_numeric_core-flip v w,
        compare_trimmed-flip (trim_separators v.suffix) (trim_separators w.suffix),
      )
      refl

-- When the first version is at most the second and the second at most the third, the first compares
-- with the third as less if one of the two steps is strict, and as equal otherwise.
pub compare_version-Chains :
    (u v w : Version)
    → compare_version u v ≢ Ordering.gt
    → compare_version v w ≢ Ordering.gt
    → compare_version u w ≡ (compare_version u v or_else compare_version v w)
unfolding compare_version compare_prerelease
compare_version-Chains u v w = or_else-Chains _ _ _ _ _ _ (compare_numeric_core-Chains u v w) (
    compare_trimmed-Chains (trim_separators u.suffix) (trim_separators v.suffix)
      (trim_separators w.suffix))
