-- ===== src/Version/Precedence.antt =====
-- `Version.Compare`, `comparePrerelease` and `compareNumericCore` of model/version.go. The Go
-- results -1, 0 and 1 are `lt`, `eq` and `gt`.
use Prim.Native.Nat.{Ordering}
use go_patroni.Base.{
  ℕ, Bool, true, false, ◌&&◌, ◌||◌, Option, none, some, List, [], ◌∷◌, ltb, ◌==◌, if◌then◌else◌, ℤ,
  ltb_ℤ, length, all,
}
use go_patroni.Texts.{Text, text, split}
use go_patroni.Texts.Decimal.{is_digit}
use go_patroni.Texts.Order.{text_lt}
use go_patroni.Version.{Version}

-- The first difference decides.
infixr 30 ◌or_else◌
abbrev pub ◌or_else◌ : Ordering → Ordering → Ordering
Ordering.eq or_else o = o
Ordering.lt or_else o = Ordering.lt
Ordering.gt or_else o = Ordering.gt

-- One round of the loops over the three parts.
unfoldable pub compare_int : ℤ → ℤ → Ordering
compare_int a b = if ltb_ℤ a b then Ordering.lt else if ltb_ℤ b a then Ordering.gt else Ordering.eq

unfoldable pub compare_numeric_core : Version → Version → Ordering
unfolding compare_int
compare_numeric_core v w =
    compare_int v.major w.major
    or_else compare_int v.minor w.minor
    or_else compare_int v.patch w.patch

-- `strings.TrimLeft(s, cutset)` for a test on bytes.
unfoldable pub trim_while : (ℕ → Bool) → Text → Text
trim_while p [] = []
trim_while p (c ∷ s) = elim (p c) [ true ↦ trim_while p s | false ↦ c ∷ s ]

abbrev pub or_zero : Text → Text
or_zero [] = text "0"
or_zero (c ∷ s) = c ∷ s

-- `none` is Go's `("", false)`.
unfoldable pub numeric_identifier : Text → Option Text
unfolding all is_digit trim_while
numeric_identifier [] = none
numeric_identifier (c ∷ s) =
    if all is_digit (c ∷ s) then some (or_zero (trim_while (λ d. d == b'0') (c ∷ s))) else none

unfoldable pub compare_number : Text → Text → Ordering
compare_number l r =
    if ltb (length l) (length r) || length l == length r && text_lt l r
    then Ordering.lt
    else if ltb (length r) (length l) || length l == length r && text_lt r l
    then Ordering.gt
    else Ordering.eq

unfoldable pub compare_text : Text → Text → Ordering
compare_text l r =
    if text_lt l r then Ordering.lt else if text_lt r l then Ordering.gt else Ordering.eq

unfoldable pub compare_kinds : Option Text → Option Text → Text → Text → Ordering
unfolding compare_number compare_text
compare_kinds (some m) (some n) l r = compare_number m n
compare_kinds (some m) none l r = Ordering.lt
compare_kinds none (some n) l r = Ordering.gt
compare_kinds none none l r = compare_text l r

-- The `switch` of `comparePrerelease` on one pair of identifiers.
unfoldable pub compare_identifier : Text → Text → Ordering
unfolding compare_kinds numeric_identifier
compare_identifier l r = compare_kinds (numeric_identifier l) (numeric_identifier r) l r

-- The loop over the common positions, and then the comparison of the two lengths.
unfoldable pub compare_identifiers : List Text → List Text → Ordering
unfolding compare_identifier
compare_identifiers [] [] = Ordering.eq
compare_identifiers [] (r ∷ rs) = Ordering.lt
compare_identifiers (l ∷ ls) [] = Ordering.gt
compare_identifiers (l ∷ ls) (r ∷ rs) = compare_identifier l r or_else compare_identifiers ls rs

abbrev pub trim_separators : Text → Text
trim_separators = trim_while (λ c. c == b'.' || c == b'-')

unfoldable pub compare_trimmed : Text → Text → Ordering
unfolding compare_identifiers split
compare_trimmed [] [] = Ordering.eq
compare_trimmed [] (d ∷ r) = Ordering.gt
compare_trimmed (c ∷ l) [] = Ordering.lt
compare_trimmed (c ∷ l) (d ∷ r) = compare_identifiers (split b'.' (c ∷ l)) (split b'.' (d ∷ r))

unfoldable pub compare_prerelease : Text → Text → Ordering
unfolding compare_trimmed trim_while
compare_prerelease left right = compare_trimmed (trim_separators left) (trim_separators right)

unfoldable pub compare_version : Version → Version → Ordering
unfolding compare_numeric_core compare_prerelease
compare_version v w = compare_numeric_core v w or_else compare_prerelease v.suffix w.suffix
