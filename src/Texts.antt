-- ===== src/Texts.antt =====
-- Go strings: a text is the list of its bytes, so that equality, order, prefixes and splitting are
-- those of the `strings` package on any bytes.
pub mod Order
pub mod Decimal
pub mod Space
pub mod Escape
pub mod Slashes
use Prim.Native.Char.{code}
use Prim.Native.String.{String}
use go_patroni.Base.{
  ℕ, ◌≡◌, refl, ap, ◌↔◌, Bool, true, false, ◌&&◌, Option, none, some, List, [], ◌∷◌, ◌++◌, arith,
  ◌==◌, if◌then◌else◌, Bool-cases, inl, inr,
}

abbrev pub Text : Type 0
Text = List ℕ

codes : String → Text
codes String.[] = []
codes (String.◌∷◌ c s) = code c ∷ codes s

-- A string literal of the source; the source's literals are ASCII, so their bytes are their codes.
unfoldable pub text : String → Text
unfolding codes
text s = codes s

unfoldable pub text_eq : Text → Text → Bool
text_eq [] [] = true
text_eq (a ∷ s) (b ∷ t) = (a == b) && text_eq s t
text_eq _ _ = false

pub text_eq_refl : (s : Text) → text_eq s s ≡ true
unfolding text_eq
text_eq_refl [] = refl
text_eq_refl (a ∷ s) = ground (arith, text_eq_refl s)

pub eq_of_text_eq : (s t : Text) → text_eq s t ≡ true → s ≡ t
unfolding text_eq
eq_of_text_eq [] [] h = refl
eq_of_text_eq [] (b ∷ t) h = ground arith
eq_of_text_eq (a ∷ s) [] h = ground arith
eq_of_text_eq (a ∷ s) (b ∷ t) h = ground (arith, eq_of_text_eq s t)

pub text_eq_iff : (s t : Text) → (text_eq s t ≡ true) ↔ (s ≡ t)
text_eq_iff s t = (eq_of_text_eq s t, λ e. rw e (text_eq_refl t))

-- `strings.HasPrefix`, with the rest that `strings.TrimPrefix` leaves.
unfoldable pub strip_prefix : Text → Text → Option Text
strip_prefix [] s = some s
strip_prefix (p ∷ ps) [] = none
strip_prefix (p ∷ ps) (c ∷ s) = if p == c then strip_prefix ps s else none

pub strip_prefix-append : (p s : Text) → strip_prefix p (p ++ s) ≡ some s
unfolding strip_prefix
strip_prefix-append [] s = refl
strip_prefix-append (c ∷ p) s = ground (arith, strip_prefix-append p s)

pub append-strip_prefix : (p s r : Text) → strip_prefix p s ≡ some r → s ≡ p ++ r
unfolding strip_prefix
append-strip_prefix [] s r h = ground arith
append-strip_prefix (c ∷ p) [] r h = ground arith
append-strip_prefix (c ∷ p) (d ∷ s) r h = ground (arith, append-strip_prefix p s r)

-- `strings.Contains`
unfoldable pub contains : Text → Text → Bool
unfolding strip_prefix
contains needle [] = elim (strip_prefix needle []) [ none ↦ false | some _ ↦ true ]
contains needle (c ∷ s) = elim (strip_prefix needle (c ∷ s)) [
  | none ↦ contains needle s
  | some _ ↦ true
]

-- `strings.Split(s, sep)` for a separator of one byte; never empty.
abbrev pub split_onto : ℕ → List Text → List Text
split_onto c [] = (c ∷ []) ∷ []
split_onto c (part ∷ parts) = (c ∷ part) ∷ parts

unfoldable pub split : ℕ → Text → List Text
split sep [] = [] ∷ []
split sep (c ∷ s) = elim (c == sep) [ true ↦ [] ∷ split sep s | false ↦ split_onto c (split sep s) ]

-- `strings.Join(parts, sep)`
unfoldable pub join : Text → List Text → Text
join sep [] = []
join sep (part ∷ []) = part
join sep (part ∷ next ∷ parts) = part ++ (sep ++ join sep (next ∷ parts))

abbrev pub Free : ℕ → Text → Type 0
Free sep [] = Unit
Free sep (c ∷ s) = ((c == sep) ≡ false) × Free sep s

split-ne-nil : (sep : ℕ) (s : Text) → (p : Text) × (ps : List Text) × (split sep s ≡ p ∷ ps)
unfolding split
split-ne-nil sep [] = ([], [], refl)
split-ne-nil sep (c ∷ s) = go (c == sep) (split sep s) (split-ne-nil sep s)
  where
    go :
        (b : Bool) (l : List Text)
        → (p : Text) × (ps : List Text) × (l ≡ p ∷ ps)
        → (p : Text) × (ps : List Text) × (◌≡◌ {A = List Text}
            (elim b [ true ↦ [] ∷ l | false ↦ split_onto c l ])
            (p ∷ ps))
    go true l r = ([], l, refl)
    go false l (p, ps, e) = (c ∷ p, ps, rw e)

pub split_of_Free : (sep : ℕ) (s : Text) → Free sep s → split sep s ≡ s ∷ []
unfolding split
split_of_Free sep [] h = refl
split_of_Free sep (c ∷ s) (h, k) = rw (h, split, split_of_Free sep s k)

pub split-append : (sep : ℕ) (s t : Text) → Free sep s → split sep (s ++ sep ∷ t) ≡ s ∷ split sep t
unfolding split
split-append sep [] t h = ground arith
split-append sep (c ∷ s) t (h, k) = rw (h, split, split-append sep s t k)

abbrev pub AllFree : ℕ → List Text → Type 0
AllFree sep [] = Unit
AllFree sep (s ∷ ss) = Free sep s × AllFree sep ss

-- Splitting undoes joining when no part holds the separator.
pub split-join :
    (sep : ℕ) (p : Text) (ps : List Text)
    → AllFree sep (p ∷ ps)
    → split sep (join (sep ∷ []) (p ∷ ps)) ≡ p ∷ ps
unfolding join
split-join sep p [] (h, _) = split_of_Free sep p h
split-join sep p (q ∷ ps) (h, k) =
    rw (split-append sep p (join (sep ∷ []) (q ∷ ps)) h) (ap (λ l. p ∷ l) (split-join sep q ps k))

pub Free-append : (sep : ℕ) (s t : Text) → Free sep s → Free sep t → Free sep (s ++ t)
Free-append sep [] t h k = k
Free-append sep (c ∷ s) t (p, h) k = (p, Free-append sep s t h k)

pub Free-left : (sep : ℕ) (s t : Text) → Free sep (s ++ t) → Free sep s
Free-left sep [] t h = tt
Free-left sep (c ∷ s) t (p, h) = (p, Free-left sep s t h)

pub Free-right : (sep : ℕ) (s t : Text) → Free sep (s ++ t) → Free sep t
Free-right sep [] t h = h
Free-right sep (c ∷ s) t (p, h) = Free-right sep s t h

AllFree-split_onto :
    (sep c : ℕ) (l : List Text) → (c == sep) ≡ false → AllFree sep l → AllFree sep (split_onto c l)
AllFree-split_onto sep c [] h k = ((h, tt), tt)
AllFree-split_onto sep c (p ∷ ps) h (k, ks) = ((h, k), ks)

-- No part of a split text holds the separator.
pub split-AllFree : (sep : ℕ) (s : Text) → AllFree sep (split sep s)
unfolding split
split-AllFree sep [] = (tt, tt)
split-AllFree sep (c ∷ s) = elim (Bool-cases (c == sep)) [
  | inl same ↦ rw (same, split) (tt, split-AllFree sep s)
  | inr other ↦
      rw (other, split) (AllFree-split_onto sep c (split sep s) other (split-AllFree sep s))
]
