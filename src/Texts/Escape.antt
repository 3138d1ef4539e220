-- ===== src/Texts/Escape.antt =====
-- `url.PathEscape` and `url.PathUnescape` (the path-segment mode of net/url), on bytes.
use go_patroni.Base.{
  ℕ, ◌+◌, ◌-◌, ◌*◌, ◌/◌, ◌%◌, ◌<◌, ◌≡◌, refl, Bool, true, false, ◌&&◌, ◌||◌, Option, none, some, [],
  ◌∷◌, arith, ltb, leb, ◌==◌, if◌then◌else◌, Bool-cases, inl, inr,
}
use go_patroni.Texts.{Text, Free}

-- The bytes that stay as they are: letters, digits, `-_.~` and `$&+:=@`.
is_plain : ℕ → Bool
is_plain c =
    (leb b'a' c && leb c b'z' || (leb b'A' c && leb c b'Z' || leb b'0' c && leb c b'9'))
    || ((c == b'-' || (c == b'_' || (c == b'.' || c == b'~')))
        || (c == b'$' || (c == b'&' || (c == b'+' || (c == b':' || (c == b'=' || c == b'@'))))))

hex_digit : ℕ → ℕ
hex_digit n = if ltb n 10 then b'0' + n else b'A' + (n - 10)

unhex : ℕ → Option ℕ
unhex c =
    if leb b'0' c && leb c b'9'
    then some (c - b'0')
    else if leb b'a' c && leb c b'f'
    then some (c - b'a' + 10)
    else if leb b'A' c && leb c b'F'
    then some (c - b'A' + 10)
    else none

unfoldable pub path_escape : Text → Text
unfolding is_plain hex_digit
path_escape [] = []
path_escape (c ∷ s) =
    if is_plain c
    then c ∷ path_escape s
    else b'%' ∷ hex_digit (c / 16) ∷ hex_digit (c % 16) ∷ path_escape s

abbrev prepend : Option ℕ → Option Text → Option Text
prepend (some c) (some s) = some (c ∷ s)
prepend _ _ = none

abbrev byte_of : Option ℕ → Option ℕ → Option ℕ
byte_of (some a) (some b) = some (a * 16 + b)
byte_of _ _ = none

-- `none` is an `EscapeError`.
unfoldable pub path_unescape : Text → Option Text
unfolding unhex
path_unescape [] = some []
path_unescape (c ∷ []) = if c == b'%' then none else some (c ∷ [])
path_unescape (c ∷ a ∷ []) = if c == b'%' then none else prepend (some c) (path_unescape (a ∷ []))
path_unescape (c ∷ a ∷ b ∷ s) = elim (c == b'%') [
  | true ↦ prepend (byte_of (unhex a) (unhex b)) (path_unescape s)
  | false ↦ prepend (some c) (path_unescape (a ∷ b ∷ s))
]

abbrev pub IsBytes : Text → Type 0
IsBytes [] = Unit
IsBytes (c ∷ s) = (c < 256) × IsBytes s

unhex-hex_digit : (n : ℕ) → n < 16 → unhex (hex_digit n) ≡ some n
unfolding unhex hex_digit
unhex-hex_digit n h = ground arith

is_plain-percent : (c : ℕ) → is_plain c ≡ true → (c == b'%') ≡ false
unfolding is_plain
is_plain-percent c h = ground arith

path_unescape-cons :
    (c : ℕ) (s : Text)
    → (c == b'%') ≡ false
    → path_unescape (c ∷ s) ≡ prepend (some c) (path_unescape s)
unfolding path_unescape
path_unescape-cons c [] h = ground arith
path_unescape-cons c (a ∷ []) h = ground arith
path_unescape-cons c (a ∷ b ∷ s) h = ground arith

path_unescape-percent :
    (a b : ℕ) (s : Text)
    → path_unescape (b'%' ∷ a ∷ b ∷ s) ≡ prepend (byte_of (unhex a) (unhex b)) (path_unescape s)
unfolding path_unescape
path_unescape-percent a b s = refl

byte_of-halves :
    (c : ℕ) → c < 256 → byte_of (unhex (hex_digit (c / 16))) (unhex (hex_digit (c % 16))) ≡ some c
byte_of-halves c h = ground (arith, unhex-hex_digit (c / 16), unhex-hex_digit (c % 16))

-- Unescaping undoes escaping, on every sequence of bytes.
pub path_unescape-path_escape : (s : Text) → IsBytes s → path_unescape (path_escape s) ≡ some s
unfolding path_escape
path_unescape-path_escape [] h = unfold path_unescape in refl
path_unescape-path_escape (c ∷ s) (h, k) = elim (Bool-cases (is_plain c)) [
  | inl plain ↦ rw plain (
      ground (
        arith,
        path_unescape-cons c (path_escape s),
        is_plain-percent c,
        path_unescape-path_escape s k,
      ))
  | inr other ↦ rw other (
      ground (
        arith,
        path_unescape-percent (hex_digit (c / 16)) (hex_digit (c % 16)) (path_escape s),
        byte_of-halves c h,
        path_unescape-path_escape s k,
      ))
]

hex_digit-slash : (n : ℕ) → n < 16 → (hex_digit n == b'/') ≡ false
unfolding hex_digit
hex_digit-slash n h = ground arith

is_plain-slash : (c : ℕ) → is_plain c ≡ true → (c == b'/') ≡ false
unfolding is_plain
is_plain-slash c h = ground arith

-- An escaped segment holds no slash.
pub path_escape-Free : (s : Text) → IsBytes s → Free b'/' (path_escape s)
unfolding path_escape
path_escape-Free [] h = tt
path_escape-Free (c ∷ s) (h, k) = elim (Bool-cases (is_plain c)) [
  | inl plain ↦ rw plain (is_plain-slash c plain, path_escape-Free s k)
  | inr other ↦ rw other (
    refl,
    (
      hex_digit-slash (c / 16) (omega arith),
      (hex_digit-slash (c % 16) (omega arith), path_escape-Free s k),
    ),
  )
]

-- A text with no percent sign unescapes to itself.
pub path_unescape-Free : (s : Text) → Free b'%' s → path_unescape s ≡ some s
path_unescape-Free [] h = unfold path_unescape in refl
path_unescape-Free (c ∷ s) (h, k) = ground (arith, path_unescape-cons c s h, path_unescape-Free s k)
