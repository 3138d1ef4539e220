-- ===== src/Version.antt =====
-- model/version.go: Patroni versions, their precedence, and the audited compatibility range.
pub mod Precedence
pub mod Order
pub mod Range
pub mod Audit
mod Tests
use go_patroni.Base.{
  ℕ, Bool, true, false, ◌&&◌, ◌||◌, none, some, [], ◌∷◌, ◌++◌, leb, ◌==◌, if◌then◌else◌, ℤ,
  is_empty, not,
}
use go_patroni.Base.Result.{Result, ok, err, ◌>>=◌}
use go_patroni.Texts.{Text, text, strip_prefix}
use go_patroni.Texts.Decimal.{is_digit, atoi, itoa}

pub record Version : Type 0 where
  pub major : ℤ
  pub minor : ℤ
  pub patch : ℤ
  pub suffix : Text

-- `Version.String`
unfoldable pub version_text : Version → Text
version_text v = itoa v.major ++ (b'.' ∷ itoa v.minor ++ (b'.' ∷ itoa v.patch ++ v.suffix))

-- `invalid` is an error of the syntax or of `Atoi`; the others are those of the range checks.
pub data VersionError : Type 0 where
  invalid unsupported empty_range outside_audited : VersionError

-- The longest run of bytes that pass the test, and the rest.
unfoldable pub span : (ℕ → Bool) → Text → Text × Text
span p [] = ([], [])
span p (c ∷ s) = elim (p c) [
  | true ↦ let (run, rest) = span p s in (c ∷ run, rest)
  | false ↦ ([], c ∷ s)
]

abbrev pub is_alphanumeric : ℕ → Bool
is_alphanumeric c = is_digit c || (leb b'A' c && leb c b'Z' || leb b'a' c && leb c b'z')

-- `[0-9]+`
scan_digits : Text → Result VersionError (Text × Text)
unfolding span is_digit
scan_digits s =
    let (run, rest) = span is_digit s in if is_empty run then err invalid else ok (run, rest)

expect : ℕ → Text → Result VersionError Text
expect c [] = err invalid
expect c (d ∷ s) = if d == c then ok s else err invalid

-- `([.-][0-9A-Za-z.-]+)?`: after the patch digits a dot or dash can only begin the suffix.
scan_suffix : Text → Result VersionError (Text × Text)
unfolding span is_digit
scan_suffix [] = ok ([], [])
scan_suffix (c ∷ s) =
    let (run, rest) = span (λ d. is_alphanumeric d || (d == b'.' || d == b'-')) s in
    if c == b'.' || c == b'-'
    then (if is_empty run then err invalid else ok (c ∷ run, rest))
    else ok ([], c ∷ s)

closes : Text → Result VersionError (Unit {0})
closes (d ∷ []) = if d == b')' then ok tt else err invalid
closes _ = err invalid

-- `(?: \([^\r\n()]*\))?$`
scan_end : Text → Result VersionError (Unit {0})
unfolding closes span strip_prefix text
scan_end [] = ok tt
scan_end (c ∷ s) = elim (strip_prefix (text " (") (c ∷ s)) [
  | none ↦ err invalid
  | some inner ↦
      let (run, rest) = span (λ d. not (d == 13 || (d == 10 || (d == b'(' || d == b')')))) inner in
      closes rest
]

optional_v : Text → Text
optional_v [] = []
optional_v (c ∷ s) = if c == b'v' then s else c ∷ s

part_of : Text → Result VersionError ℤ
part_of digits = elim (atoi digits) [ none ↦ err invalid | some n ↦ ok n ]

-- What the pattern captures.
pub record Captures : Type 0 where
  pub major : Text
  pub minor : Text
  pub patch : Text
  pub suffix : Text

-- `versionPattern.FindStringSubmatch(value)`
match_version : Text → Result VersionError Captures
unfolding optional_v scan_digits expect scan_suffix scan_end
match_version value = do
  (major, after_major) ← scan_digits (optional_v value)
  after_dot ← expect b'.' after_major
  (minor, after_minor) ← scan_digits after_dot
  after_second_dot ← expect b'.' after_minor
  (patch, after_patch) ← scan_digits after_second_dot
  (suffix, after_suffix) ← scan_suffix after_patch
  end ← scan_end after_suffix
  ok (record { major = major; minor = minor; patch = patch; suffix = suffix })

-- The loop of `Atoi` over the captured parts.
convert : Captures → Result VersionError Version
unfolding part_of atoi
convert captures = do
  major ← part_of captures.major
  minor ← part_of captures.minor
  patch ← part_of captures.patch
  ok (record { major = major; minor = minor; patch = patch; suffix = captures.suffix })

unfoldable pub parse_version : Text → Result VersionError Version
unfolding match_version convert
parse_version value = match_version value >>= convert
