-- ===== src/Version/Audit.antt =====
-- Which version texts `CheckPatroniVersion` of model/version.go accepts.
use Prim.Native.Nat.{Ordering}
use mathlib.Core.Bool.{false≢true}
use go_patroni.Base.{
  sym, ℕ, ◌≡◌, ◌↔◌, refl, Bool, true, false, ◌&&◌, ◌||◌, Option, none, some, [], ◌∷◌, arith,
  if◌then◌else◌, ℤ, pos, negsuc, is_negative, eqb_ℤ, is_empty, not, inl, inr, Bool-cases,
}
use go_patroni.Base.Result.{ok, err, ◌>>=◌, Post, Post-bind, Post-any, Post_elim}
use go_patroni.Texts.{Text}
use go_patroni.Texts.Decimal.{is_digit, atoi, atoi-nonneg}
use go_patroni.Version.{
  Version, VersionError, invalid, unsupported, Captures, span, scan_digits, part_of, match_version,
  convert, parse_version, optional_v, expect, scan_suffix, scan_end,
}
use go_patroni.Version.Precedence.{
  compare_numeric_core, compare_trimmed, compare_prerelease, compare_version, trim_separators,
}
use go_patroni.Version.Range.{contains, audited_patroni_range, check_patroni_version}

-- A suffix with more than separators is a prerelease.
abbrev pub is_prerelease : Version → Bool
is_prerelease v = not (is_empty (trim_separators v.suffix))

-- Major version 3 or 4, except the prereleases of 3.0.0.
abbrev pub is_audited : Version → Bool
is_audited v =
    (eqb_ℤ v.major (pos 3) || eqb_ℤ v.major (pos 4))
    && not (
        eqb_ℤ v.major (pos 3)
        && (eqb_ℤ v.minor (pos 0) && (eqb_ℤ v.patch (pos 0) && is_prerelease v)))

-- The three numbers of a parsed version.
pub record IsNatural (v : Version) : Type 0 where
  pub major : is_negative v.major ≡ false
  pub minor : is_negative v.minor ≡ false
  pub patch : is_negative v.patch ≡ false

abbrev natural : ℕ → ℕ → ℕ → Text → Version
natural a b c s = record { major = pos a; minor = pos b; patch = pos c; suffix = s }

compare_trimmed-nil :
    (t : Text) → compare_trimmed t [] ≡ (if is_empty t then Ordering.eq else Ordering.lt)
unfolding compare_trimmed
compare_trimmed-nil [] = refl
compare_trimmed-nil (c ∷ t) = refl

compare_prerelease-nil :
    (s : Text)
    → compare_prerelease s [] ≡ (if is_empty (trim_separators s) then Ordering.eq else Ordering.lt)
unfolding compare_prerelease
compare_prerelease-nil s = compare_trimmed-nil (trim_separators s)

contains-natural :
    (a b c : ℕ) (s : Text)
    → contains audited_patroni_range (natural a b c s) ≡ is_audited (natural a b c s)
unfolding contains compare_version compare_numeric_core
contains-natural a b c s = ground (arith, compare_prerelease-nil s)

contains-audited :
    (a b c : ℤ) (s : Text) {v : Version}
    → v ≡ record { major = a; minor = b; patch = c; suffix = s }
    → IsNatural v
    → contains audited_patroni_range v ≡ is_audited v
contains-audited (pos a) (pos b) (pos c) s e n = rw e (contains-natural a b c s)
contains-audited (negsuc a) b c s e n = absurd (false≢true (sym (rw e at n.major)))
contains-audited (pos a) (negsuc b) c s e n = absurd (false≢true (sym (rw e at n.minor)))
contains-audited (pos a) (pos b) (negsuc c) s e n = absurd (false≢true (sym (rw e at n.patch)))

span-head :
    (s : Text)
    → is_empty (span is_digit s).0 ≡ false
    → (c : ℕ) × (r : Text) × ((span is_digit s).0 ≡ c ∷ r) × (is_digit c ≡ true)
unfolding span
span-head [] h = cc
span-head (c ∷ s) h = elim (Bool-cases (is_digit c)) [
  | inl digit ↦ (c, (span is_digit s).0, rw (digit, span), digit)
  | inr other ↦ absurd (false≢true (sym (rw (other, span) at h)))
]

-- A text of digits, as the pattern captures it.
abbrev StartsDigit : Text → Type 0
StartsDigit run = (c : ℕ) × (r : Text) × (run ≡ c ∷ r) × (is_digit c ≡ true)

scan_digits-StartsDigit : (s : Text) → Post (λ r. StartsDigit r.0) (scan_digits s)
unfolding scan_digits
scan_digits-StartsDigit s = elim (Bool-cases (is_empty (span is_digit s).0)) [
  | inl none_read ↦ rw (none_read, scan_digits) tt
  | inr some_read ↦ rw (some_read, scan_digits) (span-head s some_read)
]

record CapturesDigits (m : Captures) : Type 0 where
  major : StartsDigit m.major
  minor : StartsDigit m.minor
  patch : StartsDigit m.patch

match_version-CapturesDigits : (s : Text) → Post CapturesDigits (match_version s)
unfolding match_version
match_version-CapturesDigits s =
    Post-bind (λ r. StartsDigit r.0) CapturesDigits (scan_digits (optional_v s)) _
      (scan_digits-StartsDigit (optional_v s))
      λ a ha. Post-any CapturesDigits (expect b'.' a.1) _ λ b.
        Post-bind (λ r. StartsDigit r.0) CapturesDigits (scan_digits b) _
          (scan_digits-StartsDigit b)
          λ c hc. Post-any CapturesDigits (expect b'.' c.1) _ λ d.
            Post-bind (λ r. StartsDigit r.0) CapturesDigits (scan_digits d) _
              (scan_digits-StartsDigit d)
              λ e he. Post-any CapturesDigits (scan_suffix e.1) _ λ f.
                Post-any CapturesDigits (scan_end f.1) _
                  λ g. record { major = ha; minor = hc; patch = he }

part_of-natural : (run : Text) → StartsDigit run → Post (λ n. is_negative n ≡ false) (part_of run)
unfolding part_of
part_of-natural run (c, r, e, d) = rw e (go (atoi (c ∷ r)) (λ z p. atoi-nonneg c r d p))
  where
    go :
        (o : Option ℤ)
        → ((z : ℤ) → o ≡ some z → is_negative z ≡ false)
        → Post (λ n. is_negative n ≡ false) (elim o [ none ↦ err invalid | some n ↦ ok n ])
    go none h = tt
    go (some z) h = h z refl

convert-IsNatural : (m : Captures) → CapturesDigits m → Post IsNatural (convert m)
unfolding convert
convert-IsNatural m h =
    Post-bind (λ n. is_negative n ≡ false) IsNatural (part_of m.major) _
      (part_of-natural m.major h.major)
      λ a ha.
        Post-bind (λ n. is_negative n ≡ false) IsNatural (part_of m.minor) _
          (part_of-natural m.minor h.minor)
          λ b hb.
            Post-bind (λ n. is_negative n ≡ false) IsNatural (part_of m.patch) _
              (part_of-natural m.patch h.patch)
              λ c hc. record { major = ha; minor = hb; patch = hc }

-- The three numbers of a parsed version are not negative.
pub parse_version-IsNatural : (s : Text) {v : Version} → parse_version s ≡ ok v → IsNatural v
unfolding parse_version
parse_version-IsNatural s e =
    Post_elim IsNatural (match_version s >>= convert)
      (Post-bind CapturesDigits IsNatural (match_version s) convert (match_version-CapturesDigits s)
        convert-IsNatural)
      e

-- `CheckPatroniVersion` accepts a text that parses exactly when its major version is 3 or 4 and it
-- is no prerelease of 3.0.0.
pub check_patroni_version_iff :
    (s : Text) (v : Version)
    → parse_version s ≡ ok v
    → (check_patroni_version s ≡ none) ↔ (is_audited v ≡ true)
unfolding check_patroni_version
check_patroni_version_iff s v e =
    let n = parse_version-IsNatural s e in
    let c = contains-audited v.major v.minor v.patch v.suffix refl n in
    rw (e, check_patroni_version, c) (go (is_audited v))
  where
    go :
        (b : Bool)
        → ◌≡◌ {A = Option VersionError} (if b then none else some unsupported) none ↔ (b ≡ true)
    go true = (λ _. refl, λ _. refl)
    go false = (λ e. cc, λ e. cc)
