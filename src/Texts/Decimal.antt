-- ===== src/Texts/Decimal.antt =====
-- `strconv.Itoa`, `FormatInt`, `FormatBool` and `Atoi` (base ten, 64-bit range).
use go_patroni.Base.{
  ℕ, zero, suc, ◌+◌, ◌-◌, ◌*◌, ◌/◌, ◌%◌, ◌^◌, ◌≤◌, ◌<◌, ◌≡◌, refl, ◌∙◌, Bool, true, false, ◌&&◌,
  Option, none, some, [], ◌∷◌, arith, ltb, leb, ◌==◌, if◌then◌else◌, Bool-cases, inl, inr, subst, ℤ,
  pos, negsuc, is_negative,
}
use go_patroni.Texts.{Text, text, Free}

unfoldable pub is_digit : ℕ → Bool
is_digit c = leb b'0' c && leb c b'9'

-- The digits of `n` in front of `acc`, last digit first; `suc n` rounds are enough.
itoa_from : ℕ → ℕ → Text → Text
itoa_from zero n acc = acc
itoa_from (suc f) n acc =
    let rest = itoa_from f (n / 10) ((b'0' + n % 10) ∷ acc) in
    if ltb n 10 then (b'0' + n) ∷ acc else rest

unfoldable pub itoa_ℕ : ℕ → Text
unfolding itoa_from
itoa_ℕ n = itoa_from (suc n) n []

unfoldable pub itoa : ℤ → Text
unfolding itoa_ℕ
itoa (pos n) = itoa_ℕ n
itoa (negsuc n) = b'-' ∷ itoa_ℕ (suc n)

unfoldable pub format_bool : Bool → Text
format_bool true = text "true"
format_bool false = text "false"

digits : ℕ → Text → Option ℕ
unfolding is_digit
digits n [] = some n
digits n (c ∷ s) = elim (is_digit c) [ true ↦ digits (n * 10 + (c - b'0')) s | false ↦ none ]

-- One or more digits.
unfoldable pub number : Text → Option ℕ
unfolding digits
number [] = none
number (c ∷ s) = digits 0 (c ∷ s)

abbrev pub max_int : ℕ
max_int = 2 ^ 63 - 1

abbrev pub in_range : ℕ → Option ℕ → Option ℕ
in_range most none = none
in_range most (some n) = if leb n most then some n else none

abbrev pub positive : Option ℕ → Option ℤ
positive none = none
positive (some n) = some (pos n)

abbrev pub negate : ℕ → ℤ
negate zero = pos 0
negate (suc n) = negsuc n

abbrev pub negative : Option ℕ → Option ℤ
negative none = none
negative (some n) = some (negate n)

unfoldable pub atoi : Text → Option ℤ
unfolding number
atoi [] = none
atoi (c ∷ s) =
    if c == b'+'
    then positive (in_range max_int (number s))
    else if c == b'-'
    then negative (in_range (max_int + 1) (number s))
    else positive (in_range max_int (number (c ∷ s)))

digits-itoa_from : (f n : ℕ) (acc : Text) → n < f → digits 0 (itoa_from f n acc) ≡ digits n acc
unfolding digits itoa_from
digits-itoa_from zero n acc h = elim h [ ]
digits-itoa_from (suc f) n acc h = elim (Bool-cases (ltb n 10)) [
  | inl small ↦ rw small (ground arith)
  | inr large ↦
      rw large (digits-itoa_from f (n / 10) ((b'0' + n % 10) ∷ acc) (ground arith) ∙ ground arith)
]

abbrev AllDigits : Text → Type 0
AllDigits [] = Unit
AllDigits (c ∷ s) = (is_digit c ≡ true) × AllDigits s

itoa_from-AllDigits : (f n : ℕ) (acc : Text) → AllDigits acc → AllDigits (itoa_from f n acc)
unfolding itoa_from is_digit
itoa_from-AllDigits zero n acc h = h
itoa_from-AllDigits (suc f) n acc h = elim (Bool-cases (ltb n 10)) [
  | inl small ↦ rw small (ground arith, h)
  | inr large ↦ rw large (itoa_from-AllDigits f (n / 10) ((b'0' + n % 10) ∷ acc) (ground arith, h))
]

itoa_from-cons :
    (f n : ℕ) (c : ℕ) (acc : Text) → (d : ℕ) × (s : Text) × (itoa_from f n (c ∷ acc) ≡ d ∷ s)
unfolding itoa_from
itoa_from-cons zero n c acc = (c, acc, refl)
itoa_from-cons (suc f) n c acc = elim (Bool-cases (ltb n 10)) [
  | inl small ↦ (b'0' + n, c ∷ acc, rw small)
  | inr large ↦ rw large (itoa_from-cons f (n / 10) (b'0' + n % 10) (c ∷ acc))
]

itoa_ℕ-cons : (n : ℕ) → (d : ℕ) × (s : Text) × (itoa_ℕ n ≡ d ∷ s)
unfolding itoa_ℕ itoa_from
itoa_ℕ-cons n = elim (Bool-cases (ltb n 10)) [
  | inl small ↦ (b'0' + n, [], rw small)
  | inr large ↦ rw large (itoa_from-cons n (n / 10) (b'0' + n % 10) [])
]

number-itoa_ℕ : (n : ℕ) → number (itoa_ℕ n) ≡ some n
unfolding number itoa_ℕ
number-itoa_ℕ n =
    let (d, s, e) = itoa_ℕ-cons n in
    let parsed = digits-itoa_from (suc n) n [] (omega arith) in rw e (rw e at parsed)

Free-of_AllDigits : (c : ℕ) (s : Text) → is_digit c ≡ false → AllDigits s → Free c s
unfolding is_digit
Free-of_AllDigits c [] h k = tt
Free-of_AllDigits c (d ∷ s) h (p, k) = (ground arith, Free-of_AllDigits c s h k)

itoa_ℕ-AllDigits : (n : ℕ) → AllDigits (itoa_ℕ n)
unfolding itoa_ℕ
itoa_ℕ-AllDigits n = itoa_from-AllDigits (suc n) n [] tt

-- A printed non-negative number holds no byte but digits.
pub itoa-Free : (c n : ℕ) → is_digit c ≡ false → Free c (itoa (pos n))
unfolding itoa
itoa-Free c n h = Free-of_AllDigits c (itoa_ℕ n) h (itoa_ℕ-AllDigits n)

atoi_of_number :
    (d : ℕ) (s : Text) (n : ℕ)
    → is_digit d ≡ true
    → number (d ∷ s) ≡ some n
    → n ≤ max_int
    → atoi (d ∷ s) ≡ some (pos n)
unfolding atoi is_digit
atoi_of_number d s n h k l = ground arith

-- Parsing undoes printing on the non-negative 64-bit range.
pub atoi-itoa : (n : ℕ) → n ≤ max_int → atoi (itoa (pos n)) ≡ some (pos n)
unfolding itoa
atoi-itoa n h =
    let (d, s, e) = itoa_ℕ-cons n in
    let shape : AllDigits (d ∷ s) = subst AllDigits e (itoa_ℕ-AllDigits n) in
    rw e (atoi_of_number d s n shape.0 (subst (λ x. number x ≡ some n) e (number-itoa_ℕ n)) h)

-- Digits parse to a non-negative number.
pub atoi-nonneg :
    (c : ℕ) (s : Text) {z : ℤ} → is_digit c ≡ true → atoi (c ∷ s) ≡ some z → is_negative z ≡ false
unfolding atoi is_digit
atoi-nonneg c s h e = ground arith
