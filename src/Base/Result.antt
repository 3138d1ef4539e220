-- ===== src/Base/Result.antt =====
-- A Go result `(value, error)`: the value, or a non-nil error.
use mathlib.Core.Path.{◌≡◌, refl, subst}
use mathlib.Core.Logic.{◌⊎◌, inl, inr}

pub data Result {ℓ κ} (E : Type κ) (A : Type ℓ) : Type (ℓ ⊔ κ) where
  ok : A → Result E A
  err : E → Result E A

infixl 5 ◌>>=◌
abbrev pub ◌>>=◌ {ℓ κ μ} :
    {E : Type κ} {A : Type ℓ} {B : Type μ} → Result E A → (A → Result E B) → Result E B
ok a >>= f = f a
err e >>= f = err e

pub Result-cases {ℓ κ} :
    {E : Type κ} {A : Type ℓ} (r : Result E A) → ((a : A) × (r ≡ ok a)) ⊎ ((e : E) × (r ≡ err e))
Result-cases (ok a) = inl (a, refl)
Result-cases (err e) = inr (e, refl)

-- What holds of the value, if there is one.
abbrev pub Post {ℓ κ μ} : {E : Type κ} {A : Type ℓ} → (A → Type μ) → Result E A → Type μ
Post P (ok a) = P a
Post P (err e) = Unit

pub Post-bind {ℓ κ μ ν ξ} :
    {E : Type κ} {A : Type ℓ} {B : Type μ} (Q : A → Type ν) (P : B → Type ξ) (m : Result E A)
    (f : A → Result E B)
    → Post Q m
    → ((a : A) → Q a → Post P (f a))
    → Post P (m >>= f)
Post-bind Q P (ok a) f q h = h a q
Post-bind Q P (err e) f q h = tt

pub Post-any {ℓ κ μ} :
    {E : Type κ} {A : Type ℓ} {B : Type μ} (P : B → Type 0) (m : Result E A) (f : A → Result E B)
    → ((a : A) → Post P (f a))
    → Post P (m >>= f)
Post-any P (ok a) f h = h a
Post-any P (err e) f h = tt

pub Post_elim {ℓ κ μ} :
    {E : Type κ} {A : Type ℓ} (P : A → Type μ) (m : Result E A) {a : A} → Post P m → m ≡ ok a → P a
Post_elim P m {a} p e = subst (Post P) e p

-- A chain that succeeds has succeeded at each step.
pub >>=-eq-ok {ℓ κ μ} :
    {E : Type κ} {A : Type ℓ} {B : Type μ} (step : Result E A) (next : A → Result E B) {last : B}
    → (step >>= next) ≡ ok last
    → (first : A) × (step ≡ ok first) × (next first ≡ ok last)
>>=-eq-ok (ok first) next whole = (first, refl, whole)
>>=-eq-ok (err e) next whole = cc
