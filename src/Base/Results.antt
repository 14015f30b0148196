-- ===== src/Base/Results.antt =====
-- Fallible code: anyhow's `Result`, with the error kept as a value of the component's own type.
use mathlib.Core.Path.{◌≡◌, refl, subst}
use mathlib.Core.Logic.{◌⊎◌, inl, inr}
use mathlib.Core.Bool.{Bool, true, false}

pub data Result {ℓ κ} (E : Type κ) (A : Type ℓ) : Type (ℓ ⊔ κ) where
  ok : A → Result E A
  err : E → Result E A

-- `?` on the first result: the second is for the value of the first.
infixl 5 ◌>>=◌
abbrev pub ◌>>=◌ {ℓ κ μ} :
    {E : Type μ} {A : Type ℓ} {B : Type κ} → Result E A → (A → Result E B) → Result E B
err failure >>= then_do = err failure
ok value >>= then_do = then_do value

-- `check()?;` in front of the rest.
infixl 5 ◌>>◌
abbrev pub ◌>>◌ {κ μ} :
    {E : Type μ} {B : Type κ} (check : Result E (Unit {0})) (rest : Result E B) → Result E B
check >> rest = check >>= λ passed. rest

-- `if test { bail!(e) }`
abbrev pub bail_if {μ} : {E : Type μ} → Bool → E → Result E (Unit {0})
bail_if false message = ok tt
bail_if true message = err message

pub >>=-eq-ok {ℓ κ μ} :
    {E : Type μ} {A : Type ℓ} {B : Type κ} (first : Result E A) (then_do : A → Result E B) {b : B}
    → (first >>= then_do) ≡ ok b
    → (value : A) × (first ≡ ok value) × (then_do value ≡ ok b)
>>=-eq-ok (err failure) then_do e = cc
>>=-eq-ok (ok value) then_do e = (value, refl, e)

pub Result-cases {ℓ μ} :
    {E : Type μ} {A : Type ℓ} (m : Result E A) → ((a : A) × (m ≡ ok a)) ⊎ ((e : E) × (m ≡ err e))
Result-cases (ok a) = inl (a, refl)
Result-cases (err e) = inr (e, refl)

pub ok_injective {ℓ μ} :
    {E : Type μ} {A : Type ℓ} {a b : A} → Path (Result E A) (ok a) (ok b) → a ≡ b
ok_injective e = cc

-- What a result satisfies if it is no error.
abbrev pub Ensures {ℓ κ μ} : {E : Type μ} {A : Type ℓ} → (A → Type κ) → Result E A → Type κ
Ensures P (ok a) = P a
Ensures P (err e) = Unit

pub >>=-Ensures {ℓ κ μ ν ξ} :
    {E : Type μ} {A : Type ℓ} {B : Type κ} (Q : A → Type ν) (P : B → Type ξ) (first : Result E A)
    (then_do : A → Result E B)
    → Ensures Q first
    → ((a : A) → Q a → Ensures P (then_do a))
    → Ensures P (first >>= then_do)
>>=-Ensures Q P (ok a) then_do h k = k a h
>>=-Ensures Q P (err e) then_do h k = tt

-- Behind a result of which nothing is known.
pub >>=-Ensures_any {ℓ κ μ ξ} :
    {E : Type μ} {A : Type ℓ} {B : Type κ} (P : B → Type ξ) (first : Result E A)
    (then_do : A → Result E B)
    → ((a : A) → Ensures P (then_do a))
    → Ensures P (first >>= then_do)
>>=-Ensures_any P (ok a) then_do k = k a
>>=-Ensures_any P (err e) then_do k = tt

pub Ensures-ok {ℓ κ μ} :
    {E : Type μ} {A : Type ℓ} (P : A → Type κ) (r : Result E A) {a : A}
    → Ensures P r
    → r ≡ ok a
    → P a
Ensures-ok P (ok b) h e = subst P (ok_injective e) h
Ensures-ok P (err f) h e = absurd (cc)
