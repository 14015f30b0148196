-- ===== src/ActionKey/Digits.antt =====
-- Decimal numbers are read back, and hold no NUL.
use frostbuild.Base.{
  ℕ, zero, suc, ◌+◌, ◌-◌, ◌*◌, ◌/◌, ◌%◌, ◌^◌, ◌<◌, ◌≡◌, refl, sym, ap, ◌∙◌, [], ◌∷◌, All, arith,
  ◌==◌, Bool-cases, inl, inr, true,
}
use native.Mathlib.Nat.{pow-suc}
use frostbuild.ActionKey.{Bytes, digits_onto, decimal}

abbrev number : ℕ → Bytes → ℕ
number acc [] = acc
number acc (d ∷ ds) = number (acc * 10 + (d - 48)) ds

last_digit : (n : ℕ) → n / 10 ≡ 0 → 0 * 10 + (48 + n % 10 - 48) ≡ n
last_digit n h = omega arith

all_digits : (n : ℕ) → n / 10 * 10 + (48 + n % 10 - 48) ≡ n
all_digits n = omega arith

number-digits_onto :
    (fuel n : ℕ) (acc : Bytes) → n < fuel → number 0 (digits_onto fuel n acc) ≡ number n acc
unfolding digits_onto
number-digits_onto zero n acc h = elim h [ ]
number-digits_onto (suc fuel) n acc h = elim (Bool-cases (n / 10 == 0)) [
  | inl e ↦ rw e (ap (λ k. number k acc) (last_digit n (ground arith)))
  | inr e ↦ rw e (
      number-digits_onto fuel (n / 10) ((48 + n % 10) ∷ acc) (ground arith)
      ∙ ap (λ k. number k acc) (all_digits n))
]

-- Decimal numbers determine what they stand for.
pub decimal-injective : (m n : ℕ) → decimal m ≡ decimal n → m ≡ n
unfolding decimal
decimal-injective m n e =
    sym (number-digits_onto (suc m) m [] (omega arith))
    ∙ ap (number 0) e
    ∙ number-digits_onto (suc n) n [] (omega arith)

digits_onto-positive :
    (fuel n : ℕ) (acc : Bytes) → All (λ d. 0 < d) acc → All (λ d. 0 < d) (digits_onto fuel n acc)
unfolding digits_onto
digits_onto-positive zero n acc h = h
digits_onto-positive (suc fuel) n acc h =
    ground (arith, digits_onto-positive fuel (n / 10) ((48 + n % 10) ∷ acc))

pub decimal-positive : (n : ℕ) → All (λ d. 0 < d) (decimal n)
unfolding decimal
decimal-positive n = digits_onto-positive (suc n) n [] tt

shorter : (k n : ℕ) → n < 10 ^ suc k → n / 10 < 10 ^ k
shorter k n h = let e = pow-suc 10 k in omega arith

one_digit : (n : ℕ) → n < 10 ^ 1 → (n / 10 == 0) ≡ true
one_digit n h = ground arith

-- More rounds than digits change nothing.
pub digits_onto-fuel :
    (f g n : ℕ) (acc : Bytes)
    → n < 10 ^ suc f
    → n < 10 ^ suc g
    → digits_onto (suc f) n acc ≡ digits_onto (suc g) n acc
unfolding digits_onto
digits_onto-fuel zero zero n acc h k = refl
digits_onto-fuel zero (suc g) n acc h k = rw (one_digit n h)
digits_onto-fuel (suc f) zero n acc h k = rw (one_digit n k)
digits_onto-fuel (suc f) (suc g) n acc h k = elim (Bool-cases (n / 10 == 0)) [
  | inl e ↦ rw e
  | inr e ↦ rw e (
      digits_onto-fuel f g (n / 10) ((48 + n % 10) ∷ acc) (shorter (suc f) n h)
        (shorter (suc g) n k))
]
