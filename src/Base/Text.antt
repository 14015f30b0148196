-- ===== src/Base/Text.antt =====
-- Rust's `String` and `&str` as lists of numbers: code points, or UTF-8 bytes where the code works
-- on bytes. Both orders agree with the byte order that `Ord for str` uses.
use Prim.Native.Nat.{ℕ, compare, Ordering}
use Prim.Native.Char.{code}
use Prim.Native.String.{String}
use mathlib.Core.Path.{◌≡◌, refl}
use mathlib.Core.Logic.{◌≢◌, ◌↔◌, ◌⊎◌, inl, inr}
use mathlib.Core.Bool.{Bool, true, false, ◌&&◌}
use mathlib.Core.List.{List, [], ◌∷◌}
use native.Mathlib.Omega.{arith}
use frostbuild.Base.Tests.{Bool-cases, ◌==◌}
use frostbuild.Base.Order.{Order}

abbrev pub Text : Type 0
Text = List ℕ

-- The code points of a literal.
abbrev pub codes : String → Text
codes String.[] = []
codes (String.◌∷◌ c s) = code c ∷ codes s

unfoldable pub text_eq : Text → Text → Bool
text_eq [] [] = true
text_eq (x ∷ xs) (y ∷ ys) = x == y && text_eq xs ys
text_eq _ _ = false

pub text_eq_iff : (a b : Text) → (text_eq a b ≡ true) ↔ (a ≡ b)
unfolding text_eq
text_eq_iff (x ∷ a) (y ∷ b) = ground (arith, text_eq_iff a b)
text_eq_iff _ _ = ground arith

pub text_eq_refl : (a : Text) → text_eq a a ≡ true
text_eq_refl a = (text_eq_iff a a).1 refl

-- The lexicographic order.
pub text_cases : (a b : Text) → (a ≡ b) ⊎ (a ≢ b)
text_cases a b = elim (Bool-cases (text_eq a b)) [
  | inl e ↦ inl ((text_eq_iff a b).0 e)
  | inr e ↦ inr (λ h. ground (arith, text_eq_iff a b))
]

unfoldable pub text_cmp : Text → Text → Ordering
text_cmp [] [] = Ordering.eq
text_cmp [] (y ∷ ys) = Ordering.lt
text_cmp (x ∷ xs) [] = Ordering.gt
text_cmp (x ∷ xs) (y ∷ ys) = elim (compare x y) [ Ordering.eq ↦ text_cmp xs ys | o ↦ o ]

pub text_cmp_refl : (a : Text) → text_cmp a a ≡ Ordering.eq
unfolding text_cmp
text_cmp_refl [] = refl
text_cmp_refl (x ∷ a) = ground (arith, text_cmp_refl a)

pub text_cmp_eq : (a b : Text) → text_cmp a b ≡ Ordering.eq → a ≡ b
unfolding text_cmp
text_cmp_eq (x ∷ a) (y ∷ b) h = ground (arith, text_cmp_eq a b)
text_cmp_eq _ _ h = ground arith

pub text_cmp_lt : (a b : Text) → text_cmp a b ≡ Ordering.lt → text_cmp b a ≡ Ordering.gt
unfolding text_cmp
text_cmp_lt (x ∷ a) (y ∷ b) h = ground (arith, text_cmp_lt a b)
text_cmp_lt _ _ h = ground arith

pub text_cmp_gt : (a b : Text) → text_cmp a b ≡ Ordering.gt → text_cmp b a ≡ Ordering.lt
unfolding text_cmp
text_cmp_gt (x ∷ a) (y ∷ b) h = ground (arith, text_cmp_gt a b)
text_cmp_gt _ _ h = ground arith

pub text_cmp_trans :
    (a b c : Text)
    → text_cmp a b ≡ Ordering.lt
    → text_cmp b c ≡ Ordering.lt
    → text_cmp a c ≡ Ordering.lt
unfolding text_cmp
text_cmp_trans (x ∷ a) (y ∷ b) (z ∷ c) h k = ground (arith, text_cmp_trans a b c)
text_cmp_trans _ _ _ h k = ground arith

instance abbrev pub text_order : Order Text
text_order = record {
  cmp = text_cmp;
  cmp_refl = text_cmp_refl;
  cmp_eq = text_cmp_eq;
  cmp_lt = text_cmp_lt;
  cmp_gt = text_cmp_gt;
  cmp_trans = text_cmp_trans;
}
