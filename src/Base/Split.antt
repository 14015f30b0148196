-- ===== src/Base/Split.antt =====
-- `str::split` by a character and `[&str]::join`, and how they undo one another.
use Prim.Native.Nat.{ℕ}
use mathlib.Core.Path.{◌≡◌, refl, ap, ◌∙◌}
use mathlib.Core.Logic.{◌≢◌}
use mathlib.Core.Bool.{Bool, false, ◌||◌}
use mathlib.Core.List.{List, [], ◌∷◌, ◌++◌}
use native.Mathlib.Omega.{arith}
use frostbuild.Base.Tests.{◌==◌, if◌then◌else◌}
use frostbuild.Base.Lists.{All}
use frostbuild.Base.Text.{Text}

unfoldable pub contains_char : ℕ → Text → Bool
contains_char c [] = false
contains_char c (x ∷ xs) = x == c || contains_char c xs

-- Puts a character in front of the first part.
abbrev pub cons_head : ℕ → List Text → List Text
cons_head c [] = (c ∷ []) ∷ []
cons_head c (p ∷ ps) = (c ∷ p) ∷ ps

unfoldable pub split : ℕ → Text → List Text
split sep [] = [] ∷ []
split sep (c ∷ cs) = let rest = split sep cs in if c == sep then [] ∷ rest else cons_head c rest

unfoldable pub join : Text → List Text → Text
join sep [] = []
join sep (p ∷ []) = p
join sep (p ∷ q ∷ ps) = p ++ (sep ++ join sep (q ∷ ps))

pub split-ne-nil : (sep : ℕ) (s : Text) → split sep s ≢ []
unfolding split
split-ne-nil sep [] = ground arith
split-ne-nil sep (c ∷ cs) = ground (arith, split-ne-nil sep cs)

join-cons_head : (sep : Text) (c : ℕ) (ps : List Text) → join sep (cons_head c ps) ≡ c ∷ join sep ps
unfolding join
join-cons_head sep c [] = refl
join-cons_head sep c (p ∷ []) = refl
join-cons_head sep c (p ∷ q ∷ ps) = refl

join-nil_head :
    (sep : ℕ) (p : Text) (ps : List Text)
    → join (sep ∷ []) ([] ∷ p ∷ ps) ≡ sep ∷ join (sep ∷ []) (p ∷ ps)
unfolding join
join-nil_head sep p ps = refl

pub join-split : (sep : ℕ) (s : Text) → join (sep ∷ []) (split sep s) ≡ s
unfolding split
join-split sep [] = unfold join in refl
join-split sep (c ∷ cs) = go (split sep cs) (split-ne-nil sep cs) (join-split sep cs)
  where
    go :
        (ps : List Text)
        → ps ≢ []
        → join (sep ∷ []) ps ≡ cs
        → join (sep ∷ []) (if c == sep then [] ∷ ps else cons_head c ps) ≡ c ∷ cs
    go [] ne e = absurd (ne refl)
    go (p ∷ ps) ne e = ground (arith, join-cons_head (sep ∷ []) c (p ∷ ps), join-nil_head sep p ps)

-- No part of a split holds the separator.
pub split-free : (sep : ℕ) (s : Text) → All (λ p. contains_char sep p ≡ false) (split sep s)
unfolding split contains_char
split-free sep [] = (refl, tt)
split-free sep (c ∷ cs) = go (split sep cs) (split-ne-nil sep cs) (split-free sep cs)
  where
    go :
        (ps : List Text)
        → ps ≢ []
        → All (λ p. contains_char sep p ≡ false) ps
        → All (λ p. contains_char sep p ≡ false) (if c == sep then [] ∷ ps else cons_head c ps)
    go [] ne e = absurd (ne refl)
    go (p ∷ ps) ne e = ground arith

split_free_part : (sep : ℕ) (p : Text) → contains_char sep p ≡ false → split sep p ≡ p ∷ []
unfolding split contains_char
split_free_part sep [] h = refl
split_free_part sep (c ∷ p) h = ground (arith, split_free_part sep p)

split_part :
    (sep : ℕ) (p rest : Text)
    → contains_char sep p ≡ false
    → split sep (p ++ sep ∷ rest) ≡ p ∷ split sep rest
unfolding split contains_char
split_part sep [] rest h = ground arith
split_part sep (c ∷ p) rest h = ground (arith, split_part sep p rest)

pub split-join :
    (sep : ℕ) (ps : List Text)
    → ps ≢ []
    → All (λ p. contains_char sep p ≡ false) ps
    → split sep (join (sep ∷ []) ps) ≡ ps
unfolding join
split-join sep [] ne h = absurd (ne refl)
split-join sep (p ∷ []) ne h = split_free_part sep p h.0
split-join sep (p ∷ q ∷ ps) ne h =
    split_part sep p (join (sep ∷ []) (q ∷ ps)) h.0
    ∙ ap (◌∷◌ p) (split-join sep (q ∷ ps) (ground arith) h.1)

pub contains_char-append :
    (c : ℕ) (xs ys : Text) → contains_char c (xs ++ ys) ≡ contains_char c xs || contains_char c ys
unfolding contains_char
contains_char-append c [] ys = refl
contains_char-append c (x ∷ xs) ys = ground (arith, contains_char-append c xs ys)
