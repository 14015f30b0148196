-- ===== src/Manifest/Names.antt =====
-- The names a manifest may use, and the test for a name written twice.
use frostbuild.Base.{
  ℕ, Ordering, Bool, true, false, not, ◌&&◌, ◌||◌, List, [], ◌∷◌, Option, some, none, ◌≡◌, ◌≢◌, ◌↔◌,
  ◌⊎◌, inl, inr, sym, subst, arith, leb, ◌==◌, if◌then◌else◌, is_empty, all, In,
}
use frostbuild.Base.Text.{
  Text, text_eq, text_eq_iff, text_cmp, text_cmp_gt, text_cmp_lt, text_cmp_refl, text_cmp_eq,
}
use frostbuild.Depfile.{is_whitespace}

abbrev pub is_some {ℓ} : {A : Type ℓ} → Option A → Bool
is_some none = false
is_some (some _) = true

abbrev between : ℕ → ℕ → ℕ → Bool
between low c high = leb low c && leb c high

-- `char::is_ascii_alphabetic` and `char::is_ascii_alphanumeric`
abbrev pub is_ascii_alphabetic : ℕ → Bool
is_ascii_alphabetic c = between b'a' c b'z' || between b'A' c b'Z'

abbrev pub is_ascii_alphanumeric : ℕ → Bool
is_ascii_alphanumeric c = is_ascii_alphabetic c || between b'0' c b'9'

unfoldable pub valid_target_name : Text → Bool
valid_target_name name =
    not (is_empty name) && all (λ c. is_ascii_alphanumeric c || (c == b'_' || c == b'-')) name

unfoldable pub valid_env_name : Text → Bool
valid_env_name [] = false
valid_env_name (first ∷ chars) =
    (first == b'_' || is_ascii_alphabetic first)
    && all (λ c. c == b'_' || is_ascii_alphanumeric c) chars

-- `str::trim`
abbrev trim_start : Text → Text
trim_start [] = []
trim_start (c ∷ s) = let rest = trim_start s in if is_whitespace c then rest else c ∷ s

abbrev trim_end : Text → Text
trim_end [] = []
trim_end (c ∷ s) = elim (trim_end s) [ [] ↦ if is_whitespace c then [] else c ∷ [] | t ↦ c ∷ t ]

unfoldable pub trim : Text → Text
trim s = trim_end (trim_start s)

-- `str::starts_with`, `ends_with` and `contains` of a text.
abbrev pub starts_with : Text → Text → Bool
starts_with s [] = true
starts_with [] (p ∷ ps) = false
starts_with (c ∷ s) (p ∷ ps) = c == p && starts_with s ps

unfoldable pub contains : Text → Text → Bool
contains [] p = starts_with [] p
contains (c ∷ s) p = starts_with (c ∷ s) p || contains s p

unfoldable pub ends_with : Text → Text → Bool
unfolding text_eq
ends_with [] p = text_eq [] p
ends_with (c ∷ s) p = text_eq (c ∷ s) p || ends_with s p

-- `[String]::sort`
abbrev sort_in : Text → List Text → List Text
sort_in a [] = a ∷ []
sort_in a (b ∷ xs) = elim (text_cmp a b) [ Ordering.gt ↦ b ∷ sort_in a xs | _ ↦ a ∷ b ∷ xs ]

abbrev sort : List Text → List Text
sort [] = []
sort (x ∷ xs) = sort_in x (sort xs)

-- `windows(2).any(|pair| pair[0] == pair[1])`
abbrev adjacent_twice : List Text → Bool
adjacent_twice [] = false
adjacent_twice (a ∷ []) = false
adjacent_twice (a ∷ b ∷ xs) = text_eq a b || adjacent_twice (b ∷ xs)

unfoldable pub contains_duplicate : List Text → Bool
contains_duplicate names = adjacent_twice (sort names)

-- No name stands twice.
abbrev pub NoDup : List Text → Type 0
NoDup [] = Unit
NoDup (x ∷ xs) = (¬ In x xs) × NoDup xs

In-sort_in : (a x : Text) (xs : List Text) → In a (sort_in x xs) ↔ ((a ≡ x) ⊎ In a xs)
In-sort_in a x [] = ground arith
In-sort_in a x (y ∷ xs) = ground (arith, In-sort_in a x xs)

In-sort : (a : Text) (xs : List Text) → In a (sort xs) ↔ In a xs
In-sort a [] = ground arith
In-sort a (x ∷ xs) = ground (arith, In-sort a xs, In-sort_in a x (sort xs))

-- Every text of the list is above, or not below.
abbrev NotBelow : Text → List Text → Type 0
NotBelow a [] = Unit
NotBelow a (b ∷ xs) = (text_cmp a b ≢ Ordering.gt) × NotBelow a xs

abbrev Ascends : List Text → Type 0
Ascends [] = Unit
Ascends (a ∷ xs) = NotBelow a xs × Ascends xs

not_above_trans :
    (a b c : Text)
    → text_cmp a b ≢ Ordering.gt
    → text_cmp b c ≢ Ordering.gt
    → text_cmp a c ≢ Ordering.gt
unfolding text_cmp
not_above_trans (x ∷ a) (y ∷ b) (z ∷ c) h k = ground (arith, not_above_trans a b c)
not_above_trans _ _ _ h k = ground arith

NotBelow-trans :
    (a b : Text) (xs : List Text) → text_cmp a b ≢ Ordering.gt → NotBelow b xs → NotBelow a xs
NotBelow-trans a b [] h n = tt
NotBelow-trans a b (c ∷ xs) h n = (not_above_trans a b c h n.0, NotBelow-trans a b xs h n.1)

NotBelow-sort_in :
    (a x : Text) (xs : List Text)
    → text_cmp a x ≢ Ordering.gt
    → NotBelow a xs
    → NotBelow a (sort_in x xs)
NotBelow-sort_in a x [] h n = (h, tt)
NotBelow-sort_in a x (y ∷ xs) h n = ground (arith, NotBelow-sort_in a x xs h n.1)

sort_in-Ascends : (x : Text) (xs : List Text) → Ascends xs → Ascends (sort_in x xs)
sort_in-Ascends x [] s = (tt, tt)
sort_in-Ascends x (y ∷ xs) s = ground (
  arith,
  NotBelow-trans x y xs,
  NotBelow-sort_in y x xs,
  sort_in-Ascends x xs s.1,
  text_cmp_gt x y,
)

sort-Ascends : (xs : List Text) → Ascends (sort xs)
sort-Ascends [] = tt
sort-Ascends (x ∷ xs) = sort_in-Ascends x (sort xs) (sort-Ascends xs)

NotBelow-In : (b a : Text) (xs : List Text) → NotBelow b xs → In a xs → text_cmp b a ≢ Ordering.gt
NotBelow-In b a [] n m = elim m [ ]
NotBelow-In b a (x ∷ xs) n (inl e) = subst (λ c. text_cmp b c ≢ Ordering.gt) (sym e) n.0
NotBelow-In b a (x ∷ xs) n (inr m) = NotBelow-In b a xs n.1 m

-- What stands behind a text that is not below it is below no other text in front.
In-Ascends :
    (a b : Text) (xs : List Text) → Ascends (b ∷ xs) → text_cmp a b ≢ Ordering.gt → In a xs → a ≡ b
In-Ascends a b xs s h m =
    let k : text_cmp b a ≢ Ordering.gt = NotBelow-In b a xs s.0 m in
    ground (arith, text_cmp_eq a b, text_cmp_lt a b)

-- In an ascending list a name that stands twice stands next to itself.
adjacent_twice_iff : (xs : List Text) → Ascends xs → (adjacent_twice xs ≡ false) ↔ NoDup xs
adjacent_twice_iff [] s = ground arith
adjacent_twice_iff (a ∷ []) s = ground arith
adjacent_twice_iff (a ∷ b ∷ xs) s = ground (
  arith,
  adjacent_twice_iff (b ∷ xs) s.1,
  text_eq_iff a b,
  In-Ascends a b xs s.1,
  s.0.0,
  text_cmp_eq a b,
)

NoDup-sort_in : (x : Text) (xs : List Text) → NoDup (sort_in x xs) ↔ ((¬ In x xs) × NoDup xs)
NoDup-sort_in x [] = ground arith
NoDup-sort_in x (y ∷ xs) = ground (arith, NoDup-sort_in x xs, In-sort_in y x xs, text_cmp_refl x)

NoDup-sort : (xs : List Text) → NoDup (sort xs) ↔ NoDup xs
NoDup-sort [] = ground arith
NoDup-sort (x ∷ xs) = ground (arith, NoDup-sort_in x (sort xs), NoDup-sort xs, In-sort x xs)

-- The test on the sorted names finds a repeated name exactly when there is one.
pub contains_duplicate_iff : (names : List Text) → (contains_duplicate names ≡ false) ↔ NoDup names
unfolding contains_duplicate
contains_duplicate_iff names =
    ground (arith, adjacent_twice_iff (sort names) (sort-Ascends names), NoDup-sort names)
