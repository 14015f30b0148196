-- ===== src/Tests/Codes.antt =====
-- Codecs of numbers, lists, options and pairs, from which the one of GraphCodec is made: each value in
-- front of what follows, a list behind its length.
use frostbuild.Base.{
  ℕ, zero, suc, Bool, true, false, List, [], ◌∷◌, Option, some, none, ◌≡◌, refl, ap, ◌∙◌, length,
  arith,
}
use frostbuild.Base.Text.{Text}
use frostbuild.Base.BTreeMap.{BTreeMap}
use frostbuild.GraphStore.{Bytes}

pub record Code (A : Type 0) : Type 0 where
  pub put : A → Bytes → Bytes
  pub get : Bytes → Option (A × Bytes)
  pub get-put : (a : A) (rest : Bytes) → get (put a rest) ≡ some (a, rest)

abbrev pub get_number : Bytes → Option (ℕ × Bytes)
get_number [] = none
get_number (n ∷ b) = some (n, b)

abbrev pub number : Code ℕ
number = record { put = λ n rest. n ∷ rest; get = get_number; get-put = λ n rest. refl }

unfoldable pub get_pair : {A B : Type 0} → Code A → Code B → Bytes → Option ((A × B) × Bytes)
get_pair c d b = elim (c.get b) [
  | none ↦ none
  | some (x, b1) ↦ elim (d.get b1) [ none ↦ none | some (y, b2) ↦ some ((x, y), b2) ]
]

pub get_pair-put :
    {A B : Type 0} (c : Code A) (d : Code B) (x : A) (y : B) (rest : Bytes)
    → get_pair c d (c.put x (d.put y rest)) ≡ some ((x, y), rest)
unfolding get_pair
get_pair-put c d x y rest = ground (arith, c.get-put x (d.put y rest), d.get-put y rest)

abbrev pub pair : {A B : Type 0} → Code A → Code B → Code (A × B)
pair c d = record {
  put = λ (x, y) rest. c.put x (d.put y rest);
  get = get_pair c d;
  get-put = λ (x, y) rest. get_pair-put c d x y rest;
}

abbrev pub put_all : {A : Type 0} → Code A → List A → Bytes → Bytes
put_all c [] rest = rest
put_all c (x ∷ xs) rest = c.put x (put_all c xs rest)

unfoldable pub get_all : {A : Type 0} → Code A → ℕ → Bytes → Option (List A × Bytes)
get_all c zero b = some ([], b)
get_all c (suc n) b = elim (c.get b) [
  | none ↦ none
  | some (x, b1) ↦ elim (get_all c n b1) [ none ↦ none | some (xs, b2) ↦ some (x ∷ xs, b2) ]
]

pub get_all-put_all :
    {A : Type 0} (c : Code A) (xs : List A) (rest : Bytes)
    → get_all c (length xs) (put_all c xs rest) ≡ some (xs, rest)
unfolding get_all
get_all-put_all c [] rest = refl
get_all-put_all c (x ∷ xs) rest =
    ground (arith, c.get-put x (put_all c xs rest), get_all-put_all c xs rest)

abbrev pub get_list : {A : Type 0} → Code A → Bytes → Option (List A × Bytes)
get_list c [] = none
get_list c (n ∷ b) = get_all c n b

abbrev pub list : {A : Type 0} → Code A → Code (List A)
list c = record {
  put = λ xs rest. length xs ∷ put_all c xs rest;
  get = get_list c;
  get-put = get_all-put_all c;
}

-- The first value that is read, through a function.
unfoldable pub read_as : {A B : Type 0} → (A → B) → Option (A × Bytes) → Option (B × Bytes)
read_as f none = none
read_as f (some (x, b)) = some (f x, b)

pub via-put :
    {A B : Type 0} (c : Code A) (to : B → A) (of : A → B)
    → ((y : B) → of (to y) ≡ y)
    → (y : B) (rest : Bytes) → read_as of (c.get (c.put (to y) rest)) ≡ some (y, rest)
unfolding read_as
via-put c to of inverse y rest =
    ap (read_as of) (c.get-put (to y) rest) ∙ ap (λ z. some (z, rest)) (inverse y)

abbrev pub via :
    {A B : Type 0} (c : Code A) (to : B → A) (of : A → B) → ((y : B) → of (to y) ≡ y) → Code B
via c to of inverse = record {
  put = λ y rest. c.put (to y) rest;
  get = λ b. read_as of (c.get b);
  get-put = via-put c to of inverse;
}

abbrev pub to_list : {A : Type 0} → Option A → List A
to_list none = []
to_list (some x) = x ∷ []

abbrev pub of_list : {A : Type 0} → List A → Option A
of_list [] = none
of_list (x ∷ _) = some x

pub of_list-to_list : {A : Type 0} (o : Option A) → of_list (to_list o) ≡ o
of_list-to_list none = refl
of_list-to_list (some x) = refl

abbrev pub option : {A : Type 0} → Code A → Code (Option A)
option c = via (list c) to_list of_list of_list-to_list

abbrev pub bool_to : Bool → ℕ
bool_to false = 0
bool_to true = 1

abbrev pub bool_of : ℕ → Bool
bool_of zero = false
bool_of (suc _) = true

pub bool_of-bool_to : (b : Bool) → bool_of (bool_to b) ≡ b
bool_of-bool_to false = refl
bool_of-bool_to true = refl

abbrev pub boolean : Code Bool
boolean = via number bool_to bool_of bool_of-bool_to

abbrev pub text : Code Text
text = list number

abbrev pub texts : Code (List Text)
texts = list text

abbrev pub text_map : Code (BTreeMap Text Text)
text_map = list (pair text text)

-- The value alone, where what was written starts with it.
unfoldable pub first : {A : Type 0} → Option (A × Bytes) → Option A
first none = none
first (some (x, b)) = some x

pub first-get : {A : Type 0} (c : Code A) (x : A) → first (c.get (c.put x [])) ≡ some x
unfolding first
first-get c x = ap first (c.get-put x [])
