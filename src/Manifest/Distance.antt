-- ===== src/Manifest/Distance.antt =====
-- The edit distance is the least number of single-character edits, and `closest` takes the nearest.
use frostbuild.Base.{
  ℕ, suc, ◌+◌, ◌≤◌, min, List, [], ◌∷◌, ◌++◌, ◌≡◌, refl, sym, ap, ◌∙◌, subst, arith, leb, length,
  append-nil, inl, inr, Bool-cases, ◌⊎◌,
}
use frostbuild.Base.Text.{Text}
use frostbuild.Manifest.Closest.{first_row, mismatch, fill_row, fill_rows, last_cell, edit_distance}

-- A way to turn the first text into the second, with its number of edits.
pub data Edits : Text → Text → ℕ → Type 0 where
  done : {n : ℕ} → n ≡ 0 → Edits [] [] n
  delete : (x : ℕ) {a b : Text} {m n : ℕ} → Edits a b m → n ≡ m + 1 → Edits (x ∷ a) b n
  insert : (y : ℕ) {a b : Text} {m n : ℕ} → Edits a b m → n ≡ m + 1 → Edits a (y ∷ b) n
  replace :
      (x y : ℕ) {a b : Text} {m n : ℕ}
      → Edits a b m
      → n ≡ m + mismatch x y
      → Edits (x ∷ a) (y ∷ b) n

-- The distance by recursion on both texts.
distance : Text → Text → ℕ
distance [] b = length b
distance (x ∷ a) [] = suc (length a)
distance (x ∷ a) (y ∷ b) =
    min (min (distance a b + mismatch x y) (distance a (y ∷ b) + 1)) (distance (x ∷ a) b + 1)

insert_all : (b : Text) → Edits [] b (length b)
insert_all [] = done refl
insert_all (y ∷ b) = insert y (insert_all b) (omega arith)

delete_all : (a : Text) → Edits a [] (length a)
delete_all [] = done refl
delete_all (x ∷ a) = delete x (delete_all a) (omega arith)

least : (l m n : ℕ) → (min (min l m) n ≡ l) ⊎ ((min (min l m) n ≡ m) ⊎ (min (min l m) n ≡ n))
least l m n = elim (Bool-cases (leb l m)) [
  | inl e ↦ elim (Bool-cases (leb l n)) [
    | inl f ↦ inl (ground arith)
    | inr f ↦ inr (inr (ground arith))
  ]
  | inr e ↦ elim (Bool-cases (leb m n)) [
    | inl f ↦ inr (inl (ground arith))
    | inr f ↦ inr (inr (ground arith))
  ]
]

cheapest : (P : ℕ → Type 0) (l m n : ℕ) → P l → P m → P n → P (min (min l m) n)
cheapest P l m n p q r = elim (least l m n) [
  | inl e ↦ subst P (sym e) p
  | inr (inl e) ↦ subst P (sym e) q
  | inr (inr e) ↦ subst P (sym e) r
]

distance-Edits : (a b : Text) → Edits a b (distance a b)
unfolding distance
distance-Edits [] b = insert_all b
distance-Edits (x ∷ a) [] = delete_all (x ∷ a)
distance-Edits (x ∷ a) (y ∷ b) =
    cheapest (Edits (x ∷ a) (y ∷ b)) (distance a b + mismatch x y) (distance a (y ∷ b) + 1)
      (distance (x ∷ a) b + 1) (replace x y (distance-Edits a b) refl)
      (delete x (distance-Edits a (y ∷ b)) refl) (insert y (distance-Edits (x ∷ a) b) refl)

distance-nil : (a : Text) → distance a [] ≡ length a
unfolding distance
distance-nil [] = refl
distance-nil (x ∷ a) = refl

distance-delete : (x : ℕ) (a b : Text) → distance (x ∷ a) b ≤ distance a b + 1
unfolding distance
distance-delete x a [] = omega (arith, distance-nil a)
distance-delete x a (y ∷ b) = omega arith

distance-insert : (y : ℕ) (a b : Text) → distance a (y ∷ b) ≤ distance a b + 1
unfolding distance
distance-insert y [] b = omega arith
distance-insert y (x ∷ a) b = omega arith

distance-le : {a b : Text} {n : ℕ} → Edits a b n → distance a b ≤ n
unfolding distance
distance-le (done e) = omega arith
distance-le (delete x {a} {b} r e) = omega (arith, distance-le r, distance-delete x a b)
distance-le (insert y {a} {b} r e) = omega (arith, distance-le r, distance-insert y a b)
distance-le (replace x y r e) = omega (arith, distance-le r)

rev_onto : Text → Text → Text
rev_onto [] t = t
rev_onto (x ∷ s) t = rev_onto s (x ∷ t)

-- An edit script read backwards, put before another one.
Edits-rev_onto :
    {a b c d : Text} {m n : ℕ} (k : ℕ)
    → Edits a b m
    → Edits c d n
    → k ≡ m + n
    → Edits (rev_onto a c) (rev_onto b d) k
unfolding rev_onto
Edits-rev_onto {c} {d} {n} k (done e) s f = let q : n ≡ k = omega arith in subst (Edits c d) q s
Edits-rev_onto {n} k (delete x r e) s f =
    Edits-rev_onto k r (delete x {n = n + 1} s refl) (omega arith)
Edits-rev_onto {n} k (insert x r e) s f =
    Edits-rev_onto k r (insert x {n = n + 1} s refl) (omega arith)
Edits-rev_onto {n} k (replace x y r e) s f =
    Edits-rev_onto k r (replace x y {n = n + mismatch x y} s refl) (omega arith)

nil_rev_onto : (t : Text) → rev_onto [] t ≡ t
unfolding rev_onto
nil_rev_onto t = refl

rev_onto-rev_onto : (a c t : Text) → rev_onto (rev_onto a c) t ≡ rev_onto c (a ++ t)
unfolding rev_onto
rev_onto-rev_onto [] c t = refl
rev_onto-rev_onto (x ∷ a) c t = rev_onto-rev_onto a (x ∷ c) t

-- The row of the table for the characters read so far, both texts read backwards.
spec_row : Text → Text → Text → List ℕ
spec_row ra rb [] = distance ra rb ∷ []
spec_row ra rb (y ∷ b) = distance ra rb ∷ spec_row ra (y ∷ rb) b

spec_row-first : (rb b : Text) → first_row (length rb) b ≡ spec_row [] rb b
unfolding spec_row distance first_row
spec_row-first rb [] = refl
spec_row-first rb (y ∷ b) = ap (λ t. length rb ∷ t) (spec_row-first (y ∷ rb) b)

fill_row-spec_row :
    (x : ℕ) (ra rb b : Text)
    → fill_row x b (spec_row ra rb b) (distance (x ∷ ra) rb) ≡ spec_row (x ∷ ra) rb b
unfolding spec_row fill_row distance
fill_row-spec_row x ra rb [] = refl
fill_row-spec_row x ra rb (y ∷ []) = refl
fill_row-spec_row x ra rb (y ∷ z ∷ b) =
    ap (λ t. distance (x ∷ ra) rb ∷ t) (fill_row-spec_row x ra (y ∷ rb) (z ∷ b))

length-cons : (x : ℕ) (ra : Text) → length ra + 1 ≡ length (x ∷ ra)
length-cons x ra = omega arith

fill_rows-spec_row :
    (ra a b : Text) → fill_rows (length ra) a b (spec_row ra [] b) ≡ spec_row (rev_onto a ra) [] b
unfolding fill_rows rev_onto distance
fill_rows-spec_row ra [] b = refl
fill_rows-spec_row ra (x ∷ a) b =
    ap (λ n. fill_rows (length ra + 1) a b (fill_row x b (spec_row ra [] b) n)) (length-cons x ra)
    ∙ ap (λ row. fill_rows (length ra + 1) a b row) (fill_row-spec_row x ra [] b)
    ∙ ap (λ i. fill_rows i a b (spec_row (x ∷ ra) [] b)) (length-cons x ra)
    ∙ fill_rows-spec_row (x ∷ ra) a b

last_cell-spec_row : (ra rb b : Text) → last_cell (spec_row ra rb b) ≡ distance ra (rev_onto b rb)
unfolding spec_row rev_onto
last_cell-spec_row ra rb [] = refl
last_cell-spec_row ra rb (y ∷ []) = refl
last_cell-spec_row ra rb (y ∷ z ∷ b) = last_cell-spec_row ra (y ∷ rb) (z ∷ b)

rev_onto_twice : (a : Text) → rev_onto (rev_onto a []) [] ≡ a
rev_onto_twice a = rev_onto-rev_onto a [] [] ∙ nil_rev_onto (a ++ []) ∙ append-nil a

forwards : (a b : Text) → Edits a b (distance (rev_onto a []) (rev_onto b []))
forwards a b =
    let ra : Text = rev_onto a [] in
    let rb : Text = rev_onto b [] in
    subst (λ t. Edits t b (distance ra rb)) (rev_onto_twice a)
      (subst (λ t. Edits (rev_onto ra []) t (distance ra rb)) (rev_onto_twice b)
        (Edits-rev_onto (distance ra rb) (distance-Edits ra rb) (done refl) (omega arith)))

edit_distance-distance : (a b : Text) → edit_distance a b ≡ distance (rev_onto a []) (rev_onto b [])
unfolding edit_distance
edit_distance-distance a b =
    ap (λ row. last_cell (fill_rows 0 a b row)) (spec_row-first [] b)
    ∙ ap last_cell (fill_rows-spec_row [] a b)
    ∙ last_cell-spec_row (rev_onto a []) [] b

-- The table's last cell is the least number of single-character edits: there is a way to turn the
-- first text into the second with that many deletions, insertions and replacements, and every way
-- takes at least as many.
pub edit_distance-minimal :
    (a b : Text) → Edits a b (edit_distance a b) × ((n : ℕ) → Edits a b n → edit_distance a b ≤ n)
edit_distance-minimal a b =
    let ra : Text = rev_onto a [] in
    let rb : Text = rev_onto b [] in
    (
      subst (Edits a b) (sym (edit_distance-distance a b)) (forwards a b),
      λ n r.
          subst (λ d. d ≤ n) (sym (edit_distance-distance a b))
            (distance-le (Edits-rev_onto n r (done refl) (omega arith))),
    )
