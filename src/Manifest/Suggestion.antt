-- ===== src/Manifest/Suggestion.antt =====
-- `closest` names the nearest candidate, and only one within its budget.
use frostbuild.Base.{
  ℕ, ◌+◌, ◌/◌, ◌≤◌, ◌<◌, Bool, true, false, List, [], ◌∷◌, Option, some, none, ◌≡◌, refl, sym, ap,
  ◌∙◌, ◌⊎◌, inl, inr, arith, ltb, leb, if◌then◌else◌, length, In, All, Bool-cases, ltb→lt, leb→le,
  subst,
}
use frostbuild.Base.Text.{Text}
use frostbuild.Manifest.Closest.{edit_distance, best_of, within_budget, closest}

-- What a best pair is against candidates and an earlier best pair.
record Best (input : Text) (candidates : List Text) (d : ℕ) (c : Text) (r : ℕ × Text) : Type 0 where
  no_worse : r.0 ≤ d
  found : ((r.0 ≡ d) × (r.1 ≡ c)) ⊎ (In r.1 candidates × (r.0 ≡ edit_distance input r.1))
  least : All (λ x. r.0 ≤ edit_distance input x) candidates

le_of_not_ltb : (a b : ℕ) → ltb a b ≡ false → b ≤ a
le_of_not_ltb a b h = ground arith

nearer :
    {input : Text} {cs : List Text} {d : ℕ} {c x : Text} {r : ℕ × Text}
    → edit_distance input x < d
    → Best input cs (edit_distance input x) x r
    → Best input (x ∷ cs) d c r
nearer {input} {cs} {d} {c} {x} {r} h b = record {
  no_worse = omega (arith, b.no_worse);
  found = inr (elim b.found [
    | inl (e, f) ↦ (inl f, e ∙ ap (edit_distance input) (sym f))
    | inr (m, e) ↦ (inr m, e)
  ]);
  least = (b.no_worse, b.least);
}

no_nearer :
    {input : Text} {cs : List Text} {d : ℕ} {c x : Text} {r : ℕ × Text}
    → d ≤ edit_distance input x
    → Best input cs d c r
    → Best input (x ∷ cs) d c r
no_nearer h b = record {
  no_worse = b.no_worse;
  found = elim b.found [ inl f ↦ inl f | inr (m, e) ↦ inr (inr m, e) ];
  least = (omega (arith, b.no_worse), b.least);
}

best_of-Best :
    (input : Text) (cs : List Text) (d : ℕ) (c : Text)
    → (r : ℕ × Text) × (best_of input cs (some (d, c)) ≡ some r) × Best input cs d c r
unfolding best_of
best_of-Best input [] d c =
    ((d, c), refl, record { no_worse = omega arith; found = inl (refl, refl); least = tt })
best_of-Best input (x ∷ cs) d c = elim (Bool-cases (ltb (edit_distance input x) d)) [
  | inl e ↦
      let (r, run, b) = best_of-Best input cs (edit_distance input x) x in
      (r, ground arith, nearer (ltb→lt (edit_distance input x) d e) b)
  | inr e ↦
      let (r, run, b) = best_of-Best input cs d c in
      (r, ground arith, no_nearer (le_of_not_ltb (edit_distance input x) d e) b)
]

-- What a suggestion has to be: none when every candidate is too far away, and else a candidate
-- within the budget that no other one beats.
abbrev pub Suggests : Text → List Text → Option Text → Type 0
Suggests input candidates none = All (λ c. 1 + length input / 3 < edit_distance input c) candidates
Suggests input candidates (some name) =
    In name candidates
    × (edit_distance input name ≤ 1 + length input / 3)
    × All (λ c. edit_distance input name ≤ edit_distance input c) candidates

best_of-none :
    (input : Text) (x : Text) (cs : List Text)
    → best_of input (x ∷ cs) none ≡ best_of input cs (some (edit_distance input x, x))
unfolding best_of
best_of-none input x cs = refl

All-far :
    (input : Text) (n m : ℕ) (cs : List Text)
    → n < m
    → All (λ c. m ≤ edit_distance input c) cs
    → All (λ c. n < edit_distance input c) cs
All-far input n m [] h a = tt
All-far input n m (c ∷ cs) h a = (omega arith, All-far input n m cs h a.1)

All-least :
    (input : Text) (n m : ℕ) (cs : List Text)
    → n ≡ m
    → All (λ c. n ≤ edit_distance input c) cs
    → All (λ c. m ≤ edit_distance input c) cs
All-least input n m [] e a = tt
All-least input n m (c ∷ cs) e a = (omega arith, All-least input n m cs e a.1)

judged :
    (input : Text) (cs : List Text) (d : ℕ) (name : Text)
    → In name cs
    → d ≡ edit_distance input name
    → All (λ c. d ≤ edit_distance input c) cs
    → (t : Bool) → leb d (1 + length input / 3) ≡ t
    → Suggests input cs (if t then some name else none)
judged input cs d name m e a true h =
    let near : d ≤ 1 + length input / 3 = leb→le d (1 + length input / 3) h in
    (m, omega arith, All-least input d (edit_distance input name) cs e a)
judged input cs d name m e a false h =
    let far : 1 + length input / 3 < d = ground arith in
    All-far input (1 + length input / 3) d cs far a

Best-Suggests :
    (input : Text) (x : Text) (cs : List Text) (r : ℕ × Text)
    → Best input cs (edit_distance input x) x r
    → Suggests input (x ∷ cs) (within_budget (1 + length input / 3) (some r))
Best-Suggests input x cs r b =
    let nearest : In r.1 (x ∷ cs) × (r.0 ≡ edit_distance input r.1) = elim b.found [
      | inl (e, f) ↦ (inl f, e ∙ ap (edit_distance input) (sym f))
      | inr (m, e) ↦ (inr m, e)
    ] in
    judged input (x ∷ cs) r.0 r.1 nearest.0 nearest.1 (b.no_worse, b.least)
      (leb r.0 (1 + length input / 3)) refl

nothing_to_suggest :
    (input : Text)
    → Suggests input [] (within_budget (1 + length input / 3) (best_of input [] none))
unfolding best_of
nothing_to_suggest input = tt

-- The hint for a misspelt name is right: if there is none, every candidate is more than
-- `1 + length / 3` edits away, and else it is one of the candidates, no further away than that,
-- and no candidate is nearer.
pub closest-Suggests :
    (input : Text) (candidates : List Text) → Suggests input candidates (closest input candidates)
unfolding closest
closest-Suggests input [] = nothing_to_suggest input
closest-Suggests input (x ∷ cs) =
    let (r, run, b) = best_of-Best input cs (edit_distance input x) x in
    subst (λ o. Suggests input (x ∷ cs) (within_budget (1 + length input / 3) o))
      (sym (best_of-none input x cs ∙ run)) (Best-Suggests input x cs r b)
