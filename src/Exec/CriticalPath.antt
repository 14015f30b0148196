-- ===== src/Exec/CriticalPath.antt =====
-- The walk along the dependents: it ends where they do not go round, and nowhere else.
use frostbuild.Base.{
  ℕ, zero, suc, ◌+◌, ◌<◌, ◌≤◌, List, [], ◌∷◌, some, none, get_or, ◌≡◌, ◌≢◌, ◌⊎◌, inl, inr, refl, ap,
  ◌∙◌, arith, In, Bool-cases, leb, if◌then◌else◌,
}
use frostbuild.Exec.Plan.{max_by_key, follow}

max_by_key-best :
    (key : ℕ → ℕ) (xs : List ℕ) (b : ℕ)
    → (r : ℕ) × (max_by_key key xs (some b) ≡ some r) × ((r ≡ b) ⊎ In r xs)
max_by_key-best key [] b = (b, refl, inl refl)
max_by_key-best key (i ∷ xs) b = elim (Bool-cases (leb (key b) (key i))) [
  | inl h ↦
      let (r, e, m) = max_by_key-best key xs i in
      (
        r,
        ap (λ c. max_by_key key xs (if c then some i else some b)) h ∙ e,
        elim m [ inl q ↦ inr (inl q) | inr n ↦ inr (inr n) ],
      )
  | inr h ↦
      let (r, e, m) = max_by_key-best key xs b in
      (
        r,
        ap (λ c. max_by_key key xs (if c then some i else some b)) h ∙ e,
        elim m [ inl q ↦ inl q | inr n ↦ inr (inr n) ],
      )
]

-- There is a maximum unless there is nothing, and it is one of them.
max_by_key-In :
    (key : ℕ → ℕ) (xs : List ℕ)
    → ((xs ≡ []) × (max_by_key key xs none ≡ none))
      ⊎ ((r : ℕ) × (max_by_key key xs none ≡ some r) × In r xs)
max_by_key-In key [] = inl (refl, refl)
max_by_key-In key (i ∷ xs) = inr (max_by_key-best key xs i)

-- Where the dependents of an action have a higher rank than the action, below a bound, the walk ends
-- within as many steps as the bound.
pub follow-total :
    (dependents : List (List ℕ)) (priority : List ℕ) (rank : ℕ → ℕ) (bound fuel cur : ℕ)
    → ((i d : ℕ) → In d (get_or dependents i []) → (rank i < rank d) × (rank d ≤ bound))
    → rank cur ≤ bound
    → bound < fuel + rank cur
    → (path : List ℕ) × (follow fuel dependents priority cur ≡ some path)
unfolding follow
follow-total dependents priority rank bound zero cur rises below enough = absurd (omega arith)
follow-total dependents priority rank bound (suc fuel) cur rises below enough =
    elim (max_by_key-In (λ d. get_or priority d 0) (get_or dependents cur [])) [
      | inl (_, e) ↦ (cur ∷ [], ground arith)
      | inr (next, e, m) ↦
          let up = rises cur next m in
          let (path, p) =
            follow-total dependents priority rank bound fuel next rises up.1 (omega (arith, up)) in
          (cur ∷ path, ground arith)
    ]

-- Where every action of a set has a dependent and all its dependents are in the set, the walk from an
-- action of the set has no end, however long it goes on.
pub follow_endless :
    (dependents : List (List ℕ)) (priority : List ℕ) (Round : ℕ → Type 0) (fuel cur : ℕ)
    → ((i : ℕ)
        → Round i
        → (get_or dependents i [] ≢ []) × ((d : ℕ) → In d (get_or dependents i []) → Round d))
    → Round cur
    → follow fuel dependents priority cur ≡ none
unfolding follow
follow_endless dependents priority Round zero cur goes h = refl
follow_endless dependents priority Round (suc fuel) cur goes h =
    elim (max_by_key-In (λ d. get_or priority d 0) (get_or dependents cur [])) [
      | inl (nil, e) ↦ absurd ((goes cur h).0 nil)
      | inr (next, e, m) ↦
          let rest =
            follow_endless dependents priority Round fuel next goes ((goes cur h).1 next m) in
          ground arith
    ]
