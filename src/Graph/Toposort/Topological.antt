-- ===== src/Graph/Toposort/Topological.antt =====
-- Lists in which every target stands behind its dependencies.
use frostbuild.Base.{List, [], ◌∷◌, ◌++◌, some, In, All, ◌≡◌, ◌⊎◌, inl, inr, refl, sym, ap, subst}
use frostbuild.Base.Text.{Text, text_order}
use frostbuild.Base.BTreeMap.{BTreeMap, lookup}
use frostbuild.Manifest.{Target}
use frostbuild.Graph.Toposort.{pop}

-- A list in which each target is declared, new, and behind its dependencies.
abbrev pub IsTopological : BTreeMap Text Target → List Text → List Text → Type 0
IsTopological targets seen [] = Unit
IsTopological targets seen (x ∷ xs) =
    ((t : Target) × (lookup x targets ≡ some t) × All (λ d. In d seen) t.deps)
    × (¬ In x seen)
    × IsTopological targets (x ∷ seen) xs

pub All-of : (ys ds : List Text) → ((d : Text) → In d ds → In d ys) → All (λ d. In d ys) ds
All-of ys [] f = tt
All-of ys (d ∷ ds) f = (f d (inl refl), All-of ys ds (λ e m. f e (inr m)))

pub All-In :
    (xs ys ds : List Text)
    → ((x : Text) → In x xs → In x ys)
    → All (λ d. In d xs) ds
    → All (λ d. In d ys) ds
All-In xs ys [] f a = tt
All-In xs ys (d ∷ ds) f a = (f d a.0, All-In xs ys ds f a.1)

pub IsTopological-snoc :
    (targets : BTreeMap Text Target) (seen xs : List Text) (x : Text) (t : Target)
    → IsTopological targets seen xs
    → lookup x targets ≡ some t
    → ((d : Text) → In d t.deps → In d seen ⊎ In d xs)
    → ¬ In x seen
    → ¬ In x xs
    → IsTopological targets seen (xs ++ x ∷ [])
IsTopological-snoc targets seen [] x t topo found deps new new' = (
  (t, found, All-of seen t.deps (λ d m. elim (deps d m) [ inl i ↦ i | inr i ↦ elim i [ ] ])),
  new,
  tt,
)
IsTopological-snoc targets seen (y ∷ xs) x t topo found deps new new' = (
  topo.0,
  topo.1,
  IsTopological-snoc targets (y ∷ seen) xs x t topo.2 found
      (λ d m. elim (deps d m) [
        | inl i ↦ inl (inr i)
        | inr i ↦ elim i [ inl e ↦ inl (inl e) | inr j ↦ inr j ]
      ])
      (λ m. elim m [ inl e ↦ new' (inl e) | inr i ↦ new i ]) (λ m. new' (inr m)),
)

pub All-at : (ys ds : List Text) (d : Text) → All (λ d. In d ys) ds → In d ds → In d ys
All-at ys [] d a m = elim m [ ]
All-at ys (x ∷ ds) d a (inl e) = subst (λ k. In k ys) (sym e) a.0
All-at ys (x ∷ ds) d a (inr m) = All-at ys ds d a.1 m

pub pop-snoc : (path : List Text) (name : Text) → pop (path ++ name ∷ []) ≡ path
pop-snoc [] name = refl
pop-snoc (p ∷ []) name = refl
pop-snoc (p ∷ q ∷ path) name = ap (λ ps. p ∷ ps) (pop-snoc (q ∷ path) name)
