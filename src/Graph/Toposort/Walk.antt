-- ===== src/Graph/Toposort/Walk.antt =====
-- Walks along dependencies, and the cycle that `visit` cuts out of its path.
use frostbuild.Base.{
  ℕ, zero, suc, ◌+◌, List, [], ◌∷◌, ◌++◌, some, drop, In, ◌≡◌, inl, inr, sym, ap, ◌∙◌, arith,
}
use frostbuild.Base.Text.{Text, text_order, text_cases, text_eq_iff}
use frostbuild.Base.BTreeMap.{BTreeMap, lookup}
use frostbuild.Manifest.{Target}
use frostbuild.Graph.Toposort.{position_or, cycle_of}

abbrev pub DependsOn : BTreeMap Text Target → Text → Text → Type 0
DependsOn targets x y = (t : Target) × (lookup x targets ≡ some t) × In y t.deps

-- Each name depends on the next.
abbrev pub IsWalk : BTreeMap Text Target → List Text → Type 0
IsWalk targets [] = Unit
IsWalk targets (x ∷ []) = Unit
IsWalk targets (x ∷ y ∷ xs) = DependsOn targets x y × IsWalk targets (y ∷ xs)

-- A walk from a name back to itself.
pub record IsCycle (targets : BTreeMap Text Target) (c : List Text) : Type 0 where
  pub name : Text
  pub between : List Text
  pub closed : c ≡ name ∷ between ++ name ∷ []
  pub walk : IsWalk targets c

pub IsWalk-snoc :
    (targets : BTreeMap Text Target) (path : List Text) (x y : Text)
    → IsWalk targets (path ++ x ∷ [])
    → DependsOn targets x y
    → IsWalk targets ((path ++ x ∷ []) ++ y ∷ [])
IsWalk-snoc targets [] x y w d = (d, tt)
IsWalk-snoc targets (p ∷ []) x y w d = (w.0, (d, tt))
IsWalk-snoc targets (p ∷ q ∷ path) x y w d = (w.0, IsWalk-snoc targets (q ∷ path) x y w.1 d)

IsWalk-drop :
    (targets : BTreeMap Text Target) (k : ℕ) (path : List Text) (x : Text)
    → IsWalk targets (path ++ x ∷ [])
    → IsWalk targets (drop k path ++ x ∷ [])
IsWalk-drop targets zero path x w = w
IsWalk-drop targets (suc k) [] x w = w
IsWalk-drop targets (suc k) (p ∷ []) x w = IsWalk-drop targets k [] x tt
IsWalk-drop targets (suc k) (p ∷ q ∷ path) x w = IsWalk-drop targets k (q ∷ path) x w.1

position_or-In :
    (name : Text) (path : List Text) (i d : ℕ)
    → In name path
    → (k : ℕ) × (rest : List Text) × (position_or name path i d ≡ i + k)
      × (drop k path ≡ name ∷ rest)
unfolding position_or
position_or-In name [] i d m = elim m [ ]
position_or-In name (p ∷ path) i d m = elim (text_cases p name) [
  | inl e ↦ (0, path, ground (arith, text_eq_iff p name), ap (λ q. q ∷ path) e)
  | inr ne ↦
      let tail : In name path = elim m [ inl e ↦ absurd (ne (sym e)) | inr t ↦ t ] in
      let (k, rest, at, found) = position_or-In name path (i + 1) d tail in
      (suc k, rest, ground (arith, text_eq_iff p name), found)
]

plus_zero : (k : ℕ) → 0 + k ≡ k
plus_zero k = omega arith

pub cycle_of-IsCycle :
    (targets : BTreeMap Text Target) (name : Text) (path : List Text)
    → In name path
    → IsWalk targets (path ++ name ∷ [])
    → IsCycle targets (cycle_of name path)
unfolding cycle_of
cycle_of-IsCycle targets name path m w =
    let (k, rest, at, found) = position_or-In name path 0 0 m in
    record {
      name = name;
      between = rest;
      closed =
          ap (λ i. drop i path ++ name ∷ []) (at ∙ plus_zero k) ∙ ap (λ p. p ++ name ∷ []) found;
      walk = IsWalk-drop targets (position_or name path 0 0) path name w;
    }
