-- ===== src/Graph/Toposort/Total.antt =====
-- On a manifest that was accepted, the sort returns an order or a cycle that the manifest has.
use frostbuild.Base.{
  suc, true, List, [], ◌∷◌, some, none, length, In, All, ◌≡◌, ◌≢◌, ◌⊎◌, inl, inr, sym, ap, subst,
  arith, Result, ok, err, Option-cases, ◌>>=◌,
}
use frostbuild.Base.Text.{Text, text_order, text_cmp_eq, text_cmp_refl}
use frostbuild.Base.BTreeMap.{BTreeMap, lookup, contains_key}
use frostbuild.Base.BTreeSet.{keys, contains_key_iff}
use frostbuild.Manifest.{Target, Manifest}
use frostbuild.Manifest.Validated.{HasKnownDeps, IsChecked}
use frostbuild.Graph.Toposort.{
  visiting, visited, TopoError, cycle, Sorting, all_unvisited, toposort_targets,
}
use frostbuild.Graph.Toposort.Sound.{all_unvisited-lookup}
use frostbuild.Graph.Toposort.Walk.{IsCycle}
use frostbuild.Graph.Toposort.Fuel.{
  IsClosed, IsReady, visit_each-Outcome, visit-Outcome, count-length,
}

lookup-In :
    (x : Text) (m : BTreeMap Text Target)
    → contains_key x m ≡ true
    → (t : Target) × (lookup x m ≡ some t)
unfolding contains_key
lookup-In x m h = elim (Option-cases (lookup x m)) [ inl e ↦ absurd (ground arith) | inr f ↦ f ]

All-known :
    (targets : BTreeMap Text Target) (name d : Text) (ds : List Text)
    → All (λ dep. (dep ≢ name) × In dep (keys targets)) ds
    → In d ds
    → In d (keys targets)
All-known targets name d [] a i = elim i [ ]
All-known targets name d (e ∷ ds) a (inl q) = subst (λ k. In k (keys targets)) (sym q) a.0.1
All-known targets name d (e ∷ ds) a (inr i) = All-known targets name d ds a.1 i

deps-In :
    (targets m : BTreeMap Text Target) (x d : Text) (t : Target)
    → All (HasKnownDeps targets) m
    → lookup x m ≡ some t
    → In d t.deps
    → In d (keys targets)
unfolding lookup
deps-In targets [] x d t a h i = cc
deps-In targets ((k, u) ∷ m) x d t a h i =
    ground
      (arith, text_cmp_eq x k, deps-In targets m x d t a.1, All-known targets u.name d u.deps a.0)

IsChecked-IsClosed : (m : Manifest) → IsChecked m → IsClosed m.targets (keys m.targets)
IsChecked-IsClosed m c = record {
  declared = λ x i. lookup-In x m.targets ((contains_key_iff x m.targets).1 i);
  deps = λ x d t h i. deps-In m.targets m.targets x d t c.deps h i;
}

all_unvisited-known :
    (names : List Text) (x : Text) → In x names → lookup x (all_unvisited names) ≢ none
unfolding lookup
all_unvisited-known [] x i = elim i [ ]
all_unvisited-known (n ∷ names) x i =
    λ e. ground (arith, all_unvisited-known names x, text_cmp_refl x)

-- On a manifest that was accepted the sort always returns: either an order, or an error with a cycle
-- that is really there, a walk along the dependencies from a target back to itself. It neither
-- looks up a missing target nor runs out of fuel.
pub toposort_targets-total :
    (m : Manifest)
    → IsChecked m
    → ((order : List Text) × (toposort_targets m.targets ≡ ok order))
      ⊎ ((c : List Text) × (toposort_targets m.targets ≡ err (cycle c)) × IsCycle m.targets c)
unfolding toposort_targets
toposort_targets-total m checked =
    let names = keys m.targets in
    let start : Sorting = record { states = all_unvisited names; path = []; order = [] } in
    let closed = IsChecked-IsClosed m checked in
    let ready : IsReady m.targets names closed start = record {
      sorting = record {
        ordered = tt;
        done_in = λ x e. absurd (cc (all_unvisited-lookup names x visited e));
        in_done = λ x i. elim i [ ];
      };
      on_path = λ x e. absurd (cc (all_unvisited-lookup names x visiting e));
      known = all_unvisited-known names;
    } in
    elim (visit_each-Outcome m.targets names closed (suc (length names)) names start
      (visit-Outcome m.targets names closed (suc (length names))) ready (λ d i. (tt, i))
      (omega (arith, count-length names (all_unvisited names)))) [
        | inl (s, e) ↦ inl (s.order, ap (λ (r : Result TopoError Sorting). r >>= λ s. ok s.order) e)
        | inr (c, e, is) ↦
            inr (c, ap (λ (r : Result TopoError Sorting). r >>= λ s. ok s.order) e, is)
      ]
