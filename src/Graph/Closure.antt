-- ===== src/Graph/Closure.antt =====
-- crates/frostbuild-core/src/graph.rs: the closures of the graph, each a loop over a stack. The loop is
-- on fuel; one more than the roots and all the edges is enough (Closure/Reach).
pub mod Reach
pub mod Exact
pub mod Targets
pub mod Actions
use frostbuild.Base.{
  ℕ, zero, suc, ◌+◌, Bool, true, false, not, List, [], ◌∷◌, ◌++◌, map, Option, some, none, length,
  get_elem?, if◌then◌else◌, Result, ok, err, ◌>>=◌, ◌>>◌, bail_if,
}
use frostbuild.Base.Order.{Order, nat_order}
use frostbuild.Base.Text.{Text, text_eq, text_order}
use frostbuild.Base.BTreeMap.{BTreeMap, lookup, insert, contains_key}
use frostbuild.Base.BTreeSet.{BTreeSet, keys}
use frostbuild.Graph.{
  ActionId, FileId, FileNode, ActionNode, TargetNode, BuildGraph, GraphError, index_out_of_bounds,
  unknown_target,
}

-- `Vec::extend` on a stack whose top is the head.
abbrev pub extend {ℓ} : {A : Type ℓ} → List A → List A → List A
extend [] stack = stack
extend (a ∷ more) stack = extend more (a ∷ stack)

-- How a loop over the stack ends: `stuck` is the panic of an index, `out_of_fuel` the model's own.
pub data Reached (K : Type 0) : Type 0 where
  reached : BTreeSet K → Reached K
  stuck out_of_fuel : Reached K

module _ {K : Type 0} ⦃o : Order K⦄ (next : K → Option (List K)) where
  -- `while let Some(a) = stack.pop() { if !selected.insert(a) { continue; } ... }`
  unfoldable pub reach : ℕ → List K → BTreeSet K → Reached K
  reach zero stack seen = out_of_fuel
  reach (suc fuel) [] seen = reached seen
  reach (suc fuel) (a ∷ stack) seen =
      let skip = reach fuel stack seen in
      let go = λ (more : List K). reach fuel (extend more stack) (insert a tt seen) in
      if contains_key a seen then skip else elim (next a) [ none ↦ stuck | some more ↦ go more ]

-- The producers of the files, in the order of the files.
abbrev pub producers : List FileNode → List FileId → Option (List ActionId)
producers files [] = some []
producers files (f ∷ inputs) = elim (get_elem? files f) [
  | none ↦ none
  | some node ↦ elim (producers files inputs) [
    | none ↦ none
    | some rest ↦ elim node.producer [ none ↦ some rest | some a ↦ some (a ∷ rest) ]
  ]
]

-- The actions that one action waits for.
unfoldable pub producers_of : BuildGraph → ActionId → Option (List ActionId)
producers_of g a = elim (get_elem? g.actions a) [
  | none ↦ none
  | some action ↦ producers g.files (action.inputs ++ action.order_only_inputs)
]

-- The loop that collects the actions of the targets.
unfoldable pub roots : BuildGraph → List Text → Result GraphError (List ActionId)
roots g [] = ok []
roots g (name ∷ targets) = elim (lookup name g.targets) [
  | none ↦ err (unknown_target name)
  | some t ↦ roots g targets >>= λ rest. ok (t.actions ++ rest)
]

unfoldable pub edges {ℓ} : {K : Type ℓ} → (K → Option (List K)) → List K → ℕ
edges next [] = 0
edges next (a ∷ nodes) = elim (next a) [ none ↦ 0 | some more ↦ length more ] + edges next nodes

abbrev pub numbers_below : ℕ → List ℕ
numbers_below zero = []
numbers_below (suc n) = n ∷ numbers_below n

-- The stack starts with the roots in order, so the last one is on top.
unfoldable pub action_closure : BuildGraph → List Text → Result GraphError (Reached ActionId)
action_closure g targets = do
  start ← roots g targets
  ok (
      reach (producers_of g)
        (suc (length start + edges (producers_of g) (numbers_below (length g.actions))))
        (extend start []) [])

abbrev pub deps_of : BTreeMap Text TargetNode → Text → Option (List Text)
deps_of targets name = elim (lookup name targets) [ none ↦ none | some t ↦ some t.deps ]

unfoldable pub deps_closure : BuildGraph → Text → Result GraphError (Reached Text)
deps_closure g root = do
  bail_if (not (contains_key root g.targets)) (unknown_target root)
  ok (
      reach (deps_of g.targets) (suc (1 + edges (deps_of g.targets) (keys g.targets))) (root ∷ [])
        [])

-- `dependents`: the targets that list the name, once for each time, in the order of the map.
abbrev pub listed : Text → Text → List Text → List Text
listed name user [] = []
listed name user (dep ∷ deps) =
    let rest = listed name user deps in if text_eq dep name then user ∷ rest else rest

abbrev pub dependents : BTreeMap Text TargetNode → Text → List Text
dependents [] name = []
dependents ((_, t) ∷ targets) name = listed name t.name t.deps ++ dependents targets name

abbrev pub users_of : BTreeMap Text TargetNode → Text → Option (List Text)
users_of targets name = some (dependents targets name)

unfoldable pub rdeps_closure : BuildGraph → Text → Result GraphError (Reached Text)
rdeps_closure g root = do
  bail_if (not (contains_key root g.targets)) (unknown_target root)
  ok (
      reach (users_of g.targets) (suc (1 + edges (users_of g.targets) (keys g.targets))) (root ∷ [])
        [])
