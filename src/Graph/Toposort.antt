-- ===== src/Graph/Toposort.antt =====
-- crates/frostbuild-core/src/graph.rs: `toposort_targets`. The recursion of `visit` is on fuel; one more
-- than the number of targets is enough (Toposort/Fuel).
pub mod Topological
pub mod Sound
pub mod Walk
pub mod Fuel
pub mod Total
use frostbuild.Base.{
  ℕ, zero, suc, ◌+◌, Bool, true, false, List, [], ◌∷◌, ◌++◌, Option, some, none, drop, length,
  if◌then◌else◌, Result, ok, err, ◌>>=◌,
}
use frostbuild.Base.Text.{Text, text_eq, text_order}
use frostbuild.Base.BTreeMap.{BTreeMap, lookup, insert}
use frostbuild.Base.BTreeSet.{keys}
use frostbuild.Manifest.{Target}

pub data State : Type 0 where
  unvisited visiting visited : State

-- `missing` is the panic of indexing a map without the key, `out_of_fuel` the model's own.
pub data TopoError : Type 0 where
  cycle : List Text → TopoError
  missing : Text → TopoError
  out_of_fuel : TopoError

pub record Sorting : Type 0 where
  pub states : BTreeMap Text State
  pub path : List Text
  pub order : List Text

-- `path.iter().position(|p| p == name).unwrap_or(0)`
unfoldable pub position_or : Text → List Text → ℕ → ℕ → ℕ
position_or name [] i default = default
position_or name (p ∷ path) i default =
    let rest = position_or name path (i + 1) default in if text_eq p name then i else rest

unfoldable pub cycle_of : Text → List Text → List Text
unfolding position_or
cycle_of name path = drop (position_or name path 0 0) path ++ name ∷ []

abbrev pub enter : Text → Sorting → Sorting
enter name s = record {
  states = insert name visiting s.states;
  path = s.path ++ name ∷ [];
  order = s.order;
}

-- `Vec::pop`
abbrev pub pop : List Text → List Text
pop [] = []
pop (p ∷ []) = []
pop (p ∷ q ∷ path) = p ∷ pop (q ∷ path)

abbrev pub leave : Text → Sorting → Sorting
leave name s = record {
  states = insert name visited s.states;
  path = pop s.path;
  order = s.order ++ name ∷ [];
}

-- A loop that visits each name and stops at the first error.
unfoldable pub visit_each :
    (Text → Sorting → Result TopoError Sorting) → List Text → Sorting → Result TopoError Sorting
visit_each visit_one [] s = ok s
visit_each visit_one (name ∷ names) s = do s' ← visit_one name s; visit_each visit_one names s'

unfoldable pub visit : ℕ → BTreeMap Text Target → Text → Sorting → Result TopoError Sorting
unfolding visit_each cycle_of
visit zero targets name s = err out_of_fuel
visit (suc fuel) targets name s =
    let go = visit fuel targets in
    elim (lookup name s.states) [
      | none ↦ err (missing name)
      | some visited ↦ ok s
      | some visiting ↦ err (cycle (cycle_of name s.path))
      | some unvisited ↦ elim (lookup name targets) [
        | none ↦ err (missing name)
        | some target ↦ visit_each go target.deps (enter name s) >>= λ s'. ok (leave name s')
      ]
    ]

abbrev pub all_unvisited : List Text → BTreeMap Text State
all_unvisited [] = []
all_unvisited (name ∷ names) = (name, unvisited) ∷ all_unvisited names

unfoldable pub toposort_targets : BTreeMap Text Target → Result TopoError (List Text)
unfolding visit
toposort_targets targets =
    let names = keys targets in
    visit_each (visit (suc (length names)) targets) names
      (record { states = all_unvisited names; path = []; order = [] })
    >>= λ s. ok s.order
