-- ===== src/Graph/SharedSet.antt =====
-- crates/frostbuild-core/src/graph.rs: `SharedSet`. The nodes that `Rc` shares stand in a list, and
-- a reference is a place in it, so two references are the same pointer where the places are equal.
pub mod Values
pub mod Preorder
pub mod Total
use frostbuild.Base.{
  ℕ, zero, suc, ◌+◌, List, [], ◌∷◌, ◌++◌, Option, some, none, get_elem?, length, if◌then◌else◌,
}
use frostbuild.Base.Order.{nat_order}
use frostbuild.Base.Text.{Text, text_order}
use frostbuild.Base.BTreeMap.{insert, contains_key}
use frostbuild.Base.BTreeSet.{BTreeSet}
use frostbuild.Graph.Closure.{extend, edges, numbers_below}

pub record SharedSet : Type 0 where
  pub own : List Text
  pub parents : List ℕ

-- `SharedSet::join`: a new node, and the reference to it.
unfoldable pub join_set : List Text → List ℕ → List SharedSet → List SharedSet × ℕ
join_set own parents sets = (sets ++ record { own = own; parents = parents } ∷ [], length sets)

-- The loop over a node's own values: what is out, and what was seen.
abbrev pub push_unseen : List Text → List Text × BTreeSet Text → List Text × BTreeSet Text
push_unseen [] (out, seen) = (out, seen)
push_unseen (value ∷ own) (out, seen) =
    push_unseen own
      (if contains_key value seen then (out, seen) else (out ++ value ∷ [], insert value tt seen))

abbrev pub backwards : List ℕ → List ℕ
backwards [] = []
backwards (x ∷ xs) = backwards xs ++ x ∷ []

-- The parents of a node in the order in which they are pushed, from the last to the first.
unfoldable pub pushed_parents : List SharedSet → ℕ → Option (List ℕ)
pushed_parents sets node = elim (get_elem? sets node) [
  | none ↦ none
  | some s ↦ some (backwards s.parents)
]

-- `while let Some(node) = stack.pop()`; `none` when the fuel is out or a reference leads nowhere.
unfoldable pub flatten_loop :
    ℕ → List SharedSet → List ℕ → BTreeSet ℕ → List Text × BTreeSet Text → Option (List Text)
flatten_loop zero sets stack visited acc = none
flatten_loop (suc fuel) sets [] visited acc = some acc.0
flatten_loop (suc fuel) sets (node ∷ stack) visited acc =
    let skip = flatten_loop fuel sets stack visited acc in
    let go = λ (s : SharedSet).
      flatten_loop fuel sets (extend (backwards s.parents) stack) (insert node tt visited)
        (push_unseen s.own acc) in
    if contains_key node visited
    then skip
    else elim (get_elem? sets node) [ none ↦ none | some s ↦ go s ]

-- Each node is entered once, so its references are pushed once.
unfoldable pub flatten : List SharedSet → ℕ → Option (List Text)
flatten sets node =
    flatten_loop (suc (1 + edges (pushed_parents sets) (numbers_below (length sets)))) sets
      (node ∷ []) [] ([], [])
