-- ===== src/Graph/SharedSet/Total.antt =====
-- The loop of `flatten` ends with the fuel that it gets, and what it lists.
use frostbuild.Base.{
  ℕ, zero, suc, ◌+◌, ◌<◌, List, [], ◌∷◌, ◌++◌, some, In, In-append, length, get_elem?, get_elem?-lt,
  ◌≡◌, inl, inr, refl, sym, ap, ◌∙◌, arith, Bool-cases, Option-cases, append-nil,
}
use frostbuild.Base.Order.{nat_order}
use frostbuild.Base.Text.{Text, text_order}
use frostbuild.Base.BTreeMap.{lookup, insert, contains_key}
use frostbuild.Base.BTreeSet.{BTreeSet}
use frostbuild.Graph.Closure.{extend, reached, reach, edges, numbers_below}
use frostbuild.Graph.Closure.Exact.{IsUniverse, reach-Reachable}
use frostbuild.Graph.Closure.Actions.{In-numbers_below, get_elem?-some}
use frostbuild.Graph.SharedSet.{
  SharedSet, push_unseen, backwards, pushed_parents, flatten_loop, flatten,
}
use frostbuild.Graph.SharedSet.Values.{IsLayered, preorder}
use frostbuild.Graph.SharedSet.Preorder.{Acc, Walked, walk}
use frostbuild.Graph.Build.Grown.{Below}

In-backwards : (b : ℕ) (xs : List ℕ) → In b (backwards xs) → In b xs
In-backwards b [] m = m
In-backwards b (x ∷ xs) m = elim (In-append b (backwards xs) (x ∷ []) m) [
  | inl i ↦ inr (In-backwards b xs i)
  | inr i ↦ elim i [ inl e ↦ inl e | inr j ↦ elim j [ ] ]
]

Below-In : (n : ℕ) (xs : List ℕ) → Below n xs → (b : ℕ) → In b xs → b < n
Below-In n [] h b m = elim m [ ]
Below-In n (x ∷ xs) h b (inl e) = omega (arith, e, h.0)
Below-In n (x ∷ xs) h b (inr m) = Below-In n xs h.1 b m

sets-IsUniverse :
    (sets : List SharedSet)
    → IsLayered sets
    → IsUniverse (pushed_parents sets) (numbers_below (length sets))
unfolding pushed_parents
sets-IsUniverse sets layered a m =
    let (s, e) = get_elem?-some sets a ((In-numbers_below a (length sets)).0 m) in
    (
      backwards s.parents,
      ground arith,
      λ b i. (In-numbers_below b (length sets)).1 (
          omega (
            arith,
            Below-In a s.parents (layered a s e) b (In-backwards b s.parents i),
            get_elem?-lt sets a e,
          )),
    )

-- The loop visits the nodes that the loop of the closures visits.
flatten_loop-ends :
    (fuel : ℕ) (sets : List SharedSet) (stack : List ℕ) (visited all : BTreeSet ℕ) (acc : Acc)
    → reach (pushed_parents sets) fuel stack visited ≡ reached all
    → (out : List Text) × (flatten_loop fuel sets stack visited acc ≡ some out)
unfolding reach flatten_loop pushed_parents
flatten_loop-ends zero sets stack visited all acc h = cc (h)
flatten_loop-ends (suc fuel) sets [] visited all acc h = (acc.0, refl)
flatten_loop-ends (suc fuel) sets (node ∷ stack) visited all acc h =
    elim (Bool-cases (contains_key node visited)) [
      | inl e ↦
          let (out, run) = flatten_loop-ends fuel sets stack visited all acc (ground arith) in
          (out, ground arith)
      | inr e ↦ elim (Option-cases (get_elem? sets node)) [
        | inl missing ↦ absurd (ground arith)
        | inr (s, found) ↦
            let (out, run) =
              flatten_loop-ends fuel sets (extend (backwards s.parents) stack)
                (insert node tt visited) all (push_unseen s.own acc) (ground arith) in
            (out, ground arith)
      ]
    ]

ended :
    (fuel : ℕ) (sets : List SharedSet) (visited : BTreeSet ℕ) (acc : Acc) (out : List Text)
    → flatten_loop fuel sets [] visited acc ≡ some out
    → acc.0 ≡ out
unfolding flatten_loop
ended zero sets visited acc out h = cc (h)
ended (suc fuel) sets visited acc out h = ground arith

-- The values once each, where they come first.
abbrev pub distinct : List Text → List Text
distinct values = (push_unseen values ([], [])).0

-- When every shared set refers only to sets that were joined before it, `flatten` of one of them
-- ends, and lists its own values followed by those of its parents in their order, recursively, with
-- each value kept where it comes first: the list that is made by flattening every parent in full.
pub flatten-preorder :
    (sets : List SharedSet) (node : ℕ)
    → IsLayered sets
    → node < length sets
    → flatten sets node ≡ some (distinct (preorder sets node))
unfolding flatten contains_key lookup
flatten-preorder sets node layered lt =
    let (all, ends, _) =
      reach-Reachable (pushed_parents sets) (numbers_below (length sets)) (node ∷ [])
        (sets-IsUniverse sets layered)
        (λ a i. elim i [
          | inl e ↦ (In-numbers_below a (length sets)).1 (omega (arith, lt, e))
          | inr j ↦ elim j [ ]
        ]) in
    let fuel : ℕ = suc (1 + edges (pushed_parents sets) (numbers_below (length sets))) in
    let (out, run) = flatten_loop-ends fuel sets (node ∷ []) [] all ([], []) ends in
    let w : Walked sets [] [] (push_unseen (preorder sets node ++ []) ([], [])) out =
      walk sets layered (suc node) (suc node) (omega arith) (node ∷ []) (omega arith, tt) fuel [] []
        ([], []) out (λ m l i. absurd (cc (i))) run in
    run
    ∙ ap some (
        sym
          (ended w.fuel sets w.visited (push_unseen (preorder sets node ++ []) ([], [])) out w.rest)
        ∙ ap distinct (append-nil (preorder sets node)))
