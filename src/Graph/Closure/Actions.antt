-- ===== src/Graph/Closure/Actions.antt =====
-- The action closure of a list of targets is exact.
use frostbuild.Graph.Claims.{producer_of}
use frostbuild.Base.{
  get_elem?-lt, ℕ, zero, suc, ◌+◌, ◌<◌, List, [], ◌∷◌, ◌++◌, some, length, get_elem?, In, All,
  In-append, >>=-eq-ok, ok_injective, ◌≡◌, ◌↔◌, inl, inr, refl, sym, ap, subst, ◌∙◌, arith,
  Option-cases, Result, ok, ◌>>=◌,
}
use frostbuild.Base.Order.{nat_order}
use frostbuild.Base.Text.{Text, text_order}
use frostbuild.Base.BTreeMap.{lookup}
use frostbuild.Base.BTreeSet.{BTreeSet, keys}
use frostbuild.Graph.{FileNode, FileId, ActionNode, ActionId, TargetNode, BuildGraph, GraphError}
use frostbuild.Graph.Closure.{
  extend, Reached, reached, reach, edges, producers, producers_of, roots, numbers_below,
  action_closure,
}
use frostbuild.Graph.Closure.Reach.{In-extend, length-extend, Reachable}
use frostbuild.Graph.Closure.Exact.{IsUniverse, reach-Reachable}
use frostbuild.Graph.Owned.{IsOwned}

-- Every file id that the actions and targets of the graph hold is one of the graph, and so is every
-- action id of a target.
pub record IsInRange (g : BuildGraph) : Type 0 where
  pub inputs :
      (a : ActionId) (action : ActionNode)
      → get_elem? g.actions a ≡ some action
      → All (λ f. f < length g.files) (action.inputs ++ action.order_only_inputs)
  pub actions :
      (name : Text) (t : TargetNode)
      → lookup name g.targets ≡ some t
      → (a : ActionId) → In a t.actions
      → a < length g.actions

pub In-numbers_below : (a n : ℕ) → In a (numbers_below n) ↔ (a < n)
In-numbers_below a zero = ground arith
In-numbers_below a (suc n) = ground (arith, In-numbers_below a n)

pub get_elem?-some :
    {A : Type 0} (xs : List A) (i : ℕ) → i < length xs → (a : A) × (get_elem? xs i ≡ some a)
get_elem?-some [] i h = absurd (omega arith)
get_elem?-some (x ∷ xs) zero h = (x, refl)
get_elem?-some (x ∷ xs) (suc i) h = get_elem?-some xs i (omega arith)

producers-some :
    (files : List FileNode) (fs : List FileId)
    → All (λ f. f < length files) fs
    → (more : List ActionId) × (producers files fs ≡ some more)
      × ((b : ActionId) → In b more → (f : FileId) × (producer_of files f ≡ some b))
producers-some files [] h = ([], refl, λ b m. elim m [ ])
producers-some files (f ∷ fs) h =
    let (node, e) = get_elem?-some files f h.0 in
    let (rest, r, found) = producers-some files fs h.1 in
    elim (Option-cases node.producer) [
      | inl p ↦ (rest, ground arith, found)
      | inr (a, p) ↦
          (a ∷ rest, ground arith, λ b m. elim m [ inl q ↦ (f, ground arith) | inr n ↦ found b n ])
    ]

actions-IsUniverse :
    (g : BuildGraph)
    → IsOwned g
    → IsInRange g
    → IsUniverse (producers_of g) (numbers_below (length g.actions))
unfolding producers_of
actions-IsUniverse g owned range a m =
    let (action, e) = get_elem?-some g.actions a ((In-numbers_below a (length g.actions)).0 m) in
    let (more, r, found) =
      producers-some g.files (action.inputs ++ action.order_only_inputs)
        (range.inputs a action e) in
    (
      more,
      ground arith,
      λ b i.
          let (f, p) = found b i in
          let d = (owned f b).0 p in
          (In-numbers_below b (length g.actions)).1 (get_elem?-lt g.actions b d.found),
    )

roots-below :
    (g : BuildGraph) (names : List Text) (start : List ActionId)
    → IsInRange g
    → roots g names ≡ ok start
    → (a : ActionId) → In a start
    → a < length g.actions
unfolding roots
roots-below g [] start range h a m = absurd (subst (In a) (sym (ok_injective h)) m)
roots-below g (name ∷ names) start range h a m = elim (Option-cases (lookup name g.targets)) [
  | inl e ↦ absurd (ground arith)
  | inr (t, e) ↦
      let run : (roots g names >>= λ rest. ok (t.actions ++ rest)) ≡ ok start = ground arith in
      let (rest, h1, r1) = >>=-eq-ok (roots g names) _ run in
      elim (In-append a t.actions rest (subst (In a) (sym (ok_injective r1)) m)) [
        | inl i ↦ range.actions name t e a i
        | inr i ↦ roots-below g names rest range h1 a i
      ]
]

-- In a graph whose ids are in range and whose producers are the declarations of its actions, the
-- action closure of known targets is computed, and has exactly the targets' own actions and those
-- that produce, directly or through other actions, what these read.
pub action_closure-Reachable :
    (g : BuildGraph) (names : List Text) (start : List ActionId)
    → IsOwned g
    → IsInRange g
    → roots g names ≡ ok start
    → (out : BTreeSet ActionId) × (action_closure g names ≡ ok (reached out))
      × ((a : ActionId) → In a (keys out) ↔ Reachable (producers_of g) (extend start []) a)
unfolding action_closure
action_closure-Reachable g names start owned range h =
    let (out, run, iff) =
      reach-Reachable (producers_of g) (numbers_below (length g.actions)) (extend start [])
        (actions-IsUniverse g owned range)
        (λ a m. (In-numbers_below a (length g.actions)).1 (
          roots-below g names start range h a
            (elim ((In-extend a start []).0 m) [ inl i ↦ i | inr i ↦ elim i [ ] ]))) in
    (
      out,
      ap (λ (r : Result GraphError (List ActionId)). r >>= λ start. ok (closure_from start)) h
          ∙ ap ok (
              ap
                (λ n.
                  reach (producers_of g)
                    (suc (n + edges (producers_of g) (numbers_below (length g.actions))))
                    (extend start []) [])
                (sym (length_start start))
              ∙ run),
      iff,
    )
  where
    closure_from : List ActionId → Reached ActionId
    closure_from start =
        reach (producers_of g)
          (suc (length start + edges (producers_of g) (numbers_below (length g.actions))))
          (extend start []) []

    length_start : (start : List ActionId) → length (extend start []) ≡ length start
    length_start start = omega (arith, length-extend start [])
