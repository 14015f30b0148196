-- ===== src/Graph/Closure/Targets.antt =====
-- The dependency closure of a target is exact.
use frostbuild.Base.{
  suc, ◌+◌, Bool, true, not, [], ◌∷◌, Option, some, none, In, ◌≡◌, ◌↔◌, inl, inr, sym, ap, subst,
  ◌∙◌, arith, Option-cases, ok, ◌>>◌, bail_if,
}
use frostbuild.Base.Text.{Text, text_order}
use frostbuild.Base.BTreeMap.{BTreeMap, lookup, contains_key}
use frostbuild.Base.BTreeSet.{BTreeSet, keys, contains_key_iff}
use frostbuild.Graph.{unknown_target, TargetNode, BuildGraph}
use frostbuild.Graph.Closure.{reached, reach, edges, deps_of, deps_closure}
use frostbuild.Graph.Closure.Reach.{Reachable}
use frostbuild.Graph.Closure.Exact.{IsUniverse, reach-Reachable}

abbrev pub DependsOnKnown : BTreeMap Text TargetNode → Type 0
DependsOnKnown targets =
    (name dep : Text) (t : TargetNode)
    → lookup name targets ≡ some t
    → In dep t.deps
    → In dep (keys targets)

lookup-In :
    (x : Text) (m : BTreeMap Text TargetNode)
    → contains_key x m ≡ true
    → (t : TargetNode) × (lookup x m ≡ some t)
unfolding contains_key
lookup-In x m h = elim (Option-cases (lookup x m)) [ inl e ↦ absurd (ground arith) | inr f ↦ f ]

-- In a graph whose targets depend on targets of the graph only, the dependency closure of a target
-- is computed and has exactly the names that dependencies lead to from it, itself included.
pub deps_closure-Reachable :
    (g : BuildGraph) (start : Text)
    → DependsOnKnown g.targets
    → In start (keys g.targets)
    → (out : BTreeSet Text) × (deps_closure g start ≡ ok (reached out))
      × ((a : Text) → In a (keys out) ↔ Reachable (deps_of g.targets) (start ∷ []) a)
unfolding deps_closure
deps_closure-Reachable g start known m =
    let universe : IsUniverse (deps_of g.targets) (keys g.targets) = λ a i.
      let (t, f) = lookup-In a g.targets ((contains_key_iff a g.targets).1 i) in
      (
        t.deps,
        ap (λ (o : Option TargetNode). elim o [ none ↦ none | some t ↦ some t.deps ]) f,
        λ b j. known a b t f j,
      ) in
    let (out, h, iff) =
      reach-Reachable (deps_of g.targets) (keys g.targets) (start ∷ []) universe (λ a i. elim i [
        | inl e ↦ subst (λ k. In k (keys g.targets)) (sym e) m
        | inr j ↦ elim j [ ]
      ]) in
    (
      out,
      ap
            (λ (c : Bool).
              bail_if (not c) (unknown_target start)
              >> ok (
                  reach (deps_of g.targets) (suc (1 + edges (deps_of g.targets) (keys g.targets)))
                    (start ∷ []) []))
            ((contains_key_iff start g.targets).1 m)
          ∙ ap ok h,
      iff,
    )
