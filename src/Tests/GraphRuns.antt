-- ===== src/Tests/GraphRuns.antt =====
-- Runs of the graph's operations on small graphs.
use frostbuild.Graph.Toposort.Topological.{IsTopological}
use frostbuild.Base.{
  ℕ, zero, suc, ◌<◌, true, false, List, [], ◌∷◌, ◌++◌, some, none, ◌≡◌, ◌↔◌, ◌⊎◌, inl, inr, refl,
  sym, subst, eq_of_some, arith, ok, err, In, All, get_elem?, length,
}
use frostbuild.Base.Text.{Text, codes, text_cmp, text_order}
use frostbuild.Base.Order.{nat_order}
use frostbuild.Base.BTreeMap.{lookup, insert}
use frostbuild.Base.BTreeSet.{BTreeSet, keys}
use frostbuild.Manifest.{genrule}
use frostbuild.Manifest.Validated.{from_raw-IsChecked}
use frostbuild.Graph.{
  compile, ActionNode, TargetNode, BuildGraph, index_out_of_bounds, claim_outputs, push_action,
}
use frostbuild.Graph.Owned.{IsOwned, push_action-IsOwned, push_action-repeated_output}
use frostbuild.Graph.Closure.{
  extend, reached, producers_of, roots, deps_of, action_closure, deps_closure,
}
use frostbuild.Graph.Closure.Reach.{Reachable}
use frostbuild.Graph.Closure.Targets.{DependsOnKnown, deps_closure-Reachable}
use frostbuild.Graph.Closure.Actions.{IsInRange, action_closure-Reachable}
use frostbuild.Graph.Toposort.{cycle, visit_each, visit, toposort_targets}
use frostbuild.Graph.Toposort.Sound.{toposort_targets-IsTopological}
use frostbuild.Graph.Toposort.Walk.{IsCycle}
use frostbuild.Graph.Toposort.Total.{toposort_targets-total}
use frostbuild.Tests.ManifestRuns.{sample_raw, sample_manifest, sample_toolchain, run_from_raw}

run_toposort : toposort_targets sample_manifest.targets ≡ ok (codes "copy" ∷ [])
unfolding toposort_targets visit_each visit lookup insert text_cmp
run_toposort = refl

toposort_targets-IsTopological_example :
    IsTopological sample_manifest.targets [] (codes "copy" ∷ [])
    × All (λ name. In name (codes "copy" ∷ [])) (keys sample_manifest.targets)
toposort_targets-IsTopological_example =
    toposort_targets-IsTopological sample_manifest.targets (codes "copy" ∷ []) run_toposort

toposort_targets-total_example :
    ((order : List Text) × (toposort_targets sample_manifest.targets ≡ ok order))
    ⊎ ((c : List Text) × (toposort_targets sample_manifest.targets ≡ err (cycle c))
        × IsCycle sample_manifest.targets c)
toposort_targets-total_example =
    toposort_targets-total sample_manifest
      (from_raw-IsChecked sample_raw sample_manifest run_from_raw)

abbrev pub compile_a : ActionNode
compile_a = record {
  id = codes "compile:app:a.c";
  desc = codes "CC a.c";
  kind = compile;
  target = codes "app";
  sandbox = true;
  argv = codes "cc" ∷ [];
  followup_argv = [];
  clean_dirs = [];
  preserve_outputs = false;
  env = [];
  pass_env = [];
  inputs = 0 ∷ [];
  order_only_inputs = [];
  outputs = 1 ∷ [];
  depfile = none;
}

abbrev app : TargetNode
app = record { name = codes "app"; kind = genrule; deps = []; actions = 0 ∷ []; outputs = 1 ∷ [] }

abbrev pub before_push : BuildGraph
before_push = record {
  files =
      record { path = codes "a.c"; producer = none }
      ∷ record { path = codes "a.o"; producer = none }
      ∷ [];
  actions = [];
  targets = (codes "app", app) ∷ [];
  profile = codes "debug";
  platform = codes "host";
  toolchain = sample_toolchain;
  default_targets = codes "app" ∷ [];
  file_ids = [];
}

abbrev after_push : BuildGraph
after_push = record before_push {
  files =
      record { path = codes "a.c"; producer = none }
      ∷ record { path = codes "a.o"; producer = some 0 }
      ∷ [];
  actions = compile_a ∷ [];
}

before_push-IsOwned : IsOwned before_push
before_push-IsOwned zero a = (λ h. cc, λ d. cc d.found)
before_push-IsOwned (suc zero) a = (λ h. cc, λ d. cc d.found)
before_push-IsOwned (suc (suc f)) a = (λ h. cc, λ d. cc d.found)

run_push_action : push_action before_push compile_a ≡ (after_push, ok 0)
unfolding push_action claim_outputs
run_push_action = refl

push_action-IsOwned_example : IsOwned after_push × (get_elem? after_push.actions 0 ≡ some compile_a)
push_action-IsOwned_example =
    push_action-IsOwned before_push after_push compile_a 0 before_push-IsOwned run_push_action

abbrev twice : ActionNode
twice = record compile_a { outputs = 1 ∷ 1 ∷ [] }

push_action-repeated_output_example : (push_action before_push twice).1 ≡ err index_out_of_bounds
push_action-repeated_output_example =
    push_action-repeated_output before_push twice 1 []
      (record { path = codes "a.o"; producer = none }) refl refl refl

only_app : (name : Text) (t : TargetNode) → lookup name after_push.targets ≡ some t → app ≡ t
unfolding lookup
only_app name t h = ground arith

after_push-IsInRange : IsInRange after_push
after_push-IsInRange = record { inputs = inputs_below; actions = actions_below }
  where
    inputs_below :
        (a : ℕ) (action : ActionNode)
        → get_elem? after_push.actions a ≡ some action
        → All (λ f. f < length after_push.files) (action.inputs ++ action.order_only_inputs)
    inputs_below zero action h =
        subst (λ (x : ActionNode). All (λ f. f < 2) (x.inputs ++ x.order_only_inputs))
          (eq_of_some h) (omega arith, tt)
    inputs_below (suc a) action h = cc

    below_one : (a : ℕ) → In a app.actions → a < 1
    below_one a (inl e) = omega arith
    below_one a (inr m) = elim m [ ]

    actions_below :
        (name : Text) (t : TargetNode)
        → lookup name after_push.targets ≡ some t
        → (a : ℕ) → In a t.actions
        → a < length after_push.actions
    actions_below name t h a m =
        below_one a (subst (λ (x : TargetNode). In a x.actions) (sym (only_app name t h)) m)

run_roots : roots after_push (codes "app" ∷ []) ≡ ok (0 ∷ [])
unfolding roots lookup text_cmp
run_roots = refl

action_closure-Reachable_example :
    (out : BTreeSet ℕ) × (action_closure after_push (codes "app" ∷ []) ≡ ok (reached out))
    × ((a : ℕ) → In a (keys out) ↔ Reachable (producers_of after_push) (extend (0 ∷ []) []) a)
action_closure-Reachable_example =
    action_closure-Reachable after_push (codes "app" ∷ []) (0 ∷ [])
      (push_action-IsOwned before_push after_push compile_a 0 before_push-IsOwned run_push_action).0
      after_push-IsInRange run_roots

after_push-DependsOnKnown : DependsOnKnown after_push.targets
after_push-DependsOnKnown name dep t h m =
    elim (subst (λ (x : TargetNode). In dep x.deps) (sym (only_app name t h)) m) [ ]

deps_closure-Reachable_example :
    (out : BTreeSet Text) × (deps_closure after_push (codes "app") ≡ ok (reached out))
    × ((a : Text) → In a (keys out) ↔ Reachable (deps_of after_push.targets) (codes "app" ∷ []) a)
deps_closure-Reachable_example =
    deps_closure-Reachable after_push (codes "app") after_push-DependsOnKnown (inl refl)
