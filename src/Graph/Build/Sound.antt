-- ===== src/Graph/Build/Sound.antt =====
-- Every rule keeps the graph in order, so every graph that is built from a manifest is.
use frostbuild.Base.{
  ℕ, ◌<◌, List, [], ◌∷◌, ◌++◌, Option, some, none, length, All-append, Result, ◌>>=◌, Ensures,
  >>=-Ensures, >>=-Ensures_any, ◌≡◌, inl, inr, refl, sym, ap, ◌∙◌, subst, arith, Option-cases,
}
use frostbuild.Base.Text.{Text, text_order, text_cases}
use frostbuild.Base.BTreeMap.{lookup, insert, lookup-insert_self, lookup-insert_ne}
use frostbuild.Manifest.{Toolchain, Target}
use frostbuild.Graph.{FileId, ActionId, ActionNode, TargetNode, BuildGraph, file}
use frostbuild.Graph.Templates.{Configuration}
use frostbuild.Graph.Build.{
  BuildError, Expansion, add_files, all_dep_outputs, push, Parents, node_of, finish_target,
}
use frostbuild.Graph.Build.Rules.{
  stamp_path, expand_genrule, expand_test, tool_test, shell_test, test_command,
}
use frostbuild.Graph.Build.Grown.{Below, Below-mono, IsGrown, IsWider, file-IsGrown}
use frostbuild.Graph.Build.Steps.{add_files-IsGrown, all_dep_outputs-Below, add_tool-IsGrown}
use frostbuild.Graph.Build.Pushed.{Pushed, push-Pushed}

-- The graph of the expansion is in order.
abbrev pub InOrder : Expansion → Type 0
InOrder e = IsGrown e.graph

with_target-IsGrown :
    (g : BuildGraph) (name : Text) (node : TargetNode)
    → IsGrown g
    → Below (length g.actions) node.actions
    → Below (length g.files) node.outputs
    → (name' : Text) (t : TargetNode) → lookup name' (insert name node g.targets) ≡ some t
    → Below (length g.actions) t.actions × Below (length g.files) t.outputs
with_target-IsGrown g name node h a o name' t e = elim (text_cases name' name) [
  | inl same ↦
      let new : some node ≡ some t =
        sym (lookup-insert_self name node g.targets)
        ∙ ap (λ k. lookup k (insert name node g.targets)) (sym same)
        ∙ e in
      subst
        (λ (x : Option TargetNode). elim x [
          | none ↦ Unit
          | some n ↦ Below (length g.actions) n.actions × Below (length g.files) n.outputs
        ])
        new (a, o)
  | inr ne ↦ h.made name' t (sym (lookup-insert_ne name name' node g.targets ne) ∙ e)
]

pub finish_target-InOrder :
    (e : Expansion) (g : BuildGraph) (name : Text) (p : Parents) (libs gens : List Text)
    (node : TargetNode)
    → IsGrown g
    → Below (length g.actions) node.actions
    → Below (length g.files) node.outputs
    → InOrder (finish_target e g name p libs gens node)
unfolding finish_target
finish_target-InOrder e g name p libs gens node h a o = record {
  owned = h.owned;
  known = h.known;
  read = h.read;
  made = with_target-IsGrown g name node h a o;
}

-- A target whose only action was just pushed.
pub finish-Pushed-InOrder :
    (e : Expansion) (g : BuildGraph) (r : BuildGraph × ActionId) (name : Text) (target : Target)
    (p : Parents) (libs gens : List Text) (outputs : List FileId)
    → Pushed g r
    → Below (length g.files) outputs
    → InOrder (finish_target e r.0 name p libs gens (node_of name target (r.1 ∷ []) outputs))
finish-Pushed-InOrder e g r name target p libs gens outputs h o =
    finish_target-InOrder e r.0 name p libs gens (node_of name target (r.1 ∷ []) outputs) h.grown
      (omega (arith, h.one_more, h.place), tt) (subst (λ n. Below n outputs) (sym h.files_kept) o)

pub any-then :
    {A B : Type 0} (P : B → Type 0) (first : Result BuildError A)
    (then_do : A → Result BuildError B)
    → ((a : A) → Ensures P (then_do a))
    → Ensures P (first >>= then_do)
any-then P first then_do k = >>=-Ensures_any P first then_do k

pub push-then :
    (g : BuildGraph) (action : ActionNode)
    (then_do : BuildGraph × ActionId → Result BuildError Expansion)
    → IsGrown g
    → Below (length g.files) (action.inputs ++ action.order_only_inputs)
    → ((r : BuildGraph × ActionId) → Pushed g r → Ensures InOrder (then_do r))
    → Ensures InOrder (push g action >>= then_do)
push-then g action then_do h below k =
    >>=-Ensures (Pushed g) InOrder (push g action) then_do (push-Pushed g action h below) k

pub expand_genrule-InOrder :
    (e : Expansion) (name : Text) (target : Target) (p : Parents)
    → InOrder e
    → Ensures InOrder (expand_genrule e name target p)
unfolding expand_genrule
expand_genrule-InOrder e name target p h =
    let g1 : BuildGraph = (add_files e.graph target.inputs).0 in
    let ids : List FileId = (add_files e.graph target.inputs).1 in
    let (grown1, wider1, below1) = add_files-IsGrown e.graph target.inputs h in
    let g2 : BuildGraph = (add_files g1 target.outputs).0 in
    let (grown2, wider2, below2) = add_files-IsGrown g1 target.outputs grown1 in
    let reads : Below (length g2.files) ((ids ++ all_dep_outputs g1 target.deps) ++ []) =
      All-append (λ i. i < length g2.files) (ids ++ all_dep_outputs g1 target.deps) []
        (Below-mono (length g1.files) (length g2.files) (ids ++ all_dep_outputs g1 target.deps)
          wider2.more_files
          (All-append (λ i. i < length g1.files) ids (all_dep_outputs g1 target.deps) below1
            (all_dep_outputs-Below g1 target.deps grown1)))
        tt in
    search
      (
        push-then,
        any-then,
        grown2,
        reads,
        λ (pushed : BuildGraph × ActionId) (q : Pushed g2 pushed).
            finish-Pushed-InOrder e g2 pushed name target p [] target.outputs
              (add_files g1 target.outputs).1 q below2,
      )
      depth 8

-- A graph that grew by files, and inputs that are among them.
abbrev pub Ready : BuildGraph → {X : Type 0} → BuildGraph × List FileId × X → Type 0
Ready g r = IsGrown r.0 × IsWider g r.0 × Below (length r.0.files) r.1

pub Ready-then :
    {X : Type 0} (g : BuildGraph) (first : Result BuildError (BuildGraph × List FileId × X))
    (then_do : BuildGraph × List FileId × X → Result BuildError Expansion)
    → Ensures (Ready g) first
    → ((r : BuildGraph × List FileId × X) → Ready g r → Ensures InOrder (then_do r))
    → Ensures InOrder (first >>= then_do)
Ready-then g first then_do h k = >>=-Ensures (Ready g) InOrder first then_do h k

tool_test-Ready :
    (c : Configuration) (toolchain : Toolchain) (g : BuildGraph) (name : Text) (target : Target)
    (tool_name : Text) (inputs : List FileId)
    → IsGrown g
    → Below (length g.files) inputs
    → Ensures (Ready g) (tool_test c toolchain g name target tool_name inputs)
unfolding tool_test
tool_test-Ready c toolchain g name target tool_name inputs h b =
    search (any-then, λ (driver : Text). add_tool-IsGrown g driver inputs h b) depth 8

shell_test-Ready :
    (g : BuildGraph) (target : Target) (inputs : List FileId)
    → IsGrown g
    → Below (length g.files) inputs
    → Ensures (Ready g) (shell_test g target inputs)
unfolding shell_test
shell_test-Ready g target inputs h b =
    let same : IsWider g g = record { more_files = omega arith; same_actions = refl } in
    search (any-then, h, b, same) depth 8

test_command-Ready :
    (c : Configuration) (toolchain : Toolchain) (g : BuildGraph) (name : Text) (target : Target)
    (inputs : List FileId)
    → IsGrown g
    → Below (length g.files) inputs
    → Ensures (Ready g) (test_command c toolchain g name target inputs)
test_command-Ready c toolchain g name target inputs h b = elim (Option-cases target.tool) [
  | inr (tool_name, e) ↦
      let run : tool_test c toolchain g name target tool_name inputs
          ≡ test_command c toolchain g name target inputs =
        ground arith in
      subst (Ensures (Ready g)) run (tool_test-Ready c toolchain g name target tool_name inputs h b)
  | inl e ↦
      let run : shell_test g target inputs ≡ test_command c toolchain g name target inputs =
        ground arith in
      subst (Ensures (Ready g)) run (shell_test-Ready g target inputs h b)
]

-- The inputs of a target with the outputs of what it depends on.
pub with_deps-Below :
    (e : Expansion) (target : Target)
    → InOrder e
    → IsGrown (add_files e.graph target.inputs).0
      × Below (length (add_files e.graph target.inputs).0.files) (
          (add_files e.graph target.inputs).1
          ++ all_dep_outputs (add_files e.graph target.inputs).0 target.deps)
with_deps-Below e target h =
    let g1 : BuildGraph = (add_files e.graph target.inputs).0 in
    let (grown, _, below) = add_files-IsGrown e.graph target.inputs h in
    (
      grown,
      All-append (λ i. i < length g1.files) (add_files e.graph target.inputs).1
          (all_dep_outputs g1 target.deps) below (all_dep_outputs-Below g1 target.deps grown),
    )

-- Inputs that are followed by no others.
pub nil_behind : (n : ℕ) (ids : List ℕ) → Below n ids → Below n (ids ++ [])
nil_behind n ids b = All-append (λ i. i < n) ids [] b tt

pub expand_test-InOrder :
    (c : Configuration) (toolchain : Toolchain) (e : Expansion) (name : Text) (target : Target)
    (p : Parents)
    → InOrder e
    → Ensures InOrder (expand_test c toolchain e name target p)
unfolding expand_test
expand_test-InOrder c toolchain e name target p h =
    let g1 : BuildGraph = (add_files e.graph target.inputs).0 in
    let ids : List FileId = (add_files e.graph target.inputs).1 ++ all_dep_outputs g1 target.deps in
    let (grown1, below1) = with_deps-Below e target h in
    let stamp : BuildGraph × FileId = file g1 (stamp_path c.tree name) in
    let (grown2, wider2, below2) = file-IsGrown g1 (stamp_path c.tree name) grown1 in
    let ids_below =
      Below-mono (length g1.files) (length stamp.0.files) ids wider2.more_files below1 in
    Ready-then stamp.0 (test_command c toolchain stamp.0 name target ids) _
      (test_command-Ready c toolchain stamp.0 name target ids grown2 ids_below)
      (λ made q. push-then made.0 _ _ q.0 (nil_behind (length made.0.files) made.1 q.2) (λ pushed r.
        finish-Pushed-InOrder e made.0 pushed name target p [] [] (stamp.1 ∷ []) r
          (omega (arith, below2, q.1.more_files), tt)))
