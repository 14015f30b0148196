-- ===== src/Graph/Build/Commands.antt =====
-- Commands with their steps, and kofun binaries, keep the graph in order.
use frostbuild.Base.{
  List, [], ◌∷◌, ◌++◌, length, Result, ok, ◌>>=◌, Ensures, >>=-Ensures, refl, arith,
}
use frostbuild.Base.Text.{Text, codes}
use frostbuild.Manifest.{Toolchain, Target, CommandStep}
use frostbuild.Graph.{FileId, BuildGraph, file}
use frostbuild.Graph.Templates.{Configuration, CommandFiles, path_key}
use frostbuild.Graph.Build.{
  BuildError, Expansion, add_files, all_dep_outputs, push_each_new, add_tool, Parents,
}
use frostbuild.Graph.Build.Rules.{
  expand_steps, command_inputs, finish_command, expand_command, finish_kofun, expand_kofun,
}
use frostbuild.Graph.Build.Grown.{Below, Below-mono, IsGrown, file-IsGrown}
use frostbuild.Graph.Build.Steps.{
  IsWider-trans, add_files-IsGrown, all_dep_outputs-Below, push_each_new-Below, add_tool-IsGrown,
}
use frostbuild.Graph.Build.Sound.{
  InOrder, any-then, push-then, Ready-then, Ready, finish-Pushed-InOrder, nil_behind,
}

rest-then :
    {X Y : Type 0} (g : BuildGraph) (first : Result BuildError (BuildGraph × List FileId × X))
    (then_do : BuildGraph × List FileId × X → Result BuildError (BuildGraph × List FileId × Y))
    (g' : BuildGraph)
    → Ensures (Ready g') first
    → ((r : BuildGraph × List FileId × X) → Ready g' r → Ensures (Ready g) (then_do r))
    → Ensures (Ready g) (first >>= then_do)
rest-then g first then_do g' h k = >>=-Ensures (Ready g') (Ready g) first then_do h k

expand_steps-Ready :
    (c : Configuration) (f : CommandFiles) (toolchain : Toolchain) (name : Text)
    (steps : List CommandStep) (g : BuildGraph) (inputs : List FileId)
    → IsGrown g
    → Below (length g.files) inputs
    → Ensures (Ready g) (expand_steps c f toolchain name steps g inputs)
unfolding expand_steps
expand_steps-Ready c f toolchain name [] g inputs h b =
    (h, record { more_files = omega arith; same_actions = refl }, b)
expand_steps-Ready c f toolchain name (step ∷ steps) g inputs h b =
    let more : (driver : Text) (argv : List Text)
        → Ensures (Ready g {X = List (List Text)}) (
            expand_steps c f toolchain name steps (add_tool g driver inputs).0
              (add_tool g driver inputs).1
            >>= λ r. ok (r.0, r.1, argv ∷ r.2)) =
      λ driver argv.
        let tool : BuildGraph × List FileId = add_tool g driver inputs in
        let (grown, wider, below) = add_tool-IsGrown g driver inputs h b in
        rest-then g (expand_steps c f toolchain name steps tool.0 tool.1)
          (λ r. ok (r.0, r.1, argv ∷ r.2)) tool.0
          (expand_steps-Ready c f toolchain name steps tool.0 tool.1 grown below)
          (λ r q. (q.0, IsWider-trans g tool.0 r.0 wider q.1, q.2)) in
    search (any-then, more) depth 8

command_inputs-Below :
    (g : BuildGraph) (driver : Text) (target : Target)
    → IsGrown g
    → IsGrown (command_inputs g driver target).0
      × Below (length (command_inputs g driver target).0.files) (command_inputs g driver target).1
unfolding command_inputs
command_inputs-Below g driver target h =
    let g1 : BuildGraph = (add_files g target.inputs).0 in
    let ids : List FileId = (add_files g target.inputs).1 in
    let (grown1, _, below1) = add_files-IsGrown g target.inputs h in
    let tool : BuildGraph × List FileId = add_tool g1 driver ids in
    let (grown2, _, below2) = add_tool-IsGrown g1 driver ids grown1 below1 in
    (
      grown2,
      push_each_new-Below (length tool.0.files) (all_dep_outputs tool.0 target.deps) tool.1
          (all_dep_outputs-Below tool.0 target.deps grown2) below2,
    )

finish_command-InOrder :
    (c : Configuration) (toolchain : Toolchain) (e : Expansion) (name : Text) (target : Target)
    (p : Parents) (tool_name : Text) (files : CommandFiles) (argv : List Text) (g : BuildGraph)
    (inputs : List FileId)
    → IsGrown g
    → Below (length g.files) inputs
    → Ensures InOrder (finish_command c toolchain e name target p tool_name files argv g inputs)
unfolding finish_command
finish_command-InOrder c toolchain e name target p tool_name files argv g inputs h b =
    Ready-then g (expand_steps c files toolchain name target.steps g inputs) _
      (expand_steps-Ready c files toolchain name target.steps g inputs h b)
      (λ stepped q.
        let outs : BuildGraph × List FileId = add_files stepped.0 files.outputs in
        let (grown, wider, below) = add_files-IsGrown stepped.0 files.outputs q.0 in
        push-then outs.0 _ _ grown
          (nil_behind (length outs.0.files) stepped.1 (
            Below-mono (length stepped.0.files) (length outs.0.files) stepped.1 wider.more_files
              q.2))
          (λ pushed r.
            finish-Pushed-InOrder e outs.0 pushed name target p [] files.outputs outs.1 r below))

pub expand_command-InOrder :
    (c : Configuration) (toolchain : Toolchain) (e : Expansion) (name : Text) (target : Target)
    (p : Parents)
    → InOrder e
    → Ensures InOrder (expand_command c toolchain e name target p)
unfolding expand_command
expand_command-InOrder c toolchain e name target p h =
    search
      (
        any-then,
        λ (tool_name driver : Text) (files : CommandFiles) (argv : List Text).
            finish_command-InOrder c toolchain e name target p tool_name files argv
              (command_inputs e.graph driver target).0 (command_inputs e.graph driver target).1
              (command_inputs-Below e.graph driver target h).0
              (command_inputs-Below e.graph driver target h).1,
      )
      depth 12

finish_kofun-InOrder :
    (c : Configuration) (e : Expansion) (name : Text) (target : Target) (p : Parents)
    (driver source : Text)
    → InOrder e
    → Ensures InOrder (finish_kofun c e name target p driver source)
unfolding finish_kofun
finish_kofun-InOrder c e name target p driver source h =
    let one : BuildGraph × FileId = file e.graph source in
    let (grown1, _, below1) = file-IsGrown e.graph source h in
    let inputs : List FileId = push_each_new (all_dep_outputs one.0 target.deps) (one.1 ∷ []) in
    let inputs_below =
      push_each_new-Below (length one.0.files) (all_dep_outputs one.0 target.deps) (one.1 ∷ [])
        (all_dep_outputs-Below one.0 target.deps grown1) (below1, tt) in
    let bin : Text = codes ".frost/bin/" ++ (c.tree ++ (codes "/" ++ path_key name)) in
    let emitted_c : Text =
      codes ".frost/obj/" ++ (c.tree ++ (codes "/" ++ (path_key name ++ codes "/kofun.c"))) in
    let with_bin : BuildGraph × FileId = file one.0 bin in
    let (grown2, wider2, below2) = file-IsGrown one.0 bin grown1 in
    let with_c : BuildGraph × FileId = file with_bin.0 emitted_c in
    let (grown3, wider3, below3) = file-IsGrown with_bin.0 emitted_c grown2 in
    push-then with_c.0 _ _ grown3
      (nil_behind (length with_c.0.files) inputs (
        Below-mono (length one.0.files) (length with_c.0.files) inputs
          (omega (arith, wider2.more_files, wider3.more_files)) inputs_below))
      (λ pushed r.
        finish-Pushed-InOrder e with_c.0 pushed name target p [] [] (with_bin.1 ∷ []) r
          (omega (arith, below2, wider3.more_files), tt))

pub expand_kofun-InOrder :
    (c : Configuration) (toolchain : Toolchain) (e : Expansion) (name : Text) (target : Target)
    (p : Parents)
    → InOrder e
    → Ensures InOrder (expand_kofun c toolchain e name target p)
unfolding expand_kofun
expand_kofun-InOrder c toolchain e name target p h =
    search
      (any-then, λ (driver source : Text). finish_kofun-InOrder c e name target p driver source h)
      depth 6
