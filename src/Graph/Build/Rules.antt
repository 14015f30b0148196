-- ===== src/Graph/Build/Rules.antt =====
-- crates/frostbuild-core/src/graph.rs: `from_manifest_configured`, the targets that are one action:
-- genrules, tests, commands and kofun binaries.
use frostbuild.Base.{
  Bool, true, false, List, [], ◌∷◌, ◌++◌, Option, some, none, length, Result, ok, err, ◌>>=◌,
  if◌then◌else◌,
}
use frostbuild.Base.Text.{Text, codes, text_order}
use frostbuild.Base.BTreeMap.{lookup}
use frostbuild.Base.BTreeSet.{keys}
use frostbuild.Manifest.{Toolchain, Target, CommandStep}
use frostbuild.Graph.{genrule, test, command, kofun_compile, FileId, BuildGraph, file}
use frostbuild.Graph.Templates.{
  Configuration, CommandFiles, expand_genrule_cmd, expand_each, expand_depfile, expand_command_args,
  expand_test_args, path_key,
}
use frostbuild.Graph.Build.{
  BuildError, no_test_tool, no_command_tool, no_step_tool, no_kofunc, kofun_sources, panics,
  template_error, lift, from_option, Expansion, add_files, all_dep_outputs, push_each_new, add_tool,
  paths_of, push, plain_action, Parents, node_of, finish_target,
}

abbrev pub shell : Text
shell = codes "/bin/sh"

abbrev pub shell_arg : Text
shell_arg = codes "-c"

unfoldable pub expand_genrule : Expansion → Text → Target → Parents → Result BuildError Expansion
expand_genrule e name target p = do
  cmd ← from_option panics target.cmd
  expanded ← lift template_error (expand_genrule_cmd cmd target.inputs target.outputs)
  let with_inputs = add_files e.graph target.inputs
  let inputs = with_inputs.1 ++ all_dep_outputs with_inputs.0 target.deps
  let with_outputs = add_files with_inputs.0 target.outputs
  pushed ← push with_outputs.0 (
      plain_action genrule (codes "genrule:" ++ name) (codes "GEN " ++ name) name target
        (shell ∷ shell_arg ∷ expanded ∷ []) inputs [] with_outputs.1 none)
  ok (
      finish_target e pushed.0 name p [] target.outputs
        (node_of name target (pushed.1 ∷ []) with_outputs.1))

abbrev pub stamp_path : Text → Text → Text
stamp_path tree name =
    codes ".frost/test/" ++ (tree ++ (codes "/" ++ (path_key name ++ codes "/passed")))

-- A test that a tool runs: its inputs with the tool, and its arguments.
unfoldable pub tool_test :
    Configuration
    → Toolchain
    → BuildGraph
    → Text
    → Target
    → Text
    → List FileId
    → Result BuildError (BuildGraph × List FileId × List Text)
tool_test c toolchain g name target tool_name inputs = do
  driver ←
      from_option (no_test_tool name tool_name (keys toolchain.tools))
        (lookup tool_name toolchain.tools)
  let with_tool = add_tool g driver inputs
  dependency_paths ← paths_of with_tool.0 (all_dep_outputs with_tool.0 target.deps)
  argv ← lift template_error (expand_test_args c target.inputs dependency_paths driver target.args)
  ok (with_tool.0, with_tool.1, argv)

-- A test that the shell runs.
unfoldable pub shell_test :
    BuildGraph → Target → List FileId → Result BuildError (BuildGraph × List FileId × List Text)
shell_test g target inputs =
    from_option panics target.cmd >>= λ cmd. ok (g, inputs, shell ∷ shell_arg ∷ cmd ∷ [])

abbrev pub test_command :
    Configuration
    → Toolchain
    → BuildGraph
    → Text
    → Target
    → List FileId
    → Result BuildError (BuildGraph × List FileId × List Text)
test_command c toolchain g name target inputs = elim target.tool [
  | some tool_name ↦ tool_test c toolchain g name target tool_name inputs
  | none ↦ shell_test g target inputs
]

abbrev pub has_tool : Option Text → Bool
has_tool none = false
has_tool (some _) = true

unfoldable pub expand_test :
    Configuration → Toolchain → Expansion → Text → Target → Parents → Result BuildError Expansion
unfolding tool_test
expand_test c toolchain e name target p = do
  let with_inputs = add_files e.graph target.inputs
  let inputs = with_inputs.1 ++ all_dep_outputs with_inputs.0 target.deps
  let with_stamp = file with_inputs.0 (stamp_path c.tree name)
  made ← test_command c toolchain with_stamp.0 name target inputs
  let plain =
      plain_action test (codes "test:" ++ name) (codes "TEST " ++ name) name target made.2 made.1 []
        (with_stamp.1 ∷ []) none
  pushed ← push made.0 (record plain {
    env = if has_tool target.tool then target.env else [];
    pass_env = if has_tool target.tool then target.pass_env else [];
  })
  ok (
      finish_target e pushed.0 name p [] []
        (node_of name target (pushed.1 ∷ []) (with_stamp.1 ∷ [])))

-- The steps behind the first command, each with its tool as an input.
unfoldable pub expand_steps :
    Configuration
    → CommandFiles
    → Toolchain
    → Text
    → List CommandStep
    → BuildGraph
    → List FileId
    → Result BuildError (BuildGraph × List FileId × List (List Text))
expand_steps c f toolchain name [] g inputs = ok (g, inputs, [])
expand_steps c f toolchain name (step ∷ steps) g inputs = do
  driver ← from_option (no_step_tool name step.tool) (lookup step.tool toolchain.tools)
  let with_tool = add_tool g driver inputs
  argv ← lift template_error (expand_command_args c f driver step.args)
  rest ← expand_steps c f toolchain name steps with_tool.0 with_tool.1
  ok (rest.0, rest.1, argv ∷ rest.2)

-- The files that a driver and the dependencies of a target add to its own.
unfoldable pub command_inputs : BuildGraph → Text → Target → BuildGraph × List FileId
command_inputs g driver target =
    let with_inputs = add_files g target.inputs in
    let with_tool = add_tool with_inputs.0 driver with_inputs.1 in
    (with_tool.0, push_each_new (all_dep_outputs with_tool.0 target.deps) with_tool.1)

unfoldable pub command_files : Configuration → BuildGraph → Target → Result BuildError CommandFiles
command_files c g target = do
  dependency_paths ← paths_of g (all_dep_outputs g target.deps)
  outputs ← lift template_error (expand_each c target.outputs)
  depfile ← lift template_error (expand_depfile c target.depfile)
  clean_dirs ← lift template_error (expand_each c target.clean_dirs)
  ok (record {
    inputs = target.inputs;
    dependency_inputs = dependency_paths;
    outputs = outputs;
    clean_dirs = clean_dirs;
    depfile = depfile;
  })

-- The steps, and the action of the whole command.
unfoldable pub finish_command :
    Configuration
    → Toolchain
    → Expansion
    → Text
    → Target
    → Parents
    → Text
    → CommandFiles
    → List Text
    → BuildGraph
    → List FileId
    → Result BuildError Expansion
finish_command c toolchain e name target p tool_name files argv g inputs = do
  stepped ← expand_steps c files toolchain name target.steps g inputs
  let with_outputs = add_files stepped.0 files.outputs
  let plain =
      plain_action command (codes "command:" ++ name)
        (codes "RUN " ++ (name ++ (codes " [" ++ (tool_name ++ codes "]")))) name target argv
        stepped.1 [] with_outputs.1 files.depfile
  pushed ← push with_outputs.0 (record plain {
    followup_argv = stepped.2;
    clean_dirs = files.clean_dirs;
    preserve_outputs = target.preserve_outputs;
    env = target.env;
    pass_env = target.pass_env;
  })
  ok (
      finish_target e pushed.0 name p [] files.outputs
        (node_of name target (pushed.1 ∷ []) with_outputs.1))

unfoldable pub expand_command :
    Configuration → Toolchain → Expansion → Text → Target → Parents → Result BuildError Expansion
unfolding command_inputs
expand_command c toolchain e name target p = do
  tool_name ← from_option panics target.tool
  driver ←
      from_option (no_command_tool name tool_name (keys toolchain.tools))
        (lookup tool_name toolchain.tools)
  let read = command_inputs e.graph driver target
  files ← command_files c read.0 target
  argv ← lift template_error (expand_command_args c files driver target.args)
  finish_command c toolchain e name target p tool_name files argv read.0 read.1

abbrev pub single : Text → List Text → Result BuildError Text
single name [] = err (kofun_sources name 0)
single name (source ∷ []) = ok source
single name (source ∷ other ∷ more) = err (kofun_sources name (length (source ∷ other ∷ more)))

unfoldable pub finish_kofun :
    Configuration
    → Expansion
    → Text
    → Target
    → Parents
    → (driver source : Text) → Result BuildError Expansion
finish_kofun c e name target p driver source = do
  let bin = codes ".frost/bin/" ++ (c.tree ++ (codes "/" ++ path_key name))
  let emitted_c =
      codes ".frost/obj/" ++ (c.tree ++ (codes "/" ++ (path_key name ++ codes "/kofun.c")))
  let with_source = file e.graph source
  let inputs = push_each_new (all_dep_outputs with_source.0 target.deps) (with_source.1 ∷ [])
  let with_bin = file with_source.0 bin
  let with_c = file with_bin.0 emitted_c
  pushed ← push with_c.0 (
      plain_action kofun_compile (codes "kofun:" ++ name)
        (codes "KOFUN " ++ (source ++ (codes " (" ++ (name ++ codes ")")))) name target
        (driver ∷ codes "build" ∷ source ∷ codes "-o" ∷ bin ∷ codes "--emit-c" ∷ emitted_c ∷ [])
        inputs [] (with_bin.1 ∷ with_c.1 ∷ []) none)
  ok (finish_target e pushed.0 name p [] [] (node_of name target (pushed.1 ∷ []) (with_bin.1 ∷ [])))

unfoldable pub expand_kofun :
    Configuration → Toolchain → Expansion → Text → Target → Parents → Result BuildError Expansion
expand_kofun c toolchain e name target p = do
  driver ← from_option (no_kofunc name) toolchain.kofunc
  source ← single name target.srcs
  finish_kofun c e name target p driver source
