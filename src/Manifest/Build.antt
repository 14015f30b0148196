-- ===== src/Manifest/Build.antt =====
-- crates/frostbuild-core/src/manifest.rs: `build_target`, the checks that turn a `[target.*]` section
-- into a target of the graph. The checks of one kind are one function.
use frostbuild.Base.{
  Bool, true, not, ◌&&◌, ◌||◌, List, [], ◌∷◌, ◌++◌, map, Option, some, none, if◌then◌else◌,
  is_empty, any, Result, ok, err, ◌>>=◌, ◌>>◌, bail_if,
}
use frostbuild.Base.Text.{Text, codes, text_order}
use frostbuild.Base.BTreeMap.{contains_key}
use frostbuild.Base.BTreeSet.{keys}
use frostbuild.Paths.{PathError, validate_rel_path}
use frostbuild.Manifest.{
  TargetKind, cc_binary, cc_library, cc_test, genrule, test, kofun_binary, command, Target,
}
use frostbuild.Manifest.Raw.{RawTarget, RawCommandStep}
use frostbuild.Manifest.Names.{
  is_some, valid_target_name, valid_env_name, trim, contains, ends_with, contains_duplicate,
}

pub data Field : Type 0 where
  of_srcs of_includes of_inputs of_outputs of_clean_dirs of_depfile : Field

-- The messages of the `bail!` lines.
pub data TargetError : Type 0 where
  bad_name no_srcs genrule_fields command_fields source_count source_extension : TargetError
  c_fields no_cmd no_outputs srcs_not_inputs cmd_or_tool managed_outputs bad_tool : TargetError
  direct_extras duplicate_pass_env env_and_pass_env shared_outputs shared_depfile : TargetError
  shared_clean_dirs c_or_genrule_fields : TargetError
  bad_env_name bad_step_tool : Text → TargetError
  bad_path : Field → PathError → TargetError

-- The path lists after `validate_paths`.
pub record Paths : Type 0 where
  pub srcs : List Text
  pub includes : List Text
  pub inputs : List Text
  pub outputs : List Text
  pub clean_dirs : List Text
  pub depfile : Option Text

unfoldable pub validate_paths : List Text → Result PathError (List Text)
validate_paths [] = ok []
validate_paths (p ∷ raw) = do rel ← validate_rel_path p; out ← validate_paths raw; ok (rel ∷ out)

-- `.map(validate_rel_path).transpose()`
unfoldable pub validate_optional : Option Text → Result PathError (Option Text)
validate_optional none = ok none
validate_optional (some p) = do rel ← validate_rel_path p; ok (some rel)

-- `.context("srcs")` and the like.
abbrev pub context : {A : Type 0} → Field → Result PathError A → Result TargetError A
context field (ok a) = ok a
context field (err e) = err (bad_path field e)

unfoldable pub validate_all : RawTarget → Result TargetError Paths
unfolding validate_paths validate_optional
validate_all spec = do
  srcs ← context of_srcs (validate_paths spec.srcs)
  includes ← context of_includes (validate_paths spec.includes)
  inputs ← context of_inputs (validate_paths spec.inputs)
  outputs ← context of_outputs (validate_paths spec.outputs)
  clean_dirs ← context of_clean_dirs (validate_paths spec.clean_dirs)
  depfile ← context of_depfile (validate_optional spec.depfile)
  ok record {
    srcs = srcs;
    includes = includes;
    inputs = inputs;
    outputs = outputs;
    clean_dirs = clean_dirs;
    depfile = depfile;
  }

unfoldable pub has_command_fields : RawTarget → Paths → Bool
has_command_fields spec paths =
    is_some spec.tool
    || (not (is_empty spec.args)
        || (not (is_empty spec.env)
            || (not (is_empty spec.pass_env)
                || (not (is_empty spec.steps)
                    || (not (is_empty paths.clean_dirs)
                        || (spec.preserve_outputs || is_some paths.depfile))))))

abbrev pub has_genrule_fields : RawTarget → Paths → Bool
has_genrule_fields spec paths =
    is_some spec.cmd || (not (is_empty paths.inputs) || not (is_empty paths.outputs))

unfoldable pub validate_kofun_binary_sources : List Text → Result TargetError (Unit {0})
validate_kofun_binary_sources (src ∷ []) =
    bail_if (not (ends_with src (codes ".kofun"))) source_extension
validate_kofun_binary_sources srcs = err source_count

-- `as_deref().map(str::trim).unwrap_or("")`
abbrev pub trimmed : Option Text → Text
trimmed none = []
trimmed (some s) = trim s

-- The loop over `spec.env.keys().chain(&spec.pass_env)`.
unfoldable pub check_env_names : List Text → Result TargetError (Unit {0})
check_env_names [] = ok tt
check_env_names (name ∷ names) =
    bail_if (not (valid_env_name name)) (bad_env_name name) >> check_env_names names

unfoldable pub check_steps : List RawCommandStep → Result TargetError (Unit {0})
check_steps [] = ok tt
check_steps (step ∷ steps) =
    bail_if (not (valid_target_name step.tool)) (bad_step_tool step.tool) >> check_steps steps

unfoldable pub check_env : RawTarget → Result TargetError (Unit {0})
unfolding check_env_names
check_env spec = do
  check_env_names (keys spec.env ++ spec.pass_env)
  bail_if (contains_duplicate spec.pass_env) duplicate_pass_env
  bail_if (any (λ name. contains_key name spec.env) spec.pass_env) env_and_pass_env

unfoldable pub check_cc : RawTarget → Paths → Result TargetError (Unit {0})
unfolding has_command_fields
check_cc spec paths = do
  bail_if (is_empty paths.srcs) no_srcs
  bail_if (has_genrule_fields spec paths) genrule_fields
  bail_if (has_command_fields spec paths) command_fields

unfoldable pub check_kofun_binary : RawTarget → Paths → Result TargetError (Unit {0})
unfolding validate_kofun_binary_sources has_command_fields
check_kofun_binary spec paths = do
  validate_kofun_binary_sources paths.srcs
  bail_if
      (not (is_empty paths.includes) || (not (is_empty spec.cflags) || not (is_empty spec.ldflags)))
      c_fields
  bail_if (has_genrule_fields spec paths) genrule_fields
  bail_if (has_command_fields spec paths) command_fields

unfoldable pub check_genrule : RawTarget → Paths → Result TargetError (Unit {0})
unfolding has_command_fields
check_genrule spec paths = do
  bail_if (is_empty (trimmed spec.cmd)) no_cmd
  bail_if (is_empty paths.outputs) no_outputs
  bail_if (not (is_empty paths.srcs)) srcs_not_inputs
  bail_if (not (is_empty spec.cflags) || not (is_empty spec.ldflags)) c_fields
  bail_if (has_command_fields spec paths) command_fields

-- The part of a test that runs a named tool.
unfoldable pub check_direct : RawTarget → Paths → Result TargetError (Unit {0})
unfolding check_env
check_direct spec paths = do
  bail_if (not (valid_target_name (trimmed spec.tool))) bad_tool
  bail_if
      (not (is_empty spec.steps)
        || (not (is_empty paths.clean_dirs) || (spec.preserve_outputs || is_some paths.depfile)))
      direct_extras
  check_env spec

unfoldable pub check_test : RawTarget → Paths → Result TargetError (Unit {0})
unfolding check_direct has_command_fields
check_test spec paths =
    let has_shell = not (is_empty (trimmed spec.cmd)) in
    let has_direct = is_some spec.tool in
    do
      bail_if (if has_shell then has_direct else not has_direct) cmd_or_tool
      bail_if (not (is_empty paths.outputs)) managed_outputs
      bail_if (not (is_empty paths.srcs)) srcs_not_inputs
      bail_if (not (is_empty spec.cflags) || not (is_empty spec.ldflags)) c_fields
      bail_if (has_shell && has_command_fields spec paths) command_fields
      (if has_direct then check_direct spec paths else ok tt)

abbrev pub config_variable : Text
config_variable = codes "${config}"

-- `path.contains("${config}")`
abbrev pub is_isolated : Text → Bool
is_isolated path = contains path config_variable

abbrev pub depfile_is_isolated : Option Text → Bool
depfile_is_isolated none = true
depfile_is_isolated (some path) = is_isolated path

unfoldable pub check_command : RawTarget → Paths → Result TargetError (Unit {0})
unfolding check_env check_steps
check_command spec paths = do
  bail_if (not (valid_target_name (trimmed spec.tool))) bad_tool
  bail_if (is_empty paths.outputs) no_outputs
  bail_if (any (λ output. not (is_isolated output)) paths.outputs) shared_outputs
  bail_if (not (depfile_is_isolated paths.depfile)) shared_depfile
  bail_if (any (λ path. not (is_isolated path)) paths.clean_dirs) shared_clean_dirs
  bail_if
      (is_some spec.cmd
        || (not (is_empty paths.srcs)
            || (not (is_empty paths.includes)
                || (not (is_empty spec.cflags) || not (is_empty spec.ldflags)))))
      c_or_genrule_fields
  check_env spec
  check_steps spec.steps

-- `match spec.kind`
abbrev pub check_kind : RawTarget → Paths → TargetKind → Result TargetError (Unit {0})
check_kind spec paths cc_binary = check_cc spec paths
check_kind spec paths cc_library = check_cc spec paths
check_kind spec paths cc_test = check_cc spec paths
check_kind spec paths kofun_binary = check_kofun_binary spec paths
check_kind spec paths genrule = check_genrule spec paths
check_kind spec paths test = check_test spec paths
check_kind spec paths command = check_command spec paths

abbrev pub unwrap_or : Option Bool → Bool → Bool
unwrap_or none b = b
unwrap_or (some a) _ = a

abbrev pub target_of : Text → RawTarget → Paths → Target
target_of name spec paths = record {
  name = name;
  kind = spec.kind;
  srcs = paths.srcs;
  deps = spec.deps;
  includes = paths.includes;
  cflags = spec.cflags;
  ldflags = spec.ldflags;
  cmd = spec.cmd;
  tool = spec.tool;
  args = spec.args;
  env = spec.env;
  pass_env = spec.pass_env;
  steps = map (λ (step : RawCommandStep). record { tool = step.tool; args = step.args }) spec.steps;
  clean_dirs = paths.clean_dirs;
  preserve_outputs = spec.preserve_outputs;
  depfile = paths.depfile;
  inputs = paths.inputs;
  outputs = paths.outputs;
  sandbox = unwrap_or spec.sandbox true;
  package_dir = [];
}

unfoldable pub build_target : Text → RawTarget → Result TargetError Target
build_target name spec = do
  bail_if (not (valid_target_name name)) bad_name
  paths ← validate_all spec
  check_kind spec paths spec.kind
  ok (target_of name spec paths)
