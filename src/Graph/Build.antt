-- ===== src/Graph/Build.antt =====
-- crates/frostbuild-core/src/graph.rs: `from_manifest_configured`, which turns the targets of a manifest
-- into files and actions. An error discards the graph that was begun.
pub mod Rules
pub mod Compile
pub mod Expand
pub mod Grown
pub mod Steps
pub mod Pushed
pub mod Sound
pub mod Commands
pub mod Linked
pub mod Configured
use frostbuild.Base.{
  ℕ, Bool, true, false, not, ◌&&◌, ◌||◌, List, [], ◌∷◌, ◌++◌, Option, some, none, any, get_elem?,
  Result, ok, err, ◌>>=◌, ◌==◌, if◌then◌else◌,
}
use frostbuild.Base.Order.{nat_order}
use frostbuild.Base.Text.{Text, codes, text_order}
use frostbuild.Base.BTreeMap.{BTreeMap, lookup, insert}
use frostbuild.Manifest.{Target}
use frostbuild.Manifest.Platforms.{PlatformError}
use frostbuild.Manifest.Names.{starts_with, contains}
use frostbuild.Graph.{
  FileId, ActionId, FileNode, ActionKind, ActionNode, TargetNode, BuildGraph, GraphError, file,
  push_action,
}
use frostbuild.Graph.Toposort.{TopoError}
use frostbuild.Graph.Templates.{TemplateError}
use frostbuild.Graph.CleanDirs.{CleanDirError}
use frostbuild.Graph.SharedSet.{SharedSet, join_set}

-- `panics` is the panic of an index, of `unwrap` and of `expect`.
pub data BuildError : Type 0 where
  invalid_profile : Text → BuildError
  unknown_profile : Text → Text → BuildError
  undeclared_profile : Text → List Text → BuildError
  platform_error : PlatformError → BuildError
  order_error : TopoError → BuildError
  template_error : TemplateError → BuildError
  graph_error : GraphError → BuildError
  clean_dir_error : CleanDirError → BuildError
  no_test_tool no_command_tool : Text → Text → List Text → BuildError
  no_step_tool : Text → Text → BuildError
  no_kofunc : Text → BuildError
  kofun_sources : Text → ℕ → BuildError
  panics : BuildError

abbrev pub lift : {E A : Type 0} → (E → BuildError) → Result E A → Result BuildError A
lift as_error (ok a) = ok a
lift as_error (err e) = err (as_error e)

abbrev pub from_option : {A : Type 0} → BuildError → Option A → Result BuildError A
from_option missing none = err missing
from_option missing (some a) = ok a

-- The graph so far, and for each target done the set of the include directories, libraries and
-- generated files that it hands on.
pub record Expansion : Type 0 where
  pub graph : BuildGraph
  pub sets : List SharedSet
  pub exported_includes : BTreeMap Text ℕ
  pub exported_libs : BTreeMap Text ℕ
  pub genrule_outputs : BTreeMap Text ℕ

-- `target.deps.iter().map(|dep| map[dep].clone())`
abbrev pub dep_sets : BTreeMap Text ℕ → List Text → Result BuildError (List ℕ)
dep_sets exported [] = ok []
dep_sets exported (dep ∷ deps) = elim (lookup dep exported) [
  | none ↦ err panics
  | some node ↦ dep_sets exported deps >>= λ rest. ok (node ∷ rest)
]

-- `graph.file` for each path.
unfoldable pub add_files : BuildGraph → List Text → BuildGraph × List FileId
add_files g [] = (g, [])
add_files g (path ∷ paths) =
    let (g1, id) = file g path in let (g2, ids) = add_files g1 paths in (g2, id ∷ ids)

unfoldable pub dep_outputs : BuildGraph → Text → List FileId
dep_outputs g dep = elim (lookup dep g.targets) [ none ↦ [] | some t ↦ t.outputs ]

abbrev pub all_dep_outputs : BuildGraph → List Text → List FileId
all_dep_outputs g [] = []
all_dep_outputs g (dep ∷ deps) = dep_outputs g dep ++ all_dep_outputs g deps

-- `if !inputs.contains(&id) { inputs.push(id); }`
abbrev pub push_new : FileId → List FileId → List FileId
push_new id inputs = if any (λ i. i == id) inputs then inputs else inputs ++ id ∷ []

abbrev pub push_each_new : List FileId → List FileId → List FileId
push_each_new [] inputs = inputs
push_each_new (id ∷ ids) inputs = push_each_new ids (push_new id inputs)

-- A driver that is a path within the workspace is an input.
abbrev pub is_workspace_path : Text → Bool
is_workspace_path driver = contains driver (codes "/") && not (starts_with driver (codes "/"))

unfoldable pub add_tool : BuildGraph → Text → List FileId → BuildGraph × List FileId
add_tool g driver inputs =
    let (g', id) = file g driver in
    if is_workspace_path driver then (g', push_new id inputs) else (g, inputs)

-- `graph.files[file].path` for each file.
abbrev pub paths_of : BuildGraph → List FileId → Result BuildError (List Text)
paths_of g [] = ok []
paths_of g (f ∷ files) = elim (get_elem? g.files f) [
  | none ↦ err panics
  | some node ↦ paths_of g files >>= λ rest. ok (node.path ∷ rest)
]

-- `graph.push_action(action)?`
unfoldable pub push : BuildGraph → ActionNode → Result BuildError (BuildGraph × ActionId)
push g action =
    let (g', pushed) = push_action g action in
    elim pushed [ err e ↦ err (graph_error e) | ok id ↦ ok (g', id) ]

-- An action of which only these are set.
abbrev pub plain_action :
    ActionKind
    → (id desc name : Text) → Target
    → (argv : List Text) → (inputs order_only_inputs outputs : List FileId) → Option Text
    → ActionNode
plain_action kind id desc name target argv inputs order_only_inputs outputs depfile = record {
  id = id;
  desc = desc;
  kind = kind;
  target = name;
  sandbox = target.sandbox;
  argv = argv;
  followup_argv = [];
  clean_dirs = [];
  preserve_outputs = false;
  env = [];
  pass_env = [];
  inputs = inputs;
  order_only_inputs = order_only_inputs;
  outputs = outputs;
  depfile = depfile;
}

-- What a target refers to: the set of its own and its dependencies' include directories, and the
-- sets of its dependencies.
pub record Parents : Type 0 where
  pub include_set : ℕ
  pub lib_parents : List ℕ
  pub gen_parents : List ℕ

abbrev pub node_of : Text → Target → List ActionId → List FileId → TargetNode
node_of name target actions outputs = record {
  name = name;
  kind = target.kind;
  deps = target.deps;
  actions = actions;
  outputs = outputs;
}

-- The end of a target: what it hands on, and its node.
unfoldable pub finish_target :
    Expansion → BuildGraph → Text → Parents → (libs gens : List Text) → TargetNode → Expansion
unfolding join_set
finish_target e g name p libs gens node =
    let (sets1, lib_set) = join_set libs p.lib_parents e.sets in
    let (sets2, gen_set) = join_set gens p.gen_parents sets1 in
    record {
      graph = record {
        files = g.files;
        actions = g.actions;
        targets = insert name node g.targets;
        profile = g.profile;
        platform = g.platform;
        toolchain = g.toolchain;
        default_targets = g.default_targets;
        file_ids = g.file_ids;
      };
      sets = sets2;
      exported_includes = insert name p.include_set e.exported_includes;
      exported_libs = insert name lib_set e.exported_libs;
      genrule_outputs = insert name gen_set e.genrule_outputs;
    }
