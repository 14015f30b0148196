-- ===== src/Graph.antt =====
-- crates/frostbuild-core/src/graph.rs: the build graph's data, and the functions that extend it.
pub mod Claims
pub mod Owned
pub mod Closure
pub mod Toposort
pub mod Templates
pub mod SharedSet
pub mod CleanDirs
pub mod Build
use frostbuild.Base.{
  ℕ, ◌+◌, Bool, true, false, List, [], ◌∷◌, ◌++◌, Option, some, none, length, get_elem?, set,
  Result, ok, err,
}
use frostbuild.Base.Text.{Text, text_order}
use frostbuild.Base.BTreeMap.{BTreeMap, lookup, insert}
use frostbuild.Manifest.{TargetKind, Toolchain}

abbrev pub FileId : Type 0
FileId = ℕ

abbrev pub ActionId : Type 0
ActionId = ℕ

pub record FileNode : Type 0 where
  pub path : Text
  pub producer : Option ActionId

pub data ActionKind : Type 0 where
  compile archive link genrule test kofun_compile command : ActionKind

pub record ActionNode : Type 0 where
  pub id : Text
  pub desc : Text
  pub kind : ActionKind
  pub target : Text
  pub sandbox : Bool
  pub argv : List Text
  pub followup_argv : List (List Text)
  pub clean_dirs : List Text
  pub preserve_outputs : Bool
  pub env : BTreeMap Text Text
  pub pass_env : List Text
  pub inputs : List FileId
  pub order_only_inputs : List FileId
  pub outputs : List FileId
  pub depfile : Option Text

pub record TargetNode : Type 0 where
  pub name : Text
  pub kind : TargetKind
  pub deps : List Text
  pub actions : List ActionId
  pub outputs : List FileId

pub record BuildGraph : Type 0 where
  pub files : List FileNode
  pub actions : List ActionNode
  pub targets : BTreeMap Text TargetNode
  pub profile : Text
  pub platform : Text
  pub toolchain : Toolchain
  pub default_targets : List Text
  pub file_ids : BTreeMap Text FileId

-- `index_out_of_bounds` is the panic of a slice index.
pub data GraphError : Type 0 where
  produced_by_both : Text → Text → Text → GraphError
  index_out_of_bounds : GraphError
  unknown_target : Text → GraphError

-- `file`: the graph with the file's node, and its id.
unfoldable pub file : BuildGraph → Text → BuildGraph × FileId
file g path = elim (lookup path g.file_ids) [
  | some id ↦ (g, id)
  | none ↦ (
    record {
      files = g.files ++ record { path = path; producer = none } ∷ [];
      actions = g.actions;
      targets = g.targets;
      profile = g.profile;
      platform = g.platform;
      toolchain = g.toolchain;
      default_targets = g.default_targets;
      file_ids = insert path (length g.files) g.file_ids;
    },
    length g.files,
  )
]

abbrev pub claimed : FileNode → ActionId → FileNode
claimed node id = record { path = node.path; producer = some id }

-- The message names the other producer by `self.actions[other].id`.
unfoldable pub refuse : List ActionNode → Text → ActionId → Text → GraphError
refuse actions path other id = elim (get_elem? actions other) [
  | none ↦ index_out_of_bounds
  | some node ↦ produced_by_both path node.id id
]

-- The loop over `action.outputs`, with the files it has changed even when it fails.
unfoldable pub claim_outputs :
    List ActionNode
    → ActionNode
    → List FileId
    → List FileNode
    → List FileNode × Result GraphError (Unit {0})
unfolding refuse
claim_outputs actions action [] files = (files, ok tt)
claim_outputs actions action (out ∷ outputs) files = elim (get_elem? files out) [
  | none ↦ (files, err index_out_of_bounds)
  | some node ↦ elim node.producer [
    | some other ↦ (files, err (refuse actions node.path other action.id))
    | none ↦ claim_outputs actions action outputs (set files out (claimed node (length actions)))
  ]
]

abbrev pub with_files : BuildGraph → List FileNode → List ActionNode → BuildGraph
with_files g files actions = record {
  files = files;
  actions = actions;
  targets = g.targets;
  profile = g.profile;
  platform = g.platform;
  toolchain = g.toolchain;
  default_targets = g.default_targets;
  file_ids = g.file_ids;
}

unfoldable pub push_action : BuildGraph → ActionNode → BuildGraph × Result GraphError ActionId
push_action g action =
    let (files, claim) = claim_outputs g.actions action action.outputs g.files in
    elim claim [
      | err e ↦ (with_files g files g.actions, err e)
      | ok _ ↦ (with_files g files (g.actions ++ action ∷ []), ok (length g.actions))
    ]
