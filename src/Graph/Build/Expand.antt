-- ===== src/Graph/Build/Expand.antt =====
-- crates/frostbuild-core/src/graph.rs: `from_manifest_configured` as a whole: the checks of the profile
-- and the platform, the targets in their order, and the check of the clean directories.
use frostbuild.Base.{
  Bool, not, ◌&&◌, ◌||◌, List, [], ◌∷◌, ◌++◌, some, none, all, is_empty, ◌==◌, if◌then◌else◌,
  Result, ok, ◌>>=◌, ◌>>◌, bail_if,
}
use frostbuild.Base.Text.{Text, codes, text_eq, text_order}
use frostbuild.Base.BTreeMap.{BTreeMap, lookup, contains_key}
use frostbuild.Base.BTreeSet.{keys}
use frostbuild.Manifest.{
  Toolchain, Profile, Target, TargetKind, Manifest, host_platform, default_profile,
}
use frostbuild.Manifest.Closest.{closest}
use frostbuild.Manifest.Names.{is_ascii_alphanumeric}
use frostbuild.Manifest.Platforms.{toolchain_for}
use frostbuild.Graph.{BuildGraph}
use frostbuild.Graph.Templates.{Configuration}
use frostbuild.Graph.Toposort.{toposort_targets}
use frostbuild.Graph.SharedSet.{join_set}
use frostbuild.Graph.CleanDirs.{validate_clean_dirs}
use frostbuild.Graph.Build.{
  BuildError, invalid_profile, unknown_profile, undeclared_profile, platform_error, order_error,
  clean_dir_error, panics, lift, from_option, Expansion, dep_sets, Parents,
}
use frostbuild.Graph.Build.Rules.{expand_genrule, expand_test, expand_command, expand_kofun}
use frostbuild.Graph.Build.Compile.{expand_cc}

abbrev pub valid_profile : Text → Bool
valid_profile profile =
    not (is_empty profile) && all (λ c. is_ascii_alphanumeric c || (c == b'_' || c == b'-')) profile

-- A profile that is not declared, where some are.
abbrev pub unknown_of : Text → List Text → BuildError
unknown_of profile known = elim (closest profile known) [
  | some hint ↦ unknown_profile profile hint
  | none ↦ undeclared_profile profile known
]

unfoldable pub check_profile : Manifest → Text → Result BuildError (Unit {0})
check_profile m profile = do
  bail_if (not (valid_profile profile)) (invalid_profile profile)
  bail_if
      (not (is_empty m.profiles)
        && not (text_eq profile default_profile)
        && not (contains_key profile m.profiles))
      (unknown_of profile (keys m.profiles))
  ok tt

abbrev pub tree_of : Text → Text → Text
tree_of profile platform =
    if text_eq platform host_platform then profile else platform ++ (codes "/" ++ profile)

abbrev pub no_flags : Profile
no_flags = record { cflags = []; cxxflags = []; ldflags = [] }

abbrev pub flags_of : Manifest → Text → Profile
flags_of m profile = elim (lookup profile m.profiles) [ none ↦ no_flags | some flags ↦ flags ]

abbrev pub expand_kind :
    TargetKind
    → Configuration
    → Toolchain
    → Profile
    → Expansion
    → Text
    → Target
    → Parents
    → Result BuildError Expansion
expand_kind TargetKind.genrule c tc profile e name target p = expand_genrule e name target p
expand_kind TargetKind.test c tc profile e name target p = expand_test c tc e name target p
expand_kind TargetKind.command c tc profile e name target p = expand_command c tc e name target p
expand_kind TargetKind.kofun_binary c tc profile e name target p = expand_kofun c tc e name target p
expand_kind _ c tc profile e name target p = expand_cc c tc profile e name target p

unfoldable pub expand_target :
    Configuration
    → Toolchain
    → Profile
    → BTreeMap Text Target
    → Text
    → Expansion
    → Result BuildError Expansion
expand_target c tc profile targets name e = do
  target ← from_option panics (lookup name targets)
  include_parents ← dep_sets e.exported_includes target.deps
  let (sets, include_set) = join_set target.includes include_parents e.sets
  lib_parents ← dep_sets e.exported_libs target.deps
  gen_parents ← dep_sets e.genrule_outputs target.deps
  expand_kind target.kind c tc profile (record e { sets = sets }) name target
      (record { include_set = include_set; lib_parents = lib_parents; gen_parents = gen_parents })

unfoldable pub expand_all :
    Configuration
    → Toolchain
    → Profile
    → BTreeMap Text Target
    → List Text
    → Expansion
    → Result BuildError Expansion
expand_all c tc profile targets [] e = ok e
expand_all c tc profile targets (name ∷ order) e = do
  e' ← expand_target c tc profile targets name e
  expand_all c tc profile targets order e'

abbrev pub empty_graph : Text → Text → Toolchain → List Text → BuildGraph
empty_graph profile platform toolchain default_targets = record {
  files = [];
  actions = [];
  targets = [];
  profile = profile;
  platform = platform;
  toolchain = toolchain;
  default_targets = default_targets;
  file_ids = [];
}

abbrev pub nothing_expanded : BuildGraph → Expansion
nothing_expanded g = record {
  graph = g;
  sets = [];
  exported_includes = [];
  exported_libs = [];
  genrule_outputs = [];
}

unfoldable pub from_manifest_configured : Manifest → Text → Text → Result BuildError BuildGraph
from_manifest_configured m profile platform = do
  check_profile m profile
  toolchain ← lift platform_error (toolchain_for m platform)
  order ← lift order_error (toposort_targets m.targets)
  let c : Configuration = record {
    tree = tree_of profile platform;
    profile = profile;
    platform = platform;
  }
  e ←
      expand_all c toolchain (flags_of m profile) m.targets order
        (nothing_expanded (empty_graph profile platform toolchain m.default_targets))
  lift clean_dir_error (validate_clean_dirs e.graph)
  ok e.graph

-- `from_manifest` and `from_manifest_with_profile`
abbrev pub from_manifest_with_profile : Manifest → Text → Result BuildError BuildGraph
from_manifest_with_profile m profile = from_manifest_configured m profile host_platform

abbrev pub from_manifest : Manifest → Result BuildError BuildGraph
from_manifest m = from_manifest_with_profile m default_profile
