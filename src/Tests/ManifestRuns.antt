-- ===== src/Tests/ManifestRuns.antt =====
-- Runs of the manifest's checks and of the suggestions.
use frostbuild.Base.{ℕ, ◌≤◌, false, [], ◌∷◌, some, none, ◌≡◌, ◌≢◌, ◌↔◌, refl, sym, ◌∙◌, ok, err}
use frostbuild.Base.Text.{codes, text_eq, text_eq_iff, text_cmp, text_order}
use frostbuild.Base.Split.{split, join, contains_char}
use frostbuild.Base.BTreeMap.{lookup, insert, contains_key}
use frostbuild.Base.BTreeSet.{keys}
use frostbuild.Depfile.{is_whitespace}
use frostbuild.Paths.{validate_rel_path}
use frostbuild.Manifest.{genrule, Target, Toolchain, Platform, Manifest, host_platform}
use frostbuild.Manifest.Raw.{RawTarget, RawManifest}
use frostbuild.Manifest.Closest.{edit_distance, best_of, closest}
use frostbuild.Manifest.Distance.{Edits, edit_distance-minimal}
use frostbuild.Manifest.Suggestion.{Suggests, closest-Suggests}
use frostbuild.Manifest.Names.{
  valid_target_name, trim, contains_duplicate, contains_duplicate_iff, NoDup,
}
use frostbuild.Manifest.Build.{
  validate_paths, validate_optional, validate_all, has_command_fields, check_genrule, target_of,
  build_target,
}
use frostbuild.Manifest.Rules.{IsWellFormed}
use frostbuild.Manifest.WellFormed.{build_target-IsWellFormed}
use frostbuild.Manifest.Platforms.{
  PlatformError, did_you_mean, or_else, overlay, unknown_platform, toolchain_for,
}
use frostbuild.Manifest.Resolved.{Reports, toolchain_for-tools, toolchain_for-unknown}
use frostbuild.Manifest.Checked.{
  build_targets, build_platforms, binaries, default_targets_of, from_raw_unvalidated, validate_deps,
  validate_each, validate_dependencies, validate_default_targets, from_raw,
}
use frostbuild.Manifest.Validated.{IsChecked, from_raw-IsChecked}

edit_distance-minimal_example :
    Edits (codes "app") (codes "map") (edit_distance (codes "app") (codes "map"))
    × ((n : ℕ)
        → Edits (codes "app") (codes "map") n
        → edit_distance (codes "app") (codes "map") ≤ n)
edit_distance-minimal_example = edit_distance-minimal (codes "app") (codes "map")

run_edit_distance : edit_distance (codes "kitten") (codes "sitting") ≡ 3
unfolding edit_distance
run_edit_distance = refl

closest-Suggests_example :
    Suggests
      (codes "ap")
      (codes "app" ∷ codes "lib" ∷ [])
      (closest (codes "ap") (codes "app" ∷ codes "lib" ∷ []))
closest-Suggests_example = closest-Suggests (codes "ap") (codes "app" ∷ codes "lib" ∷ [])

contains_duplicate_iff_example :
    (contains_duplicate (codes "A" ∷ codes "B" ∷ []) ≡ false) ↔ NoDup (codes "A" ∷ codes "B" ∷ [])
contains_duplicate_iff_example = contains_duplicate_iff (codes "A" ∷ codes "B" ∷ [])

abbrev pub copy_rule : RawTarget
copy_rule = record {
  kind = genrule;
  srcs = [];
  deps = [];
  includes = [];
  cflags = [];
  ldflags = [];
  cmd = some (codes "cp a b");
  tool = none;
  args = [];
  env = [];
  pass_env = [];
  steps = [];
  clean_dirs = [];
  preserve_outputs = false;
  depfile = none;
  inputs = codes "./a" ∷ [];
  outputs = codes "b" ∷ [];
  sandbox = none;
}

abbrev pub copy_target : Target
copy_target = target_of (codes "copy") copy_rule (record {
  srcs = [];
  includes = [];
  inputs = codes "a" ∷ [];
  outputs = codes "b" ∷ [];
  clean_dirs = [];
  depfile = none;
})

pub run_build_target : build_target (codes "copy") copy_rule ≡ ok copy_target
unfolding build_target valid_target_name validate_all validate_paths validate_optional
    validate_rel_path check_genrule has_command_fields trim is_whitespace split join contains_char
    text_eq
run_build_target = refl

build_target-IsWellFormed_example : IsWellFormed copy_target
build_target-IsWellFormed_example =
    build_target-IsWellFormed (codes "copy") copy_rule copy_target run_build_target

abbrev pub sample_raw : RawManifest
sample_raw = record {
  workspace = record { name = none; default_targets = [] };
  toolchain = record {
    cc = none;
    cxx = none;
    ar = none;
    kofunc = none;
    tools = [];
    arflags = none;
    cflags = [];
    cxxflags = [];
    ldflags = [];
  };
  platform = [];
  profile = [];
  target = (codes "copy", copy_rule) ∷ [];
}

abbrev pub sample_toolchain : Toolchain
sample_toolchain = record {
  cc = codes "cc";
  cxx = codes "c++";
  ar = codes "ar";
  kofunc = none;
  tools = [];
  arflags = codes "rcsD" ∷ [];
  cflags = [];
  cxxflags = [];
  ldflags = [];
}

abbrev pub sample_manifest : Manifest
sample_manifest = record {
  default_targets = codes "copy" ∷ [];
  toolchain = sample_toolchain;
  platforms = [];
  profiles = [];
  targets = (codes "copy", copy_target) ∷ [];
  manifest_paths = [];
}

pub run_from_raw : from_raw sample_raw ≡ ok sample_manifest
unfolding from_raw from_raw_unvalidated build_targets build_platforms binaries default_targets_of
    validate_deps validate_each validate_dependencies validate_default_targets contains_key lookup
    insert text_cmp build_target valid_target_name validate_all validate_paths validate_optional
    validate_rel_path check_genrule has_command_fields trim is_whitespace split join contains_char
    text_eq
run_from_raw = refl

from_raw-IsChecked_example : IsChecked sample_manifest
from_raw-IsChecked_example = from_raw-IsChecked sample_raw sample_manifest run_from_raw

abbrev arm : Platform
arm = record {
  cc = some (codes "arm-cc");
  cxx = none;
  ar = none;
  kofunc = none;
  tools = (codes "javac", codes "/opt/javac") ∷ [];
  arflags = none;
  sysroot = some (codes "/arm");
  cflags = [];
  cxxflags = [];
  ldflags = [];
}

abbrev with_arm : Manifest
with_arm = record sample_manifest { platforms = (codes "arm", arm) ∷ [] }

abbrev arm_toolchain : Toolchain
arm_toolchain = record {
  cc = codes "arm-cc";
  cxx = codes "c++";
  ar = codes "ar";
  kofunc = none;
  tools = (codes "javac", codes "/opt/javac") ∷ [];
  arflags = codes "rcsD" ∷ [];
  cflags = codes "--sysroot=/arm" ∷ [];
  cxxflags = [];
  ldflags = codes "--sysroot=/arm" ∷ [];
}

run_toolchain_for : toolchain_for with_arm (codes "arm") ≡ ok arm_toolchain
unfolding toolchain_for overlay lookup insert text_cmp text_eq
run_toolchain_for = refl

run_toolchain_for_hint :
    toolchain_for with_arm (codes "amr") ≡ err (did_you_mean (codes "amr") (codes "arm"))
unfolding toolchain_for unknown_platform closest best_of edit_distance lookup text_cmp text_eq
run_toolchain_for_hint = refl

arm_found : lookup (codes "arm") with_arm.platforms ≡ some arm
unfolding lookup text_cmp
arm_found = refl

arm_not_host : codes "arm" ≢ host_platform
arm_not_host e = cc (sym differ ∙ (text_eq_iff (codes "arm") host_platform).1 e)
  where
    differ : text_eq (codes "arm") host_platform ≡ false
    differ = unfold text_eq in refl

toolchain_for-tools_example :
    lookup (codes "javac") arm_toolchain.tools
    ≡ or_else (lookup (codes "javac") arm.tools) (lookup (codes "javac") with_arm.toolchain.tools)
toolchain_for-tools_example =
    toolchain_for-tools with_arm (codes "arm") arm arm_toolchain (codes "javac") arm_not_host
      arm_found (tt, tt) run_toolchain_for

amr_missing : lookup (codes "amr") with_arm.platforms ≡ none
unfolding lookup text_cmp
amr_missing = refl

amr_not_host : codes "amr" ≢ host_platform
amr_not_host e = cc (sym differ ∙ (text_eq_iff (codes "amr") host_platform).1 e)
  where
    differ : text_eq (codes "amr") host_platform ≡ false
    differ = unfold text_eq in refl

toolchain_for-unknown_example :
    (e : PlatformError) × (toolchain_for with_arm (codes "amr") ≡ err e)
    × Reports (codes "amr") (keys with_arm.platforms) e
toolchain_for-unknown_example =
    toolchain_for-unknown with_arm (codes "amr") amr_not_host amr_missing
