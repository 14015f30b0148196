-- ===== src/Manifest/Checked.antt =====
-- crates/frostbuild-core/src/manifest.rs: a whole manifest from its sections, and the checks across
-- targets.
use frostbuild.Base.{
  Bool, true, false, not, List, [], ◌∷◌, if◌then◌else◌, is_empty, Result, ok, err, ◌>>=◌, ◌>>◌,
  bail_if,
}
use frostbuild.Base.Text.{Text, codes, text_eq, text_order}
use frostbuild.Base.BTreeMap.{BTreeMap, insert, contains_key}
use frostbuild.Base.BTreeSet.{keys}
use frostbuild.Manifest.{
  TargetKind, cc_binary, kofun_binary, Target, Toolchain, Platform, Profile, Manifest,
  host_platform,
}
use frostbuild.Manifest.Raw.{RawToolchain, RawPlatform, RawProfile, RawTarget, RawManifest}
use frostbuild.Manifest.Names.{valid_target_name}
use frostbuild.Manifest.Build.{TargetError, build_target}
use frostbuild.Manifest.Platforms.{unwrap_or}

pub data ManifestError : Type 0 where
  invalid_target : Text → TargetError → ManifestError
  reserved_platform no_targets : ManifestError
  bad_platform_name unknown_default : Text → ManifestError
  depends_on_itself : Text → ManifestError
  unknown_dep : Text → Text → ManifestError

abbrev pub with_context : {A : Type 0} → Text → Result TargetError A → Result ManifestError A
with_context name (ok a) = ok a
with_context name (err e) = err (invalid_target name e)

-- The loop over `raw.target`, in the order of the names.
unfoldable pub build_targets :
    BTreeMap Text RawTarget → BTreeMap Text Target → Result ManifestError (BTreeMap Text Target)
build_targets [] targets = ok targets
build_targets ((name, spec) ∷ raw) targets = do
  target ← with_context name (build_target name spec)
  build_targets raw (insert name target targets)

abbrev is_binary : TargetKind → Bool
is_binary cc_binary = true
is_binary kofun_binary = true
is_binary _ = false

unfoldable pub binaries : BTreeMap Text Target → List Text
binaries [] = []
binaries ((_, t) ∷ targets) =
    let rest = binaries targets in if is_binary t.kind then t.name ∷ rest else rest

unfoldable pub default_targets_of : List Text → BTreeMap Text Target → List Text
unfolding binaries
default_targets_of [] targets =
    if is_empty (binaries targets) then keys targets else binaries targets
default_targets_of declared targets = declared

abbrev platform_of : RawPlatform → Platform
platform_of spec = record {
  cc = spec.cc;
  cxx = spec.cxx;
  ar = spec.ar;
  kofunc = spec.kofunc;
  tools = spec.tools;
  arflags = spec.arflags;
  sysroot = spec.sysroot;
  cflags = spec.cflags;
  cxxflags = spec.cxxflags;
  ldflags = spec.ldflags;
}

-- The loop over `raw.platform`.
unfoldable pub build_platforms :
    BTreeMap Text RawPlatform
    → BTreeMap Text Platform
    → Result ManifestError (BTreeMap Text Platform)
build_platforms [] platforms = ok platforms
build_platforms ((name, spec) ∷ raw) platforms = do
  bail_if (text_eq name host_platform) reserved_platform
  bail_if (not (valid_target_name name)) (bad_platform_name name)
  build_platforms raw (insert name (platform_of spec) platforms)

abbrev toolchain_of : RawToolchain → Toolchain
toolchain_of raw = record {
  cc = unwrap_or raw.cc (codes "cc");
  cxx = unwrap_or raw.cxx (codes "c++");
  ar = unwrap_or raw.ar (codes "ar");
  kofunc = raw.kofunc;
  tools = raw.tools;
  arflags = unwrap_or raw.arflags (codes "rcsD" ∷ []);
  cflags = raw.cflags;
  cxxflags = raw.cxxflags;
  ldflags = raw.ldflags;
}

abbrev profiles_of : BTreeMap Text RawProfile → BTreeMap Text Profile
profiles_of [] = []
profiles_of ((name, p) ∷ raw) =
    (name, record { cflags = p.cflags; cxxflags = p.cxxflags; ldflags = p.ldflags })
    ∷ profiles_of raw

unfoldable pub from_raw_unvalidated : RawManifest → Result ManifestError Manifest
unfolding build_targets build_platforms default_targets_of
from_raw_unvalidated raw = do
  targets ← build_targets raw.target []
  platforms ← build_platforms raw.platform []
  ok record {
    default_targets = default_targets_of raw.workspace.default_targets targets;
    toolchain = toolchain_of raw.toolchain;
    platforms = platforms;
    profiles = profiles_of raw.profile;
    targets = targets;
    manifest_paths = [];
  }

-- The loop over the dependencies of one target.
unfoldable pub validate_deps :
    BTreeMap Text Target → Text → List Text → Result ManifestError (Unit {0})
validate_deps targets name [] = ok tt
validate_deps targets name (dep ∷ deps) = do
  bail_if (text_eq dep name) (depends_on_itself name)
  bail_if (not (contains_key dep targets)) (unknown_dep name dep)
  validate_deps targets name deps

unfoldable pub validate_each :
    BTreeMap Text Target → BTreeMap Text Target → Result ManifestError (Unit {0})
unfolding validate_deps
validate_each all_targets [] = ok tt
validate_each all_targets ((_, target) ∷ targets) =
    validate_deps all_targets target.name target.deps >> validate_each all_targets targets

unfoldable pub validate_dependencies : BTreeMap Text Target → Result ManifestError (Unit {0})
unfolding validate_each
validate_dependencies targets = validate_each targets targets

unfoldable pub validate_default_targets :
    BTreeMap Text Target → List Text → Result ManifestError (Unit {0})
validate_default_targets targets [] = ok tt
validate_default_targets targets (name ∷ names) =
    bail_if (not (contains_key name targets)) (unknown_default name)
    >> validate_default_targets targets names

unfoldable pub from_raw : RawManifest → Result ManifestError Manifest
from_raw raw = do
  manifest ← from_raw_unvalidated raw
  bail_if (is_empty manifest.targets) no_targets
  validate_dependencies manifest.targets
  validate_default_targets manifest.targets manifest.default_targets
  ok manifest
