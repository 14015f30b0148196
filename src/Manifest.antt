-- ===== src/Manifest.antt =====
-- crates/frostbuild-core/src/manifest.rs: the manifest's data, its validation, the suggestions for
-- a misspelt name, and the toolchain of a platform. Reading TOML and globbing are left out.
pub mod Closest
pub mod Distance
pub mod Suggestion
pub mod Raw
pub mod Names
pub mod Build
pub mod Rules
pub mod Fields
pub mod Fits
pub mod WellFormed
pub mod Checked
pub mod Platforms
pub mod Resolved
pub mod Validated
use frostbuild.Base.{ℕ, Bool, List, Option}
use frostbuild.Base.Text.{Text, codes}
use frostbuild.Base.BTreeMap.{BTreeMap}

pub data TargetKind : Type 0 where
  cc_binary cc_library cc_test genrule test kofun_binary command : TargetKind

pub record Toolchain : Type 0 where
  pub cc : Text
  pub cxx : Text
  pub ar : Text
  pub kofunc : Option Text
  pub tools : BTreeMap Text Text
  pub arflags : List Text
  pub cflags : List Text
  pub cxxflags : List Text
  pub ldflags : List Text

pub record Platform : Type 0 where
  pub cc : Option Text
  pub cxx : Option Text
  pub ar : Option Text
  pub kofunc : Option Text
  pub tools : BTreeMap Text Text
  pub arflags : Option (List Text)
  pub sysroot : Option Text
  pub cflags : List Text
  pub cxxflags : List Text
  pub ldflags : List Text

pub record Profile : Type 0 where
  pub cflags : List Text
  pub cxxflags : List Text
  pub ldflags : List Text

pub record CommandStep : Type 0 where
  pub tool : Text
  pub args : List Text

pub record Target : Type 0 where
  pub name : Text
  pub kind : TargetKind
  pub srcs : List Text
  pub deps : List Text
  pub includes : List Text
  pub cflags : List Text
  pub ldflags : List Text
  pub cmd : Option Text
  pub tool : Option Text
  pub args : List Text
  pub env : BTreeMap Text Text
  pub pass_env : List Text
  pub steps : List CommandStep
  pub clean_dirs : List Text
  pub preserve_outputs : Bool
  pub depfile : Option Text
  pub inputs : List Text
  pub outputs : List Text
  pub sandbox : Bool
  pub package_dir : Text

pub record Manifest : Type 0 where
  pub default_targets : List Text
  pub toolchain : Toolchain
  pub platforms : BTreeMap Text Platform
  pub profiles : BTreeMap Text Profile
  pub targets : BTreeMap Text Target
  pub manifest_paths : List Text

abbrev pub host_platform : Text
host_platform = codes "host"

abbrev pub default_profile : Text
default_profile = codes "debug"
