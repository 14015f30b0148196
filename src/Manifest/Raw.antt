-- ===== src/Manifest/Raw.antt =====
-- crates/frostbuild-core/src/manifest.rs: the sections of frost.toml as serde reads them.
use frostbuild.Base.{Bool, List, Option}
use frostbuild.Base.Text.{Text}
use frostbuild.Base.BTreeMap.{BTreeMap}
use frostbuild.Manifest.{TargetKind}

pub record RawWorkspace : Type 0 where
  pub name : Option Text
  pub default_targets : List Text

pub record RawToolchain : Type 0 where
  pub cc : Option Text
  pub cxx : Option Text
  pub ar : Option Text
  pub kofunc : Option Text
  pub tools : BTreeMap Text Text
  pub arflags : Option (List Text)
  pub cflags : List Text
  pub cxxflags : List Text
  pub ldflags : List Text

pub record RawPlatform : Type 0 where
  pub cc : Option Text
  pub cxx : Option Text
  pub ar : Option Text
  pub kofunc : Option Text
  pub tools : BTreeMap Text Text
  pub arflags : Option (List Text)
  pub sysroot : Option Text
  pub cflags : List Text
  pub cxxflags : List Text
  pub ldflags : List Text

pub record RawProfile : Type 0 where
  pub cflags : List Text
  pub cxxflags : List Text
  pub ldflags : List Text

pub record RawCommandStep : Type 0 where
  pub tool : Text
  pub args : List Text

pub record RawTarget : Type 0 where
  pub kind : TargetKind
  pub srcs : List Text
  pub deps : List Text
  pub includes : List Text
  pub cflags : List Text
  pub ldflags : List Text
  pub cmd : Option Text
  pub tool : Option Text
  pub args : List Text
  pub env : BTreeMap Text Text
  pub pass_env : List Text
  pub steps : List RawCommandStep
  pub clean_dirs : List Text
  pub preserve_outputs : Bool
  pub depfile : Option Text
  pub inputs : List Text
  pub outputs : List Text
  pub sandbox : Option Bool

pub record RawManifest : Type 0 where
  pub workspace : RawWorkspace
  pub toolchain : RawToolchain
  pub platform : BTreeMap Text RawPlatform
  pub profile : BTreeMap Text RawProfile
  pub target : BTreeMap Text RawTarget
