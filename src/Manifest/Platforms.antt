-- ===== src/Manifest/Platforms.antt =====
-- crates/frostbuild-core/src/manifest.rs: the toolchain of a platform, the root one with the overlay
-- of `[platform.<name>]`.
use frostbuild.Base.{
  List, [], ◌∷◌, ◌++◌, Option, some, none, if◌then◌else◌, Result, ok, err, is_empty,
}
use frostbuild.Base.Text.{Text, codes, text_eq, text_order}
use frostbuild.Base.BTreeMap.{BTreeMap, lookup, insert}
use frostbuild.Base.BTreeSet.{keys}
use frostbuild.Manifest.{Toolchain, Platform, Manifest, host_platform}
use frostbuild.Manifest.Closest.{closest}

pub data PlatformError : Type 0 where
  did_you_mean : Text → Text → PlatformError
  declares_none : Text → PlatformError
  declared : Text → List Text → PlatformError

-- `BTreeMap::extend`
abbrev pub extend : BTreeMap Text Text → BTreeMap Text Text → BTreeMap Text Text
extend m [] = m
extend m ((k, v) ∷ entries) = extend (insert k v m) entries

abbrev pub unwrap_or {ℓ} : {A : Type ℓ} → Option A → A → A
unwrap_or none a = a
unwrap_or (some b) a = b

abbrev pub or_else {ℓ} : {A : Type ℓ} → Option A → Option A → Option A
or_else none o = o
or_else (some a) o = some a

-- The flag that a sysroot stands for.
abbrev pub sysroot_flags : Option Text → List Text
sysroot_flags none = []
sysroot_flags (some sysroot) = (codes "--sysroot=" ++ sysroot) ∷ []

unfoldable pub overlay : Toolchain → Platform → Toolchain
overlay base spec = record {
  cc = unwrap_or spec.cc base.cc;
  cxx = unwrap_or spec.cxx base.cxx;
  ar = unwrap_or spec.ar base.ar;
  kofunc = or_else spec.kofunc base.kofunc;
  tools = extend base.tools spec.tools;
  arflags = unwrap_or spec.arflags base.arflags;
  cflags = (base.cflags ++ sysroot_flags spec.sysroot) ++ spec.cflags;
  cxxflags = base.cxxflags ++ spec.cxxflags;
  ldflags = (base.ldflags ++ sysroot_flags spec.sysroot) ++ spec.ldflags;
}

unfoldable pub unknown_platform : Text → List Text → PlatformError
unknown_platform platform known = elim (closest platform known) [
  | some hint ↦ did_you_mean platform hint
  | none ↦ if is_empty known then declares_none platform else declared platform known
]

unfoldable pub toolchain_for : Manifest → Text → Result PlatformError Toolchain
unfolding overlay unknown_platform
toolchain_for m platform =
    if text_eq platform host_platform then ok m.toolchain else elim (lookup platform m.platforms) [
      | none ↦ err (unknown_platform platform (keys m.platforms))
      | some spec ↦ ok (overlay m.toolchain spec)
    ]
