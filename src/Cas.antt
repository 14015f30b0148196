-- ===== src/Cas.antt =====
-- crates/frostbuild-core/src/cas.rs: the local content-addressed store. A store's directory is a map
-- from the names of its files (a digest, or two joined by a dash) to their contents; the shard
-- directories are left out. Staging files belong to one call and are values here. The chunks of
-- a blob are prepared one behind the other (`with_parallel_chunks(false)`).
pub mod Digests
pub mod Deltas
pub mod Publish
pub mod Restore
pub mod Chunked
pub mod Keeps
pub mod Verified
pub mod Sound
pub mod Preserved
pub mod Stored
pub mod Gc
pub mod Stats
pub mod ByKey
pub mod Eviction
use frostbuild.Base.{
  ℕ, ◌+◌, ◌*◌, Bool, true, false, List, [], ◌∷◌, Option, some, none, any, not, is_empty, ◌&&◌,
  if◌then◌else◌, Result, ok, err, ◌==◌,
}
use frostbuild.Base.Text.{Text, codes, text_eq, text_order}
use frostbuild.Base.Split.{split}
use frostbuild.Base.BTreeMap.{BTreeMap}

abbrev pub Bytes : Type 0
Bytes = List ℕ

-- A file: what it holds, and whether it may be executed.
pub record Blob : Type 0 where
  pub bytes : Bytes
  pub executable : Bool

pub record DeltaRef : Type 0 where
  pub base_sha256 : Text
  pub patch_sha256 : Text
  pub patch_bytes : ℕ

pub record ChunkRef : Type 0 where
  pub sha256 : Text
  pub length : ℕ
  pub delta : Option DeltaRef

pub record ChunkManifest : Type 0 where
  pub version : ℕ
  pub blob_digest : Text
  pub total_bytes : ℕ
  pub executable : Bool
  pub average : ℕ
  pub minimum : ℕ
  pub maximum : ℕ
  pub normalization : ℕ
  pub seed : ℕ
  pub chunks : List ChunkRef

-- The directories of the store, and the files of the workspace.
pub record Disk : Type 0 where
  pub objects : BTreeMap Text Blob
  pub chunks : BTreeMap Text Bytes
  pub manifests : BTreeMap Text Bytes
  pub deltas : BTreeMap Text Bytes
  pub artifacts : BTreeMap Text Text
  pub workspace : BTreeMap Text Blob
  pub changed : Bool

-- What the store takes from other packages: BLAKE3 of a file and of a path, SHA-256, zstd and
-- postcard. `compress` gives nothing where zstd fails. From the file system it takes whether a file
-- can be removed, and whether a staged file can be renamed to a path.
pub record Packages : Type 0 where
  pub hash_file : Blob → Text
  pub hash_path : Text → Text
  pub sha256 : Bytes → Text
  pub encode : ChunkManifest → Bytes
  pub decode : Bytes → Option ChunkManifest
  pub compress : Bytes → Option Bytes
  pub zstd_delta : Bytes → Bytes → Option Bytes
  pub zstd_undelta : Bytes → Bytes → ℕ → Option Bytes
  pub removes : Text → Disk → Bool
  pub renames : Text → Disk → Bool

pub data CasError : Type 0 where
  unreadable no_parent zstd_failed too_long chunker_rejected not_published : CasError
  changed_while_entering : Text → CasError

-- An operation changes the disk even where it fails.
abbrev pub Io : Type 0 → Type 0
Io A = Disk → Result CasError A × Disk

infixl 5 ◌>>=◌
abbrev pub ◌>>=◌ : {A B : Type 0} → Io A → (A → Io B) → Io B
◌>>=◌ m f d = let (r, d') = m d in elim r [ err e ↦ (err e, d') | ok a ↦ f a d' ]

infixl 5 ◌>>◌
abbrev pub ◌>>◌ : {B : Type 0} → Io (Unit {0}) → Io B → Io B
m >> k = m >>= λ _. k

abbrev pub pure : {A : Type 0} → A → Io A
pure a d = (ok a, d)

abbrev pub fail : {A : Type 0} → CasError → Io A
fail e d = (err e, d)

-- `let Some(a) = option else { ... };` in front of the rest.
abbrev pub let_some : {A B : Type 0} → Option A → Io B → (A → Io B) → Io B
let_some none otherwise rest = otherwise
let_some (some a) otherwise rest = rest a

-- `Option`'s value, or the error.
abbrev pub expect : {A : Type 0} → CasError → Option A → Io A
expect e none d = (err e, d)
expect e (some a) d = (ok a, d)

abbrev pub default_avg : ℕ
default_avg = 512 * 1024

abbrev pub default_min : ℕ
default_min = 128 * 1024

abbrev pub default_max : ℕ
default_max = 2 * 1024 * 1024

abbrev pub default_normalization : ℕ
default_normalization = 2

abbrev pub chunking_threshold : ℕ
chunking_threshold = default_max

abbrev pub chunk_manifest_version : ℕ
chunk_manifest_version = 2

-- `Path::parent` gives something: a relative path that is not empty has a component, and so has an
-- absolute one with a part that is neither empty nor a dot.
unfoldable pub has_parent : Text → Bool
has_parent [] = false
has_parent (c ∷ path) =
    if c == b'/'
    then any (λ part. not (is_empty part) && not (text_eq part (codes "."))) (split b'/' path)
    else true
