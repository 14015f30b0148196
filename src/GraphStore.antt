-- ===== src/GraphStore.antt =====
-- crates/frostbuild-core/src/graph_store.rs: the stored graph, and the evidence that it is current. The
-- files are a map from paths to bytes; BLAKE3 and postcard are parameters, and errors of the file
-- system, but for a missing file, are not modelled.
pub mod Header
pub mod Parsed
pub mod Current
pub mod Warm
use frostbuild.Base.{
  ℕ, ◌+◌, ◌/◌, ◌%◌, Bool, true, false, not, ◌&&◌, ◌||◌, List, [], ◌∷◌, ◌++◌, map, Option, some,
  none, any, length, take, drop, leb, ◌==◌, if◌then◌else◌, Result, ok, err, ◌>>=◌, ◌>>◌, bail_if,
  is_empty, Ordering,
}
use frostbuild.Base.Text.{Text, codes, text_eq, text_cmp, text_order}
use frostbuild.Base.BTreeMap.{BTreeMap, lookup, insert}
use frostbuild.Manifest.{Manifest, host_platform}
use frostbuild.Graph.{BuildGraph}
use frostbuild.Graph.Build.{BuildError}
use frostbuild.Graph.Build.Expand.{from_manifest_configured}

abbrev pub Bytes : Type 0
Bytes = List ℕ

pub record DirStamp : Type 0 where
  pub path : Text
  pub mtime_ns : ℕ
  pub entries_hash : Text

pub record SourcesStamp : Type 0 where
  pub manifests : List (Text × Text)
  pub dirs : List DirStamp

-- A directory: its time of modification, and what it holds in the order of `read_dir`. `leaf` has the
-- name and the kind of what is no directory.
mutual
  pub data Directory : Type 0 where
    directory : ℕ → Entries → Directory

  pub data Entries : Type 0 where
    no_more : Entries
    leaf : Text → ℕ → Entries → Entries
    child : Text → Directory → Entries → Entries

-- What is read below the root: a file's bytes by its path, and the directories.
pub record Workspace : Type 0 where
  pub read : Text → Option Bytes
  pub tree : Directory

-- What the code takes from BLAKE3 and postcard. `fingerprint` is the digest of the three values that
-- `manifest_fingerprint` encodes. postcard passes over the `file_ids` of a graph (`serde(skip)`), so
-- that a graph that is decoded has none.
pub record Packages : Type 0 where
  pub hash : Bytes → Text
  pub fingerprint : Manifest → Text → Text → Bytes
  pub encode_stamp : SourcesStamp → Bytes
  pub decode_stamp : Bytes → Option SourcesStamp
  pub encode_graph : BuildGraph → Bytes
  pub decode_graph : Bytes → Option BuildGraph

-- The graph without its index of files, which is not stored.
abbrev pub without_ids : BuildGraph → BuildGraph
without_ids g = record g { file_ids = [] }

pub data StoreError : Type 0 where
  missing_manifest : Text → StoreError
  no_file invalid_header unsupported_version truncated_header corrupt_stamp : StoreError
  stale_store sources_changed corrupt_store : StoreError
  not_built : BuildError → StoreError

abbrev pub Files : Type 0
Files = BTreeMap Text Bytes

-- `slice::sort_by`, which is stable.
abbrev pub not_gt : Ordering → Bool
not_gt Ordering.gt = false
not_gt _ = true

abbrev pub insert_by : {A : Type 0} → (A → A → Bool) → A → List A → List A
insert_by le a [] = a ∷ []
insert_by le a (b ∷ sorted) = if le a b then a ∷ b ∷ sorted else b ∷ insert_by le a sorted

abbrev pub sort_by : {A : Type 0} → (A → A → Bool) → List A → List A
sort_by le [] = []
sort_by le (a ∷ list) = insert_by le a (sort_by le list)

abbrev pub is_skipped : Text → Bool
is_skipped name = any (text_eq name) (codes ".git" ∷ codes ".frost" ∷ codes "target" ∷ [])

-- The entries of a directory with their kinds, but for those that are passed over.
abbrev pub listed : Entries → List (Text × ℕ)
listed no_more = []
listed (leaf name kind entries) =
    if is_skipped name then listed entries else (name, kind) ∷ listed entries
listed (child name sub entries) =
    if is_skipped name then listed entries else (name, b'd') ∷ listed entries

abbrev pub entry_le : Text × ℕ → Text × ℕ → Bool
entry_le (name, kind) (other, kind') = elim (text_cmp name other) [
  | Ordering.lt ↦ true
  | Ordering.gt ↦ false
  | Ordering.eq ↦ leb kind kind'
]

-- `(n as u32).to_le_bytes()`
abbrev pub u32_bytes : ℕ → Bytes
u32_bytes n = n % 256 ∷ n / 256 % 256 ∷ n / 65536 % 256 ∷ n / 16777216 % 256 ∷ []

abbrev pub u64_bytes : ℕ → Bytes
u64_bytes n = u32_bytes (n % 4294967296) ++ u32_bytes (n / 4294967296)

-- `hash_os_str` and the kind, for each entry.
abbrev pub hashed : List (Text × ℕ) → Bytes
hashed [] = []
hashed ((name, kind) ∷ entries) = u64_bytes (length name) ++ (name ++ (kind ∷ hashed entries))

abbrev pub under : Text → Text → Text
under path name = if is_empty path then name else path ++ (codes "/" ++ name)

-- `walk_dirs`, with the children in the order of `read_dir`, as the caller sorts what it gets.
abbrev mutual
  pub walk_dirs : (Bytes → Text) → Text → Directory → List DirStamp
  walk_dirs hash path (directory mtime_ns entries) =
      record {
        path = path;
        mtime_ns = mtime_ns;
        entries_hash = hash (hashed (sort_by entry_le (listed entries)));
      }
      ∷ walk_children hash path entries

  pub walk_children : (Bytes → Text) → Text → Entries → List DirStamp
  walk_children hash path no_more = []
  walk_children hash path (leaf name kind entries) = walk_children hash path entries
  walk_children hash path (child name sub entries) =
      let rest = walk_children hash path entries in
      if is_skipped name then rest else walk_dirs hash (under path name) sub ++ rest

abbrev pub path_le : DirStamp → DirStamp → Bool
path_le a b = not_gt (text_cmp a.path b.path)

abbrev pub hash_manifests :
    (Bytes → Text) → Workspace → List Text → Result StoreError (List (Text × Text))
hash_manifests hash w [] = ok []
hash_manifests hash w (rel ∷ paths) = elim (w.read rel) [
  | none ↦ err (missing_manifest rel)
  | some bytes ↦ hash_manifests hash w paths >>= λ rest. ok ((rel, hash bytes) ∷ rest)
]

abbrev pub ignore_files : List Text
ignore_files = codes ".gitignore" ∷ codes ".frostignore" ∷ []

abbrev pub digest_or_absent : (Bytes → Text) → Option Bytes → Text
digest_or_absent hash none = codes "ABSENT"
digest_or_absent hash (some bytes) = hash bytes

abbrev pub hash_ignores : (Bytes → Text) → Workspace → List Text → List Text → List (Text × Text)
hash_ignores hash w paths [] = []
hash_ignores hash w paths (ignore ∷ ignores) =
    let rest = hash_ignores hash w paths ignores in
    if any (text_eq ignore) paths
    then rest
    else (ignore, digest_or_absent hash (w.read ignore)) ∷ rest

unfoldable pub sources_stamp :
    (Bytes → Text) → Workspace → List Text → Result StoreError SourcesStamp
sources_stamp hash w paths = do
  manifests ← hash_manifests hash w paths
  ok (record {
    manifests = manifests ++ hash_ignores hash w paths ignore_files;
    dirs = sort_by path_le (walk_dirs hash [] w.tree);
  })

-- `==` of two stamps.
abbrev pub same_manifests : List (Text × Text) → List (Text × Text) → Bool
same_manifests [] [] = true
same_manifests ((path, digest) ∷ ms) ((path', digest') ∷ ns) =
    text_eq path path' && (text_eq digest digest' && same_manifests ms ns)
same_manifests _ _ = false

abbrev pub same_dirs : List DirStamp → List DirStamp → Bool
same_dirs [] [] = true
same_dirs (d ∷ ds) (e ∷ es) =
    text_eq d.path e.path
    && (d.mtime_ns == e.mtime_ns && (text_eq d.entries_hash e.entries_hash && same_dirs ds es))
same_dirs _ _ = false

abbrev pub same_stamp : SourcesStamp → SourcesStamp → Bool
same_stamp s t = same_manifests s.manifests t.manifests && same_dirs s.dirs t.dirs

abbrev pub manifests_only : List (Text × Text) → List Text
manifests_only [] = []
manifests_only ((path, _) ∷ manifests) =
    if any (text_eq path) ignore_files
    then manifests_only manifests
    else path ∷ manifests_only manifests

unfoldable pub ensure_sources_current :
    (Bytes → Text) → Workspace → SourcesStamp → Result StoreError (Unit {0})
ensure_sources_current hash w stamp = do
  current ← sources_stamp hash w (manifests_only stamp.manifests)
  bail_if (not (same_stamp current stamp)) sources_changed
  ok tt

-- The paths `.frost/graph-….bin` under the root.
abbrev pub store_path : Text → Text → Text
store_path profile platform =
    if text_eq platform host_platform
    then codes ".frost/graph-" ++ (profile ++ codes ".bin")
    else codes ".frost/graph-" ++ (platform ++ (codes "-" ++ (profile ++ codes ".bin")))
