-- ===== src/GraphStore/Header.antt =====
-- crates/frostbuild-core/src/graph_store.rs: the bytes of a stored graph, loading, saving, and compiling
-- when nothing stored is of use.
use frostbuild.Base.{
  ℕ, ◌+◌, ◌*◌, Bool, true, false, not, ◌&&◌, List, ◌∷◌, ◌++◌, Option, some, none, length, take,
  drop, leb, ◌==◌, Result, ok, err, ◌>>=◌, ◌>>◌, bail_if,
}
use frostbuild.Base.Text.{Text, codes, text_eq, text_order}
use frostbuild.Base.BTreeMap.{lookup, insert}
use frostbuild.Manifest.{Manifest}
use frostbuild.Graph.{BuildGraph}
use frostbuild.Graph.Build.Expand.{from_manifest_configured}
use frostbuild.GraphStore.{
  Bytes, SourcesStamp, Workspace, Packages, StoreError, no_file, invalid_header,
  unsupported_version, truncated_header, corrupt_stamp, stale_store, corrupt_store, not_built,
  Files, u32_bytes, sources_stamp, ensure_sources_current, store_path,
}

abbrev pub magic : Bytes
magic = codes "FRSTGR01"

abbrev pub version : ℕ
version = 6

pub record ParsedStore : Type 0 where
  pub fingerprint : Bytes
  pub stamp : SourcesStamp
  pub payload : Bytes

-- `u32::from_le_bytes` of four bytes.
abbrev pub u32_of : Bytes → ℕ
u32_of (a ∷ b ∷ c ∷ d ∷ _) = a + b * 256 + c * 65536 + d * 16777216
u32_of _ = 0

abbrev pub or_error : {A : Type 0} → StoreError → Option A → Result StoreError A
or_error e none = err e
or_error e (some a) = ok a

unfoldable pub parse_header : Packages → Bytes → Result StoreError ParsedStore
parse_header p bytes = do
  bail_if (not (leb 48 (length bytes) && text_eq (take 8 bytes) magic)) invalid_header
  bail_if (not (u32_of (take 4 (drop 8 bytes)) == version)) unsupported_version
  let stamp_len = u32_of (take 4 (drop 44 bytes))
  bail_if (not (leb (48 + stamp_len) (length bytes))) truncated_header
  stamp ← or_error corrupt_stamp (p.decode_stamp (take stamp_len (drop 48 bytes)))
  ok (record {
    fingerprint = take 32 (drop 12 bytes);
    stamp = stamp;
    payload = drop (48 + stamp_len) bytes;
  })

-- What `save_graph` writes.
abbrev pub store_bytes : Packages → Bytes → SourcesStamp → BuildGraph → Bytes
store_bytes p fingerprint stamp g =
    magic
    ++ (u32_bytes version
        ++ (fingerprint
            ++ (u32_bytes (length (p.encode_stamp stamp))
                ++ (p.encode_stamp stamp ++ p.encode_graph g))))

unfoldable pub save_graph :
    Packages → Workspace → Files → Text → Bytes → List Text → BuildGraph → Result StoreError Files
save_graph p w files path fingerprint manifest_paths g = do
  stamp ← sources_stamp p.hash w manifest_paths
  ok (insert path (store_bytes p fingerprint stamp g) files)

abbrev pub check_fingerprint : Option Bytes → Bytes → Result StoreError (Unit {0})
check_fingerprint none found = ok tt
check_fingerprint (some wanted) found = bail_if (not (text_eq found wanted)) stale_store

abbrev pub check_sources : Packages → Option Workspace → SourcesStamp → Result StoreError (Unit {0})
check_sources p none stamp = ok tt
check_sources p (some w) stamp = ensure_sources_current p.hash w stamp

-- `File::open` and the header.
unfoldable pub open_store : Packages → Files → Text → Result StoreError ParsedStore
open_store p files path = or_error no_file (lookup path files) >>= λ bytes. parse_header p bytes

unfoldable pub load_graph :
    Packages → Files → Text → Option Bytes → Option Workspace → Result StoreError BuildGraph
load_graph p files path fingerprint root = do
  parsed ← open_store p files path
  check_fingerprint fingerprint parsed.fingerprint
  check_sources p root parsed.stamp
  or_error corrupt_store (p.decode_graph parsed.payload)

unfoldable pub validate_cached_sources :
    Packages → Workspace → Files → Text → Result StoreError Bytes
validate_cached_sources p w files path = do
  parsed ← open_store p files path
  ensure_sources_current p.hash w parsed.stamp
  ok parsed.fingerprint

-- A graph that was found by its fingerprint is stored again when its stamp is out of date.
abbrev pub refresh :
    Packages
    → Workspace
    → Files
    → Manifest
    → Text
    → Bytes
    → BuildGraph
    → Result StoreError (Files × BuildGraph)
refresh p w files m path fingerprint g = elim (load_graph p files path none (some w)) [
  | ok _ ↦ ok (files, g)
  | err _ ↦ save_graph p w files path fingerprint m.manifest_paths g >>= λ files'. ok (files', g)
]

abbrev pub compile :
    Packages → Workspace → Files → Manifest → Text → Text → Result StoreError (Files × BuildGraph)
compile p w files m profile platform = elim (from_manifest_configured m profile platform) [
  | err e ↦ err (not_built e)
  | ok g ↦
      save_graph p w files (store_path profile platform) (p.fingerprint m profile platform)
        m.manifest_paths g
      >>= λ files'. ok (files', g)
]

unfoldable pub load_or_compile_configured :
    Packages → Workspace → Files → Manifest → Text → Text → Result StoreError (Files × BuildGraph)
load_or_compile_configured p w files m profile platform =
    let path = store_path profile platform in
    let wanted = p.fingerprint m profile platform in
    elim (load_graph p files path (some wanted) none) [
      | ok g ↦ refresh p w files m path wanted g
      | err _ ↦ compile p w files m profile platform
    ]

abbrev pub to_option : {A : Type 0} → Result StoreError A → Option A
to_option (ok a) = some a
to_option (err e) = none

unfoldable pub load_cached : Packages → Workspace → Files → Text → Text → Option BuildGraph
load_cached p w files profile platform =
    to_option (load_graph p files (store_path profile platform) none (some w))

unfoldable pub cached_fingerprint : Packages → Workspace → Files → Text → Text → Option Bytes
cached_fingerprint p w files profile platform =
    to_option (validate_cached_sources p w files (store_path profile platform))

-- `cached_sources_current`
abbrev pub has_fingerprint : Option Bytes → Bool
has_fingerprint none = false
has_fingerprint (some _) = true

abbrev pub cached_sources_current : Packages → Workspace → Files → Text → Text → Bool
cached_sources_current p w files profile platform =
    has_fingerprint (cached_fingerprint p w files profile platform)

unfoldable pub validate_bytes : Packages → Bytes → Result StoreError (Unit {0})
validate_bytes p bytes = do
  parsed ← parse_header p bytes
  _ ← or_error corrupt_store (p.decode_graph parsed.payload)
  ok tt
