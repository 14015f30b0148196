-- ===== src/Cas/Deltas.antt =====
-- crates/frostbuild-core/src/cas.rs: chunks and their deltas, which are published and read only behind
-- a check of their digest.
use frostbuild.Base.{
  ℕ, ◌^◌, true, not, Option, some, none, length, ltb, leb, ◌==◌, ◌++◌, if◌then◌else◌, ok,
}
use frostbuild.Base.Text.{Text, codes, text_eq, text_order}
use frostbuild.Base.BTreeMap.{lookup, insert, remove, contains_key}
use frostbuild.Cas.{
  Bytes, DeltaRef, ChunkRef, ChunkManifest, Packages, Io, ◌>>=◌, ◌>>◌, pure, fail, expect, let_some,
  too_long, zstd_failed,
}
use frostbuild.Cas.Digests.{positional_base}

-- The name of a delta's file.
abbrev pub delta_name : Text → Text → Text
delta_name target patch = target ++ (codes "-" ++ patch)

-- `UnverifiedBytes::verify_sha256`
unfoldable pub verify_sha256 : Packages → Bytes → Text → Option Bytes
verify_sha256 p bytes expected = if text_eq (p.sha256 bytes) expected then some bytes else none

-- A chunk under its digest, unless there is one.
unfoldable pub publish_chunk : Text → Bytes → Io (Unit {0})
publish_chunk digest bytes d =
    if contains_key digest d.chunks
    then (ok tt, d)
    else (ok tt, record d { chunks = insert digest bytes d.chunks; changed = true })

unfoldable pub publish_delta : Text → Text → Bytes → Io (Unit {0})
publish_delta target patch_digest patch d =
    let name = delta_name target patch_digest in
    if contains_key name d.deltas
    then (ok tt, d)
    else (ok tt, record d { deltas = insert name patch d.deltas; changed = true })

-- A chunk as it is stored, checked; one that fails the check is removed.
unfoldable pub read_verified : Packages → Text → Io (Option Bytes)
unfolding verify_sha256
read_verified p digest d = elim (lookup digest d.chunks) [
  | none ↦ (ok none, d)
  | some bytes ↦ elim (verify_sha256 p bytes digest) [
    | none ↦ (ok none, record d { chunks = remove digest d.chunks })
    | some verified ↦ (ok (some verified), d)
  ]
]

-- The patch against the base, if it is smaller than the compressed chunk and gives the chunk back.
unfoldable pub encode_delta : Packages → ChunkRef → Bytes → Text → Bytes → Io (Option DeltaRef)
encode_delta p base base_bytes target_digest target = do
  patch ← expect zstd_failed (p.zstd_delta base_bytes target)
  full ← expect zstd_failed (p.compress target)
  if leb (length full) (length patch) then pure none else do
    reconstructed ← expect zstd_failed (p.zstd_undelta base_bytes patch (length target))
    let_some (verify_sha256 p reconstructed target_digest) (pure none) λ _.
        if not (ltb (length patch) (2 ^ 32)) then fail too_long else do
          publish_delta target_digest (p.sha256 patch) patch
          pure (
              some (record {
                base_sha256 = base.sha256;
                patch_sha256 = p.sha256 patch;
                patch_bytes = length patch;
              }))

unfoldable pub build_positional_delta :
    Packages
    → Option ChunkManifest
    → (target_start target_end : ℕ) → Text
    → Bytes
    → Io (Option DeltaRef)
build_positional_delta p previous target_start target_end target_digest target =
    let_some previous (pure none) λ m.
      let_some (positional_base m target_start target_end) (pure none) λ base. do
        found ← read_verified p base.sha256
        let_some found (pure none) λ base_bytes. encode_delta p base base_bytes target_digest target

-- The stored patch of a chunk, checked; one that fails the check of its digest is removed.
unfoldable pub read_patch : Packages → Text → DeltaRef → Io (Option Bytes)
unfolding verify_sha256
read_patch p target delta d =
    let name = delta_name target delta.patch_sha256 in
    elim (lookup name d.deltas) [
      | none ↦ (ok none, d)
      | some patch ↦
          if not (length patch == delta.patch_bytes)
          then (ok none, d)
          else elim (verify_sha256 p patch delta.patch_sha256) [
            | none ↦ (ok none, record d { deltas = remove name d.deltas })
            | some verified ↦ (ok (some verified), d)
          ]
    ]

unfoldable pub apply_delta : Packages → ChunkRef → Bytes → Bytes → Io (Option Bytes)
apply_delta p chunk base patch =
    let_some (p.zstd_undelta base patch chunk.length) (pure none) λ reconstructed.
      let_some (verify_sha256 p reconstructed chunk.sha256) (pure none)
        λ verified. do publish_chunk chunk.sha256 verified; pure (some reconstructed)

unfoldable pub reconstruct_delta : Packages → ChunkRef → Io (Option Bytes)
reconstruct_delta p chunk = let_some chunk.delta (pure none) λ delta. do
  found ← read_verified p delta.base_sha256
  let_some found (pure none) λ base. do
    stored ← read_patch p chunk.sha256 delta
    let_some stored (pure none) λ patch. apply_delta p chunk base patch
