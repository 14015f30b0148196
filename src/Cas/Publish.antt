-- ===== src/Cas/Publish.antt =====
-- crates/frostbuild-core/src/cas.rs: `LocalCas::put`, and the chunks of a large blob.
use frostbuild.Base.{
  ℕ, suc, ◌+◌, ◌^◌, true, not, ◌&&◌, List, [], ◌∷◌, Option, some, none, length, take, drop, ltb,
  if◌then◌else◌, ok, err,
}
use frostbuild.Base.Text.{Text, text_eq, text_order}
use frostbuild.Base.BTreeMap.{lookup, insert, contains_key}
use frostbuild.FastCdc.{new, collect}
use frostbuild.FastCdc.Tables.{parameters}
use frostbuild.Cas.{
  Bytes, Blob, DeltaRef, ChunkRef, ChunkManifest, Packages, Disk, Io, ◌>>=◌, ◌>>◌, pure, fail,
  unreadable, too_long, chunker_rejected, changed_while_entering, default_avg, default_min,
  default_max, default_normalization, chunking_threshold, chunk_manifest_version,
}
use frostbuild.Cas.Digests.{valid_manifest}
use frostbuild.Cas.Deltas.{build_positional_delta, publish_chunk}

-- The manifest of the blob that was stored last for this path.
unfoldable pub previous_manifest : Packages → Text → Disk → Option ChunkManifest
previous_manifest p source d = elim (lookup (p.hash_path source) d.artifacts) [
  | none ↦ none
  | some digest ↦ elim (lookup digest d.manifests) [
    | none ↦ none
    | some encoded ↦ elim (p.decode encoded) [
      | none ↦ none
      | some m ↦ if valid_manifest m digest then some m else none
    ]
  ]
]

unfoldable pub publish_manifest : Packages → ChunkManifest → Io (Unit {0})
publish_manifest p m d = if contains_key m.blob_digest d.manifests then (ok tt, d) else (
  ok tt,
  record d { manifests = insert m.blob_digest (p.encode m) d.manifests; changed = true },
)

unfoldable pub publish_artifact_head : Packages → Text → Text → Io (Unit {0})
publish_artifact_head p source digest d =
    (ok tt, record d { artifacts = insert (p.hash_path source) digest d.artifacts })

-- Whether the chunk was there decides if a delta is made for it.
unfoldable pub delta_of :
    Packages → Option ChunkManifest → (offset length : ℕ) → Text → Bytes → Io (Option DeltaRef)
delta_of p previous offset len digest bytes d =
    if contains_key digest d.chunks
    then (ok none, d)
    else build_positional_delta p previous offset (offset + len) digest bytes d

-- The length of a chunk has 32 bits.
abbrev chunk_ref : Text → ℕ → Option DeltaRef → Io ChunkRef
chunk_ref digest len delta =
    if ltb len (2 ^ 32)
    then pure (record { sha256 = digest; length = len; delta = delta })
    else fail too_long

unfoldable pub prepare_chunk :
    Packages → Bytes → Option ChunkManifest → (offset length : ℕ) → Io ChunkRef
prepare_chunk p bytes previous offset len =
    let piece = take len (drop offset bytes) in
    let digest = p.sha256 piece in
    do
      delta ← delta_of p previous offset len digest piece
      publish_chunk digest piece
      chunk_ref digest len delta

unfoldable pub prepare_chunks :
    Packages → Bytes → Option ChunkManifest → List (ℕ × ℕ) → Io (List ChunkRef)
prepare_chunks p bytes previous [] = pure []
prepare_chunks p bytes previous ((offset, len) ∷ boundaries) = do
  chunk ← prepare_chunk p bytes previous offset len
  rest ← prepare_chunks p bytes previous boundaries
  pure (chunk ∷ rest)

-- `FastCdc::default().chunks(&bytes)`, with a call for each byte and one for the end.
unfoldable pub boundaries_of : Bytes → Io (List (ℕ × ℕ))
boundaries_of bytes =
    elim (new parameters default_avg default_min default_max default_normalization 0) [
      | err _ ↦ fail chunker_rejected
      | ok c ↦
          pure (collect parameters c (suc (length bytes)) (record { bytes = bytes; offset = 0 })).0
    ]

abbrev pub manifest_of : Text → Blob → List ChunkRef → ChunkManifest
manifest_of digest blob chunks = record {
  version = chunk_manifest_version;
  blob_digest = digest;
  total_bytes = length blob.bytes;
  executable = blob.executable;
  average = default_avg;
  minimum = default_min;
  maximum = default_max;
  normalization = default_normalization;
  seed = 0;
  chunks = chunks;
}

unfoldable pub put_chunks : Packages → Text → Text → Blob → Io (Unit {0})
put_chunks p source digest blob d =
    (do
      boundaries ← boundaries_of blob.bytes
      chunks ← prepare_chunks p blob.bytes (previous_manifest p source d) boundaries
      publish_manifest p (manifest_of digest blob chunks)
      publish_artifact_head p source digest)
      d

-- The object, unless it is there: a copy of the source whose digest is checked.
unfoldable pub put_object : Packages → Text → Text → Io (Unit {0})
put_object p source digest d =
    if contains_key digest d.objects then (ok tt, d) else elim (lookup source d.workspace) [
      | none ↦ (err unreadable, d)
      | some blob ↦
          if text_eq (p.hash_file blob) digest
          then (ok tt, record d { objects = insert digest blob d.objects; changed = true })
          else (err (changed_while_entering source), d)
    ]

unfoldable pub put_large : Packages → Text → Text → Io (Unit {0})
put_large p source digest d = elim (lookup digest d.objects) [
  | none ↦ (err unreadable, d)
  | some blob ↦
      if ltb chunking_threshold (length blob.bytes) && not (contains_key digest d.manifests)
      then put_chunks p source digest blob d
      else (ok tt, d)
]

unfoldable pub put : Packages → Text → Text → Io (Unit {0})
put p source digest = put_object p source digest >> put_large p source digest
