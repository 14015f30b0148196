-- ===== src/Cas/Restore.antt =====
-- crates/frostbuild-core/src/cas.rs: `LocalCas::materialize`, from the object or from its chunks.
use frostbuild.Base.{
  ℕ, ◌+◌, Bool, true, false, not, ◌&&◌, List, [], ◌∷◌, ◌++◌, Option, some, none, length, take, drop,
  replicate, ◌==◌, if◌then◌else◌, ok, err,
}
use frostbuild.Base.Text.{Text, text_eq, text_order}
use frostbuild.Base.BTreeMap.{BTreeMap, lookup, insert, remove}
use frostbuild.Cas.{
  Bytes, Blob, ChunkRef, ChunkManifest, Packages, Io, ◌>>=◌, ◌>>◌, pure, fail, let_some, no_parent,
  not_published, has_parent,
}
use frostbuild.Cas.Digests.{valid_manifest}
use frostbuild.Cas.Deltas.{verify_sha256, reconstruct_delta}

-- `publish_verified_destination`: the destination is removed, if it can be, and the staged file is
-- renamed to it, which replaces what is still there. When the rename fails, a destination that could
-- be removed is gone.
unfoldable pub publish_verified_destination : Packages → Blob → Text → Io Bool
publish_verified_destination p staged destination d =
    let cleared : BTreeMap Text Blob =
      if p.removes destination d then remove destination d.workspace else d.workspace in
    if p.renames destination d
    then (ok true, record d { workspace = insert destination staged d.workspace })
    else (err not_published, record d { workspace = cleared })

-- `verify_staged_blob`, and the publication where the staged blob has the digest.
unfoldable pub publish_staged : Packages → Blob → Text → Text → Io Bool
unfolding publish_verified_destination
publish_staged p staged digest destination d =
    if text_eq (p.hash_file staged) digest
    then publish_verified_destination p staged destination d
    else (ok false, d)

unfoldable pub copy_and_verify : Packages → Blob → Text → Text → Io Bool
copy_and_verify p source digest destination =
    if not (has_parent destination)
    then fail no_parent
    else publish_staged p source digest destination

-- A write at an offset of a file that is long enough.
abbrev pub write_all_at : Bytes → Bytes → ℕ → Bytes
write_all_at output bytes offset =
    take offset output ++ (bytes ++ drop (offset + length bytes) output)

-- The bytes of a chunk: the stored ones, or those that its delta gives.
unfoldable pub chunk_bytes : Packages → ChunkRef → Io (Option Bytes)
chunk_bytes p chunk d = elim (lookup chunk.sha256 d.chunks) [
  | some bytes ↦ (ok (some bytes), d)
  | none ↦ reconstruct_delta p chunk d
]

abbrev pub remove_chunk : Text → Io (Unit {0})
remove_chunk digest d = (ok tt, record d { chunks = remove digest d.chunks })

-- Whether the chunk could be placed, and the file with it.
unfoldable pub materialize_chunk_at : Packages → Bytes → ℕ → ChunkRef → Io (Bool × Bytes)
materialize_chunk_at p output offset chunk = do
  found ← chunk_bytes p chunk
  let_some found (pure (false, output)) λ bytes.
      let_some (verify_sha256 p bytes chunk.sha256)
        (remove_chunk chunk.sha256 >> pure (false, output))
        λ verified.
          if not (length verified == chunk.length)
          then pure (false, output)
          else pure (true, write_all_at output verified offset)

-- Every chunk is tried, at the sum of the lengths in front of it.
unfoldable pub write_chunks : Packages → Bytes → ℕ → List ChunkRef → Io (Bool × Bytes)
write_chunks p output offset [] = pure (true, output)
write_chunks p output offset (chunk ∷ chunks) =
    materialize_chunk_at p output offset chunk >>= λ one.
    write_chunks p one.1 (offset + chunk.length) chunks >>= λ rest. pure (one.0 && rest.0, rest.1)

unfoldable pub splice : Packages → ChunkManifest → Text → Text → Io Bool
splice p m digest destination = write_chunks p (replicate m.total_bytes 0) 0 m.chunks >>= λ written.
    if not written.0
    then pure false
    else publish_staged p (record { bytes = written.1; executable = m.executable }) digest
        destination

abbrev pub remove_manifest : Text → Io Bool
remove_manifest digest d = (ok false, record d { manifests = remove digest d.manifests })

unfoldable pub materialize_chunks : Packages → Text → Text → Io Bool
materialize_chunks p digest destination d = elim (lookup digest d.manifests) [
  | none ↦ (ok false, d)
  | some encoded ↦ elim (p.decode encoded) [
    | none ↦ remove_manifest digest d
    | some m ↦
        if not (valid_manifest m digest)
        then remove_manifest digest d
        else if not (has_parent destination)
        then (err no_parent, d)
        else splice p m digest destination d
  ]
]

abbrev pub remove_object : Text → Io (Unit {0})
remove_object digest d = (ok tt, record d { objects = remove digest d.objects })

unfoldable pub materialize : Packages → Text → Text → Io Bool
materialize p digest destination d = elim (lookup digest d.objects) [
  | none ↦ materialize_chunks p digest destination d
  | some object ↦
      (copy_and_verify p object digest destination >>= λ restored.
      if restored
      then pure true
      else (remove_object digest >> materialize_chunks p digest destination))
        d
]
