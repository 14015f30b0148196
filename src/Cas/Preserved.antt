-- ===== src/Cas/Preserved.antt =====
-- The parts of storing and restoring leave the objects alone and keep the chunks in order.
use frostbuild.Base.{
  ℕ, ◌+◌, not, ◌&&◌, List, [], ◌∷◌, Option, inl, inr, refl, subst, arith, Bool-cases, Option-cases,
  Result-cases, length, ltb, take, drop,
}
use frostbuild.Base.Text.{Text, text_order}
use frostbuild.Base.BTreeMap.{BTreeMap, lookup, contains_key}
use frostbuild.FastCdc.{new}
use frostbuild.FastCdc.Tables.{parameters}
use frostbuild.Cas.{
  Bytes, Blob, ChunkRef, ChunkManifest, Packages, ◌>>=◌, ◌>>◌, has_parent, default_avg, default_min,
  default_max, default_normalization, chunking_threshold,
}
use frostbuild.Cas.Digests.{valid_manifest}
use frostbuild.Cas.Deltas.{apply_delta, reconstruct_delta, encode_delta, build_positional_delta}
use frostbuild.Cas.Keeps.{Keeps}
use frostbuild.Cas.Publish.{
  delta_of, prepare_chunk, prepare_chunks, boundaries_of, put_chunks, put_large, publish_manifest,
  publish_artifact_head, previous_manifest, manifest_of,
}
use frostbuild.Cas.Restore.{
  copy_and_verify, chunk_bytes, materialize_chunk_at, write_chunks, splice, remove_manifest,
  materialize_chunks,
}
use frostbuild.Cas.Sound.{Stands, sound, publish_chunk-Keeps}

module _ (p : Packages) (objects : BTreeMap Text Blob) where
  reconstruct_delta-Keeps :
      (chunk : ChunkRef) → Keeps (Stands p objects) (reconstruct_delta p chunk)
  unfolding reconstruct_delta apply_delta
  reconstruct_delta-Keeps chunk = search sound depth 14

  chunk_bytes-Keeps : (chunk : ChunkRef) → Keeps (Stands p objects) (chunk_bytes p chunk)
  unfolding chunk_bytes
  chunk_bytes-Keeps chunk d h = elim (Option-cases (lookup chunk.sha256 d.chunks)) [
    | inl e ↦
        subst (Stands p objects) {x = (reconstruct_delta p chunk d).1} (ground arith)
          (reconstruct_delta-Keeps chunk d h)
    | inr (bytes, e) ↦ subst (Stands p objects) {x = d} (ground arith) h
  ]

  write_chunks-Keeps :
      (output : Bytes) (offset : ℕ) (chunks : List ChunkRef)
      → Keeps (Stands p objects) (write_chunks p output offset chunks)
  unfolding write_chunks materialize_chunk_at
  write_chunks-Keeps output offset [] = search sound
  write_chunks-Keeps output offset (chunk ∷ chunks) =
      search
        (
          sound,
          chunk_bytes-Keeps chunk,
          λ (out : Bytes). write_chunks-Keeps out (offset + chunk.length) chunks,
        )
        depth 12

  splice-Keeps :
      (m : ChunkManifest) (digest destination : Text)
      → Keeps (Stands p objects) (splice p m digest destination)
  unfolding splice
  splice-Keeps m digest destination = search (sound, write_chunks-Keeps) depth 12

  encode_delta-Keeps :
      (base : ChunkRef) (base_bytes : Bytes) (digest : Text) (target : Bytes)
      → Keeps (Stands p objects) (encode_delta p base base_bytes digest target)
  unfolding encode_delta
  encode_delta-Keeps base base_bytes digest target = search sound depth 16

  build_positional_delta-Keeps :
      (previous : Option ChunkManifest) (start end : ℕ) (digest : Text) (target : Bytes)
      → Keeps (Stands p objects) (build_positional_delta p previous start end digest target)
  unfolding build_positional_delta
  build_positional_delta-Keeps previous start end digest target =
      search (sound, encode_delta-Keeps) depth 12

  delta_of-Keeps :
      (previous : Option ChunkManifest) (offset len : ℕ) (digest : Text) (bytes : Bytes)
      → Keeps (Stands p objects) (delta_of p previous offset len digest bytes)
  unfolding delta_of
  delta_of-Keeps previous offset len digest bytes d h =
      elim (Bool-cases (contains_key digest d.chunks)) [
        | inl c ↦ subst (Stands p objects) {x = d} (ground arith) h
        | inr c ↦
            subst (Stands p objects)
              {x = (build_positional_delta p previous offset (offset + len) digest bytes d).1}
              (ground arith)
              (build_positional_delta-Keeps previous offset (offset + len) digest bytes d h)
      ]

  prepare_chunks-Keeps :
      (bytes : Bytes) (previous : Option ChunkManifest) (boundaries : List (ℕ × ℕ))
      → Keeps (Stands p objects) (prepare_chunks p bytes previous boundaries)
  unfolding prepare_chunks prepare_chunk
  prepare_chunks-Keeps bytes previous [] = search sound
  prepare_chunks-Keeps bytes previous ((offset, len) ∷ boundaries) =
      let piece : Bytes = take len (drop offset bytes) in
      search
        (
          sound,
          delta_of-Keeps,
          prepare_chunks-Keeps bytes previous boundaries,
          publish_chunk-Keeps p objects (p.sha256 piece) piece refl,
        )
        depth 12

  boundaries_of-Keeps : (bytes : Bytes) → Keeps (Stands p objects) (boundaries_of bytes)
  unfolding boundaries_of
  boundaries_of-Keeps bytes d h =
      elim (Result-cases
        (new parameters default_avg default_min default_max default_normalization 0)) [
          | inl (c, e) ↦ subst (Stands p objects) {x = d} (ground arith) h
          | inr (failure, e) ↦ subst (Stands p objects) {x = d} (ground arith) h
        ]

  put_chunks-Keeps :
      (source digest : Text) (b : Blob) → Keeps (Stands p objects) (put_chunks p source digest b)
  unfolding put_chunks
  put_chunks-Keeps source digest b d = go d
    where
      go : Keeps (Stands p objects) (
          boundaries_of b.bytes >>= λ boundaries.
          prepare_chunks p b.bytes (previous_manifest p source d) boundaries >>= λ chunks.
          publish_manifest p (manifest_of digest b chunks) >> publish_artifact_head p source digest)
      go = search (sound, boundaries_of-Keeps, prepare_chunks-Keeps) depth 12

  pub put_large-Keeps :
      (source digest : Text) → Keeps (Stands p objects) (put_large p source digest)
  unfolding put_large
  put_large-Keeps source digest d h = elim (Option-cases (lookup digest d.objects)) [
    | inl e ↦ subst (Stands p objects) {x = d} (ground arith) h
    | inr (b, e) ↦
        elim (Bool-cases
          (ltb chunking_threshold (length b.bytes) && not (contains_key digest d.manifests))) [
            | inl f ↦
                subst (Stands p objects) {x = (put_chunks p source digest b d).1} (ground arith)
                  (put_chunks-Keeps source digest b d h)
            | inr f ↦ subst (Stands p objects) {x = d} (ground arith) h
          ]
  ]

  remove_manifest-Keeps : (digest : Text) → Keeps (Stands p objects) (remove_manifest digest)
  remove_manifest-Keeps digest d h = record {
    same_objects = h.same_objects;
    chunks_hold = h.chunks_hold;
  }

  pub materialize_chunks-Keeps :
      (digest destination : Text)
      → Keeps (Stands p objects) (materialize_chunks p digest destination)
  unfolding materialize_chunks
  materialize_chunks-Keeps digest destination d h =
      elim (Option-cases (lookup digest d.manifests)) [
        | inl e ↦ subst (Stands p objects) {x = d} (ground arith) h
        | inr (encoded, e) ↦ elim (Option-cases (p.decode encoded)) [
          | inl f ↦
              subst (Stands p objects) {x = (remove_manifest digest d).1} (ground arith)
                (remove_manifest-Keeps digest d h)
          | inr (m, f) ↦ elim (Bool-cases (valid_manifest m digest)) [
            | inr g ↦
                subst (Stands p objects) {x = (remove_manifest digest d).1} (ground arith)
                  (remove_manifest-Keeps digest d h)
            | inl g ↦ elim (Bool-cases (has_parent destination)) [
              | inr k ↦ subst (Stands p objects) {x = d} (ground arith) h
              | inl k ↦
                  subst (Stands p objects) {x = (splice p m digest destination d).1} (ground arith)
                    (splice-Keeps m digest destination d h)
            ]
          ]
        ]
      ]

  pub copy_and_verify-Keeps :
      (source : Blob) (digest destination : Text)
      → Keeps (Stands p objects) (copy_and_verify p source digest destination)
  unfolding copy_and_verify
  copy_and_verify-Keeps source digest destination = search sound
