-- ===== src/Cas/Stats.antt =====
-- crates/frostbuild-core/src/cas.rs: `LocalCas::stats`. The ratio of reuse, a floating-point number, is
-- left out: it is `reused_chunk_bytes / logical_chunk_bytes`, or 0 where there are no chunks.
use frostbuild.Base.{
  ℕ, ◌+◌, ◌-◌, ◌%◌, ◌^◌, List, [], ◌∷◌, some, none, length, if◌then◌else◌, saturating_add,
}
use frostbuild.Base.Text.{Text, text_order}
use frostbuild.Base.BTreeMap.{BTreeMap, insert, contains_key}
use frostbuild.Cas.{Bytes, Blob, ChunkRef, ChunkManifest, Packages, Disk}
use frostbuild.Cas.Digests.{valid_manifest}

pub record CasStats : Type 0 where
  pub object_count : ℕ
  pub object_bytes : ℕ
  pub chunk_count : ℕ
  pub chunk_bytes : ℕ
  pub delta_count : ℕ
  pub delta_bytes : ℕ
  pub manifest_count : ℕ
  pub logical_chunk_count : ℕ
  pub logical_chunk_bytes : ℕ
  pub reused_chunk_count : ℕ
  pub reused_chunk_bytes : ℕ

-- `count_store`, over the sizes of the files.
abbrev pub count_store : {V : Type 0} → (V → ℕ) → BTreeMap Text V → (count bytes : ℕ) → ℕ × ℕ
count_store size [] count bytes = (count, bytes)
count_store size ((_, v) ∷ files) count bytes =
    count_store size files (count + 1) (saturating_add bytes (size v))

-- The manifests read so far.
pub record Counted : Type 0 where
  pub manifests : ℕ
  pub chunks : ℕ
  pub bytes : ℕ
  pub referenced : BTreeMap Text ℕ

-- `entry(..).or_insert(..)`
abbrev pub or_insert : Text → ℕ → BTreeMap Text ℕ → BTreeMap Text ℕ
or_insert k v m = if contains_key k m then m else insert k v m

unfoldable pub count_chunks : List ChunkRef → Counted → Counted
count_chunks [] c = c
count_chunks (chunk ∷ chunks) c = count_chunks chunks (record {
  manifests = c.manifests;
  chunks = c.chunks + 1;
  bytes = (c.bytes + chunk.length) % 2 ^ 64;
  referenced = or_insert chunk.sha256 chunk.length c.referenced;
})

-- A file that is no manifest, or no valid one, is passed over.
unfoldable pub count_manifests : Packages → List (Text × Bytes) → Counted → Counted
count_manifests p [] c = c
count_manifests p ((_, bytes) ∷ files) c =
    let skip = count_manifests p files c in
    let count = λ (m : ChunkManifest).
      count_manifests p files (count_chunks m.chunks (record c { manifests = c.manifests + 1 })) in
    elim (p.decode bytes) [
      | none ↦ skip
      | some m ↦ if valid_manifest m m.blob_digest then count m else skip
    ]

abbrev pub sum_values : BTreeMap Text ℕ → ℕ
sum_values [] = 0
sum_values ((_, n) ∷ m) = n + sum_values m

unfoldable pub stats : Packages → Disk → CasStats
stats p d =
    let objects = count_store (λ (b : Blob). length b.bytes) d.objects 0 0 in
    let chunks = count_store length d.chunks 0 0 in
    let deltas = count_store length d.deltas 0 0 in
    let c =
      count_manifests p d.manifests
        (record { manifests = 0; chunks = 0; bytes = 0; referenced = [] }) in
    record {
      object_count = objects.0;
      object_bytes = objects.1;
      chunk_count = chunks.0;
      chunk_bytes = chunks.1;
      delta_count = deltas.0;
      delta_bytes = deltas.1;
      manifest_count = c.manifests;
      logical_chunk_count = c.chunks;
      logical_chunk_bytes = c.bytes;
      reused_chunk_count = c.chunks - length c.referenced;
      reused_chunk_bytes = c.bytes - sum_values c.referenced % 2 ^ 64;
    }
