-- ===== src/Cas/Digests.antt =====
-- crates/frostbuild-core/src/cas.rs: what a chunk manifest has to satisfy, and the chunk of an earlier
-- manifest that lies where a new chunk lies.
use frostbuild.Base.{
  ℕ, ◌+◌, ◌-◌, ◌^◌, min, max, Bool, true, false, ◌&&◌, ◌||◌, not, List, [], ◌∷◌, Option, some, none,
  all, is_empty, length, ltb, leb, ◌==◌, if◌then◌else◌,
}
use frostbuild.Base.Text.{Text, text_eq}
use frostbuild.Cas.{
  DeltaRef, ChunkRef, ChunkManifest, default_avg, default_min, default_max, default_normalization,
  chunk_manifest_version,
}

abbrev pub is_hex_digit : ℕ → Bool
is_hex_digit c =
    (leb b'0' c && leb c b'9') || (leb b'a' c && leb c b'f') || (leb b'A' c && leb c b'F')

-- 64 hexadecimal digits.
abbrev pub is_digest : Text → Bool
is_digest t = length t == 64 && all is_hex_digit t

abbrev pub valid_delta : Option DeltaRef → Bool
valid_delta none = true
valid_delta (some d) = is_digest d.base_sha256 && is_digest d.patch_sha256 && ltb 0 d.patch_bytes

abbrev pub valid_chunk : ChunkRef → Bool
valid_chunk c =
    ltb 0 c.length && leb c.length default_max && is_digest c.sha256 && valid_delta c.delta

-- `try_fold` with `checked_add`: the sum of the lengths, unless it leaves 64 bits.
abbrev pub checked_total : List ChunkRef → ℕ → Option ℕ
checked_total [] total = some total
checked_total (c ∷ chunks) total =
    let rest = checked_total chunks (total + c.length) in
    if ltb (total + c.length) (2 ^ 64) then rest else none

abbrev pub is_some_of : ℕ → Option ℕ → Bool
is_some_of n none = false
is_some_of n (some m) = m == n

unfoldable pub valid_manifest : ChunkManifest → Text → Bool
valid_manifest m expected =
    m.version == chunk_manifest_version
    && text_eq m.blob_digest expected
    && m.average == default_avg
    && m.minimum == default_min
    && m.maximum == default_max
    && m.normalization == default_normalization
    && m.seed == 0
    && not (is_empty m.chunks)
    && all valid_chunk m.chunks
    && is_some_of m.total_bytes (checked_total m.chunks 0)

-- How many bytes two ranges share.
abbrev pub overlap : (start end target_start target_end : ℕ) → ℕ
overlap start end target_start target_end = min end target_end - max start target_start

-- `max_by_key` over the chunks that overlap: of equals it takes the last.
unfoldable pub largest_overlap :
    (target_start target_end : ℕ) → List ChunkRef → ℕ → Option (ℕ × ChunkRef) → Option ChunkRef
largest_overlap target_start target_end [] start none = none
largest_overlap target_start target_end [] start (some (n, c)) = some c
largest_overlap target_start target_end (c ∷ chunks) start none =
    let n = overlap start (start + c.length) target_start target_end in
    largest_overlap target_start target_end chunks (start + c.length)
      (if ltb 0 n then some (n, c) else none)
largest_overlap target_start target_end (c ∷ chunks) start (some (m, best)) =
    let n = overlap start (start + c.length) target_start target_end in
    largest_overlap target_start target_end chunks (start + c.length)
      (if ltb 0 n && leb m n then some (n, c) else some (m, best))

unfoldable pub positional_base : ChunkManifest → (target_start target_end : ℕ) → Option ChunkRef
unfolding largest_overlap
positional_base m target_start target_end = largest_overlap target_start target_end m.chunks 0 none
