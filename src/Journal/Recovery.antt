-- ===== src/Journal/Recovery.antt =====
-- What a later build loads from the log: after records, after a compaction, and after a crash.
use frostbuild.Base.{
  ℕ, ◌-◌, ◌<◌, List, [], ◌∷◌, ◌++◌, ◌≡◌, inl, inr, refl, ap, ◌∙◌, ltb, length, take, All, arith,
  length-take, Bool-cases,
}
use frostbuild.Base.Text.{text_eq, text_eq_iff, text_order}
use frostbuild.Base.BTreeMap.{insert}
use frostbuild.Journal.{
  Bytes, Actions, Record, Codec, magic, starts_with, decode_from, decode_bytes,
}
use frostbuild.Journal.Frames.{
  apply_all, IsShort, frames, whole, decode_from-frames, decode_from-take, whole-le,
  length-le-frames, take-append_ge,
}

pub apply_all-append :
    (rs ss : List Record) (m : Actions) → apply_all (rs ++ ss) m ≡ apply_all ss (apply_all rs m)
apply_all-append [] ss m = refl
apply_all-append (r ∷ rs) ss m = apply_all-append rs ss (insert r.id r.entry m)

module _ (codec : Codec) where
  abbrev pub log_bytes : List Record → Bytes
  log_bytes rs = magic ++ frames codec rs

  pub decode_bytes-magic :
      (rest : Bytes)
      → decode_bytes codec (magic ++ rest) ≡ decode_from codec (length (magic ++ rest)) rest []
  unfolding decode_bytes text_eq
  decode_bytes-magic rest = refl

  decode_bytes-short : (bytes : Bytes) → length bytes < 8 → decode_bytes codec bytes ≡ []
  unfolding decode_bytes
  decode_bytes-short bytes h = elim (Bool-cases (starts_with bytes magic)) [
    | inl e ↦
        let same = ap length ((text_eq_iff (take 8 bytes) magic).0 e) in
        absurd (omega (arith, same, length-take 8 bytes))
    | inr e ↦ rw e
  ]

  pub decode_bytes-log :
      (rs : List Record)
      → All (IsShort codec) rs
      → decode_bytes codec (log_bytes rs) ≡ apply_all rs []
  decode_bytes-log rs short =
      decode_bytes-magic (frames codec rs)
      ∙ decode_from-frames codec (length (log_bytes rs)) rs [] short
          (omega (arith, length-le-frames codec rs))

  whole_none : (rs : List Record) → whole codec 0 rs ≡ 0
  whole_none [] = refl
  whole_none (r ∷ rs) = ground arith

  -- Whatever byte a crash cuts a log at, of records whose encodings are shorter than 4 GiB, decoding
  -- gives exactly the records whose frames lie whole before the cut, and no other.
  pub decode_bytes-take :
      (cut : ℕ) (rs : List Record)
      → All (IsShort codec) rs
      → decode_bytes codec (take cut (log_bytes rs))
        ≡ apply_all (take (whole codec (cut - 8) rs) rs) []
  decode_bytes-take cut rs short = elim (Bool-cases (ltb cut 8)) [
    | inl early ↦
        let none_whole : whole codec (cut - 8) rs ≡ 0 =
          ap (λ n. whole codec n rs) {x = cut - 8} {y = 0} (ground arith) ∙ whole_none rs in
        rw none_whole (
          decode_bytes-short (take cut (log_bytes rs))
            (ground (arith, length-take cut (log_bytes rs))))
    | inr late ↦ rw (take-append_ge cut magic (frames codec rs) (ground arith)) (
        decode_bytes-magic (take (cut - 8) (frames codec rs))
        ∙ decode_from-take codec _ (cut - 8) rs [] short
            (omega (arith, whole-le codec (cut - 8) rs)))
  ]
