-- ===== src/Journal/Frames.antt =====
-- Decoding the frames of the log, whole and cut off.
use frostbuild.Base.{
  ℕ, zero, suc, ◌+◌, ◌-◌, ◌/◌, ◌%◌, ◌^◌, ◌<◌, ◌≤◌, true, List, [], ◌∷◌, ◌++◌, some, ◌≡◌, refl, ap,
  ◌∙◌, ltb, if◌then◌else◌, length, take, All, arith, append_assoc, length-append, take-append_self,
  drop-append_self, Bool-cases, inl, inr, length-take,
}
use frostbuild.Base.Text.{text_order}
use frostbuild.Base.BTreeMap.{insert}
use frostbuild.Journal.{Bytes, Actions, Record, Codec, from_le_bytes, frame, decode_from}

from_le_bytes-to_le_bytes :
    (n : ℕ)
    → n < 2 ^ 32
    → from_le_bytes (n % 256) (n / 256 % 256) (n / 65536 % 256) (n / 16777216 % 256) ≡ n
from_le_bytes-to_le_bytes n h = omega arith

abbrev pub apply_all : List Record → Actions → Actions
apply_all [] m = m
apply_all (r ∷ rs) m = apply_all rs (insert r.id r.entry m)

pub take-append_ge {ℓ} :
    {A : Type ℓ} (n : ℕ) (xs ys : List A)
    → length xs ≤ n
    → take n (xs ++ ys) ≡ xs ++ take (n - length xs) ys
take-append_ge n [] ys h = ap (λ k. take k ys) (omega arith)
take-append_ge zero (x ∷ xs) ys h = absurd (omega arith)
take-append_ge (suc n) (x ∷ xs) ys h =
    ap (◌∷◌ x) (take-append_ge n xs ys (omega arith) ∙ ap (λ k. xs ++ take k ys) (omega arith))

module _ (codec : Codec) where
  open codec use {to_allocvec, from_bytes, from_bytes-to_allocvec}

  -- The length of the payload fits the frame's 32 bits.
  abbrev pub IsShort : Record → Type 0
  IsShort r = length (to_allocvec r) < 2 ^ 32

  abbrev pub frames : List Record → Bytes
  frames [] = []
  frames (r ∷ rs) = frame codec r ++ frames rs

  -- How many of the frames lie whole within the first `n` bytes.
  abbrev pub whole : ℕ → List Record → ℕ
  whole n [] = 0
  whole n (r ∷ rs) =
      let size = 4 + length (to_allocvec r) in
      let more = suc (whole (n - size) rs) in if ltb n size then 0 else more

  pub length-frame : (r : Record) → length (frame codec r) ≡ 4 + length (to_allocvec r)
  unfolding frame
  length-frame r = omega arith

  decode_from-step :
      (fuel a b c d : ℕ) (p rest : Bytes) (r : Record) (m : Actions)
      → from_le_bytes a b c d ≡ length p
      → from_bytes p ≡ some r
      → decode_from codec (suc fuel) (a ∷ b ∷ c ∷ d ∷ (p ++ rest)) m
        ≡ decode_from codec fuel rest (insert r.id r.entry m)
  unfolding decode_from
  decode_from-step fuel a b c d p rest r m len read =
      ground (arith, length-append p rest, take-append_self p rest, drop-append_self p rest)

  pub decode_from-frame :
      (fuel : ℕ) (r : Record) (rest : Bytes) (m : Actions)
      → IsShort r
      → decode_from codec (suc fuel) (frame codec r ++ rest) m
        ≡ decode_from codec fuel rest (insert r.id r.entry m)
  unfolding frame
  decode_from-frame fuel r rest m short =
      let p = to_allocvec r in
      decode_from-step fuel (length p % 256) (length p / 256 % 256) (length p / 65536 % 256)
        (length p / 16777216 % 256) p rest r m (from_le_bytes-to_le_bytes (length p) short)
        (from_bytes-to_allocvec r)

  decode_from-stops :
      (fuel : ℕ) (rest : Bytes) (m : Actions) → length rest < 4 → decode_from codec fuel rest m ≡ m
  unfolding decode_from
  decode_from-stops zero rest m h = refl
  decode_from-stops (suc fuel) [] m h = refl
  decode_from-stops (suc fuel) (a ∷ []) m h = refl
  decode_from-stops (suc fuel) (a ∷ b ∷ []) m h = refl
  decode_from-stops (suc fuel) (a ∷ b ∷ c ∷ []) m h = refl
  decode_from-stops (suc fuel) (a ∷ b ∷ c ∷ d ∷ rest) m h = absurd (omega arith)

  -- A frame that claims more bytes than there are ends the decoding, whatever it holds.
  pub decode_from-claims :
      (fuel a b c d : ℕ) (body : Bytes) (m : Actions)
      → length body < from_le_bytes a b c d
      → decode_from codec fuel (a ∷ b ∷ c ∷ d ∷ body) m ≡ m
  unfolding decode_from
  decode_from-claims zero a b c d body m h = refl
  decode_from-claims (suc fuel) a b c d body m h = ground arith

  decode_from-torn :
      (fuel n : ℕ) (r : Record) (rest : Bytes) (m : Actions)
      → IsShort r
      → n < 4 + length (to_allocvec r)
      → decode_from codec fuel (take n (frame codec r ++ rest)) m ≡ m
  unfolding frame
  decode_from-torn fuel zero r rest m short h = decode_from-stops fuel [] m (omega arith)
  decode_from-torn fuel (suc zero) r rest m short h = decode_from-stops fuel _ m (omega arith)
  decode_from-torn fuel (suc (suc zero)) r rest m short h = decode_from-stops fuel _ m (omega arith)
  decode_from-torn fuel (suc (suc (suc zero))) r rest m short h =
      decode_from-stops fuel _ m (omega arith)
  decode_from-torn fuel (suc (suc (suc (suc k)))) r rest m short h =
      let p = to_allocvec r in
      decode_from-claims fuel (length p % 256) (length p / 256 % 256) (length p / 65536 % 256)
        (length p / 16777216 % 256) (take k (p ++ rest)) m
        (omega (arith, length-take k (p ++ rest), from_le_bytes-to_le_bytes (length p) short))

  -- A log that is cut off after `n` bytes gives the records of the whole frames before the cut.
  pub decode_from-take :
      (fuel n : ℕ) (rs : List Record) (m : Actions)
      → All IsShort rs
      → whole n rs ≤ fuel
      → decode_from codec fuel (take n (frames rs)) m ≡ apply_all (take (whole n rs) rs) m
  decode_from-take fuel zero [] m short h = decode_from-stops fuel [] m (omega arith)
  decode_from-take fuel (suc n) [] m short h = decode_from-stops fuel [] m (omega arith)
  decode_from-take zero n (r ∷ rs) m short h =
      let cut : ltb n (4 + length (to_allocvec r)) ≡ true = ground arith in
      rw cut (unfold decode_from in refl)
  decode_from-take (suc fuel) n (r ∷ rs) m short h =
      elim (Bool-cases (ltb n (4 + length (to_allocvec r)))) [
        | inl cut ↦ rw cut (decode_from-torn (suc fuel) n r (frames rs) m short.0 (ground arith))
        | inr kept ↦
            let size = length-frame r in
            rw (kept, take-append_ge n (frame codec r) (frames rs) (ground (arith, size)), size)
              (decode_from-frame fuel r (take (n - (4 + length (to_allocvec r))) (frames rs)) m
                  short.0
                ∙ decode_from-take fuel (n - (4 + length (to_allocvec r))) rs
                    (insert r.id r.entry m) short.1 (ground arith))
      ]

  pub decode_from-frames :
      (fuel : ℕ) (rs : List Record) (m : Actions)
      → All IsShort rs
      → length rs ≤ fuel
      → decode_from codec fuel (frames rs) m ≡ apply_all rs m
  decode_from-frames fuel [] m short h = decode_from-stops fuel [] m (omega arith)
  decode_from-frames zero (r ∷ rs) m short h = absurd (omega arith)
  decode_from-frames (suc fuel) (r ∷ rs) m short h =
      decode_from-frame fuel r (frames rs) m short.0
      ∙ decode_from-frames fuel rs (insert r.id r.entry m) short.1 (omega arith)

  pub whole-le : (n : ℕ) (rs : List Record) → whole n rs ≤ length (take n (frames rs))
  whole-le n [] = omega arith
  whole-le n (r ∷ rs) = elim (Bool-cases (ltb n (4 + length (to_allocvec r)))) [
    | inl cut ↦ rw cut (omega arith)
    | inr kept ↦
        let size = length-frame r in
        rw (kept, take-append_ge n (frame codec r) (frames rs) (ground (arith, size)), size)
          (omega (
            arith,
            length-append (frame codec r) (take (n - (4 + length (to_allocvec r))) (frames rs)),
            size,
            whole-le (n - (4 + length (to_allocvec r))) rs,
          ))
  ]

  pub length-le-frames : (rs : List Record) → length rs ≤ length (frames rs)
  length-le-frames [] = omega arith
  length-le-frames (r ∷ rs) =
      omega (arith, length-append (frame codec r) (frames rs), length-frame r, length-le-frames rs)

  pub frames-append : (rs ss : List Record) → frames (rs ++ ss) ≡ frames rs ++ frames ss
  frames-append [] ss = refl
  frames-append (r ∷ rs) ss = rw (frames-append rs ss, append_assoc)
