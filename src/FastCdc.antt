-- ===== src/FastCdc.antt =====
-- crates/frostbuild-core/src/fastcdc.rs: content-defined chunking. Words are numbers below 2 ^ 64.
-- The functions take the gear table and the masks as an argument; FastCdc/Tables has those of
-- fastcdc_params.json, which the code loads.
pub mod Bounds
pub mod Cover
pub mod Tables
use Prim.Native.Nat.{bit_and, bit_xor}
use frostbuild.Base.{
  ℕ, zero, suc, ◌+◌, ◌-◌, ◌*◌, ◌/◌, ◌%◌, ◌^◌, min, Bool, true, false, not, ◌&&◌, List, [], ◌∷◌,
  Option, some, none, ltb, leb, ◌==◌, if◌then◌else◌, length, get_or, drop, Result, ok, err, ◌>>=◌,
  ◌>>◌, bail_if,
}

pub record Parameters : Type 0 where
  pub masks : List ℕ
  pub gear : List ℕ

pub record FastCdc : Type 0 where
  pub average : ℕ
  pub minimum : ℕ
  pub maximum : ℕ
  pub mask_small : ℕ
  pub mask_large : ℕ
  pub seed : ℕ

-- The messages of `ensure!`.
pub data CdcError : Type 0 where
  not_power_of_two minimum_zero minimum_exceeds average_exceeds normalization_large : CdcError
  gear_size : CdcError

-- `trailing_zeros` of a positive number, one round for each zero bit.
unfoldable pub trailing_zeros : ℕ → ℕ → ℕ
trailing_zeros zero n = 0
trailing_zeros (suc fuel) n =
    let rest = suc (trailing_zeros fuel (n / 2)) in if n % 2 == 0 then rest else 0

abbrev pub is_power_of_two : ℕ → Bool
is_power_of_two n = ltb 0 n && 2 ^ trailing_zeros n n == n

-- `FastCdc::new`
unfoldable pub new :
    Parameters → (average minimum maximum normalization seed : ℕ) → Result CdcError FastCdc
unfolding trailing_zeros
new params average minimum maximum normalization seed = do
  let bits = trailing_zeros average average
  bail_if (not (is_power_of_two average)) not_power_of_two
  bail_if (not (ltb 0 minimum)) minimum_zero
  bail_if (not (leb minimum average)) minimum_exceeds
  bail_if (not (leb average maximum)) average_exceeds
  bail_if (not (leb (bits + normalization) 25)) normalization_large
  bail_if (not (leb (normalization + 5) bits)) normalization_large
  bail_if (not (length params.gear == 256)) gear_size
  ok (record {
    average = average;
    minimum = minimum;
    maximum = maximum;
    mask_small = get_or params.masks (bits + normalization) 0;
    mask_large = get_or params.masks (bits - normalization) 0;
    seed = seed;
  })

-- `x & !1`
abbrev pub even : ℕ → ℕ
even x = x - x % 2

abbrev pub wrap : ℕ → ℕ
wrap x = x % 2 ^ 64

-- How a loop ended: at a boundary, or with the hash behind its last round.
pub data Scan : Type 0 where
  found : ℕ → Scan
  through : ℕ → Scan

-- The hash behind the first and behind the second byte of a round.
unfoldable pub mix_first : Parameters → FastCdc → List ℕ → ℕ → ℕ → ℕ
mix_first params c bytes offset hash = wrap (
    wrap (hash * 4)
    + bit_xor (wrap (get_or params.gear (get_or bytes offset 0) 0 * 2)) (wrap (c.seed * 2)))

unfoldable pub mix_second : Parameters → FastCdc → List ℕ → ℕ → ℕ → ℕ
mix_second params c bytes offset hash =
    wrap (hash + bit_xor (get_or params.gear (get_or bytes (offset + 1) 0) 0) c.seed)

-- `for offset in (from..to).step_by(2)`, with the number of rounds left.
unfoldable pub scan : Parameters → FastCdc → List ℕ → (mask rounds offset hash : ℕ) → Scan
scan params c bytes mask zero offset hash = through hash
scan params c bytes mask (suc rounds) offset hash =
    let h1 = mix_first params c bytes offset hash in
    let h2 = mix_second params c bytes offset h1 in
    let rest = scan params c bytes mask rounds (offset + 2) h2 in
    if bit_and h1 (wrap (mask * 2)) == 0
    then found offset
    else if bit_and h2 mask == 0
    then found (offset + 1)
    else rest

-- `FastCdc::boundary`
unfoldable pub boundary : Parameters → FastCdc → List ℕ → ℕ
boundary params c bytes =
    let len = length bytes in
    let end = min len c.maximum in
    let minimum = even c.minimum in
    let center = even (min end c.average) in
    let remaining = even end in
    let first = scan params c bytes c.mask_small ((center - minimum) / 2) minimum 0 in
    let second =
      λ (hash : ℕ). scan params c bytes c.mask_large ((remaining - center) / 2) center hash in
    if leb len c.minimum then len else elim first [
      | found offset ↦ offset
      | through hash ↦ elim (second hash) [ found offset ↦ offset | through _ ↦ end ]
    ]

-- The iterator `Chunks`: the bytes and the offset of the next chunk.
pub record Chunks : Type 0 where
  pub bytes : List ℕ
  pub offset : ℕ

unfoldable pub next : Parameters → FastCdc → Chunks → Option (ℕ × ℕ) × Chunks
next params c it =
    let len = boundary params c (drop it.offset it.bytes) in
    if it.offset == length it.bytes
    then (none, it)
    else (some (it.offset, len), record it { offset = it.offset + len })

-- The items that the iterator yields within `fuel` calls, and whether it then ended.
unfoldable pub collect : Parameters → FastCdc → ℕ → Chunks → List (ℕ × ℕ) × Bool
collect params c zero it = ([], false)
collect params c (suc fuel) it =
    let (item, it') = next params c it in
    let (items, ended) = collect params c fuel it' in
    elim item [ none ↦ ([], true) | some i ↦ (i ∷ items, ended) ]
