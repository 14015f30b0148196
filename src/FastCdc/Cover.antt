-- ===== src/FastCdc/Cover.antt =====
-- The chunks of an input: they tile it and the iterator ends, where the minimum is two or more;
-- and what a minimum of one allows.
use Prim.Native.Nat.{bit_and}
use frostbuild.Base.{
  ℕ, zero, suc, ◌+◌, ◌-◌, ◌*◌, ◌/◌, ◌<◌, ◌≤◌, min, true, false, List, [], ◌∷◌, some, ◌≡◌, inl, inr,
  refl, arith, length, drop, length-drop, Bool-cases, ◌==◌, ltb, ltb→lt, replicate, ok,
}
use frostbuild.FastCdc.{
  Parameters, FastCdc, trailing_zeros, new, found, mix_first, scan, boundary, Chunks, next, collect,
  wrap, even,
}
use frostbuild.FastCdc.Bounds.{IsConfigured, boundary_bounds}

-- Chunks that lie one behind the other from `offset` to `end`, none empty, none above the maximum.
abbrev pub Tiles : ℕ → ℕ → List (ℕ × ℕ) → ℕ → Type 0
Tiles maximum offset [] end = offset ≡ end
Tiles maximum offset ((start, len) ∷ items) end =
    (start ≡ offset) × (0 < len) × (len ≤ maximum) × Tiles maximum (offset + len) items end

pub boundary_positive :
    (params : Parameters) (c : FastCdc) (bytes : List ℕ)
    → IsConfigured c
    → 2 ≤ c.minimum
    → 0 < length bytes
    → 0 < boundary params c bytes
boundary_positive params c bytes v two some_byte =
    let b = boundary_bounds params c bytes v in omega arith

collect_end :
    (params : Parameters) (c : FastCdc) (fuel : ℕ) (it : Chunks)
    → (it.offset == length it.bytes) ≡ true
    → collect params c (suc fuel) it ≡ ([], true)
unfolding collect next
collect_end params c fuel it e = ground arith

collect_more :
    (params : Parameters) (c : FastCdc) (fuel : ℕ) (it : Chunks)
    → (it.offset == length it.bytes) ≡ false
    → (let len = boundary params c (drop it.offset it.bytes) in
        let rest = collect params c fuel (record it { offset = it.offset + len }) in
        collect params c (suc fuel) it ≡ ((it.offset, len) ∷ rest.0, rest.1))
unfolding collect next
collect_more params c fuel it e = ground arith

-- With a minimum of two bytes or more the iterator ends, within one call more than there are bytes,
-- and its chunks tile the input: they are contiguous, none is empty, none exceeds the maximum.
pub collect-Tiles :
    (params : Parameters) (c : FastCdc) (bytes : List ℕ) (fuel offset : ℕ)
    → IsConfigured c
    → 2 ≤ c.minimum
    → offset ≤ length bytes
    → length bytes - offset < fuel
    → ((collect params c fuel (record { bytes = bytes; offset = offset })).1 ≡ true)
      × Tiles c.maximum offset
          (collect params c fuel (record { bytes = bytes; offset = offset })).0
          (length bytes)
collect-Tiles params c bytes zero offset v two inside enough = absurd (omega arith)
collect-Tiles params c bytes (suc fuel) offset v two inside enough =
    elim (Bool-cases (offset == length bytes)) [
      | inl at_end ↦
          rw (collect_end params c fuel (record { bytes = bytes; offset = offset }) at_end)
            (refl, ground arith)
      | inr more ↦
          let rest = drop offset bytes in
          let bounds = boundary_bounds params c rest v in
          let size = length-drop offset bytes in
          let some_byte : 0 < length rest = ground (arith, size) in
          let positive = boundary_positive params c rest v two some_byte in
          let tail =
            collect-Tiles params c bytes fuel (offset + boundary params c rest) v two
              (omega (arith, size)) (omega (arith, size)) in
          rw (collect_more params c fuel (record { bytes = bytes; offset = offset }) more)
            (tail.0, (refl, positive, bounds.1, tail.1))
    ]

scan_first :
    (params : Parameters) (c : FastCdc) (bytes : List ℕ) (mask rounds : ℕ)
    → 0 < rounds
    → bit_and (mix_first params c bytes 0 0) (wrap (mask * 2)) ≡ 0
    → scan params c bytes mask rounds 0 0 ≡ found 0
unfolding scan
scan_first params c bytes mask zero some_round meets = absurd (omega arith)
scan_first params c bytes mask (suc rounds) some_round meets = ground arith

empty_chunk :
    (params : Parameters) (c : FastCdc) (bytes : List ℕ)
    → c.minimum ≡ 1
    → 2 ≤ c.average
    → c.average ≤ c.maximum
    → 1 < length bytes
    → bit_and (mix_first params c bytes 0 0) (wrap (c.mask_small * 2)) ≡ 0
    → boundary params c bytes ≡ 0
unfolding boundary
empty_chunk params c bytes one avg max more meets =
    let center = even (min (min (length bytes) c.maximum) c.average) in
    let from : even c.minimum ≡ 0 = omega arith in
    let rounds : 0 < (center - 0) / 2 = omega arith in
    ground (arith, from, scan_first params c bytes c.mask_small ((center - 0) / 2) rounds meets)

next_empty :
    (params : Parameters) (c : FastCdc) (bytes : List ℕ) (offset : ℕ)
    → c.minimum ≡ 1
    → 2 ≤ c.average
    → c.average ≤ c.maximum
    → offset + 1 < length bytes
    → bit_and (mix_first params c (drop offset bytes) 0 0) (wrap (c.mask_small * 2)) ≡ 0
    → next params c (record { bytes = bytes; offset = offset })
      ≡ (some (offset, 0), record { bytes = bytes; offset = offset })
unfolding next
next_empty params c bytes offset one avg max more meets =
    let rest = drop offset bytes in
    let size = length-drop offset bytes in
    let empty : boundary params c rest ≡ 0 =
      empty_chunk params c rest one avg max (omega (arith, size)) meets in
    ground (arith, empty)

trailing_zeros_small : (n : ℕ) → n < 2 → trailing_zeros n n ≡ 0
unfolding trailing_zeros
trailing_zeros_small zero small = refl
trailing_zeros_small (suc zero) small = refl
trailing_zeros_small (suc (suc n)) small = absurd (omega arith)

new-average :
    (params : Parameters) (average minimum maximum normalization seed : ℕ) (c : FastCdc)
    → new params average minimum maximum normalization seed ≡ ok c
    → (c.minimum ≡ minimum) × (2 ≤ c.average) × (c.average ≤ c.maximum)
unfolding new
new-average params average minimum maximum normalization seed c h =
    let kept : (normalization + 5 ≤ trailing_zeros average average)
        × (average ≤ maximum)
        × (c.minimum ≡ minimum)
        × (c.average ≡ average)
        × (c.maximum ≡ maximum) =
      ground arith in
    elim (Bool-cases (ltb average 2)) [
      | inl small ↦
          absurd (omega (arith, kept, trailing_zeros_small average (ltb→lt average 2 small)))
      | inr large ↦ (ground arith, ground arith, ground arith)
    ]

collect_stuck :
    (params : Parameters) (c : FastCdc) (it : Chunks) (item : ℕ × ℕ)
    → next params c it ≡ (some item, it)
    → (fuel : ℕ) → collect params c fuel it ≡ (replicate fuel item, false)
unfolding collect
collect_stuck params c it item stuck zero = refl
collect_stuck params c it item stuck (suc fuel) =
    ground (arith, stuck, collect_stuck params c it item stuck fuel)

-- `new` accepts a minimum of one. Where then two bytes or more are left, and the hash of the first
-- of them meets the mask, the chunk is empty, so the iterator stays where it is; and however often
-- it is called, it yields that empty chunk and does not end.
pub next_stuck :
    (params : Parameters) (average maximum normalization seed : ℕ) (c : FastCdc) (bytes : List ℕ)
    (offset fuel : ℕ)
    → new params average 1 maximum normalization seed ≡ ok c
    → offset + 1 < length bytes
    → bit_and (mix_first params c (drop offset bytes) 0 0) (wrap (c.mask_small * 2)) ≡ 0
    → (next params c (record { bytes = bytes; offset = offset })
        ≡ (some (offset, 0), record { bytes = bytes; offset = offset }))
      × (collect params c fuel (record { bytes = bytes; offset = offset })
          ≡ (replicate fuel (offset, 0), false))
next_stuck params average maximum normalization seed c bytes offset fuel accepted more meets =
    let kept = new-average params average 1 maximum normalization seed c accepted in
    let stays = next_empty params c bytes offset kept.0 kept.1 kept.2 more meets in
    (
      stays,
      collect_stuck params c (record { bytes = bytes; offset = offset }) (offset, 0) stays fuel,
    )
