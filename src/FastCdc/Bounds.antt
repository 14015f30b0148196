-- ===== src/FastCdc/Bounds.antt =====
-- Where a boundary may lie.
use frostbuild.Base.{
  ok, ℕ, zero, suc, ◌+◌, ◌-◌, ◌*◌, ◌/◌, ◌<◌, ◌≤◌, min, List, ◌≡◌, ◌⊎◌, inl, inr, refl, arith,
  length,
}
use frostbuild.FastCdc.{
  Parameters, FastCdc, Scan, found, through, mix_first, mix_second, scan, boundary, even, new,
}

-- A boundary that a loop finds lies in the range of its offsets.
scan-found :
    (params : Parameters) (c : FastCdc) (bytes : List ℕ) (mask rounds offset hash o : ℕ)
    → scan params c bytes mask rounds offset hash ≡ found o
    → (offset ≤ o) × (o < offset + rounds * 2)
unfolding scan
scan-found params c bytes mask zero offset hash o e = absurd (ground arith)
scan-found params c bytes mask (suc rounds) offset hash o e =
    let h1 = mix_first params c bytes offset hash in
    let h2 = mix_second params c bytes offset h1 in
    ground (arith, scan-found params c bytes mask rounds (offset + 2) h2 o)

-- The order of the bounds that chunking relies on.
pub record IsConfigured (c : FastCdc) : Type 0 where
  pub minimum_positive : 0 < c.minimum
  pub minimum_le : c.minimum ≤ c.average
  pub average_le : c.average ≤ c.maximum

Scan-cases : (s : Scan) → ((o : ℕ) × (s ≡ found o)) ⊎ ((h : ℕ) × (s ≡ through h))
Scan-cases (found o) = inl (o, refl)
Scan-cases (through h) = inr (h, refl)

-- A boundary never passes the input's end or the maximum, and never falls below the minimum by
-- more than the one byte that `& !1` takes off, unless it is the end of the input.
pub boundary_bounds :
    (params : Parameters) (c : FastCdc) (bytes : List ℕ)
    → IsConfigured c
    → (boundary params c bytes ≤ length bytes)
      × (boundary params c bytes ≤ c.maximum)
      × ((boundary params c bytes ≡ length bytes) ⊎ (c.minimum ≤ boundary params c bytes + 1))
unfolding boundary
boundary_bounds params c bytes v =
    let len = length bytes in
    let end = min len c.maximum in
    let minimum = even c.minimum in
    let center = even (min end c.average) in
    let remaining = even end in
    let first = scan params c bytes c.mask_small ((center - minimum) / 2) minimum 0 in
    elim (Scan-cases first) [
      | inl (o, e) ↦
          ground (
            arith,
            e,
            scan-found params c bytes c.mask_small ((center - minimum) / 2) minimum 0 o e,
          )
      | inr (h, e) ↦
          elim (Scan-cases (scan params c bytes c.mask_large ((remaining - center) / 2) center h)) [
            | inl (o, k) ↦ ground (
              arith,
              e,
              k,
              scan-found params c bytes c.mask_large ((remaining - center) / 2) center h o k,
            )
            | inr (h', k) ↦ ground (arith, e, k)
          ]
    ]

-- A configuration that `new` returns has 0 < minimum <= average <= maximum.
pub new-IsConfigured :
    (params : Parameters) (average minimum maximum normalization seed : ℕ) (c : FastCdc)
    → new params average minimum maximum normalization seed ≡ ok c
    → IsConfigured c
unfolding new
new-IsConfigured params average minimum maximum normalization seed c h =
    let kept : (0 < minimum)
        × (minimum ≤ average)
        × (average ≤ maximum)
        × (c.minimum ≡ minimum)
        × (c.average ≡ average)
        × (c.maximum ≡ maximum) =
      ground arith in
    record { minimum_positive = omega arith; minimum_le = omega arith; average_le = omega arith }
