-- ===== src/Cas/Eviction.antt =====
-- What `gc` removes: the oldest files, no more than it has to.
use mathlib.Core.List.{Perm}
use frostbuild.Base.{
  ℕ, ◌+◌, ◌-◌, ◌^◌, ◌<◌, ◌≤◌, Bool, true, false, List, [], ◌∷◌, ◌++◌, ◌≡◌, inl, inr, refl, sym, ap,
  subst, arith, Bool-cases, leb, leb→le, saturating_add,
}
use frostbuild.Cas.Gc.{Listed, Usage, sort_by_key, total_size, evict, skips, gc}
use frostbuild.Cas.ByKey.{
  sum_sizes, IsByKey, sort_by_key-IsByKey, sort_by_key-perm, sort_by_key-sizes,
}

total_size-sum :
    (files : List Listed) (total : ℕ)
    → total + sum_sizes files < 2 ^ 64
    → total_size files total ≡ total + sum_sizes files
total_size-sum [] total h = omega arith
total_size-sum (e ∷ files) total h =
    ground (arith, total_size-sum files (saturating_add total e.size))

-- How the sorted files are cut: the front is removed, and the removed front with its last file put
-- back would still be above the limit.
pub record IsCut (limit : ℕ) (files : List Listed) (removed : ℕ) (kept : List Listed) : Type 0 where
  pub gone : List Listed
  pub cut : files ≡ gone ++ kept
  pub freed : removed ≡ sum_sizes gone
  pub fits : sum_sizes kept ≤ limit
  pub needed :
      (early : List Listed) (last : Listed)
      → gone ≡ early ++ last ∷ []
      → limit < last.size + sum_sizes kept

nothing-IsCut :
    (limit : ℕ) (files : List Listed) → sum_sizes files ≤ limit → IsCut limit files 0 files
nothing-IsCut limit files h = record {
  gone = [];
  cut = refl;
  freed = refl;
  fits = h;
  needed = λ early last e. absurd (no_last early last e);
}
  where
    no_last : (early : List Listed) (last : Listed) → [] ≡ early ++ last ∷ [] → ⊥
    no_last [] last e = cc
    no_last (x ∷ early) last e = cc

-- One more file in front is removed, as the total is above the limit.
front-IsCut :
    (limit : ℕ) (f : Listed) (files : List Listed) (freed : ℕ) (kept : List Listed)
    → limit < f.size + sum_sizes files
    → IsCut limit files freed kept
    → IsCut limit (f ∷ files) (f.size + freed) kept
front-IsCut limit f files freed kept h c = record {
  gone = f ∷ c.gone;
  cut = ap (◌∷◌ f) c.cut;
  freed = omega (arith, c.freed);
  fits = c.fits;
  needed = λ early last e. last_needed early last e;
}
  where
    last_needed :
        (early : List Listed) (last : Listed)
        → f ∷ c.gone ≡ early ++ last ∷ []
        → limit < last.size + sum_sizes kept
    last_needed [] last e =
        let same : f ≡ last = cc in
        let all : files ≡ kept = subst (λ g. files ≡ g ++ kept) {x = c.gone} {y = []} (cc) c.cut in
        subst (λ (x : Listed). limit < x.size + sum_sizes kept) same
          (subst (λ k. limit < f.size + sum_sizes k) all h)
    last_needed (x ∷ early) last e = c.needed early last (cc)

evict-IsCut :
    (can_remove : Listed → Bool) (limit : ℕ) (files : List Listed) (total removed : ℕ)
    → ((e : Listed) → can_remove e ≡ true)
    → total ≡ sum_sizes files
    → (freed : ℕ) × ((evict can_remove limit files total removed).0 ≡ removed + freed)
      × IsCut limit files freed (evict can_remove limit files total removed).1
unfolding evict
evict-IsCut can_remove limit [] total removed all e =
    (0, omega arith, nothing-IsCut limit [] (omega arith))
evict-IsCut can_remove limit (f ∷ files) total removed all e = elim (Bool-cases (leb total limit)) [
  | inl h ↦
      let run : evict can_remove limit (f ∷ files) total removed ≡ (removed, f ∷ files) =
        ground arith in
      subst Cut (sym run)
        (0, omega arith, nothing-IsCut limit (f ∷ files) (omega (arith, leb→le total limit h)))
  | inr h ↦
      let run : evict can_remove limit (f ∷ files) total removed
          ≡ evict can_remove limit files (total - f.size) (removed + f.size) =
        ground (arith, all f) in
      let (freed, more, c) =
        evict-IsCut can_remove limit files (total - f.size) (removed + f.size) all (omega arith) in
      let above : limit < f.size + sum_sizes files = ground arith in
      subst Cut (sym run)
        (f.size + freed, omega (arith, more), front-IsCut limit f files freed _ above c)
]
  where
    Cut : ℕ × List Listed → Type 0
    Cut r = (freed : ℕ) × (r.0 ≡ removed + freed) × IsCut limit (f ∷ files) freed r.1

-- Where `gc` scans, every file can be removed, and the sizes add up within 64 bits, it removes a front
-- of the files in the order of their times of modification (then of their paths), and reports how
-- many bytes that were. What is left is within the limit, and would not be with the last removed
-- file put back.
pub gc-IsCut :
    (can_remove : Listed → Bool) (u : Usage)
    → skips u ≡ false
    → ((e : Listed) → can_remove e ≡ true)
    → sum_sizes u.files < 2 ^ 64
    → Perm (sort_by_key u.files) u.files
      × IsByKey (sort_by_key u.files)
      × IsCut u.max_bytes (sort_by_key u.files) (gc can_remove u).0 (gc can_remove u).1
unfolding gc
gc-IsCut can_remove u scans all small =
    let total : total_size u.files 0 ≡ sum_sizes (sort_by_key u.files) =
      omega (arith, total_size-sum u.files 0, sort_by_key-sizes u.files) in
    let (freed, more, c) =
      evict-IsCut can_remove u.max_bytes (sort_by_key u.files) (total_size u.files 0) 0 all total in
    let swept = evict can_remove u.max_bytes (sort_by_key u.files) (total_size u.files 0) 0 in
    let run : gc can_remove u ≡ (swept.0, swept.1, true) = ground arith in
    (
      sort_by_key-perm u.files,
      sort_by_key-IsByKey u.files,
      subst (λ (r : ℕ × List Listed × Bool). IsCut u.max_bytes (sort_by_key u.files) r.0 r.1)
          (sym run)
          (subst (λ n. IsCut u.max_bytes (sort_by_key u.files) n swept.1) (omega (arith, more)) c),
    )
