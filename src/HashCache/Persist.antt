-- ===== src/HashCache/Persist.antt =====
-- From one build to the next: writes that are announced, and what `save` hands on.
use frostbuild.Base.{
  false, [], ◌∷◌, Option, some, none, ◌≡◌, inl, inr, ◌⊎◌, refl, sym, ap, ◌∙◌, if◌then◌else◌,
  is_empty, arith,
}
use frostbuild.Base.Text.{text_cases, Text, text_order}
use frostbuild.Base.BTreeMap.{
  BTreeMap, lookup, insert, remove, IsSorted, lookup-insert_self, lookup-insert_ne,
  lookup-remove_self, lookup-remove_ne, lookup-nil, lookup-Above, lookup-cons_self, lookup-cons_ne,
}
use frostbuild.HashCache.{
  Entry, File, Disk, HashCache, with_snapshot, lookup_entry, forget, invalidate, same_stat, digest,
  merge, save,
}
use frostbuild.HashCache.Honest.{fresh, IsHonest, SameBut, forget-IsHonest}
use frostbuild.HashCache.Digest.{digest-fresh}

-- A path that was rewritten and invalidated is digested anew, whatever its stat triple became, and
-- the cache is honest about the disk as the write left it.
pub digest-invalidate :
    (old new : Disk) (rel : Text) (c : HashCache)
    → SameBut rel old new
    → IsHonest old c
    → ((digest new rel (invalidate rel c)).0 ≡ fresh new rel)
      × IsHonest new (digest new rel (invalidate rel c)).1
digest-invalidate old new rel c same h =
    unfold invalidate in digest-fresh new rel (forget rel c) (forget-IsHonest old new rel c same h)

-- An update outweighs the snapshot, and a tombstone takes the entry away.
abbrev overlay : Option Entry → Option Entry → Option Entry
overlay none old = old
overlay (some e) old = if is_empty e.hash then none else some e

lookup-merge :
    (rel : Text) (updates snapshot : BTreeMap Text Entry)
    → IsSorted updates
    → lookup rel (merge updates snapshot) ≡ overlay (lookup rel updates) (lookup rel snapshot)
unfolding merge
lookup-merge rel [] snapshot s = ap (λ o. overlay o (lookup rel snapshot)) (sym (lookup-nil rel))
lookup-merge rel ((path, e) ∷ updates) snapshot s = lookup-merge rel updates _ s.1 ∙ step
  where
    step :
        overlay
          (lookup rel updates)
          (lookup rel (if is_empty e.hash then remove path snapshot else insert path e snapshot))
        ≡ overlay (lookup rel ((path, e) ∷ updates)) (lookup rel snapshot)
    step = elim (text_cases rel path) [
      | inl here ↦ ground (
        arith,
        here,
        lookup-Above path updates s.0,
        lookup-cons_self path e updates,
        lookup-remove_self path snapshot,
        lookup-insert_self path e snapshot,
      )
      | inr other ↦ ground (
        arith,
        lookup-cons_ne path rel e updates other,
        lookup-remove_ne path rel snapshot other,
        lookup-insert_ne path rel e snapshot other,
      )
    ]

-- What `save` keeps is what the cache would answer.
lookup-save :
    (disk : Disk) (rel : Text) (e : Entry) (c : HashCache)
    → IsHonest disk c
    → lookup rel (save c c.snapshot) ≡ some e
    → lookup_entry rel c ≡ some e
unfolding save lookup_entry
lookup-save disk rel e c h found = ground (arith, lookup-merge rel c.updates c.snapshot h.sorted)

-- Each file of the later disk is as it was, or has a stat triple that the cache does not have for it.
abbrev pub StatsTell : Disk → Disk → HashCache → Type 0
StatsTell old new c =
    (rel : Text) (f : File)
    → new rel ≡ some f
    → (old rel ≡ some f) ⊎ ((e : Entry) → lookup_entry rel c ≡ some e → same_stat e f.stat ≡ false)

-- A build that starts from the saved cache is honest about the disk it finds, as long as each file
-- there is as it was or has a stat triple that the cache does not have for it.
pub save-IsHonest :
    (old new : Disk) (c : HashCache)
    → StatsTell old new c
    → IsHonest old c
    → IsHonest new (with_snapshot (save c c.snapshot))
save-IsHonest old new c tell h = record {
  entries = λ rel e found f at live stat.
      let cached = lookup-save old rel e c h (unfold lookup_entry in found) in
      elim (tell rel f at) [
        | inl kept ↦ h.entries rel e cached f kept live stat
        | inr other ↦ absurd (ground (arith, other e cached, stat))
      ];
  settled = λ rel hash found. absurd (ground (arith, lookup-nil {V = Text} rel, found));
  unchanged = λ _. refl;
  sorted = tt;
}
