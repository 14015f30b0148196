-- ===== src/HashCache/Honest.antt =====
-- The cache tells the truth about a disk, and its small operations keep it so.
use frostbuild.Base.{
  true, false, [], Option, some, none, ◌≡◌, ◌≢◌, inl, inr, refl, sym, ap, ◌∙◌, is_empty, Result, ok,
  arith, subst, eq_of_some,
}
use frostbuild.Base.Text.{text_cases, Text, text_order}
use frostbuild.Base.BTreeMap.{
  lookup, insert, lookup-insert_self, lookup-insert_ne, lookup-remove_self, lookup-remove_ne,
  lookup-nil, IsSorted, insert-IsSorted,
}
use frostbuild.HashCache.{
  Entry, IoError, File, Disk, HashCache, missing, lookup_entry, store, settle, forget, same_stat,
  tombstone,
}

-- The digest of a path as the disk has it now.
abbrev pub fresh_of : Option File → Result IoError Text
fresh_of none = ok missing
fresh_of (some f) = f.hash_file

abbrev pub fresh : Disk → Text → Result IoError Text
fresh disk rel = fresh_of (disk rel)

-- A live entry whose stat triple is the file's has the file's hash.
abbrev pub Truthful : Disk → Text → Entry → Type 0
Truthful disk rel e =
    (f : File)
    → disk rel ≡ some f
    → is_empty e.hash ≡ false
    → same_stat e f.stat ≡ true
    → f.hash_file ≡ ok e.hash

pub record IsHonest (disk : Disk) (c : HashCache) : Type 0 where
  pub entries : (rel : Text) (e : Entry) → lookup_entry rel c ≡ some e → Truthful disk rel e
  pub settled : (rel hash : Text) → lookup rel c.settled ≡ some hash → fresh disk rel ≡ ok hash
  -- Until something changed there are no updates, so that reads may pass them over.
  pub unchanged : c.changed ≡ false → c.updates ≡ []
  pub sorted : IsSorted c.updates

lookup_entry-store_self :
    (rel : Text) (e : Entry) (c : HashCache) → lookup_entry rel (store rel e c) ≡ some e
unfolding lookup_entry store
lookup_entry-store_self rel e c = ground (arith, lookup-insert_self rel e c.updates)

lookup_entry-store_ne :
    (disk : Disk) (rel k : Text) (e : Entry) (c : HashCache)
    → IsHonest disk c
    → k ≢ rel
    → lookup_entry k (store rel e c) ≡ lookup_entry k c
unfolding lookup_entry store
lookup_entry-store_ne disk rel k e c h ne =
    ground (arith, lookup-insert_ne rel k e c.updates ne, h.unchanged, lookup-nil {V = Entry} k)

-- Storing a true entry keeps the cache honest.
pub store-IsHonest :
    (disk : Disk) (rel : Text) (e : Entry) (c : HashCache)
    → Truthful disk rel e
    → IsHonest disk c
    → IsHonest disk (store rel e c)
store-IsHonest disk rel e c t h = record {
  entries = λ k e' found. elim (text_cases k rel) [
    | inl same ↦
        let e-same : some e ≡ some e' =
          sym (lookup_entry-store_self rel e c)
          ∙ ap (λ x. lookup_entry x (store rel e c)) (sym same)
          ∙ found in
        subst (Truthful disk k) (eq_of_some e-same) (subst (λ x. Truthful disk x e) (sym same) t)
    | inr other ↦ h.entries k e' (sym (lookup_entry-store_ne disk rel k e c h other) ∙ found)
  ];
  settled = unfold store in h.settled;
  unchanged = unfold store in λ n. cc;
  sorted = unfold store in insert-IsSorted rel e c.updates h.sorted;
}

-- So does settling a digest that the disk gives.
pub settle-IsHonest :
    (disk : Disk) (rel hash : Text) (c : HashCache)
    → fresh disk rel ≡ ok hash
    → IsHonest disk c
    → IsHonest disk (settle rel hash c)
unfolding settle lookup_entry
settle-IsHonest disk rel hash c now h = record {
  entries = h.entries;
  settled = λ k hash' found. elim (text_cases k rel) [
    | inl same ↦
        let hash-same : some hash ≡ some hash' =
          sym (lookup-insert_self rel hash c.settled)
          ∙ ap (λ x. lookup x (insert rel hash c.settled)) (sym same)
          ∙ found in
        ap (fresh disk) same ∙ now ∙ ap ok (eq_of_some hash-same)
    | inr other ↦ h.settled k hash' (sym (lookup-insert_ne rel k hash c.settled other) ∙ found)
  ];
  unchanged = h.unchanged;
  sorted = h.sorted;
}

-- Two disks that differ at one path at most.
abbrev pub SameBut : Text → Disk → Disk → Type 0
SameBut rel old new = (k : Text) → k ≢ rel → new k ≡ old k

-- Forgetting a path makes the cache honest about every disk that differs from the old one there.
pub forget-IsHonest :
    (old new : Disk) (rel : Text) (c : HashCache)
    → SameBut rel old new
    → IsHonest old c
    → IsHonest new (forget rel c)
forget-IsHonest old new rel c same h = record {
  entries = λ k e found. elim (text_cases k rel) [
    | inl here ↦
        let e-same : some tombstone ≡ some e =
          sym (lookup_entry-store_self rel tombstone c)
          ∙ ap (λ x. lookup_entry x (store rel tombstone c)) (sym here)
          ∙ forget_store rel k c
          ∙ found in
        λ f at live stat. absurd (ground (arith, eq_of_some e-same))
    | inr other ↦ λ f at.
        h.entries k e
          (sym (lookup_entry-store_ne old rel k tombstone c h other) ∙ forget_store rel k c ∙ found)
          f (sym (same k other) ∙ at)
  ];
  settled =
      unfold forget in
      λ k hash found. elim (text_cases k rel) [
        | inl here ↦ absurd (ground (arith, lookup-remove_self k c.settled, here, found))
        | inr other ↦
            ap fresh_of (same k other)
            ∙ h.settled k hash (sym (lookup-remove_ne rel k c.settled other) ∙ found)
      ];
  unchanged = unfold forget in λ n. cc;
  sorted = unfold forget in insert-IsSorted rel tombstone c.updates h.sorted;
}
  where
    forget_store :
        (rel k : Text) (c : HashCache)
        → lookup_entry k (store rel tombstone c) ≡ lookup_entry k (forget rel c)
    forget_store rel k c = unfold lookup_entry store forget in refl
