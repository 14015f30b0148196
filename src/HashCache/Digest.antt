-- ===== src/HashCache/Digest.antt =====
-- Through an honest cache every digest is the disk's, alone or in bulk.
use frostbuild.Base.{
  true, false, some, none, ◌≡◌, inl, inr, refl, sym, ap, ◌∙◌, is_empty, Result, ok, err, arith,
  Bool-cases, Option-cases, eq_of_some, Result-cases,
}
use frostbuild.Base.Text.{Text, text_order}
use frostbuild.Base.BTreeMap.{lookup}
use frostbuild.HashCache.{
  Stat, Entry, IoError, File, Disk, HashCache, missing, lookup_entry, settle, same_stat, valid_hit,
  is_live, entry_of, note_missing, learn, digest,
}
use frostbuild.HashCache.Honest.{
  fresh, fresh_of, IsHonest, store-IsHonest, settle-IsHonest, forget-IsHonest,
}

valid_hit_inv :
    (entry : Entry) (stat : Stat) (hash : Text)
    → valid_hit (some entry) stat ≡ some hash
    → (is_empty entry.hash ≡ false) × (same_stat entry stat ≡ true) × (entry.hash ≡ hash)
unfolding valid_hit
valid_hit_inv entry stat hash e = ground arith

-- A valid hit is what hashing the file anew would give.
valid_hit-fresh :
    (disk : Disk) (rel hash : Text) (f : File) (c : HashCache)
    → IsHonest disk c
    → disk rel ≡ some f
    → valid_hit (lookup_entry rel c) f.stat ≡ some hash
    → fresh disk rel ≡ ok hash
valid_hit-fresh disk rel hash f c h at hit = elim (Option-cases (lookup_entry rel c)) [
  | inl e ↦ absurd (unfold valid_hit in cc (sym (ap (λ o. valid_hit o f.stat) e) ∙ hit))
  | inr (entry, e) ↦
      let inv = valid_hit_inv entry f.stat hash (sym (ap (λ o. valid_hit o f.stat) e) ∙ hit) in
      ap fresh_of at ∙ h.entries rel entry e f at inv.0 inv.1 ∙ ap ok inv.2
]

note_missing-IsHonest :
    (disk : Disk) (rel : Text) (c : HashCache)
    → IsHonest disk c
    → IsHonest disk (note_missing rel c)
unfolding note_missing
note_missing-IsHonest disk rel c h = elim (Bool-cases (is_live (lookup_entry rel c))) [
  | inl e ↦ rw e (forget-IsHonest disk disk rel c (λ k ne. refl) h)
  | inr e ↦ rw e h
]

learn-IsHonest :
    (disk : Disk) (rel hash : Text) (f : File) (c : HashCache)
    → IsHonest disk c
    → disk rel ≡ some f
    → f.hash_file ≡ ok hash
    → IsHonest disk (learn rel f.stat hash c)
unfolding learn
learn-IsHonest disk rel hash f c h at hashed =
    store-IsHonest disk rel (entry_of f.stat hash) (settle rel hash c)
      (λ g at' live stat. ground (arith, eq_of_some (sym at ∙ at')))
      (settle-IsHonest disk rel hash c (rw at hashed) h)

-- What an operation that reads one path promises.
abbrev Reads : Disk → Text → Result IoError Text × HashCache → Type 0
Reads disk rel r = (r.0 ≡ fresh disk rel) × IsHonest disk r.1

digest_file :
    (disk : Disk) (rel : Text) (f : File) (c : HashCache)
    → IsHonest disk c
    → lookup rel c.settled ≡ none
    → disk rel ≡ some f
    → Reads disk rel (digest disk rel c)
digest_file disk rel f c h not_settled at =
    elim (Option-cases (valid_hit (lookup_entry rel c) f.stat)) [
      | inr (hash, hit) ↦
          let same = valid_hit-fresh disk rel hash f c h at hit in
          let run : digest disk rel c ≡ (ok hash, settle rel hash c) =
            unfold digest in ground arith in
          rw run (sym same, settle-IsHonest disk rel hash c same h)
      | inl stale ↦ elim (Result-cases f.hash_file) [
        | inl (hash, hashed) ↦
            let run : digest disk rel c ≡ (ok hash, learn rel f.stat hash c) =
              unfold digest in ground arith in
            rw run (sym (ap fresh_of at ∙ hashed), learn-IsHonest disk rel hash f c h at hashed)
        | inr (e, failed) ↦
            let run : digest disk rel c ≡ (err e, c) = unfold digest in ground arith in
            rw run (sym (ap fresh_of at ∙ failed), h)
      ]
    ]

-- Through an honest cache `digest` returns what reading the disk anew would give, errors included,
-- and leaves the cache honest.
pub digest-fresh :
    (disk : Disk) (rel : Text) (c : HashCache)
    → IsHonest disk c
    → ((digest disk rel c).0 ≡ fresh disk rel) × IsHonest disk (digest disk rel c).1
digest-fresh disk rel c h = elim (Option-cases (lookup rel c.settled)) [
  | inr (hit, e) ↦
      let run : digest disk rel c ≡ (ok hit, c) = unfold digest in ground arith in
      rw run (sym (h.settled rel hit e), h)
  | inl e ↦ elim (Option-cases (disk rel)) [
    | inl gone ↦
        let run : digest disk rel c ≡ (ok missing, note_missing rel c) =
          unfold digest in ground arith in
        rw run (sym (ap fresh_of gone), note_missing-IsHonest disk rel c h)
    | inr (f, at) ↦ digest_file disk rel f c h e at
  ]
]
