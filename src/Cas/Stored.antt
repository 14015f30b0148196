-- ===== src/Cas/Stored.antt =====
-- Storing and restoring keep the store sound, and what was stored can be restored.
use frostbuild.Base.{
  Bool, true, some, ◌≡◌, inl, inr, refl, ◌∙◌, ap, subst, arith, Result, ok, Bool-cases,
  Option-cases, Result-cases, if◌then◌else◌,
}
use frostbuild.Base.Text.{Text, text_eq, text_eq_iff, text_order}
use frostbuild.Base.BTreeMap.{BTreeMap, lookup, insert, contains_key, lookup-insert_self}
use frostbuild.Cas.{Blob, Packages, Disk, CasError, Io, ◌>>=◌, ◌>>◌, pure, has_parent}
use frostbuild.Cas.Keeps.{Keeps, >>=-Keeps, if-Keeps, pure-Keeps}
use frostbuild.Cas.Publish.{put_object, put_large, put}
use frostbuild.Cas.Restore.{
  publish_verified_destination, publish_staged, copy_and_verify, materialize_chunks, remove_object,
  materialize,
}
use frostbuild.Cas.Sound.{IsSound, Stands-IsSound, put_object-Keeps, remove_object-Keeps}
use frostbuild.Cas.Preserved.{put_large-Keeps, materialize_chunks-Keeps, copy_and_verify-Keeps}

module _ (p : Packages) where
  put-Keeps : (source digest : Text) → Keeps (IsSound p) (put p source digest)
  unfolding put
  put-Keeps source digest =
      >>=-Keeps (IsSound p) (put_object p source digest) (λ _. put_large p source digest)
        (put_object-Keeps p source digest)
        (λ _. Stands-IsSound p (put_large p source digest) (λ o. put_large-Keeps p o source digest))

  restored_else-Keeps :
      (digest destination : Text)
      → Keeps (IsSound p) (remove_object digest >> materialize_chunks p digest destination)
  restored_else-Keeps digest destination =
      >>=-Keeps (IsSound p) (remove_object digest) (λ _. materialize_chunks p digest destination)
        (remove_object-Keeps p digest)
        (λ _.
          Stands-IsSound p (materialize_chunks p digest destination)
            (λ o. materialize_chunks-Keeps p o digest destination))

  materialize-Keeps :
      (digest destination : Text) → Keeps (IsSound p) (materialize p digest destination)
  unfolding materialize
  materialize-Keeps digest destination d h = elim (Option-cases (lookup digest d.objects)) [
    | inl e ↦ subst (IsSound p) {x = (materialize_chunks p digest destination d).1} (ground arith) (
        Stands-IsSound p (materialize_chunks p digest destination)
          (λ o. materialize_chunks-Keeps p o digest destination) d h)
    | inr (b, e) ↦ subst (IsSound p) {x = (copied b d).1} (ground arith) (copied-Keeps b d h)
  ]
    where
      copied : Blob → Io Bool
      copied b = copy_and_verify p b digest destination >>= λ restored.
          if restored
          then pure true
          else (remove_object digest >> materialize_chunks p digest destination)

      copied-Keeps : (b : Blob) → Keeps (IsSound p) (copied b)
      copied-Keeps b =
          >>=-Keeps (IsSound p) (copy_and_verify p b digest destination)
            (λ restored.
              if restored
              then pure true
              else (remove_object digest >> materialize_chunks p digest destination))
            (Stands-IsSound p (copy_and_verify p b digest destination)
              (λ o. copy_and_verify-Keeps p o b digest destination))
            (λ restored.
              if-Keeps (IsSound p) restored _ _ (pure-Keeps (IsSound p) true)
                (restored_else-Keeps digest destination))

-- Where every object and every chunk of the store has the digest that it is stored under, this is
-- still so behind `put` and behind `materialize`, on every branch of them, errors included.
pub operations-IsSound :
    (p : Packages) (path digest : Text) (d : Disk)
    → IsSound p d
    → IsSound p (put p path digest d).1 × IsSound p (materialize p digest path d).1
operations-IsSound p path digest d h =
    (put-Keeps p path digest d h, materialize-Keeps p digest path d h)

contains-lookup :
    {V : Type 0} (k : Text) (m : BTreeMap Text V)
    → contains_key k m ≡ true
    → (v : V) × (lookup k m ≡ some v)
unfolding contains_key
contains-lookup k m h = elim (Option-cases (lookup k m)) [
  | inl e ↦ absurd (ground arith)
  | inr (v, e) ↦ (v, e)
]

-- An object that is stored without an error is there.
put_object-stored :
    (p : Packages) (source digest : Text) (d d' : Disk)
    → put_object p source digest d ≡ (ok tt, d')
    → (b : Blob) × (lookup digest d'.objects ≡ some b)
unfolding put_object
put_object-stored p source digest d d' h = elim (Bool-cases (contains_key digest d.objects)) [
  | inl c ↦
      subst (λ (x : Disk). (b : Blob) × (lookup digest x.objects ≡ some b)) {x = d} {y = d'}
        (ground arith) (contains-lookup digest d.objects c)
  | inr c ↦ elim (Option-cases (lookup source d.workspace)) [
    | inl e ↦ absurd (ground arith)
    | inr (b, e) ↦ elim (Bool-cases (text_eq (p.hash_file b) digest)) [
      | inr f ↦ absurd (ground arith)
      | inl f ↦
          subst (λ (x : Disk). (b : Blob) × (lookup digest x.objects ≡ some b))
            {x = record d { objects = insert digest b d.objects; changed = true }} {y = d'}
            (ground arith) (b, lookup-insert_self digest b d.objects)
    ]
  ]
]

put-stored :
    (p : Packages) (source digest : Text) (d d' : Disk)
    → IsSound p d
    → put p source digest d ≡ (ok tt, d')
    → (b : Blob) × (lookup digest d'.objects ≡ some b)
unfolding put
put-stored p source digest d d' s h = elim (Result-cases (put_object p source digest d).0) [
  | inr (e, f) ↦ absurd (ground arith)
  | inl (u, f) ↦
      let d1 : Disk = (put_object p source digest d).1 in
      let (b, found) = put_object-stored p source digest d d1 (ground arith) in
      let large : put_large p source digest d1 ≡ (ok tt, d') = ground arith in
      let kept = put_large-Keeps p d1.objects source digest d1 (record {
        same_objects = refl;
        chunks_hold = (put_object-Keeps p source digest d s).chunks_hold;
      }) in
      (
        b,
        subst (λ (x : Disk). lookup digest x.objects ≡ some b)
            (ap (λ (r : Result CasError (Unit {0}) × Disk). r.1) large)
            (ap (lookup digest) kept.same_objects ∙ found),
      )
]

-- After a blob was put into a sound store without an error, it can be restored to any destination
-- that has a parent directory and that a staged file can be renamed to: restoring succeeds, writes a file with this digest there, and
-- leaves the other files and the store as they are.
pub put-materialize :
    (p : Packages) (source digest destination : Text) (d d' : Disk)
    → IsSound p d
    → has_parent destination ≡ true
    → p.renames destination d' ≡ true
    → put p source digest d ≡ (ok tt, d')
    → (b : Blob) × (materialize p digest destination d'
        ≡ (ok true, record d' { workspace = insert destination b d'.workspace }))
      × (p.hash_file b ≡ digest)
unfolding materialize copy_and_verify publish_staged publish_verified_destination
put-materialize p source digest destination d d' s parent can_rename h =
    let (b, found) = put-stored p source digest d d' s h in
    let after : IsSound p d' =
      subst (λ (r : Result CasError (Unit {0}) × Disk). IsSound p r.1) h
        (put-Keeps p source digest d s) in
    let same : p.hash_file b ≡ digest = after.objects_hold digest b found in
    let passes : text_eq (p.hash_file b) digest ≡ true =
      (text_eq_iff (p.hash_file b) digest).1 same in
    (b, ground arith, same)
