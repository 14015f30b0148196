-- ===== src/Cas/Sound.antt =====
-- Every object and every chunk of the store has the digest that it is stored under.
use frostbuild.Base.{
  true, some, ◌≡◌, inl, inr, refl, sym, ◌∙◌, subst, arith, Bool-cases, Option-cases, eq_of_some,
}
use frostbuild.Base.Text.{Text, text_eq, text_eq_iff, text_order, text_cases}
use frostbuild.Base.BTreeMap.{
  BTreeMap, lookup, insert, remove, contains_key, lookup-insert_self, lookup-insert_ne,
  lookup-remove_self, lookup-remove_ne,
}
use frostbuild.Cas.{Bytes, Blob, DeltaRef, ChunkManifest, Packages, Disk, Io}
use frostbuild.Cas.Deltas.{publish_chunk, publish_delta, read_verified, read_patch}
use frostbuild.Cas.Keeps.{Keeps, keeping, >>=-Keeps}
use frostbuild.Cas.Publish.{publish_manifest, publish_artifact_head, put_object}
use frostbuild.Cas.Restore.{publish_staged, remove_chunk, remove_object}

-- A property of every entry of a map.
abbrev Holds : {V : Type 0} → (Text → V → Type 0) → BTreeMap Text V → Type 0
Holds {V} Q m = (k : Text) (v : V) → lookup k m ≡ some v → Q k v

Holds-insert :
    {V : Type 0} (Q : Text → V → Type 0) (k : Text) (v : V) (m : BTreeMap Text V)
    → Q k v
    → Holds Q m
    → Holds Q (insert k v m)
Holds-insert Q k v m q h j w e = elim (text_cases j k) [
  | inl same ↦
      let mine : v ≡ w =
        eq_of_some
          (sym (lookup-insert_self k v m) ∙ subst (λ i. lookup i (insert k v m) ≡ some w) same e) in
      subst (λ i. Q i w) (sym same) (subst (Q k) mine q)
  | inr ne ↦ h j w (sym (lookup-insert_ne k j v m ne) ∙ e)
]

Holds-remove :
    {V : Type 0} (Q : Text → V → Type 0) (k : Text) (m : BTreeMap Text V)
    → Holds Q m
    → Holds Q (remove k m)
Holds-remove Q k m h j w e = elim (text_cases j k) [
  | inl same ↦
      absurd
        (cc (sym (lookup-remove_self k m) ∙ subst (λ i. lookup i (remove k m) ≡ some w) same e))
  | inr ne ↦ h j w (sym (lookup-remove_ne k j m ne) ∙ e)
]

abbrev pub ObjectsHold : Packages → BTreeMap Text Blob → Type 0
ObjectsHold p objects =
    (digest : Text) (b : Blob) → lookup digest objects ≡ some b → p.hash_file b ≡ digest

abbrev pub ChunksHold : Packages → BTreeMap Text Bytes → Type 0
ChunksHold p chunks =
    (digest : Text) (bytes : Bytes) → lookup digest chunks ≡ some bytes → p.sha256 bytes ≡ digest

pub record IsSound (p : Packages) (d : Disk) : Type 0 where
  pub objects_hold : ObjectsHold p d.objects
  pub chunks_hold : ChunksHold p d.chunks

-- The objects are these, and every chunk has its digest.
pub record Stands (p : Packages) (objects : BTreeMap Text Blob) (d : Disk) : Type 0 where
  pub same_objects : d.objects ≡ objects
  pub chunks_hold : ChunksHold p d.chunks

-- What leaves the objects alone and keeps the chunks in order keeps the store sound.
pub Stands-IsSound :
    (p : Packages) {A : Type 0} (m : Io A)
    → ((objects : BTreeMap Text Blob) → Keeps (Stands p objects) m)
    → Keeps (IsSound p) m
Stands-IsSound p m keeps d h =
    let after = keeps d.objects d (record { same_objects = refl; chunks_hold = h.chunks_hold }) in
    record {
      objects_hold = subst (ObjectsHold p) (sym after.same_objects) h.objects_hold;
      chunks_hold = after.chunks_hold;
    }

module _ (p : Packages) (objects : BTreeMap Text Blob) where
  pub remove_chunk-Keeps : (digest : Text) → Keeps (Stands p objects) (remove_chunk digest)
  remove_chunk-Keeps digest d h = record {
    same_objects = h.same_objects;
    chunks_hold = Holds-remove (λ k b. p.sha256 b ≡ k) digest d.chunks h.chunks_hold;
  }

  pub publish_chunk-Keeps :
      (digest : Text) (bytes : Bytes)
      → p.sha256 bytes ≡ digest
      → Keeps (Stands p objects) (publish_chunk digest bytes)
  unfolding publish_chunk
  publish_chunk-Keeps digest bytes e d h = elim (Bool-cases (contains_key digest d.chunks)) [
    | inl c ↦ subst (Stands p objects) {x = d} (ground arith) h
    | inr c ↦
        subst (Stands p objects)
          {x = record d { chunks = insert digest bytes d.chunks; changed = true }} (ground arith)
          (record {
            same_objects = h.same_objects;
            chunks_hold =
                Holds-insert (λ k b. p.sha256 b ≡ k) digest bytes d.chunks e h.chunks_hold;
          })
  ]

  pub same_stores :
      (d d' : Disk)
      → d'.objects ≡ d.objects
      → d'.chunks ≡ d.chunks
      → Stands p objects d
      → Stands p objects d'
  same_stores d d' e f h = record {
    same_objects = e ∙ h.same_objects;
    chunks_hold = subst (ChunksHold p) (sym f) h.chunks_hold;
  }

  pub read_verified-Keeps : (digest : Text) → Keeps (Stands p objects) (read_verified p digest)
  unfolding read_verified
  read_verified-Keeps digest d h = elim (Option-cases (lookup digest d.chunks)) [
    | inl e ↦ subst (Stands p objects) {x = d} (ground arith) h
    | inr (bytes, e) ↦ elim (Bool-cases (text_eq (p.sha256 bytes) digest)) [
      | inl f ↦ subst (Stands p objects) {x = d} (ground arith) h
      | inr f ↦
          subst (Stands p objects) {x = (remove_chunk digest d).1} (ground arith)
            (remove_chunk-Keeps digest d h)
    ]
  ]

  pub publish_delta-Keeps :
      (target patch_digest : Text) (patch : Bytes)
      → Keeps (Stands p objects) (publish_delta target patch_digest patch)
  unfolding publish_delta
  publish_delta-Keeps target patch_digest patch d h =
      same_stores d _ (ground arith) (ground arith) h

  pub read_patch-Keeps :
      (target : Text) (delta : DeltaRef) → Keeps (Stands p objects) (read_patch p target delta)
  unfolding read_patch
  read_patch-Keeps target delta d h = same_stores d _ (ground arith) (ground arith) h

  pub publish_manifest-Keeps : (m : ChunkManifest) → Keeps (Stands p objects) (publish_manifest p m)
  unfolding publish_manifest
  publish_manifest-Keeps m d h = same_stores d _ (ground arith) (ground arith) h

  pub publish_artifact_head-Keeps :
      (source digest : Text) → Keeps (Stands p objects) (publish_artifact_head p source digest)
  unfolding publish_artifact_head
  publish_artifact_head-Keeps source digest d h = same_stores d _ refl refl h

  pub publish_staged-Keeps :
      (staged : Blob) (digest destination : Text)
      → Keeps (Stands p objects) (publish_staged p staged digest destination)
  unfolding publish_staged
  publish_staged-Keeps staged digest destination d h =
      same_stores d _ (ground arith) (ground arith) h

module _ (p : Packages) where
  insert_object-IsSound :
      (digest : Text) (b : Blob) (d : Disk)
      → p.hash_file b ≡ digest
      → IsSound p d
      → IsSound p (record d { objects = insert digest b d.objects; changed = true })
  insert_object-IsSound digest b d e h = record {
    objects_hold = Holds-insert (λ k o. p.hash_file o ≡ k) digest b d.objects e h.objects_hold;
    chunks_hold = h.chunks_hold;
  }

  pub put_object-Keeps : (source digest : Text) → Keeps (IsSound p) (put_object p source digest)
  unfolding put_object
  put_object-Keeps source digest d h = elim (Bool-cases (contains_key digest d.objects)) [
    | inl c ↦ subst (IsSound p) {x = d} (ground arith) h
    | inr c ↦ elim (Option-cases (lookup source d.workspace)) [
      | inl e ↦ subst (IsSound p) {x = d} (ground arith) h
      | inr (b, e) ↦ elim (Bool-cases (text_eq (p.hash_file b) digest)) [
        | inr f ↦ subst (IsSound p) {x = d} (ground arith) h
        | inl f ↦
            subst (IsSound p) {x = record d { objects = insert digest b d.objects; changed = true }}
              (ground arith)
              (insert_object-IsSound digest b d ((text_eq_iff (p.hash_file b) digest).0 f) h)
      ]
    ]
  ]

  pub remove_object-Keeps : (digest : Text) → Keeps (IsSound p) (remove_object digest)
  remove_object-Keeps digest d h = record {
    objects_hold = Holds-remove (λ k o. p.hash_file o ≡ k) digest d.objects h.objects_hold;
    chunks_hold = h.chunks_hold;
  }

pub ruleset sound = (
  keeping, remove_chunk-Keeps, publish_chunk-Keeps, read_verified-Keeps, publish_delta-Keeps,
  read_patch-Keeps, publish_manifest-Keeps, publish_artifact_head-Keeps, publish_staged-Keeps,
)
