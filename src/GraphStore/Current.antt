-- ===== src/GraphStore/Current.antt =====
-- A stamp that was just made is current.
use frostbuild.Base.{
  true, false, List, [], ◌∷◌, ◌++◌, All, ◌≡◌, refl, sym, ap, ◌∙◌, arith, ok, >>=-eq-ok, append-nil,
  any, inl, inr, Option-cases, Bool-cases, ok_injective,
}
use frostbuild.Base.Text.{Text, codes, text_eq, text_eq_refl, text_order}
use frostbuild.GraphStore.{
  Bytes, SourcesStamp, DirStamp, Workspace, sources_stamp, ensure_sources_current, same_manifests,
  same_dirs, manifests_only, ignore_files, hash_manifests, hash_ignores,
}

same_manifests_refl : (ms : List (Text × Text)) → same_manifests ms ms ≡ true
same_manifests_refl [] = refl
same_manifests_refl ((path, digest) ∷ ms) =
    ground (arith, text_eq_refl path, text_eq_refl digest, same_manifests_refl ms)

same_dirs_refl : (ds : List DirStamp) → same_dirs ds ds ≡ true
same_dirs_refl [] = refl
same_dirs_refl (d ∷ ds) =
    ground (arith, text_eq_refl d.path, text_eq_refl d.entries_hash, same_dirs_refl ds)

-- The path is not that of an ignore file.
abbrev pub IsManifestPath : Text → Type 0
IsManifestPath path = any (text_eq path) ignore_files ≡ false

manifests_only-append :
    (ms ns : List (Text × Text))
    → manifests_only (ms ++ ns) ≡ manifests_only ms ++ manifests_only ns
manifests_only-append [] ns = refl
manifests_only-append ((path, digest) ∷ ms) ns = ground (arith, manifests_only-append ms ns)

manifests_only-hash_manifests :
    (hash : Bytes → Text) (w : Workspace) (paths : List Text) (ms : List (Text × Text))
    → All IsManifestPath paths
    → hash_manifests hash w paths ≡ ok ms
    → manifests_only ms ≡ paths
manifests_only-hash_manifests hash w [] ms h e = cc (e)
manifests_only-hash_manifests hash w (path ∷ paths) ms h e = elim (Option-cases (w.read path)) [
  | inl missing ↦ absurd (ground arith)
  | inr (bytes, found) ↦
      let (rest, r, q) =
        >>=-eq-ok (hash_manifests hash w paths) (λ rest. ok ((path, hash bytes) ∷ rest))
          (ground arith) in
      let same = manifests_only-hash_manifests hash w paths rest h.1 r in
      ap manifests_only (sym (ok_injective q)) ∙ ground (arith, same, h.0)
]

manifests_only-hash_ignores :
    (hash : Bytes → Text) (w : Workspace) (paths : List Text)
    → manifests_only (hash_ignores hash w paths ignore_files) ≡ []
unfolding text_eq
manifests_only-hash_ignores hash w paths =
    elim (Bool-cases (any (text_eq (codes ".gitignore")) paths)) [
      | inl e ↦ elim (Bool-cases (any (text_eq (codes ".frostignore")) paths)) [
        | inl f ↦ rw (e, f) refl
        | inr f ↦ rw (e, f) refl
      ]
      | inr e ↦ elim (Bool-cases (any (text_eq (codes ".frostignore")) paths)) [
        | inl f ↦ rw (e, f) refl
        | inr f ↦ rw (e, f) refl
      ]
    ]

-- Recomputed from the manifests that it names, a stamp is the same.
pub ensure_sources_current-fresh :
    (hash : Bytes → Text) (w : Workspace) (paths : List Text) (stamp : SourcesStamp)
    → All IsManifestPath paths
    → sources_stamp hash w paths ≡ ok stamp
    → ensure_sources_current hash w stamp ≡ ok tt
unfolding sources_stamp ensure_sources_current
ensure_sources_current-fresh hash w paths stamp named e =
    let (ms, r, q) = >>=-eq-ok (hash_manifests hash w paths) _ e in
    let same : manifests_only stamp.manifests ≡ paths =
      ap (λ (s : SourcesStamp). manifests_only s.manifests) (sym (ok_injective q))
      ∙ manifests_only-append ms (hash_ignores hash w paths ignore_files)
      ∙ ap (λ more. manifests_only ms ++ more) (manifests_only-hash_ignores hash w paths)
      ∙ append-nil (manifests_only ms)
      ∙ manifests_only-hash_manifests hash w paths ms named r in
    let again : sources_stamp hash w (manifests_only stamp.manifests) ≡ ok stamp =
      ap (sources_stamp hash w) same ∙ e in
    ground (arith, again, same_manifests_refl stamp.manifests, same_dirs_refl stamp.dirs)
