-- ===== src/GraphStore/Warm.antt =====
-- A graph that was just stored is found again: by its fingerprint, and by the sources.
use frostbuild.Base.{
  ◌^◌, ◌<◌, Option, some, none, length, All, ◌≡◌, sym, ap, ◌∙◌, subst, arith, Result, ok, err,
  ◌>>=◌, inl, inr, ok_injective, Result-cases,
}
use frostbuild.Base.Text.{Text, text_eq_refl, text_order}
use frostbuild.Base.BTreeMap.{insert, lookup-insert_self}
use frostbuild.Manifest.{Manifest}
use frostbuild.Graph.{BuildGraph}
use frostbuild.GraphStore.{
  Bytes, SourcesStamp, Workspace, Packages, StoreError, Files, without_ids, sources_stamp,
  store_path,
}
use frostbuild.GraphStore.Header.{
  ParsedStore, parse_header, store_bytes, or_error, save_graph, load_graph, open_store,
}
use frostbuild.GraphStore.Parsed.{parse_header-store_bytes}
use frostbuild.GraphStore.Current.{IsManifestPath, ensure_sources_current-fresh}
use frostbuild.GraphStore.Header.{
  load_or_compile_configured, load_cached, cached_fingerprint, to_option, validate_cached_sources,
}
use frostbuild.GraphStore.{no_file}
use frostbuild.Graph.Build.Expand.{from_manifest_configured}

abbrev returned : Files × BuildGraph → Result StoreError (Files × BuildGraph)
returned r = ok r

module _ (p : Packages) (w : Workspace) (m : Manifest) (profile platform : Text) (g : BuildGraph)
    (stamp : SourcesStamp) (named : All IsManifestPath m.manifest_paths)
    (stamped : sources_stamp p.hash w m.manifest_paths ≡ ok stamp)
    (size : length (p.fingerprint m profile platform) ≡ 32)
    (short : length (p.encode_stamp stamp) < 2 ^ 32)
    (read_stamp : p.decode_stamp (p.encode_stamp stamp) ≡ some stamp)
    (read_graph : p.decode_graph (p.encode_graph g) ≡ some (without_ids g)) where
  abbrev wanted : Bytes
  wanted = p.fingerprint m profile platform

  abbrev path : Text
  path = store_path profile platform

  abbrev parsed : ParsedStore
  parsed = record { fingerprint = wanted; stamp = stamp; payload = p.encode_graph g }

  abbrev saved : Files → Files
  saved files = insert path (store_bytes p wanted stamp g) files

  save_graph-saved :
      (files : Files) → save_graph p w files path wanted m.manifest_paths g ≡ ok (saved files)
  unfolding save_graph
  save_graph-saved files = ground (arith, stamped)

  open_store-saved : (files : Files) → open_store p (saved files) path ≡ ok parsed
  unfolding open_store
  open_store-saved files =
      ap (λ (found : Option Bytes). or_error no_file found >>= λ bytes. parse_header p bytes)
        (lookup-insert_self path (store_bytes p wanted stamp g) files)
      ∙ parse_header-store_bytes p wanted stamp g size short read_stamp

  load_graph-wanted :
      (files : Files) → load_graph p (saved files) path (some wanted) none ≡ ok (without_ids g)
  unfolding load_graph
  load_graph-wanted files = ground (arith, open_store-saved files, text_eq_refl wanted, read_graph)

  load_graph-current :
      (files : Files) → load_graph p (saved files) path none (some w) ≡ ok (without_ids g)
  unfolding load_graph
  load_graph-current files = ground (
    arith,
    open_store-saved files,
    ensure_sources_current-fresh p.hash w m.manifest_paths stamp named stamped,
    read_graph,
  )

  validate_cached_sources-saved :
      (files : Files) → validate_cached_sources p w (saved files) path ≡ ok wanted
  unfolding validate_cached_sources
  validate_cached_sources-saved files = ground (
    arith,
    open_store-saved files,
    ensure_sources_current-fresh p.hash w m.manifest_paths stamp named stamped,
  )

  -- When nothing that is stored has the fingerprint, the graph is compiled and stored.
  compile-saved :
      (files files' : Files) (e : StoreError)
      → load_graph p files path (some wanted) none ≡ err e
      → load_or_compile_configured p w files m profile platform ≡ ok (files', g)
      → (from_manifest_configured m profile platform ≡ ok g) × (files' ≡ saved files)
  unfolding load_or_compile_configured save_graph
  compile-saved files files' e missing run =
      elim (Result-cases (from_manifest_configured m profile platform)) [
        | inr (f, failed) ↦ absurd (ground arith)
        | inl (g', built) ↦
            let ran : returned (insert path (store_bytes p wanted stamp g') files, g')
                ≡ returned (files', g) =
              ground (arith, stamped) in
            let graph : g' ≡ g = ap (λ (r : Files × BuildGraph). r.1) (ok_injective ran) in
            let stored : insert path (store_bytes p wanted stamp g') files ≡ files' =
              ap (λ (r : Files × BuildGraph). r.0) (ok_injective ran) in
            (
              built ∙ ap ok graph,
              sym stored
                  ∙ ap (λ (h : BuildGraph). insert path (store_bytes p wanted stamp h) files) graph,
            )
      ]

  reload-saved :
      (files : Files)
      → load_or_compile_configured p w (saved files) m profile platform
        ≡ ok (saved files, without_ids g)
  unfolding load_or_compile_configured
  reload-saved files = ground (arith, load_graph-wanted files, load_graph-current files)

  cached-saved :
      (files : Files)
      → (load_cached p w (saved files) profile platform ≡ some (without_ids g))
        × (cached_fingerprint p w (saved files) profile platform ≡ some wanted)
  unfolding load_cached cached_fingerprint
  cached-saved files =
      (ap to_option (load_graph-current files), ap to_option (validate_cached_sources-saved files))

  -- When the files hold no graph with the wanted fingerprint and a graph is asked for, it is the one
  -- that the manifest expands to, and it is stored so that as long as the workspace is the same it
  -- is found again, but for its index of files, which is not stored: asking once more gives it
  -- without a change of the files, the warm path that reads no manifest gives it, and so is the
  -- fingerprint for the no-op certificate. That is where the manifests' paths are not those of
  -- ignore files, the manifests can be read, the fingerprint has 32 bytes, the encoded stamp is
  -- shorter than 4 GiB, and postcard reads back that stamp, and that graph without its index.
  pub load_or_compile_configured-warm :
      (files files' : Files) (e : StoreError)
      → load_graph p files path (some wanted) none ≡ err e
      → load_or_compile_configured p w files m profile platform ≡ ok (files', g)
      → (from_manifest_configured m profile platform ≡ ok g)
        × (load_or_compile_configured p w files' m profile platform ≡ ok (files', without_ids g))
        × (load_cached p w files' profile platform ≡ some (without_ids g))
        × (cached_fingerprint p w files' profile platform ≡ some wanted)
  load_or_compile_configured-warm files files' e missing run =
      let (built, same) = compile-saved files files' e missing run in
      let Warm : Files → Type 0 = λ fs.
        (load_or_compile_configured p w fs m profile platform ≡ ok (fs, without_ids g))
        × (load_cached p w fs profile platform ≡ some (without_ids g))
        × (cached_fingerprint p w fs profile platform ≡ some wanted) in
      let (again, cached, proof) =
        subst Warm (sym same)
          (reload-saved files, (cached-saved files).0, (cached-saved files).1) in
      (built, again, cached, proof)
