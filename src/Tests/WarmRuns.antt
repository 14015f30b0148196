-- ===== src/Tests/WarmRuns.antt =====
-- A workspace whose graph is compiled, stored and found again.
use frostbuild.Base.{
  [], ◌∷◌, some, none, ◌≡◌, length, refl, ok, err, arith, replicate, if◌then◌else◌,
}
use frostbuild.Base.Text.{Text, codes, text_eq, text_cmp, text_order}
use frostbuild.Base.BTreeMap.{lookup, insert}
use frostbuild.Manifest.{Manifest, host_platform}
use frostbuild.Graph.{BuildGraph}
use frostbuild.Graph.Build.Expand.{from_manifest_configured}
use frostbuild.GraphStore.{
  Bytes, SourcesStamp, Directory, directory, no_more, leaf, child, Workspace, Packages, Files,
  without_ids, no_file, sources_stamp, store_path,
}
use frostbuild.GraphStore.Header.{
  store_bytes, open_store, load_graph, save_graph, load_or_compile_configured, load_cached,
  cached_fingerprint,
}
use frostbuild.GraphStore.Current.{IsManifestPath}
use frostbuild.GraphStore.Warm.{load_or_compile_configured-warm}
use frostbuild.Tests.GraphCodec.{
  encode_graph, decode_graph, decode_graph-encode_graph, encode_stamp, decode_stamp,
  decode_stamp-encode_stamp, sample_stamp, sample_stamp-short,
}
use frostbuild.Tests.BuildRuns.{three, three_graph, run_from_manifest}

abbrev sample_tree : Directory
sample_tree = directory 5 (
    child (codes ".git") (directory 9 no_more)
      (leaf (codes "frost.toml") b'f' (child (codes "inc") (directory 7 no_more) no_more)))

abbrev sample_workspace : Workspace
sample_workspace = record {
  read = λ path. if text_eq path (codes "frost.toml") then some (codes "[target]") else none;
  tree = sample_tree;
}

-- A digest that is a length, and the codec of GraphCodec.
abbrev sample_packages : Packages
sample_packages = record {
  hash = λ bytes. length bytes ∷ [];
  fingerprint = λ m profile platform. replicate 32 1;
  encode_stamp = encode_stamp;
  decode_stamp = decode_stamp;
  encode_graph = encode_graph;
  decode_graph = decode_graph;
}

run_sources_stamp :
    sources_stamp sample_packages.hash sample_workspace (codes "frost.toml" ∷ []) ≡ ok sample_stamp
unfolding sources_stamp text_eq text_cmp
run_sources_stamp = refl

first_run :
    (p : Packages) (w : Workspace) (m : Manifest) (profile platform : Text) (g : BuildGraph)
    (stamp : SourcesStamp)
    → sources_stamp p.hash w m.manifest_paths ≡ ok stamp
    → from_manifest_configured m profile platform ≡ ok g
    → load_or_compile_configured p w [] m profile platform
      ≡ ok (
        insert
            (store_path profile platform)
            (store_bytes p (p.fingerprint m profile platform) stamp g)
            [],
        g,
      )
unfolding load_or_compile_configured save_graph load_graph open_store lookup
first_run p w m profile platform g stamp stamped built = ground (arith, stamped, built)

nothing_stored :
    (p : Packages) (path : Text) (wanted : Bytes)
    → load_graph p [] path (some wanted) none ≡ err no_file
unfolding load_graph open_store lookup
nothing_stored p path wanted = refl

abbrev stored_files : Files
stored_files =
    insert (store_path (codes "debug") host_platform)
      (store_bytes sample_packages (replicate 32 1) sample_stamp three_graph) []

frost_toml-IsManifestPath : IsManifestPath (codes "frost.toml")
unfolding text_eq
frost_toml-IsManifestPath = refl

load_or_compile_configured-warm_example :
    (from_manifest_configured three (codes "debug") host_platform ≡ ok three_graph)
    × (load_or_compile_configured sample_packages sample_workspace stored_files three
          (codes "debug")
          host_platform
        ≡ ok (stored_files, without_ids three_graph))
    × (load_cached sample_packages sample_workspace stored_files (codes "debug") host_platform
        ≡ some (without_ids three_graph))
    × (cached_fingerprint sample_packages sample_workspace stored_files
          (codes "debug")
          host_platform
        ≡ some (replicate 32 1))
load_or_compile_configured-warm_example =
    load_or_compile_configured-warm sample_packages sample_workspace three (codes "debug")
      host_platform three_graph sample_stamp (frost_toml-IsManifestPath, tt) run_sources_stamp refl
      sample_stamp-short (decode_stamp-encode_stamp sample_stamp)
      (decode_graph-encode_graph three_graph) [] stored_files no_file
      (nothing_stored sample_packages (store_path (codes "debug") host_platform) (replicate 32 1))
      (first_run sample_packages sample_workspace three (codes "debug") host_platform three_graph
        sample_stamp run_sources_stamp run_from_manifest)
