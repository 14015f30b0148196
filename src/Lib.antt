-- ===== src/Lib.antt =====
-- Frost, an incremental build system (crates/): a manifest of targets is validated and expanded into
-- a graph of actions on files; the engine runs the actions whose key differs from the one in the
-- journal, digests files through a cache, and records what it ran.
--
-- Files, and the code that they model:
--   Base        lists, Boolean tests, results, texts, `BTreeMap` and `BTreeSet`, `str::split`.
--   Paths       crates/frostbuild-core/src/paths.rs: `validate_rel_path`.
--   Depfile     crates/frostbuild-core/src/depfile.rs: `parse`, a fold of `read_char` over the text.
--   ActionKey   crates/frostbuild-core/src/lib.rs: `ActionKey` and its payload; ActionKey/Stream is
--               `streamed_action_key` and `update_key_field` of crates/frostbuild-exec/src/lib.rs.
--   Journal     crates/frostbuild-core/src/journal.rs: `Journal::load`, `record` (here `record_action`),
--               `save`, and `decode_bytes`. The state is the journal and a map from paths to bytes.
--   FastCdc     crates/frostbuild-core/src/fastcdc.rs: `FastCdc::new`, `boundary`, `Chunks::next`, for
--               any tables; FastCdc/Tables are those of crates/frostbuild-core/src/fastcdc_params.json.
--   HashCache   crates/frostbuild-core/src/hashcache.rs: the maps, `digest`, `digest_many`,
--               `matches_many`, `invalidate` and `save`, over a disk of stat triples and hashes.
--   Manifest    crates/frostbuild-core/src/manifest.rs: the data; Manifest/Raw the sections as read,
--               Manifest/Names the names, Manifest/Build `build_target`, Manifest/Checked `from_raw`,
--               Manifest/Platforms `toolchain_for`, Manifest/Closest `closest` and `edit_distance`.
--   Graph       crates/frostbuild-core/src/graph.rs: the data, `file` and `push_action`; Graph/Closure
--               the closures, Graph/Toposort `toposort_targets`; Graph/Build is
--               `from_manifest_configured`, with a function for each kind of target (Build/Rules,
--               Build/Compile, Build/Expand), over Graph/Templates (the variables of commands),
--               Graph/SharedSet and Graph/CleanDirs (`validate_clean_dirs`).
--   GraphStore  crates/frostbuild-core/src/graph_store.rs: the stamp of the sources; GraphStore/Header
--               the stored bytes, `load_or_compile_configured`, `load_cached` and the others.
--   Cas         crates/frostbuild-core/src/cas.rs: the store as a map from paths to contents;
--               Cas/Digests the layout, Cas/Publish `put` and the chunks, Cas/Deltas deltas,
--               Cas/Restore `materialize`, Cas/Gc `gc`, Cas/Stats `stats`.
--   Exec        crates/frostbuild-exec/src/lib.rs: `Outcome`, `Shared`, and what `Engine::worker` does
--               under the lock (`claim`, `finish`); Exec/Steps are all interleavings of the workers,
--               with running an action as a step of any outcome; Exec/Estimates and Exec/Plan are
--               `Estimates` and `Schedule::plan`, Exec/KeyArgv is `action_key_argv`.
--   Tests       runs on concrete inputs, with a codec, a hasher and a disk that can be computed.
--
-- How the parts meet: `build_target` normalizes every path with `validate_rel_path`; the
-- topological sort of the graph takes the targets of a manifest that `from_raw` accepted
-- (Manifest/Validated is what it relies on); the action closure follows the producers that
-- `push_action` records (Graph/Owned, and for a whole manifest Graph/Build/Configured); the
-- workers rely on a plan in which every action stands once under each of its producers (`IsPlan`
-- and `Waits` of Exec/Ordered and Exec/Start), which is what `plan` makes (Exec/Planned); the key
-- that the engine compares with the journal is the streamed one, over digests from the hash cache;
-- the graph store keeps what `from_manifest_configured` made.
--
-- Errors are values: a `bail!` or `ensure!` is a constructor of the part's own error type, in the
-- order of the code's tests. A panic of an index is a constructor too (`index_out_of_bounds`,
-- `missing`, `stuck`). Numbers are natural numbers; the 32-bit length of a journal frame and the
-- 64-bit words of the chunker and of fnv1a64 are written out with their wrap-around. Texts are lists
-- of code points, or of bytes in the action key, where lengths are counted in bytes.
--
-- Fuel: `decode_from` takes the length of the input, and each round takes four bytes at least;
-- `digits_onto` takes the 20 places that the code's buffer has, or one more than the number;
-- `collect` takes the number of calls allowed; the loop of a closure takes one more than the roots
-- and all the edges; `visit` takes one more than the number of targets; `follow` takes one more
-- than the actions; `flatten` takes two more than the references that the sets hold.
-- Journal/Frames, ActionKey/Digits, FastCdc/Cover, Graph/Closure/Exact, Graph/Toposort/Fuel,
-- Exec/CriticalPath and Graph/SharedSet/Total show that it is enough.
--
-- Parameters, for code that is not part of this repository: postcard and serde_json (`Codec`),
-- BLAKE3 (`Hasher`), the file system (`Disk` of HashCache); BLAKE3, SHA-256, postcard and zstd of the
-- object store, and whether the file system removes or renames a file (`Packages` of Cas); BLAKE3 and
-- postcard of the graph store (`Packages` of GraphStore), where a graph is stored without its index
-- of files. The theorems on chunking hold for any tables (`Parameters`); the
-- store cuts with those of FastCdc/Tables.
--
-- Not modelled: TOML reading and globbing, `somepath` and `to_dot` of the graph, the execution of
-- an action, concurrent writers of the object store, the no-op certificate, the daemon, the
-- command line, the importers and the benchmarks; errors of the file system while the journal is
-- written, and in the object store those other than a missing source and a restored file that cannot
-- be renamed; the hash cache under several threads.
pub mod Base
pub mod Paths
pub mod Cas
pub mod Depfile
pub mod ActionKey
pub mod Journal
pub mod FastCdc
pub mod HashCache
pub mod Manifest
pub mod Graph
pub mod GraphStore
pub mod Exec
mod Tests
