-- ===== src/Tests/StoreRuns.antt =====
-- Runs of the store over hashes that can be computed.
use frostbuild.Base.{ℕ, take, err, Bool, true, false, [], ◌∷◌, some, none, ◌≡◌, refl, arith, ok}
use frostbuild.Base.Text.{codes, text_eq, text_cmp, text_order}
use frostbuild.Base.Split.{split}
use frostbuild.Base.BTreeMap.{lookup, insert, remove, contains_key, lookup-nil}
use frostbuild.Cas.{not_published, Bytes, Blob, Packages, Disk, has_parent}
use frostbuild.Cas.Publish.{put_object, put_large, put}
use frostbuild.Cas.Restore.{
  publish_verified_destination, publish_staged, copy_and_verify, materialize,
}
use frostbuild.Cas.Sound.{IsSound}
use frostbuild.Cas.Stored.{operations-IsSound, put-materialize}
use frostbuild.Cas.Gc.{
  Listed, Usage, skips, sort_by_key, insert_by_key, goes_before, modified_cmp, evict, gc,
}
use frostbuild.Cas.ByKey.{IsByKey}
use frostbuild.Cas.Eviction.{IsCut, gc-IsCut}
use mathlib.Core.List.{Perm}

abbrev mode : Bool → ℕ
mode true = b'x'
mode false = b'-'

abbrev sample_packages : Packages
sample_packages = record {
  hash_file = λ b. mode b.executable ∷ b.bytes;
  hash_path = λ path. path;
  sha256 = λ bytes. bytes;
  encode = λ m. m.blob_digest;
  decode = λ bytes. none;
  compress = λ bytes. some bytes;
  zstd_delta = λ base target. some target;
  zstd_undelta = λ base patch n. some patch;
  removes = λ path d. true;
  renames = λ path d. text_eq (take 3 path) (codes "/w/");
}

abbrev script : Blob
script = record { bytes = codes "echo"; executable = true }

abbrev empty_store : Disk
empty_store = record {
  objects = [];
  chunks = [];
  manifests = [];
  deltas = [];
  artifacts = [];
  workspace = (codes "/w/run.sh", script) ∷ [];
  changed = false;
}

abbrev with_script : Disk
with_script = record {
  objects = (codes "xecho", script) ∷ [];
  chunks = [];
  manifests = [];
  deltas = [];
  artifacts = [];
  workspace = (codes "/w/run.sh", script) ∷ [];
  changed = true;
}

run_put : put sample_packages (codes "/w/run.sh") (codes "xecho") empty_store ≡ (ok tt, with_script)
unfolding put put_object put_large lookup contains_key insert text_cmp text_eq
run_put = refl

empty_store-IsSound : IsSound sample_packages empty_store
empty_store-IsSound = record {
  objects_hold = λ digest b h. absurd (cc (lookup-nil {V = Blob} digest));
  chunks_hold = λ digest bytes h. absurd (cc (lookup-nil {V = Bytes} digest));
}

has_parent_run : has_parent (codes "/w/copy.sh") ≡ true
unfolding has_parent split text_eq
has_parent_run = refl

-- A rename that fails behind the removal of the destination.
abbrev elsewhere : Disk
elsewhere = record with_script { workspace = (codes "/x/old", script) ∷ [] }

run_not_published :
    materialize sample_packages (codes "xecho") (codes "/x/old") elsewhere
    ≡ (err not_published, record elsewhere { workspace = [] })
unfolding materialize copy_and_verify publish_staged publish_verified_destination has_parent split
    lookup remove text_eq text_cmp
run_not_published = refl

operations-IsSound_example :
    IsSound sample_packages (put sample_packages (codes "/w/run.sh") (codes "xecho") empty_store).1
    × IsSound sample_packages
        (materialize sample_packages (codes "xecho") (codes "/w/run.sh") empty_store).1
operations-IsSound_example =
    operations-IsSound sample_packages (codes "/w/run.sh") (codes "xecho") empty_store
      empty_store-IsSound

rename_run : sample_packages.renames (codes "/w/copy.sh") with_script ≡ true
unfolding text_eq
rename_run = refl

put-materialize_example :
    (b : Blob) × (materialize sample_packages (codes "xecho") (codes "/w/copy.sh") with_script ≡ (
      ok true,
      record with_script { workspace = insert (codes "/w/copy.sh") b with_script.workspace },
    ))
    × (mode b.executable ∷ b.bytes ≡ codes "xecho")
put-materialize_example =
    put-materialize sample_packages (codes "/w/run.sh") (codes "xecho") (codes "/w/copy.sh")
      empty_store with_script empty_store-IsSound has_parent_run rename_run run_put

abbrev old : Listed
old = record {
  modified = some 3;
  size = 40;
  path = codes "objects" ∷ codes "ab" ∷ codes "ab1" ∷ [];
}

abbrev new_one : Listed
new_one = record {
  modified = some 9;
  size = 30;
  path = codes "chunks" ∷ codes "cd" ∷ codes "cd2" ∷ [];
}

abbrev full : Usage
full = record {
  max_bytes = 50;
  exists = true;
  changed = true;
  stamp_age = some 5;
  files = new_one ∷ old ∷ [];
}

run_gc : gc (λ _. true) full ≡ (40, new_one ∷ [], true)
unfolding gc skips sort_by_key insert_by_key goes_before modified_cmp evict
run_gc = refl

run_skips : skips full ≡ false
unfolding skips
run_skips = refl

gc-IsCut_example :
    Perm (sort_by_key full.files) full.files
    × IsByKey (sort_by_key full.files)
    × IsCut 50 (sort_by_key full.files) (gc (λ _. true) full).0 (gc (λ _. true) full).1
gc-IsCut_example = gc-IsCut (λ _. true) full run_skips (λ _. refl) (omega arith)
