-- ===== src/HashCache.antt =====
-- crates/frostbuild-core/src/hashcache.rs: the cache of content digests, checked by stat triples.
-- The disk is a parameter: for a path (workspace-relative or absolute), its stat triple and what
-- `hash_file` gives for it. The two maps behind locks are used by one build step at a time here.
pub mod Honest
pub mod Digest
pub mod Persist
use frostbuild.Base.{
  ℕ, ◌-◌, ◌^◌, Bool, true, false, not, ◌&&◌, List, [], ◌∷◌, ◌++◌, Option, some, none, ◌==◌,
  if◌then◌else◌, is_empty, Result, ok, err, ◌>>=◌, ltb, leb, min, max,
}
use frostbuild.Base.Text.{Text, codes, text_eq, text_order}
use frostbuild.Base.BTreeMap.{BTreeMap, lookup, insert, remove}

-- `i128`, for nanoseconds before and after the epoch.
pub data ℤ : Type 0 where
  pos : ℕ → ℤ
  negsuc : ℕ → ℤ

abbrev pub ℤ_eq : ℤ → ℤ → Bool
ℤ_eq (pos a) (pos b) = a == b
ℤ_eq (negsuc a) (negsuc b) = a == b
ℤ_eq _ _ = false

pub record Stat : Type 0 where
  pub mtime_ns : ℤ
  pub size : ℕ
  pub ino : ℕ

pub record Entry : Type 0 where
  pub mtime_ns : ℤ
  pub size : ℕ
  pub ino : ℕ
  pub hash : Text

-- An error of the file system.
pub data IoError : Type 0 where
  unreadable : IoError

pub record File : Type 0 where
  pub stat : Stat
  pub hash_file : Result IoError Text

abbrev pub Disk : Type 0
Disk = Text → Option File

pub record HashCache : Type 0 where
  pub snapshot : BTreeMap Text Entry
  pub updates : BTreeMap Text Entry
  pub changed : Bool
  pub settled : BTreeMap Text Text

abbrev pub missing : Text
missing = codes "MISSING"

abbrev pub with_snapshot : BTreeMap Text Entry → HashCache
with_snapshot snapshot = record { snapshot = snapshot; updates = []; changed = false; settled = [] }

-- `HashCache::lookup`
unfoldable pub lookup_entry : Text → HashCache → Option Entry
lookup_entry rel c = elim (if c.changed then lookup rel c.updates else none) [
  | some hit ↦ some hit
  | none ↦ lookup rel c.snapshot
]

unfoldable pub store : Text → Entry → HashCache → HashCache
store rel entry c = record c { updates = insert rel entry c.updates; changed = true }

unfoldable pub settle : Text → Text → HashCache → HashCache
settle rel hash c = record c { settled = insert rel hash c.settled }

-- The entry that remembers a removal: its hash is empty.
abbrev pub tombstone : Entry
tombstone = record { mtime_ns = negsuc (2 ^ 127 - 1); size = 0; ino = 0; hash = [] }

unfoldable pub forget : Text → HashCache → HashCache
forget rel c = record c {
  updates = insert rel tombstone c.updates;
  settled = remove rel c.settled;
  changed = true;
}

unfoldable pub invalidate : Text → HashCache → HashCache
invalidate = forget

abbrev pub same_stat : Entry → Stat → Bool
same_stat e s = ℤ_eq e.mtime_ns s.mtime_ns && e.size == s.size && e.ino == s.ino

-- The cached hash, if the entry is live and its stat triple is the file's.
unfoldable pub valid_hit : Option Entry → Stat → Option Text
valid_hit none s = none
valid_hit (some e) s = if not (is_empty e.hash) && same_stat e s then some e.hash else none

abbrev pub is_live : Option Entry → Bool
is_live none = false
is_live (some e) = not (is_empty e.hash)

abbrev pub entry_of : Stat → Text → Entry
entry_of s hash = record { mtime_ns = s.mtime_ns; size = s.size; ino = s.ino; hash = hash }

-- A path that is not on disk: a live entry of it is forgotten.
unfoldable pub note_missing : Text → HashCache → HashCache
note_missing rel c = if is_live (lookup_entry rel c) then forget rel c else c

-- A file that was hashed anew.
unfoldable pub learn : Text → Stat → Text → HashCache → HashCache
learn rel s hash c = store rel (entry_of s hash) (settle rel hash c)

unfoldable pub digest : Disk → Text → HashCache → Result IoError Text × HashCache
digest disk rel c = elim (lookup rel c.settled) [
  | some hit ↦ (ok hit, c)
  | none ↦ elim (disk rel) [
    | none ↦ (ok missing, note_missing rel c)
    | some f ↦ elim (valid_hit (lookup_entry rel c) f.stat) [
      | some hash ↦ (ok hash, settle rel hash c)
      | none ↦ elim f.hash_file [
        | ok hash ↦ (ok hash, learn rel f.stat hash c)
        | err e ↦ (err e, c)
      ]
    ]
  ]
]

-- The first loop of `digest_many`: what is known at once, and the files to hash.
unfoldable pub sort_out :
    Disk
    → List Text
    → BTreeMap Text Text
    → List (Text × File)
    → HashCache
    → BTreeMap Text Text × (List (Text × File)) × HashCache
sort_out disk [] ready misses c = (ready, misses, c)
sort_out disk (rel ∷ paths) ready misses c = elim (lookup rel c.settled) [
  | some hit ↦ sort_out disk paths (insert rel hit ready) misses c
  | none ↦ elim (disk rel) [
    | none ↦ sort_out disk paths (insert rel missing ready) misses (note_missing rel c)
    | some f ↦ elim (valid_hit (lookup_entry rel c) f.stat) [
      | some hash ↦ sort_out disk paths (insert rel hash ready) misses (settle rel hash c)
      | none ↦ sort_out disk paths ready (misses ++ (rel, f) ∷ []) c
    ]
  ]
]

-- The parallel hashing: all hashes, or an error.
unfoldable pub hash_all : List (Text × File) → Result IoError (List (Text × Stat × Text))
hash_all [] = ok []
hash_all ((rel, f) ∷ misses) = do
  hash ← f.hash_file
  rest ← hash_all misses
  ok ((rel, f.stat, hash) ∷ rest)

-- The last loop of `digest_many`.
unfoldable pub learn_all :
    List (Text × Stat × Text) → BTreeMap Text Text → HashCache → BTreeMap Text Text × HashCache
learn_all [] ready c = (ready, c)
learn_all ((rel, s, hash) ∷ hashed) ready c =
    learn_all hashed (insert rel hash ready) (learn rel s hash c)

unfoldable pub digest_many :
    Disk → List Text → HashCache → Result IoError (BTreeMap Text Text) × HashCache
digest_many disk paths c =
    let (ready, misses, c') = sort_out disk paths [] [] c in
    elim (hash_all misses) [
      | err e ↦ (err e, c')
      | ok hashed ↦ let (ready', c'') = learn_all hashed ready c' in (ok ready', c'')
    ]

-- One path of `matches_many`: whether it matches, and the entry to write back.
unfoldable pub check_one :
    Disk → HashCache → Text → Text → Result IoError (Bool × Option (Text × Entry))
check_one disk c rel expected = elim (disk rel) [
  | none ↦ ok (text_eq expected missing, none)
  | some f ↦ elim (valid_hit (lookup_entry rel c) f.stat) [
    | some hash ↦ ok (text_eq hash expected, none)
    | none ↦ do hash ← f.hash_file; ok (text_eq hash expected, some (rel, entry_of f.stat hash))
  ]
]

unfoldable pub check_all :
    Disk → HashCache → List (Text × Text) → Result IoError (List (Bool × Option (Text × Entry)))
check_all disk c [] = ok []
check_all disk c ((rel, expected) ∷ more) = do
  one ← check_one disk c rel expected
  rest ← check_all disk c more
  ok (one ∷ rest)

-- The last loop of `matches_many`.
unfoldable pub write_back :
    List (Bool × Option (Text × Entry)) → Bool → HashCache → Bool × HashCache
write_back [] matched c = (matched, c)
write_back ((m, none) ∷ rest) matched c = write_back rest (matched && m) c
write_back ((m, some (rel, entry)) ∷ rest) matched c =
    write_back rest (matched && m) (store rel entry c)

unfoldable pub matches_many :
    Disk → List (Text × Text) → HashCache → Result IoError Bool × HashCache
matches_many disk expected c = elim (check_all disk c expected) [
  | err e ↦ (err e, c)
  | ok checked ↦ let (matched, c') = write_back checked true c in (ok matched, c')
]

-- The map that `save` writes: the snapshot with the updates, without what was removed.
unfoldable pub merge : BTreeMap Text Entry → BTreeMap Text Entry → BTreeMap Text Entry
merge [] merged = merged
merge ((path, entry) ∷ updates) merged =
    merge updates (if is_empty entry.hash then remove path merged else insert path entry merged)

-- What the cache file holds after `save`, given what it held; `load` starts a build from it.
unfoldable pub save : HashCache → BTreeMap Text Entry → BTreeMap Text Entry
unfolding merge
save c on_disk = if not c.changed then on_disk else merge c.updates c.snapshot

-- `hash_buffer_len`, on a 64-bit machine.
unfoldable pub hash_buffer_len : ℕ → ℕ
hash_buffer_len file_len = min (max file_len 8192) 4194304
