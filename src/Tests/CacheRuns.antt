-- ===== src/Tests/CacheRuns.antt =====
-- Runs of the hash cache over a disk of two files.
use frostbuild.Base.{[], some, none, ◌≡◌, refl, inl, arith, ok, if◌then◌else◌}
use frostbuild.Base.Text.{Text, codes, text_eq, text_order, text_eq_iff}
use frostbuild.Base.BTreeMap.{lookup-nil}
use frostbuild.HashCache.{
  pos, Entry, File, Disk, HashCache, with_snapshot, lookup_entry, digest, invalidate, save,
}
use frostbuild.HashCache.Honest.{fresh, IsHonest, SameBut}
use frostbuild.HashCache.Digest.{digest-fresh}
use frostbuild.HashCache.Persist.{digest-invalidate, save-IsHonest}

abbrev file_a : File
file_a = record {
  stat = record { mtime_ns = pos 5; size = 3; ino = 1 };
  hash_file = ok (codes "h1");
}

abbrev file_a_later : File
file_a_later = record {
  stat = record { mtime_ns = pos 5; size = 3; ino = 1 };
  hash_file = ok (codes "h9");
}

unfoldable disk_one : Disk
disk_one rel = if text_eq rel (codes "a.c") then some file_a else none

unfoldable disk_two : Disk
disk_two rel = if text_eq rel (codes "a.c") then some file_a_later else none

abbrev cold : HashCache
cold = with_snapshot []

cold-IsHonest : IsHonest disk_one cold
unfolding lookup_entry
cold-IsHonest = record {
  entries = λ rel e h. absurd (cc (lookup-nil {V = Entry} rel));
  settled = λ rel hash h. absurd (cc (lookup-nil {V = Text} rel));
  unchanged = λ _. refl;
  sorted = tt;
}

digest-fresh_example :
    ((digest disk_one (codes "a.c") cold).0 ≡ fresh disk_one (codes "a.c"))
    × IsHonest disk_one (digest disk_one (codes "a.c") cold).1
digest-fresh_example = digest-fresh disk_one (codes "a.c") cold cold-IsHonest

one_two-SameBut : SameBut (codes "a.c") disk_one disk_two
unfolding disk_one disk_two
one_two-SameBut k ne = ground (arith, text_eq_iff k (codes "a.c"))

-- The file was rewritten within the resolution of its stat triple.
digest-invalidate_example :
    ((digest disk_two
        (codes "a.c")
        (invalidate (codes "a.c") (digest disk_one (codes "a.c") cold).1)).0
      ≡ fresh disk_two (codes "a.c"))
    × IsHonest disk_two
        (digest disk_two
          (codes "a.c")
          (invalidate (codes "a.c") (digest disk_one (codes "a.c") cold).1)).1
digest-invalidate_example =
    digest-invalidate disk_one disk_two (codes "a.c") (digest disk_one (codes "a.c") cold).1
      one_two-SameBut (digest-fresh disk_one (codes "a.c") cold cold-IsHonest).1

save-IsHonest_example : IsHonest disk_one (
    with_snapshot
      (save (digest disk_one (codes "a.c") cold).1 (digest disk_one (codes "a.c") cold).1.snapshot))
save-IsHonest_example =
    save-IsHonest disk_one disk_one (digest disk_one (codes "a.c") cold).1 (λ rel f at. inl at)
      (digest-fresh disk_one (codes "a.c") cold cold-IsHonest).1
