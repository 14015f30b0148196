-- ===== src/Cas/Verified.antt =====
-- Whatever the store holds, only a blob with the digest that was asked for reaches the workspace.
use frostbuild.Base.{Bool, true, false, ◌≡◌, ◌⊎◌, arith, Result, ok, err}
use frostbuild.Base.Text.{Text, text_order}
use frostbuild.Base.BTreeMap.{BTreeMap, insert, remove}
use frostbuild.Cas.{Bytes, Blob, DeltaRef, Packages, Disk, CasError, Io}
use frostbuild.Cas.Deltas.{publish_chunk, read_verified, read_patch}
use frostbuild.Cas.Keeps.{Keeps, keeping}
use frostbuild.Cas.Restore.{remove_chunk}

-- The workspace is this one.
abbrev pub Leaves : BTreeMap Text Blob → Disk → Type 0
Leaves w d = d.workspace ≡ w

module _ (w : BTreeMap Text Blob) where
  remove_chunk-Leaves : (digest : Text) → Keeps (Leaves w) (remove_chunk digest)
  remove_chunk-Leaves digest d h = h

  publish_chunk-Leaves :
      (digest : Text) (bytes : Bytes) → Keeps (Leaves w) (publish_chunk digest bytes)
  unfolding publish_chunk
  publish_chunk-Leaves digest bytes d h = ground arith

  read_verified-Leaves : (p : Packages) (digest : Text) → Keeps (Leaves w) (read_verified p digest)
  unfolding read_verified
  read_verified-Leaves p digest d h = ground arith

  read_patch-Leaves :
      (p : Packages) (target : Text) (delta : DeltaRef)
      → Keeps (Leaves w) (read_patch p target delta)
  unfolding read_patch
  read_patch-Leaves p target delta d h = ground arith

ruleset leaving =
    (keeping, remove_chunk-Leaves, publish_chunk-Leaves, read_verified-Leaves, read_patch-Leaves)

-- How restoring a blob may end: the destination holds a blob with the digest and nothing else of the
-- workspace changed, or nothing at all changed, or an error took the destination away.
abbrev pub Restored :
    Packages → Text → Text → BTreeMap Text Blob → Result CasError Bool × Disk → Type 0
Restored p digest destination before (ok true, after) =
    (b : Blob) × (after.workspace ≡ insert destination b before) × (p.hash_file b ≡ digest)
Restored p digest destination before (ok false, after) = after.workspace ≡ before
Restored p digest destination before (err _, after) =
    (after.workspace ≡ before) ⊎ (after.workspace ≡ remove destination before)

-- The operation restores the blob on whatever disk it starts.
abbrev Restores : Packages → Text → Text → Io Bool → Type 0
Restores p digest destination m = (d : Disk) → Restored p digest destination d.workspace (m d)
