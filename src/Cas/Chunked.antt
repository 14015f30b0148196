-- ===== src/Cas/Chunked.antt =====
-- crates/frostbuild-core/src/cas.rs: the boundaries that the store cuts a blob at.
use frostbuild.Base.{ℕ, suc, List, ◌≡◌, refl, arith, length, ok}
use frostbuild.FastCdc.{FastCdc, new, collect}
use frostbuild.FastCdc.Bounds.{new-IsConfigured}
use frostbuild.FastCdc.Cover.{Tiles, collect-Tiles}
use frostbuild.FastCdc.Tables.{parameters}
use frostbuild.Cas.{Bytes, Disk, default_avg, default_min, default_max, default_normalization}
use frostbuild.Cas.Publish.{boundaries_of}

-- `FastCdc::default()`
abbrev store_chunker : FastCdc
store_chunker = record {
  average = default_avg;
  minimum = default_min;
  maximum = default_max;
  mask_small = 238694540996608;
  mask_large = 238624143798272;
  seed = 0;
}

store_chunker-accepted :
    new parameters default_avg default_min default_max default_normalization 0 ≡ ok store_chunker
unfolding new
store_chunker-accepted = refl

-- The chunker that the store uses is accepted with the checked-in tables, and cuts every blob into
-- chunks that lie one behind the other from its start to its end, none empty, none above the
-- maximum.
boundaries_of-Tiles :
    (bytes : Bytes) (d : Disk)
    → (bounds : List (ℕ × ℕ)) × (boundaries_of bytes d ≡ (ok bounds, d))
      × Tiles default_max 0 bounds (length bytes)
unfolding boundaries_of
boundaries_of-Tiles bytes d =
    let tiled =
      collect-Tiles parameters store_chunker bytes (suc (length bytes)) 0
        (new-IsConfigured parameters default_avg default_min default_max default_normalization 0
          store_chunker store_chunker-accepted)
        (omega arith) (omega arith) (omega arith) in
    (
      (collect parameters store_chunker (suc (length bytes))
          (record { bytes = bytes; offset = 0 })).0,
      ground (arith, store_chunker-accepted),
      tiled.1,
    )
