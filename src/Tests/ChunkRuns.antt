-- ===== src/Tests/ChunkRuns.antt =====
-- Runs of the chunker, with small tables and with the ones that it is compiled with.
use Prim.Native.Nat.{bit_and}
use frostbuild.Base.{
  ℕ, ◌+◌, ◌*◌, ◌≤◌, true, false, List, [], ◌∷◌, some, ◌≡◌, ◌⊎◌, refl, arith, drop, replicate, ok,
  err,
}
use frostbuild.FastCdc.{
  Parameters, FastCdc, new, boundary, next, collect, mix_first, wrap, not_power_of_two,
}
use frostbuild.FastCdc.Bounds.{IsConfigured, boundary_bounds, new-IsConfigured}
use frostbuild.FastCdc.Tables.{parameters}
use frostbuild.FastCdc.Cover.{Tiles, collect-Tiles, next_stuck}

abbrev zero_tables : Parameters
zero_tables = record { masks = []; gear = replicate 256 0 }

abbrev small : FastCdc
small = record { average = 8; minimum = 4; maximum = 16; mask_small = 0; mask_large = 0; seed = 0 }

abbrev small_bytes : List ℕ
small_bytes = 1 ∷ 2 ∷ 3 ∷ 4 ∷ 5 ∷ 6 ∷ 7 ∷ 8 ∷ 9 ∷ []

small-IsConfigured : IsConfigured small
small-IsConfigured = record {
  minimum_positive = omega arith;
  minimum_le = omega arith;
  average_le = omega arith;
}

run_new : new zero_tables 0 4 16 0 0 ≡ err not_power_of_two
unfolding new
run_new = refl

abbrev accepted : FastCdc
accepted = record {
  average = 64;
  minimum = 4;
  maximum = 128;
  mask_small = 0;
  mask_large = 0;
  seed = 0;
}

run_new_accepted : new zero_tables 64 4 128 1 0 ≡ ok accepted
unfolding new
run_new_accepted = refl

accepted-IsConfigured : IsConfigured accepted
accepted-IsConfigured = new-IsConfigured zero_tables 64 4 128 1 0 accepted run_new_accepted

boundary_bounds_example :
    (boundary zero_tables small small_bytes ≤ 9)
    × (boundary zero_tables small small_bytes ≤ 16)
    × ((boundary zero_tables small small_bytes ≡ 9)
        ⊎ (4 ≤ boundary zero_tables small small_bytes + 1))
boundary_bounds_example = boundary_bounds zero_tables small small_bytes small-IsConfigured

collect-Tiles_example :
    ((collect zero_tables small 10 (record { bytes = small_bytes; offset = 0 })).1 ≡ true)
    × Tiles 16 0 (collect zero_tables small 10 (record { bytes = small_bytes; offset = 0 })).0 9
collect-Tiles_example =
    collect-Tiles zero_tables small small_bytes 10 0 small-IsConfigured (omega arith) (omega arith)
      (omega arith)

-- A minimum of one with the tables that the chunker is compiled with.
abbrev minimum_one : FastCdc
minimum_one = record {
  average = 64;
  minimum = 1;
  maximum = 128;
  mask_small = 402870528;
  mask_large = 25182480;
  seed = 0;
}

run_new_one : new parameters 64 1 128 1 0 ≡ ok minimum_one
unfolding new
run_new_one = refl

abbrev eleven_first : List ℕ
eleven_first = 11 ∷ 7 ∷ 42 ∷ []

hash_meets :
    bit_and
      (mix_first parameters minimum_one (drop 0 eleven_first) 0 0)
      (wrap (minimum_one.mask_small * 2))
    ≡ 0
unfolding mix_first
hash_meets = refl

next_stuck_example :
    (next parameters minimum_one (record { bytes = eleven_first; offset = 0 })
      ≡ (some (0, 0), record { bytes = eleven_first; offset = 0 }))
    × (collect parameters minimum_one 1000 (record { bytes = eleven_first; offset = 0 })
        ≡ (replicate 1000 (0, 0), false))
next_stuck_example =
    next_stuck parameters 64 128 1 0 minimum_one eleven_first 0 1000 run_new_one (omega arith)
      hash_meets
