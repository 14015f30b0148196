-- ===== src/Tests/KeyRuns.antt =====
-- Runs of the action key, with a hasher that keeps the bytes it is given.
use frostbuild.Base.{[], ◌∷◌, ◌++◌, ◌≡◌, ◌≢◌, ◌↔◌, refl, sym, ◌∙◌, false, arith, append_assoc}
use frostbuild.Base.Text.{codes, text_eq, text_eq_iff}
use frostbuild.Base.Split.{join}
use frostbuild.ActionKey.{
  Bytes, ActionKey, FilePath, new, canonical_payload, shown_cwd, fnv1a64, hex_onto,
}
use frostbuild.ActionKey.Payload.{SameKey, canonical_payload-injective}
use frostbuild.ActionKey.Insertion.{Entries, SameValues, built, canonical_payload-entries}
use frostbuild.ActionKey.Stream.{
  Hasher, Fits, digest, streamed_action_key, streamed_action_key-digest,
}

-- `fnv1a64` of the empty text and of "a".
run_fnv1a64 : (fnv1a64 [] ≡ 0xcbf2_9ce4_8422_2325) × (fnv1a64 (codes "a") ≡ 0xaf63_dc4c_8601_ec8c)
unfolding fnv1a64
run_fnv1a64 = (refl, refl)

abbrev sample_key : ActionKey
sample_key = record {
  builder = codes "frost";
  target = codes "app";
  argv = codes "cc" ∷ codes "-c" ∷ [];
  cwd = codes "w" ∷ codes "src" ∷ [];
  env = (codes "PATH", codes "/bin") ∷ [];
  inputs = (codes "a.c", codes "h1") ∷ [];
  toolchain_hash = codes "t";
}

abbrev sample_root : FilePath
sample_root = codes "w" ∷ []

canonical_payload-injective_example : SameKey sample_root sample_key sample_key
canonical_payload-injective_example =
    canonical_payload-injective sample_root sample_key sample_key refl

abbrev two_inputs : Entries
two_inputs = (codes "b.c", codes "h2") ∷ (codes "c.c", codes "h3") ∷ []

abbrev two_inputs_swapped : Entries
two_inputs_swapped = (codes "c.c", codes "h3") ∷ (codes "b.c", codes "h2") ∷ []

other_path : codes "b.c" ≢ codes "c.c"
other_path e = cc (sym differ ∙ (text_eq_iff (codes "b.c") (codes "c.c")).1 e)
  where
    differ : text_eq (codes "b.c") (codes "c.c") ≡ false
    differ = unfold text_eq in refl

swapped-SameValues : SameValues two_inputs two_inputs_swapped
swapped-SameValues k =
    ground (arith, text_eq_iff k (codes "b.c"), text_eq_iff k (codes "c.c"), other_path)

abbrev sample_start : ActionKey
sample_start = new (codes "frost") (codes "app") (codes "cc" ∷ []) (codes "w" ∷ []) (codes "t")

canonical_payload-entries_example :
    (canonical_payload sample_root (built sample_start [] two_inputs)
      ≡ canonical_payload sample_root (built sample_start [] two_inputs_swapped))
    ↔ (SameValues [] [] × SameValues two_inputs two_inputs_swapped)
canonical_payload-entries_example =
    canonical_payload-entries sample_root (codes "frost") (codes "app") (codes "cc" ∷ [])
      (codes "w" ∷ []) (codes "t") [] [] two_inputs two_inputs_swapped

-- The order of the inputs leaves the payload as it is.
run_swapped :
    canonical_payload sample_root (built sample_start [] two_inputs)
    ≡ canonical_payload sample_root (built sample_start [] two_inputs_swapped)
run_swapped =
    (canonical_payload-entries sample_root (codes "frost") (codes "app") (codes "cc" ∷ [])
        (codes "w" ∷ []) (codes "t") [] [] two_inputs two_inputs_swapped).1
      ((λ k. refl), swapped-SameValues)

abbrev keeping_hasher : Hasher
keeping_hasher = record {
  State = Bytes;
  new = [];
  update = λ s b. s ++ b;
  finalize = λ s. s;
  update-append = λ s a b. append_assoc s a b;
}

cwd-Fits : Fits (shown_cwd sample_root sample_key)
unfolding shown_cwd text_eq join
cwd-Fits = omega arith

streamed_action_key-digest_example :
    streamed_action_key keeping_hasher sample_key.builder sample_key.target sample_key.argv
      (shown_cwd sample_root sample_key)
      sample_key.toolchain_hash
      sample_key.env
      sample_key.inputs
    ≡ digest keeping_hasher sample_root sample_key
streamed_action_key-digest_example =
    streamed_action_key-digest keeping_hasher sample_root sample_key (omega arith) (omega arith)
      cwd-Fits (omega arith) (omega arith, (omega arith, tt)) ((omega arith, omega arith), tt)
      ((omega arith, omega arith), tt)

run_hex_onto : hex_onto 16 0x00af_dc4c_8601_ec8c [] ≡ codes "00afdc4c8601ec8c"
unfolding hex_onto
run_hex_onto = refl
