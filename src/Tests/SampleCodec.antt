-- ===== src/Tests/SampleCodec.antt =====
-- A codec that shows what the journal takes from postcard can be had: counts in front of what follows.
use frostbuild.Base.{
  ℕ, zero, suc, List, [], ◌∷◌, ◌++◌, Option, some, none, ◌≡◌, refl, length, take, drop, arith,
  take-append_self, drop-append_self,
}
use frostbuild.Base.Text.{Text}
use frostbuild.Journal.{Bytes, Record, Codec, Actions}

abbrev put_text : Text → Bytes → Bytes
put_text t rest = length t ∷ (t ++ rest)

unfoldable pub get_text : Bytes → Option (Text × Bytes)
get_text [] = none
get_text (n ∷ b) = some (take n b, drop n b)

get_text-put_text : (t : Text) (rest : Bytes) → get_text (put_text t rest) ≡ some (t, rest)
unfolding get_text
get_text-put_text t rest = rw (take-append_self t rest, drop-append_self t rest) refl

abbrev put_texts : List Text → Bytes → Bytes
put_texts [] rest = rest
put_texts (t ∷ ts) rest = put_text t (put_texts ts rest)

unfoldable pub get_texts : ℕ → Bytes → Option (List Text × Bytes)
unfolding get_text
get_texts zero b = some ([], b)
get_texts (suc n) b = elim (get_text b) [
  | none ↦ none
  | some (t, b') ↦ elim (get_texts n b') [ none ↦ none | some (ts, b'') ↦ some (t ∷ ts, b'') ]
]

get_texts-put_texts :
    (ts : List Text) (rest : Bytes) → get_texts (length ts) (put_texts ts rest) ≡ some (ts, rest)
unfolding get_texts
get_texts-put_texts [] rest = refl
get_texts-put_texts (t ∷ ts) rest =
    ground (arith, get_text-put_text t (put_texts ts rest), get_texts-put_texts ts rest)

abbrev put_pairs : List (Text × Text) → Bytes → Bytes
put_pairs [] rest = rest
put_pairs ((k, v) ∷ m) rest = put_text k (put_text v (put_pairs m rest))

unfoldable pub get_pairs : ℕ → Bytes → Option (List (Text × Text) × Bytes)
unfolding get_text
get_pairs zero b = some ([], b)
get_pairs (suc n) b = elim (get_text b) [
  | none ↦ none
  | some (k, b1) ↦ elim (get_text b1) [
    | none ↦ none
    | some (v, b2) ↦ elim (get_pairs n b2) [ none ↦ none | some (m, b3) ↦ some ((k, v) ∷ m, b3) ]
  ]
]

get_pairs-put_pairs :
    (m : List (Text × Text)) (rest : Bytes)
    → get_pairs (length m) (put_pairs m rest) ≡ some (m, rest)
unfolding get_pairs
get_pairs-put_pairs [] rest = refl
get_pairs-put_pairs ((k, v) ∷ m) rest = ground (
  arith,
  get_text-put_text k (put_text v (put_pairs m rest)),
  get_text-put_text v (put_pairs m rest),
  get_pairs-put_pairs m rest,
)

-- The record as one list of texts and two maps, the counts first.
unfoldable pub sample_encode : Record → Bytes
sample_encode r =
    r.entry.duration_ms
    ∷ length r.entry.discovered
    ∷ length r.entry.inputs
    ∷ length r.entry.outputs
    ∷ put_texts (r.id ∷ r.entry.key ∷ r.entry.reason ∷ r.entry.discovered)
        (put_pairs r.entry.inputs (put_pairs r.entry.outputs []))

unfoldable pub sample_decode : Bytes → Option Record
unfolding get_texts get_pairs
sample_decode (ms ∷ n ∷ i ∷ o ∷ b) = elim (get_texts (suc (suc (suc n))) b) [
  | some (id ∷ key ∷ reason ∷ discovered, b1) ↦ elim (get_pairs i b1) [
    | none ↦ none
    | some (inputs, b2) ↦ elim (get_pairs o b2) [
      | none ↦ none
      | some (outputs, b3) ↦ some record {
        id = id;
        entry = record {
          key = key;
          inputs = inputs;
          discovered = discovered;
          outputs = outputs;
          duration_ms = ms;
          reason = reason;
        };
      }
    ]
  ]
  | _ ↦ none
]
sample_decode _ = none

pub sample_decode-sample_encode : (r : Record) → sample_decode (sample_encode r) ≡ some r
unfolding sample_encode sample_decode
sample_decode-sample_encode r = ground (
  arith,
  get_texts-put_texts (r.id ∷ r.entry.key ∷ r.entry.reason ∷ r.entry.discovered)
      (put_pairs r.entry.inputs (put_pairs r.entry.outputs [])),
  get_pairs-put_pairs r.entry.inputs (put_pairs r.entry.outputs []),
  get_pairs-put_pairs r.entry.outputs [],
)

abbrev pub no_json : Bytes → Option Actions
no_json _ = none

unfoldable pub sample_codec : Codec
sample_codec = record {
  to_allocvec = sample_encode;
  from_bytes = sample_decode;
  from_json = no_json;
  from_bytes-to_allocvec = sample_decode-sample_encode;
}
