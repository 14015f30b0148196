-- ===== src/Tests/JournalRuns.antt =====
-- Runs of the journal, with a codec that can be computed.
use frostbuild.Base.{◌<◌, [], ◌∷◌, ◌++◌, none, ◌≡◌, arith, length, take}
use frostbuild.Base.Text.{codes}
use frostbuild.Journal.{
  JournalEntry, Journal, Record, frame, from_le_bytes, decode_bytes, load, save,
}
use frostbuild.Journal.Frames.{IsShort, apply_all, whole, frames}
use frostbuild.Journal.Recovery.{log_bytes, decode_bytes-take}
use frostbuild.Journal.Log.{load-save, decode_bytes-behind_torn}
use frostbuild.Tests.SampleCodec.{sample_codec, sample_encode}

abbrev entry_one : JournalEntry
entry_one = record {
  key = codes "k1";
  inputs = (codes "a.c", codes "h1") ∷ [];
  discovered = [];
  outputs = [];
  duration_ms = 12;
  reason = codes "not built before";
}

abbrev one : Record
one = record { id = codes "compile:a"; entry = entry_one }

abbrev empty_journal : Journal
empty_journal = record { actions = []; writer = none }

one-IsShort : IsShort sample_codec one
unfolding sample_codec sample_encode
one-IsShort = omega arith

decode_bytes-take_example :
    decode_bytes sample_codec (take 30 (log_bytes sample_codec (one ∷ one ∷ [])))
    ≡ apply_all (take (whole sample_codec 22 (one ∷ one ∷ [])) (one ∷ one ∷ [])) []
decode_bytes-take_example =
    decode_bytes-take sample_codec 30 (one ∷ one ∷ []) (one-IsShort, (one-IsShort, tt))

abbrev saved : Journal
saved = record { actions = (codes "compile:a", entry_one) ∷ []; writer = none }

load-save_example :
    (load sample_codec (codes "/w") (save sample_codec (codes "/w") saved [])).actions
    ≡ saved.actions
load-save_example =
    load-save sample_codec (codes "/w") saved [] (tt, tt) (one-IsShort, tt) (λ e. cc)

part_fits : length ((1 ∷ 2 ∷ []) ++ frames sample_codec (one ∷ [])) < from_le_bytes 0 0 1 0
unfolding frame sample_codec sample_encode
part_fits = omega arith

decode_bytes-behind_torn_example :
    decode_bytes sample_codec (
      log_bytes sample_codec (one ∷ [])
      ++ (0 ∷ 0 ∷ 1 ∷ 0 ∷ ((1 ∷ 2 ∷ []) ++ frames sample_codec (one ∷ []))))
    ≡ apply_all (one ∷ []) []
decode_bytes-behind_torn_example =
    decode_bytes-behind_torn sample_codec (codes "/w") (one ∷ []) (one ∷ []) 0 0 1 0 (1 ∷ 2 ∷ [])
      (one-IsShort, tt) part_fits
