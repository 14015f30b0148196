-- ===== src/Journal.antt =====
-- crates/frostbuild-core/src/journal.rs: the append-only log of finished actions. Postcard and
-- serde_json are parameters. The files are a map from paths to bytes; a failing disk is not modelled.
pub mod Frames
pub mod Recovery
pub mod Log
use frostbuild.Base.{
  ℕ, zero, suc, ◌+◌, ◌*◌, ◌/◌, ◌%◌, ◌^◌, Bool, true, false, List, [], ◌∷◌, ◌++◌, Option, some, none,
  ◌≡◌, ltb, ◌==◌, if◌then◌else◌, length, take, drop, is_empty,
}
use frostbuild.Base.Text.{Text, codes, text_eq, text_order}
use frostbuild.Base.BTreeMap.{BTreeMap, lookup, insert}

abbrev pub Bytes : Type 0
Bytes = List ℕ

pub record JournalEntry : Type 0 where
  pub key : Text
  pub inputs : BTreeMap Text Text
  pub discovered : List Text
  pub outputs : BTreeMap Text Text
  pub duration_ms : ℕ
  pub reason : Text

abbrev pub Actions : Type 0
Actions = BTreeMap Text JournalEntry

-- `writer` is the path of the file that is kept open for appending.
pub record Journal : Type 0 where
  pub actions : Actions
  pub writer : Option Text

pub record Record : Type 0 where
  pub id : Text
  pub entry : JournalEntry

abbrev pub magic : Bytes
magic = codes "FRSTJR01"

-- The paths `.frost/journal.bin` and `.frost/journal.json` under the root.
abbrev pub journal_path : Text → Text
journal_path root = root ++ codes "/.frost/journal.bin"

abbrev pub legacy_path : Text → Text
legacy_path root = root ++ codes "/.frost/journal.json"

abbrev pub Files : Type 0
Files = BTreeMap Text Bytes

-- What the code takes from postcard and serde_json.
pub record Codec : Type 0 where
  pub to_allocvec : Record → Bytes
  pub from_bytes : Bytes → Option Record
  pub from_json : Bytes → Option Actions
  -- Postcard reads back what it wrote.
  pub from_bytes-to_allocvec : (r : Record) → from_bytes (to_allocvec r) ≡ some r

-- `(n as u32).to_le_bytes()`
abbrev pub to_le_bytes : ℕ → Bytes
to_le_bytes n = n % 256 ∷ n / 256 % 256 ∷ n / 65536 % 256 ∷ n / 16777216 % 256 ∷ []

abbrev pub from_le_bytes : ℕ → ℕ → ℕ → ℕ → ℕ
from_le_bytes a b c d = a + b * 256 + c * 65536 + d * 16777216

abbrev pub starts_with : Bytes → Bytes → Bool
starts_with bytes prefix = text_eq (take (length prefix) bytes) prefix

abbrev pub get_bytes : Option Bytes → Bytes
get_bytes none = []
get_bytes (some b) = b

abbrev pub or_default : Option Actions → Actions
or_default none = []
or_default (some m) = m

-- Whether the open writer is this file's.
abbrev pub reuses : Option Text → Text → Bool
reuses none path = false
reuses (some writer_path) path = text_eq writer_path path

module _ (codec : Codec) where
  open codec use {to_allocvec, from_bytes, from_json}

  -- One frame of the log.
  unfoldable pub frame : Record → Bytes
  frame r = to_le_bytes (length (to_allocvec r)) ++ to_allocvec r

  -- The loop of `decode_bytes` over the bytes behind the cursor. A round takes four bytes at least.
  unfoldable pub decode_from : ℕ → Bytes → Actions → Actions
  decode_from zero rest actions = actions
  decode_from (suc fuel) (a ∷ b ∷ c ∷ d ∷ body) actions =
      let len = from_le_bytes a b c d in
      elim (ltb (length body) len) [
        | true ↦ actions
        | false ↦ elim (from_bytes (take len body)) [
          | some r ↦ decode_from fuel (drop len body) (insert r.id r.entry actions)
          | none ↦ actions
        ]
      ]
  decode_from (suc fuel) _ actions = actions

  unfoldable pub decode_bytes : Bytes → Actions
  decode_bytes bytes =
      if starts_with bytes magic
      then decode_from (length bytes) (drop (length magic) bytes) []
      else []

  unfoldable pub load : Text → Files → Journal
  load root files =
      let actions : Actions = elim (lookup (journal_path root) files) [
        | some bytes ↦ decode_bytes bytes
        | none ↦ []
      ] in
      let legacy : Actions = elim (lookup (legacy_path root) files) [
        | some text ↦ or_default (from_json text)
        | none ↦ []
      ] in
      record { actions = if is_empty actions then legacy else actions; writer = none }

  -- `Journal::record`: opens the log if it is not open, and appends one frame.
  unfoldable pub record_action : Text → Text → JournalEntry → Journal × Files → Journal × Files
  unfolding frame
  record_action root id entry (j, files) =
      let path = journal_path root in
      let old = get_bytes (lookup path files) in
      let opened = if reuses j.writer path then old else if is_empty old then magic else old in
      let r : Record = record { id = id; entry = entry } in
      (
        record { actions = insert id entry j.actions; writer = some path },
        insert path (opened ++ frame r) files,
      )

  unfoldable pub save_frames : Actions → Bytes
  unfolding frame
  save_frames [] = []
  save_frames ((id, entry) ∷ m) = frame (record { id = id; entry = entry }) ++ save_frames m

  -- `Journal::save` writes another file and renames it over the log, so the log changes at once.
  unfoldable pub save : Text → Journal → Files → Files
  unfolding save_frames
  save root j files = insert (journal_path root) (magic ++ save_frames j.actions) files
