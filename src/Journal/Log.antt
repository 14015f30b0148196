-- ===== src/Journal/Log.antt =====
-- The journal in memory against the log on disk, over `record`, `save` and `load`.
use frostbuild.Base.{
  ℕ, zero, suc, ◌<◌, ◌≤◌, true, List, [], ◌∷◌, ◌++◌, some, ◌≡◌, ◌≢◌, ◌⊎◌, inl, inr, refl, sym, ap,
  ◌∙◌, if◌then◌else◌, length, is_empty, All, All-append, arith, append_assoc, append-nil,
  Bool-cases, length-append,
}
use frostbuild.Base.Text.{Text, text_order}
use frostbuild.Base.BTreeMap.{lookup, insert, IsSorted, insert-snoc, lookup-insert_self}
use frostbuild.Journal.{
  Bytes, Actions, JournalEntry, Journal, Record, Codec, Files, magic, journal_path, from_le_bytes,
  get_bytes, frame, decode_bytes, load, reuses, record_action, save_frames, save,
}
use frostbuild.Journal.Frames.{
  apply_all, IsShort, frames, decode_from-claims, decode_from-frame, frames-append,
  length-le-frames,
}
use frostbuild.Journal.Recovery.{apply_all-append, log_bytes, decode_bytes-log, decode_bytes-magic}

module _ (codec : Codec) (root : Text) where
  open codec use {to_allocvec}

  -- The disk holds the frames of `log`, and the journal is what they add up to.
  pub record IsLogged (log : List Record) (s : Journal × Files) : Type 0 where
    pub short : All (IsShort codec) log
    pub actions : s.0.actions ≡ apply_all log []
    pub stored :
        (lookup (journal_path root) s.1 ≡ some (log_bytes codec log))
        ⊎ ((get_bytes (lookup (journal_path root) s.1) ≡ []) × (log ≡ []))
    pub open_file :
        reuses s.0.writer (journal_path root) ≡ true
        → lookup (journal_path root) s.1 ≡ some (log_bytes codec log)

  -- Opening the log, if it is not open, leaves its magic and its frames.
  opened_log :
      (log : List Record) (j : Journal) (files : Files)
      → IsLogged log (j, files)
      → (let old = get_bytes (lookup (journal_path root) files) in
          if reuses j.writer (journal_path root) then old else if is_empty old then magic else old)
        ≡ log_bytes codec log
  opened_log log j files h = elim h.stored [
    | inl e ↦ rw e (ground arith)
    | inr (e, none_yet) ↦ elim (Bool-cases (reuses j.writer (journal_path root))) [
      | inl r ↦ rw (r, h.open_file r)
      | inr r ↦ rw (r, e, none_yet) (sym (append-nil magic))
    ]
  ]

  -- Recording an action keeps memory and disk together: the log grows by its frame.
  pub record_action-IsLogged :
      (log : List Record) (id : Text) (entry : JournalEntry) (s : Journal × Files)
      → IsShort codec (record { id = id; entry = entry })
      → IsLogged log s
      → IsLogged
          (log ++ record { id = id; entry = entry } ∷ [])
          (record_action codec root id entry s)
  unfolding record_action
  record_action-IsLogged log id entry (j, files) short h =
      let r : Record = record { id = id; entry = entry } in
      let path = journal_path root in
      let grown : log_bytes codec log ++ frame codec r ≡ log_bytes codec (log ++ r ∷ []) =
        ap (◌++◌ magic) (
          ap (◌++◌ (frames codec log)) (sym (append-nil (frame codec r)))
          ∙ sym (frames-append codec log (r ∷ []))) in
      let stored =
        lookup-insert_self path _ files
        ∙ ap some (ap (λ b. b ++ frame codec r) (opened_log log j files h) ∙ grown) in
      record {
        short = All-append (IsShort codec) log (r ∷ []) h.short (short, tt);
        actions = ap (insert id entry) h.actions ∙ sym (apply_all-append log (r ∷ []) []);
        stored = inl stored;
        open_file = λ _. stored;
      }

  records_of : Actions → List Record
  records_of [] = []
  records_of ((id, entry) ∷ m) = record { id = id; entry = entry } ∷ records_of m

  save_frames-frames : (m : Actions) → save_frames codec m ≡ frames codec (records_of m)
  unfolding save_frames records_of
  save_frames-frames [] = refl
  save_frames-frames ((id, entry) ∷ m) =
      ap (◌++◌ (frame codec (record { id = id; entry = entry }))) (save_frames-frames m)

  apply_all-records_of : (m l : Actions) → IsSorted (l ++ m) → apply_all (records_of m) l ≡ l ++ m
  unfolding records_of
  apply_all-records_of [] l s = sym (append-nil l)
  apply_all-records_of ((id, entry) ∷ m) l s =
      let e = insert-snoc id entry l m s in
      ap (apply_all (records_of m)) e
      ∙ apply_all-records_of m (l ++ (id, entry) ∷ []) (rw (append_assoc l ((id, entry) ∷ []) m) s)
      ∙ append_assoc l ((id, entry) ∷ []) m

  abbrev pub AllShort : Actions → Type 0
  AllShort m = All (λ (e : Text × JournalEntry). IsShort codec (record { id = e.0; entry = e.1 })) m

  IsShort-records : (m : Actions) → AllShort m → All (IsShort codec) (records_of m)
  unfolding records_of
  IsShort-records [] h = tt
  IsShort-records ((id, entry) ∷ m) h = (h.0, IsShort-records m h.1)

  -- A compacted journal that has an action, its actions in the order of their names as in a map and
  -- each encoded record shorter than 4 GiB, is loaded as it was: `load` after `save` gives the same
  -- actions.
  pub load-save :
      (j : Journal) (files : Files)
      → IsSorted j.actions
      → AllShort j.actions
      → j.actions ≢ []
      → (load codec root (save codec root j files)).actions ≡ j.actions
  unfolding load save
  load-save j files sorted short some_action =
      let on_disk =
        lookup-insert_self (journal_path root) (magic ++ save_frames codec j.actions) files in
      let read : decode_bytes codec (magic ++ save_frames codec j.actions) ≡ j.actions =
        ap (λ b. decode_bytes codec (magic ++ b)) (save_frames-frames j.actions)
        ∙ decode_bytes-log codec (records_of j.actions) (IsShort-records j.actions short)
        ∙ apply_all-records_of j.actions [] sorted in
      ground (arith, on_disk, read)

  -- After a crash that left the beginning of a frame behind a log of frames shorter than 4 GiB, what
  -- is appended behind it is not loaded as long as it fits into the length that the torn frame
  -- claims.
  pub decode_bytes-behind_torn :
      (log later : List Record) (a b c d : ℕ) (part : Bytes)
      → All (IsShort codec) log
      → length (part ++ frames codec later) < from_le_bytes a b c d
      → decode_bytes codec (log_bytes codec log ++ (a ∷ b ∷ c ∷ d ∷ (part ++ frames codec later)))
        ≡ apply_all log []
  decode_bytes-behind_torn log later a b c d part short claim =
      let tail = a ∷ b ∷ c ∷ d ∷ (part ++ frames codec later) in
      ap (decode_bytes codec) (append_assoc magic (frames codec log) tail)
      ∙ decode_bytes-magic codec (frames codec log ++ tail)
      ∙ read_log (length (magic ++ (frames codec log ++ tail))) log [] short (
          omega (
            arith,
            length-append magic (frames codec log ++ tail),
            length-append (frames codec log) tail,
            length-le-frames codec log,
          ))
    where
      read_log :
          (fuel : ℕ) (rs : List Record) (m : Actions)
          → All (IsShort codec) rs
          → length rs ≤ fuel
          → frostbuild.Journal.decode_from codec fuel
              (frames codec rs ++ (a ∷ b ∷ c ∷ d ∷ (part ++ frames codec later)))
              m
            ≡ apply_all rs m
      read_log fuel [] m s h =
          decode_from-claims codec fuel a b c d (part ++ frames codec later) m claim
      read_log zero (r ∷ rs) m s h = absurd (omega arith)
      read_log (suc fuel) (r ∷ rs) m s h = rw (append_assoc (frame codec r) (frames codec rs) _) (
          decode_from-frame codec fuel r _ m s.0
          ∙ read_log fuel rs (insert r.id r.entry m) s.1 (omega arith))
