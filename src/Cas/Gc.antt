-- ===== src/Cas/Gc.antt =====
-- crates/frostbuild-core/src/cas.rs: `LocalCas::gc`, over the files as the directories list them.
use frostbuild.Base.{
  ℕ, ◌+◌, ◌-◌, compare, Ordering, Bool, true, false, not, ◌&&◌, ◌||◌, List, [], ◌∷◌, Option, some,
  none, ltb, leb, ◌==◌, if◌then◌else◌, saturating_add,
}
use frostbuild.Base.Text.{Text, text_cmp}

-- A file of the store: its time of modification, if the system has one, its size, and the components
-- of its path.
pub record Listed : Type 0 where
  pub modified : Option ℕ
  pub size : ℕ
  pub path : List Text

-- What `gc` works on. The age of the stamp is in seconds, if there is a stamp and the clock did not
-- go back.
pub record Usage : Type 0 where
  pub max_bytes : ℕ
  pub exists : Bool
  pub changed : Bool
  pub stamp_age : Option ℕ
  pub files : List Listed

-- `Ord` of paths: by components.
unfoldable pub path_cmp : List Text → List Text → Ordering
path_cmp [] [] = Ordering.eq
path_cmp [] (q ∷ qs) = Ordering.lt
path_cmp (p ∷ ps) [] = Ordering.gt
path_cmp (p ∷ ps) (q ∷ qs) = elim (text_cmp p q) [ Ordering.eq ↦ path_cmp ps qs | o ↦ o ]

unfoldable pub modified_cmp : Option ℕ → Option ℕ → Ordering
modified_cmp none none = Ordering.eq
modified_cmp none (some b) = Ordering.lt
modified_cmp (some a) none = Ordering.gt
modified_cmp (some a) (some b) = compare a b

abbrev pub not_gt : Ordering → Bool
not_gt Ordering.gt = false
not_gt _ = true

-- The first file goes before the second, or has the same key.
unfoldable pub goes_before : Listed → Listed → Bool
goes_before a b = elim (modified_cmp a.modified b.modified) [
  | Ordering.lt ↦ true
  | Ordering.eq ↦ not_gt (path_cmp a.path b.path)
  | Ordering.gt ↦ false
]

-- `sort_by_key`, which is stable.
unfoldable pub insert_by_key : Listed → List Listed → List Listed
insert_by_key e [] = e ∷ []
insert_by_key e (f ∷ files) =
    let rest = insert_by_key e files in if goes_before e f then e ∷ f ∷ files else f ∷ rest

unfoldable pub sort_by_key : List Listed → List Listed
sort_by_key [] = []
sort_by_key (e ∷ files) = insert_by_key e (sort_by_key files)

abbrev pub total_size : List Listed → ℕ → ℕ
total_size [] total = total
total_size (e ∷ files) total = total_size files (saturating_add total e.size)

-- The loop that removes files while the total is above the limit: the bytes it removed, and the
-- files that are left. Whether a file can be removed is the system's.
unfoldable pub evict :
    (Listed → Bool) → (limit : ℕ) → List Listed → (total removed : ℕ) → ℕ × List Listed
evict can_remove limit [] total removed = (removed, [])
evict can_remove limit (e ∷ files) total removed =
    let gone = evict can_remove limit files (total - e.size) (removed + e.size) in
    let (more, kept) = evict can_remove limit files total removed in
    if leb total limit
    then (removed, e ∷ files)
    else if can_remove e
    then gone
    else (more, e ∷ kept)

abbrev pub gc_interval : ℕ
gc_interval = 60

abbrev pub is_recent : Option ℕ → Bool
is_recent none = false
is_recent (some age) = ltb age gc_interval

-- Whether there is nothing to scan, or the last scan is recent and nothing was stored since.
unfoldable pub skips : Usage → Bool
skips u = u.max_bytes == 0 || not u.exists || (not u.changed && is_recent u.stamp_age)

-- The bytes that were removed, the files that are left, and whether the stamp is written.
unfoldable pub gc : (Listed → Bool) → Usage → ℕ × List Listed × Bool
gc can_remove u =
    let swept = evict can_remove u.max_bytes (sort_by_key u.files) (total_size u.files 0) 0 in
    if skips u then (0, u.files, false) else (swept.0, swept.1, true)
