-- ===== src/Depfile.antt =====
-- crates/frostbuild-core/src/depfile.rs: `parse`, the reader of Makefile-style dependency files.
-- A text is its characters. `chars.next()` beyond the loop's own is a count of characters to skip.
pub mod Words
pub mod Rules
pub mod RoundTrip
use frostbuild.Base.{
  ℕ, zero, suc, Bool, true, false, not, ◌&&◌, ◌||◌, List, [], ◌∷◌, ◌++◌, Option, some, none, ◌==◌,
  leb, if◌then◌else◌, drop,
}
use frostbuild.Base.Text.{Text, text_order, codes}
use frostbuild.Base.BTreeMap.{insert, contains_key}
use frostbuild.Base.BTreeSet.{BTreeSet, keys}

-- `BTreeSet<String>`
abbrev pub TextSet : Type 0
TextSet = BTreeSet Text

-- The variables of the loop.
pub record Reader : Type 0 where
  pub deps : TextSet
  pub targets : TextSet
  pub token : Text
  pub in_deps : Bool

-- `char::is_whitespace`
unfoldable pub is_whitespace : ℕ → Bool
is_whitespace c =
    leb 9 c && leb c 13
    || c == 32
    || c == 0x85
    || c == 0xa0
    || c == 0x1680
    || leb 0x2000 c && leb c 0x200a
    || c == 0x2028
    || c == 0x2029
    || c == 0x202f
    || c == 0x205f
    || c == 0x3000

-- `chars.peek() == Some(&c)`
abbrev pub peeks : Text → ℕ → Bool
peeks [] c = false
peeks (x ∷ _) c = x == c

abbrev pub push : ℕ → Reader → Reader
push c r = record r { token = r.token ++ c ∷ [] }

flush_token : Text → Bool → Reader → Reader
flush_token [] _ r = r
flush_token (c ∷ t) true r = record r { token = []; deps = insert (c ∷ t) tt r.deps }
flush_token (c ∷ t) false r = record r { token = []; targets = insert (c ∷ t) tt r.targets }

-- The closure `flush`.
unfoldable pub flush : Bool → Reader → Reader
unfolding flush_token
flush in_deps r = flush_token r.token in_deps r

-- What stands behind a backslash.
unfoldable pub read_escape : Text → Reader → ℕ × Reader
read_escape rest r =
    if peeks rest b'\n'
    then (1, r)
    else if peeks rest b'\r'
    then (if peeks (drop 1 rest) b'\n' then 2 else 1, r)
    else if peeks rest b' '
    then (1, push b' ' r)
    else if peeks rest b'#'
    then (1, push b'#' r)
    else if peeks rest b'\\'
    then (1, push b'\\' r)
    else (0, push b'\\' r)

-- The body of the loop at character `c`, with `rest` unread.
unfoldable pub read_char : ℕ → Text → Reader → ℕ × Reader
unfolding read_escape flush is_whitespace
read_char c rest r =
    if c == b'\\'
    then read_escape rest r
    else if c == b'$' && peeks rest b'$'
    then (1, push b'$' r)
    else if c == b':' && not r.in_deps
    then (0, record (flush false r) { in_deps = true })
    else if c == b'\n'
    then (0, record (flush r.in_deps r) { in_deps = false })
    else if is_whitespace c
    then (0, flush r.in_deps r)
    else (0, push c r)

-- The loop, with the number of characters that it has taken already.
unfoldable pub read : ℕ → Text → Reader → Reader
read skip [] r = r
read (suc skip) (c ∷ rest) r = read skip rest r
read zero (c ∷ rest) r = let (skip, r') = read_char c rest r in read skip rest r'

abbrev pub start : Reader
start = record { deps = []; targets = []; token = []; in_deps = false }

-- `d.strip_prefix(&prefix)`, or `d` where it does not start so.
unfoldable pub strip_prefix : Text → Text → Option Text
strip_prefix [] d = some d
strip_prefix (p ∷ ps) [] = none
strip_prefix (p ∷ ps) (c ∷ d) = if p == c then strip_prefix ps d else none

abbrev trim_end : ℕ → Text → Text
trim_end c [] = []
trim_end c (x ∷ xs) = elim (trim_end c xs) [ [] ↦ if x == c then [] else x ∷ [] | t ↦ x ∷ t ]

unfoldable pub relativize : Text → Text → Text
unfolding strip_prefix
relativize root d = elim (strip_prefix (trim_end b'/' root ++ codes "/") d) [
  | some rel ↦ rel
  | none ↦ d
]

-- The chain of `filter` and `map` on the collected sets.
unfoldable pub listing : Text → TextSet → List Text → List Text
unfolding relativize
listing root targets [] = []
listing root targets (d ∷ deps) =
    let rest = listing root targets deps in
    if not (contains_key d targets) then relativize root d ∷ rest else rest

unfoldable pub parse : Text → Text → List Text
unfolding read read_char listing
parse text root =
    let last = read 0 text start in
    let done = flush last.in_deps last in listing root done.targets (keys done.deps)
