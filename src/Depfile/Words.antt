-- ===== src/Depfile/Words.antt =====
-- How the reader takes one word, one gap and one rule, with any text behind.
use frostbuild.Base.{
  ℕ, Bool, true, false, List, [], ◌∷◌, ◌++◌, ◌≡◌, ◌≢◌, ◌⊎◌, refl, sym, ap, ◌∙◌, subst, ◌==◌,
  if◌then◌else◌, All, arith, append-nil, append_assoc,
}
use frostbuild.Base.Text.{Text, codes}
use frostbuild.Depfile.{Reader, is_whitespace, push, flush, read_escape, read_char, read}

-- How a character of a name is written, as gcc and make escape it.
pub escape_char : ℕ → Text
escape_char c =
    if c == b'$'
    then codes "$$"
    else if c == b' '
    then codes "\\ "
    else if c == b'#'
    then codes "\\#"
    else if c == b'\\'
    then codes "\\\\"
    else c ∷ []

abbrev pub escape : Text → Text
escape [] = []
escape (c ∷ w) = escape_char c ++ escape w

-- A name may hold spaces, and no other white space; a target holds no colon.
abbrev pub IsNameChar : Bool → ℕ → Type 0
IsNameChar in_deps c = ((is_whitespace c ≡ false) ⊎ (c ≡ b' ')) × ((in_deps ≡ true) ⊎ (c ≢ b':'))

abbrev pub IsName : Bool → Text → Type 0
IsName in_deps w = (w ≢ []) × All (IsNameChar in_deps) w

read-escape_char :
    (c : ℕ) (rest : Text) (r : Reader)
    → IsNameChar r.in_deps c
    → read 0 (escape_char c ++ rest) r ≡ read 0 rest (push c r)
unfolding read read_char read_escape escape_char is_whitespace
read-escape_char c rest r h = ground arith

pub read-escape :
    (w rest : Text) (r : Reader)
    → All (IsNameChar r.in_deps) w
    → read 0 (escape w ++ rest) r ≡ read 0 rest (record r { token = r.token ++ w })
read-escape [] rest r h = rw append-nil
read-escape (c ∷ w) rest r h = rw append_assoc (
    read-escape_char c (escape w ++ rest) r h.0
    ∙ read-escape w rest (push c r) h.1
    ∙ rw append_assoc)

-- What may stand between two names after a first blank: blanks and continued lines.
pub data Blank : Type 0 where
  space : ℕ → Blank
  continued continued_crlf : Blank

abbrev pub IsBlank : Blank → Type 0
IsBlank (space c) = (is_whitespace c ≡ true) × (c ≢ b'\n')
IsBlank _ = Unit

abbrev pub render_blank : Blank → Text
render_blank (space c) = c ∷ []
render_blank continued = b'\\' ∷ b'\n' ∷ []
render_blank continued_crlf = b'\\' ∷ b'\r' ∷ b'\n' ∷ []

abbrev pub render_blanks : List Blank → Text
render_blanks [] = []
render_blanks (b ∷ bs) = render_blank b ++ render_blanks bs

read-blank :
    (b : Blank) (rest : Text) (r : Reader)
    → IsBlank b
    → r.token ≡ []
    → read 0 (render_blank b ++ rest) r ≡ read 0 rest r
unfolding read read_char read_escape is_whitespace
read-blank (space c) rest r h e = ground arith
read-blank continued rest r h e = refl
read-blank continued_crlf rest r h e = refl

read-blanks :
    (bs : List Blank) (rest : Text) (r : Reader)
    → All IsBlank bs
    → r.token ≡ []
    → read 0 (render_blanks bs ++ rest) r ≡ read 0 rest r
read-blanks [] rest r h e = refl
read-blanks (b ∷ bs) rest r h e =
    rw append_assoc (read-blank b (render_blanks bs ++ rest) r h.0 e ∙ read-blanks bs rest r h.1 e)

read-space :
    (c : ℕ) (rest : Text) (r : Reader)
    → IsBlank (space c)
    → read 0 (c ∷ rest) r ≡ read 0 rest (flush r.in_deps r)
unfolding read read_char is_whitespace
read-space c rest r h = ground arith

pub flush-fields :
    (b : Bool) (r : Reader) → ((flush b r).token ≡ []) × ((flush b r).in_deps ≡ r.in_deps)
unfolding flush
flush-fields b r = ground arith

-- A name behind its gap.
pub record Spaced : Type 0 where
  pub first : ℕ
  pub more : List Blank
  pub name : Text

pub record IsSpaced (in_deps : Bool) (w : Spaced) : Type 0 where
  pub first_blank : IsBlank (space w.first)
  pub more_blank : All IsBlank w.more
  pub is_name : IsName in_deps w.name

abbrev pub render_spaced : List Spaced → Text
render_spaced [] = []
render_spaced (w ∷ ws) = (w.first ∷ (render_blanks w.more ++ escape w.name)) ++ render_spaced ws

-- The reader behind a sequence of names: the last one is still its token.
abbrev pub after : List Spaced → Reader → Reader
after [] r = r
after (w ∷ ws) r = after ws (record (flush r.in_deps r) { token = w.name })

pub read-spaced :
    (ws : List Spaced) (rest : Text) (r : Reader)
    → All (IsSpaced r.in_deps) ws
    → read 0 (render_spaced ws ++ rest) r ≡ read 0 rest (after ws r)
read-spaced [] rest r h = refl
read-spaced (w ∷ ws) rest r h =
    let f = flush r.in_deps r in
    let more = render_spaced ws ++ rest in
    let b = flush-fields r.in_deps r in
    let named : All (IsNameChar f.in_deps) w.name =
      subst (λ i. All (IsNameChar i) w.name) (sym b.1) h.0.is_name.1 in
    let tail : All (IsSpaced f.in_deps) ws = subst (λ i. All (IsSpaced i) ws) (sym b.1) h.1 in
    (rw (append_assoc, append_assoc)
      (read-space w.first (render_blanks w.more ++ (escape w.name ++ more)) r h.0.first_blank
        ∙ read-blanks w.more (escape w.name ++ more) f h.0.more_blank b.0
        ∙ read-escape w.name more f named
        ∙ ap (λ t. read 0 more (record f { token = t ++ w.name })) b.0))
    ∙ read-spaced ws rest (record f { token = w.name }) tail
