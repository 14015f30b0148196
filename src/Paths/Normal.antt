-- ===== src/Paths/Normal.antt =====
-- What `validate_rel_path` accepts, and what it returns.
use frostbuild.Base.{
  true, false, List, [], ◌∷◌, ◌++◌, ◌≡◌, ◌≢◌, ◌↔◌, refl, sym, ap, ◌∙◌, ok, Result-cases, ℕ, ◌==◌,
  subst, if◌then◌else◌, All, arith, append-nil, append_assoc, inl, inr,
}
use frostbuild.Base.Text.{Text, codes, text_eq, text_eq_iff}
use frostbuild.Base.Split.{
  split, join, contains_char, split-free, split-join, cons_head, contains_char-append,
}
use frostbuild.Paths.{push_parts, dot, dot_dot, validate_rel_path, starts_with_slash}

-- A component that may stand in a path of a manifest.
abbrev pub IsAllowed : Text → Type 0
IsAllowed part = (part ≢ []) × (part ≢ dot_dot)

-- The components but the `.` ones.
abbrev pub named : List Text → List Text
named [] = []
named (part ∷ rest) = if text_eq part dot then named rest else part ∷ named rest

-- What the path check promises, with no reference to its loop.
pub record Normalizes (raw out : Text) : Type 0 where
  pub no_backslash : contains_char b'\\' raw ≡ false
  pub allowed : All IsAllowed (split b'/' raw)
  pub names_file : named (split b'/' raw) ≢ []
  pub joined : out ≡ join (codes "/") (named (split b'/' raw))

push_parts_ok :
    (rest parts out : List Text)
    → push_parts parts rest ≡ ok out
    → All IsAllowed rest × (out ≡ parts ++ named rest)
unfolding push_parts
push_parts_ok [] parts out e = (tt, ground (arith, append-nil parts))
push_parts_ok (p ∷ rest) parts out e = ground (
  arith,
  text_eq_iff p dot,
  text_eq_iff p dot_dot,
  push_parts_ok rest parts out,
  push_parts_ok rest (parts ++ p ∷ []) out,
  append_assoc parts (p ∷ []) (named rest),
)

push_parts_total :
    (rest parts : List Text) → All IsAllowed rest → push_parts parts rest ≡ ok (parts ++ named rest)
unfolding push_parts
push_parts_total [] parts a = ap ok (sym (append-nil parts))
push_parts_total (p ∷ rest) parts a = ground (
  arith,
  text_eq_iff p dot,
  text_eq_iff p dot_dot,
  push_parts_total rest parts a.1,
  push_parts_total rest (parts ++ p ∷ []) a.1,
  append_assoc parts (p ∷ []) (named rest),
)

split_slash_cons :
    (c : ℕ) (cs : Text) → starts_with_slash (c ∷ cs) ≡ true → ¬ All IsAllowed (split b'/' (c ∷ cs))
unfolding split text_eq
split_slash_cons c cs s a = ground arith

validate_sound : (raw : Text) {out : Text} → validate_rel_path raw ≡ ok out → Normalizes raw out
unfolding validate_rel_path
validate_sound raw e = elim (Result-cases (push_parts [] (split b'/' raw))) [
  | inl (parts, p) ↦
      let known = push_parts_ok (split b'/' raw) [] parts p in
      record {
        no_backslash = ground arith;
        allowed = known.0;
        names_file = ground arith;
        joined = ground arith;
      }
  | inr (e', p) ↦ absurd (ground arith)
]

validate_complete : (raw out : Text) → Normalizes raw out → validate_rel_path raw ≡ ok out
unfolding validate_rel_path
validate_complete [] out n = absurd (unfold split in ground (arith, n.allowed))
validate_complete (c ∷ cs) out n = ground (
  arith,
  n.no_backslash,
  n.names_file,
  n.joined,
  split_slash_cons c cs,
  push_parts_total (split b'/' (c ∷ cs)) [] n.allowed,
)

-- A path is accepted exactly when it holds no backslash, every component between its slashes is
-- nonempty and not `..`, and some component is not `.`; the result joins those that are not `.`.
pub validate-Normalizes : (raw out : Text) → (validate_rel_path raw ≡ ok out) ↔ Normalizes raw out
validate-Normalizes raw out = (validate_sound raw, validate_complete raw out)

module _ (P : Text → Type 0) where
  All-named : (ps : List Text) → All P ps → All P (named ps)
  All-named [] a = tt
  All-named (p ∷ ps) a = ground (arith, All-named ps a.1)

named_idem : (ps : List Text) → named (named ps) ≡ named ps
named_idem [] = refl
named_idem (p ∷ ps) = ground (arith, named_idem ps)

-- A character other than the separator is in the joined text only if some part holds it.
join-free :
    (c : ℕ) (ps : List Text)
    → (b'/' == c) ≡ false
    → All (λ p. contains_char c p ≡ false) ps
    → contains_char c (join (codes "/") ps) ≡ false
unfolding join contains_char
join-free c [] ne a = refl
join-free c (p ∷ []) ne a = a.0
join-free c (p ∷ q ∷ ps) ne a = ground (
  arith,
  contains_char-append c p (b'/' ∷ join (codes "/") (q ∷ ps)),
  join-free c (q ∷ ps) ne a.1,
)

split_free_of :
    (sep c : ℕ) (s : Text)
    → contains_char c s ≡ false
    → All (λ p. contains_char c p ≡ false) (split sep s)
unfolding split contains_char
split_free_of sep c [] h = (refl, tt)
split_free_of sep c (x ∷ s) h = go (split sep s) (split_free_of sep c s (ground arith))
  where
    go :
        (ps : List Text)
        → All (λ p. contains_char c p ≡ false) ps
        → All (λ p. contains_char c p ≡ false) (if x == sep then [] ∷ ps else cons_head x ps)
    go [] a = ground arith
    go (p ∷ ps) a = ground arith

Normalizes-again : (raw out : Text) → Normalizes raw out → Normalizes out out
Normalizes-again raw out n =
    let parts = split b'/' raw in
    let again : split b'/' out ≡ named parts = rw n.joined (
      split-join b'/' (named parts) n.names_file
        (All-named (λ p. contains_char b'/' p ≡ false) parts (split-free b'/' raw))) in
    let same : named (split b'/' out) ≡ named parts = ap named again ∙ named_idem parts in
    record {
      no_backslash = rw n.joined (
          join-free b'\\' (named parts) refl (
            All-named (λ p. contains_char b'\\' p ≡ false) parts
              (split_free_of b'/' b'\\' raw n.no_backslash)));
      allowed = subst (All IsAllowed) (sym again) (All-named IsAllowed parts n.allowed);
      names_file = rw same n.names_file;
      joined = n.joined ∙ ap (join (codes "/")) (sym same);
    }

-- Validation normalizes: an accepted path is accepted again, and stays as it is.
pub validate_idem :
    (raw out : Text) → validate_rel_path raw ≡ ok out → validate_rel_path out ≡ ok out
validate_idem raw out e =
    validate_complete out out (Normalizes-again raw out (validate_sound raw e))
