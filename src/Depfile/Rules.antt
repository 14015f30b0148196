-- ===== src/Depfile/Rules.antt =====
-- How the reader takes whole rules, one behind the other.
use frostbuild.Base.{
  Bool, true, false, List, [], ◌∷◌, ◌++◌, ◌≡◌, ◌≢◌, refl, sym, ap, ◌∙◌, subst, All, arith,
  append_assoc,
}
use frostbuild.Base.Text.{Text, text_order}
use frostbuild.Base.BTreeSet.{insert_all, insert_all-append}
use frostbuild.Depfile.{Reader, flush, read_char, read}
use frostbuild.Depfile.Words.{
  IsName, IsNameChar, escape, read-escape, flush-fields, Spaced, IsSpaced, render_spaced, after,
  read-spaced,
}

abbrev pub names : List Spaced → List Text
names [] = []
names (w ∷ ws) = w.name ∷ names ws

-- Adds names to the set that is being read.
abbrev pub gather : Bool → List Text → Reader → Reader
gather true ns r = record r { deps = insert_all ns r.deps }
gather false ns r = record r { targets = insert_all ns r.targets }

-- One rule, `target more: deps` and a line end.
pub record Rule : Type 0 where
  pub target : Text
  pub more : List Spaced
  pub deps : List Spaced

pub record IsRule (u : Rule) : Type 0 where
  pub target_name : IsName false u.target
  pub more_names : All (IsSpaced false) u.more
  pub dep_names : All (IsSpaced true) u.deps

abbrev pub render_rule : Rule → Text
render_rule u =
    escape u.target ++ (render_spaced u.more ++ (b':' ∷ (render_spaced u.deps ++ (b'\n' ∷ []))))

abbrev pub render : List Rule → Text
render [] = []
render (u ∷ us) = render_rule u ++ render us

abbrev pub all_targets : List Rule → List Text
all_targets [] = []
all_targets (u ∷ us) = (u.target ∷ names u.more) ++ all_targets us

abbrev pub all_deps : List Rule → List Text
all_deps [] = []
all_deps (u ∷ us) = names u.deps ++ all_deps us

pub after-in_deps : (ws : List Spaced) (r : Reader) → (after ws r).in_deps ≡ r.in_deps
unfolding flush
after-in_deps [] r = refl
after-in_deps (w ∷ ws) r =
    ground (arith, after-in_deps ws (record (flush r.in_deps r) { token = w.name }))

pub flush_name :
    (i : Bool) (w : Text) (r : Reader)
    → w ≢ []
    → flush i (record (flush i r) { token = w }) ≡ gather i (w ∷ []) (flush i r)
unfolding flush
flush_name i [] r ne = absurd (ne refl)
flush_name i (c ∷ w) r ne = ground arith

pub gather-cons :
    (i : Bool) (n : Text) (ns : List Text) (r : Reader)
    → gather i ns (gather i (n ∷ []) r) ≡ gather i (n ∷ ns) r
gather-cons true n ns r = refl
gather-cons false n ns r = refl

pub gather-nil : (i : Bool) (r : Reader) → r ≡ gather i [] r
gather-nil true r = refl
gather-nil false r = refl

pub flush-after :
    (ws : List Spaced) (r : Reader)
    → All (IsSpaced r.in_deps) ws
    → flush r.in_deps (after ws r) ≡ gather r.in_deps (names ws) (flush r.in_deps r)
flush-after [] r h = gather-nil r.in_deps (flush r.in_deps r)
flush-after (w ∷ ws) r h =
    let r' = record (flush r.in_deps r) { token = w.name } in
    let same = (flush-fields r.in_deps r).1 in
    let tail : All (IsSpaced r'.in_deps) ws = subst (λ i. All (IsSpaced i) ws) (sym same) h.1 in
    subst (λ i. flush i (after ws r') ≡ gather i (names ws) (flush i r')) same
      (flush-after ws r' tail)
    ∙ ap (gather r.in_deps (names ws)) (flush_name r.in_deps w.name r h.0.is_name.0)
    ∙ gather-cons r.in_deps w.name (names ws) (flush r.in_deps r)

pub flush-after_at :
    (i : Bool) (ws : List Spaced) (r : Reader)
    → r.in_deps ≡ i
    → All (IsSpaced i) ws
    → flush i (after ws r) ≡ gather i (names ws) (flush i r)
flush-after_at i ws r e h =
    subst (λ j. flush j (after ws r) ≡ gather j (names ws) (flush j r)) e
      (flush-after ws r (subst (λ j. All (IsSpaced j) ws) (sym e) h))

pub read-colon :
    (rest : Text) (r : Reader)
    → r.in_deps ≡ false
    → read 0 (b':' ∷ rest) r ≡ read 0 rest (record (flush false r) { in_deps = true })
unfolding read read_char
read-colon rest r e = ground arith

pub read-newline :
    (rest : Text) (r : Reader)
    → read 0 (b'\n' ∷ rest) r ≡ read 0 rest (record (flush r.in_deps r) { in_deps = false })
unfolding read read_char
read-newline rest r = ground arith

-- Between two rules: nothing is pending, and a target comes next.
pub record AtRule (r : Reader) : Type 0 where
  pub no_token : r.token ≡ []
  pub at_target : r.in_deps ≡ false

abbrev pub rule_done : Rule → Reader → Reader
rule_done u r = record r {
  deps = insert_all (names u.deps) r.deps;
  targets = insert_all (u.target ∷ names u.more) r.targets;
}

pub flush_nil : (i : Bool) (r : Reader) → r.token ≡ [] → flush i r ≡ r
unfolding flush
flush_nil i r e = ground arith

pub flush_target :
    (w : Text) (r : Reader)
    → w ≢ []
    → AtRule r
    → flush false (record r { token = w }) ≡ gather false (w ∷ []) r
unfolding flush
flush_target [] r ne a = absurd (ne refl)
flush_target (c ∷ w) r ne a = ground (arith, a.no_token)

-- The reader behind the rule's last name, once it is flushed.
pub rule_end :
    (u : Rule) (r : Reader)
    → IsRule u
    → AtRule r
    → (let r2 = after u.more (record r { token = u.target }) in
        let r4 = after u.deps (record (flush false r2) { in_deps = true }) in
        record (flush r4.in_deps r4) { in_deps = false })
      ≡ rule_done u r
rule_end u r h a =
    let r1 = record r { token = u.target } in
    let r2 = after u.more r1 in
    let r3 = record (flush false r2) { in_deps = true } in
    let r4 = after u.deps r3 in
    let e4 = after-in_deps u.deps r3 in
    let f4 = flush-after_at true u.deps r3 refl h.dep_names in
    let f3 = flush_nil true r3 (flush-fields false r2).0 in
    let f2 = flush-after_at false u.more r1 a.at_target h.more_names in
    let f1 = flush_target u.target r h.target_name.0 a in cc (e4, f4, f3, f2, f1, a.at_target)

-- The whole rule: its targets and its dependencies are added, and nothing is pending behind it.
pub read_rule :
    (u : Rule) (rest : Text) (r : Reader)
    → IsRule u
    → AtRule r
    → read 0 (render_rule u ++ rest) r ≡ read 0 rest (rule_done u r)
read_rule u rest r h a =
    let r1 = record r { token = u.target } in
    let r2 = after u.more r1 in
    let r3 = record (flush false r2) { in_deps = true } in
    let r4 = after u.deps r3 in
    let deps_part = render_spaced u.deps ++ (b'\n' ∷ rest) in
    let colon_part = b':' ∷ deps_part in
    let e2 = after-in_deps u.more r1 ∙ a.at_target in
    let e4 = after-in_deps u.deps r3 in
    simp append_assoc (
      read-escape u.target (render_spaced u.more ++ colon_part) r
        (subst (λ i. All (IsNameChar i) u.target) (sym a.at_target) h.target_name.1)
      ∙ ap (λ t. read 0 (render_spaced u.more ++ colon_part) (record r { token = t ++ u.target }))
          a.no_token
      ∙ read-spaced u.more colon_part r1
          (subst (λ i. All (IsSpaced i) u.more) (sym a.at_target) h.more_names)
      ∙ read-colon deps_part r2 e2
      ∙ read-spaced u.deps (b'\n' ∷ rest) r3 h.dep_names
      ∙ read-newline rest r4
      ∙ ap (read 0 rest) (rule_end u r h a))

pub read_rules :
    (us : List Rule) (r : Reader)
    → All IsRule us
    → AtRule r
    → read 0 (render us) r ≡ record r {
      deps = insert_all (all_deps us) r.deps;
      targets = insert_all (all_targets us) r.targets;
    }
read_rules [] r h a = unfold read in refl
read_rules (u ∷ us) r h a =
    read_rule u (render us) r h.0 a
    ∙ read_rules us (rule_done u r) h.1 (record { no_token = a.no_token; at_target = a.at_target })
    ∙ simp insert_all-append
