-- ===== src/ActionKey/Insertion.antt =====
-- Keys that are built by adding inputs and environment entries: what of the insertions the payload
-- shows.
use frostbuild.Base.{
  Option, some, none, ◌≡◌, ◌↔◌, refl, sym, ap, ◌∙◌, subst, List, [], ◌∷◌, arith, inl, inr,
  if◌then◌else◌,
}
use frostbuild.Base.Text.{text_eq, text_eq_iff, text_cases, text_order}
use frostbuild.Base.BTreeMap.{
  lookup, insert, IsSorted, insert-IsSorted, lookup-nil, lookup-insert_self, lookup-insert_ne,
  lookup_ext,
}
use frostbuild.ActionKey.{
  Bytes, TextMap, FilePath, ActionKey, new, with_env, with_input, canonical_payload,
}
use frostbuild.ActionKey.Payload.{canonical_payload-injective}

abbrev pub Entries : Type 0
Entries = List (Bytes × Bytes)

abbrev pub with_inputs : Entries → ActionKey → ActionKey
with_inputs [] a = a
with_inputs ((path, digest) ∷ es) a = with_inputs es (with_input path digest a)

abbrev pub with_envs : Entries → ActionKey → ActionKey
with_envs [] a = a
with_envs ((key, value) ∷ es) a = with_envs es (with_env key value a)

-- The value that the last entry of the key gives, or what there was without the entries.
abbrev pub last_value : Bytes → Entries → Option Bytes → Option Bytes
last_value k [] before = before
last_value k ((j, v) ∷ es) before = last_value k es (if text_eq k j then some v else before)

-- Two lists of entries give every key the same value.
abbrev pub SameValues : Entries → Entries → Type 0
SameValues es fs = (k : Bytes) → last_value k es none ≡ last_value k fs none

abbrev insert_entries : Entries → TextMap → TextMap
insert_entries [] m = m
insert_entries ((k, v) ∷ es) m = insert_entries es (insert k v m)

insert_entries-IsSorted : (es : Entries) (m : TextMap) → IsSorted m → IsSorted (insert_entries es m)
insert_entries-IsSorted [] m s = s
insert_entries-IsSorted ((k, v) ∷ es) m s =
    insert_entries-IsSorted es (insert k v m) (insert-IsSorted k v m s)

lookup-insert :
    (k j v : Bytes) (m : TextMap)
    → lookup k (insert j v m) ≡ (if text_eq k j then some v else lookup k m)
lookup-insert k j v m = elim (text_cases k j) [
  | inl e ↦
      rw ((text_eq_iff k j).1 e)
        (subst (λ i. lookup i (insert j v m) ≡ some v) (sym e) (lookup-insert_self j v m))
  | inr ne ↦ ground (arith, text_eq_iff k j, lookup-insert_ne j k v m ne)
]

lookup-insert_entries :
    (k : Bytes) (es : Entries) (m : TextMap)
    → lookup k (insert_entries es m) ≡ last_value k es (lookup k m)
lookup-insert_entries k [] m = refl
lookup-insert_entries k ((j, v) ∷ es) m =
    lookup-insert_entries k es (insert j v m) ∙ ap (last_value k es) (lookup-insert k j v m)

lookup-entries : (k : Bytes) (es : Entries) → lookup k (insert_entries es []) ≡ last_value k es none
lookup-entries k es = lookup-insert_entries k es [] ∙ ap (last_value k es) (lookup-nil k)

insert_entries-same :
    (es fs : Entries) → (insert_entries es [] ≡ insert_entries fs []) ↔ SameValues es fs
insert_entries-same es fs = (
  λ e k. sym (lookup-entries k es) ∙ ap (lookup k) e ∙ lookup-entries k fs,
  λ same.
      lookup_ext (insert_entries es []) (insert_entries fs []) (insert_entries-IsSorted es [] tt)
        (insert_entries-IsSorted fs [] tt)
        (λ k. lookup-entries k es ∙ same k ∙ sym (lookup-entries k fs)),
)

with_inputs-entries :
    (es : Entries) (a : ActionKey)
    → with_inputs es a ≡ record a { inputs = insert_entries es a.inputs }
unfolding with_input
with_inputs-entries [] a = refl
with_inputs-entries ((k, v) ∷ es) a = with_inputs-entries es (with_input k v a)

with_envs-entries :
    (es : Entries) (a : ActionKey) → with_envs es a ≡ record a { env = insert_entries es a.env }
unfolding with_env
with_envs-entries [] a = refl
with_envs-entries ((k, v) ∷ es) a = with_envs-entries es (with_env k v a)

-- A new key to which environment entries and inputs are added.
abbrev pub built : ActionKey → Entries → Entries → ActionKey
built a es ins = with_inputs ins (with_envs es a)

built-entries :
    (builder target : Bytes) (argv : List Bytes) (cwd : FilePath) (toolchain : Bytes)
    (es ins : Entries)
    → built (new builder target argv cwd toolchain) es ins
      ≡ record (new builder target argv cwd toolchain) {
        env = insert_entries es [];
        inputs = insert_entries ins [];
      }
unfolding new
built-entries builder target argv cwd toolchain es ins =
    let start = new builder target argv cwd toolchain in
    with_inputs-entries ins (with_envs es start)
    ∙ ap (λ (a : ActionKey). record a { inputs = insert_entries ins a.inputs })
        (with_envs-entries es start)

-- Two keys made by `new` from the same fields, with environment entries and inputs added in any
-- order, have one payload exactly where every variable has the same last value in both, and every
-- input the same last digest: the order of different names leaves no trace, and no name's last
-- value is lost.
pub canonical_payload-entries :
    (root : FilePath) (builder target : Bytes) (argv : List Bytes) (cwd : FilePath)
    (toolchain : Bytes) (es fs ins outs : Entries)
    → (canonical_payload root (built (new builder target argv cwd toolchain) es ins)
        ≡ canonical_payload root (built (new builder target argv cwd toolchain) fs outs))
      ↔ (SameValues es fs × SameValues ins outs)
canonical_payload-entries root builder target argv cwd toolchain es fs ins outs =
    let start = new builder target argv cwd toolchain in
    let left = built-entries builder target argv cwd toolchain es ins in
    let right = built-entries builder target argv cwd toolchain fs outs in
    (
      λ e.
          let same =
            canonical_payload-injective root (built start es ins) (built start fs outs) e in
          (
            (insert_entries-same es fs).0 (
                sym (ap (λ (a : ActionKey). a.env) left)
                ∙ same.same_env
                ∙ ap (λ (a : ActionKey). a.env) right),
            (insert_entries-same ins outs).0 (
                sym (ap (λ (a : ActionKey). a.inputs) left)
                ∙ same.same_inputs
                ∙ ap (λ (a : ActionKey). a.inputs) right),
          ),
      λ (env, inputs). ap (canonical_payload root) (
          left
          ∙ ap (λ m. record start { env = m; inputs = insert_entries ins [] })
              ((insert_entries-same es fs).1 env)
          ∙ ap (λ m. record start { env = insert_entries fs []; inputs = m })
              ((insert_entries-same ins outs).1 inputs)
          ∙ sym right),
    )
