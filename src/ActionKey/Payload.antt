-- ===== src/ActionKey/Payload.antt =====
-- The canonical payload determines every part of the key.
use frostbuild.Base.{
  ◌≡◌, ◌≢◌, refl, sym, ◌∙◌, List, [], ◌∷◌, ◌++◌, All, All-append, arith, append-nil, append_assoc,
}
use frostbuild.Base.Text.{codes}
use frostbuild.ActionKey.{
  Bytes, TextMap, FilePath, ActionKey, write_field, write_args, write_map, shown_cwd,
  canonical_payload,
}
use frostbuild.ActionKey.Fields.{NulFree, field, field-injective, write_field-field}

-- The payload as a list of its fields.
abbrev pub Fields : Type 0
Fields = List (Bytes × Bytes)

abbrev pub encode : Fields → Bytes
encode [] = []
encode ((k, v) ∷ fs) = field k v ++ encode fs

abbrev pub arg_fields : List Bytes → Fields
arg_fields [] = []
arg_fields (a ∷ argv) = (codes "argv", a) ∷ arg_fields argv

abbrev pub map_fields : Bytes → TextMap → Fields
map_fields tag [] = []
map_fields tag ((k, v) ∷ m) = (tag, k) ∷ (tag, v) ∷ map_fields tag m

abbrev pub body_fields : List Bytes → TextMap → TextMap → Fields
body_fields argv env inputs =
    arg_fields argv ++ (map_fields (codes "env") env ++ map_fields (codes "input") inputs)

abbrev pub key_fields : FilePath → ActionKey → Fields
key_fields root a =
    (codes "schema", codes "frost-action-key-v2")
    ∷ (codes "builder", a.builder)
    ∷ (codes "target", a.target)
    ∷ (codes "cwd", shown_cwd root a)
    ∷ (codes "toolchain", a.toolchain_hash)
    ∷ body_fields a.argv a.env a.inputs

pub encode-append : (fs gs : Fields) → encode (fs ++ gs) ≡ encode fs ++ encode gs
encode-append [] gs = refl
encode-append ((k, v) ∷ fs) gs = rw (encode-append fs gs, append_assoc)

write_args-encode :
    (payload : Bytes) (argv : List Bytes)
    → write_args payload argv ≡ payload ++ encode (arg_fields argv)
unfolding write_args
write_args-encode payload [] = sym (append-nil payload)
write_args-encode payload (a ∷ argv) =
    write_args-encode (write_field payload (codes "argv") a) argv
    ∙ simp (write_field-field, append_assoc)

write_map-encode :
    (tag payload : Bytes) (m : TextMap)
    → write_map tag payload m ≡ payload ++ encode (map_fields tag m)
unfolding write_map
write_map-encode tag payload [] = sym (append-nil payload)
write_map-encode tag payload ((k, v) ∷ m) =
    write_map-encode tag (write_field (write_field payload tag k) tag v) m
    ∙ simp (write_field-field, append_assoc)

pub canonical_payload-encode :
    (root : FilePath) (a : ActionKey) → canonical_payload root a ≡ encode (key_fields root a)
unfolding canonical_payload
canonical_payload-encode root a =
    simp (write_map-encode, write_args-encode, write_field-field, encode-append, append_assoc)

abbrev IsTagged : Fields → Type 0
IsTagged fs = All (λ (f : Bytes × Bytes). NulFree f.0) fs

field-ne-nil : (k v : Bytes) → field k v ≢ []
unfolding field
field-ne-nil [] v e = cc
field-ne-nil (c ∷ k) v e = cc

encode_cons-ne-nil : (k v : Bytes) (rest : Bytes) → field k v ++ rest ≢ []
unfolding field
encode_cons-ne-nil [] v rest e = cc
encode_cons-ne-nil (c ∷ k) v rest e = cc

-- Tagged fields are read back from their encoding.
encode-injective : (fs gs : Fields) → IsTagged fs → IsTagged gs → encode fs ≡ encode gs → fs ≡ gs
encode-injective [] [] hf hg e = refl
encode-injective [] ((l, w) ∷ gs) hf hg e = absurd (encode_cons-ne-nil l w (encode gs) (sym e))
encode-injective ((k, v) ∷ fs) [] hf hg e = absurd (encode_cons-ne-nil k v (encode fs) e)
encode-injective ((k, v) ∷ fs) ((l, w) ∷ gs) hf hg e =
    let (same_key, same_value, rest) = field-injective k l v w hf.0 hg.0 e in
    cc (same_key, same_value, encode-injective fs gs hf.1 hg.1 rest)

arg_fields-IsTagged : (argv : List Bytes) → IsTagged (arg_fields argv)
arg_fields-IsTagged [] = tt
arg_fields-IsTagged (a ∷ argv) = (omega arith, arg_fields-IsTagged argv)

map_fields-IsTagged : (tag : Bytes) (m : TextMap) → NulFree tag → IsTagged (map_fields tag m)
map_fields-IsTagged tag [] h = tt
map_fields-IsTagged tag ((k, v) ∷ m) h = (h, (h, map_fields-IsTagged tag m h))

key_fields-IsTagged : (root : FilePath) (a : ActionKey) → IsTagged (key_fields root a)
key_fields-IsTagged root a =
    let tagged = λ (f : Bytes × Bytes). NulFree f.0 in
    let maps =
      All-append tagged (map_fields (codes "env") a.env) (map_fields (codes "input") a.inputs)
        (map_fields-IsTagged (codes "env") a.env (omega arith))
        (map_fields-IsTagged (codes "input") a.inputs (omega arith)) in
    let body =
      All-append tagged (arg_fields a.argv)
        (map_fields (codes "env") a.env ++ map_fields (codes "input") a.inputs)
        (arg_fields-IsTagged a.argv) maps in
    (omega arith, (omega arith, (omega arith, (omega arith, (omega arith, body)))))

input_fields-injective :
    (m n : TextMap) → map_fields (codes "input") m ≡ map_fields (codes "input") n → m ≡ n
input_fields-injective [] [] e = refl
input_fields-injective [] ((k, v) ∷ n) e = cc
input_fields-injective ((k, v) ∷ m) [] e = cc
input_fields-injective ((k, v) ∷ m) ((l, w) ∷ n) e = ground (arith, input_fields-injective m n)

map_fields-injective :
    (d e m n : TextMap)
    → map_fields (codes "env") d ++ map_fields (codes "input") m
      ≡ map_fields (codes "env") e ++ map_fields (codes "input") n
    → (d ≡ e) × (m ≡ n)
map_fields-injective [] [] m n h = (refl, input_fields-injective m n h)
map_fields-injective [] ((l, w) ∷ e) [] n h = absurd (ground arith)
map_fields-injective [] ((l, w) ∷ e) ((k, v) ∷ m) n h = absurd (ground arith)
map_fields-injective ((k, v) ∷ d) [] m [] h = absurd (ground arith)
map_fields-injective ((k, v) ∷ d) [] m ((l, w) ∷ n) h = absurd (ground arith)
map_fields-injective ((k, v) ∷ d) ((l, w) ∷ e) m n h = ground (arith, map_fields-injective d e m n)

body_fields-injective :
    (a b : List Bytes) (d e m n : TextMap)
    → body_fields a d m ≡ body_fields b e n
    → (a ≡ b) × (d ≡ e) × (m ≡ n)
body_fields-injective [] [] d e m n h = ground (arith, map_fields-injective d e m n h)
body_fields-injective [] (y ∷ b) [] e [] n h = absurd (ground arith)
body_fields-injective [] (y ∷ b) [] e ((k, v) ∷ m) n h = absurd (ground arith)
body_fields-injective [] (y ∷ b) ((k, v) ∷ d) e m n h = absurd (ground arith)
body_fields-injective (x ∷ a) [] d [] m [] h = absurd (ground arith)
body_fields-injective (x ∷ a) [] d [] m ((l, w) ∷ n) h = absurd (ground arith)
body_fields-injective (x ∷ a) [] d ((l, w) ∷ e) m n h = absurd (ground arith)
body_fields-injective (x ∷ a) (y ∷ b) d e m n h = ground (arith, body_fields-injective a b d e m n)

-- What two keys of equal payload share: every field, the working directory as it is shown.
pub record SameKey (root : FilePath) (a b : ActionKey) : Type 0 where
  pub same_builder : a.builder ≡ b.builder
  pub same_target : a.target ≡ b.target
  pub same_cwd : shown_cwd root a ≡ shown_cwd root b
  pub same_toolchain : a.toolchain_hash ≡ b.toolchain_hash
  pub same_argv : a.argv ≡ b.argv
  pub same_env : a.env ≡ b.env
  pub same_inputs : a.inputs ≡ b.inputs

-- The payload is unambiguous: two keys have one payload only if they agree on the builder, the
-- target, the shown working directory, the toolchain, every argument, the environment and every
-- input digest, whatever bytes these hold.
pub canonical_payload-injective :
    (root : FilePath) (a b : ActionKey)
    → canonical_payload root a ≡ canonical_payload root b
    → SameKey root a b
canonical_payload-injective root a b e =
    let fields : key_fields root a ≡ key_fields root b =
      encode-injective (key_fields root a) (key_fields root b) (key_fields-IsTagged root a)
        (key_fields-IsTagged root b)
        (sym (canonical_payload-encode root a) ∙ e ∙ canonical_payload-encode root b) in
    let bodies : body_fields a.argv a.env a.inputs ≡ body_fields b.argv b.env b.inputs = cc in
    let (args, env, inputs) =
      body_fields-injective a.argv b.argv a.env b.env a.inputs b.inputs bodies in
    record {
      same_builder = cc;
      same_target = cc;
      same_cwd = cc;
      same_toolchain = cc;
      same_argv = args;
      same_env = env;
      same_inputs = inputs;
    }
