-- ===== src/ActionKey.antt =====
-- crates/frostbuild-core/src/lib.rs: the action key and its canonical payload, and the same payload
-- as crates/frostbuild-exec/src/lib.rs streams it. Texts are UTF-8 bytes here, since the payload
-- writes their lengths in bytes. A path is the list of its components, the root's being empty.
pub mod Digits
pub mod Fields
pub mod Payload
pub mod Insertion
pub mod Stream
use Prim.Native.Nat.{bit_xor}
use frostbuild.Base.{
  ◌-◌, ltb, ℕ, zero, suc, ◌+◌, ◌*◌, ◌/◌, ◌%◌, ◌^◌, Bool, true, false, not, ◌&&◌, List, [], ◌∷◌,
  ◌++◌, map, Option, some, none, ◌==◌, if◌then◌else◌, length, is_empty,
}
use frostbuild.Base.Text.{Text, codes, text_eq, text_order}
use frostbuild.Base.Split.{join}
use frostbuild.Base.BTreeMap.{BTreeMap, insert}

abbrev pub Bytes : Type 0
Bytes = Text

abbrev pub TextMap : Type 0
TextMap = BTreeMap Bytes Bytes

-- `PathBuf` by its components.
abbrev pub FilePath : Type 0
FilePath = List Bytes

pub record ActionKey : Type 0 where
  pub builder : Bytes
  pub target : Bytes
  pub argv : List Bytes
  pub cwd : FilePath
  pub env : TextMap
  pub inputs : TextMap
  pub toolchain_hash : Bytes

unfoldable pub new : Bytes → Bytes → List Bytes → FilePath → Bytes → ActionKey
new builder target argv cwd toolchain_hash = record {
  builder = builder;
  target = target;
  argv = argv;
  cwd = cwd;
  env = [];
  inputs = [];
  toolchain_hash = toolchain_hash;
}

unfoldable pub with_env : Bytes → Bytes → ActionKey → ActionKey
with_env key value a = record a { env = insert key value a.env }

unfoldable pub with_input : Bytes → Bytes → ActionKey → ActionKey
with_input path digest a = record a { inputs = insert path digest a.inputs }

-- Decimal digits of `n` in front of `acc`: one round for each digit, so `suc n` rounds are enough.
unfoldable pub digits_onto : ℕ → ℕ → Bytes → Bytes
digits_onto zero n acc = acc
digits_onto (suc fuel) n acc =
    let acc' = (48 + n % 10) ∷ acc in
    let rest = digits_onto fuel (n / 10) acc' in if n / 10 == 0 then acc' else rest

-- `write!(payload, "{}", n)`
unfoldable pub decimal : ℕ → Bytes
unfolding digits_onto
decimal n = digits_onto (suc n) n []

unfoldable pub write_field : Bytes → Bytes → Bytes → Bytes
write_field payload key value =
    payload ++ (key ++ (0 ∷ (decimal (length value) ++ (0 ∷ (value ++ (0 ∷ []))))))

-- `Path::strip_prefix`
unfoldable pub strip_prefix : FilePath → FilePath → Option FilePath
strip_prefix [] path = some path
strip_prefix (r ∷ root) [] = none
strip_prefix (r ∷ root) (p ∷ path) = if text_eq r p then strip_prefix root path else none

-- `to_string_lossy().replace('\\', "/")`
unfoldable pub show_path : FilePath → Bytes
show_path ([] ∷ []) = codes "/"
show_path path = map (λ c. if c == b'\\' then b'/' else c) (join (codes "/") path)

unfoldable pub shown_cwd : FilePath → ActionKey → Bytes
unfolding strip_prefix show_path
shown_cwd root a = elim (strip_prefix root a.cwd) [
  | some path ↦ if is_empty path then codes "." else show_path path
  | none ↦ show_path a.cwd
]

-- The `for` loops over `argv` and over the two maps.
unfoldable pub write_args : Bytes → List Bytes → Bytes
write_args payload [] = payload
write_args payload (arg ∷ argv) = write_args (write_field payload (codes "argv") arg) argv

unfoldable pub write_map : Bytes → Bytes → TextMap → Bytes
write_map tag payload [] = payload
write_map tag payload ((key, value) ∷ m) =
    write_map tag (write_field (write_field payload tag key) tag value) m

unfoldable pub canonical_payload : FilePath → ActionKey → Bytes
canonical_payload root a =
    let p1 = write_field [] (codes "schema") (codes "frost-action-key-v2") in
    let p2 = write_field p1 (codes "builder") a.builder in
    let p3 = write_field p2 (codes "target") a.target in
    let p4 = write_field p3 (codes "cwd") (shown_cwd root a) in
    let p5 = write_field p4 (codes "toolchain") a.toolchain_hash in
    let p6 = write_args p5 a.argv in
    let p7 = write_map (codes "env") p6 a.env in write_map (codes "input") p7 a.inputs

-- `fnv1a64`, on 64-bit words.
unfoldable pub fnv1a64_from : ℕ → Bytes → ℕ
fnv1a64_from hash [] = hash
fnv1a64_from hash (byte ∷ bytes) =
    fnv1a64_from (bit_xor hash byte * 0x0000_0100_0000_01b3 % 2 ^ 64) bytes

unfoldable pub fnv1a64 : Bytes → ℕ
unfolding fnv1a64_from
fnv1a64 bytes = fnv1a64_from 0xcbf2_9ce4_8422_2325 bytes

-- `{:016x}`: the last `places` hexadecimal digits of a number, in front of `acc`.
abbrev pub hex_digit : ℕ → ℕ
hex_digit d = if ltb d 10 then b'0' + d else b'a' + (d - 10)

unfoldable pub hex_onto : ℕ → ℕ → Bytes → Bytes
hex_onto zero n acc = acc
hex_onto (suc places) n acc = hex_onto places (n / 16) (hex_digit (n % 16) ∷ acc)

unfoldable pub stable_id : FilePath → ActionKey → Bytes
stable_id root a = hex_onto 16 (fnv1a64 (canonical_payload root a)) []
