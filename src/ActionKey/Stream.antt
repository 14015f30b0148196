-- ===== src/ActionKey/Stream.antt =====
-- crates/frostbuild-exec/src/lib.rs: the key as it is streamed into BLAKE3, field by field.
-- BLAKE3 is a parameter: a state that bytes are fed to, in any number of pieces.
use frostbuild.Base.{
  ℕ, zero, suc, ◌<◌, ◌^◌, ◌≡◌, ap, ◌∙◌, List, [], ◌∷◌, ◌++◌, All, arith, length, append_assoc,
  append-nil,
}
use native.Mathlib.Nat.{pow-suc}
use frostbuild.Base.Text.{codes}
use frostbuild.ActionKey.{
  Bytes, TextMap, FilePath, ActionKey, digits_onto, decimal, shown_cwd, canonical_payload,
}
use frostbuild.ActionKey.Digits.{digits_onto-fuel}
use frostbuild.ActionKey.Fields.{field}
use frostbuild.ActionKey.Payload.{
  encode, encode-append, arg_fields, map_fields, canonical_payload-encode,
}

pub record Hasher : Type 1 where
  pub State : Type 0
  pub new : State
  pub update : State → Bytes → State
  pub finalize : State → Bytes
  -- An incremental hash depends on the bytes alone, and not on where they were cut.
  pub update-append : (s : State) (a b : Bytes) → update (update s a) b ≡ update s (a ++ b)

-- A length that a 64-bit `usize` holds.
abbrev pub Fits : Bytes → Type 0
Fits value = length value < 2 ^ 64

abbrev pub FitsMap : TextMap → Type 0
FitsMap m = All (λ (e : Bytes × Bytes). Fits e.0 × Fits e.1) m

lt-pow_ten : (n : ℕ) → n < 10 ^ suc n
lt-pow_ten zero = omega arith
lt-pow_ten (suc n) = let e = pow-suc 10 (suc n) in omega (arith, lt-pow_ten n)

digits_in_buffer : (n : ℕ) → n < 2 ^ 64 → digits_onto 20 n [] ≡ decimal n
unfolding decimal
digits_in_buffer n h = digits_onto-fuel 19 n n [] (omega arith) (lt-pow_ten n)

module _ (h : Hasher) where
  open h use {State, new as start, update, finalize, update-append}

  -- `ActionKey::digest`
  unfoldable pub digest : FilePath → ActionKey → Bytes
  digest root a = finalize (update start (canonical_payload root a))

  -- The 20 places of `digits` are the rounds of the loop.
  unfoldable pub update_key_field : State → Bytes → Bytes → State
  update_key_field s key value =
      let s1 = update (update s key) (0 ∷ []) in
      let s2 = update (update s1 (digits_onto 20 (length value) [])) (0 ∷ []) in
      update (update s2 value) (0 ∷ [])

  unfoldable pub update_args : State → List Bytes → State
  update_args s [] = s
  update_args s (arg ∷ argv) = update_args (update_key_field s (codes "argv") arg) argv

  unfoldable pub update_map : Bytes → State → TextMap → State
  update_map tag s [] = s
  update_map tag s ((key, value) ∷ m) =
      update_map tag (update_key_field (update_key_field s tag key) tag value) m

  unfoldable pub streamed_action_key :
      (builder target : Bytes) (argv : List Bytes) (cwd toolchain_hash : Bytes)
      (env inputs : TextMap)
      → Bytes
  streamed_action_key builder target argv cwd toolchain_hash env inputs =
      let s1 = update_key_field start (codes "schema") (codes "frost-action-key-v2") in
      let s2 = update_key_field s1 (codes "builder") builder in
      let s3 = update_key_field s2 (codes "target") target in
      let s4 = update_key_field s3 (codes "cwd") cwd in
      let s5 = update_key_field s4 (codes "toolchain") toolchain_hash in
      let s6 = update_args s5 argv in
      let s7 = update_map (codes "env") s6 env in finalize (update_map (codes "input") s7 inputs)

  update_key_field-field :
      (s : State) (done key value : Bytes)
      → Fits value
      → update_key_field (update s done) key value ≡ update s (done ++ field key value)
  unfolding update_key_field field
  update_key_field-field s done key value fits =
      simp (update-append, digits_in_buffer (length value) fits, append_assoc)

  update_args-encode :
      (s : State) (done : Bytes) (argv : List Bytes)
      → All Fits argv
      → update_args (update s done) argv ≡ update s (done ++ encode (arg_fields argv))
  unfolding update_args
  update_args-encode s done [] f = rw append-nil
  update_args-encode s done (a ∷ argv) f =
      ap (λ t. update_args t argv) (update_key_field-field s done (codes "argv") a f.0)
      ∙ update_args-encode s (done ++ field (codes "argv") a) argv f.1
      ∙ ap (update s) (append_assoc done (field (codes "argv") a) (encode (arg_fields argv)))

  update_map-encode :
      (tag : Bytes) (s : State) (done : Bytes) (m : TextMap)
      → FitsMap m
      → update_map tag (update s done) m ≡ update s (done ++ encode (map_fields tag m))
  unfolding update_map
  update_map-encode tag s done [] f = rw append-nil
  update_map-encode tag s done ((k, v) ∷ m) f =
      ap (λ t. update_map tag (update_key_field t tag v) m)
        (update_key_field-field s done tag k f.0.0)
      ∙ ap (λ t. update_map tag t m) (update_key_field-field s (done ++ field tag k) tag v f.0.1)
      ∙ update_map-encode tag s ((done ++ field tag k) ++ field tag v) m f.1
      ∙ ap (update s) (simp append_assoc)

  first_field :
      (s : State) (key value : Bytes)
      → Fits value
      → update_key_field s key value ≡ update s (field key value)
  unfolding update_key_field field
  first_field s key value fits =
      simp (update-append, digits_in_buffer (length value) fits, append_assoc)

  next_field :
      {t s : State} (done key value : Bytes)
      → t ≡ update s done
      → Fits value
      → update_key_field t key value ≡ update s (done ++ field key value)
  next_field {t} {s} done key value e fits =
      ap (λ u. update_key_field u key value) e ∙ update_key_field-field s done key value fits

  -- Streaming gives the digest of the canonical payload, for a key whose texts have 64-bit lengths:
  -- the two crates compute one action key.
  pub streamed_action_key-digest :
      (root : FilePath) (a : ActionKey)
      → Fits a.builder
      → Fits a.target
      → Fits (shown_cwd root a)
      → Fits a.toolchain_hash
      → All Fits a.argv
      → FitsMap a.env
      → FitsMap a.inputs
      → streamed_action_key a.builder a.target a.argv
          (shown_cwd root a)
          a.toolchain_hash
          a.env
          a.inputs
        ≡ digest root a
  unfolding streamed_action_key digest
  streamed_action_key-digest root a fb ft fc fh fa fe fi =
      let v : Bytes = codes "frost-action-key-v2" in
      let c = shown_cwd root a in
      let e1 = first_field start (codes "schema") v (omega arith) in
      let e2 = next_field (field (codes "schema") v) (codes "builder") a.builder e1 fb in
      let e3 = next_field _ (codes "target") a.target e2 ft in
      let e4 = next_field _ (codes "cwd") c e3 fc in
      let e5 = next_field _ (codes "toolchain") a.toolchain_hash e4 fh in
      let e6 = ap (λ t. update_args t a.argv) e5 ∙ update_args-encode start _ a.argv fa in
      let e7 =
        ap (λ t. update_map (codes "env") t a.env) e6
        ∙ update_map-encode (codes "env") start _ a.env fe in
      let e8 =
        ap (λ t. update_map (codes "input") t a.inputs) e7
        ∙ update_map-encode (codes "input") start _ a.inputs fi in
      ap finalize
        (e8 ∙ ap (update start) (simp (canonical_payload-encode, encode-append, append_assoc)))
