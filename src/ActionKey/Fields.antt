-- ===== src/ActionKey/Fields.antt =====
-- One field of the payload, read back: its key, its value and what follows.
use frostbuild.Base.{◌<◌, ◌≡◌, refl, [], ◌∷◌, ◌++◌, All, arith, length, append_assoc}
use frostbuild.ActionKey.{Bytes, decimal, write_field}
use frostbuild.ActionKey.Digits.{decimal-injective, decimal-positive}

-- No byte is NUL.
abbrev pub NulFree : Bytes → Type 0
NulFree b = All (λ c. 0 < c) b

unfoldable pub field : Bytes → Bytes → Bytes
field key value = key ++ (0 ∷ (decimal (length value) ++ (0 ∷ (value ++ (0 ∷ [])))))

pub write_field-field :
    (payload key value : Bytes) → write_field payload key value ≡ payload ++ field key value
unfolding write_field field
write_field-field payload key value = refl

cut_nul :
    (xs ys : Bytes) {us vs : Bytes}
    → NulFree xs
    → NulFree ys
    → xs ++ 0 ∷ us ≡ ys ++ 0 ∷ vs
    → (xs ≡ ys) × (us ≡ vs)
cut_nul [] [] hx hy e = (refl, cc)
cut_nul [] (y ∷ ys) hx hy e = absurd (ground arith)
cut_nul (x ∷ xs) [] hx hy e = absurd (ground arith)
cut_nul (x ∷ xs) (y ∷ ys) {us} {vs} hx hy e =
    ground (arith, cut_nul xs ys {us = us} {vs = vs} hx.1 hy.1)

cut_length :
    (xs ys : Bytes) {us vs : Bytes}
    → length xs ≡ length ys
    → xs ++ us ≡ ys ++ vs
    → (xs ≡ ys) × (us ≡ vs)
cut_length [] [] h e = (refl, e)
cut_length [] (y ∷ ys) h e = absurd (omega arith)
cut_length (x ∷ xs) [] h e = absurd (omega arith)
cut_length (x ∷ xs) (y ∷ ys) {us} {vs} h e = ground (arith, cut_length xs ys {us = us} {vs = vs})

-- Two payloads that begin with a field agree on it and on the rest: the length tells where the
-- value ends, whatever bytes it holds.
pub field-injective :
    (k l v w : Bytes) {us vs : Bytes}
    → NulFree k
    → NulFree l
    → field k v ++ us ≡ field l w ++ vs
    → (k ≡ l) × (v ≡ w) × (us ≡ vs)
unfolding field
field-injective k l v w {us} {vs} hk hl e =
    let flat = simp append_assoc at e in
    let (same_key, e1) = cut_nul k l hk hl flat in
    let (same_len, e2) =
      cut_nul (decimal (length v)) (decimal (length w)) (decimal-positive (length v))
        (decimal-positive (length w)) e1 in
    let (same_value, e3) = cut_length v w (decimal-injective (length v) (length w) same_len) e2 in
    (same_key, same_value, cc)
