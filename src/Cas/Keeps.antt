-- ===== src/Cas/Keeps.antt =====
-- What the operations on the store preserve, rule by rule.
use frostbuild.Base.{
  Bool, true, false, Option, some, none, ◌≡◌, refl, inl, inr, subst, arith, Result-cases,
  if◌then◌else◌,
}
use frostbuild.Base.Text.{Text, text_eq, text_eq_iff}
use frostbuild.Cas.{Bytes, Packages, Disk, CasError, Io, ◌>>=◌, pure, fail, expect, let_some}
use frostbuild.Cas.Deltas.{verify_sha256}

-- Where the predicate holds, it still holds behind the operation.
abbrev pub Keeps : (Disk → Type 0) → {A : Type 0} → Io A → Type 0
Keeps P m = (d : Disk) → P d → P (m d).1

module _ (P : Disk → Type 0) where
  pub >>=-Keeps :
      {A B : Type 0} (m : Io A) (f : A → Io B)
      → Keeps P m
      → ((a : A) → Keeps P (f a))
      → Keeps P (m >>= f)
  >>=-Keeps m f keeps next d h = elim (Result-cases (m d).0) [
    | inl (a, e) ↦
        let run : (f a (m d).1).1 ≡ ((m >>= f) d).1 = ground arith in
        subst P run (next a (m d).1 (keeps d h))
    | inr (failure, e) ↦
        let run : (m d).1 ≡ ((m >>= f) d).1 = ground arith in subst P run (keeps d h)
  ]

  pub pure-Keeps : {A : Type 0} (a : A) → Keeps P (pure a)
  pure-Keeps a d h = h

  pub fail-Keeps : (A : Type 0) (e : CasError) → Keeps P (fail {A = A} e)
  fail-Keeps A e d h = h

  pub expect-Keeps : {A : Type 0} (e : CasError) (o : Option A) → Keeps P (expect e o)
  expect-Keeps e none d h = h
  expect-Keeps e (some a) d h = h

  pub if-Keeps :
      {A : Type 0} (b : Bool) (m n : Io A) → Keeps P m → Keeps P n → Keeps P (if b then m else n)
  if-Keeps true m n h k = h
  if-Keeps false m n h k = k

  pub let_some-Keeps :
      {A B : Type 0} (o : Option A) (otherwise : Io B) (rest : A → Io B)
      → Keeps P otherwise
      → ((a : A) → Keeps P (rest a))
      → Keeps P (let_some o otherwise rest)
  let_some-Keeps none otherwise rest h k = h
  let_some-Keeps (some a) otherwise rest h k = k a

  -- Bytes that were checked have the digest.
  pub verified-Keeps :
      {B : Type 0} (p : Packages) (bytes : Bytes) (expected : Text) (otherwise : Io B)
      (rest : Bytes → Io B)
      → Keeps P otherwise
      → ((v : Bytes) → p.sha256 v ≡ expected → Keeps P (rest v))
      → Keeps P (let_some (verify_sha256 p bytes expected) otherwise rest)
  unfolding verify_sha256
  verified-Keeps p bytes expected otherwise rest h k =
      go (text_eq (p.sha256 bytes) expected) (text_eq_iff (p.sha256 bytes) expected).0
    where
      go :
          (b : Bool)
          → (b ≡ true → p.sha256 bytes ≡ expected)
          → Keeps P (let_some (if b then some bytes else none) otherwise rest)
      go true same = k bytes (same refl)
      go false same = h

pub ruleset keeping =
    (>>=-Keeps, pure-Keeps, fail-Keeps, expect-Keeps, if-Keeps, let_some-Keeps, verified-Keeps)
