-- ===== src/Base/BTreeSet.antt =====
-- Rust's `BTreeSet`: a `BTreeMap` with no values.
use mathlib.Core.Path.{◌≡◌, refl}
use mathlib.Core.Logic.{◌↔◌, ◌⊎◌}
use mathlib.Core.Bool.{true}
use mathlib.Core.List.{List, [], ◌∷◌, ◌++◌}
use native.Mathlib.Omega.{arith}
use frostbuild.Base.Lists.{In}
use frostbuild.Base.Order.{Order}
use frostbuild.Base.BTreeMap.{BTreeMap, insert, contains_key}

abbrev pub BTreeSet {ℓ} : Type ℓ → Type ℓ
BTreeSet K = BTreeMap K (Unit {0})

abbrev pub keys {ℓ κ} : {K : Type ℓ} {V : Type κ} → BTreeMap K V → List K
keys [] = []
keys ((k, _) ∷ m) = k ∷ keys m

module _ {K : Type 0} ⦃o : Order K⦄ where
  abbrev pub insert_all : List K → BTreeSet K → BTreeSet K
  insert_all [] s = s
  insert_all (k ∷ ks) s = insert_all ks (insert k tt s)

  pub insert_all-append :
      (xs ys : List K) (s : BTreeSet K) → insert_all (xs ++ ys) s ≡ insert_all ys (insert_all xs s)
  insert_all-append [] ys s = refl
  insert_all-append (x ∷ xs) ys s = insert_all-append xs ys (insert x tt s)

  contains_key-keys :
      {V : Type 0} (k : K) (m : BTreeMap K V) → contains_key k m ≡ true → In k (keys m)
  unfolding contains_key
  contains_key-keys k [] h = absurd (ground arith)
  contains_key-keys k ((j, v) ∷ m) h = ground (arith, o.cmp_eq k j, contains_key-keys k m)

  keys-contains_key :
      {V : Type 0} (k : K) (m : BTreeMap K V) → In k (keys m) → contains_key k m ≡ true
  unfolding contains_key
  keys-contains_key k [] h = elim h [ ]
  keys-contains_key k ((j, v) ∷ m) h = ground (arith, o.cmp_refl k, keys-contains_key k m)

  pub contains_key_iff :
      {V : Type 0} (k : K) (m : BTreeMap K V) → (contains_key k m ≡ true) ↔ In k (keys m)
  contains_key_iff k m = (contains_key-keys k m, keys-contains_key k m)

  pub In-keys-insert :
      {V : Type 0} (j k : K) (v : V) (m : BTreeMap K V)
      → In j (keys (insert k v m)) ↔ ((j ≡ k) ⊎ In j (keys m))
  unfolding insert
  In-keys-insert j k v [] = ground arith
  In-keys-insert j k v ((i, w) ∷ m) = ground (arith, o.cmp_eq k i, In-keys-insert j k v m)

  pub In-keys-insert_all :
      (j : K) (ks : List K) (s : BTreeSet K)
      → In j (keys (insert_all ks s)) ↔ (In j ks ⊎ In j (keys s))
  In-keys-insert_all j [] s = ground arith
  In-keys-insert_all j (k ∷ ks) s =
      ground (arith, In-keys-insert_all j ks (insert k tt s), In-keys-insert j k tt s)
