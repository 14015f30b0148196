-- ===== src/Base/BTreeMap.antt =====
-- Rust's `BTreeMap`: an association list that `insert` keeps in the order of its keys.
use Prim.Native.Nat.{Ordering}
use mathlib.Core.Path.{◌≡◌, refl, sym, ap, ◌∙◌, subst}
use mathlib.Core.Logic.{◌≢◌}
use mathlib.Core.Bool.{Bool, true, false}
use mathlib.Core.List.{List, [], ◌∷◌, ◌++◌}
use mathlib.Core.Option.{Option, none, some}
use native.Mathlib.Omega.{arith}
use frostbuild.Base.Order.{Order}

abbrev pub BTreeMap {ℓ κ} : Type ℓ → Type κ → Type (ℓ ⊔ κ)
BTreeMap K V = List (K × V)

module _ {ℓ κ} {K : Type ℓ} {V : Type κ} ⦃o : Order K⦄ where
  unfoldable pub lookup : K → BTreeMap K V → Option V
  lookup k [] = none
  lookup k ((j, w) ∷ m) = elim (o.cmp k j) [ Ordering.eq ↦ some w | _ ↦ lookup k m ]

  unfoldable pub insert : K → V → BTreeMap K V → BTreeMap K V
  insert k v [] = (k, v) ∷ []
  insert k v ((j, w) ∷ m) = elim (o.cmp k j) [
    | Ordering.lt ↦ (k, v) ∷ (j, w) ∷ m
    | Ordering.eq ↦ (k, v) ∷ m
    | Ordering.gt ↦ (j, w) ∷ insert k v m
  ]

  unfoldable pub contains_key : K → BTreeMap K V → Bool
  unfolding lookup
  contains_key k m = elim (lookup k m) [ none ↦ false | some _ ↦ true ]

  -- Every key of the map lies above `k`.
  abbrev pub Above : K → BTreeMap K V → Type (ℓ ⊔ κ)
  Above k [] = Unit
  Above k ((j, w) ∷ m) = (o.cmp k j ≡ Ordering.lt) × Above k m

  abbrev pub IsSorted : BTreeMap K V → Type (ℓ ⊔ κ)
  IsSorted [] = Unit
  IsSorted ((k, v) ∷ m) = Above k m × IsSorted m

  pub lookup-nil : (k : K) → lookup k [] ≡ none
  unfolding lookup
  lookup-nil k = refl

  pub lookup-insert_self : (k : K) (v : V) (m : BTreeMap K V) → lookup k (insert k v m) ≡ some v
  unfolding lookup insert
  lookup-insert_self k v [] = ground (arith, o.cmp_refl k)
  lookup-insert_self k v ((j, w) ∷ m) = ground (arith, o.cmp_refl k, lookup-insert_self k v m)

  pub lookup-insert_ne :
      (k j : K) (v : V) (m : BTreeMap K V) → j ≢ k → lookup j (insert k v m) ≡ lookup j m
  unfolding lookup insert
  lookup-insert_ne k j v [] ne = ground (arith, o.cmp_eq j k)
  lookup-insert_ne k j v ((i, w) ∷ m) ne =
      ground (arith, o.cmp_eq j k, o.cmp_eq k i, lookup-insert_ne k j v m ne)

  -- Sortedness survives an insert.
  Above-insert :
      (j k : K) (v : V) (m : BTreeMap K V)
      → o.cmp j k ≡ Ordering.lt
      → Above j m
      → Above j (insert k v m)
  unfolding insert
  Above-insert j k v [] h a = (h, tt)
  Above-insert j k v ((i, w) ∷ m) h a = ground (arith, Above-insert j k v m)

  Above-trans : (j k : K) (m : BTreeMap K V) → o.cmp j k ≡ Ordering.lt → Above k m → Above j m
  Above-trans j k [] h a = tt
  Above-trans j k ((i, w) ∷ m) h a = (o.cmp_trans j k i h a.0, Above-trans j k m h a.1)

  pub insert-IsSorted : (k : K) (v : V) (m : BTreeMap K V) → IsSorted m → IsSorted (insert k v m)
  unfolding insert
  insert-IsSorted k v [] s = (tt, tt)
  insert-IsSorted k v ((j, w) ∷ m) s = ground (
    arith,
    Above-trans k j m,
    o.cmp_eq k j,
    Above-insert j k v m,
    o.cmp_gt k j,
    insert-IsSorted k v m,
  )

  -- Inserts under different keys commute.
  pub insert_comm :
      (k j : K) (v w : V) (m : BTreeMap K V)
      → k ≢ j
      → insert k v (insert j w m) ≡ insert j w (insert k v m)
  unfolding insert
  insert_comm k j v w [] ne = ground (arith, o.cmp_eq k j, o.cmp_lt k j, o.cmp_gt k j)
  insert_comm k j v w ((i, u) ∷ m) ne = ground (
    arith,
    o.cmp_eq k j,
    o.cmp_lt k j,
    o.cmp_gt k j,
    o.cmp_eq k i,
    o.cmp_eq j i,
    o.cmp_refl k,
    o.cmp_refl j,
    o.cmp_gt k i,
    o.cmp_gt j i,
    o.cmp_trans k i j,
    o.cmp_trans j i k,
    insert_comm k j v w m ne,
  )

  Above-append :
      (j k : K) (v : V) (l m : BTreeMap K V) → Above j (l ++ (k, v) ∷ m) → o.cmp j k ≡ Ordering.lt
  Above-append j k v [] m a = a.0
  Above-append j k v ((i, w) ∷ l) m a = Above-append j k v l m a.1

  -- An entry behind all others goes to the end.
  pub insert-snoc :
      (k : K) (v : V) (l m : BTreeMap K V)
      → IsSorted (l ++ (k, v) ∷ m)
      → insert k v l ≡ l ++ (k, v) ∷ []
  unfolding insert
  insert-snoc k v [] m s = refl
  insert-snoc k v ((j, w) ∷ l) m s =
      ground (arith, Above-append j k v l m s.0, o.cmp_lt j k, insert-snoc k v l m s.1)

  unfoldable pub remove : K → BTreeMap K V → BTreeMap K V
  remove k [] = []
  remove k ((j, w) ∷ m) =
      let rest = remove k m in elim (o.cmp k j) [ Ordering.eq ↦ rest | _ ↦ (j, w) ∷ rest ]

  pub lookup-remove_self : (k : K) (m : BTreeMap K V) → lookup k (remove k m) ≡ none
  unfolding lookup remove
  lookup-remove_self k [] = refl
  lookup-remove_self k ((j, w) ∷ m) = ground (arith, lookup-remove_self k m)

  pub lookup-remove_ne : (k j : K) (m : BTreeMap K V) → j ≢ k → lookup j (remove k m) ≡ lookup j m
  unfolding lookup remove
  lookup-remove_ne k j [] ne = refl
  lookup-remove_ne k j ((i, w) ∷ m) ne =
      ground (arith, o.cmp_eq j i, o.cmp_eq k i, lookup-remove_ne k j m ne)

  pub lookup-Above : (k : K) (m : BTreeMap K V) → Above k m → lookup k m ≡ none
  unfolding lookup
  lookup-Above k [] a = refl
  lookup-Above k ((j, w) ∷ m) a = ground (arith, lookup-Above k m a.1)

  pub lookup-cons_self : (k : K) (v : V) (m : BTreeMap K V) → lookup k ((k, v) ∷ m) ≡ some v
  unfolding lookup
  lookup-cons_self k v m = ground (arith, o.cmp_refl k)

  pub lookup-cons_ne :
      (k j : K) (v : V) (m : BTreeMap K V) → j ≢ k → lookup j ((k, v) ∷ m) ≡ lookup j m
  unfolding lookup
  lookup-cons_ne k j v m ne = ground (arith, o.cmp_eq j k)

  head_found :
      (k : K) (v : V) (m n : BTreeMap K V)
      → ((j : K) → lookup j ((k, v) ∷ m) ≡ lookup j n)
      → Above k n
      → ⊥
  head_found k v m n h a = cc (sym (lookup-cons_self k v m) ∙ h k ∙ lookup-Above k n a)

  tails_agree :
      (k : K) (v w : V) (m n : BTreeMap K V)
      → Above k m
      → Above k n
      → ((j : K) → lookup j ((k, v) ∷ m) ≡ lookup j ((k, w) ∷ n))
      → (j : K) → lookup j m ≡ lookup j n
  tails_agree k v w m n a b h j = go (o.cmp j k) refl
    where
      apart : (t : Ordering) → o.cmp j k ≡ t → t ≢ Ordering.eq → j ≢ k
      apart t e ne same = ne (sym e ∙ ap (λ i. o.cmp i k) same ∙ o.cmp_refl k)

      elsewhere : j ≢ k → lookup j m ≡ lookup j n
      elsewhere ne = sym (lookup-cons_ne k j v m ne) ∙ h j ∙ lookup-cons_ne k j w n ne

      go : (t : Ordering) → o.cmp j k ≡ t → lookup j m ≡ lookup j n
      go Ordering.eq e =
          subst (λ i. lookup i m ≡ lookup i n) (sym (o.cmp_eq j k e))
            (lookup-Above k m a ∙ sym (lookup-Above k n b))
      go Ordering.lt e = elsewhere (apart Ordering.lt e (λ q. absurd (cc (q))))
      go Ordering.gt e = elsewhere (apart Ordering.gt e (λ q. absurd (cc (q))))

  heads_agree :
      (k l : K) (v w : V) (m n : BTreeMap K V)
      → IsSorted ((k, v) ∷ m)
      → IsSorted ((l, w) ∷ n)
      → ((j : K) → lookup j ((k, v) ∷ m) ≡ lookup j ((l, w) ∷ n))
      → (((j : K) → lookup j m ≡ lookup j n) → m ≡ n)
      → (k, v) ∷ m ≡ (l, w) ∷ n
  heads_agree k l v w m n s t h tails = go (o.cmp k l) refl
    where
      go : (c : Ordering) → o.cmp k l ≡ c → (k, v) ∷ m ≡ (l, w) ∷ n
      go Ordering.lt e = absurd (head_found k v m ((l, w) ∷ n) h (e, Above-trans k l n e t.0))
      go Ordering.gt e =
          let f = o.cmp_gt k l e in
          absurd (head_found l w n ((k, v) ∷ m) (λ j. sym (h j)) (f, Above-trans l k m f s.0))
      go Ordering.eq e =
          let same : k ≡ l = o.cmp_eq k l e in
          let above : Above k n = subst (λ i. Above i n) (sym same) t.0 in
          let agree : (j : K) → lookup j ((k, v) ∷ m) ≡ lookup j ((k, w) ∷ n) =
            λ j. h j ∙ ap (λ i. lookup j ((i, w) ∷ n)) (sym same) in
          let value : some v ≡ some w =
            sym (lookup-cons_self k v m) ∙ agree k ∙ lookup-cons_self k w n in
          cc (same, value, tails (tails_agree k v w m n s.0 above agree))

  -- A sorted map is determined by its lookups.
  pub lookup_ext :
      (m n : BTreeMap K V) → IsSorted m → IsSorted n → ((k : K) → lookup k m ≡ lookup k n) → m ≡ n
  lookup_ext [] [] s t h = refl
  lookup_ext [] ((l, w) ∷ n) s t h = absurd (head_found l w n [] (λ j. sym (h j)) tt)
  lookup_ext ((k, v) ∷ m) [] s t h = absurd (head_found k v m [] h tt)
  lookup_ext ((k, v) ∷ m) ((l, w) ∷ n) s t h =
      heads_agree k l v w m n s t h (λ h2. lookup_ext m n s.1 t.1 h2)
