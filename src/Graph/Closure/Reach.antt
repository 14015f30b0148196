-- ===== src/Graph/Closure/Reach.antt =====
-- The loop over a stack selects exactly what can be reached from the roots, and ends in time.
use frostbuild.Base.{
  ℕ, zero, suc, ◌+◌, List, [], ◌∷◌, Option, some, length, In, ◌≡◌, ◌⊎◌, ◌↔◌, inl, inr, refl, sym,
  ap, subst, ◌∙◌, arith, Option-cases, Bool-cases, eq_of_some,
}
use frostbuild.Base.Order.{Order}
use frostbuild.Base.BTreeMap.{insert, contains_key}
use frostbuild.Base.BTreeSet.{BTreeSet, keys, contains_key_iff, In-keys-insert}
use frostbuild.Graph.Closure.{extend, reached, reach}

pub In-extend :
    {A : Type 0} (a : A) (more stack : List A) → In a (extend more stack) ↔ (In a more ⊎ In a stack)
In-extend a [] stack = ground arith
In-extend a (b ∷ more) stack = ground (arith, In-extend a more (b ∷ stack))

pub length-extend :
    {A : Type 0} (more stack : List A) → length (extend more stack) ≡ length more + length stack
length-extend [] stack = omega arith
length-extend (b ∷ more) stack = omega (arith, length-extend more (b ∷ stack))

reached_injective : {K : Type 0} {s t : BTreeSet K} → reached s ≡ reached t → s ≡ t
reached_injective e = cc

module _ {K : Type 0} ⦃o : Order K⦄ (next : K → Option (List K)) where
  -- What can be reached from the roots by `next`.
  pub data Reachable (roots : List K) : K → Type 0 where
    root : (a : K) → In a roots → Reachable roots a
    step :
        (a b : K) (more : List K)
        → Reachable roots a
        → next a ≡ some more
        → In b more
        → Reachable roots b

  -- The loop's invariant.
  pub record IsExploring (roots stack : List K) (seen : BTreeSet K) : Type 0 where
    pub seen_reachable : (a : K) → In a (keys seen) → Reachable roots a
    pub stack_reachable : (a : K) → In a stack → Reachable roots a
    pub roots_in : (a : K) → In a roots → In a (keys seen) ⊎ In a stack
    pub closed :
        (a b : K) (more : List K)
        → In a (keys seen)
        → next a ≡ some more
        → In b more
        → In b (keys seen) ⊎ In b stack

  skip-IsExploring :
      (roots stack : List K) (seen : BTreeSet K) (a : K)
      → In a (keys seen)
      → IsExploring roots (a ∷ stack) seen
      → IsExploring roots stack seen
  skip-IsExploring roots stack seen a m e = record {
    seen_reachable = e.seen_reachable;
    stack_reachable = λ b n. e.stack_reachable b (inr n);
    roots_in = λ b n. drop_head b (e.roots_in b n);
    closed = λ b c more n f i. drop_head c (e.closed b c more n f i);
  }
    where
      drop_head : (b : K) → In b (keys seen) ⊎ In b (a ∷ stack) → In b (keys seen) ⊎ In b stack
      drop_head b (inl n) = inl n
      drop_head b (inr (inl q)) = inl (subst (λ k. In k (keys seen)) (sym q) m)
      drop_head b (inr (inr n)) = inr n

  go-IsExploring :
      (roots stack more : List K) (seen : BTreeSet K) (a : K)
      → next a ≡ some more
      → IsExploring roots (a ∷ stack) seen
      → IsExploring roots (extend more stack) (insert a tt seen)
  go-IsExploring roots stack more seen a f e = record {
    seen_reachable = λ b n. elim ((In-keys-insert b a tt seen).0 n) [
      | inl q ↦ e.stack_reachable b (inl q)
      | inr n ↦ e.seen_reachable b n
    ];
    stack_reachable = λ b n. elim ((In-extend b more stack).0 n) [
      | inl i ↦ step a b more (e.stack_reachable a (inl refl)) f i
      | inr i ↦ e.stack_reachable b (inr i)
    ];
    roots_in = λ b n. move b (e.roots_in b n);
    closed = λ b c more' n f' i. elim ((In-keys-insert b a tt seen).0 n) [
      | inl q ↦
          let same : more' ≡ more = eq_of_some (sym f' ∙ ap next q ∙ f) in
          inr ((In-extend c more stack).1 (inl (subst (In c) same i)))
      | inr n ↦ move c (e.closed b c more' n f' i)
    ];
  }
    where
      move :
          (b : K)
          → In b (keys seen) ⊎ In b (a ∷ stack)
          → In b (keys (insert a tt seen)) ⊎ In b (extend more stack)
      move b (inl n) = inl ((In-keys-insert b a tt seen).1 (inr n))
      move b (inr (inl q)) = inl ((In-keys-insert b a tt seen).1 (inl q))
      move b (inr (inr n)) = inr ((In-extend b more stack).1 (inr n))

  pub reach-IsExploring :
      (fuel : ℕ) (roots stack : List K) (seen out : BTreeSet K)
      → IsExploring roots stack seen
      → reach next fuel stack seen ≡ reached out
      → IsExploring roots [] out
  unfolding reach
  reach-IsExploring zero roots stack seen out e h = cc
  reach-IsExploring (suc fuel) roots [] seen out e h =
      subst (IsExploring roots []) (reached_injective h) e
  reach-IsExploring (suc fuel) roots (a ∷ stack) seen out e h =
      elim (Bool-cases (contains_key a seen)) [
        | inl c ↦
            reach-IsExploring fuel roots stack seen out
              (skip-IsExploring roots stack seen a ((contains_key_iff a seen).0 c) e) (ground arith)
        | inr c ↦ elim (Option-cases (next a)) [
          | inl f ↦ absurd (ground arith)
          | inr (more, f) ↦
              reach-IsExploring fuel roots (extend more stack) (insert a tt seen) out
                (go-IsExploring roots stack more seen a f e) (ground arith)
        ]
      ]
