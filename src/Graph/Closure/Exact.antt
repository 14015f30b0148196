-- ===== src/Graph/Closure/Exact.antt =====
-- With the fuel that the closures give it, the loop ends.
use frostbuild.Base.{
  ℕ, zero, suc, ◌+◌, ◌<◌, ◌≤◌, Bool, true, false, List, [], ◌∷◌, Option, some, none, length, In,
  ◌≡◌, ◌↔◌, inl, inr, refl, sym, ap, ◌∙◌, arith, Bool-cases,
}
use frostbuild.Base.Order.{Order}
use frostbuild.Base.Text.{text_order}
use frostbuild.Base.BTreeMap.{lookup, insert, contains_key}
use frostbuild.Base.BTreeSet.{BTreeSet, keys, contains_key_iff, In-keys-insert}
use frostbuild.Graph.Closure.{extend, reached, reach, edges}
use frostbuild.Graph.Closure.Reach.{
  In-extend, length-extend, Reachable, root, step, IsExploring, reach-IsExploring,
}

module _ {K : Type 0} ⦃o : Order K⦄ (next : K → Option (List K)) where
  -- The edges that leave the nodes not selected yet.
  abbrev degree : Option (List K) → ℕ
  degree none = 0
  degree (some more) = length more

  abbrev left_over : Bool → ℕ → ℕ
  left_over true n = 0
  left_over false n = n

  abbrev unseen : List K → BTreeSet K → ℕ
  unseen [] seen = 0
  unseen (a ∷ nodes) seen = left_over (contains_key a seen) (degree (next a)) + unseen nodes seen

  contains_key-insert :
      (a b : K) (seen : BTreeSet K)
      → contains_key b seen ≡ true
      → contains_key b (insert a tt seen) ≡ true
  contains_key-insert a b seen h =
      (contains_key_iff b (insert a tt seen)).1
        ((In-keys-insert b a tt seen).1 (inr ((contains_key_iff b seen).0 h)))

  contains_key-insert_self : (a : K) (seen : BTreeSet K) → contains_key a (insert a tt seen) ≡ true
  contains_key-insert_self a seen =
      (contains_key_iff a (insert a tt seen)).1 ((In-keys-insert a a tt seen).1 (inl refl))

  left_over-le : (b c : Bool) (n : ℕ) → (b ≡ true → c ≡ true) → left_over c n ≤ left_over b n
  left_over-le true true n h = omega arith
  left_over-le true false n h = absurd (cc (h refl))
  left_over-le false true n h = omega arith
  left_over-le false false n h = omega arith

  unseen-insert :
      (a : K) (nodes : List K) (seen : BTreeSet K)
      → unseen nodes (insert a tt seen) ≤ unseen nodes seen
  unseen-insert a [] seen = omega arith
  unseen-insert a (b ∷ nodes) seen = omega (
    arith,
    unseen-insert a nodes seen,
    left_over-le (contains_key b seen) (contains_key b (insert a tt seen)) (degree (next b))
        (contains_key-insert a b seen),
  )

  unseen-select :
      (a : K) (more nodes : List K) (seen : BTreeSet K)
      → In a nodes
      → contains_key a seen ≡ false
      → next a ≡ some more
      → length more + unseen nodes (insert a tt seen) ≤ unseen nodes seen
  unseen-select a more [] seen m h f = elim m [ ]
  unseen-select a more (b ∷ nodes) seen (inl e) h f =
      let gone : left_over (contains_key b (insert a tt seen)) (degree (next b)) ≡ 0 =
        ap (λ c. left_over c (degree (next b)))
          (ap (λ k. contains_key k (insert a tt seen)) (sym e) ∙ contains_key-insert_self a seen) in
      let there : left_over (contains_key b seen) (degree (next b)) ≡ length more =
        ap (λ c. left_over c (degree (next b))) (ap (λ k. contains_key k seen) (sym e) ∙ h)
        ∙ ap degree (ap next (sym e) ∙ f) in
      omega (arith, unseen-insert a nodes seen)
  unseen-select a more (b ∷ nodes) seen (inr m) h f = omega (
    arith,
    unseen-select a more nodes seen m h f,
    left_over-le (contains_key b seen) (contains_key b (insert a tt seen)) (degree (next b))
        (contains_key-insert a b seen),
  )

  unseen-nil : (nodes : List K) → unseen nodes [] ≡ edges next nodes
  unfolding edges contains_key lookup
  unseen-nil [] = refl
  unseen-nil (a ∷ nodes) = omega (arith, unseen-nil nodes, degree-next (next a))
    where
      degree-next : (m : Option (List K)) → degree m ≡ elim m [ none ↦ 0 | some more ↦ length more ]
      degree-next none = refl
      degree-next (some more) = refl

  -- Every node leads to nodes.
  abbrev pub IsUniverse : List K → Type 0
  IsUniverse nodes =
      (a : K)
      → In a nodes
      → (more : List K) × (next a ≡ some more) × ((b : K) → In b more → In b nodes)

  reach-ends :
      (nodes : List K) (fuel : ℕ) (stack : List K) (seen : BTreeSet K)
      → IsUniverse nodes
      → ((a : K) → In a stack → In a nodes)
      → length stack + unseen nodes seen < fuel
      → (out : BTreeSet K) × (reach next fuel stack seen ≡ reached out)
  unfolding reach
  reach-ends nodes zero stack seen u s c = absurd (omega arith)
  reach-ends nodes (suc fuel) [] seen u s c = (seen, refl)
  reach-ends nodes (suc fuel) (a ∷ stack) seen u s c = elim (Bool-cases (contains_key a seen)) [
    | inl e ↦
        let (out, h) = reach-ends nodes fuel stack seen u (λ b m. s b (inr m)) (omega arith) in
        (out, ground arith)
    | inr e ↦
        let (more, f, closed) = u a (s a (inl refl)) in
        let (out, h) =
          reach-ends nodes fuel (extend more stack) (insert a tt seen) u
            (λ b m. elim ((In-extend b more stack).0 m) [
              | inl i ↦ closed b i
              | inr i ↦ s b (inr i)
            ])
            (omega (
              arith,
              length-extend more stack,
              unseen-select a more nodes seen (s a (inl refl)) e f,
            )) in
        (out, ground arith)
  ]

  -- The whole loop, from an empty selection.
  pub reach-Reachable :
      (nodes stack : List K)
      → IsUniverse nodes
      → ((a : K) → In a stack → In a nodes)
      → (out : BTreeSet K) × (reach next (suc (length stack + edges next nodes)) stack []
          ≡ reached out)
        × ((a : K) → In a (keys out) ↔ Reachable next stack a)
  reach-Reachable nodes stack u s =
      let (out, h) =
        reach-ends nodes (suc (length stack + edges next nodes)) stack [] u s
          (omega (arith, unseen-nil nodes)) in
      let start : IsExploring next stack stack [] = record {
        seen_reachable = λ a m. elim m [ ];
        stack_reachable = λ a m. root a m;
        roots_in = λ a m. inr m;
        closed = λ a b more m f i. elim m [ ];
      } in
      let done =
        reach-IsExploring next (suc (length stack + edges next nodes)) stack stack [] out start h in
      (out, h, λ a. (done.seen_reachable a, selected stack out done a))
    where
      selected :
          (stack : List K) (out : BTreeSet K)
          → IsExploring next stack [] out
          → (a : K) → Reachable next stack a
          → In a (keys out)
      selected stack out e a (root _ m) = elim (e.roots_in a m) [ inl i ↦ i | inr i ↦ elim i [ ] ]
      selected stack out e a (step b _ more r f i) =
          elim (e.closed b a more (selected stack out e b r) f i) [ inl j ↦ j | inr j ↦ elim j [ ] ]
