-- ===== src/Graph/SharedSet/Preorder.antt =====
-- `flatten` lists what the recursive definition lists, each value once: skipping the nodes that were
-- visited loses nothing, as all their values are out.
use frostbuild.Base.{
  ℕ, zero, suc, ◌<◌, ◌≤◌, true, false, List, [], ◌∷◌, ◌++◌, some, All, get_elem?, ◌≡◌, ◌⊎◌, inl,
  inr, refl, sym, ap, ◌∙◌, subst, arith, Bool-cases, Option-cases,
}
use frostbuild.Base.Order.{nat_order}
use frostbuild.Base.Text.{Text, text_order}
use frostbuild.Base.BTreeMap.{insert, contains_key}
use frostbuild.Base.BTreeSet.{BTreeSet, contains_key_iff, In-keys-insert}
use frostbuild.Graph.Closure.{extend}
use frostbuild.Graph.SharedSet.{SharedSet, push_unseen, backwards, flatten_loop}
use frostbuild.Graph.SharedSet.Values.{
  IsLayered, each, preorder, preorder-found, Seen, push_unseen-append, push_unseen-keeps,
  push_unseen-covers, push_unseen-Seen,
}
use frostbuild.Graph.Build.Grown.{Below}

abbrev pub Acc : Type 0
Acc = List Text × BTreeSet Text

extend-append : (xs ys stack : List ℕ) → extend (xs ++ ys) stack ≡ extend ys (extend xs stack)
extend-append [] ys stack = refl
extend-append (x ∷ xs) ys stack = extend-append xs ys (x ∷ stack)

extend-backwards : (xs stack : List ℕ) → extend (backwards xs) stack ≡ xs ++ stack
extend-backwards [] stack = refl
extend-backwards (x ∷ xs) stack =
    extend-append (backwards xs) (x ∷ []) stack ∙ ap (λ s. x ∷ s) (extend-backwards xs stack)

-- All values of the node were seen.
abbrev Covered : List SharedSet → Acc → ℕ → Type 0
Covered sets acc node = All (Seen acc) (preorder sets node)

All-map :
    {A : Type 0} (P Q : A → Type 0) (xs : List A) → ((a : A) → P a → Q a) → All P xs → All Q xs
All-map P Q [] f h = tt
All-map P Q (x ∷ xs) f h = (f x h.0, All-map P Q xs f h.1)

Covered-keeps :
    (sets : List SharedSet) (values : List Text) (acc : Acc) (node : ℕ)
    → Covered sets acc node
    → Covered sets (push_unseen values acc) node
Covered-keeps sets values acc node h =
    All-map (Seen acc) (Seen (push_unseen values acc)) (preorder sets node)
      (push_unseen-keeps values acc) h

-- The nodes below the bound that were visited are covered.
abbrev IsCovering : List SharedSet → ℕ → BTreeSet ℕ → Acc → Type 0
IsCovering sets bound visited acc =
    (node : ℕ) → node < bound → contains_key node visited ≡ true → Covered sets acc node

-- The loop has dealt with some nodes, and goes on with the stack below them.
pub record Walked (sets : List SharedSet) (stack : List ℕ) (before : BTreeSet ℕ) (acc : Acc)
    (out : List Text) : Type 0 where
  pub fuel : ℕ
  pub visited : BTreeSet ℕ
  pub rest : flatten_loop fuel sets stack visited acc ≡ some out
  pub covered :
      (node : ℕ)
      → contains_key node visited ≡ true
      → (contains_key node before ≡ true) ⊎ Covered sets acc node

contains_key-insert :
    (node other : ℕ) (visited : BTreeSet ℕ)
    → contains_key node (insert other tt visited) ≡ true
    → (node ≡ other) ⊎ (contains_key node visited ≡ true)
contains_key-insert node other visited h =
    elim ((In-keys-insert node other tt visited).0 ((contains_key_iff node _).0 h)) [
      | inl e ↦ inl e
      | inr m ↦ inr ((contains_key_iff node visited).1 m)
    ]

-- A node that was visited before, and then the rest.
skipped :
    (fuel : ℕ) (sets : List SharedSet) (node : ℕ) (stack : List ℕ) (visited : BTreeSet ℕ)
    (acc : Acc) (out : List Text)
    → contains_key node visited ≡ true
    → flatten_loop (suc fuel) sets (node ∷ stack) visited acc ≡ some out
    → flatten_loop fuel sets stack visited acc ≡ some out
unfolding flatten_loop
skipped fuel sets node stack visited acc out e h = ground arith

-- A node that is entered: its own values, and its parents on top of the stack.
entered :
    (fuel : ℕ) (sets : List SharedSet) (node : ℕ) (stack : List ℕ) (visited : BTreeSet ℕ)
    (acc : Acc) (out : List Text)
    → contains_key node visited ≡ false
    → flatten_loop (suc fuel) sets (node ∷ stack) visited acc ≡ some out
    → (s : SharedSet) × (get_elem? sets node ≡ some s)
      × (flatten_loop fuel sets
            (s.parents ++ stack)
            (insert node tt visited)
            (push_unseen s.own acc)
          ≡ some out)
unfolding flatten_loop
entered fuel sets node stack visited acc out e h = elim (Option-cases (get_elem? sets node)) [
  | inl missing ↦ absurd (ground arith)
  | inr (s, found) ↦
      let run : flatten_loop fuel sets (extend (backwards s.parents) stack) (insert node tt visited)
            (push_unseen s.own acc)
          ≡ some out =
        ground arith in
      (
        s,
        found,
        ap
              (λ (st : List ℕ).
                flatten_loop fuel sets st (insert node tt visited) (push_unseen s.own acc))
              (sym (extend-backwards s.parents stack))
            ∙ run,
      )
]

out_of_fuel :
    (sets : List SharedSet) (stack : List ℕ) (visited : BTreeSet ℕ) (acc : Acc) (out : List Text)
    → flatten_loop zero sets stack visited acc ≡ some out
    → ⊥
unfolding flatten_loop
out_of_fuel sets stack visited acc out h = cc (h)

-- The rest of the nodes, behind one that was entered with its parents.
after :
    (sets : List SharedSet) (bound node : ℕ) (nodes stack : List ℕ) (visited : BTreeSet ℕ)
    (acc : Acc) (out : List Text)
    → IsCovering sets bound visited acc
    → Walked sets
        (nodes ++ stack)
        (insert node tt visited)
        (push_unseen (preorder sets node) acc)
        out
    → ((fuel : ℕ) (visited' : BTreeSet ℕ)
        → IsCovering sets bound visited' (push_unseen (preorder sets node) acc)
        → flatten_loop fuel sets (nodes ++ stack) visited' (push_unseen (preorder sets node) acc)
          ≡ some out
        → Walked sets stack visited'
            (push_unseen (each (preorder sets) nodes) (push_unseen (preorder sets node) acc))
            out)
    → Walked sets stack visited
        (push_unseen (preorder sets node ++ each (preorder sets) nodes) acc)
        out
after sets bound node nodes stack visited acc out cover w go =
    let mine : Acc = push_unseen (preorder sets node) acc in
    let more : List Text = each (preorder sets) nodes in
    let known : (m : ℕ)
        → contains_key m w.visited ≡ true
        → (contains_key m visited ≡ true) ⊎ Covered sets mine m =
      λ m i. elim (w.covered m i) [
        | inr c ↦ inr c
        | inl new ↦ elim (contains_key-insert m node visited new) [
          | inr old ↦ inl old
          | inl eq ↦
              inr (subst (Covered sets mine) (sym eq) (push_unseen-covers (preorder sets node) acc))
        ]
      ] in
    let done : Walked sets stack w.visited (push_unseen more mine) out =
      go w.fuel w.visited
        (λ m lt i. elim (known m i) [
          | inl old ↦ Covered-keeps sets (preorder sets node) acc m (cover m lt old)
          | inr c ↦ c
        ])
        w.rest in
    subst (λ a. Walked sets stack visited a out)
      (sym (push_unseen-append (preorder sets node) more acc))
      (record {
        fuel = done.fuel;
        visited = done.visited;
        rest = done.rest;
        covered = λ m i. elim (done.covered m i) [
          | inr c ↦ inr c
          | inl earlier ↦ elim (known m earlier) [
            | inl old ↦ inl old
            | inr c ↦ inr (Covered-keeps sets more mine m c)
          ]
        ];
      })

-- The nodes in front of the stack, with their parents, are dealt with in preorder.
pub walk :
    (sets : List SharedSet)
    → IsLayered sets
    → (depth bound : ℕ) → bound ≤ depth
    → (nodes : List ℕ) → Below bound nodes
    → (fuel : ℕ) (stack : List ℕ) (visited : BTreeSet ℕ) (acc : Acc) (out : List Text)
    → IsCovering sets bound visited acc
    → flatten_loop fuel sets (nodes ++ stack) visited acc ≡ some out
    → Walked sets stack visited (push_unseen (each (preorder sets) nodes) acc) out
walk sets layered depth bound le [] b fuel stack visited acc out cover h = record {
  fuel = fuel;
  visited = visited;
  rest = h;
  covered = λ node m. inl m;
}
walk sets layered depth bound le (node ∷ nodes) b zero stack visited acc out cover h =
    absurd (out_of_fuel sets (node ∷ (nodes ++ stack)) visited acc out h)
walk sets layered zero bound le (node ∷ nodes) b (suc fuel) stack visited acc out cover h =
    absurd (omega (arith, b.0, le))
walk sets layered (suc depth) bound le (node ∷ nodes) b (suc fuel) stack visited acc out cover h =
    elim (Bool-cases (contains_key node visited)) [
      | inl e ↦
          let same : push_unseen (preorder sets node ++ each (preorder sets) nodes) acc
              ≡ push_unseen (each (preorder sets) nodes) acc =
            push_unseen-append (preorder sets node) (each (preorder sets) nodes) acc
            ∙ ap (push_unseen (each (preorder sets) nodes))
                (push_unseen-Seen (preorder sets node) acc (cover node b.0 e)) in
          subst (λ a. Walked sets stack visited a out) (sym same)
            (walk sets layered (suc depth) bound le nodes b.1 fuel stack visited acc out cover
              (skipped fuel sets node (nodes ++ stack) visited acc out e h))
      | inr e ↦
          let (s, found, run) = entered fuel sets node (nodes ++ stack) visited acc out e h in
          let own : Acc = push_unseen s.own acc in
          let mine : Acc = push_unseen (preorder sets node) acc in
          let parents : Walked sets (nodes ++ stack) (insert node tt visited)
              (push_unseen (each (preorder sets) s.parents) own) out =
            walk sets layered depth node (omega (arith, b.0, le)) s.parents (layered node s found)
              fuel (nodes ++ stack) (insert node tt visited) own out
              (λ m lt i. elim (contains_key-insert m node visited i) [
                | inl eq ↦ absurd (omega (arith, lt, eq))
                | inr old ↦ Covered-keeps sets s.own acc m (cover m (omega (arith, lt, b.0)) old)
              ])
              run in
          let same : push_unseen (each (preorder sets) s.parents) own ≡ mine =
            sym (push_unseen-append s.own (each (preorder sets) s.parents) acc)
            ∙ ap (λ vs. push_unseen vs acc) (sym (preorder-found sets node s layered found)) in
          after sets bound node nodes stack visited acc out cover
            (subst (λ a. Walked sets (nodes ++ stack) (insert node tt visited) a out) same parents)
            (λ fuel' visited' cover' rest.
              walk sets layered (suc depth) bound le nodes b.1 fuel' stack visited' mine out cover'
                rest)
    ]
