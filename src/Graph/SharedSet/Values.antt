-- ===== src/Graph/SharedSet/Values.antt =====
-- What a node of the shared sets stands for: its own values, then the values of its parents in their
-- order; and what the loop's `out` and `seen` keep of a list of values.
use frostbuild.Base.{
  ℕ, zero, suc, ◌<◌, true, List, [], ◌∷◌, ◌++◌, some, none, All, get_elem?, ◌≡◌, ◌⊎◌, inl, inr,
  refl, sym, ap, ◌∙◌, subst, arith, Bool-cases, Option-cases, num_cases, if◌then◌else◌,
}
use frostbuild.Base.Text.{Text, text_order}
use frostbuild.Base.BTreeMap.{insert, contains_key}
use frostbuild.Base.BTreeSet.{BTreeSet, contains_key_iff, In-keys-insert}
use frostbuild.Graph.SharedSet.{SharedSet, push_unseen}
use frostbuild.Graph.Build.Grown.{Below}

-- A node refers to nodes that were joined before it.
abbrev pub IsLayered : List SharedSet → Type 0
IsLayered sets = (node : ℕ) (s : SharedSet) → get_elem? sets node ≡ some s → Below node s.parents

abbrev pub each : (ℕ → List Text) → List ℕ → List Text
each f [] = []
each f (node ∷ nodes) = f node ++ each f nodes

-- The values of a node, down to a depth.
unfoldable pub values : List SharedSet → ℕ → ℕ → List Text
values sets zero node = []
values sets (suc depth) node = elim (get_elem? sets node) [
  | none ↦ []
  | some s ↦ s.own ++ each (values sets depth) s.parents
]

-- As its parents stand before it, a node's number is deep enough.
abbrev pub preorder : List SharedSet → ℕ → List Text
preorder sets node = values sets (suc node) node

each-cong :
    (f g : ℕ → List Text) (n : ℕ) (nodes : List ℕ)
    → Below n nodes
    → ((i : ℕ) → i < n → f i ≡ g i)
    → each f nodes ≡ each g nodes
each-cong f g n [] b h = refl
each-cong f g n (i ∷ nodes) b h = cc (h i b.0, each-cong f g n nodes b.1 h)

values-found :
    (sets : List SharedSet) (depth node : ℕ) (s : SharedSet)
    → get_elem? sets node ≡ some s
    → values sets (suc depth) node ≡ s.own ++ each (values sets depth) s.parents
unfolding values
values-found sets depth node s e = ground arith

values-missing :
    (sets : List SharedSet) (depth node : ℕ)
    → get_elem? sets node ≡ none
    → values sets (suc depth) node ≡ []
unfolding values
values-missing sets depth node e = ground arith

values-deeper :
    (sets : List SharedSet) (depth node : ℕ)
    → IsLayered sets
    → node < depth
    → values sets (suc depth) node ≡ values sets depth node
values-deeper sets zero node layered h = absurd (omega arith)
values-deeper sets (suc depth) node layered h = elim (Option-cases (get_elem? sets node)) [
  | inl e ↦ values-missing sets (suc depth) node e ∙ sym (values-missing sets depth node e)
  | inr (s, e) ↦
      values-found sets (suc depth) node s e
      ∙ ap (λ more. s.own ++ more)
          (each-cong (values sets (suc depth)) (values sets depth) node s.parents (layered node s e)
            (λ i b. values-deeper sets depth i layered (omega (arith, b, h))))
      ∙ sym (values-found sets depth node s e)
]

values-preorder :
    (sets : List SharedSet) (depth node : ℕ)
    → IsLayered sets
    → node < depth
    → values sets depth node ≡ preorder sets node
values-preorder sets zero node layered h = absurd (omega arith)
values-preorder sets (suc depth) node layered h = elim (num_cases depth node) [
  | inl same ↦ ap (λ d. values sets (suc d) node) same
  | inr ne ↦
      values-deeper sets depth node layered (omega (arith, ne, h))
      ∙ values-preorder sets depth node layered (omega (arith, ne, h))
]

pub preorder-found :
    (sets : List SharedSet) (node : ℕ) (s : SharedSet)
    → IsLayered sets
    → get_elem? sets node ≡ some s
    → preorder sets node ≡ s.own ++ each (preorder sets) s.parents
preorder-found sets node s layered e =
    values-found sets node node s e
    ∙ ap (λ more. s.own ++ more)
        (each-cong (values sets node) (preorder sets) node s.parents (layered node s e)
          (λ i b. values-preorder sets node i layered b))

-- The value is among those that were seen.
abbrev pub Seen : List Text × BTreeSet Text → Text → Type 0
Seen acc value = contains_key value acc.1 ≡ true

pub push_unseen-append :
    (xs ys : List Text) (acc : List Text × BTreeSet Text)
    → push_unseen (xs ++ ys) acc ≡ push_unseen ys (push_unseen xs acc)
push_unseen-append [] ys acc = refl
push_unseen-append (x ∷ xs) ys acc = push_unseen-append xs ys _

-- One value pushed.
abbrev push_one : Text → List Text × BTreeSet Text → List Text × BTreeSet Text
push_one value acc =
    if contains_key value acc.1 then acc else (acc.0 ++ value ∷ [], insert value tt acc.1)

contains_key-insert :
    (value other : Text) (seen : BTreeSet Text)
    → (value ≡ other) ⊎ (contains_key value seen ≡ true)
    → contains_key value (insert other tt seen) ≡ true
contains_key-insert value other seen (inl e) =
    (contains_key_iff value (insert other tt seen)).1
      ((In-keys-insert value other tt seen).1 (inl e))
contains_key-insert value other seen (inr m) =
    (contains_key_iff value (insert other tt seen)).1
      ((In-keys-insert value other tt seen).1 (inr ((contains_key_iff value seen).0 m)))

push_one-Seen :
    (value other : Text) (acc : List Text × BTreeSet Text)
    → (value ≡ other) ⊎ Seen acc value
    → Seen (push_one other acc) value
push_one-Seen value other acc h = elim (Bool-cases (contains_key other acc.1)) [
  | inl e ↦
      let run : acc ≡ push_one other acc = ground arith in
      subst (λ a. Seen a value) run
        (elim h [ inl same ↦ ap (λ v. contains_key v acc.1) same ∙ e | inr m ↦ m ])
  | inr e ↦
      let run : (acc.0 ++ other ∷ [], insert other tt acc.1) ≡ push_one other acc = ground arith in
      subst (λ a. Seen a value) run (contains_key-insert value other acc.1 h)
]

pub push_unseen-keeps :
    (values : List Text) (acc : List Text × BTreeSet Text) (value : Text)
    → Seen acc value
    → Seen (push_unseen values acc) value
push_unseen-keeps [] acc value h = h
push_unseen-keeps (v ∷ values) acc value h =
    push_unseen-keeps values (push_one v acc) value (push_one-Seen value v acc (inr h))

pub push_unseen-covers :
    (values : List Text) (acc : List Text × BTreeSet Text)
    → All (Seen (push_unseen values acc)) values
push_unseen-covers [] acc = tt
push_unseen-covers (v ∷ values) acc = (
  push_unseen-keeps values (push_one v acc) v (push_one-Seen v v acc (inl refl)),
  push_unseen-covers values (push_one v acc),
)

pub push_unseen-Seen :
    (values : List Text) (acc : List Text × BTreeSet Text)
    → All (Seen acc) values
    → push_unseen values acc ≡ acc
push_unseen-Seen [] acc h = refl
push_unseen-Seen (v ∷ values) acc h =
    let run : push_one v acc ≡ acc = ground (arith, h.0) in
    ap (push_unseen values) run ∙ push_unseen-Seen values acc h.1
