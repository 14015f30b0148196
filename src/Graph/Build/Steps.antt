-- ===== src/Graph/Build/Steps.antt =====
-- The steps that every rule is made of keep the graph in order: files, inputs and tools.
use frostbuild.Base.{
  ℕ, ◌<◌, List, [], ◌∷◌, ◌++◌, any, length, All-append, ◌≡◌, inl, inr, refl, ◌∙◌, subst, arith,
  Option-cases, Bool-cases, ◌==◌,
}
use frostbuild.Base.Text.{Text, text_order}
use frostbuild.Base.BTreeMap.{lookup}
use frostbuild.Graph.{FileId, BuildGraph, file}
use frostbuild.Graph.Build.{
  add_files, dep_outputs, all_dep_outputs, push_new, push_each_new, is_workspace_path, add_tool,
}
use frostbuild.Graph.Build.Grown.{Below, Below-mono, IsGrown, IsWider, file-IsGrown}

pub IsWider-trans : (f g h : BuildGraph) → IsWider f g → IsWider g h → IsWider f h
IsWider-trans f g h a b = record {
  more_files = omega (arith, a.more_files, b.more_files);
  same_actions = b.same_actions ∙ a.same_actions;
}

pub add_files-IsGrown :
    (g : BuildGraph) (paths : List Text)
    → IsGrown g
    → IsGrown (add_files g paths).0
      × IsWider g (add_files g paths).0
      × Below (length (add_files g paths).0.files) (add_files g paths).1
unfolding add_files
add_files-IsGrown g [] h = (h, record { more_files = omega arith; same_actions = refl }, tt)
add_files-IsGrown g (path ∷ paths) h =
    let (grown, wider, below) = file-IsGrown g path h in
    let g1 : BuildGraph = (file g path).0 in
    let (grown', wider', below') = add_files-IsGrown g1 paths grown in
    (
      grown',
      IsWider-trans g g1 (add_files g1 paths).0 wider wider',
      (omega (arith, below, wider'.more_files), below'),
    )

pub all_dep_outputs-Below :
    (g : BuildGraph) (deps : List Text)
    → IsGrown g
    → Below (length g.files) (all_dep_outputs g deps)
unfolding dep_outputs
all_dep_outputs-Below g [] h = tt
all_dep_outputs-Below g (dep ∷ deps) h =
    All-append (λ i. i < length g.files) (dep_outputs g dep) (all_dep_outputs g deps) one
      (all_dep_outputs-Below g deps h)
  where
    one : Below (length g.files) (dep_outputs g dep)
    one = elim (Option-cases (lookup dep g.targets)) [
      | inl e ↦
          let run : [] ≡ dep_outputs g dep = ground arith in subst (Below (length g.files)) run tt
      | inr (t, e) ↦
          let run : t.outputs ≡ dep_outputs g dep = ground arith in
          subst (Below (length g.files)) run (h.made dep t e).1
    ]

pub push_new-Below :
    (n id : ℕ) (inputs : List ℕ) → id < n → Below n inputs → Below n (push_new id inputs)
push_new-Below n id inputs h b = elim (Bool-cases (any (λ i. i == id) inputs)) [
  | inl e ↦ let run : inputs ≡ push_new id inputs = ground arith in subst (Below n) run b
  | inr e ↦
      let run : inputs ++ id ∷ [] ≡ push_new id inputs = ground arith in
      subst (Below n) run (All-append (λ i. i < n) inputs (id ∷ []) b (h, tt))
]

pub push_each_new-Below :
    (n : ℕ) (ids inputs : List ℕ)
    → Below n ids
    → Below n inputs
    → Below n (push_each_new ids inputs)
push_each_new-Below n [] inputs a b = b
push_each_new-Below n (id ∷ ids) inputs a b =
    push_each_new-Below n ids (push_new id inputs) a.1 (push_new-Below n id inputs a.0 b)

pub add_tool-IsGrown :
    (g : BuildGraph) (driver : Text) (inputs : List FileId)
    → IsGrown g
    → Below (length g.files) inputs
    → IsGrown (add_tool g driver inputs).0
      × IsWider g (add_tool g driver inputs).0
      × Below (length (add_tool g driver inputs).0.files) (add_tool g driver inputs).1
unfolding add_tool
add_tool-IsGrown g driver inputs h b = elim (Bool-cases (is_workspace_path driver)) [
  | inl e ↦
      let (grown, wider, below) = file-IsGrown g driver h in
      let run : ((file g driver).0, push_new (file g driver).1 inputs) ≡ add_tool g driver inputs =
        ground arith in
      subst Grew run (
        grown,
        wider,
        push_new-Below (length (file g driver).0.files) (file g driver).1 inputs below (
            Below-mono (length g.files) (length (file g driver).0.files) inputs wider.more_files b),
      )
  | inr e ↦
      let run : (g, inputs) ≡ add_tool g driver inputs = ground arith in
      subst Grew run (h, record { more_files = omega arith; same_actions = refl }, b)
]
  where
    Grew : BuildGraph × List FileId → Type 0
    Grew r = IsGrown r.0 × IsWider g r.0 × Below (length r.0.files) r.1
