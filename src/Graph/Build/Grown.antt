-- ===== src/Graph/Build/Grown.antt =====
-- What every graph satisfies while targets are added to it, and that adding files and actions keeps it.
use frostbuild.Base.{
  ℕ, zero, suc, ◌<◌, ◌≤◌, List, [], ◌∷◌, ◌++◌, some, none, length, get_elem?, All, ◌≡◌, inl, inr,
  refl, sym, ◌∙◌, subst, arith, length-append, Option-cases, eq_of_some, get_elem?-lt,
}
use frostbuild.Base.Text.{Text, text_order, text_cases}
use frostbuild.Base.BTreeMap.{lookup, insert, lookup-insert_self, lookup-insert_ne}
use frostbuild.Graph.{FileId, ActionId, FileNode, ActionNode, TargetNode, BuildGraph, file}
use frostbuild.Graph.Claims.{producer_of}
use frostbuild.Graph.Owned.{IsOwned}

-- Every id is below the number of files (or of actions).
abbrev pub Below : ℕ → List ℕ → Type 0
Below n ids = All (λ i. i < n) ids

pub Below-mono : (n m : ℕ) (ids : List ℕ) → n ≤ m → Below n ids → Below m ids
Below-mono n m [] h b = tt
Below-mono n m (i ∷ ids) h b = (omega (arith, b.0), Below-mono n m ids h b.1)

-- Each path has its file, files have at most one producer and it declares them, and every id of an
-- action or a target is one of the graph.
pub record IsGrown (g : BuildGraph) : Type 0 where
  pub owned : IsOwned g
  pub known :
      (path : Text) (id : FileId)
      → lookup path g.file_ids ≡ some id
      → (node : FileNode) × (get_elem? g.files id ≡ some node) × (node.path ≡ path)
  pub read :
      (a : ActionId) (action : ActionNode)
      → get_elem? g.actions a ≡ some action
      → Below (length g.files) (action.inputs ++ action.order_only_inputs)
  pub made :
      (name : Text) (t : TargetNode)
      → lookup name g.targets ≡ some t
      → Below (length g.actions) t.actions × Below (length g.files) t.outputs

-- The graph has grown by files only.
pub record IsWider (g g' : BuildGraph) : Type 0 where
  pub more_files : length g.files ≤ length g'.files
  pub same_actions : g'.actions ≡ g.actions

get_elem?-snoc_new :
    {A : Type 0} (xs : List A) (x : A) → get_elem? (xs ++ x ∷ []) (length xs) ≡ some x
get_elem?-snoc_new [] x = refl
get_elem?-snoc_new (y ∷ xs) x = get_elem?-snoc_new xs x

get_elem?-snoc_old :
    {A : Type 0} (xs : List A) (x : A) (i : ℕ) {y : A}
    → get_elem? xs i ≡ some y
    → get_elem? (xs ++ x ∷ []) i ≡ some y
get_elem?-snoc_old [] x i h = cc
get_elem?-snoc_old (z ∷ xs) x zero h = h
get_elem?-snoc_old (z ∷ xs) x (suc i) h = get_elem?-snoc_old xs x i h

producer_of-snoc :
    (files : List FileNode) (path : Text) (f : FileId)
    → producer_of (files ++ record { path = path; producer = none } ∷ []) f ≡ producer_of files f
producer_of-snoc [] path zero = refl
producer_of-snoc [] path (suc f) = refl
producer_of-snoc (x ∷ files) path zero = refl
producer_of-snoc (x ∷ files) path (suc f) = producer_of-snoc files path f

-- The graph with one more file.
abbrev with_file : BuildGraph → Text → BuildGraph
with_file g path = record {
  files = g.files ++ record { path = path; producer = none } ∷ [];
  actions = g.actions;
  targets = g.targets;
  profile = g.profile;
  platform = g.platform;
  toolchain = g.toolchain;
  default_targets = g.default_targets;
  file_ids = insert path (length g.files) g.file_ids;
}

with_file-IsGrown : (g : BuildGraph) (path : Text) → IsGrown g → IsGrown (with_file g path)
with_file-IsGrown g path h =
    let node : FileNode = record { path = path; producer = none } in
    let longer : length g.files ≤ length (g.files ++ node ∷ []) =
      omega (arith, length-append g.files (node ∷ [])) in
    record {
      owned = λ f a. (
        λ e. (h.owned f a).0 (sym (producer_of-snoc g.files path f) ∙ e),
        λ d. producer_of-snoc g.files path f ∙ (h.owned f a).1 d,
      );
      known = λ other id e. elim (text_cases other path) [
        | inl same ↦
            let place : length g.files ≡ id = eq_of_some (
              sym (lookup-insert_self path (length g.files) g.file_ids)
              ∙ subst (λ t. lookup t (insert path (length g.files) g.file_ids) ≡ some id) same e) in
            (
              node,
              subst (λ i. get_elem? (g.files ++ node ∷ []) i ≡ some node) place
                  (get_elem?-snoc_new g.files node),
              sym same,
            )
        | inr ne ↦
            let (old, found, p) =
              h.known other id
                (sym (lookup-insert_ne path other (length g.files) g.file_ids ne) ∙ e) in
            (old, get_elem?-snoc_old g.files node id found, p)
      ];
      read = λ a action e.
          Below-mono (length g.files) (length (g.files ++ node ∷ []))
            (action.inputs ++ action.order_only_inputs) longer (h.read a action e);
      made = λ name t e. (
        (h.made name t e).0,
        Below-mono (length g.files) (length (g.files ++ node ∷ [])) t.outputs longer
            (h.made name t e).1,
      );
    }

-- `file` keeps the graph in order, and its id is one of the graph.
pub file-IsGrown :
    (g : BuildGraph) (path : Text)
    → IsGrown g
    → IsGrown (file g path).0
      × IsWider g (file g path).0
      × ((file g path).1 < length (file g path).0.files)
unfolding file
file-IsGrown g path h = elim (Option-cases (lookup path g.file_ids)) [
  | inr (id, e) ↦
      let run : (g, id) ≡ file g path = ground arith in
      let (node, found, _) = h.known path id e in
      subst Grew run
        (h, record { more_files = omega arith; same_actions = refl }, get_elem?-lt g.files id found)
  | inl e ↦
      let run : (with_file g path, length g.files) ≡ file g path = ground arith in
      let longer = length-append g.files (record { path = path; producer = none } ∷ []) in
      subst Grew run (
        with_file-IsGrown g path h,
        record { more_files = omega (arith, longer); same_actions = refl },
        omega (arith, longer),
      )
]
  where
    Grew : BuildGraph × FileId → Type 0
    Grew r = IsGrown r.0 × IsWider g r.0 × (r.1 < length r.0.files)
