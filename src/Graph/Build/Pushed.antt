-- ===== src/Graph/Build/Pushed.antt =====
-- Pushing an action keeps the graph in order, and leaves its files' number alone.
use frostbuild.Base.{
  ◌+◌, List, [], ◌∷◌, ◌++◌, some, length, get_elem?, Result, ok, err, Ensures, Result-cases, ◌≡◌,
  inl, inr, refl, sym, ap, ◌∙◌, subst, arith, length-append, Option-cases, num_cases, get_elem?-lt,
  get_elem?-set_self, get_elem?-set_ne, length-set, set, eq_of_some,
}
use frostbuild.Base.Text.{text_order}
use frostbuild.Graph.{
  FileId, ActionId, FileNode, ActionNode, BuildGraph, GraphError, push_action, claim_outputs,
  claimed, with_files,
}
use frostbuild.Graph.Owned.{IsOwned, push_action-IsOwned, push_action-ok, get_elem?-snoc}
use frostbuild.Graph.Build.{graph_error, push}
use frostbuild.Graph.Build.Grown.{Below, Below-mono, IsGrown}

-- What a push leaves alone.
pub record Pushed (g : BuildGraph) (r : BuildGraph × ActionId) : Type 0 where
  pub grown : IsGrown r.0
  pub files_kept : length r.0.files ≡ length g.files
  pub one_more : length r.0.actions ≡ length g.actions + 1
  pub place : r.1 ≡ length g.actions

-- A claim changes producers only.
claim_outputs-kept :
    (actions : List ActionNode) (action : ActionNode) (outputs : List FileId)
    (files : List FileNode) (f : FileId) (node : FileNode)
    → get_elem? files f ≡ some node
    → (node' : FileNode) × (get_elem? (claim_outputs actions action outputs files).0 f ≡ some node')
      × (node'.path ≡ node.path)
unfolding claim_outputs
claim_outputs-kept actions action [] files f node h = (node, h, refl)
claim_outputs-kept actions action (out ∷ outputs) files f node h =
    elim (Option-cases (get_elem? files out)) [
      | inl e ↦ (node, ground arith, refl)
      | inr (old, e) ↦ elim (Option-cases old.producer) [
        | inr (other, p) ↦ (node, ground arith, refl)
        | inl p ↦
            let files' : List FileNode = set files out (claimed old (length actions)) in
            let run : (claim_outputs actions action outputs files').0
                ≡ (claim_outputs actions action (out ∷ outputs) files).0 =
              ground arith in
            elim (num_cases out f) [
              | inl same ↦
                  let here : get_elem? files' f ≡ some (claimed old (length actions)) =
                    ap (get_elem? files') (sym same)
                    ∙ get_elem?-set_self files out (claimed old (length actions))
                        (get_elem?-lt files out e) in
                  let was : old ≡ node = eq_of_some (sym e ∙ ap (get_elem? files) same ∙ h) in
                  let (node', found, path) =
                    claim_outputs-kept actions action outputs files' f
                      (claimed old (length actions)) here in
                  (
                    node',
                    ap (λ fs. get_elem? fs f) (sym run) ∙ found,
                    path ∙ ap (λ (n : FileNode). n.path) was,
                  )
              | inr ne ↦
                  let here : get_elem? files' f ≡ some node =
                    get_elem?-set_ne files (claimed old (length actions)) ne ∙ h in
                  let (node', found, path) =
                    claim_outputs-kept actions action outputs files' f node here in
                  (node', ap (λ fs. get_elem? fs f) (sym run) ∙ found, path)
            ]
      ]
    ]

claim_outputs-length :
    (actions : List ActionNode) (action : ActionNode) (outputs : List FileId)
    (files : List FileNode)
    → length (claim_outputs actions action outputs files).0 ≡ length files
unfolding claim_outputs
claim_outputs-length actions action [] files = refl
claim_outputs-length actions action (out ∷ outputs) files =
    elim (Option-cases (get_elem? files out)) [
      | inl e ↦ ground arith
      | inr (old, e) ↦ elim (Option-cases old.producer) [
        | inr (other, p) ↦ ground arith
        | inl p ↦
            let files' : List FileNode = set files out (claimed old (length actions)) in
            let run : (claim_outputs actions action outputs files').0
                ≡ (claim_outputs actions action (out ∷ outputs) files).0 =
              ground arith in
            ap length (sym run)
            ∙ claim_outputs-length actions action outputs files'
            ∙ length-set files out (claimed old (length actions))
      ]
    ]

-- The graph behind a push without an error.
Pushed-IsGrown :
    (g g' : BuildGraph) (action : ActionNode) (id : ActionId)
    → IsGrown g
    → Below (length g.files) (action.inputs ++ action.order_only_inputs)
    → push_action g action ≡ (g', ok id)
    → Pushed g (g', id)
Pushed-IsGrown g g' action id h below e =
    let (files, claim, same, place) = push_action-ok g g' action id e in
    let owned = push_action-IsOwned g g' action id h.owned e in
    let claim_files : (claim_outputs g.actions action action.outputs g.files).0 ≡ files =
      ap (λ (r : List FileNode × Result GraphError (Unit {0})). r.0) claim in
    let size : length files ≡ length g.files =
      ap length (sym claim_files) ∙ claim_outputs-length g.actions action action.outputs g.files in
    let longer = length-append g.actions (action ∷ []) in
    let next : BuildGraph = with_files g files (g.actions ++ action ∷ []) in
    let grown : IsGrown next = record {
      owned = subst IsOwned (sym same) owned.0;
      known = λ path f l.
          let (node, found, p) = h.known path f l in
          let (node', found', p') =
            claim_outputs-kept g.actions action action.outputs g.files f node found in
          (node', ap (λ fs. get_elem? fs f) (sym claim_files) ∙ found', p' ∙ p);
      read = λ a other at.
          subst (λ n. Below n (other.inputs ++ other.order_only_inputs)) (sym size)
            (elim (get_elem?-snoc g.actions action a at) [
              | inl old ↦ h.read a other old
              | inr (_, new) ↦
                  subst
                    (λ (x : ActionNode). Below (length g.files) (x.inputs ++ x.order_only_inputs))
                    new below
            ]);
      made = λ name t l.
          let (acts, outs) = h.made name t l in
          (
            Below-mono (length g.actions) (length (g.actions ++ action ∷ [])) t.actions
                (omega (arith, longer)) acts,
            subst (λ n. Below n t.outputs) (sym size) outs,
          );
    } in
    subst (λ x. Pushed g (x, id)) same
      (record {
        grown = grown;
        files_kept = size;
        one_more = omega (arith, longer);
        place = sym place;
      })

pub push-Pushed :
    (g : BuildGraph) (action : ActionNode)
    → IsGrown g
    → Below (length g.files) (action.inputs ++ action.order_only_inputs)
    → Ensures (Pushed g) (push g action)
unfolding push
push-Pushed g action h below = elim (Result-cases (push_action g action).1) [
  | inr (e, q) ↦
      let run : err (graph_error e) ≡ push g action = ground arith in
      subst (Ensures (Pushed g)) run tt
  | inl (id, q) ↦
      let run : ok ((push_action g action).0, id) ≡ push g action = ground arith in
      subst (Ensures (Pushed g)) run (
        Pushed-IsGrown g (push_action g action).0 action id h below
          (ap (λ r. ((push_action g action).0, r)) q))
]
