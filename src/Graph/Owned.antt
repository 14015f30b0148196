-- ===== src/Graph/Owned.antt =====
-- Every file of the graph has at most one producer, and it is the action that declares the file.
use frostbuild.Base.{
  get_elem?-lt, ℕ, zero, suc, List, [], ◌∷◌, ◌++◌, some, none, length, get_elem?, set, In, ◌≡◌, ◌⊎◌,
  inl, inr, ◌↔◌, refl, sym, ap, ◌∙◌, subst, arith, Result, ok, err, eq_of_some, ok_injective,
  Result-cases, get_elem?-set_self,
}
use frostbuild.Graph.{
  FileNode, FileId, ActionId, ActionNode, BuildGraph, GraphError, index_out_of_bounds, claimed,
  refuse, claim_outputs, with_files, push_action,
}
use frostbuild.Graph.Claims.{producer_of, Claim, taken, left, claim_outputs-Claim}

-- The action declares the file as an output.
pub record Declares (actions : List ActionNode) (f : FileId) (a : ActionId) : Type 0 where
  pub action : ActionNode
  pub found : get_elem? actions a ≡ some action
  pub declared : In f action.outputs

-- The producers on record are exactly the declarations of the actions.
abbrev pub IsOwned : BuildGraph → Type 0
IsOwned g = (f : FileId) (a : ActionId) → (producer_of g.files f ≡ some a) ↔ Declares g.actions f a

pub get_elem?-snoc :
    {A : Type 0} (xs : List A) (x : A) (i : ℕ) {y : A}
    → get_elem? (xs ++ x ∷ []) i ≡ some y
    → (get_elem? xs i ≡ some y) ⊎ ((i ≡ length xs) × (x ≡ y))
get_elem?-snoc [] x zero h = inr (refl, eq_of_some h)
get_elem?-snoc [] x (suc i) h = cc
get_elem?-snoc (z ∷ xs) x zero h = inl h
get_elem?-snoc (z ∷ xs) x (suc i) h = elim (get_elem?-snoc xs x i h) [
  | inl e ↦ inl e
  | inr (e, p) ↦ inr (ap suc e, p)
]

get_elem?-append_left :
    {A : Type 0} (xs ys : List A) (i : ℕ) {y : A}
    → get_elem? xs i ≡ some y
    → get_elem? (xs ++ ys) i ≡ some y
get_elem?-append_left [] ys i h = cc
get_elem?-append_left (x ∷ xs) ys zero h = h
get_elem?-append_left (x ∷ xs) ys (suc i) h = get_elem?-append_left xs ys i h

get_elem?-length :
    {A : Type 0} (xs : List A) (x : A) → get_elem? (xs ++ x ∷ []) (length xs) ≡ some x
get_elem?-length [] x = refl
get_elem?-length (y ∷ xs) x = get_elem?-length xs x

-- The claims of a new action keep the graph's producers in step with the declarations.
claims-IsOwned :
    (g : BuildGraph) (action : ActionNode) (files' : List FileNode)
    → IsOwned g
    → ((f : FileId)
        → Claim action.outputs (length g.actions) (producer_of g.files f) (producer_of files' f) f)
    → IsOwned (with_files g files' (g.actions ++ action ∷ []))
claims-IsOwned g action files' owned claims f a = (
  λ p. elim (claims f) [
    | taken m b e ↦
        let same : length g.actions ≡ a = eq_of_some (sym e ∙ p) in
        record {
          action = action;
          found =
              subst (λ i. get_elem? (g.actions ++ action ∷ []) i ≡ some action) same
                (get_elem?-length g.actions action);
          declared = m;
        }
    | left nm e ↦
        let d = (owned f a).0 (sym e ∙ p) in
        record {
          action = d.action;
          found = get_elem?-append_left g.actions (action ∷ []) a d.found;
          declared = d.declared;
        }
  ],
  λ d. elim (get_elem?-snoc g.actions action a d.found) [
    | inl found ↦
        let mine =
          (owned f a).1 (record { action = d.action; found = found; declared = d.declared }) in
        elim (claims f) [ taken m b e ↦ absurd (cc (sym b ∙ mine)) | left nm e ↦ e ∙ mine ]
    | inr (i, same) ↦
        let m : In f action.outputs =
          subst (λ (x : ActionNode). In f x.outputs) (sym same) d.declared in
        elim (claims f) [ taken _ b e ↦ e ∙ ap some (sym i) | left nm e ↦ absurd (nm m) ]
  ],
)

-- A push without an error appends the action, over the files of a successful claim.
pub push_action-ok :
    (g g' : BuildGraph) (action : ActionNode) (id : ActionId)
    → push_action g action ≡ (g', ok id)
    → (files : List FileNode) × (claim_outputs g.actions action action.outputs g.files
        ≡ (files, ok tt))
      × (with_files g files (g.actions ++ action ∷ []) ≡ g')
      × (length g.actions ≡ id)
unfolding push_action
push_action-ok g g' action id h =
    let c : List FileNode × Result GraphError (Unit {0}) =
      claim_outputs g.actions action action.outputs g.files in
    elim (Result-cases c.1) [
      | inl (u, q) ↦
          let run : push_action g action
              ≡ (with_files g c.0 (g.actions ++ action ∷ []), ok (length g.actions)) =
            ap
              (λ (r : Result GraphError (Unit {0})). elim r [
                | err e ↦ (with_files g c.0 g.actions, err e)
                | ok _ ↦ (with_files g c.0 (g.actions ++ action ∷ []), ok (length g.actions))
              ])
              q in
          let same = sym run ∙ h in
          (
            c.0,
            ap (λ (r : Result GraphError (Unit {0})). (c.0, r)) q,
            ap (λ (p : BuildGraph × Result GraphError ActionId). p.0) same,
            ok_injective (ap (λ (p : BuildGraph × Result GraphError ActionId). p.1) same),
          )
      | inr (e, q) ↦
          let run : push_action g action ≡ (with_files g c.0 g.actions, err e) =
            ap
              (λ (r : Result GraphError (Unit {0})). elim r [
                | err e ↦ (with_files g c.0 g.actions, err e)
                | ok _ ↦ (with_files g c.0 (g.actions ++ action ∷ []), ok (length g.actions))
              ])
              q in
          absurd (cc (ap (λ (p : BuildGraph × Result GraphError ActionId). p.1) (sym run ∙ h)))
    ]

-- If the graph's producers are exactly the declarations of its actions, they still are after an
-- action is pushed without an error, and its id is the place it has among the actions. So a file
-- never has two producers.
pub push_action-IsOwned :
    (g g' : BuildGraph) (action : ActionNode) (id : ActionId)
    → IsOwned g
    → push_action g action ≡ (g', ok id)
    → IsOwned g' × (get_elem? g'.actions id ≡ some action)
push_action-IsOwned g g' action id owned h =
    let (files, claim, same, place) = push_action-ok g g' action id h in
    subst (λ (x : BuildGraph). IsOwned x × (get_elem? x.actions id ≡ some action)) same
      (
        claims-IsOwned g action files owned
            (claim_outputs-Claim g.actions action action.outputs g.files files claim),
        subst (λ i. get_elem? (g.actions ++ action ∷ []) i ≡ some action) place
            (get_elem?-length g.actions action),
      )

get_elem?-length-none : {A : Type 0} (xs : List A) → get_elem? xs (length xs) ≡ none
get_elem?-length-none [] = refl
get_elem?-length-none (x ∷ xs) = get_elem?-length-none xs

-- An action whose first output, a file of the graph that has no producer yet, is named again right
-- behind it is not refused as a second producer: the message looks the other action up by an id
-- that no action has yet, and the index panics.
pub push_action-repeated_output :
    (g : BuildGraph) (action : ActionNode) (out : FileId) (outputs : List FileId) (node : FileNode)
    → action.outputs ≡ out ∷ out ∷ outputs
    → get_elem? g.files out ≡ some node
    → node.producer ≡ none
    → (push_action g action).1 ≡ err index_out_of_bounds
unfolding push_action claim_outputs refuse
push_action-repeated_output g action out outputs node repeated found free =
    let again : get_elem? (set g.files out (claimed node (length g.actions))) out
        ≡ some (claimed node (length g.actions)) =
      get_elem?-set_self g.files out (claimed node (length g.actions))
        (get_elem?-lt g.files out found) in
    let none_yet : get_elem? g.actions (length g.actions) ≡ none =
      get_elem?-length-none g.actions in
    ground arith
