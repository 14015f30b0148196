-- ===== src/Graph/Claims.antt =====
-- What a successful claim of an action on its outputs does to each file.
use frostbuild.Base.{
  num_cases, get_elem?-lt, List, [], ◌∷◌, Option, some, none, length, get_elem?, set, In, ◌≡◌, ◌≢◌,
  inl, inr, sym, ap, ◌∙◌, subst, arith, Result, ok, Option-cases, get_elem?-set_self,
  get_elem?-set_ne,
}
use frostbuild.Graph.{FileNode, FileId, ActionId, ActionNode, GraphError, claimed, claim_outputs}

-- The producer on record for a file.
abbrev pub producer_of : List FileNode → FileId → Option ActionId
producer_of files f = elim (get_elem? files f) [ none ↦ none | some node ↦ node.producer ]

pub producer_of-claimed :
    (files : List FileNode) (f : FileId) (node : FileNode) (id : ActionId)
    → get_elem? files f ≡ some node
    → producer_of (set files f (claimed node id)) f ≡ some id
producer_of-claimed files f node id h =
    ap (λ (o : Option FileNode). elim o [ none ↦ none | some node ↦ node.producer ])
      (get_elem?-set_self files f (claimed node id) (get_elem?-lt files f h))

pub producer_of-set_ne :
    (files : List FileNode) (f k : FileId) (node : FileNode)
    → f ≢ k
    → producer_of (set files f node) k ≡ producer_of files k
producer_of-set_ne files f k node ne =
    ap (λ (o : Option FileNode). elim o [ none ↦ none | some node ↦ node.producer ])
      (get_elem?-set_ne files node ne)

-- What a successful claim did to one file.
pub data Claim (outputs : List FileId) (id : ActionId) (before after : Option ActionId) (f : FileId)
    : Type 0 where
  taken : In f outputs → before ≡ none → after ≡ some id → Claim outputs id before after f
  left : ¬ In f outputs → after ≡ before → Claim outputs id before after f

pub Claim-cons :
    (files files' : List FileNode) (node : FileNode) (id : ActionId) (out : FileId)
    (outputs : List FileId) (f : FileId)
    → get_elem? files out ≡ some node
    → node.producer ≡ none
    → Claim outputs id (producer_of (set files out (claimed node id)) f) (producer_of files' f) f
    → Claim (out ∷ outputs) id (producer_of files f) (producer_of files' f) f
Claim-cons files files' node id out outputs f e p (taken m b a) = elim (num_cases f out) [
  | inl same ↦
      let mine : producer_of (set files out (claimed node id)) f ≡ some id =
        subst (λ k. producer_of (set files out (claimed node id)) k ≡ some id) (sym same)
          (producer_of-claimed files out node id e) in
      absurd (cc (sym b ∙ mine))
  | inr ne ↦
      taken (inr m) (sym (producer_of-set_ne files out f (claimed node id) (λ q. ne (sym q))) ∙ b) a
]
Claim-cons files files' node id out outputs f e p (left nm a) = elim (num_cases f out) [
  | inl same ↦
      let mine : producer_of (set files out (claimed node id)) f ≡ some id =
        subst (λ k. producer_of (set files out (claimed node id)) k ≡ some id) (sym same)
          (producer_of-claimed files out node id e) in
      let free : producer_of files f ≡ none =
        subst (λ k. producer_of files k ≡ none) (sym same) (ground arith) in
      taken (inl same) free (a ∙ mine)
  | inr ne ↦
      left (λ m. elim m [ inl q ↦ ne q | inr n ↦ nm n ])
        (a ∙ producer_of-set_ne files out f (claimed node id) (λ q. ne (sym q)))
]

pub claim_outputs-Claim :
    (actions : List ActionNode) (action : ActionNode) (outputs : List FileId)
    (files files' : List FileNode)
    → claim_outputs actions action outputs files ≡ (files', ok tt)
    → (f : FileId) → Claim outputs (length actions) (producer_of files f) (producer_of files' f) f
unfolding claim_outputs
claim_outputs-Claim actions action [] files files' h f =
    left (λ m. elim m [ ])
      (ap (λ (p : List FileNode × Result GraphError (Unit {0})). producer_of p.0 f) (sym h))
claim_outputs-Claim actions action (out ∷ outputs) files files' h f =
    elim (Option-cases (get_elem? files out)) [
      | inl e ↦ absurd (ground arith)
      | inr (node, e) ↦ elim (Option-cases node.producer) [
        | inr (other, p) ↦ absurd (ground arith)
        | inl p ↦
            let run : claim_outputs actions action outputs
                  (set files out (claimed node (length actions)))
                ≡ (files', ok tt) =
              ground arith in
            let rest =
              claim_outputs-Claim actions action outputs
                (set files out (claimed node (length actions))) files' run f in
            Claim-cons files files' node (length actions) out outputs f e p rest
      ]
    ]
