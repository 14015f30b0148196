-- ===== src/Graph/CleanDirs/Apart.antt =====
-- What `validate_clean_dirs` accepts: clean directories that are apart from each other and from every
-- file of the graph.
use frostbuild.Base.{
  Bool, false, true, List, [], ◌∷◌, ◌++◌, map, All, All-append, Result, ok, err, ◌>>◌, bail_if,
  Ensures, >>=-Ensures, ◌≡◌, ◌||◌, refl, sym, ap, ◌∙◌, subst, append-nil, append_assoc,
}
use frostbuild.Base.Text.{Text}
use frostbuild.Graph.{FileNode, ActionNode, BuildGraph}
use frostbuild.Graph.CleanDirs.{
  CleanDirError, overlaps, contains_path, path_starts_with, check_claimed, check_files, claim_dirs,
  claim_all, validate_clean_dirs,
}

-- Of any two elements the one that stands first is related to the other.
abbrev pub Pairwise : {A : Type 0} → (A → A → Type 0) → List A → Type 0
Pairwise R [] = Unit
Pairwise R (x ∷ xs) = All (R x) xs × Pairwise R xs

-- Each directory with the action that declares it.
abbrev pub dirs_of : Text → List Text → List (Text × Text)
dirs_of action dirs = map (λ d. (d, action)) dirs

abbrev pub clean_claims : List ActionNode → List (Text × Text)
clean_claims [] = []
clean_claims (action ∷ actions) = dirs_of action.id action.clean_dirs ++ clean_claims actions

-- Neither directory is inside the other.
abbrev pub Disjoint : Text × Text → Text × Text → Type 0
Disjoint old new = (path_starts_with new.0 old.0 ≡ false) × (path_starts_with old.0 new.0 ≡ false)

-- The file is not inside the directory.
abbrev pub Outside : Text × Text → FileNode → Type 0
Outside claim file = path_starts_with file.path claim.0 ≡ false

abbrev pub AreApart : List FileNode → List (Text × Text) → Type 0
AreApart files claims = Pairwise Disjoint claims × All (λ claim. All (Outside claim) files) claims

abbrev pub IsClean : BuildGraph → Type 0
IsClean g = AreApart g.files (clean_claims g.actions)

Pairwise-snoc :
    {A : Type 0} (R : A → A → Type 0) (xs : List A) (y : A)
    → Pairwise R xs
    → All (λ x. R x y) xs
    → Pairwise R (xs ++ y ∷ [])
Pairwise-snoc R [] y p a = (tt, tt)
Pairwise-snoc R (x ∷ xs) y p a =
    (All-append (R x) xs (y ∷ []) p.0 (a.0, tt), Pairwise-snoc R xs y p.1 a.1)

-- A check that goes on has found nothing.
bail_if-then :
    {X : Type 0} (P : X → Type 0) (stop : Bool) (e : CleanDirError) (rest : Result CleanDirError X)
    → (stop ≡ false → Ensures P rest)
    → Ensures P (bail_if stop e >> rest)
bail_if-then P true e rest k = tt
bail_if-then P false e rest k = k refl

or_false : (a b : Bool) → (a || b) ≡ false → (a ≡ false) × (b ≡ false)
or_false false false e = (refl, refl)
or_false false true e = absurd (cc)
or_false true b e = absurd (cc)

Ensures-weaken :
    {X : Type 0} (Q P : X → Type 0) (r : Result CleanDirError X)
    → Ensures Q r
    → ((x : X) → Q x → P x)
    → Ensures P r
Ensures-weaken Q P (ok x) h k = k x h
Ensures-weaken Q P (err e) h k = tt

check_claimed-Disjoint :
    (directory action : Text) (claimed : List (Text × Text))
    → Ensures
        (λ _. All (λ old. Disjoint old (directory, action)) claimed)
        (check_claimed directory action claimed)
unfolding check_claimed
check_claimed-Disjoint directory action [] = tt
check_claimed-Disjoint directory action ((other, owner) ∷ claimed) =
    let inside = path_starts_with directory other in
    let around = path_starts_with other directory in
    let Found : List (Text × Text) → Unit {0} → Type 0 =
      λ olds _. All (λ old. Disjoint old (directory, action)) olds in
    bail_if-then (Found ((other, owner) ∷ claimed)) (inside || around)
      (overlaps directory action other owner) (check_claimed directory action claimed)
      (λ e.
        Ensures-weaken (Found claimed) (Found ((other, owner) ∷ claimed))
          (check_claimed directory action claimed) (check_claimed-Disjoint directory action claimed)
          (λ _ h. (or_false inside around e, h)))

check_files-Outside :
    (directory action : Text) (files : List FileNode)
    → Ensures (λ _. All (Outside (directory, action)) files) (check_files directory action files)
unfolding check_files
check_files-Outside directory action [] = tt
check_files-Outside directory action (file ∷ files) =
    let Found : List FileNode → Unit {0} → Type 0 = λ fs _. All (Outside (directory, action)) fs in
    bail_if-then (Found (file ∷ files)) (path_starts_with file.path directory)
      (contains_path directory action file.path) (check_files directory action files)
      (λ e.
        Ensures-weaken (Found files) (Found (file ∷ files)) (check_files directory action files)
          (check_files-Outside directory action files) (λ _ h. (e, h)))

-- The claims are these ones behind those that were there, and they are apart.
abbrev Claimed : List FileNode → (before new after : List (Text × Text)) → Type 0
Claimed files before new after = AreApart files after × (after ≡ before ++ new)

claim_dirs-Claimed :
    (files : List FileNode) (action : Text) (dirs : List Text) (claimed : List (Text × Text))
    → AreApart files claimed
    → Ensures (Claimed files claimed (dirs_of action dirs)) (claim_dirs files action dirs claimed)
unfolding claim_dirs
claim_dirs-Claimed files action [] claimed h = (h, sym (append-nil claimed))
claim_dirs-Claimed files action (directory ∷ dirs) claimed h =
    let new : Text × Text = (directory, action) in
    let Done = Claimed files claimed (new ∷ dirs_of action dirs) in
    >>=-Ensures (λ _. All (λ old. Disjoint old new) claimed) Done
      (check_claimed directory action claimed) _ (check_claimed-Disjoint directory action claimed)
      (λ _ apart.
        >>=-Ensures (λ _. All (Outside new) files) Done (check_files directory action files) _
          (check_files-Outside directory action files)
          (λ _ outside.
            Ensures-weaken (Claimed files (claimed ++ new ∷ []) (dirs_of action dirs)) Done
              (claim_dirs files action dirs (claimed ++ new ∷ []))
              (claim_dirs-Claimed files action dirs (claimed ++ new ∷ []) (
                Pairwise-snoc Disjoint claimed new h.0 apart,
                All-append (λ claim. All (Outside claim) files) claimed (new ∷ []) h.1
                    (outside, tt),
              ))
              (λ after q. (q.0, q.1 ∙ append_assoc claimed (new ∷ []) (dirs_of action dirs)))))

claim_all-Claimed :
    (files : List FileNode) (actions : List ActionNode) (claimed : List (Text × Text))
    → AreApart files claimed
    → Ensures (Claimed files claimed (clean_claims actions)) (claim_all files actions claimed)
unfolding claim_all
claim_all-Claimed files [] claimed h = (h, sym (append-nil claimed))
claim_all-Claimed files (action ∷ actions) claimed h =
    let mine = dirs_of action.id action.clean_dirs in
    let Done = Claimed files claimed (mine ++ clean_claims actions) in
    >>=-Ensures (Claimed files claimed mine) Done
      (claim_dirs files action.id action.clean_dirs claimed) (claim_all files actions)
      (claim_dirs-Claimed files action.id action.clean_dirs claimed h)
      (λ mid q.
        Ensures-weaken (Claimed files mid (clean_claims actions)) Done (claim_all files actions mid)
          (claim_all-Claimed files actions mid q.0)
          (λ after r. (
            r.0,
            r.1
                ∙ ap (λ front. front ++ clean_claims actions) q.1
                ∙ append_assoc claimed mine (clean_claims actions),
          )))

pub validate_clean_dirs-IsClean :
    (g : BuildGraph) → Ensures (λ _. IsClean g) (validate_clean_dirs g)
unfolding validate_clean_dirs
validate_clean_dirs-IsClean g =
    >>=-Ensures (Claimed g.files [] (clean_claims g.actions)) (λ _. IsClean g)
      (claim_all g.files g.actions []) _ (claim_all-Claimed g.files g.actions [] (tt, tt))
      (λ after q. subst (AreApart g.files) q.1 q.0)
