-- ===== src/Graph/CleanDirs.antt =====
-- crates/frostbuild-core/src/graph.rs: `validate_clean_dirs`, with the paths that it compares.
pub mod Apart
use frostbuild.Base.{
  ℕ, Bool, true, false, not, ◌&&◌, ◌||◌, List, [], ◌∷◌, ◌++◌, map, ◌≡◌, inl, inr, refl, arith,
  Result, ok, err, ◌>>=◌, ◌>>◌, bail_if, Bool-cases, In, is_empty, if◌then◌else◌, ◌==◌, >>=-eq-ok,
}
use frostbuild.Base.Text.{Text, codes, text_eq}
use frostbuild.Base.Split.{split}
use frostbuild.Graph.{FileNode, ActionNode, BuildGraph}

pub data CleanDirError : Type 0 where
  overlaps : (directory action other_directory other_action : Text) → CleanDirError
  contains_path : (directory action path : Text) → CleanDirError

-- `Path::components`: no empty parts, no dots but a first one, and the root as a part of its own.
abbrev pub drop_dots : List Text → List Text
drop_dots [] = []
drop_dots (part ∷ parts) =
    let rest = drop_dots parts in
    if is_empty part || text_eq part (codes ".") then rest else part ∷ rest

unfoldable pub components : Text → List Text
components path = elim (split b'/' path) [
  | [] ↦ []
  | part ∷ parts ↦
      if is_empty part && not (is_empty path)
      then codes "/" ∷ drop_dots parts
      else if is_empty part
      then []
      else part ∷ drop_dots parts
]

abbrev pub is_prefix : List Text → List Text → Bool
is_prefix [] path = true
is_prefix (part ∷ base) [] = false
is_prefix (part ∷ base) (other ∷ path) = text_eq part other && is_prefix base path

-- `Path::starts_with`
unfoldable pub path_starts_with : Text → Text → Bool
unfolding components
path_starts_with path base = is_prefix (components base) (components path)

unfoldable pub check_claimed :
    (directory action : Text) → List (Text × Text) → Result CleanDirError (Unit {0})
check_claimed directory action [] = ok tt
check_claimed directory action ((other, owner) ∷ claimed) = do
  bail_if (path_starts_with directory other || path_starts_with other directory)
      (overlaps directory action other owner)
  check_claimed directory action claimed

unfoldable pub check_files :
    (directory action : Text) → List FileNode → Result CleanDirError (Unit {0})
check_files directory action [] = ok tt
check_files directory action (file ∷ files) = do
  bail_if (path_starts_with file.path directory) (contains_path directory action file.path)
  check_files directory action files

-- The loop over the directories of one action, with what was claimed before them.
unfoldable pub claim_dirs :
    List FileNode
    → (action : Text) → List Text
    → List (Text × Text)
    → Result CleanDirError (List (Text × Text))
claim_dirs files action [] claimed = ok claimed
claim_dirs files action (directory ∷ dirs) claimed = do
  check_claimed directory action claimed
  check_files directory action files
  claim_dirs files action dirs (claimed ++ (directory, action) ∷ [])

unfoldable pub claim_all :
    List FileNode → List ActionNode → List (Text × Text) → Result CleanDirError (List (Text × Text))
claim_all files [] claimed = ok claimed
claim_all files (action ∷ actions) claimed = do
  claimed' ← claim_dirs files action.id action.clean_dirs claimed
  claim_all files actions claimed'

unfoldable pub validate_clean_dirs : BuildGraph → Result CleanDirError (Unit {0})
validate_clean_dirs g = claim_all g.files g.actions [] >>= λ _. ok tt
