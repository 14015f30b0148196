-- ===== src/Paths.antt =====
-- crates/frostbuild-core/src/paths.rs: the check of a manifest's path.
pub mod Normal
use frostbuild.Base.{
  Bool, true, false, List, [], ◌∷◌, ◌++◌, Result, ok, err, ◌>>=◌, ◌>>◌, bail_if, is_empty,
  if◌then◌else◌,
}
use frostbuild.Base.Text.{Text, codes, text_eq}
use frostbuild.Base.Split.{split, join, contains_char}

-- The messages of `bail!`, one constructor for each.
pub data PathError : Type 0 where
  empty_path backslash absolute empty_component parent_component no_file : PathError

abbrev pub dot : Text
dot = codes "."

abbrev pub dot_dot : Text
dot_dot = codes ".."

-- The `for part in raw.split('/')` loop, with the vector `parts`.
unfoldable pub push_parts : List Text → List Text → Result PathError (List Text)
push_parts parts [] = ok parts
push_parts parts (part ∷ rest) =
    let skip = push_parts parts rest in
    let push = push_parts (parts ++ part ∷ []) rest in
    if is_empty part
    then err empty_component
    else if text_eq part dot
    then skip
    else if text_eq part dot_dot
    then err parent_component
    else push

abbrev pub starts_with_slash : Text → Bool
starts_with_slash [] = false
starts_with_slash (c ∷ _) = text_eq (c ∷ []) (codes "/")

unfoldable pub validate_rel_path : Text → Result PathError Text
unfolding push_parts
validate_rel_path raw = do
  bail_if (is_empty raw) empty_path
  bail_if (contains_char b'\\' raw) backslash
  bail_if (starts_with_slash raw) absolute
  parts ← push_parts [] (split b'/' raw)
  bail_if (is_empty parts) no_file
  ok (join (codes "/") parts)
