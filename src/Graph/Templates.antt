-- ===== src/Graph/Templates.antt =====
-- crates/frostbuild-core/src/graph.rs: the variables of commands and paths, and the names that targets
-- give to their files.
use frostbuild.Base.{
  ℕ, zero, suc, ◌-◌, Bool, false, ◌&&◌, ◌||◌, List, [], ◌∷◌, ◌++◌, Option, some, none, any, length,
  ◌==◌, if◌then◌else◌, Result, ok, err, ◌>>=◌, ◌>>◌, bail_if,
}
use frostbuild.Base.Text.{Text, codes, text_eq}
use frostbuild.Base.Split.{join}
use frostbuild.Manifest.Names.{starts_with, contains}

-- `panicked` is the panic of an index or of an `unwrap`.
pub data TemplateError : Type 0 where
  unknown_genrule_variable unknown_configuration_variable unknown_command_variable :
      Text → TemplateError
  multi_value_command multi_value_test : Text → TemplateError
  no_depfile no_clean_dirs panicked : TemplateError

-- `str::replace`: the number of characters of a match that are still to be passed over goes first.
unfoldable pub replace_from : (skip : ℕ) → Text → Text → Text → Text
replace_from skip [] pattern by = []
replace_from (suc skip) (c ∷ text) pattern by = replace_from skip text pattern by
replace_from zero (c ∷ text) pattern by =
    let matched = by ++ replace_from (length pattern - 1) text pattern by in
    let passed = c ∷ replace_from zero text pattern by in
    if starts_with (c ∷ text) pattern then matched else passed

abbrev pub replace : Text → Text → Text → Text
replace text pattern by = replace_from 0 text pattern by

-- `outputs[0]`
abbrev pub first_of : List Text → Result TemplateError Text
first_of [] = err panicked
first_of (output ∷ outputs) = ok output

unfoldable pub expand_genrule_cmd : Text → List Text → List Text → Result TemplateError Text
expand_genrule_cmd cmd inputs outputs = do
  out ← first_of outputs
  let expanded =
      replace
        (replace (replace cmd (codes "${in}") (join (codes " ") inputs)) (codes "${outs}")
          (join (codes " ") outputs))
        (codes "${out}") out
  bail_if (contains expanded (codes "${")) (unknown_genrule_variable cmd)
  ok expanded

-- The output tree, the profile and the platform.
pub record Configuration : Type 0 where
  pub tree : Text
  pub profile : Text
  pub platform : Text

unfoldable pub expand_config_template : Configuration → Text → Result TemplateError Text
expand_config_template c value = do
  let expanded =
      replace (replace (replace value (codes "${config}") c.tree) (codes "${profile}") c.profile)
        (codes "${platform}") c.platform
  bail_if (contains expanded (codes "${")) (unknown_configuration_variable value)
  ok expanded

unfoldable pub expand_each : Configuration → List Text → Result TemplateError (List Text)
expand_each c [] = ok []
expand_each c (value ∷ values) = do
  expanded ← expand_config_template c value
  rest ← expand_each c values
  ok (expanded ∷ rest)

unfoldable pub expand_depfile : Configuration → Option Text → Result TemplateError (Option Text)
expand_depfile c none = ok none
expand_depfile c (some path) = expand_config_template c path >>= λ expanded. ok (some expanded)

-- `str::rsplit_once`: what stands in front of the last separator, and what behind it.
unfoldable pub rsplit_once : ℕ → Text → Option (Text × Text)
rsplit_once sep [] = none
rsplit_once sep (c ∷ text) = elim (rsplit_once sep text) [
  | some (front, back) ↦ some (c ∷ front, back)
  | none ↦ if c == sep then some ([], text) else none
]

abbrev pub directory_of : Text → Text
directory_of path = elim (rsplit_once b'/' path) [
  | none ↦ codes "."
  | some (directory, _) ↦ directory
]

abbrev pub needs : Text → Text → Option Text → TemplateError → Result TemplateError Text
needs text variable value missing =
    if contains text variable
    then elim value [ none ↦ err missing | some v ↦ ok (replace text variable v) ]
    else ok text

abbrev pub head_of : List Text → Option Text
head_of [] = none
head_of (x ∷ xs) = some x

-- What the arguments of a command are expanded with.
pub record CommandFiles : Type 0 where
  pub inputs : List Text
  pub dependency_inputs : List Text
  pub outputs : List Text
  pub clean_dirs : List Text
  pub depfile : Option Text

abbrev pub has_multi_value : Text → Bool
has_multi_value arg =
    contains arg (codes "${in}")
    || contains arg (codes "${deps}")
    || contains arg (codes "${outs}")
    || contains arg (codes "${clean_dirs}")

unfoldable pub expand_command_arg :
    Configuration → CommandFiles → Text → Result TemplateError (List Text)
expand_command_arg c f arg =
    if text_eq arg (codes "${in}")
    then ok f.inputs
    else if text_eq arg (codes "${deps}")
    then ok f.dependency_inputs
    else if text_eq arg (codes "${outs}")
    then ok f.outputs
    else if text_eq arg (codes "${clean_dirs}")
    then ok f.clean_dirs
    else do
      bail_if (has_multi_value arg) (multi_value_command arg)
      out ← first_of f.outputs
      let placed =
          replace (replace arg (codes "${out_dir}") (directory_of out)) (codes "${out}") out
      with_depfile ← needs placed (codes "${depfile}") f.depfile no_depfile
      with_clean_dir ←
          needs with_depfile (codes "${clean_dir}") (head_of f.clean_dirs) no_clean_dirs
      expanded ← expand_config_template c with_clean_dir
      bail_if (contains expanded (codes "${")) (unknown_command_variable arg)
      ok (expanded ∷ [])

unfoldable pub expand_args :
    (Text → Result TemplateError (List Text)) → List Text → Result TemplateError (List Text)
expand_args expand_one [] = ok []
expand_args expand_one (arg ∷ args) = do
  expanded ← expand_one arg
  rest ← expand_args expand_one args
  ok (expanded ++ rest)

unfoldable pub expand_command_args :
    Configuration → CommandFiles → (driver : Text) → List Text → Result TemplateError (List Text)
expand_command_args c f driver args =
    expand_args (expand_command_arg c f) args >>= λ expanded. ok (driver ∷ expanded)

unfoldable pub expand_test_arg :
    Configuration → (inputs dependency_inputs : List Text) → Text → Result TemplateError (List Text)
expand_test_arg c inputs dependency_inputs arg =
    if text_eq arg (codes "${in}")
    then ok inputs
    else if text_eq arg (codes "${deps}")
    then ok dependency_inputs
    else do
      bail_if (contains arg (codes "${in}") || contains arg (codes "${deps}"))
          (multi_value_test arg)
      expanded ← expand_config_template c arg
      ok (expanded ∷ [])

unfoldable pub expand_test_args :
    Configuration
    → (inputs dependency_inputs : List Text) → (driver : Text) → List Text
    → Result TemplateError (List Text)
expand_test_args c inputs dependency_inputs driver args =
    expand_args (expand_test_arg c inputs dependency_inputs) args >>= λ expanded.
    ok (driver ∷ expanded)

-- `label.trim_start_matches("//").replace([':', '/'], "_")`
unfoldable pub trim_slashes : Text → Text
trim_slashes [] = []
trim_slashes (c ∷ []) = c ∷ []
trim_slashes (c ∷ d ∷ label) =
    let rest = trim_slashes label in if c == b'/' && d == b'/' then rest else c ∷ d ∷ label

abbrev pub underscore : Text → Text
underscore [] = []
underscore (c ∷ label) = (if c == b':' || c == b'/' then b'_' else c) ∷ underscore label

unfoldable pub path_key : Text → Text
unfolding trim_slashes
path_key label = underscore (trim_slashes label)

abbrev pub cxx_extensions : List Text
cxx_extensions = codes "cc" ∷ codes "cpp" ∷ codes "cxx" ∷ codes "C" ∷ codes "c++" ∷ []

unfoldable pub is_cxx_source : Text → Bool
unfolding rsplit_once
is_cxx_source path = elim (rsplit_once b'.' path) [
  | none ↦ false
  | some (_, extension) ↦ any (text_eq extension) cxx_extensions
]
