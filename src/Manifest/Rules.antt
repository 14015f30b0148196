-- ===== src/Manifest/Rules.antt =====
-- What a target may set, kind by kind, written apart from the checks of `build_target`.
use frostbuild.Base.{true, false, List, [], ◌∷◌, Option, some, none, ◌≡◌, ◌≢◌, ◌⊎◌, All, In, ok}
use frostbuild.Base.Text.{Text, codes, text_order}
use frostbuild.Base.BTreeMap.{BTreeMap}
use frostbuild.Base.BTreeSet.{keys}
use frostbuild.Paths.{validate_rel_path}
use frostbuild.Manifest.{
  TargetKind, cc_binary, cc_library, cc_test, genrule, test, kofun_binary, command, CommandStep,
  Target,
}
use frostbuild.Manifest.Names.{valid_target_name, valid_env_name, ends_with, NoDup}
use frostbuild.Manifest.Build.{trimmed, is_isolated, depfile_is_isolated}

-- No field of the command adapter is set.
pub record NoCommandFields (t : Target) : Type 0 where
  pub tool : t.tool ≡ none
  pub args : t.args ≡ []
  pub env : t.env ≡ []
  pub pass_env : t.pass_env ≡ []
  pub steps : t.steps ≡ []
  pub clean_dirs : t.clean_dirs ≡ []
  pub preserve_outputs : t.preserve_outputs ≡ false
  pub depfile : t.depfile ≡ none

-- The environment of a target: valid names, none twice, none both fixed and passed on.
pub record HasValidEnv (env : BTreeMap Text Text) (pass_env : List Text) : Type 0 where
  pub fixed : All (λ name. valid_env_name name ≡ true) (keys env)
  pub passed : All (λ name. valid_env_name name ≡ true) pass_env
  pub once : NoDup pass_env
  pub apart : All (λ name. ¬ In name (keys env)) pass_env

abbrev pub NoGenruleFields : Target → Type 0
NoGenruleFields t = (t.cmd ≡ none) × (t.inputs ≡ []) × (t.outputs ≡ [])

abbrev pub NoFlags : Target → Type 0
NoFlags t = (t.cflags ≡ []) × (t.ldflags ≡ [])

-- The fields of a test that runs a named tool.
pub record IsDirect (t : Target) : Type 0 where
  pub tool : valid_target_name (trimmed t.tool) ≡ true
  pub plain :
      (t.steps ≡ []) × (t.clean_dirs ≡ []) × (t.preserve_outputs ≡ false) × (t.depfile ≡ none)
  pub env : HasValidEnv t.env t.pass_env

-- The fields of a command: its outputs, directories and depfile carry the configuration.
pub record IsIsolated (t : Target) : Type 0 where
  pub tool : valid_target_name (trimmed t.tool) ≡ true
  pub outputs : (t.outputs ≢ []) × All (λ path. is_isolated path ≡ true) t.outputs
  pub clean_dirs : All (λ path. is_isolated path ≡ true) t.clean_dirs
  pub depfile : depfile_is_isolated t.depfile ≡ true
  pub plain : (t.cmd ≡ none) × (t.srcs ≡ []) × (t.includes ≡ []) × NoFlags t
  pub env : HasValidEnv t.env t.pass_env
  pub steps : All (λ (step : CommandStep). valid_target_name step.tool ≡ true) t.steps

abbrev pub FieldsFit : Target → TargetKind → Type 0
FieldsFit t cc_binary = (t.srcs ≢ []) × NoGenruleFields t × NoCommandFields t
FieldsFit t cc_library = (t.srcs ≢ []) × NoGenruleFields t × NoCommandFields t
FieldsFit t cc_test = (t.srcs ≢ []) × NoGenruleFields t × NoCommandFields t
FieldsFit t kofun_binary =
    ((src : Text) × (t.srcs ≡ src ∷ []) × (ends_with src (codes ".kofun") ≡ true))
    × (t.includes ≡ [])
    × NoFlags t
    × NoGenruleFields t
    × NoCommandFields t
FieldsFit t genrule =
    (trimmed t.cmd ≢ []) × (t.outputs ≢ []) × (t.srcs ≡ []) × NoFlags t × NoCommandFields t
FieldsFit t test =
    (t.outputs ≡ [])
    × (t.srcs ≡ [])
    × NoFlags t
    × (((trimmed t.cmd ≢ []) × NoCommandFields t) ⊎ ((trimmed t.cmd ≡ []) × IsDirect t))
FieldsFit t command = IsIsolated t

-- A path in the form that `validate_rel_path` gives.
abbrev pub IsRel : Text → Type 0
IsRel p = validate_rel_path p ≡ ok p

abbrev pub IsRelOption : Option Text → Type 0
IsRelOption none = Unit
IsRelOption (some p) = IsRel p

pub record IsWellFormed (t : Target) : Type 0 where
  pub name : valid_target_name t.name ≡ true
  pub srcs : All IsRel t.srcs
  pub includes : All IsRel t.includes
  pub inputs : All IsRel t.inputs
  pub outputs : All IsRel t.outputs
  pub clean_dirs : All IsRel t.clean_dirs
  pub depfile : IsRelOption t.depfile
  pub fields : FieldsFit t t.kind
