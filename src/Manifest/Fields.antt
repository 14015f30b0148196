-- ===== src/Manifest/Fields.antt =====
-- What a passed check says of one field, and of the environment.
use frostbuild.Base.{
  Bool, true, false, not, ◌||◌, List, [], ◌∷◌, ◌++◌, map, Option, none, ◌≡◌, ◌≢◌, refl, arith, ap,
  is_empty, any, All, In, Result, ok, ◌>>◌, bail_if, >>=-eq-ok,
}
use frostbuild.Base.Text.{Text, codes, text_order}
use frostbuild.Base.BTreeMap.{BTreeMap, contains_key}
use frostbuild.Base.BTreeSet.{keys, contains_key_iff}
use frostbuild.Manifest.{CommandStep}
use frostbuild.Manifest.Raw.{RawTarget, RawCommandStep}
use frostbuild.Manifest.Names.{
  is_some, valid_target_name, valid_env_name, ends_with, contains_duplicate_iff,
}
use frostbuild.Manifest.Build.{
  Paths, is_isolated, has_command_fields, validate_kofun_binary_sources, check_env_names,
  check_steps, check_env, target_of,
}
use frostbuild.Manifest.Rules.{NoCommandFields, HasValidEnv}

pub bail_then {ℓ} :
    {A : Type ℓ} {E : Type 0} {m : Result E A} {a : A} (b : Bool) (e : E)
    → (bail_if b e >> m) ≡ ok a
    → (b ≡ false) × (m ≡ ok a)
bail_then true e h = cc
bail_then false e h = (refl, h)

pub bail_ok : {E : Type 0} (b : Bool) (e : E) → bail_if b e ≡ ok tt → b ≡ false
bail_ok true e h = cc
bail_ok false e h = refl

pub or_false : (a b : Bool) → (a || b) ≡ false → (a ≡ false) × (b ≡ false)
or_false a b h = ground arith

pub true_of : (b : Bool) → not b ≡ false → b ≡ true
true_of b h = ground arith

pub false_of : (b : Bool) {c : Bool} → not b ≡ c → c ≡ true → b ≡ false
false_of b e h = ground arith

pub empty_of : {A : Type 0} (xs : List A) → not (is_empty xs) ≡ false → xs ≡ []
empty_of xs h = ground arith

pub nonempty_of : {A : Type 0} (xs : List A) → is_empty xs ≡ false → xs ≢ []
nonempty_of xs h = ground arith

pub none_of : {A : Type 0} (o : Option A) → is_some o ≡ false → o ≡ none
none_of o h = ground arith

pub no_command_fields :
    (name : Text) (spec : RawTarget) (paths : Paths)
    → has_command_fields spec paths ≡ false
    → NoCommandFields (target_of name spec paths)
unfolding has_command_fields
no_command_fields name spec paths h =
    let (h1, r1) = or_false _ _ h in
    let (h2, r2) = or_false _ _ r1 in
    let (h3, r3) = or_false _ _ r2 in
    let (h4, r4) = or_false _ _ r3 in
    let (h5, r5) = or_false _ _ r4 in
    let (h6, r6) = or_false _ _ r5 in
    let (h7, r7) = or_false _ _ r6 in
    record {
      tool = none_of _ h1;
      args = empty_of _ h2;
      env = empty_of _ h3;
      pass_env = empty_of _ h4;
      steps = ap (map _) (empty_of _ h5);
      clean_dirs = empty_of _ h6;
      preserve_outputs = h7;
      depfile = none_of _ r7;
    }

pub check_env_names-All :
    (names : List Text)
    → check_env_names names ≡ ok tt
    → All (λ name. valid_env_name name ≡ true) names
unfolding check_env_names
check_env_names-All [] h = tt
check_env_names-All (name ∷ names) h =
    let (h1, r1) = bail_then (not (valid_env_name name)) _ h in
    (ground arith, check_env_names-All names r1)

pub All-append_left : (P : Text → Type 0) (xs ys : List Text) → All P (xs ++ ys) → All P xs
All-append_left P [] ys a = tt
All-append_left P (x ∷ xs) ys a = (a.0, All-append_left P xs ys a.1)

pub All-append_right : (P : Text → Type 0) (xs ys : List Text) → All P (xs ++ ys) → All P ys
All-append_right P [] ys a = a
All-append_right P (x ∷ xs) ys a = All-append_right P xs ys a.1

pub any-apart :
    (env : BTreeMap Text Text) (names : List Text)
    → any (λ name. contains_key name env) names ≡ false
    → All (λ name. ¬ In name (keys env)) names
any-apart env [] h = tt
any-apart env (name ∷ names) h =
    let (h1, r1) = or_false (contains_key name env) _ h in
    (λ m. ground (arith, contains_key_iff name env), any-apart env names r1)

pub check_env-HasValidEnv :
    (spec : RawTarget) → check_env spec ≡ ok tt → HasValidEnv spec.env spec.pass_env
unfolding check_env
check_env-HasValidEnv spec h =
    let (_, h1, r1) = >>=-eq-ok (check_env_names (keys spec.env ++ spec.pass_env)) _ h in
    let (h2, r2) = bail_then _ _ r1 in
    let names = check_env_names-All (keys spec.env ++ spec.pass_env) h1 in
    record {
      fixed = All-append_left _ (keys spec.env) spec.pass_env names;
      passed = All-append_right _ (keys spec.env) spec.pass_env names;
      once = (contains_duplicate_iff spec.pass_env).0 h2;
      apart = any-apart spec.env spec.pass_env (bail_ok _ _ r2);
    }

pub kofun_source :
    (srcs : List Text) {u : Unit}
    → validate_kofun_binary_sources srcs ≡ ok u
    → (src : Text) × (srcs ≡ src ∷ []) × (ends_with src (codes ".kofun") ≡ true)
unfolding validate_kofun_binary_sources
kofun_source [] h = cc
kofun_source (src ∷ []) h = (src, refl, true_of _ (bail_ok _ _ h))
kofun_source (src ∷ other ∷ srcs) h = cc

pub All-is_isolated :
    (paths : List Text)
    → any (λ path. not (is_isolated path)) paths ≡ false
    → All (λ path. is_isolated path ≡ true) paths
All-is_isolated [] h = tt
All-is_isolated (path ∷ paths) h =
    let (h1, r1) = or_false (not (is_isolated path)) _ h in (true_of _ h1, All-is_isolated paths r1)

pub check_steps-All :
    (steps : List RawCommandStep) {u : Unit}
    → check_steps steps ≡ ok u
    → All
        (λ (step : CommandStep). valid_target_name step.tool ≡ true)
        (map (λ (step : RawCommandStep). record { tool = step.tool; args = step.args }) steps)
unfolding check_steps
check_steps-All [] h = tt
check_steps-All (step ∷ steps) h =
    let (h1, r1) = bail_then (not (valid_target_name step.tool)) _ h in
    (true_of _ h1, check_steps-All steps r1)
