-- ===== src/Manifest/WellFormed.antt =====
-- What every target that `build_target` returns satisfies.
use frostbuild.Manifest.Fields.{bail_then, true_of}
use frostbuild.Base.{
  ok_injective, List, [], ◌∷◌, Option, some, none, ◌≡◌, subst, ap, All, Result, ok, err, >>=-eq-ok,
}
use frostbuild.Base.Text.{Text, text_order}
use frostbuild.Paths.{PathError, validate_rel_path}
use frostbuild.Paths.Normal.{validate_idem}
use frostbuild.Manifest.{Target}
use frostbuild.Manifest.Raw.{RawTarget}
use frostbuild.Manifest.Build.{
  Field, of_srcs, of_includes, of_inputs, of_outputs, of_clean_dirs, of_depfile, Paths,
  validate_paths, validate_optional, validate_all, context, check_kind, build_target,
}
use frostbuild.Manifest.Rules.{IsRel, IsRelOption, IsWellFormed}
use frostbuild.Manifest.Fits.{check_kind-FieldsFit}

validate_paths-IsRel : (raw out : List Text) → validate_paths raw ≡ ok out → All IsRel out
unfolding validate_paths
validate_paths-IsRel [] out h = subst (All IsRel) (ok_injective h) tt
validate_paths-IsRel (p ∷ raw) out h =
    let (rel, h1, r1) = >>=-eq-ok (validate_rel_path p) _ h in
    let (rest, h2, r2) = >>=-eq-ok (validate_paths raw) _ r1 in
    subst (All IsRel) (ok_injective r2) (validate_idem p rel h1, validate_paths-IsRel raw rest h2)

validate_optional-IsRel : (o out : Option Text) → validate_optional o ≡ ok out → IsRelOption out
unfolding validate_optional
validate_optional-IsRel none out h = subst IsRelOption (ok_injective h) tt
validate_optional-IsRel (some p) out h =
    let (rel, h1, r1) = >>=-eq-ok (validate_rel_path p) _ h in
    subst IsRelOption (ok_injective r1) (validate_idem p rel h1)

context_ok :
    {A : Type 0} (f : Field) (m : Result PathError A) {a : A} → context f m ≡ ok a → m ≡ ok a
context_ok f (ok a) h = ap ok (ok_injective h)
context_ok f (err e) h = cc

record HasRels (paths : Paths) : Type 0 where
  srcs : All IsRel paths.srcs
  includes : All IsRel paths.includes
  inputs : All IsRel paths.inputs
  outputs : All IsRel paths.outputs
  clean_dirs : All IsRel paths.clean_dirs
  depfile : IsRelOption paths.depfile

validate_all-HasRels :
    (spec : RawTarget) (paths : Paths) → validate_all spec ≡ ok paths → HasRels paths
unfolding validate_all
validate_all-HasRels spec paths h =
    let (a1, h1, r1) = >>=-eq-ok (context of_srcs (validate_paths spec.srcs)) _ h in
    let (a2, h2, r2) = >>=-eq-ok (context of_includes (validate_paths spec.includes)) _ r1 in
    let (a3, h3, r3) = >>=-eq-ok (context of_inputs (validate_paths spec.inputs)) _ r2 in
    let (a4, h4, r4) = >>=-eq-ok (context of_outputs (validate_paths spec.outputs)) _ r3 in
    let (a5, h5, r5) = >>=-eq-ok (context of_clean_dirs (validate_paths spec.clean_dirs)) _ r4 in
    let (a6, h6, r6) = >>=-eq-ok (context of_depfile (validate_optional spec.depfile)) _ r5 in
    subst HasRels (ok_injective r6) record {
      srcs = validate_paths-IsRel spec.srcs a1 (context_ok of_srcs _ h1);
      includes = validate_paths-IsRel spec.includes a2 (context_ok of_includes _ h2);
      inputs = validate_paths-IsRel spec.inputs a3 (context_ok of_inputs _ h3);
      outputs = validate_paths-IsRel spec.outputs a4 (context_ok of_outputs _ h4);
      clean_dirs = validate_paths-IsRel spec.clean_dirs a5 (context_ok of_clean_dirs _ h5);
      depfile = validate_optional-IsRel spec.depfile a6 (context_ok of_depfile _ h6);
    }

-- Every target that `build_target` returns is well formed: its name is valid, each of its paths is
-- one that the path check gives back unchanged, and its fields are those its kind allows. In
-- particular every output, depfile and directory of a command carries `${config}`, and its
-- environment has valid names only, none twice and none both fixed and passed on.
pub build_target-IsWellFormed :
    (name : Text) (spec : RawTarget) (t : Target) → build_target name spec ≡ ok t → IsWellFormed t
unfolding build_target
build_target-IsWellFormed name spec t h =
    let (h1, r1) = bail_then _ _ h in
    let (paths, h2, r2) = >>=-eq-ok (validate_all spec) _ r1 in
    let (_, h3, r3) = >>=-eq-ok (check_kind spec paths spec.kind) _ r2 in
    let rels = validate_all-HasRels spec paths h2 in
    subst IsWellFormed (ok_injective r3) record {
      name = true_of _ h1;
      srcs = rels.srcs;
      includes = rels.includes;
      inputs = rels.inputs;
      outputs = rels.outputs;
      clean_dirs = rels.clean_dirs;
      depfile = rels.depfile;
      fields = check_kind-FieldsFit name spec paths spec.kind h3;
    }
