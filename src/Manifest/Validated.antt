-- ===== src/Manifest/Validated.antt =====
-- What a manifest that `from_raw` accepts satisfies across its targets.
use frostbuild.Manifest.Fields.{bail_then, true_of}
use frostbuild.Base.{
  ok_injective, not, List, [], ◌∷◌, ◌≡◌, ◌≢◌, sym, ap, subst, arith, Result, ok, err, >>=-eq-ok,
  is_empty, In, All,
}
use frostbuild.Base.Text.{Text, text_eq, text_eq_iff, text_order}
use frostbuild.Base.BTreeMap.{BTreeMap, insert, contains_key}
use frostbuild.Base.BTreeSet.{keys, contains_key_iff}
use frostbuild.Manifest.{Target, Manifest}
use frostbuild.Manifest.Raw.{RawTarget, RawManifest}
use frostbuild.Manifest.Build.{TargetError, build_target, validate_all, check_kind}
use frostbuild.Manifest.Rules.{IsWellFormed}
use frostbuild.Manifest.WellFormed.{build_target-IsWellFormed}
use frostbuild.Manifest.Checked.{
  with_context, build_targets, build_platforms, from_raw_unvalidated, validate_deps, validate_each,
  validate_dependencies, validate_default_targets, from_raw,
}

-- An entry under its target's name.
abbrev pub IsEntry : Text × Target → Type 0
IsEntry (name, t) = (t.name ≡ name) × IsWellFormed t

abbrev pub HasKnownDeps : BTreeMap Text Target → Text × Target → Type 0
HasKnownDeps targets (_, t) = All (λ dep. (dep ≢ t.name) × In dep (keys targets)) t.deps

pub record IsChecked (m : Manifest) : Type 0 where
  pub some_target : m.targets ≢ []
  pub entries : All IsEntry m.targets
  pub deps : All (HasKnownDeps m.targets) m.targets
  pub defaults : All (λ name. In name (keys m.targets)) m.default_targets

build_target-name :
    (name : Text) (spec : RawTarget) (t : Target) → build_target name spec ≡ ok t → t.name ≡ name
unfolding build_target
build_target-name name spec t h =
    let (h1, r1) = bail_then _ _ h in
    let (paths, h2, r2) = >>=-eq-ok (validate_all spec) _ r1 in
    let (_, h3, r3) = >>=-eq-ok (check_kind spec paths spec.kind) _ r2 in
    sym (ap (λ (t : Target). t.name) (ok_injective r3))

All-insert :
    (P : Text × Target → Type 0) (name : Text) (t : Target) (m : BTreeMap Text Target)
    → P (name, t)
    → All P m
    → All P (insert name t m)
unfolding insert
All-insert P name t [] p a = (p, tt)
All-insert P name t ((j, u) ∷ m) p a = ground (arith, All-insert P name t m)

context_ok :
    {A : Type 0} (name : Text) (m : Result TargetError A) {a : A}
    → with_context name m ≡ ok a
    → m ≡ ok a
context_ok name (ok a) h = ap ok (ok_injective h)
context_ok name (err e) h = cc

build_targets-IsEntry :
    (raw : BTreeMap Text RawTarget) (targets out : BTreeMap Text Target)
    → All IsEntry targets
    → build_targets raw targets ≡ ok out
    → All IsEntry out
unfolding build_targets
build_targets-IsEntry [] targets out a h = subst (All IsEntry) (ok_injective h) a
build_targets-IsEntry ((name, spec) ∷ raw) targets out a h =
    let (t, h1, r1) = >>=-eq-ok (with_context name (build_target name spec)) _ h in
    let built = context_ok name (build_target name spec) h1 in
    build_targets-IsEntry raw (insert name t targets) out
      (All-insert IsEntry name t targets
        (build_target-name name spec t built, build_target-IsWellFormed name spec t built) a)
      r1

validate_deps-All :
    (targets : BTreeMap Text Target) (name : Text) (deps : List Text) {u : Unit}
    → validate_deps targets name deps ≡ ok u
    → All (λ dep. (dep ≢ name) × In dep (keys targets)) deps
unfolding validate_deps
validate_deps-All targets name [] h = tt
validate_deps-All targets name (dep ∷ deps) h =
    let (h1, r1) = bail_then (text_eq dep name) _ h in
    let (h2, r2) = bail_then (not (contains_key dep targets)) _ r1 in
    (
      (λ e. ground (arith, text_eq_iff dep name), (contains_key_iff dep targets).0 (true_of _ h2)),
      validate_deps-All targets name deps r2,
    )

validate_each-All :
    (all_targets targets : BTreeMap Text Target) {u : Unit}
    → validate_each all_targets targets ≡ ok u
    → All (HasKnownDeps all_targets) targets
unfolding validate_each
validate_each-All all_targets [] h = tt
validate_each-All all_targets ((k, t) ∷ targets) h =
    let (_, h1, r1) = >>=-eq-ok (validate_deps all_targets t.name t.deps) _ h in
    (validate_deps-All all_targets t.name t.deps h1, validate_each-All all_targets targets r1)

validate_default_targets-All :
    (targets : BTreeMap Text Target) (names : List Text) {u : Unit}
    → validate_default_targets targets names ≡ ok u
    → All (λ name. In name (keys targets)) names
unfolding validate_default_targets
validate_default_targets-All targets [] h = tt
validate_default_targets-All targets (name ∷ names) h =
    let (h1, r1) = bail_then (not (contains_key name targets)) _ h in
    (
      (contains_key_iff name targets).0 (true_of _ h1),
      validate_default_targets-All targets names r1,
    )

from_raw_unvalidated-IsEntry :
    (raw : RawManifest) (m : Manifest) → from_raw_unvalidated raw ≡ ok m → All IsEntry m.targets
unfolding from_raw_unvalidated
from_raw_unvalidated-IsEntry raw m h =
    let (targets, h1, r1) = >>=-eq-ok (build_targets raw.target []) _ h in
    let (platforms, h2, r2) = >>=-eq-ok (build_platforms raw.platform []) _ r1 in
    subst (λ (m : Manifest). All IsEntry m.targets) (ok_injective r2)
      (build_targets-IsEntry raw.target [] targets tt h1)

-- A manifest that is accepted has targets, keeps each under its own name and well formed, and every
-- dependency and every default target names one of them, with no target depending on itself.
pub from_raw-IsChecked : (raw : RawManifest) (m : Manifest) → from_raw raw ≡ ok m → IsChecked m
unfolding from_raw validate_dependencies
from_raw-IsChecked raw m h =
    let (n, h1, r1) = >>=-eq-ok (from_raw_unvalidated raw) _ h in
    let (h2, r2) = bail_then (is_empty n.targets) _ r1 in
    let (_, h3, r3) = >>=-eq-ok (validate_dependencies n.targets) _ r2 in
    let (_, h4, r4) = >>=-eq-ok (validate_default_targets n.targets n.default_targets) _ r3 in
    subst IsChecked (ok_injective r4) record {
      some_target = λ e. ground arith;
      entries = from_raw_unvalidated-IsEntry raw n h1;
      deps = validate_each-All n.targets n.targets h3;
      defaults = validate_default_targets-All n.targets n.default_targets h4;
    }
