-- ===== src/Tests/BuildRuns.antt =====
-- A manifest with a generated header, a library and a binary, turned into its graph.
use frostbuild.Base.{
  [], ◌∷◌, none, Bool, true, false, ◌≡◌, refl, ok, err, Result, subst, eq_of_some, suc, zero, arith,
  List, some,
}
use frostbuild.Base.Text.{codes, text_eq, text_cmp}
use frostbuild.Manifest.Names.{contains}
use frostbuild.Base.Split.{split, join}
use frostbuild.Base.BTreeMap.{lookup, insert, contains_key}
use frostbuild.Manifest.{cc_library, cc_binary, Target, Manifest, host_platform}
use frostbuild.Manifest.Platforms.{toolchain_for}
use frostbuild.Graph.{BuildGraph, file, push_action, claim_outputs}
use frostbuild.Graph.Toposort.{toposort_targets, visit, visit_each, position_or}
use frostbuild.Graph.Build.{BuildError, add_files, dep_outputs, push, finish_target}
use frostbuild.Graph.Build.Rules.{expand_genrule}
use frostbuild.Graph.Build.Compile.{
  compile_one, compile_each, archive_library, finish_link, link_binary, build_cc, expand_cc,
}
use frostbuild.Graph.Build.Expand.{
  check_profile, expand_all, expand_target, from_manifest_configured, empty_graph,
}
use frostbuild.Graph.Templates.{
  replace_from, expand_genrule_cmd, trim_slashes, path_key, is_cxx_source, rsplit_once,
}
use frostbuild.Graph.Closure.{edges}
use frostbuild.Graph.SharedSet.{SharedSet, pushed_parents, join_set, flatten, flatten_loop}
use frostbuild.Graph.SharedSet.Values.{IsLayered, preorder}
use frostbuild.Graph.SharedSet.Total.{distinct, flatten-preorder}
use frostbuild.Graph.Build.Grown.{Below}
use frostbuild.Graph.CleanDirs.{validate_clean_dirs, claim_all, claim_dirs}
use frostbuild.Graph.Build.Configured.{IsConfigured, from_manifest_configured-IsConfigured}
use frostbuild.Tests.ManifestRuns.{sample_manifest, sample_toolchain, copy_target}

abbrev lib_target : Target
lib_target = record copy_target {
  kind = cc_library;
  srcs = codes "lib.c" ∷ [];
  deps = codes "copy" ∷ [];
  includes = codes "inc" ∷ [];
  cmd = none;
  inputs = [];
  outputs = [];
}

abbrev app_target : Target
app_target = record lib_target {
  kind = cc_binary;
  srcs = codes "main.cc" ∷ [];
  deps = codes "lib" ∷ [];
  includes = [];
}

abbrev pub three : Manifest
three = record sample_manifest {
  manifest_paths = codes "frost.toml" ∷ [];
  targets =
      (codes "app", app_target) ∷ (codes "copy", copy_target) ∷ (codes "lib", lib_target) ∷ [];
}

abbrev or_empty : Result BuildError BuildGraph → BuildGraph
or_empty (ok g) = g
or_empty (err e) = empty_graph [] [] sample_toolchain []

abbrev pub three_graph : BuildGraph
three_graph = or_empty (from_manifest_configured three (codes "debug") host_platform)

abbrev is_ok : Result BuildError BuildGraph → Bool
is_ok (ok g) = true
is_ok (err e) = false

or_empty-ok : (r : Result BuildError BuildGraph) → is_ok r ≡ true → r ≡ ok (or_empty r)
or_empty-ok (ok g) e = refl
or_empty-ok (err e) h = absurd (cc (h))

three_is_built : is_ok (from_manifest_configured three (codes "debug") host_platform) ≡ true
unfolding from_manifest_configured check_profile expand_all expand_target expand_genrule expand_cc
    build_cc archive_library link_binary finish_link compile_one compile_each add_files dep_outputs
    push finish_target replace_from expand_genrule_cmd trim_slashes path_key is_cxx_source
    rsplit_once join_set flatten flatten_loop validate_clean_dirs claim_all claim_dirs file
    push_action claim_outputs toposort_targets visit visit_each position_or contains_key lookup
    insert text_cmp text_eq toolchain_for contains split join edges pushed_parents
three_is_built = refl

pub run_from_manifest :
    from_manifest_configured three (codes "debug") host_platform ≡ ok three_graph
run_from_manifest =
    or_empty-ok (from_manifest_configured three (codes "debug") host_platform) three_is_built

from_manifest_configured-IsConfigured_example : IsConfigured three_graph
from_manifest_configured-IsConfigured_example =
    from_manifest_configured-IsConfigured three (codes "debug") host_platform three_graph
      run_from_manifest

-- A diamond of shared sets: the last one has two parents, which have one parent in common.
abbrev diamond : List SharedSet
diamond =
    record { own = codes "a" ∷ []; parents = [] }
    ∷ record { own = codes "b" ∷ []; parents = 0 ∷ [] }
    ∷ record { own = codes "c" ∷ []; parents = 0 ∷ [] }
    ∷ record { own = codes "d" ∷ []; parents = 2 ∷ 1 ∷ [] }
    ∷ []

diamond-IsLayered : IsLayered diamond
diamond-IsLayered zero s e = subst (λ (x : SharedSet). Below 0 x.parents) (eq_of_some e) tt
diamond-IsLayered (suc zero) s e =
    subst (λ (x : SharedSet). Below 1 x.parents) (eq_of_some e) (omega arith, tt)
diamond-IsLayered (suc (suc zero)) s e =
    subst (λ (x : SharedSet). Below 2 x.parents) (eq_of_some e) (omega arith, tt)
diamond-IsLayered (suc (suc (suc zero))) s e =
    subst (λ (x : SharedSet). Below 3 x.parents) (eq_of_some e) (omega arith, (omega arith, tt))
diamond-IsLayered (suc (suc (suc (suc n)))) s e = absurd (cc (e))

run_flatten : flatten diamond 3 ≡ some (codes "d" ∷ codes "c" ∷ codes "a" ∷ codes "b" ∷ [])
unfolding flatten flatten_loop edges pushed_parents contains_key lookup insert text_cmp
run_flatten = refl

flatten-preorder_example : flatten diamond 3 ≡ some (distinct (preorder diamond 3))
flatten-preorder_example = flatten-preorder diamond 3 diamond-IsLayered (omega arith)
