-- ===== src/Graph/Build/Configured.antt =====
-- The graph of a manifest: it is in order, whatever the manifest, the profile and the platform.
use frostbuild.Base.{
  List, [], ◌∷◌, none, Result, ok, err, ◌>>=◌, Ensures, >>=-Ensures, Ensures-ok, ◌≡◌, refl, sym,
  ◌∙◌,
}
use frostbuild.Base.Text.{Text}
use frostbuild.Base.BTreeMap.{BTreeMap, lookup}
use frostbuild.Manifest.{Toolchain, Profile, Target, TargetKind, Manifest}
use frostbuild.Graph.{FileId, BuildGraph}
use frostbuild.Graph.SharedSet.{SharedSet}
use frostbuild.Graph.Templates.{Configuration}
use frostbuild.Graph.Build.{clean_dir_error, lift, Expansion, Parents}
use frostbuild.Graph.Build.Expand.{
  expand_kind, expand_target, expand_all, empty_graph, nothing_expanded, from_manifest_configured,
  flags_of,
}
use frostbuild.Graph.Claims.{producer_of}
use frostbuild.Graph.CleanDirs.{CleanDirError, validate_clean_dirs}
use frostbuild.Graph.CleanDirs.Apart.{IsClean, validate_clean_dirs-IsClean}
use frostbuild.Graph.Build.Grown.{IsGrown}
use frostbuild.Graph.Build.Sound.{InOrder, any-then, expand_genrule-InOrder, expand_test-InOrder}
use frostbuild.Graph.Build.Commands.{expand_command-InOrder, expand_kofun-InOrder}
use frostbuild.Graph.Build.Linked.{expand_cc-InOrder}

lift-Ensures :
    {X : Type 0} (P : X → Type 0) (r : Result CleanDirError X)
    → Ensures P r
    → Ensures P (lift clean_dir_error r)
lift-Ensures P (ok x) h = h
lift-Ensures P (err e) h = tt

nothing_produced : (f : FileId) → producer_of [] f ≡ none
nothing_produced f = refl

expand_kind-InOrder :
    (kind : TargetKind) (c : Configuration) (tc : Toolchain) (profile : Profile) (e : Expansion)
    (name : Text) (target : Target) (p : Parents)
    → InOrder e
    → Ensures InOrder (expand_kind kind c tc profile e name target p)
expand_kind-InOrder TargetKind.genrule c tc profile e name target p h =
    expand_genrule-InOrder e name target p h
expand_kind-InOrder TargetKind.test c tc profile e name target p h =
    expand_test-InOrder c tc e name target p h
expand_kind-InOrder TargetKind.command c tc profile e name target p h =
    expand_command-InOrder c tc e name target p h
expand_kind-InOrder TargetKind.kofun_binary c tc profile e name target p h =
    expand_kofun-InOrder c tc e name target p h
expand_kind-InOrder TargetKind.cc_library c tc profile e name target p h =
    expand_cc-InOrder c tc profile e name target p h
expand_kind-InOrder TargetKind.cc_binary c tc profile e name target p h =
    expand_cc-InOrder c tc profile e name target p h
expand_kind-InOrder TargetKind.cc_test c tc profile e name target p h =
    expand_cc-InOrder c tc profile e name target p h

expand_target-InOrder :
    (c : Configuration) (tc : Toolchain) (profile : Profile) (targets : BTreeMap Text Target)
    (name : Text) (e : Expansion)
    → InOrder e
    → Ensures InOrder (expand_target c tc profile targets name e)
unfolding expand_target
expand_target-InOrder c tc profile targets name e h =
    search
      (
        any-then,
        λ (target : Target) (p : Parents) (sets : List SharedSet).
            expand_kind-InOrder target.kind c tc profile (record e { sets = sets }) name target p h,
      )
      depth 10

expand_all-InOrder :
    (c : Configuration) (tc : Toolchain) (profile : Profile) (targets : BTreeMap Text Target)
    (order : List Text) (e : Expansion)
    → InOrder e
    → Ensures InOrder (expand_all c tc profile targets order e)
unfolding expand_all
expand_all-InOrder c tc profile targets [] e h = h
expand_all-InOrder c tc profile targets (name ∷ order) e h =
    >>=-Ensures InOrder InOrder (expand_target c tc profile targets name e)
      (expand_all c tc profile targets order) (expand_target-InOrder c tc profile targets name e h)
      (expand_all-InOrder c tc profile targets order)

empty_graph-IsGrown :
    (profile platform : Text) (tc : Toolchain) (defaults : List Text)
    → IsGrown (empty_graph profile platform tc defaults)
unfolding lookup
empty_graph-IsGrown profile platform tc defaults = record {
  owned = λ f a. (λ e. absurd (cc (sym (nothing_produced f) ∙ e)), λ d. absurd (cc (d.found)));
  known = λ path id e. absurd (cc (e));
  read = λ a action e. absurd (cc (e));
  made = λ name t e. absurd (cc (e));
}

-- What a build can rely on: the graph is in order, and the directories that are cleaned are apart.
pub record IsConfigured (g : BuildGraph) : Type 0 where
  pub grown : IsGrown g
  pub clean : IsClean g

checked :
    (e : Expansion)
    → InOrder e
    → Ensures IsConfigured (lift clean_dir_error (validate_clean_dirs e.graph) >>= λ _. ok e.graph)
checked e h =
    >>=-Ensures (λ _. IsClean e.graph) IsConfigured _ (λ _. ok e.graph)
      (lift-Ensures (λ _. IsClean e.graph) (validate_clean_dirs e.graph)
        (validate_clean_dirs-IsClean e.graph))
      (λ _ clean. record { grown = h; clean = clean })

configured :
    (m : Manifest) (profile platform : Text)
    → Ensures IsConfigured (from_manifest_configured m profile platform)
unfolding from_manifest_configured
configured m profile platform =
    let expanded : (c : Configuration) (tc : Toolchain) (order : List Text)
        → Ensures IsConfigured (
            expand_all c tc (flags_of m profile) m.targets order
              (nothing_expanded (empty_graph profile platform tc m.default_targets))
            >>= λ e. (lift clean_dir_error (validate_clean_dirs e.graph) >>= λ _. ok e.graph)) =
      λ c tc order.
        let start = nothing_expanded (empty_graph profile platform tc m.default_targets) in
        >>=-Ensures InOrder IsConfigured
          (expand_all c tc (flags_of m profile) m.targets order start) _
          (expand_all-InOrder c tc (flags_of m profile) m.targets order start
            (empty_graph-IsGrown profile platform tc m.default_targets))
          checked in
    search (any-then, expanded) depth 10

-- A graph that is built from a manifest, for any profile and platform, is consistent: each known
-- path has its own file, a file's producer is the one action that declares it as an output, the
-- ids of actions and targets are ids of the graph, the directories that actions clean lie neither
-- inside each other nor around a file of the graph.
pub from_manifest_configured-IsConfigured :
    (m : Manifest) (profile platform : Text) (g : BuildGraph)
    → from_manifest_configured m profile platform ≡ ok g
    → IsConfigured g
from_manifest_configured-IsConfigured m profile platform g e =
    Ensures-ok IsConfigured (from_manifest_configured m profile platform)
      (configured m profile platform) e
