-- ===== src/Graph/Build/Compile.antt =====
-- crates/frostbuild-core/src/graph.rs: `from_manifest_configured`, the C and C++ targets: a compilation
-- for each source, then an archive, or a link and perhaps the run of the test.
use frostbuild.Base.{
  ℕ, Bool, true, false, List, [], ◌∷◌, ◌++◌, map, some, none, any, Result, ok, ◌>>=◌, if◌then◌else◌,
}
use frostbuild.Base.Text.{Text, codes}
use frostbuild.Manifest.{Toolchain, Profile, Target, TargetKind}
use frostbuild.Graph.{compile, archive, link, test, FileId, ActionId, BuildGraph, file}
use frostbuild.Graph.Templates.{Configuration, path_key, is_cxx_source}
use frostbuild.Graph.SharedSet.{SharedSet, join_set, flatten}
use frostbuild.Graph.Build.{
  BuildError, panics, from_option, Expansion, add_files, push, plain_action, Parents, node_of,
  finish_target,
}
use frostbuild.Graph.Build.Rules.{stamp_path}

-- What every compilation of a target shares: the flags, and the generated files that it is ordered
-- behind.
pub record CompileFlags : Type 0 where
  pub cflags : List Text
  pub cxxflags : List Text
  pub include_flags : List Text
  pub gen_outs : List Text

abbrev pub object_path : Text → Text → Text → Text
object_path tree name src =
    codes ".frost/obj/"
    ++ (tree ++ (codes "/" ++ (path_key name ++ (codes "/" ++ (src ++ codes ".o")))))

abbrev pub compile_argv : Toolchain → CompileFlags → (src obj depfile : Text) → List Text
compile_argv tc flags src obj depfile =
    (if is_cxx_source src then tc.cxx else tc.cc)
    ∷ (flags.cflags
        ++ ((if is_cxx_source src then flags.cxxflags else [])
            ++ (flags.include_flags
                ++ (codes "-MD"
                    ∷ codes "-MF"
                    ∷ depfile
                    ∷ codes "-c"
                    ∷ src
                    ∷ codes "-o"
                    ∷ obj
                    ∷ []))))

-- The graph, and the actions, paths and files of the objects so far.
pub record Objects : Type 0 where
  pub graph : BuildGraph
  pub actions : List ActionId
  pub objs : List Text
  pub obj_ids : List FileId

unfoldable pub compile_one :
    Configuration
    → Toolchain
    → CompileFlags
    → Text
    → Target
    → Text
    → Objects
    → Result BuildError Objects
compile_one c tc flags name target src o = do
  let obj = object_path c.tree name src
  let depfile = obj ++ codes ".d"
  let with_source = file o.graph src
  let with_gens = add_files with_source.0 flags.gen_outs
  let with_object = file with_gens.0 obj
  pushed ← push with_object.0 (
      plain_action compile (codes "compile:" ++ (name ++ (codes ":" ++ src)))
        (codes "CC " ++ (src ++ (codes " (" ++ (name ++ codes ")")))) name target
        (compile_argv tc flags src obj depfile) (with_source.1 ∷ []) with_gens.1
        (with_object.1 ∷ []) (some depfile))
  ok (record {
    graph = pushed.0;
    actions = o.actions ++ pushed.1 ∷ [];
    objs = o.objs ++ obj ∷ [];
    obj_ids = o.obj_ids ++ with_object.1 ∷ [];
  })

unfoldable pub compile_each :
    Configuration
    → Toolchain
    → CompileFlags
    → Text
    → Target
    → List Text
    → Objects
    → Result BuildError Objects
compile_each c tc flags name target [] o = ok o
compile_each c tc flags name target (src ∷ srcs) o = do
  o' ← compile_one c tc flags name target src o
  compile_each c tc flags name target srcs o'

unfoldable pub archive_library :
    Configuration
    → Toolchain
    → Expansion
    → Text
    → Target
    → Parents
    → Objects
    → Result BuildError Expansion
archive_library c tc e name target p o = do
  let lib = codes ".frost/lib/" ++ (c.tree ++ (codes "/lib" ++ (path_key name ++ codes ".a")))
  let with_lib = file o.graph lib
  pushed ← push with_lib.0 (
      plain_action archive (codes "archive:" ++ name) (codes "AR lib" ++ (name ++ codes ".a")) name
        target (tc.ar ∷ (tc.arflags ++ (lib ∷ o.objs))) o.obj_ids [] (with_lib.1 ∷ []) none)
  ok (
      finish_target e pushed.0 name p (lib ∷ []) []
        (node_of name target (o.actions ++ pushed.1 ∷ []) (with_lib.1 ∷ [])))

abbrev pub link_argv : Toolchain → Profile → Target → List Text → List Text → Text → List Text
link_argv tc profile target objs libs bin =
    (if any is_cxx_source target.srcs then tc.cxx else tc.cc)
    ∷ (objs
        ++ (libs
            ++ (tc.ldflags ++ (profile.ldflags ++ (target.ldflags ++ (codes "-o" ∷ bin ∷ []))))))

abbrev pub is_cc_test : TargetKind → Bool
is_cc_test TargetKind.cc_test = true
is_cc_test _ = false

-- The action that runs the linked test.
unfoldable pub run_test :
    Configuration
    → Expansion
    → Text
    → Target
    → Parents
    → BuildGraph
    → Text
    → FileId
    → List ActionId
    → Result BuildError Expansion
run_test c e name target p g bin bin_id actions = do
  let with_stamp = file g (stamp_path c.tree name)
  pushed ← push with_stamp.0 (
      plain_action test (codes "test:" ++ name) (codes "TEST " ++ name) name target (bin ∷ [])
        (bin_id ∷ []) [] (with_stamp.1 ∷ []) none)
  ok (
      finish_target e pushed.0 name p [] []
        (node_of name target (actions ++ pushed.1 ∷ []) (with_stamp.1 ∷ [])))

unfoldable pub finish_link :
    Configuration
    → Expansion
    → Text
    → Target
    → Parents
    → BuildGraph
    → Text
    → FileId
    → List ActionId
    → Result BuildError Expansion
finish_link c e name target p g bin bin_id actions =
    if is_cc_test target.kind
    then run_test c e name target p g bin bin_id actions
    else ok (finish_target e g name p [] [] (node_of name target actions (bin_id ∷ [])))

unfoldable pub link_binary :
    Configuration
    → Toolchain
    → Profile
    → Expansion
    → Text
    → Target
    → Parents
    → List Text
    → Objects
    → Result BuildError Expansion
link_binary c tc profile e name target p libs o = do
  let bin = codes ".frost/bin/" ++ (c.tree ++ (codes "/" ++ path_key name))
  let with_libs = add_files o.graph libs
  let with_bin = file with_libs.0 bin
  pushed ← push with_bin.0 (
      plain_action link (codes "link:" ++ name) (codes "LINK " ++ name) name target
        (link_argv tc profile target o.objs libs bin) (o.obj_ids ++ with_libs.1) []
        (with_bin.1 ∷ []) none)
  finish_link c e name target p pushed.0 bin with_bin.1 (o.actions ++ pushed.1 ∷ [])

-- `SharedSet::join(Vec::new(), parents).flatten()`: the node is joined for this and then dropped.
abbrev pub flatten_joined : List SharedSet → List ℕ → Result BuildError (List Text)
flatten_joined sets parents =
    let (sets', node) = join_set [] parents sets in from_option panics (flatten sets' node)

abbrev pub include_flag : Text → Text
include_flag dir = codes "-I" ++ dir

abbrev pub finish_cc :
    TargetKind
    → Configuration
    → Toolchain
    → Profile
    → Expansion
    → Text
    → Target
    → Parents
    → List Text
    → Objects
    → Result BuildError Expansion
finish_cc TargetKind.cc_library c tc profile e name target p libs o =
    archive_library c tc e name target p o
finish_cc _ c tc profile e name target p libs o = link_binary c tc profile e name target p libs o

unfoldable pub build_cc :
    Configuration
    → Toolchain
    → Profile
    → Expansion
    → Text
    → Target
    → Parents
    → CompileFlags
    → List Text
    → Result BuildError Expansion
build_cc c tc profile e name target p flags libs = do
  let none_yet : Objects = record { graph = e.graph; actions = []; objs = []; obj_ids = [] }
  o ← compile_each c tc flags name target target.srcs none_yet
  finish_cc target.kind c tc profile e name target p libs o

unfoldable pub expand_cc :
    Configuration
    → Toolchain
    → Profile
    → Expansion
    → Text
    → Target
    → Parents
    → Result BuildError Expansion
expand_cc c tc profile e name target p = do
  own_includes ← from_option panics (flatten e.sets p.include_set)
  libs ← flatten_joined e.sets p.lib_parents
  gen_outs ← flatten_joined e.sets p.gen_parents
  let flags : CompileFlags = record {
    cflags = tc.cflags ++ (profile.cflags ++ target.cflags);
    cxxflags = tc.cxxflags ++ profile.cxxflags;
    include_flags = map include_flag own_includes;
    gen_outs = gen_outs;
  }
  build_cc c tc profile e name target p flags libs
