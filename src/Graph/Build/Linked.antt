-- ===== src/Graph/Build/Linked.antt =====
-- The C and C++ rules, compilation by compilation, keep the graph in order.
use frostbuild.Base.{
  ◌<◌, List, [], ◌∷◌, ◌++◌, length, All-append, ok, Ensures, >>=-Ensures, ◌≡◌, arith, sym, subst,
  ◌∙◌, Bool-cases, inl, inr,
}
use frostbuild.Base.Text.{Text, codes}
use frostbuild.Manifest.{Toolchain, Profile, Target, TargetKind}
use frostbuild.Graph.{FileId, ActionId, BuildGraph, file}
use frostbuild.Graph.Templates.{Configuration, path_key}
use frostbuild.Graph.Build.{Expansion, add_files, push, Parents, node_of, finish_target}
use frostbuild.Graph.Build.Rules.{stamp_path}
use frostbuild.Graph.Build.Compile.{
  CompileFlags, Objects, object_path, compile_one, compile_each, archive_library, is_cc_test,
  run_test, finish_link, link_binary, finish_cc, build_cc, expand_cc,
}
use frostbuild.Graph.Build.Grown.{Below, Below-mono, IsGrown, file-IsGrown}
use frostbuild.Graph.Build.Steps.{add_files-IsGrown}
use frostbuild.Graph.Build.Pushed.{Pushed, push-Pushed}
use frostbuild.Graph.Build.Sound.{InOrder, any-then, push-then, finish_target-InOrder, nil_behind}

-- The graph is in order, and has the actions and the files of the objects.
pub record Compiled (o : Objects) : Type 0 where
  pub grown : IsGrown o.graph
  pub actions_below : Below (length o.graph.actions) o.actions
  pub files_below : Below (length o.graph.files) o.obj_ids

-- The new action behind those that are there.
pushed_behind :
    (g : BuildGraph) (r : BuildGraph × ActionId) (actions : List ActionId)
    → Pushed g r
    → Below (length g.actions) actions
    → Below (length r.0.actions) (actions ++ r.1 ∷ [])
pushed_behind g r actions h b =
    All-append (λ i. i < length r.0.actions) actions (r.1 ∷ [])
      (Below-mono (length g.actions) (length r.0.actions) actions (omega (arith, h.one_more)) b)
      (omega (arith, h.one_more, h.place), tt)

-- A target whose last action was just pushed.
finish_behind-InOrder :
    (e : Expansion) (g : BuildGraph) (r : BuildGraph × ActionId) (name : Text) (target : Target)
    (p : Parents) (libs : List Text) (actions : List ActionId) (output : FileId)
    → Pushed g r
    → Below (length g.actions) actions
    → output < length g.files
    → InOrder (
        finish_target e r.0 name p libs []
          (node_of name target (actions ++ r.1 ∷ []) (output ∷ [])))
finish_behind-InOrder e g r name target p libs actions output h b o =
    finish_target-InOrder e r.0 name p libs []
      (node_of name target (actions ++ r.1 ∷ []) (output ∷ [])) h.grown
      (pushed_behind g r actions h b) (omega (arith, h.files_kept, o), tt)

compile_one-Compiled :
    (c : Configuration) (tc : Toolchain) (flags : CompileFlags) (name : Text) (target : Target)
    (src : Text) (o : Objects)
    → Compiled o
    → Ensures Compiled (compile_one c tc flags name target src o)
unfolding compile_one
compile_one-Compiled c tc flags name target src o h =
    let source : BuildGraph × FileId = file o.graph src in
    let (grown1, wider1, below1) = file-IsGrown o.graph src h.grown in
    let gens : BuildGraph × List FileId = add_files source.0 flags.gen_outs in
    let (grown2, wider2, below2) = add_files-IsGrown source.0 flags.gen_outs grown1 in
    let object : BuildGraph × FileId = file gens.0 (object_path c.tree name src) in
    let (grown3, wider3, below3) = file-IsGrown gens.0 (object_path c.tree name src) grown2 in
    let reads : Below (length object.0.files) (source.1 ∷ gens.1) = (
      omega (arith, below1, wider2.more_files, wider3.more_files),
      Below-mono (length gens.0.files) (length object.0.files) gens.1 wider3.more_files below2,
    ) in
    let acts : Below (length object.0.actions) o.actions =
      subst (λ all. Below (length all) o.actions)
        (sym (wider3.same_actions ∙ wider2.same_actions ∙ wider1.same_actions)) h.actions_below in
    >>=-Ensures (Pushed object.0) Compiled (push object.0 _) _ (push-Pushed object.0 _ grown3 reads)
      (λ pushed r. record {
        grown = r.grown;
        actions_below = pushed_behind object.0 pushed o.actions r acts;
        files_below =
            All-append (λ i. i < length pushed.0.files) o.obj_ids (object.1 ∷ [])
              (Below-mono (length o.graph.files) (length pushed.0.files) o.obj_ids
                (omega
                  (arith, r.files_kept, wider1.more_files, wider2.more_files, wider3.more_files))
                h.files_below)
              (omega (arith, r.files_kept, below3), tt);
      })

compile_each-Compiled :
    (c : Configuration) (tc : Toolchain) (flags : CompileFlags) (name : Text) (target : Target)
    (srcs : List Text) (o : Objects)
    → Compiled o
    → Ensures Compiled (compile_each c tc flags name target srcs o)
unfolding compile_each
compile_each-Compiled c tc flags name target [] o h = h
compile_each-Compiled c tc flags name target (src ∷ srcs) o h =
    >>=-Ensures Compiled Compiled (compile_one c tc flags name target src o)
      (compile_each c tc flags name target srcs)
      (compile_one-Compiled c tc flags name target src o h)
      (compile_each-Compiled c tc flags name target srcs)

archive_library-InOrder :
    (c : Configuration) (tc : Toolchain) (e : Expansion) (name : Text) (target : Target)
    (p : Parents) (o : Objects)
    → Compiled o
    → Ensures InOrder (archive_library c tc e name target p o)
unfolding archive_library
archive_library-InOrder c tc e name target p o h =
    let lib : Text =
      codes ".frost/lib/" ++ (c.tree ++ (codes "/lib" ++ (path_key name ++ codes ".a"))) in
    let with_lib : BuildGraph × FileId = file o.graph lib in
    let (grown, wider, below) = file-IsGrown o.graph lib h.grown in
    push-then with_lib.0 _ _ grown
      (nil_behind (length with_lib.0.files) o.obj_ids (
        Below-mono (length o.graph.files) (length with_lib.0.files) o.obj_ids wider.more_files
          h.files_below))
      (λ pushed r.
        finish_behind-InOrder e with_lib.0 pushed name target p (lib ∷ []) o.actions with_lib.1 r
          (subst (λ all. Below (length all) o.actions) (sym wider.same_actions) h.actions_below)
          below)

run_test-InOrder :
    (c : Configuration) (e : Expansion) (name : Text) (target : Target) (p : Parents)
    (g : BuildGraph) (bin : Text) (bin_id : FileId) (actions : List ActionId)
    → IsGrown g
    → bin_id < length g.files
    → Below (length g.actions) actions
    → Ensures InOrder (run_test c e name target p g bin bin_id actions)
unfolding run_test
run_test-InOrder c e name target p g bin bin_id actions h b acts =
    let stamp : BuildGraph × FileId = file g (stamp_path c.tree name) in
    let (grown, wider, below) = file-IsGrown g (stamp_path c.tree name) h in
    push-then stamp.0 _ _ grown (omega (arith, b, wider.more_files), tt)
      (λ pushed r.
        finish_behind-InOrder e stamp.0 pushed name target p [] actions stamp.1 r
          (subst (λ all. Below (length all) actions) (sym wider.same_actions) acts) below)

finish_link-InOrder :
    (c : Configuration) (e : Expansion) (name : Text) (target : Target) (p : Parents)
    (g : BuildGraph) (bin : Text) (bin_id : FileId) (actions : List ActionId)
    → IsGrown g
    → bin_id < length g.files
    → Below (length g.actions) actions
    → Ensures InOrder (finish_link c e name target p g bin bin_id actions)
unfolding finish_link
finish_link-InOrder c e name target p g bin bin_id actions h b acts =
    elim (Bool-cases (is_cc_test target.kind)) [
      | inl q ↦
          let run : run_test c e name target p g bin bin_id actions
              ≡ finish_link c e name target p g bin bin_id actions =
            ground arith in
          subst (Ensures InOrder) run
            (run_test-InOrder c e name target p g bin bin_id actions h b acts)
      | inr q ↦
          let node = node_of name target actions (bin_id ∷ []) in
          let run : ok (finish_target e g name p [] [] node)
              ≡ finish_link c e name target p g bin bin_id actions =
            ground arith in
          subst (Ensures InOrder) run (finish_target-InOrder e g name p [] [] node h acts (b, tt))
    ]

link_binary-InOrder :
    (c : Configuration) (tc : Toolchain) (profile : Profile) (e : Expansion) (name : Text)
    (target : Target) (p : Parents) (libs : List Text) (o : Objects)
    → Compiled o
    → Ensures InOrder (link_binary c tc profile e name target p libs o)
unfolding link_binary
link_binary-InOrder c tc profile e name target p libs o h =
    let bin : Text = codes ".frost/bin/" ++ (c.tree ++ (codes "/" ++ path_key name)) in
    let with_libs : BuildGraph × List FileId = add_files o.graph libs in
    let (grown1, wider1, below1) = add_files-IsGrown o.graph libs h.grown in
    let with_bin : BuildGraph × FileId = file with_libs.0 bin in
    let (grown2, wider2, below2) = file-IsGrown with_libs.0 bin grown1 in
    let reads : Below (length with_bin.0.files) (o.obj_ids ++ with_libs.1) =
      All-append (λ i. i < length with_bin.0.files) o.obj_ids with_libs.1
        (Below-mono (length o.graph.files) (length with_bin.0.files) o.obj_ids
          (omega (arith, wider1.more_files, wider2.more_files)) h.files_below)
        (Below-mono (length with_libs.0.files) (length with_bin.0.files) with_libs.1
          wider2.more_files below1) in
    push-then with_bin.0 _ _ grown2
      (nil_behind (length with_bin.0.files) (o.obj_ids ++ with_libs.1) reads)
      (λ pushed r.
        finish_link-InOrder c e name target p pushed.0 bin with_bin.1 (o.actions ++ pushed.1 ∷ [])
          r.grown (omega (arith, below2, r.files_kept))
          (pushed_behind with_bin.0 pushed o.actions r (
            subst (λ all. Below (length all) o.actions)
              (sym (wider2.same_actions ∙ wider1.same_actions)) h.actions_below)))

finish_cc-InOrder :
    (kind : TargetKind) (c : Configuration) (tc : Toolchain) (profile : Profile) (e : Expansion)
    (name : Text) (target : Target) (p : Parents) (libs : List Text) (o : Objects)
    → Compiled o
    → Ensures InOrder (finish_cc kind c tc profile e name target p libs o)
finish_cc-InOrder TargetKind.cc_library c tc profile e name target p libs o h =
    archive_library-InOrder c tc e name target p o h
finish_cc-InOrder TargetKind.cc_binary c tc profile e name target p libs o h =
    link_binary-InOrder c tc profile e name target p libs o h
finish_cc-InOrder TargetKind.cc_test c tc profile e name target p libs o h =
    link_binary-InOrder c tc profile e name target p libs o h
finish_cc-InOrder TargetKind.genrule c tc profile e name target p libs o h =
    link_binary-InOrder c tc profile e name target p libs o h
finish_cc-InOrder TargetKind.test c tc profile e name target p libs o h =
    link_binary-InOrder c tc profile e name target p libs o h
finish_cc-InOrder TargetKind.kofun_binary c tc profile e name target p libs o h =
    link_binary-InOrder c tc profile e name target p libs o h
finish_cc-InOrder TargetKind.command c tc profile e name target p libs o h =
    link_binary-InOrder c tc profile e name target p libs o h

build_cc-InOrder :
    (c : Configuration) (tc : Toolchain) (profile : Profile) (e : Expansion) (name : Text)
    (target : Target) (p : Parents) (flags : CompileFlags) (libs : List Text)
    → InOrder e
    → Ensures InOrder (build_cc c tc profile e name target p flags libs)
unfolding build_cc
build_cc-InOrder c tc profile e name target p flags libs h =
    let none_yet : Objects = record { graph = e.graph; actions = []; objs = []; obj_ids = [] } in
    >>=-Ensures Compiled InOrder (compile_each c tc flags name target target.srcs none_yet)
      (finish_cc target.kind c tc profile e name target p libs)
      (compile_each-Compiled c tc flags name target target.srcs none_yet
        (record { grown = h; actions_below = tt; files_below = tt }))
      (finish_cc-InOrder target.kind c tc profile e name target p libs)

pub expand_cc-InOrder :
    (c : Configuration) (tc : Toolchain) (profile : Profile) (e : Expansion) (name : Text)
    (target : Target) (p : Parents)
    → InOrder e
    → Ensures InOrder (expand_cc c tc profile e name target p)
unfolding expand_cc
expand_cc-InOrder c tc profile e name target p h =
    search
      (
        any-then,
        λ (flags : CompileFlags) (libs : List Text).
            build_cc-InOrder c tc profile e name target p flags libs h,
      )
      depth 8
