-- ===== src/Tests/NodeCodec.antt =====
-- Codecs of the graph's nodes, their fields in the order of the records.
use frostbuild.Base.{ℕ, zero, suc, Bool, List, Option, ◌≡◌, refl}
use frostbuild.Base.Text.{Text}
use frostbuild.Base.BTreeMap.{BTreeMap}
use frostbuild.Manifest.{TargetKind}
use frostbuild.Graph.{ActionKind, FileNode, ActionNode, TargetNode}
use frostbuild.Tests.Codes.{Code, number, pair, list, via, option, boolean, text, texts, text_map}

abbrev target_kind_to : TargetKind → ℕ
target_kind_to TargetKind.cc_binary = 0
target_kind_to TargetKind.cc_library = 1
target_kind_to TargetKind.cc_test = 2
target_kind_to TargetKind.genrule = 3
target_kind_to TargetKind.test = 4
target_kind_to TargetKind.kofun_binary = 5
target_kind_to TargetKind.command = 6

abbrev target_kind_of : ℕ → TargetKind
target_kind_of zero = TargetKind.cc_binary
target_kind_of (suc zero) = TargetKind.cc_library
target_kind_of (suc (suc zero)) = TargetKind.cc_test
target_kind_of (suc (suc (suc zero))) = TargetKind.genrule
target_kind_of (suc (suc (suc (suc zero)))) = TargetKind.test
target_kind_of (suc (suc (suc (suc (suc zero))))) = TargetKind.kofun_binary
target_kind_of (suc (suc (suc (suc (suc (suc _)))))) = TargetKind.command

pub target_kind_of-target_kind_to : (k : TargetKind) → target_kind_of (target_kind_to k) ≡ k
target_kind_of-target_kind_to TargetKind.cc_binary = refl
target_kind_of-target_kind_to TargetKind.cc_library = refl
target_kind_of-target_kind_to TargetKind.cc_test = refl
target_kind_of-target_kind_to TargetKind.genrule = refl
target_kind_of-target_kind_to TargetKind.test = refl
target_kind_of-target_kind_to TargetKind.kofun_binary = refl
target_kind_of-target_kind_to TargetKind.command = refl

abbrev action_kind_to : ActionKind → ℕ
action_kind_to ActionKind.compile = 0
action_kind_to ActionKind.archive = 1
action_kind_to ActionKind.link = 2
action_kind_to ActionKind.genrule = 3
action_kind_to ActionKind.test = 4
action_kind_to ActionKind.kofun_compile = 5
action_kind_to ActionKind.command = 6

abbrev action_kind_of : ℕ → ActionKind
action_kind_of zero = ActionKind.compile
action_kind_of (suc zero) = ActionKind.archive
action_kind_of (suc (suc zero)) = ActionKind.link
action_kind_of (suc (suc (suc zero))) = ActionKind.genrule
action_kind_of (suc (suc (suc (suc zero)))) = ActionKind.test
action_kind_of (suc (suc (suc (suc (suc zero))))) = ActionKind.kofun_compile
action_kind_of (suc (suc (suc (suc (suc (suc _)))))) = ActionKind.command

pub action_kind_of-action_kind_to : (k : ActionKind) → action_kind_of (action_kind_to k) ≡ k
action_kind_of-action_kind_to ActionKind.compile = refl
action_kind_of-action_kind_to ActionKind.archive = refl
action_kind_of-action_kind_to ActionKind.link = refl
action_kind_of-action_kind_to ActionKind.genrule = refl
action_kind_of-action_kind_to ActionKind.test = refl
action_kind_of-action_kind_to ActionKind.kofun_compile = refl
action_kind_of-action_kind_to ActionKind.command = refl

abbrev FileNodeFields : Type 0
FileNodeFields = Text × (Option ℕ)

abbrev file_node_fields : Code FileNodeFields
file_node_fields = pair text (option number)

abbrev file_node_to : FileNode → FileNodeFields
file_node_to r = (r.path, r.producer)

abbrev file_node_of : FileNodeFields → FileNode
file_node_of (path', producer') = record { path = path'; producer = producer' }

abbrev pub file_node : Code FileNode
file_node = via file_node_fields file_node_to file_node_of (λ r. refl)

abbrev TargetNodeFields : Type 0
TargetNodeFields = Text × (TargetKind × ((List Text) × ((List ℕ) × (List ℕ))))

abbrev target_node_fields : Code TargetNodeFields
target_node_fields = pair text (
    pair (via number target_kind_to target_kind_of target_kind_of-target_kind_to)
      (pair texts (pair (list number) (list number))))

abbrev target_node_to : TargetNode → TargetNodeFields
target_node_to r = (r.name, (r.kind, (r.deps, (r.actions, r.outputs))))

abbrev target_node_of : TargetNodeFields → TargetNode
target_node_of (name', (kind', (deps', (actions', outputs')))) = record {
  name = name';
  kind = kind';
  deps = deps';
  actions = actions';
  outputs = outputs';
}

abbrev pub target_node : Code TargetNode
target_node = via target_node_fields target_node_to target_node_of (λ r. refl)

abbrev ActionNodeFields : Type 0
ActionNodeFields =
    Text
    × (Text
        × (ActionKind
            × (Text
                × (Bool
                    × ((List Text)
                        × ((List (List Text))
                            × ((List Text)
                                × (Bool
                                    × ((BTreeMap Text Text)
                                        × ((List Text)
                                            × ((List ℕ)
                                                × ((List ℕ) × ((List ℕ) × (Option Text))))))))))))))

abbrev action_node_fields : Code ActionNodeFields
action_node_fields = pair text (
    pair text (
      pair (via number action_kind_to action_kind_of action_kind_of-action_kind_to) (
        pair text (
          pair boolean (
            pair texts (
              pair (list texts) (
                pair texts (
                  pair boolean (
                    pair text_map (
                      pair texts (
                        pair (list number)
                          (pair (list number) (pair (list number) (option text))))))))))))))

abbrev action_node_to : ActionNode → ActionNodeFields
action_node_to r = (
  r.id,
  (
    r.desc,
    (
      r.kind,
      (
        r.target,
        (
          r.sandbox,
          (
            r.argv,
            (
              r.followup_argv,
              (
                r.clean_dirs,
                (
                  r.preserve_outputs,
                  (r.env, (r.pass_env, (r.inputs, (r.order_only_inputs, (r.outputs, r.depfile))))),
                ),
              ),
            ),
          ),
        ),
      ),
    ),
  ),
)

abbrev action_node_of : ActionNodeFields → ActionNode
action_node_of
      (
        id',
        (
          desc',
          (
            kind',
            (
              target',
              (
                sandbox',
                (
                  argv',
                  (
                    followup_argv',
                    (
                      clean_dirs',
                      (
                        preserve_outputs',
                        (env', (pass_env', (inputs', (order_only_inputs', (outputs', depfile'))))),
                      ),
                    ),
                  ),
                ),
              ),
            ),
          ),
        ),
      ) =
    record {
      id = id';
      desc = desc';
      kind = kind';
      target = target';
      sandbox = sandbox';
      argv = argv';
      followup_argv = followup_argv';
      clean_dirs = clean_dirs';
      preserve_outputs = preserve_outputs';
      env = env';
      pass_env = pass_env';
      inputs = inputs';
      order_only_inputs = order_only_inputs';
      outputs = outputs';
      depfile = depfile';
    }

abbrev pub action_node : Code ActionNode
action_node = via action_node_fields action_node_to action_node_of (λ r. refl)
