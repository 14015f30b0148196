-- ===== src/Tests/GraphCodec.antt =====
-- A codec of stamps and graphs, which shows what the graph store takes from postcard can be had: a
-- graph is stored without its index of files.
use frostbuild.Base.{ℕ, ◌^◌, ◌<◌, List, [], ◌∷◌, Option, some, none, ◌≡◌, refl, ap, length, arith}
use frostbuild.Base.Text.{Text, codes}
use frostbuild.Base.BTreeMap.{BTreeMap}
use frostbuild.Manifest.{Toolchain}
use frostbuild.Graph.{FileNode, ActionNode, TargetNode, BuildGraph}
use frostbuild.GraphStore.{Bytes, DirStamp, SourcesStamp, without_ids}
use frostbuild.Tests.NodeCodec.{file_node, target_node, action_node}
use frostbuild.Tests.Codes.{
  Code, number, pair, list, via, option, text, texts, text_map, first, first-get,
}

abbrev ToolchainFields : Type 0
ToolchainFields =
    Text
    × (Text
        × (Text
            × ((Option Text)
                × ((BTreeMap Text Text)
                    × ((List Text) × ((List Text) × ((List Text) × (List Text))))))))

abbrev toolchain_fields : Code ToolchainFields
toolchain_fields = pair text (
    pair text
      (pair text (pair (option text) (pair text_map (pair texts (pair texts (pair texts texts)))))))

abbrev toolchain_to : Toolchain → ToolchainFields
toolchain_to r =
    (r.cc, (r.cxx, (r.ar, (r.kofunc, (r.tools, (r.arflags, (r.cflags, (r.cxxflags, r.ldflags))))))))

abbrev toolchain_of : ToolchainFields → Toolchain
toolchain_of
      (cc', (cxx', (ar', (kofunc', (tools', (arflags', (cflags', (cxxflags', ldflags')))))))) =
    record {
      cc = cc';
      cxx = cxx';
      ar = ar';
      kofunc = kofunc';
      tools = tools';
      arflags = arflags';
      cflags = cflags';
      cxxflags = cxxflags';
      ldflags = ldflags';
    }

abbrev toolchain : Code Toolchain
toolchain = via toolchain_fields toolchain_to toolchain_of (λ r. refl)

abbrev GraphFields : Type 0
GraphFields =
    (List FileNode)
    × ((List ActionNode)
        × ((BTreeMap Text TargetNode) × (Text × (Text × (Toolchain × (List Text))))))

abbrev graph_fields : Code GraphFields
graph_fields = pair (list file_node) (
    pair (list action_node)
      (pair (list (pair text target_node)) (pair text (pair text (pair toolchain texts)))))

abbrev graph_to : BuildGraph → GraphFields
graph_to r =
    (r.files, (r.actions, (r.targets, (r.profile, (r.platform, (r.toolchain, r.default_targets))))))

abbrev graph_of : GraphFields → BuildGraph
graph_of (files', (actions', (targets', (profile', (platform', (toolchain', default_targets')))))) =
    record {
      files = files';
      actions = actions';
      targets = targets';
      profile = profile';
      platform = platform';
      toolchain = toolchain';
      default_targets = default_targets';
      file_ids = [];
    }

abbrev DirStampFields : Type 0
DirStampFields = Text × (ℕ × Text)

abbrev dir_stamp_fields : Code DirStampFields
dir_stamp_fields = pair text (pair number text)

abbrev dir_stamp_to : DirStamp → DirStampFields
dir_stamp_to r = (r.path, (r.mtime_ns, r.entries_hash))

abbrev dir_stamp_of : DirStampFields → DirStamp
dir_stamp_of (path', (mtime_ns', entries_hash')) = record {
  path = path';
  mtime_ns = mtime_ns';
  entries_hash = entries_hash';
}

abbrev dir_stamp : Code DirStamp
dir_stamp = via dir_stamp_fields dir_stamp_to dir_stamp_of (λ r. refl)

abbrev StampFields : Type 0
StampFields = (List (Text × Text)) × (List DirStamp)

abbrev stamp_fields : Code StampFields
stamp_fields = pair (list (pair text text)) (list dir_stamp)

abbrev stamp_to : SourcesStamp → StampFields
stamp_to r = (r.manifests, r.dirs)

abbrev stamp_of : StampFields → SourcesStamp
stamp_of (manifests', dirs') = record { manifests = manifests'; dirs = dirs' }

abbrev stamp_code : Code SourcesStamp
stamp_code = via stamp_fields stamp_to stamp_of (λ r. refl)

pub encode_graph : BuildGraph → Bytes
encode_graph g = graph_fields.put (graph_to g) []

unfoldable decode_fields : Bytes → Option GraphFields
decode_fields b = first (graph_fields.get b)

abbrev graph_of_option : Option GraphFields → Option BuildGraph
graph_of_option none = none
graph_of_option (some x) = some (graph_of x)

pub decode_graph : Bytes → Option BuildGraph
decode_graph b = graph_of_option (decode_fields b)

pub decode_graph-encode_graph :
    (g : BuildGraph) → decode_graph (encode_graph g) ≡ some (without_ids g)
unfolding decode_graph decode_fields encode_graph
decode_graph-encode_graph g = ap graph_of_option (first-get graph_fields (graph_to g))

pub encode_stamp : SourcesStamp → Bytes
encode_stamp s = stamp_code.put s []

pub decode_stamp : Bytes → Option SourcesStamp
decode_stamp b = first (stamp_code.get b)

pub decode_stamp-encode_stamp : (s : SourcesStamp) → decode_stamp (encode_stamp s) ≡ some s
unfolding decode_stamp encode_stamp
decode_stamp-encode_stamp s = first-get stamp_code s

abbrev pub sample_stamp : SourcesStamp
sample_stamp = record {
  manifests =
      (codes "frost.toml", 8 ∷ [])
      ∷ (codes ".gitignore", codes "ABSENT")
      ∷ (codes ".frostignore", codes "ABSENT")
      ∷ [];
  dirs =
      record { path = []; mtime_ns = 5; entries_hash = 31 ∷ [] }
      ∷ record { path = codes "inc"; mtime_ns = 7; entries_hash = 0 ∷ [] }
      ∷ [];
}

pub sample_stamp-short : length (encode_stamp sample_stamp) < 2 ^ 32
unfolding encode_stamp
sample_stamp-short = omega arith
