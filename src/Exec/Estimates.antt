-- ===== src/Exec/Estimates.antt =====
-- crates/frostbuild-exec/src/lib.rs: `Estimates`, how long an action is expected to take.
use frostbuild.Base.{
  ℕ, ◌/◌, max, Bool, true, false, List, [], ◌∷◌, ◌++◌, Option, some, none, get_or, length, ltb, leb,
  if◌then◌else◌,
}
use frostbuild.Base.Order.{nat_order}
use frostbuild.Base.Text.{Text, codes, text_eq, text_order}
use frostbuild.Base.Split.{split}
use frostbuild.Base.BTreeMap.{BTreeMap, lookup, insert}
use frostbuild.Manifest.{host_platform}
use frostbuild.Graph.{
  ActionKind, compile, archive, link, genrule, test, kofun_compile, command, ActionNode, BuildGraph,
}
use frostbuild.Journal.{Actions}

pub data Estimator : Type 0 where
  static heuristic journal learned : Estimator

unfoldable pub journal_id : BuildGraph → ActionNode → Text
journal_id g action =
    if text_eq g.platform host_platform
    then action.id ++ (codes "@" ++ g.profile)
    else action.id ++ (codes "@" ++ (g.platform ++ (codes "@" ++ g.profile)))

unfoldable pub default_duration : ActionKind → ℕ
default_duration link = 100
default_duration archive = 30
default_duration compile = 20
default_duration genrule = 10
default_duration test = 50
default_duration kofun_compile = 30
default_duration command = 40

abbrev pub kind_code : ActionKind → ℕ
kind_code compile = 0
kind_code archive = 1
kind_code link = 2
kind_code genrule = 3
kind_code test = 4
kind_code kofun_compile = 5
kind_code command = 6

abbrev pub kinds_by_id : List ActionNode → BTreeMap Text ActionKind → BTreeMap Text ActionKind
kinds_by_id [] kinds = kinds
kinds_by_id (action ∷ actions) kinds = kinds_by_id actions (insert action.id action.kind kinds)

-- `id.split('@').next()`
abbrev pub first_part : List Text → Text → Text
first_part [] id = id
first_part (p ∷ parts) id = p

abbrev pub add_sample : ℕ → ℕ → BTreeMap ℕ (List ℕ) → BTreeMap ℕ (List ℕ)
add_sample k duration by_kind = elim (lookup k by_kind) [
  | none ↦ insert k (duration ∷ []) by_kind
  | some samples ↦ insert k (samples ++ duration ∷ []) by_kind
]

-- The recorded durations of the actions that the graph still has, by kind.
unfoldable pub samples_of :
    BTreeMap Text ActionKind → Actions → BTreeMap ℕ (List ℕ) → BTreeMap ℕ (List ℕ)
samples_of kinds [] by_kind = by_kind
samples_of kinds ((id, entry) ∷ actions) by_kind =
    samples_of kinds actions (elim (lookup (first_part (split b'@' id) id) kinds) [
      | none ↦ by_kind
      | some kind ↦
          if ltb 0 entry.duration_ms
          then add_sample (kind_code kind) entry.duration_ms by_kind
          else by_kind
    ])

abbrev pub insert_sorted : ℕ → List ℕ → List ℕ
insert_sorted n [] = n ∷ []
insert_sorted n (m ∷ ms) = let rest = insert_sorted n ms in if leb n m then n ∷ m ∷ ms else m ∷ rest

abbrev pub sort : List ℕ → List ℕ
sort [] = []
sort (n ∷ ns) = insert_sorted n (sort ns)

abbrev pub medians : BTreeMap ℕ (List ℕ) → BTreeMap ℕ ℕ → BTreeMap ℕ ℕ
medians [] found = found
medians ((k, samples) ∷ by_kind) found =
    medians by_kind (insert k (max (get_or (sort samples) (length samples / 2) 0) 1) found)

pub record Estimates : Type 0 where
  pub kind : Estimator
  pub learned : BTreeMap ℕ ℕ

abbrev pub is_learned : Estimator → Bool
is_learned learned = true
is_learned _ = false

-- `Estimates::new`
unfoldable pub new_estimates : Estimator → BuildGraph → Actions → Estimates
unfolding samples_of
new_estimates kind g actions = record {
  kind = kind;
  learned =
      if is_learned kind then medians (samples_of (kinds_by_id g.actions []) actions []) [] else [];
}

abbrev pub recorded : BuildGraph → ActionNode → Actions → Option ℕ
recorded g action actions = elim (lookup (journal_id g action) actions) [
  | none ↦ none
  | some entry ↦ if ltb 0 entry.duration_ms then some entry.duration_ms else none
]

abbrev pub unwrap_or : Option ℕ → ℕ → ℕ
unwrap_or none d = d
unwrap_or (some n) d = n

-- `Estimates::of`
unfoldable pub estimate_of : Estimates → BuildGraph → ActionNode → Actions → ℕ
estimate_of e g action actions = elim e.kind [
  | static ↦ 1
  | heuristic ↦ default_duration action.kind
  | journal ↦ unwrap_or (recorded g action actions) (default_duration action.kind)
  | learned ↦
      unwrap_or (recorded g action actions)
        (unwrap_or (lookup (kind_code action.kind) e.learned) (default_duration action.kind))
]
