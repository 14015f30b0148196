-- ===== src/Exec/Plan.antt =====
-- crates/frostbuild-exec/src/lib.rs: `Schedule::plan`, the order in which the workers take the actions.
use frostbuild.Base.{
  ℕ, zero, suc, ◌+◌, ◌^◌, ◌%◌, max, List, [], ◌∷◌, ◌++◌, Option, some, none, get_elem?, get_or, set,
  replicate, length, leb, ◌==◌, if◌then◌else◌, saturating_add,
}
use frostbuild.Base.Order.{nat_order}
use frostbuild.Base.BTreeMap.{BTreeMap, lookup, insert}
use frostbuild.Base.BTreeSet.{keys, insert_all}
use frostbuild.Graph.{ActionId, BuildGraph}
use frostbuild.Graph.Closure.{producers_of}
use frostbuild.Journal.{Actions}
use frostbuild.Exec.Estimates.{Estimator, Estimates, new_estimates, estimate_of}

pub data Scheduler : Type 0 where
  critical_path_first fifo : Scheduler

pub record Schedule : Type 0 where
  pub closure : List ActionId
  pub closure_index : BTreeMap ActionId ℕ
  pub dependents : List (List ℕ)
  pub waiting : List ℕ
  pub duration_ms : List ℕ
  pub priority : List ℕ
  pub critical_path_ms : ℕ
  pub critical_path : List ℕ
  pub work_ms : ℕ

-- `panics` is the panic of an index, `endless` a walk along the dependents that does not end.
pub data Planned : Type 0 where
  planned : Schedule → Planned
  panics endless : Planned

-- `closure.iter().enumerate()`, collected into a map.
unfoldable pub index_of : List ActionId → ℕ → BTreeMap ActionId ℕ → BTreeMap ActionId ℕ
index_of [] i index = index
index_of (a ∷ closure) i index = index_of closure (suc i) (insert a i index)

-- The actions of the closure among these, by local index.
abbrev pub locals_of : BTreeMap ActionId ℕ → List ActionId → List ℕ
locals_of index [] = []
locals_of index (a ∷ actions) = elim (lookup a index) [
  | none ↦ locals_of index actions
  | some local ↦ local ∷ locals_of index actions
]

-- The set of an action's producers, by local index.
unfoldable pub local_producers : BuildGraph → BTreeMap ActionId ℕ → ActionId → Option (List ℕ)
local_producers g index a = elim (producers_of g a) [
  | none ↦ none
  | some actions ↦ some (keys (insert_all (locals_of index actions) []))
]

-- `for p in producers { dependents[p].push(local) }`
unfoldable pub push_all : ℕ → List ℕ → List (List ℕ) → Option (List (List ℕ))
push_all local [] dependents = some dependents
push_all local (p ∷ producers) dependents = elim (get_elem? dependents p) [
  | none ↦ none
  | some users ↦ push_all local producers (set dependents p (users ++ local ∷ []))
]

-- The loop over the closure: how many producers each action waits for, and the dependents.
unfoldable pub wait_for :
    BuildGraph
    → BTreeMap ActionId ℕ
    → ℕ
    → List ActionId
    → List (List ℕ)
    → Option (List ℕ × List (List ℕ))
wait_for g index local [] dependents = some ([], dependents)
wait_for g index local (a ∷ closure) dependents = elim (local_producers g index a) [
  | none ↦ none
  | some producers ↦ elim (push_all local producers dependents) [
    | none ↦ none
    | some dependents' ↦ elim (wait_for g index (suc local) closure dependents') [
      | none ↦ none
      | some (waiting, last) ↦ some (length producers ∷ waiting, last)
    ]
  ]
]

abbrev pub durations : Estimates → BuildGraph → Actions → List ActionId → Option (List ℕ)
durations e g actions [] = some []
durations e g actions (a ∷ closure) = elim (get_elem? g.actions a) [
  | none ↦ none
  | some action ↦ elim (durations e g actions closure) [
    | none ↦ none
    | some rest ↦ some (estimate_of e g action actions ∷ rest)
  ]
]

-- The maximum of the priorities of these, or zero.
abbrev pub longest : List ℕ → List ℕ → ℕ
longest priority [] = 0
longest priority (d ∷ dependents) = max (get_or priority d 0) (longest priority dependents)

-- `for local in (0..n).rev()`
unfoldable pub prioritize : ℕ → List ℕ → List (List ℕ) → List ℕ → List ℕ
prioritize zero duration_ms dependents priority = priority
prioritize (suc local) duration_ms dependents priority =
    let tail = longest priority (get_or dependents local []) in
    prioritize local duration_ms dependents
      (set priority local (saturating_add (get_or duration_ms local 0) tail))

-- `max_by_key`: of equals it takes the last.
abbrev pub max_by_key : (ℕ → ℕ) → List ℕ → Option ℕ → Option ℕ
max_by_key key [] best = best
max_by_key key (i ∷ rest) none = max_by_key key rest (some i)
max_by_key key (i ∷ rest) (some b) =
    max_by_key key rest (if leb (key b) (key i) then some i else some b)

abbrev pub free_of : ℕ → List ℕ → List ℕ
free_of i [] = []
free_of i (w ∷ waiting) = let rest = free_of (suc i) waiting in if w == 0 then i ∷ rest else rest

-- The walk from one action to its dependent with the highest priority; `none` when the fuel is out.
unfoldable pub follow : ℕ → List (List ℕ) → List ℕ → ℕ → Option (List ℕ)
follow zero dependents priority cur = none
follow (suc fuel) dependents priority cur =
    elim (max_by_key (λ d. get_or priority d 0) (get_or dependents cur []) none) [
      | none ↦ some (cur ∷ [])
      | some next ↦ elim (follow fuel dependents priority next) [
        | none ↦ none
        | some rest ↦ some (cur ∷ rest)
      ]
    ]

-- A walk that takes more steps than there are actions goes round a cycle.
unfoldable pub critical_path_of : List ℕ → List (List ℕ) → List ℕ → Option (List ℕ)
critical_path_of waiting dependents priority =
    elim (max_by_key (λ i. get_or priority i 0) (free_of 0 waiting) none) [
      | none ↦ some []
      | some first ↦ follow (suc (length waiting)) dependents priority first
    ]

abbrev pub sum_of : List ℕ → ℕ
sum_of [] = 0
sum_of (n ∷ ns) = (n + sum_of ns) % 2 ^ 64

abbrev pub maximum : List ℕ → ℕ
maximum [] = 0
maximum (n ∷ ns) = max n (maximum ns)

abbrev pub queue_key : Scheduler → List ℕ → List ℕ
queue_key critical_path_first priority = priority
queue_key fifo priority = replicate (length priority) 0

abbrev pub schedule_of :
    Scheduler → List ActionId → List ℕ → List (List ℕ) → List ℕ → List ℕ → Planned
schedule_of scheduler closure waiting dependents duration_ms priority =
    elim (critical_path_of waiting dependents priority) [
      | none ↦ endless
      | some critical_path ↦ planned (record {
        closure = closure;
        closure_index = index_of closure 0 [];
        dependents = dependents;
        waiting = waiting;
        duration_ms = duration_ms;
        priority = queue_key scheduler priority;
        critical_path_ms = maximum priority;
        critical_path = critical_path;
        work_ms = sum_of duration_ms;
      })
    ]

unfoldable pub plan : BuildGraph → List ActionId → Actions → Scheduler → Estimator → Planned
plan g closure actions scheduler estimator =
    let n = length closure in
    elim (wait_for g (index_of closure 0 []) 0 closure (replicate n [])) [
      | none ↦ panics
      | some (waiting, dependents) ↦
          elim (durations (new_estimates estimator g actions) g actions closure) [
            | none ↦ panics
            | some duration_ms ↦
                schedule_of scheduler closure waiting dependents duration_ms
                  (prioritize n duration_ms dependents (replicate n 0))
          ]
    ]
