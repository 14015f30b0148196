-- ===== src/Exec.antt =====
-- crates/frostbuild-exec/src/lib.rs: the state that the engine's workers share, and what a worker does
-- while it holds the lock. Running an action is a parameter of the steps: its outcome.
pub mod KeyArgv
pub mod Steps
pub mod Release
pub mod Ordered
pub mod Note
pub mod Safety
pub mod Start
pub mod Estimates
pub mod Plan
pub mod CriticalPath
pub mod Planned
pub mod Supplied
use frostbuild.Base.{
  ℕ, zero, ◌-◌, Bool, true, false, not, ◌&&◌, ◌||◌, List, [], ◌∷◌, Option, some, none, get_elem?,
  get_or, replicate, length, suc, ◌+◌, set, is_empty, ltb, ◌==◌, if◌then◌else◌,
}
use frostbuild.Base.Text.{Text}

pub data Outcome : Type 0 where
  executed : Text → ℕ → Outcome
  cached : Outcome
  failed : Text → Text → Outcome
  skipped : Text → Outcome
  would_run : Text → Outcome
  may_run : Text → Outcome

-- `ready` holds priorities with local indices.
pub record Shared : Type 0 where
  pub ready : List (ℕ × ℕ)
  pub waiting : List ℕ
  pub outcomes : List (Option Outcome)
  pub pending : ℕ
  pub abort : Bool

-- Whether the heap gives the first entry before the second: the higher priority, then the lower
-- index.
abbrev pub goes_first : ℕ × ℕ → ℕ × ℕ → Bool
goes_first (p, i) (q, j) = ltb q p || (p == q && ltb i j)

abbrev pub take_first : ℕ × ℕ → List (ℕ × ℕ) → (ℕ × ℕ) × (List (ℕ × ℕ))
take_first e [] = (e, [])
take_first e (f ∷ heap) =
    let (m, rest) = take_first e heap in
    let (m', rest') = take_first f heap in if goes_first e f then (m, f ∷ rest) else (m', e ∷ rest')

-- `BinaryHeap::pop`
unfoldable pub pop : List (ℕ × ℕ) → Option (ℕ × (List (ℕ × ℕ)))
pop [] = none
pop (e ∷ heap) = let (m, rest) = take_first e heap in some (m.1, rest)

pub data Turn : Type 0 where
  run : ℕ → Shared → Turn
  return wait : Turn

-- What a worker without a continuation does each time it gets the lock.
unfoldable pub claim : Shared → Turn
claim s = if s.abort && is_empty s.ready then return else elim (pop s.ready) [
  | some (i, rest) ↦ run i (record s { ready = rest })
  | none ↦ if s.pending == 0 then return else wait
]

abbrev pub is_failed : Outcome → Bool
is_failed (failed _ _) = true
is_failed _ = false

-- The loop over the dependents of a finished action; `none` is a panic, of an index or of a count
-- below zero.
unfoldable pub release : List ℕ → List ℕ → Shared → Option Shared
release priority [] s = some s
release priority (dep ∷ deps) s = elim (get_elem? s.waiting dep) [
  | none ↦ none
  | some zero ↦ none
  | some (suc w) ↦ release priority deps (record s {
    waiting = set s.waiting dep w;
    ready = if w == 0 then (get_or priority dep 0, dep) ∷ s.ready else s.ready;
  })
]

-- The outcome is noted; a failure stops the build unless it is to keep going.
unfoldable pub note : Bool → ℕ → Outcome → Shared → Shared
note keep_going local outcome s =
    let stop = is_failed outcome && not keep_going in
    record {
      ready = if stop then [] else s.ready;
      waiting = s.waiting;
      outcomes = set s.outcomes local (some outcome);
      pending = s.pending - 1;
      abort = s.abort || stop;
    }

-- The dependents are released unless the build is stopped; `none` also where the count of pending
-- actions would go below zero.
unfoldable pub settle :
    (keep_going : Bool) (dependents : List (List ℕ)) (priority : List ℕ) (local : ℕ)
    (outcome : Outcome)
    → Shared
    → Option Shared
unfolding note
settle keep_going dependents priority local outcome s =
    let noted = note keep_going local outcome s in
    if s.pending == 0
    then none
    else if noted.abort
    then some noted
    else release priority (get_or dependents local []) noted

-- Unless the build is over, the worker takes the first entry of the heap along.
unfoldable pub take_along : Shared → Option ℕ × Shared
take_along s = if s.pending == 0 || s.abort then (none, s) else elim (pop s.ready) [
  | none ↦ (none, s)
  | some (i, rest) ↦ (some i, record s { ready = rest })
]

-- The section of `worker` behind `process`, with the continuation that it takes along.
unfoldable pub finish :
    (keep_going : Bool) (dependents : List (List ℕ)) (priority : List ℕ) (local : ℕ)
    (outcome : Outcome)
    → Shared
    → Option (Option ℕ × Shared)
finish keep_going dependents priority local outcome s =
    elim (settle keep_going dependents priority local outcome s) [
      | none ↦ none
      | some s' ↦ some (take_along s')
    ]

-- The actions that wait for nothing, with the index of the first one.
unfoldable pub ready_of : ℕ → List ℕ → List ℕ → List (ℕ × ℕ)
ready_of i priority [] = []
ready_of i priority (w ∷ waiting) =
    let rest = ready_of (i + 1) priority waiting in
    if w == 0 then (get_or priority i 0, i) ∷ rest else rest

-- What `prepare_schedule` leaves to the workers, before any action ran.
abbrev pub start_shared : List ℕ → List ℕ → Shared
start_shared priority waiting = record {
  ready = ready_of 0 priority waiting;
  waiting = waiting;
  outcomes = replicate (length waiting) none;
  pending = length waiting;
  abort = false;
}
