-- ===== src/Exec/Steps.antt =====
-- A build as steps: a worker claims an action, or finishes the one that it ran, with any outcome and
-- in any order among the workers.
use frostbuild.Base.{
  ℕ, ◌+◌, Bool, List, [], ◌∷◌, Option, some, none, ◌≡◌, ◌==◌, if◌then◌else◌, refl, arith,
  Bool-cases, inl, inr,
}
use frostbuild.Exec.{Outcome, Shared, goes_first, take_first, pop, run, claim, finish}

-- How often a local index stands in a list, and in the heap.
abbrev pub times : ℕ → List ℕ → ℕ
times l [] = 0
times l (x ∷ xs) = (if l == x then 1 else 0) + times l xs

abbrev pub held : ℕ → List (ℕ × ℕ) → ℕ
held l [] = 0
held l (e ∷ heap) = (if l == e.1 then 1 else 0) + held l heap

-- The shared state, and the actions that the workers are running.
pub record Build : Type 0 where
  pub shared : Shared
  pub running : List ℕ

-- The continuation joins the running actions.
abbrev pub with_continuation : Option ℕ → List ℕ → List ℕ
with_continuation none running = running
with_continuation (some i) running = i ∷ running

module _ (keep_going : Bool) (dependents : List (List ℕ)) (priority : List ℕ) where
  pub data Step : Build → Build → Type 0 where
    start :
        (s s' : Shared) (running : List ℕ) (i : ℕ)
        → claim s ≡ run i s'
        → Step
            (record { shared = s; running = running })
            (record { shared = s'; running = i ∷ running })
    end :
        (s s' : Shared) (running rest : List ℕ) (local : ℕ) (outcome : Outcome) (next : Option ℕ)
        → ((l : ℕ) → times l running ≡ times l (local ∷ rest))
        → finish keep_going dependents priority local outcome s ≡ some (next, s')
        → Step
            (record { shared = s; running = running })
            (record { shared = s'; running = with_continuation next rest })

  pub data Steps (b : Build) : Build → Type 0 where
    none_yet : Steps b b
    and_then : {c d : Build} → Steps b c → Step c d → Steps b d

-- Taking an entry from the heap moves it.
take_first-held :
    (l : ℕ) (e : ℕ × ℕ) (heap : List (ℕ × ℕ))
    → held l (e ∷ heap)
      ≡ (if l == (take_first e heap).0.1 then 1 else 0) + held l (take_first e heap).1
take_first-held l e [] = refl
take_first-held l e (f ∷ heap) = elim (Bool-cases (goes_first e f)) [
  | inl h ↦ ground (arith, take_first-held l e heap)
  | inr h ↦ ground (arith, take_first-held l f heap)
]

pub pop-held :
    (l : ℕ) (heap rest : List (ℕ × ℕ)) (i : ℕ)
    → pop heap ≡ some (i, rest)
    → held l heap ≡ (if l == i then 1 else 0) + held l rest
unfolding pop
pop-held l [] rest i h = cc
pop-held l (e ∷ heap) rest i h = ground (arith, take_first-held l e heap)
