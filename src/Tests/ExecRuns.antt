-- ===== src/Tests/ExecRuns.antt =====
-- Runs of the workers' steps on two actions, the second of which waits for the first.
use frostbuild.Base.{
  ℕ, zero, suc, true, false, List, [], ◌∷◌, some, none, get_elem?, ◌≡◌, refl, arith, In,
}
use frostbuild.Exec.{
  cached, Shared, pop, run, claim, release, note, settle, take_along, finish, ready_of,
  start_shared,
}
use frostbuild.Exec.Steps.{times, Build, start, end, none_yet, and_then}
use frostbuild.Exec.Release.{is_done}
use frostbuild.Exec.Ordered.{IsPlan}
use frostbuild.Exec.Start.{Waits, Steps-supplied}

abbrev two_producers : ℕ → List ℕ
two_producers zero = []
two_producers (suc zero) = 0 ∷ []
two_producers (suc (suc l)) = []

abbrev two_dependents : List (List ℕ)
two_dependents = (1 ∷ []) ∷ [] ∷ []

two-IsPlan : IsPlan two_producers two_dependents
two-IsPlan zero zero = refl
two-IsPlan zero (suc zero) = refl
two-IsPlan zero (suc (suc l)) = ground arith
two-IsPlan (suc zero) zero = refl
two-IsPlan (suc zero) (suc zero) = refl
two-IsPlan (suc zero) (suc (suc l)) = refl
two-IsPlan (suc (suc p)) zero = refl
two-IsPlan (suc (suc p)) (suc zero) = ground arith
two-IsPlan (suc (suc p)) (suc (suc l)) = refl

two-Waits : Waits two_producers (0 ∷ 1 ∷ [])
two-Waits zero w h = ground arith
two-Waits (suc zero) w h = ground arith
two-Waits (suc (suc l)) w h = cc

abbrev two_start : Build
two_start = record { shared = start_shared (7 ∷ 3 ∷ []) (0 ∷ 1 ∷ []); running = [] }

abbrev first_running : Shared
first_running = record {
  ready = [];
  waiting = 0 ∷ 1 ∷ [];
  outcomes = none ∷ none ∷ [];
  pending = 2;
  abort = false;
}

abbrev second_running : Build
second_running = record {
  shared = record {
    ready = [];
    waiting = 0 ∷ 0 ∷ [];
    outcomes = some cached ∷ none ∷ [];
    pending = 1;
    abort = false;
  };
  running = 1 ∷ [];
}

run_claim : claim two_start.shared ≡ run 0 first_running
unfolding claim pop ready_of
run_claim = refl

run_finish :
    finish false two_dependents (7 ∷ 3 ∷ []) 0 cached first_running
    ≡ some (some 1, second_running.shared)
unfolding finish settle note release take_along pop
run_finish = refl

Steps-supplied_example :
    (times 1 second_running.running ≡ 1)
    × (get_elem? second_running.shared.outcomes 1 ≡ some none)
    × ((p : ℕ) → In p (two_producers 1) → is_done second_running.shared.outcomes p ≡ true)
Steps-supplied_example =
    Steps-supplied two_producers false two_dependents (7 ∷ 3 ∷ []) (0 ∷ 1 ∷ []) second_running 1
      two-IsPlan two-Waits
      (and_then (and_then none_yet (start two_start.shared first_running [] 0 run_claim)) (
        end first_running second_running.shared (0 ∷ []) [] 0 cached (some 1) (λ l. refl)
          run_finish))
      (omega arith)
