-- ===== src/Tests/PlanRuns.antt =====
-- Runs of the schedule on a compilation and the link that reads its object, and on two actions that
-- read each other's output.
use frostbuild.Base.{
  ℕ, zero, suc, ◌<◌, ◌≤◌, true, List, [], ◌∷◌, ◌++◌, some, none, get_elem?, get_or, ◌≡◌, ◌≢◌, inl,
  inr, refl, arith, In, All, any, false, ◌==◌,
}
use frostbuild.Base.Order.{nat_order}
use frostbuild.Base.Text.{Text, codes, text_order}
use frostbuild.Base.BTreeMap.{insert, lookup}
use frostbuild.Graph.{link, command, ActionNode, BuildGraph}
use frostbuild.Graph.Claims.{producer_of}
use frostbuild.Graph.Closure.{producers_of}
use frostbuild.Exec.{
  cached, Shared, run, claim, pop, finish, settle, note, release, take_along, start_shared,
  ready_of,
}
use frostbuild.Exec.Steps.{times, start, end, none_yet, and_then}
use frostbuild.Exec.Release.{is_done}
use frostbuild.Exec.Estimates.{heuristic, new_estimates, estimate_of, default_duration}
use frostbuild.Exec.Plan.{
  critical_path_first, Schedule, planned, endless, index_of, local_producers, push_all, wait_for,
  prioritize, follow, critical_path_of, plan,
}
use frostbuild.Exec.KeyArgv.{action_key_argv, IsArgument, action_key_argv-unambiguous}
use frostbuild.Exec.Supplied.{IsDistinct, plan-supplied}
use frostbuild.Exec.CriticalPath.{follow-total, follow_endless}
use frostbuild.Tests.GraphRuns.{compile_a, before_push}

abbrev link_app : ActionNode
link_app = record compile_a {
  id = codes "link:app";
  kind = link;
  inputs = 1 ∷ [];
  outputs = 2 ∷ [];
}

abbrev two_steps : BuildGraph
two_steps = record before_push {
  files =
      record { path = codes "a.c"; producer = none }
      ∷ record { path = codes "a.o"; producer = some 0 }
      ∷ record { path = codes "app"; producer = some 1 }
      ∷ [];
  actions = compile_a ∷ link_app ∷ [];
}

abbrev two_schedule : Schedule
two_schedule = record {
  closure = 0 ∷ 1 ∷ [];
  closure_index = (0, 0) ∷ (1, 1) ∷ [];
  dependents = (1 ∷ []) ∷ [] ∷ [];
  waiting = 0 ∷ 1 ∷ [];
  duration_ms = 20 ∷ 100 ∷ [];
  priority = 120 ∷ 100 ∷ [];
  critical_path_ms = 120;
  critical_path = 0 ∷ 1 ∷ [];
  work_ms = 120;
}

run_plan : plan two_steps (0 ∷ 1 ∷ []) [] critical_path_first heuristic ≡ planned two_schedule
unfolding plan wait_for local_producers producers_of push_all index_of lookup insert new_estimates
    estimate_of default_duration prioritize critical_path_of follow
run_plan = refl

abbrev after_compile : Shared
after_compile = record {
  ready = [];
  waiting = 0 ∷ 0 ∷ [];
  outcomes = some cached ∷ none ∷ [];
  pending = 1;
  abort = false;
}

abbrev compiling : Shared
compiling = record (start_shared (120 ∷ 100 ∷ []) (0 ∷ 1 ∷ [])) { ready = [] }

run_claim_compile : claim (start_shared (120 ∷ 100 ∷ []) (0 ∷ 1 ∷ [])) ≡ run 0 compiling
unfolding claim pop ready_of
run_claim_compile = refl

run_finish_compile :
    finish false ((1 ∷ []) ∷ [] ∷ []) (120 ∷ 100 ∷ []) 0 cached compiling
    ≡ some (some 1, after_compile)
unfolding finish settle note release take_along pop ready_of
run_finish_compile = refl

pair-IsDistinct : IsDistinct (0 ∷ 1 ∷ [])
pair-IsDistinct zero zero a e f = refl
pair-IsDistinct zero (suc zero) a e f = absurd (ground arith)
pair-IsDistinct zero (suc (suc j)) a e f = cc
pair-IsDistinct (suc zero) zero a e f = absurd (ground arith)
pair-IsDistinct (suc zero) (suc zero) a e f = refl
pair-IsDistinct (suc zero) (suc (suc j)) a e f = cc
pair-IsDistinct (suc (suc i)) j a e f = cc

plan-supplied_example :
    (times 1 (1 ∷ []) ≡ 1)
    × ((a c : ℕ) (action : ActionNode) (f p : ℕ)
        → get_elem? (0 ∷ 1 ∷ []) 1 ≡ some a
        → get_elem? two_steps.actions a ≡ some action
        → In f (action.inputs ++ action.order_only_inputs)
        → producer_of two_steps.files f ≡ some c
        → get_elem? (0 ∷ 1 ∷ []) p ≡ some c
        → is_done after_compile.outcomes p ≡ true)
plan-supplied_example =
    plan-supplied two_steps (0 ∷ 1 ∷ []) [] critical_path_first heuristic two_schedule false
      (record { shared = after_compile; running = 1 ∷ [] }) 1 pair-IsDistinct run_plan
      (and_then
        (and_then none_yet
          (start (start_shared (120 ∷ 100 ∷ []) (0 ∷ 1 ∷ [])) compiling [] 0 run_claim_compile))
        (end compiling after_compile (0 ∷ []) [] 0 cached (some 1) (λ l. refl) run_finish_compile))
      (omega arith)

abbrev chain : List (List ℕ)
chain = (1 ∷ []) ∷ [] ∷ []

chain_rises : (i d : ℕ) → In d (get_or chain i []) → (i < d) × (d ≤ 1)
chain_rises zero d (inl e) = omega arith
chain_rises zero d (inr m) = elim m [ ]
chain_rises (suc zero) d m = elim m [ ]
chain_rises (suc (suc i)) d m = elim m [ ]

follow-total_example : (path : List ℕ) × (follow 2 chain (120 ∷ 100 ∷ []) 0 ≡ some path)
follow-total_example =
    follow-total chain (120 ∷ 100 ∷ []) (λ i. i) 1 2 0 chain_rises (omega arith) (omega arith)

-- A generator, `gen`, and two actions that read each other's output; the first reads what `gen` makes.
abbrev gen : ActionNode
gen = record compile_a { id = codes "gen"; inputs = []; outputs = 0 ∷ [] }

abbrev ping : ActionNode
ping = record compile_a { id = codes "ping"; inputs = 0 ∷ 2 ∷ []; outputs = 1 ∷ [] }

abbrev pong : ActionNode
pong = record compile_a { id = codes "pong"; inputs = 1 ∷ []; outputs = 2 ∷ [] }

abbrev round : BuildGraph
round = record before_push {
  files =
      record { path = codes "seed"; producer = some 0 }
      ∷ record { path = codes "ping.out"; producer = some 1 }
      ∷ record { path = codes "pong.out"; producer = some 2 }
      ∷ [];
  actions = gen ∷ ping ∷ pong ∷ [];
}

run_plan_endless : plan round (0 ∷ 1 ∷ 2 ∷ []) [] critical_path_first heuristic ≡ endless
unfolding plan wait_for local_producers producers_of push_all index_of lookup insert new_estimates
    estimate_of default_duration prioritize critical_path_of follow
run_plan_endless = refl

abbrev round_dependents : List (List ℕ)
round_dependents = (1 ∷ []) ∷ (2 ∷ []) ∷ (1 ∷ []) ∷ []

abbrev Round : ℕ → Type 0
Round i = i < 3

Round-goes :
    (i : ℕ)
    → Round i
    → (get_or round_dependents i [] ≢ [])
      × ((d : ℕ) → In d (get_or round_dependents i []) → Round d)
Round-goes zero h = (λ e. cc, λ d m. elim m [ inl e ↦ omega arith | inr n ↦ absurd n ])
Round-goes (suc zero) h = (λ e. cc, λ d m. elim m [ inl e ↦ omega arith | inr n ↦ absurd n ])
Round-goes (suc (suc zero)) h = (λ e. cc, λ d m. elim m [ inl e ↦ omega arith | inr n ↦ absurd n ])
Round-goes (suc (suc (suc i))) h = absurd (omega arith)

follow_endless_example : follow 1000 round_dependents (3 ∷ 2 ∷ 1 ∷ []) 0 ≡ none
follow_endless_example =
    follow_endless round_dependents (3 ∷ 2 ∷ 1 ∷ []) Round 1000 0 Round-goes (omega arith)

-- An action of two commands, and one that differs from it in what is no part of a command.
abbrev two_commands : ActionNode
two_commands = record {
  id = codes "command:app";
  desc = codes "RUN app [javac]";
  kind = command;
  target = codes "app";
  sandbox = true;
  argv = codes "javac" ∷ codes "App.java" ∷ [];
  followup_argv = (codes "jar" ∷ codes "cf" ∷ []) ∷ [];
  clean_dirs = codes "classes" ∷ [];
  preserve_outputs = true;
  env = [];
  pass_env = [];
  inputs = [];
  order_only_inputs = [];
  outputs = [];
  depfile = none;
}

abbrev renamed : ActionNode
renamed = record two_commands { id = codes "command:app2" }

no_nul : (arg : Text) → any (λ c. c == 0) arg ≡ false → IsArgument arg
no_nul [] e m = m
no_nul (c ∷ arg) e (inl h) = absurd (ground arith)
no_nul (c ∷ arg) e (inr m) = no_nul arg (ground arith) m

key_argv_same : action_key_argv two_commands ≡ action_key_argv renamed
unfolding action_key_argv
key_argv_same = refl

javac_arguments : All IsArgument two_commands.argv
javac_arguments = (no_nul (codes "javac") refl, (no_nul (codes "App.java") refl, tt))

jar_arguments : All (All IsArgument) two_commands.followup_argv
jar_arguments = ((no_nul (codes "jar") refl, (no_nul (codes "cf") refl, tt)), tt)

action_key_argv-unambiguous_example :
    (two_commands.argv ≡ renamed.argv)
    × (two_commands.followup_argv ≡ renamed.followup_argv)
    × (two_commands.clean_dirs ≡ renamed.clean_dirs)
    × (two_commands.preserve_outputs ≡ renamed.preserve_outputs)
action_key_argv-unambiguous_example =
    action_key_argv-unambiguous two_commands renamed javac_arguments javac_arguments jar_arguments
      jar_arguments key_argv_same
