-- ===== src/Exec/Supplied.antt =====
-- A build that runs by a schedule of the graph respects the files that the actions read.
use frostbuild.Base.{
  ℕ, zero, suc, ◌+◌, ◌<◌, Bool, true, List, [], ◌∷◌, ◌++◌, Option, some, none, get_elem?, replicate,
  length, ◌≡◌, ◌≢◌, inl, inr, refl, sym, ap, ◌∙◌, subst, arith, In, Option-cases, eq_of_some,
}
use frostbuild.Base.Order.{nat_order}
use frostbuild.Base.BTreeMap.{BTreeMap, lookup, insert, lookup-insert_self, lookup-insert_ne}
use frostbuild.Base.BTreeSet.{keys, insert_all, In-keys-insert_all}
use frostbuild.Graph.{ActionId, FileId, FileNode, ActionNode, BuildGraph}
use frostbuild.Graph.Claims.{producer_of}
use frostbuild.Graph.Closure.{producers, producers_of}
use frostbuild.Journal.{Actions}
use frostbuild.Exec.{start_shared}
use frostbuild.Exec.Steps.{times, Build, Steps}
use frostbuild.Exec.Release.{is_done}
use frostbuild.Exec.Start.{Steps-supplied}
use frostbuild.Exec.Estimates.{Estimator, new_estimates}
use frostbuild.Exec.Plan.{
  Scheduler, Schedule, planned, index_of, locals_of, local_producers, wait_for, durations,
  critical_path_of, prioritize, plan,
}
use frostbuild.Exec.Planned.{producers_at, wait_for-IsPlan, wait_for-producers}

-- No action stands in the closure twice.
abbrev pub IsDistinct : List ActionId → Type 0
IsDistinct closure =
    (i j : ℕ) (a : ActionId) → get_elem? closure i ≡ some a → get_elem? closure j ≡ some a → i ≡ j

index_of-other :
    (closure : List ActionId) (i : ℕ) (index : BTreeMap ActionId ℕ) (b : ActionId)
    → ((j : ℕ) → get_elem? closure j ≢ some b)
    → lookup b (index_of closure i index) ≡ lookup b index
unfolding index_of
index_of-other [] i index b h = refl
index_of-other (a ∷ closure) i index b h =
    index_of-other closure (suc i) (insert a i index) b (λ j. h (suc j))
    ∙ lookup-insert_ne a b i index (λ e. h 0 (ap some (sym e)))

index_of-lookup :
    (closure : List ActionId) (i : ℕ) (index : BTreeMap ActionId ℕ) (b : ActionId) (k : ℕ)
    → IsDistinct closure
    → get_elem? closure k ≡ some b
    → lookup b (index_of closure i index) ≡ some (i + k)
unfolding index_of
index_of-lookup [] i index b k d h = absurd (cc)
index_of-lookup (a ∷ closure) i index b zero d h =
    let same : a ≡ b = eq_of_some h in
    index_of-other closure (suc i) (insert a i index) b
      (λ j e. absurd (no_suc j (d 0 (suc j) b h e)))
    ∙ subst (λ c. lookup b (insert c i index) ≡ some (i + 0)) (sym same)
        (lookup-insert_self b i index ∙ ap some (omega arith))
  where
    no_suc : (j : ℕ) → 0 ≡ suc j → ⊥
    no_suc j e = omega arith
index_of-lookup (a ∷ closure) i index b (suc k) d h =
    index_of-lookup closure (suc i) (insert a i index) b k
      (λ x y c e f. omega (arith, d (suc x) (suc y) c e f)) h
    ∙ ap some (omega arith)

locals_of-In :
    (index : BTreeMap ActionId ℕ) (actions : List ActionId) (b : ActionId) (p : ℕ)
    → In b actions
    → lookup b index ≡ some p
    → In p (locals_of index actions)
locals_of-In index [] b p m h = m
locals_of-In index (a ∷ actions) b p (inl e) h =
    let found : lookup a index ≡ some p = ap (λ c. lookup c index) (sym e) ∙ h in
    let run : p ∷ locals_of index actions ≡ locals_of index (a ∷ actions) = ground arith in
    subst (In p) run (inl refl)
locals_of-In index (a ∷ actions) b p (inr m) h = elim (Option-cases (lookup a index)) [
  | inl e ↦
      let run : locals_of index actions ≡ locals_of index (a ∷ actions) = ground arith in
      subst (In p) run (locals_of-In index actions b p m h)
  | inr (q, e) ↦
      let run : q ∷ locals_of index actions ≡ locals_of index (a ∷ actions) = ground arith in
      subst (In p) run (inr (locals_of-In index actions b p m h))
]

producers-In :
    (files : List FileNode) (fs : List FileId) (more : List ActionId) (f : FileId) (c : ActionId)
    → producers files fs ≡ some more
    → In f fs
    → producer_of files f ≡ some c
    → In c more
producers-In files [] more f c h m e = absurd m
producers-In files (g ∷ fs) more f c h m e = elim (Option-cases (get_elem? files g)) [
  | inl k ↦ absurd (ground arith)
  | inr (node, k) ↦ elim (Option-cases (producers files fs)) [
    | inl q ↦ absurd (ground arith)
    | inr (rest, q) ↦ elim (Option-cases node.producer) [
      | inl none_yet ↦
          let run : rest ≡ more = ground arith in
          subst (In c) run (elim m [
            | inl same ↦ absurd (nobody node same k none_yet)
            | inr later ↦ producers-In files fs rest f c q later e
          ])
      | inr (b, by) ↦
          let run : b ∷ rest ≡ more = ground arith in
          subst (In c) run (elim m [
            | inl same ↦ inl (first node b same k by)
            | inr later ↦ inr (producers-In files fs rest f c q later e)
          ])
    ]
  ]
]
  where
    known :
        (node : FileNode)
        → f ≡ g
        → get_elem? files g ≡ some node
        → producer_of files f ≡ node.producer
    known node same k =
        ap (producer_of files) same
        ∙ ap (λ (o : Option FileNode). elim o [ none ↦ none | some n ↦ n.producer ]) k

    nobody : (node : FileNode) → f ≡ g → get_elem? files g ≡ some node → node.producer ≡ none → ⊥
    nobody node same k free = cc (sym e ∙ known node same k ∙ free)

    first :
        (node : FileNode) (b : ActionId)
        → f ≡ g
        → get_elem? files g ≡ some node
        → node.producer ≡ some b
        → c ≡ b
    first node b same k by = eq_of_some (sym e ∙ known node same k ∙ by)

plan-waits :
    (g : BuildGraph) (closure : List ActionId) (actions : Actions) (scheduler : Scheduler)
    (estimator : Estimator) (s : Schedule)
    → plan g closure actions scheduler estimator ≡ planned s
    → wait_for g (index_of closure 0 []) 0 closure (replicate (length closure) [])
      ≡ some (s.waiting, s.dependents)
unfolding plan
plan-waits g closure actions scheduler estimator s h =
    elim (Option-cases
      (wait_for g (index_of closure 0 []) 0 closure (replicate (length closure) []))) [
        | inl e ↦ absurd (ground arith)
        | inr ((waiting, dependents), e) ↦
            elim (Option-cases (durations (new_estimates estimator g actions) g actions closure)) [
              | inl f ↦ absurd (ground arith)
              | inr (ms, f) ↦
                  elim (Option-cases (
                    critical_path_of waiting dependents
                      (prioritize (length closure) ms dependents (replicate (length closure) 0)))) [
                        | inl k ↦ absurd (ground arith)
                        | inr (path, k) ↦
                            let both : (waiting ≡ s.waiting) × (dependents ≡ s.dependents) =
                              ground arith in
                            e
                            ∙ ap (λ w. some (w, dependents)) both.0
                            ∙ ap (λ ds. some (s.waiting, ds)) both.1
                      ]
            ]
      ]

-- The action at a place of the closure has the producer of each file that it reads among its own.
reads-In :
    (g : BuildGraph) (closure : List ActionId) (ps : List ℕ) (a c : ActionId) (action : ActionNode)
    (f : FileId) (p : ℕ)
    → IsDistinct closure
    → local_producers g (index_of closure 0 []) a ≡ some ps
    → get_elem? g.actions a ≡ some action
    → In f (action.inputs ++ action.order_only_inputs)
    → producer_of g.files f ≡ some c
    → get_elem? closure p ≡ some c
    → In p ps
unfolding local_producers producers_of
reads-In g closure ps a c action f p distinct h found m by at =
    elim (Option-cases (producers g.files (action.inputs ++ action.order_only_inputs))) [
      | inl e ↦ absurd (ground arith)
      | inr (more, e) ↦
          let run : keys (insert_all (locals_of (index_of closure 0 []) more) []) ≡ ps =
            ground arith in
          let place : lookup c (index_of closure 0 []) ≡ some p =
            index_of-lookup closure 0 [] c p distinct at
            ∙ ap some {x = 0 + p} {y = p} (omega arith) in
          subst (In p) run (
            (In-keys-insert_all p (locals_of (index_of closure 0 []) more) []).1 (
              inl (
                locals_of-In (index_of closure 0 []) more c p
                  (producers-In g.files (action.inputs ++ action.order_only_inputs) more f c e m by)
                  place)))
    ]

-- When workers run a closure without repetitions by the schedule that `plan` makes of it, whatever
-- the order of their steps and the outcomes: an action that is running is run by no other worker,
-- and for every file that it reads or is ordered behind, the action of the closure that produces
-- the file has an outcome.
pub plan-supplied :
    (g : BuildGraph) (closure : List ActionId) (actions : Actions) (scheduler : Scheduler)
    (estimator : Estimator) (s : Schedule) (keep_going : Bool) (b : Build) (l : ℕ)
    → IsDistinct closure
    → plan g closure actions scheduler estimator ≡ planned s
    → Steps keep_going s.dependents s.priority
        (record { shared = start_shared s.priority s.waiting; running = [] })
        b
    → 0 < times l b.running
    → (times l b.running ≡ 1)
      × ((a c : ActionId) (action : ActionNode) (f : FileId) (p : ℕ)
          → get_elem? closure l ≡ some a
          → get_elem? g.actions a ≡ some action
          → In f (action.inputs ++ action.order_only_inputs)
          → producer_of g.files f ≡ some c
          → get_elem? closure p ≡ some c
          → is_done b.shared.outcomes p ≡ true)
plan-supplied g closure actions scheduler estimator s keep_going b l distinct h steps running =
    let index : BTreeMap ActionId ℕ = index_of closure 0 [] in
    let made = plan-waits g closure actions scheduler estimator s h in
    let (is_plan, waits) =
      wait_for-IsPlan g index closure s.dependents s.waiting (length closure) made in
    let (once, _, supplied) =
      Steps-supplied (producers_at g index closure) keep_going s.dependents s.priority s.waiting b l
        is_plan waits steps running in
    (
      once,
      λ a c action f p at found m by place. supplied p (
          reads-In g closure (producers_at g index closure l) a c action f p distinct
            (wait_for-producers g index 0 closure (replicate (length closure) []) s.dependents
              s.waiting l a made at)
            found m by place),
    )
