-- ===== src/Exec/Ordered.antt =====
-- The workers' invariant, and that claiming an action keeps it.
use frostbuild.Base.{
  ℕ, ◌+◌, ◌<◌, ◌≤◌, true, false, List, [], ◌∷◌, some, none, get_elem?, get_or, length, ◌≡◌, inl,
  inr, subst, arith, In, Option-cases,
}
use frostbuild.Exec.{Shared, pop, run, claim}
use frostbuild.Exec.Steps.{times, held, Build, pop-held}
use frostbuild.Exec.Release.{is_done, left}

-- What the schedule gives the workers: `dependents` has an action under each of its producers, once,
-- and under nothing else.
abbrev pub IsPlan : (ℕ → List ℕ) → List (List ℕ) → Type 0
IsPlan producers dependents = (p l : ℕ) → times l (get_or dependents p []) ≡ times p (producers l)

-- Nothing stands to be released, and unless the build was stopped every count is right. An action
-- that is ready or running has no outcome, is there once, and all its producers have theirs.
pub record IsOrdered (producers : ℕ → List ℕ) (b : Build) : Type 0 where
  pub sizes : length b.shared.waiting ≡ length b.shared.outcomes
  pub once : (l : ℕ) → held l b.shared.ready + times l b.running ≤ 1
  pub supplied :
      (l p : ℕ)
      → 0 < held l b.shared.ready + times l b.running
      → In p (producers l)
      → is_done b.shared.outcomes p ≡ true
  pub unfinished :
      (l : ℕ)
      → 0 < held l b.shared.ready + times l b.running
      → get_elem? b.shared.outcomes l ≡ some none
  pub finished_supplied :
      (l p : ℕ)
      → is_done b.shared.outcomes l ≡ true
      → In p (producers l)
      → is_done b.shared.outcomes p ≡ true
  pub counts :
      b.shared.abort ≡ false
      → (l w : ℕ) → get_elem? b.shared.waiting l ≡ some w
      → w ≡ left (producers l) b.shared.outcomes

-- A build that takes an entry of the heap into the running actions.
pub taken-IsOrdered :
    (producers : ℕ → List ℕ) (s : Shared) (running : List ℕ) (i : ℕ) (rest : List (ℕ × ℕ))
    → pop s.ready ≡ some (i, rest)
    → IsOrdered producers (record { shared = s; running = running })
    → IsOrdered producers (record { shared = record s { ready = rest }; running = i ∷ running })
taken-IsOrdered producers s running i rest h o = record {
  sizes = o.sizes;
  once = λ l. ground (arith, o.once l, pop-held l s.ready rest i h);
  supplied = λ l p c m. o.supplied l p (ground (arith, pop-held l s.ready rest i h)) m;
  unfinished = λ l c. o.unfinished l (ground (arith, pop-held l s.ready rest i h));
  finished_supplied = o.finished_supplied;
  counts = o.counts;
}

pub claim-IsOrdered :
    (producers : ℕ → List ℕ) (s s' : Shared) (running : List ℕ) (i : ℕ)
    → claim s ≡ run i s'
    → IsOrdered producers (record { shared = s; running = running })
    → IsOrdered producers (record { shared = s'; running = i ∷ running })
unfolding claim
claim-IsOrdered producers s s' running i h o = elim (Option-cases (pop s.ready)) [
  | inl e ↦ absurd (ground arith)
  | inr ((j, rest), e) ↦
      let both : (j ≡ i) × (record s { ready = rest } ≡ s') = ground arith in
      subst (λ t. IsOrdered producers (record { shared = t; running = i ∷ running })) both.1
        (taken-IsOrdered producers s running i rest
          (subst (λ k. pop s.ready ≡ some (k, rest)) both.0 e) o)
]
