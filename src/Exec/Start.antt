-- ===== src/Exec/Start.antt =====
-- A build from its first state on.
use frostbuild.Base.{
  get_elem?-lt, num_cases, ℕ, zero, suc, ◌+◌, ◌<◌, ◌≤◌, Bool, true, false, List, [], ◌∷◌, Option,
  some, none, get_elem?, length, replicate, ◌≡◌, ◌≢◌, inl, inr, refl, sym, ap, ◌∙◌, subst, arith,
  ◌==◌, if◌then◌else◌, In,
}
use frostbuild.Exec.{Outcome, ready_of, start_shared}
use frostbuild.Exec.Steps.{times, held, Build, Steps}
use frostbuild.Exec.Release.{is_done, done_of, left}
use frostbuild.Exec.Ordered.{IsPlan, IsOrdered}
use frostbuild.Exec.Safety.{Steps-IsOrdered}

-- Every action waits for as many actions as it has producers.
abbrev pub Waits : (ℕ → List ℕ) → List ℕ → Type 0
Waits producers waiting = (l w : ℕ) → get_elem? waiting l ≡ some w → w ≡ length (producers l)

ready_of-below :
    (l i : ℕ) (priority waiting : List ℕ) → l < i → held l (ready_of i priority waiting) ≡ 0
unfolding ready_of
ready_of-below l i priority [] h = refl
ready_of-below l i priority (zero ∷ waiting) h =
    ground (arith, ready_of-below l (i + 1) priority waiting (omega arith))
ready_of-below l i priority (suc w ∷ waiting) h =
    ground (arith, ready_of-below l (i + 1) priority waiting (omega arith))

ready_of-once : (l i : ℕ) (priority waiting : List ℕ) → held l (ready_of i priority waiting) ≤ 1
unfolding ready_of
ready_of-once l i priority [] = omega arith
ready_of-once l i priority (zero ∷ waiting) = elim (num_cases l i) [
  | inl e ↦
      let below = ready_of-below l (i + 1) priority waiting (omega arith) in ground (arith, below)
  | inr ne ↦ ground (arith, ready_of-once l (i + 1) priority waiting)
]
ready_of-once l i priority (suc w ∷ waiting) =
    ground (arith, ready_of-once l (i + 1) priority waiting)

ready_of-waits :
    (i w : ℕ) (priority waiting : List ℕ)
    → ready_of i priority (suc w ∷ waiting) ≡ ready_of (i + 1) priority waiting
unfolding ready_of
ready_of-waits i w priority waiting = ground arith

lt_zero : 0 < 0 → ⊥
lt_zero h = omega arith

ready_of-zero :
    (k i : ℕ) (priority waiting : List ℕ)
    → 0 < held (i + k) (ready_of i priority waiting)
    → get_elem? waiting k ≡ some 0
unfolding ready_of
ready_of-zero k i priority [] h = absurd (omega arith)
ready_of-zero zero i priority (zero ∷ waiting) h = refl
ready_of-zero zero i priority (suc w ∷ waiting) h =
    let below = ready_of-below (i + 0) (i + 1) priority waiting (omega arith) in
    absurd (
      nothing (i + 0) (ready_of (i + 1) priority waiting) (ready_of i priority (suc w ∷ waiting))
        (ready_of-waits i w priority waiting) below h)
  where
    nothing :
        (n : ℕ) (heap heap' : List (ℕ × ℕ)) → heap' ≡ heap → held n heap ≡ 0 → 0 < held n heap' → ⊥
    nothing n heap heap' e z c = lt_zero (subst (λ k. 0 < k) (ap (held n) e ∙ z) c)
ready_of-zero (suc k) i priority (zero ∷ waiting) h = ready_of-zero k (i + 1) priority waiting (
    subst (λ n. 0 < held n (ready_of (i + 1) priority waiting)) {x = i + suc k} {y = i + 1 + k}
      (omega arith)
      (tail (i + suc k) (held (i + suc k) (ready_of (i + 1) priority waiting)) (omega arith) h))
  where
    tail : (n m : ℕ) → n ≢ i → 0 < (if n == i then 1 else 0) + m → 0 < m
    tail n m ne h = ground arith
ready_of-zero (suc k) i priority (suc w ∷ waiting) h = ready_of-zero k (i + 1) priority waiting (
    moved (i + suc k) (i + 1 + k) (ready_of i priority (suc w ∷ waiting))
      (ready_of (i + 1) priority waiting) (omega arith) (ready_of-waits i w priority waiting) h)
  where
    moved :
        (n m : ℕ) (heap heap' : List (ℕ × ℕ))
        → n ≡ m
        → heap ≡ heap'
        → 0 < held n heap
        → 0 < held m heap'
    moved n m heap heap' e f c = subst (λ k. 0 < held k heap') e (subst (λ t. 0 < held n t) f c)

abbrev none_yet_of : ℕ → List (Option Outcome)
none_yet_of n = replicate n none

not_done : (n l : ℕ) → done_of (get_elem? (none_yet_of n) l) ≡ false
not_done zero l = refl
not_done (suc n) zero = refl
not_done (suc n) (suc l) = not_done n l

open_below : (n l : ℕ) → l < n → get_elem? (none_yet_of n) l ≡ some none
open_below zero l h = absurd (omega arith)
open_below (suc n) zero h = refl
open_below (suc n) (suc l) h = open_below n l (omega arith)

left-replicate : (ps : List ℕ) (n : ℕ) → left ps (none_yet_of n) ≡ length ps
left-replicate [] n = refl
left-replicate (p ∷ ps) n = ground (arith, not_done n p, left-replicate ps n)

length-replicate : (n : ℕ) → n ≡ length (none_yet_of n)
length-replicate zero = refl
length-replicate (suc n) = ap suc (length-replicate n)

nothing-In : (p : ℕ) (ps : List ℕ) → 0 ≡ length ps → In p ps → ⊥
nothing-In p [] h m = m
nothing-In p (q ∷ ps) h m = omega arith

start-IsOrdered :
    (producers : ℕ → List ℕ) (priority waiting : List ℕ)
    → Waits producers waiting
    → IsOrdered producers (record { shared = start_shared priority waiting; running = [] })
start-IsOrdered producers priority waiting w = record {
  sizes = length-replicate (length waiting);
  once = λ l. omega (arith, ready_of-once l 0 priority waiting);
  supplied = λ l p c m. absurd (nothing-In p (producers l) (w l 0 (free l c)) m);
  unfinished = λ l c. open_below (length waiting) l (get_elem?-lt waiting l (free l c));
  finished_supplied = λ l p d m. absurd (cc (sym (not_done (length waiting) l) ∙ d));
  counts = λ a l v h. w l v h ∙ sym (left-replicate (producers l) (length waiting));
}
  where
    free : (l : ℕ) → 0 < held l (ready_of 0 priority waiting) + 0 → get_elem? waiting l ≡ some 0
    free l c = ready_of-zero l 0 priority waiting (
        subst (λ n. 0 < held n (ready_of 0 priority waiting)) {x = l} {y = 0 + l} (omega arith)
          (omega arith))

-- In every state that the workers reach, in whatever order they claim and finish actions and
-- whatever the outcomes are, an action that is running has no outcome yet, no other worker runs it,
-- and every one of its producers has an outcome.
pub Steps-supplied :
    (producers : ℕ → List ℕ) (keep_going : Bool) (dependents : List (List ℕ))
    (priority waiting : List ℕ) (b : Build) (l : ℕ)
    → IsPlan producers dependents
    → Waits producers waiting
    → Steps keep_going dependents priority
        (record { shared = start_shared priority waiting; running = [] })
        b
    → 0 < times l b.running
    → (times l b.running ≡ 1)
      × (get_elem? b.shared.outcomes l ≡ some none)
      × ((p : ℕ) → In p (producers l) → is_done b.shared.outcomes p ≡ true)
Steps-supplied producers keep_going dependents priority waiting b l plan waits steps running =
    let o =
      Steps-IsOrdered producers keep_going dependents priority plan
        (start-IsOrdered producers priority waiting waits) steps in
    (omega (arith, o.once l), o.unfinished l (omega arith), λ p m. o.supplied l p (omega arith) m)
