-- ===== src/Exec/Safety.antt =====
-- The order in which actions start: never before what they wait for, and never twice.
use frostbuild.Base.{
  ℕ, ◌-◌, ◌≤◌, Bool, true, false, not, ◌&&◌, ◌||◌, List, [], ◌∷◌, Option, some, none, get_or, set,
  ◌≡◌, inl, inr, sym, subst, arith, ◌==◌, if◌then◌else◌, In, Bool-cases, Option-cases,
}
use frostbuild.Exec.{Outcome, Shared, pop, is_failed, release, settle, take_along, finish}
use frostbuild.Exec.Steps.{
  times, held, Build, with_continuation, start, end, Steps, none_yet, and_then,
}
use frostbuild.Exec.Release.{is_done, IsReleasing, release-IsReleasing}
use frostbuild.Exec.Ordered.{IsPlan, IsOrdered, taken-IsOrdered, claim-IsOrdered}
use frostbuild.Exec.Note.{finished_note, note-IsReleasing, stopped-IsOrdered}

released-IsOrdered :
    (producers : ℕ → List ℕ) (s : Shared) (rest : List ℕ) (outcomes : List (Option Outcome))
    → IsReleasing producers rest [] s
    → s.outcomes ≡ outcomes
    → ((l p : ℕ) → is_done outcomes l ≡ true → In p (producers l) → is_done outcomes p ≡ true)
    → IsOrdered producers (record { shared = s; running = rest })
released-IsOrdered producers s rest outcomes r e f = record {
  sizes = r.sizes;
  once = r.once;
  supplied = r.supplied;
  unfinished = r.unfinished;
  finished_supplied =
      subst
        (λ (os : List (Option Outcome)).
          (l p : ℕ) → is_done os l ≡ true → In p (producers l) → is_done os p ≡ true)
        (sym e) f;
  counts = λ a l w h. let c = r.counts l w h in omega (arith, c);
}

take_along-IsOrdered :
    (producers : ℕ → List ℕ) (s : Shared) (rest : List ℕ)
    → IsOrdered producers (record { shared = s; running = rest })
    → IsOrdered producers
        (record { shared = (take_along s).1; running = with_continuation (take_along s).0 rest })
take_along-IsOrdered producers s rest o = elim (Bool-cases (s.pending == 0 || s.abort)) [
  | inl e ↦
      let same : (none, s) ≡ take_along s = unfold take_along in ground arith in subst Kept same o
  | inr e ↦ elim (Option-cases (pop s.ready)) [
    | inl p ↦
        let same : (none, s) ≡ take_along s = unfold take_along in ground arith in subst Kept same o
    | inr ((i, heap), p) ↦
        let same : (some i, record s { ready = heap }) ≡ take_along s =
          unfold take_along in ground arith in
        subst Kept same (taken-IsOrdered producers s rest i heap p o)
  ]
]
  where
    Kept : Option ℕ × Shared → Type 0
    Kept r = IsOrdered producers (record { shared = r.1; running = with_continuation r.0 rest })

fewer_held :
    (stop : Bool) (l : ℕ) (ready : List (ℕ × ℕ))
    → held l (if stop then [] else ready) ≤ held l ready
fewer_held true l ready = omega arith
fewer_held false l ready = omega arith

or_false : (a b : Bool) → (a || b) ≡ false → (a ≡ false) × (b ≡ false)
or_false a b h = ground arith

settle-IsOrdered :
    (producers : ℕ → List ℕ) (keep_going : Bool) (dependents : List (List ℕ)) (priority : List ℕ)
    (s s' : Shared) (running rest : List ℕ) (local : ℕ) (outcome : Outcome)
    → IsPlan producers dependents
    → IsOrdered producers (record { shared = s; running = running })
    → ((l : ℕ) → times l running ≡ times l (local ∷ rest))
    → settle keep_going dependents priority local outcome s ≡ some s'
    → IsOrdered producers (record { shared = s'; running = rest })
unfolding settle
settle-IsOrdered producers keep_going dependents priority s s' running rest local outcome plan o
      moved h =
    let stop : Bool = is_failed outcome && not keep_going in
    elim (Bool-cases (s.abort || stop)) [
      | inl e ↦
          let same : noted_at stop (s.abort || stop) ≡ s' = ground arith in
          subst (λ t. IsOrdered producers (record { shared = t; running = rest })) same
            (subst (λ b. IsOrdered producers (record { shared = noted_at stop b; running = rest }))
              (sym e)
              (stopped-IsOrdered producers s running rest local outcome o moved
                (if stop then [] else s.ready) (s.pending - 1) (λ l. fewer_held stop l s.ready)))
      | inr e ↦
          let (going, no_stop) = or_false s.abort stop e in
          let releasing : IsReleasing producers rest (get_or dependents local [])
              (noted_at stop (s.abort || stop)) =
            subst (λ c. IsReleasing producers rest (get_or dependents local []) (noted_at stop c))
              (sym e)
              (subst
                (λ b. IsReleasing producers rest (get_or dependents local []) (noted_at b false))
                (sym no_stop)
                (note-IsReleasing producers s running rest local outcome o moved dependents
                  (s.pending - 1) plan going)) in
          let released : release priority (get_or dependents local [])
                (noted_at stop (s.abort || stop))
              ≡ some s' =
            ground arith in
          let (done, outcomes, _) =
            release-IsReleasing producers priority rest (get_or dependents local [])
              (noted_at stop (s.abort || stop)) s' releasing released in
          released-IsOrdered producers s' rest (set s.outcomes local (some outcome)) done outcomes
            (finished_note producers s running rest local outcome o moved)
    ]
  where
    noted_at : Bool → Bool → Shared
    noted_at stop abort = record {
      ready = if stop then [] else s.ready;
      waiting = s.waiting;
      outcomes = set s.outcomes local (some outcome);
      pending = s.pending - 1;
      abort = abort;
    }

finish-IsOrdered :
    (producers : ℕ → List ℕ) (keep_going : Bool) (dependents : List (List ℕ)) (priority : List ℕ)
    (s s' : Shared) (running rest : List ℕ) (local : ℕ) (outcome : Outcome) (next : Option ℕ)
    → IsPlan producers dependents
    → IsOrdered producers (record { shared = s; running = running })
    → ((l : ℕ) → times l running ≡ times l (local ∷ rest))
    → finish keep_going dependents priority local outcome s ≡ some (next, s')
    → IsOrdered producers (record { shared = s'; running = with_continuation next rest })
unfolding finish
finish-IsOrdered producers keep_going dependents priority s s' running rest local outcome next plan
      o moved h =
    elim (Option-cases (settle keep_going dependents priority local outcome s)) [
      | inl e ↦ absurd (ground arith)
      | inr (t, e) ↦
          let same : take_along t ≡ (next, s') = ground arith in
          subst
            (λ (r : Option ℕ × Shared).
              IsOrdered producers (record { shared = r.1; running = with_continuation r.0 rest }))
            same
            (take_along-IsOrdered producers t rest (
              settle-IsOrdered producers keep_going dependents priority s t running rest local
                outcome plan o moved e))
    ]

pub Steps-IsOrdered :
    (producers : ℕ → List ℕ) (keep_going : Bool) (dependents : List (List ℕ)) (priority : List ℕ)
    {b c : Build}
    → IsPlan producers dependents
    → IsOrdered producers b
    → Steps keep_going dependents priority b c
    → IsOrdered producers c
Steps-IsOrdered producers keep_going dependents priority plan o none_yet = o
Steps-IsOrdered producers keep_going dependents priority plan o
      (and_then steps (start s s' running i h)) =
    claim-IsOrdered producers s s' running i h
      (Steps-IsOrdered producers keep_going dependents priority plan o steps)
Steps-IsOrdered producers keep_going dependents priority plan o
      (and_then steps (end s s' running rest local outcome next moved h)) =
    finish-IsOrdered producers keep_going dependents priority s s' running rest local outcome next
      plan (Steps-IsOrdered producers keep_going dependents priority plan o steps) moved h
