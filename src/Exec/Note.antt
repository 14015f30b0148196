-- ===== src/Exec/Note.antt =====
-- What noting an outcome keeps: a build that is stopped, and one whose dependents stand to be released.
use frostbuild.Base.{
  num_cases, get_elem?-lt, ℕ, ◌+◌, ◌<◌, ◌≤◌, true, false, List, [], ◌∷◌, some, none, get_elem?,
  get_or, set, length-set, get_elem?-set_self, get_elem?-set_ne, ◌≡◌, ◌≢◌, inl, inr, sym, ap, ◌∙◌,
  subst, arith, In, Bool-cases,
}
use frostbuild.Exec.{Outcome, Shared}
use frostbuild.Exec.Steps.{times, held}
use frostbuild.Exec.Release.{is_done, done_of, left-set, In-times, IsReleasing}
use frostbuild.Exec.Ordered.{IsPlan, IsOrdered}

module _ (producers : ℕ → List ℕ) (s : Shared) (running rest : List ℕ) (local : ℕ)
    (outcome : Outcome) (o : IsOrdered producers (record { shared = s; running = running }))
    (moved : (l : ℕ) → times l running ≡ times l (local ∷ rest)) where
  local_claimed : 0 < held local s.ready + times local running
  local_claimed = ground (arith, moved local)

  slot : get_elem? s.outcomes local ≡ some none
  slot = o.unfinished local local_claimed

  not_done : is_done s.outcomes local ≡ false
  not_done = ap done_of slot

  -- An action that still is ready or running is another one.
  other_claimed :
      (l : ℕ)
      → 0 < held l s.ready + times l rest
      → (l ≢ local) × (0 < held l s.ready + times l running)
  other_claimed l c = elim (num_cases l local) [
    | inl e ↦ absurd (twice (subst (λ k. 0 < held k s.ready + times k rest) e c))
    | inr ne ↦ (ne, ground (arith, moved l))
  ]
    where
      twice : 0 < held local s.ready + times local rest → ⊥
      twice c = ground (arith, o.once local, moved local)

  done_ne :
      (l : ℕ) → l ≢ local → is_done (set s.outcomes local (some outcome)) l ≡ is_done s.outcomes l
  done_ne l ne = ap done_of (get_elem?-set_ne s.outcomes (some outcome) (λ k. ne (sym k)))

  done_local : is_done (set s.outcomes local (some outcome)) local ≡ true
  done_local =
      ap done_of
        (get_elem?-set_self s.outcomes local (some outcome) (get_elem?-lt s.outcomes local slot))

  done_mono :
      (p : ℕ) → is_done s.outcomes p ≡ true → is_done (set s.outcomes local (some outcome)) p ≡ true
  done_mono p h = elim (num_cases p local) [
    | inl e ↦ ap (is_done (set s.outcomes local (some outcome))) e ∙ done_local
    | inr ne ↦ done_ne p ne ∙ h
  ]

  pub finished_note :
      (l p : ℕ)
      → is_done (set s.outcomes local (some outcome)) l ≡ true
      → In p (producers l)
      → is_done (set s.outcomes local (some outcome)) p ≡ true
  finished_note l p h m = done_mono p (elim (num_cases l local) [
    | inl e ↦ o.supplied local p local_claimed (subst (λ k. In p (producers k)) e m)
    | inr ne ↦ o.finished_supplied l p (sym (done_ne l ne) ∙ h) m
  ])

  -- Behind a note that does not stop the build, the dependents stand to be released.
  pub note-IsReleasing :
      (dependents : List (List ℕ)) (pending : ℕ)
      → IsPlan producers dependents
      → s.abort ≡ false
      → IsReleasing producers rest (get_or dependents local []) (record {
        ready = s.ready;
        waiting = s.waiting;
        outcomes = set s.outcomes local (some outcome);
        pending = pending;
        abort = false;
      })
  note-IsReleasing dependents pending plan go = record {
    sizes = o.sizes ∙ sym (length-set s.outcomes local (some outcome));
    once = λ l. ground (arith, o.once l, moved l);
    supplied = λ l p c m. done_mono p (o.supplied l p (other_claimed l c).1 m);
    unfinished = λ l c.
        get_elem?-set_ne s.outcomes (some outcome) (λ k. (other_claimed l c).0 (sym k))
        ∙ o.unfinished l (other_claimed l c).1;
    apart = λ l c.
        let needs : In local (producers l) =
          In-times local (producers l) (ground (arith, plan local l)) in
        (
          free l needs,
          elim (Bool-cases (is_done (set s.outcomes local (some outcome)) l)) [
            | inl d ↦ absurd (clash l needs d)
            | inr d ↦ d
          ],
        );
    counts = λ l w h.
        let count = o.counts go l w h in
        ground (
          arith,
          count,
          plan local l,
          left-set (producers l) s.outcomes local outcome (get_elem?-lt s.outcomes local slot)
              not_done,
        );
  }
    where
      early : (l : ℕ) → In local (producers l) → 0 < held l s.ready + times l running → ⊥
      early l needs c = cc (sym not_done ∙ o.supplied l local c needs)

      free : (l : ℕ) → In local (producers l) → held l s.ready + times l rest ≡ 0
      free l needs =
          none_of (held l s.ready + times l rest) (λ c. early l needs (other_claimed l c).1)
        where
          none_of : (n : ℕ) → ¬ (0 < n) → n ≡ 0
          none_of n h = ground arith

      clash :
          (l : ℕ)
          → In local (producers l)
          → is_done (set s.outcomes local (some outcome)) l ≡ true
          → ⊥
      clash l needs d = elim (num_cases l local) [
        | inl e ↦ early local (subst (λ k. In local (producers k)) e needs) local_claimed
        | inr ne ↦ cc (sym not_done ∙ o.finished_supplied l local (sym (done_ne l ne) ∙ d) needs)
      ]

  -- Behind a note that stops the build, or in a build that is stopped.
  pub stopped-IsOrdered :
      (ready : List (ℕ × ℕ)) (pending : ℕ)
      → ((l : ℕ) → held l ready ≤ held l s.ready)
      → IsOrdered producers (record {
        shared = record {
          ready = ready;
          waiting = s.waiting;
          outcomes = set s.outcomes local (some outcome);
          pending = pending;
          abort = true;
        };
        running = rest;
      })
  stopped-IsOrdered ready pending fewer = record {
    sizes = o.sizes ∙ sym (length-set s.outcomes local (some outcome));
    once = λ l. ground (arith, o.once l, moved l, fewer l);
    supplied =
        λ l p c m. done_mono p (o.supplied l p (other_claimed l (ground (arith, fewer l))).1 m);
    unfinished = λ l c.
        let d = other_claimed l (ground (arith, fewer l)) in
        get_elem?-set_ne s.outcomes (some outcome) (λ k. d.0 (sym k)) ∙ o.unfinished l d.1;
    finished_supplied = finished_note;
    counts = λ a. cc;
  }
