-- ===== src/Exec/Release.antt =====
-- Counting the producers of an action that have no outcome.
use frostbuild.Base.{
  num_cases, get_elem?-lt, ℕ, zero, suc, ◌+◌, ◌<◌, ◌≤◌, Bool, true, false, List, [], ◌∷◌, Option,
  some, none, get_elem?, get_or, set, length, length-set, get_elem?-set_self, get_elem?-set_ne, ◌≡◌,
  inl, inr, refl, sym, ap, ◌∙◌, subst, arith, if◌then◌else◌, In, Option-cases, eq_of_some,
}
use frostbuild.Exec.{Outcome, Shared, release}
use frostbuild.Exec.Steps.{times, held}

abbrev pub done_of : Option (Option Outcome) → Bool
done_of (some (some _)) = true
done_of _ = false

abbrev pub is_done : List (Option Outcome) → ℕ → Bool
is_done outcomes p = done_of (get_elem? outcomes p)

-- How many of the producers have no outcome.
abbrev pub left : List ℕ → List (Option Outcome) → ℕ
left [] o = 0
left (p ∷ ps) o = (if is_done o p then 0 else 1) + left ps o

pub left-set :
    (ps : List ℕ) (o : List (Option Outcome)) (p : ℕ) (v : Outcome)
    → p < length o
    → is_done o p ≡ false
    → left ps (set o p (some v)) + times p ps ≡ left ps o
left-set [] o p v h e = refl
left-set (q ∷ ps) o p v h e = elim (num_cases q p) [
  | inl same ↦
      let now : is_done (set o p (some v)) q ≡ true =
        ap (is_done (set o p (some v))) same ∙ ap done_of (get_elem?-set_self o p (some v) h) in
      let before : is_done o q ≡ false = ap (is_done o) same ∙ e in
      ground (arith, left-set ps o p v h e)
  | inr ne ↦
      let now : is_done (set o p (some v)) q ≡ is_done o q =
        ap done_of (get_elem?-set_ne o (some v) (λ k. ne (sym k))) in
      ground (arith, left-set ps o p v h e, now)
]

pub left-zero :
    (ps : List ℕ) (o : List (Option Outcome)) (p : ℕ) → left ps o ≡ 0 → In p ps → is_done o p ≡ true
left-zero [] o p h m = elim m [ ]
left-zero (q ∷ ps) o p h (inl e) = ap (is_done o) e ∙ ground arith
left-zero (q ∷ ps) o p h (inr m) = left-zero ps o p (ground arith) m

pub In-times : (p : ℕ) (ps : List ℕ) → 0 < times p ps → In p ps
In-times p [] h = absurd (omega arith)
In-times p (q ∷ ps) h = elim (num_cases p q) [
  | inl e ↦ inl e
  | inr ne ↦ inr (In-times p ps (ground arith))
]

pub times-In : (p : ℕ) (ps : List ℕ) → In p ps → 0 < times p ps
times-In p [] m = elim m [ ]
times-In p (q ∷ ps) (inl e) = ground arith
times-In p (q ∷ ps) (inr m) = ground (arith, times-In p ps m)

-- What holds while the dependents in `ds` of a finished action are still to be released.
pub record IsReleasing (producers : ℕ → List ℕ) (running ds : List ℕ) (s : Shared) : Type 0 where
  pub sizes : length s.waiting ≡ length s.outcomes
  pub once : (l : ℕ) → held l s.ready + times l running ≤ 1
  pub supplied :
      (l p : ℕ)
      → 0 < held l s.ready + times l running
      → In p (producers l)
      → is_done s.outcomes p ≡ true
  pub unfinished :
      (l : ℕ) → 0 < held l s.ready + times l running → get_elem? s.outcomes l ≡ some none
  pub apart :
      (l : ℕ)
      → 0 < times l ds
      → (held l s.ready + times l running ≡ 0) × (is_done s.outcomes l ≡ false)
  pub counts :
      (l w : ℕ) → get_elem? s.waiting l ≡ some w → w ≡ left (producers l) s.outcomes + times l ds

pub open_slot :
    (o : List (Option Outcome)) (l : ℕ)
    → l < length o
    → is_done o l ≡ false
    → get_elem? o l ≡ some none
open_slot [] l h e = absurd (omega arith)
open_slot (none ∷ o) zero h e = refl
open_slot (some v ∷ o) zero h e = cc
open_slot (x ∷ o) (suc l) h e = open_slot o l (omega arith) e

-- The counts behind a release, whether or not the action became ready.
released_counts :
    (producers : ℕ → List ℕ) (running ds : List ℕ) (dep w : ℕ) (s : Shared)
    → get_elem? s.waiting dep ≡ some (suc w)
    → IsReleasing producers running (dep ∷ ds) s
    → (l v : ℕ) → get_elem? (set s.waiting dep w) l ≡ some v
    → v ≡ left (producers l) s.outcomes + times l ds
released_counts producers running ds dep w s at r l v h = elim (num_cases l dep) [
  | inl e ↦
      let same : some w ≡ some v =
        sym (get_elem?-set_self s.waiting dep w (get_elem?-lt s.waiting dep at))
        ∙ ap (get_elem? (set s.waiting dep w)) (sym e)
        ∙ h in
      let count = r.counts l (suc w) (ap (get_elem? s.waiting) e ∙ at) in
      ground (arith, eq_of_some same, count)
  | inr ne ↦
      let count = r.counts l v (sym (get_elem?-set_ne s.waiting w (λ k. ne (sym k))) ∙ h) in
      ground (arith, count)
]

still_waiting :
    (producers : ℕ → List ℕ) (running ds : List ℕ) (dep w : ℕ) (s : Shared)
    → get_elem? s.waiting dep ≡ some (suc w)
    → IsReleasing producers running (dep ∷ ds) s
    → IsReleasing producers running ds (record s { waiting = set s.waiting dep w })
still_waiting producers running ds dep w s at r = record {
  sizes = length-set s.waiting dep w ∙ r.sizes;
  once = r.once;
  supplied = r.supplied;
  unfinished = r.unfinished;
  apart = λ l c. r.apart l (ground arith);
  counts = released_counts producers running ds dep w s at r;
}

now_ready :
    (producers : ℕ → List ℕ) (running ds : List ℕ) (dep key : ℕ) (s : Shared)
    → get_elem? s.waiting dep ≡ some 1
    → IsReleasing producers running (dep ∷ ds) s
    → IsReleasing producers running ds
        (record s { waiting = set s.waiting dep 0; ready = (key, dep) ∷ s.ready })
now_ready producers running ds dep key s at r =
    let count : 1 ≡ left (producers dep) s.outcomes + times dep (dep ∷ ds) = r.counts dep 1 at in
    let all_done : left (producers dep) s.outcomes ≡ 0 = ground (arith, count) in
    let no_more : times dep ds ≡ 0 = ground (arith, count) in
    let mine = r.apart dep (ground arith) in
    record {
      sizes = length-set s.waiting dep 0 ∙ r.sizes;
      once = λ l. elim (num_cases l dep) [
        | inl e ↦
            subst (λ k. held k ((key, dep) ∷ s.ready) + times k running ≤ 1) (sym e)
              (ground (arith, mine))
        | inr ne ↦ ground (arith, r.once l)
      ];
      supplied = λ l p c m. elim (num_cases l dep) [
        | inl e ↦
            left-zero (producers dep) s.outcomes p all_done (subst (λ k. In p (producers k)) e m)
        | inr ne ↦ r.supplied l p (ground arith) m
      ];
      unfinished = λ l c. elim (num_cases l dep) [
        | inl e ↦
            ap (get_elem? s.outcomes) e
            ∙ open_slot s.outcomes dep
                (subst (λ n. dep < n) r.sizes (get_elem?-lt s.waiting dep at)) mine.1
        | inr ne ↦ r.unfinished l (ground arith)
      ];
      apart = λ l c. elim (num_cases l dep) [
        | inl e ↦ absurd (no_time l dep ds c e no_more)
        | inr ne ↦ let other = r.apart l (ground arith) in (ground (arith, other), other.1)
      ];
      counts = released_counts producers running ds dep 0 s at r;
    }
  where
    lt_zero : 0 < 0 → ⊥
    lt_zero h = omega arith

    no_time : (l dep : ℕ) (ds : List ℕ) → 0 < times l ds → l ≡ dep → times dep ds ≡ 0 → ⊥
    no_time l dep ds c e z = lt_zero (subst (λ k. 0 < k) (ap (λ k. times k ds) e ∙ z) c)

-- A release that does not panic leaves nothing to release.
pub release-IsReleasing :
    (producers : ℕ → List ℕ) (priority running ds : List ℕ) (s s' : Shared)
    → IsReleasing producers running ds s
    → release priority ds s ≡ some s'
    → IsReleasing producers running [] s' × (s'.outcomes ≡ s.outcomes) × (s'.abort ≡ s.abort)
unfolding release
release-IsReleasing producers priority running [] s s' r h =
    subst
      (λ t. IsReleasing producers running [] t × (t.outcomes ≡ s.outcomes) × (t.abort ≡ s.abort))
      (eq_of_some h) (r, refl, refl)
release-IsReleasing producers priority running (dep ∷ ds) s s' r h =
    elim (Option-cases (get_elem? s.waiting dep)) [
      | inl e ↦ absurd (ground arith)
      | inr (zero, e) ↦ absurd (ground arith)
      | inr (suc zero, e) ↦
          release-IsReleasing producers priority running ds
            (record s {
              waiting = set s.waiting dep 0;
              ready = (get_or priority dep 0, dep) ∷ s.ready;
            })
            s' (now_ready producers running ds dep (get_or priority dep 0) s e r) (ground arith)
      | inr (suc (suc w), e) ↦
          release-IsReleasing producers priority running ds
            (record s { waiting = set s.waiting dep (suc w) }) s'
            (still_waiting producers running ds dep (suc w) s e r) (ground arith)
    ]
