-- ===== src/Graph/Toposort/Fuel.antt =====
-- `visit` with enough fuel returns, and a cycle that it reports is one.
use frostbuild.Base.{
  ℕ, zero, suc, ◌+◌, ◌<◌, ◌≤◌, List, [], ◌∷◌, ◌++◌, Option, some, none, length, In, In-append_left,
  In-append_right, ◌≡◌, ◌≢◌, ◌⊎◌, inl, inr, refl, sym, ap, subst, ◌∙◌, arith, Result, ok, err,
  ◌>>=◌, Option-cases,
}
use frostbuild.Base.Text.{Text, text_order, text_cases}
use frostbuild.Base.BTreeMap.{BTreeMap, lookup, lookup-insert_self, lookup-insert_ne}
use frostbuild.Manifest.{Target}
use frostbuild.Graph.Toposort.{
  State, unvisited, visiting, visited, TopoError, cycle, cycle_of, Sorting, enter, leave,
  visit_each, visit,
}
use frostbuild.Graph.Toposort.Sound.{
  IsSorting, Step, lookup-set, lookup-unset, visit-Step, enter-IsSorting,
}
use frostbuild.Graph.Toposort.Walk.{IsWalk, IsCycle, IsWalk-snoc, cycle_of-IsCycle}

-- How many of the names are unvisited.
abbrev pub is_unvisited : Option State → ℕ
is_unvisited (some unvisited) = 1
is_unvisited _ = 0

abbrev pub count : List Text → BTreeMap Text State → ℕ
count [] st = 0
count (n ∷ ns) st = is_unvisited (lookup n st) + count ns st

is_unvisited-moved :
    (o o' : Option State)
    → (o' ≡ some unvisited → o ≡ some unvisited)
    → is_unvisited o' ≤ is_unvisited o
is_unvisited-moved o (some unvisited) h = ground (arith, h refl)
is_unvisited-moved o (some visiting) h = omega arith
is_unvisited-moved o (some visited) h = omega arith
is_unvisited-moved o none h = omega arith

count-moved :
    (ns : List Text) (st st' : BTreeMap Text State)
    → ((x : Text) → lookup x st' ≡ some unvisited → lookup x st ≡ some unvisited)
    → count ns st' ≤ count ns st
count-moved [] st st' h = omega arith
count-moved (n ∷ ns) st st' h =
    omega (arith, count-moved ns st st' h, is_unvisited-moved (lookup n st) (lookup n st') (h n))

count-visit :
    (ns : List Text) (st st' : BTreeMap Text State) (name : Text)
    → ((x : Text) → lookup x st' ≡ some unvisited → lookup x st ≡ some unvisited)
    → In name ns
    → lookup name st ≡ some unvisited
    → lookup name st' ≡ some visiting
    → count ns st' < count ns st
count-visit [] st st' name h m a b = elim m [ ]
count-visit (n ∷ ns) st st' name h (inl e) a b =
    let one : is_unvisited (lookup n st) ≡ 1 =
      ap is_unvisited (ap (λ k. lookup k st) (sym e) ∙ a) in
    let none_left : is_unvisited (lookup n st') ≡ 0 =
      ap is_unvisited (ap (λ k. lookup k st') (sym e) ∙ b) in
    omega (arith, count-moved ns st st' h)
count-visit (n ∷ ns) st st' name h (inr m) a b = omega (
  arith,
  count-visit ns st st' name h m a b,
  is_unvisited-moved (lookup n st) (lookup n st') (h n),
)

is_unvisited-le : (o : Option State) → is_unvisited o ≤ 1
is_unvisited-le (some unvisited) = omega arith
is_unvisited-le (some visiting) = omega arith
is_unvisited-le (some visited) = omega arith
is_unvisited-le none = omega arith

pub count-length : (ns : List Text) (st : BTreeMap Text State) → count ns st ≤ length ns
count-length [] st = omega arith
count-length (n ∷ ns) st = omega (arith, count-length ns st, is_unvisited-le (lookup n st))

abbrev pub Outcome : BTreeMap Text Target → Result TopoError Sorting → Type 0
Outcome targets r =
    ((s : Sorting) × (r ≡ ok s)) ⊎ ((c : List Text) × (r ≡ err (cycle c)) × IsCycle targets c)

-- Every name in `names` is a declared target, and depends on names in `names` only.
pub record IsClosed (targets : BTreeMap Text Target) (names : List Text) : Type 0 where
  pub declared : (x : Text) → In x names → (t : Target) × (lookup x targets ≡ some t)
  pub deps : (x d : Text) (t : Target) → lookup x targets ≡ some t → In d t.deps → In d names

module _ (targets : BTreeMap Text Target) (names : List Text)
    (closed : IsClosed targets names) where
  -- What a visit starts from.
  pub record IsReady (s : Sorting) : Type 0 where
    pub sorting : IsSorting targets s
    pub on_path : (x : Text) → lookup x s.states ≡ some visiting → In x s.path
    pub known : (x : Text) → In x names → lookup x s.states ≢ none

  IsReady-Step : (s s' : Sorting) → IsReady s → Step targets s s' → IsReady s'
  IsReady-Step s s' r step = record {
    sorting = step.sorting;
    on_path = λ x h. subst (In x) (sym step.path) (r.on_path x (step.opened x h));
    known = λ x m. step.known x (r.known x m);
  }

  enter-IsReady :
      (name : Text) (s : Sorting)
      → lookup name s.states ≡ some unvisited
      → IsReady s
      → IsReady (enter name s)
  enter-IsReady name s new r = record {
    sorting = enter-IsSorting targets name s new r.sorting;
    on_path = λ x h. elim (text_cases x name) [
      | inl e ↦ In-append_right x s.path (name ∷ []) (inl e)
      | inr ne ↦
          In-append_left x s.path (name ∷ [])
            (r.on_path x (sym (lookup-insert_ne name x visiting s.states ne) ∙ h))
    ];
    known = λ x m. lookup-set targets x name s.states visiting (r.known x m);
  }

  enter-moved :
      (name : Text) (s : Sorting) (x : Text)
      → lookup x (enter name s).states ≡ some unvisited
      → lookup x s.states ≡ some unvisited
  enter-moved name s x h = lookup-unset targets x name s.states visiting unvisited h (λ e. cc)

  pub visit_each-Outcome :
      (fuel : ℕ) (ds : List Text) (s : Sorting)
      → ((d : Text) (s : Sorting)
          → IsReady s
          → IsWalk targets (s.path ++ d ∷ [])
          → In d names
          → count names s.states < fuel
          → Outcome targets (visit fuel targets d s))
      → IsReady s
      → ((d : Text) → In d ds → IsWalk targets (s.path ++ d ∷ []) × In d names)
      → count names s.states < fuel
      → Outcome targets (visit_each (visit fuel targets) ds s)
  unfolding visit_each
  visit_each-Outcome fuel [] s go r w c = inl (s, refl)
  visit_each-Outcome fuel (d ∷ ds) s go r w c =
      elim (go d s r (w d (inl refl)).0 (w d (inl refl)).1 c) [
        | inr (cyc, e, is) ↦ inr (
          cyc,
          ap (λ (m : Result TopoError Sorting). m >>= visit_each (visit fuel targets) ds) e,
          is,
        )
        | inl (s', e) ↦
            let step = (visit-Step targets fuel d s s' r.sorting e).0 in
            let rest =
              visit_each-Outcome fuel ds s' go (IsReady-Step s s' r step)
                (λ x m. (
                  subst (λ p. IsWalk targets (p ++ x ∷ [])) (sym step.path) (w x (inr m)).0,
                  (w x (inr m)).1,
                ))
                (omega (arith, count-moved names s.states s'.states step.moved)) in
            subst (Outcome targets)
              (sym
                (ap (λ (m : Result TopoError Sorting). m >>= visit_each (visit fuel targets) ds) e))
              rest
      ]

  leave-Outcome :
      (name : Text) (r : Result TopoError Sorting)
      → Outcome targets r
      → Outcome targets (r >>= λ s. ok (leave name s))
  leave-Outcome name r (inl (s, e)) =
      inl (leave name s, ap (λ (m : Result TopoError Sorting). m >>= λ s. ok (leave name s)) e)
  leave-Outcome name r (inr (c, e, is)) =
      inr (c, ap (λ (m : Result TopoError Sorting). m >>= λ s. ok (leave name s)) e, is)

  pub visit-Outcome :
      (fuel : ℕ) (name : Text) (s : Sorting)
      → IsReady s
      → IsWalk targets (s.path ++ name ∷ [])
      → In name names
      → count names s.states < fuel
      → Outcome targets (visit fuel targets name s)
  unfolding visit
  visit-Outcome zero name s r w m c = absurd (omega arith)
  visit-Outcome (suc fuel) name s r w m c = elim (Option-cases (lookup name s.states)) [
    | inl e ↦ absurd (r.known name m e)
    | inr (visited, e) ↦ inl (s, ground arith)
    | inr (visiting, e) ↦ inr (
      cycle_of name s.path,
      ground arith,
      cycle_of-IsCycle targets name s.path (r.on_path name e) w,
    )
    | inr (unvisited, e) ↦
        let (t, f) = closed.declared name m in
        let run : (visit_each (visit fuel targets) t.deps (enter name s) >>= λ u. ok (leave name u))
            ≡ visit (suc fuel) targets name s =
          ground arith in
        let fewer =
          count-visit names s.states (enter name s).states name (enter-moved name s) m e
            (lookup-insert_self name visiting s.states) in
        subst (Outcome targets) run (
          leave-Outcome name (visit_each (visit fuel targets) t.deps (enter name s)) (
            visit_each-Outcome fuel t.deps (enter name s) (visit-Outcome fuel)
              (enter-IsReady name s e r)
              (λ d n. (IsWalk-snoc targets s.path name d w (t, f, n), closed.deps name d t f n))
              (omega (arith, fewer))))
  ]
