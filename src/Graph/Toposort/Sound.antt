-- ===== src/Graph/Toposort/Sound.antt =====
-- The order that `toposort_targets` returns: every target once, and behind its dependencies.
use frostbuild.Base.{
  ℕ, zero, suc, List, [], ◌∷◌, some, none, length, In, All, In-append, In-append_left,
  In-append_right, ◌≡◌, ◌≢◌, inl, inr, refl, sym, ap, subst, ◌∙◌, arith, Result, ok, ◌>>=◌,
  >>=-eq-ok, ok_injective, eq_of_some, Option-cases,
}
use frostbuild.Base.Text.{Text, text_order, text_cases}
use frostbuild.Base.BTreeMap.{BTreeMap, lookup, insert, lookup-insert_self, lookup-insert_ne}
use frostbuild.Base.BTreeSet.{keys}
use frostbuild.Manifest.{Target}
use frostbuild.Graph.Toposort.{
  State, unvisited, visiting, visited, TopoError, Sorting, enter, leave, pop, visit_each, visit,
  all_unvisited, toposort_targets,
}
use frostbuild.Graph.Toposort.Topological.{IsTopological, IsTopological-snoc, All-at, pop-snoc}

module _ (targets : BTreeMap Text Target) where
  pub record IsSorting (s : Sorting) : Type 0 where
    pub ordered : IsTopological targets [] s.order
    pub done_in : (x : Text) → lookup x s.states ≡ some visited → In x s.order
    pub in_done : (x : Text) → In x s.order → lookup x s.states ≡ some visited

  -- What a visit that succeeds does to the sorting.
  pub record Step (s s' : Sorting) : Type 0 where
    pub sorting : IsSorting s'
    pub kept : (x : Text) → In x s.order → In x s'.order
    pub held : (x : Text) → lookup x s.states ≡ some visiting → lookup x s'.states ≡ some visiting
    pub moved :
        (x : Text) → lookup x s'.states ≡ some unvisited → lookup x s.states ≡ some unvisited
    pub opened : (x : Text) → lookup x s'.states ≡ some visiting → lookup x s.states ≡ some visiting
    pub known : (x : Text) → lookup x s.states ≢ none → lookup x s'.states ≢ none
    pub path : s'.path ≡ s.path

  Step-refl : (s : Sorting) → IsSorting s → Step s s
  Step-refl s i = record {
    sorting = i;
    kept = λ x m. m;
    held = λ x h. h;
    moved = λ x h. h;
    opened = λ x h. h;
    known = λ x h. h;
    path = refl;
  }

  Step-trans : (s t u : Sorting) → Step s t → Step t u → Step s u
  Step-trans s t u a b = record {
    sorting = b.sorting;
    kept = λ x m. b.kept x (a.kept x m);
    held = λ x h. b.held x (a.held x h);
    moved = λ x h. a.moved x (b.moved x h);
    opened = λ x h. a.opened x (b.opened x h);
    known = λ x h. b.known x (a.known x h);
    path = b.path ∙ a.path;
  }

  -- What it takes of a function that visits one name.
  abbrev pub Visits : (Text → Sorting → Result TopoError Sorting) → Type 0
  Visits go =
      (name : Text) (s s' : Sorting)
      → IsSorting s
      → go name s ≡ ok s'
      → Step s s' × In name s'.order

  visit_each-Step :
      (go : Text → Sorting → Result TopoError Sorting) (names : List Text) (s s' : Sorting)
      → Visits go
      → IsSorting s
      → visit_each go names s ≡ ok s'
      → Step s s' × All (λ n. In n s'.order) names
  unfolding visit_each
  visit_each-Step go [] s s' v i h =
      subst (λ t. Step s t × Unit) (ok_injective h) (Step-refl s i, tt)
  visit_each-Step go (name ∷ names) s s' v i h =
      let (t, h1, r1) = >>=-eq-ok (go name s) _ h in
      let first = v name s t i h1 in
      let rest = visit_each-Step go names t s' v first.0.sorting r1 in
      (Step-trans s t s' first.0 rest.0, (rest.0.kept name first.1, rest.1))

  lookup-unlike :
      (x name : Text) (st : BTreeMap Text State) (a b : State)
      → lookup name st ≡ some a
      → lookup x st ≡ some b
      → ¬ (a ≡ b)
      → x ≢ name
  lookup-unlike x name st a b ha hb ne e =
      ne (eq_of_some (sym ha ∙ ap (λ k. lookup k st) (sym e) ∙ hb))

  -- A state that stands after a name was set to another one stood before.
  pub lookup-unset :
      (x name : Text) (st : BTreeMap Text State) (a b : State)
      → lookup x (insert name a st) ≡ some b
      → ¬ (a ≡ b)
      → lookup x st ≡ some b
  lookup-unset x name st a b h ne = elim (text_cases x name) [
    | inl e ↦ absurd (
        ne (
          eq_of_some (
            sym (lookup-insert_self name a st)
            ∙ ap (λ k. lookup k (insert name a st)) (sym e)
            ∙ h)))
    | inr d ↦ sym (lookup-insert_ne name x a st d) ∙ h
  ]

  pub lookup-set :
      (x name : Text) (st : BTreeMap Text State) (a : State)
      → lookup x st ≢ none
      → lookup x (insert name a st) ≢ none
  lookup-set x name st a h e = elim (text_cases x name) [
    | inl q ↦
        cc (sym (lookup-insert_self name a st) ∙ ap (λ k. lookup k (insert name a st)) (sym q) ∙ e)
    | inr ne ↦ h (sym (lookup-insert_ne name x a st ne) ∙ e)
  ]

  pub enter-IsSorting :
      (name : Text) (s : Sorting)
      → lookup name s.states ≡ some unvisited
      → IsSorting s
      → IsSorting (enter name s)
  enter-IsSorting name s new i = record {
    ordered = i.ordered;
    done_in = λ x h. i.done_in x (lookup-unset x name s.states visiting visited h (λ e. cc));
    in_done = λ x m.
        lookup-insert_ne name x visiting s.states
          (lookup-unlike x name s.states unvisited visited new (i.in_done x m) (λ e. cc))
        ∙ i.in_done x m;
  }

  leave-IsSorting :
      (name : Text) (t : Target) (s : Sorting)
      → lookup name targets ≡ some t
      → lookup name s.states ≡ some visiting
      → All (λ d. In d s.order) t.deps
      → IsSorting s
      → IsSorting (leave name s)
  leave-IsSorting name t s found open_name deps i = record {
    ordered =
        IsTopological-snoc targets [] s.order name t i.ordered found
          (λ d m. inr (All-at s.order t.deps d deps m)) (λ m. elim m [ ])
          (λ m.
            lookup-unlike name name s.states visiting visited open_name (i.in_done name m) (λ e. cc)
              refl);
    done_in = λ x h. elim (text_cases x name) [
      | inl e ↦ In-append_right x s.order (name ∷ []) (inl e)
      | inr ne ↦
          In-append_left x s.order (name ∷ [])
            (i.done_in x (sym (lookup-insert_ne name x visited s.states ne) ∙ h))
    ];
    in_done = λ x m. elim (In-append x s.order (name ∷ []) m) [
      | inl n ↦
          lookup-insert_ne name x visited s.states
            (lookup-unlike x name s.states visiting visited open_name (i.in_done x n) (λ e. cc))
          ∙ i.in_done x n
      | inr n ↦ elim n [
        | inl e ↦
            ap (λ k. lookup k (insert name visited s.states)) e
            ∙ lookup-insert_self name visited s.states
        | inr o ↦ elim o [ ]
      ]
    ];
  }

  -- A visit of an unvisited name, from the visits of its dependencies.
  leave-Step :
      (name : Text) (t : Target) (s s' : Sorting)
      → lookup name targets ≡ some t
      → lookup name s.states ≡ some unvisited
      → IsSorting s
      → Step (enter name s) s' × All (λ d. In d s'.order) t.deps
      → Step s (leave name s') × In name (leave name s').order
  leave-Step name t s s' found new i (step, deps) =
      let opened : lookup name s'.states ≡ some visiting =
        step.held name (lookup-insert_self name visiting s.states) in
      (
        record {
          sorting = leave-IsSorting name t s' found opened deps step.sorting;
          kept = λ x m. In-append_left x s'.order (name ∷ []) (step.kept x m);
          held = λ x h.
              let ne = lookup-unlike x name s.states unvisited visiting new h (λ e. cc) in
              lookup-insert_ne name x visited s'.states ne
              ∙ step.held x (lookup-insert_ne name x visiting s.states ne ∙ h);
          moved = λ x h.
              lookup-unset x name s.states visiting unvisited
                (step.moved x (lookup-unset x name s'.states visited unvisited h (λ e. cc)))
                (λ e. cc);
          opened = λ x h.
              let ne =
                lookup-unlike x name (insert name visited s'.states) visited visiting
                  (lookup-insert_self name visited s'.states) h (λ e. cc) in
              sym (lookup-insert_ne name x visiting s.states ne)
              ∙ step.opened x (sym (lookup-insert_ne name x visited s'.states ne) ∙ h);
          known = λ x h.
              lookup-set x name s'.states visited
                (step.known x (lookup-set x name s.states visiting h));
          path = ap pop step.path ∙ pop-snoc s.path name;
        },
        In-append_right name s'.order (name ∷ []) (inl refl),
      )

  pub visit-Step : (fuel : ℕ) → Visits (visit fuel targets)
  unfolding visit
  visit-Step zero name s s' i h = cc
  visit-Step (suc fuel) name s s' i h = elim (Option-cases (lookup name s.states)) [
    | inl e ↦ absurd (ground arith)
    | inr (visited, e) ↦
        let same : s ≡ s' = ground arith in
        subst (λ u. Step s u × In name u.order) same (Step-refl s i, i.done_in name e)
    | inr (visiting, e) ↦ absurd (ground arith)
    | inr (unvisited, e) ↦ elim (Option-cases (lookup name targets)) [
      | inl f ↦ absurd (ground arith)
      | inr (t, f) ↦
          let run : (visit_each (visit fuel targets) t.deps (enter name s) >>= λ u.
          ok (leave name u))
              ≡ ok s' =
            ground arith in
          let (u, h1, r1) =
            >>=-eq-ok (visit_each (visit fuel targets) t.deps (enter name s)) _ run in
          let steps =
            visit_each-Step (visit fuel targets) t.deps (enter name s) u (visit-Step fuel)
              (enter-IsSorting name s e i) h1 in
          subst (λ u. Step s u × In name u.order) (ok_injective r1)
            (leave-Step name t s u f e i steps)
    ]
  ]

pub all_unvisited-lookup :
    (names : List Text) (x : Text) (st : State)
    → lookup x (all_unvisited names) ≡ some st
    → st ≡ unvisited
unfolding lookup
all_unvisited-lookup [] x st h = cc
all_unvisited-lookup (name ∷ names) x st h = ground (arith, all_unvisited-lookup names x st)

-- The order that is returned has every target of the manifest, and no target twice; each of its
-- targets is declared and stands behind all its dependencies.
pub toposort_targets-IsTopological :
    (targets : BTreeMap Text Target) (order : List Text)
    → toposort_targets targets ≡ ok order
    → IsTopological targets [] order × All (λ name. In name order) (keys targets)
unfolding toposort_targets
toposort_targets-IsTopological targets order h =
    let start : Sorting = record { states = all_unvisited (keys targets); path = []; order = [] } in
    let sorting : IsSorting targets start = record {
      ordered = tt;
      done_in = λ x e. absurd (cc (all_unvisited-lookup (keys targets) x visited e));
      in_done = λ x m. elim m [ ];
    } in
    let (s, h1, r1) =
      >>=-eq-ok (visit_each (visit (suc (length (keys targets))) targets) (keys targets) start) _
        h in
    let (step, all_in) =
      visit_each-Step targets (visit (suc (length (keys targets))) targets) (keys targets) start s
        (visit-Step targets (suc (length (keys targets)))) sorting h1 in
    subst (λ order. IsTopological targets [] order × All (λ name. In name order) (keys targets))
      (ok_injective r1) (step.sorting.ordered, all_in)
