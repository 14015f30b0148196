-- ===== src/Exec/Planned.antt =====
-- What the schedule promises to the workers: the dependents turn the producers round, and every action
-- waits for as many actions as it has producers.
use frostbuild.Base.{
  ℕ, zero, suc, ◌+◌, ◌<◌, List, [], ◌∷◌, ◌++◌, Option, some, none, get_elem?, get_or, set,
  replicate, length, ◌≡◌, ◌≢◌, inl, inr, refl, sym, ap, ◌∙◌, subst, arith, ◌==◌, if◌then◌else◌,
  Option-cases, num_cases, eq_of_some, get_elem?-lt,
}
use frostbuild.Base.Order.{nat_order}
use frostbuild.Base.BTreeMap.{BTreeMap}
use frostbuild.Graph.{ActionId, BuildGraph}
use frostbuild.Exec.Steps.{times}
use frostbuild.Exec.Ordered.{IsPlan}
use frostbuild.Exec.Start.{Waits}
use frostbuild.Exec.Plan.{local_producers, push_all, wait_for}

-- The local producers of the action at a place of the closure.
abbrev pub producers_or_none : Option (List ℕ) → List ℕ
producers_or_none none = []
producers_or_none (some ps) = ps

abbrev pub producers_at : BuildGraph → BTreeMap ActionId ℕ → List ActionId → ℕ → List ℕ
producers_at g index [] l = []
producers_at g index (a ∷ closure) zero = producers_or_none (local_producers g index a)
producers_at g index (a ∷ closure) (suc l) = producers_at g index closure l

times-append : (l : ℕ) (xs ys : List ℕ) → times l (xs ++ ys) ≡ times l xs + times l ys
times-append l [] ys = omega arith
times-append l (x ∷ xs) ys = ground (arith, times-append l xs ys)

get_or-get :
    {A : Type 0} (xs : List A) (i : ℕ) (a d : A) → get_elem? xs i ≡ some a → get_or xs i d ≡ a
get_or-get [] i a d h = cc
get_or-get (x ∷ xs) zero a d h = eq_of_some h
get_or-get (x ∷ xs) (suc i) a d h = get_or-get xs i a d h

get_or-set_self :
    {A : Type 0} (xs : List A) (i : ℕ) (v d : A) → i < length xs → get_or (set xs i v) i d ≡ v
get_or-set_self [] i v d h = absurd (omega arith)
get_or-set_self (x ∷ xs) zero v d h = refl
get_or-set_self (x ∷ xs) (suc i) v d h = get_or-set_self xs i v d (omega arith)

get_or-set_ne :
    {A : Type 0} (xs : List A) (i j : ℕ) (v d : A) → i ≢ j → get_or (set xs i v) j d ≡ get_or xs j d
get_or-set_ne [] i j v d h = refl
get_or-set_ne (x ∷ xs) zero zero v d h = absurd (h refl)
get_or-set_ne (x ∷ xs) zero (suc j) v d h = refl
get_or-set_ne (x ∷ xs) (suc i) zero v d h = refl
get_or-set_ne (x ∷ xs) (suc i) (suc j) v d h = get_or-set_ne xs i j v d (λ e. h (ap suc e))

-- How often `l` stands under `p`, if it is the action that is entered.
abbrev entered : ℕ → ℕ → ℕ → ℕ
entered l local n = if l == local then n else 0

push_all-times :
    (local : ℕ) (producers : List ℕ) (dependents dependents' : List (List ℕ)) (p l : ℕ)
    → push_all local producers dependents ≡ some dependents'
    → times l (get_or dependents' p [])
      ≡ times l (get_or dependents p []) + entered l local (times p producers)
unfolding push_all
push_all-times local [] dependents dependents' p l h =
    let same : dependents ≡ dependents' = eq_of_some h in ground arith
push_all-times local (q ∷ producers) dependents dependents' p l h =
    elim (Option-cases (get_elem? dependents q)) [
      | inl e ↦ absurd (ground arith)
      | inr (users, e) ↦
          let run : push_all local producers (set dependents q (users ++ local ∷ []))
              ≡ some dependents' =
            ground arith in
          let rest =
            push_all-times local producers (set dependents q (users ++ local ∷ [])) dependents' p l
              run in
          elim (num_cases p q) [
            | inl same ↦
                let now : times l (get_or (set dependents q (users ++ local ∷ [])) p [])
                    ≡ times l users + times l (local ∷ []) =
                  ap (λ k. times l (get_or (set dependents q (users ++ local ∷ [])) k [])) same
                  ∙ ap (times l) (
                      get_or-set_self dependents q (users ++ local ∷ []) []
                        (get_elem?-lt dependents q e))
                  ∙ times-append l users (local ∷ []) in
                let before : times l (get_or dependents p []) ≡ times l users =
                  ap (λ k. times l (get_or dependents k [])) same
                  ∙ ap (times l) (get_or-get dependents q users [] e) in
                ground arith
            | inr ne ↦
                let now = get_or-set_ne dependents q p (users ++ local ∷ []) [] (λ k. ne (sym k)) in
                ground (arith, rest, ap (times l) now)
          ]
    ]

-- How often an action of the closure from a place on has `p` as its producer.
abbrev consumed : BuildGraph → BTreeMap ActionId ℕ → List ActionId → ℕ → ℕ → ℕ → ℕ
consumed g index [] local p l = 0
consumed g index (a ∷ closure) local p l =
    entered l local (times p (producers_or_none (local_producers g index a)))
    + consumed g index closure (suc local) p l

wait_for-step :
    (g : BuildGraph) (index : BTreeMap ActionId ℕ) (local : ℕ) (a : ActionId)
    (closure : List ActionId) (dependents last : List (List ℕ)) (waiting : List ℕ)
    → wait_for g index local (a ∷ closure) dependents ≡ some (waiting, last)
    → (ps : List ℕ) × (local_producers g index a ≡ some ps)
      × (dependents' : List (List ℕ)) × (push_all local ps dependents ≡ some dependents')
      × (rest : List ℕ) × (wait_for g index (suc local) closure dependents' ≡ some (rest, last))
      × (length ps ∷ rest ≡ waiting)
unfolding wait_for
wait_for-step g index local a closure dependents last waiting h =
    elim (Option-cases (local_producers g index a)) [
      | inl e ↦ absurd (ground arith)
      | inr (ps, e) ↦ elim (Option-cases (push_all local ps dependents)) [
        | inl f ↦ absurd (ground arith)
        | inr (dependents', f) ↦
            elim (Option-cases (wait_for g index (suc local) closure dependents')) [
              | inl k ↦ absurd (ground arith)
              | inr ((rest, last'), k) ↦
                  let both : (length ps ∷ rest ≡ waiting) × (last' ≡ last) = ground arith in
                  (ps, e, dependents', f, rest, k ∙ ap (λ x. some (rest, x)) both.1, both.0)
            ]
      ]
    ]

wait_for-times :
    (g : BuildGraph) (index : BTreeMap ActionId ℕ) (local : ℕ) (closure : List ActionId)
    (dependents last : List (List ℕ)) (waiting : List ℕ) (p l : ℕ)
    → wait_for g index local closure dependents ≡ some (waiting, last)
    → times l (get_or last p [])
      ≡ times l (get_or dependents p []) + consumed g index closure local p l
unfolding wait_for
wait_for-times g index local [] dependents last waiting p l h =
    let same : dependents ≡ last = cc in ground arith
wait_for-times g index local (a ∷ closure) dependents last waiting p l h =
    let (ps, e, dependents', f, rest, k, _) =
      wait_for-step g index local a closure dependents last waiting h in
    let pushed = push_all-times local ps dependents dependents' p l f in
    let later = wait_for-times g index (suc local) closure dependents' last rest p l k in
    let mine : times p (producers_or_none (local_producers g index a)) ≡ times p ps =
      ap (λ o. times p (producers_or_none o)) e in
    ground (arith, pushed, later, mine)

consumed_below :
    (g : BuildGraph) (index : BTreeMap ActionId ℕ) (closure : List ActionId) (local p l : ℕ)
    → l < local
    → consumed g index closure local p l ≡ 0
consumed_below g index [] local p l h = refl
consumed_below g index (a ∷ closure) local p l h =
    ground (arith, consumed_below g index closure (suc local) p l)

consumed_at :
    (g : BuildGraph) (index : BTreeMap ActionId ℕ) (closure : List ActionId) (local p k : ℕ)
    → consumed g index closure local p (local + k) ≡ times p (producers_at g index closure k)
consumed_at g index [] local p k = refl
consumed_at g index (a ∷ closure) local p zero =
    ground (arith, consumed_below g index closure (suc local) p (local + 0))
consumed_at g index (a ∷ closure) local p (suc k) =
    let later = consumed_at g index closure (suc local) p k in
    let moved : consumed g index closure (suc local) p (local + suc k)
        ≡ consumed g index closure (suc local) p (suc local + k) =
      ap (consumed g index closure (suc local) p) (omega arith) in
    ground (arith, later, moved)

wait_for-Waits :
    (g : BuildGraph) (index : BTreeMap ActionId ℕ) (local : ℕ) (closure : List ActionId)
    (dependents last : List (List ℕ)) (waiting : List ℕ)
    → wait_for g index local closure dependents ≡ some (waiting, last)
    → Waits (producers_at g index closure) waiting
unfolding wait_for
wait_for-Waits g index local [] dependents last waiting h l w e =
    let same : [] ≡ waiting = cc in absurd (ground arith)
wait_for-Waits g index local (a ∷ closure) dependents last waiting h zero w e =
    let (ps, f, dependents', _, rest, _, same) =
      wait_for-step g index local a closure dependents last waiting h in
    let first : some (length ps) ≡ some w = ap (λ ws. get_elem? ws 0) same ∙ e in
    sym (eq_of_some first) ∙ ap (λ o. length (producers_or_none o)) (sym f)
wait_for-Waits g index local (a ∷ closure) dependents last waiting h (suc l) w e =
    let (ps, f, dependents', _, rest, k, same) =
      wait_for-step g index local a closure dependents last waiting h in
    wait_for-Waits g index (suc local) closure dependents' last rest k l w
      (ap (λ ws. get_elem? ws (suc l)) same ∙ e)

nothing_yet : (n p : ℕ) → get_or {A = List ℕ} (replicate n []) p [] ≡ []
nothing_yet zero p = refl
nothing_yet (suc n) zero = refl
nothing_yet (suc n) (suc p) = nothing_yet n p

-- The dependents and the counts of a schedule are those of its producers.
pub wait_for-IsPlan :
    (g : BuildGraph) (index : BTreeMap ActionId ℕ) (closure : List ActionId)
    (dependents : List (List ℕ)) (waiting : List ℕ) (n : ℕ)
    → wait_for g index 0 closure (replicate n []) ≡ some (waiting, dependents)
    → IsPlan (producers_at g index closure) dependents
      × Waits (producers_at g index closure) waiting
wait_for-IsPlan g index closure dependents waiting n h = (
  λ p l.
      let counted = wait_for-times g index 0 closure (replicate n []) dependents waiting p l h in
      let before : times l (get_or (replicate n []) p []) ≡ 0 = ap (times l) (nothing_yet n p) in
      let mine : consumed g index closure 0 p l ≡ times p (producers_at g index closure l) =
        ap (consumed g index closure 0 p) (omega arith) ∙ consumed_at g index closure 0 p l in
      omega (arith, counted, before, mine),
  wait_for-Waits g index 0 closure (replicate n []) dependents waiting h,
)

-- A schedule that was made knows the producers of every action of the closure.
pub wait_for-producers :
    (g : BuildGraph) (index : BTreeMap ActionId ℕ) (local : ℕ) (closure : List ActionId)
    (dependents last : List (List ℕ)) (waiting : List ℕ) (l : ℕ) (a : ActionId)
    → wait_for g index local closure dependents ≡ some (waiting, last)
    → get_elem? closure l ≡ some a
    → local_producers g index a ≡ some (producers_at g index closure l)
unfolding wait_for
wait_for-producers g index local [] dependents last waiting l a h e = absurd (cc)
wait_for-producers g index local (b ∷ closure) dependents last waiting zero a h e =
    let (ps, f, _, _, _, _, _) = wait_for-step g index local b closure dependents last waiting h in
    let same : b ≡ a = eq_of_some e in
    subst (λ c. local_producers g index c ≡ some (producers_or_none (local_producers g index b)))
      same (f ∙ ap (λ o. some (producers_or_none o)) (sym f))
wait_for-producers g index local (b ∷ closure) dependents last waiting (suc l) a h e =
    let (_, _, dependents', _, rest, k, _) =
      wait_for-step g index local b closure dependents last waiting h in
    wait_for-producers g index (suc local) closure dependents' last rest l a k e
