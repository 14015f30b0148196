-- ===== src/Cas/ByKey.antt =====
-- The order in which `gc` looks at the files.
use mathlib.Core.List.{Perm}
use mathlib.Core.List.Perm
use frostbuild.Base.{
  ℕ, ◌+◌, Ordering, true, false, List, [], ◌∷◌, Option, some, none, ◌≡◌, inl, inr, refl, arith,
  Bool-cases,
}
use frostbuild.Base.Text.{Text, text_cmp_gt, text_cmp_lt, text_cmp_eq}
use frostbuild.Cas.Gc.{Listed, path_cmp, modified_cmp, goes_before, insert_by_key, sort_by_key}

abbrev pub sum_sizes : List Listed → ℕ
sum_sizes [] = 0
sum_sizes (e ∷ files) = e.size + sum_sizes files

-- No file goes before one in front of it.
abbrev pub IsByKey : List Listed → Type 0
IsByKey [] = Unit
IsByKey (e ∷ []) = Unit
IsByKey (e ∷ f ∷ files) = (goes_before e f ≡ true) × IsByKey (f ∷ files)

path_cmp_gt : (a b : List Text) → path_cmp a b ≡ Ordering.gt → path_cmp b a ≡ Ordering.lt
unfolding path_cmp
path_cmp_gt (x ∷ a) (y ∷ b) h = ground (
  arith,
  text_cmp_gt x y,
  text_cmp_eq x y,
  text_cmp_gt y x,
  text_cmp_lt y x,
  text_cmp_eq y x,
  path_cmp_gt a b,
)
path_cmp_gt _ _ h = ground arith

modified_cmp_gt : (a b : Option ℕ) → modified_cmp a b ≡ Ordering.gt → modified_cmp b a ≡ Ordering.lt
unfolding modified_cmp
modified_cmp_gt (some a) (some b) h = ground arith
modified_cmp_gt (some a) none h = refl
modified_cmp_gt none (some b) h = cc
modified_cmp_gt none none h = cc

modified_cmp_eq : (a b : Option ℕ) → modified_cmp a b ≡ Ordering.eq → modified_cmp b a ≡ Ordering.eq
unfolding modified_cmp
modified_cmp_eq (some a) (some b) h = ground arith
modified_cmp_eq none none h = refl
modified_cmp_eq (some a) none h = cc
modified_cmp_eq none (some b) h = cc

goes_before_total : (a b : Listed) → goes_before a b ≡ false → goes_before b a ≡ true
unfolding goes_before
goes_before_total a b h = ground (
  arith,
  modified_cmp_gt a.modified b.modified,
  modified_cmp_eq a.modified b.modified,
  path_cmp_gt a.path b.path,
)

insert_by_key-IsByKey :
    (e : Listed) (files : List Listed) → IsByKey files → IsByKey (insert_by_key e files)
unfolding insert_by_key
insert_by_key-IsByKey e [] h = tt
insert_by_key-IsByKey e (f ∷ []) h = ground (arith, goes_before_total e f)
insert_by_key-IsByKey e (f ∷ g ∷ files) h =
    ground (arith, goes_before_total e f, insert_by_key-IsByKey e (g ∷ files))

pub sort_by_key-IsByKey : (files : List Listed) → IsByKey (sort_by_key files)
unfolding sort_by_key
sort_by_key-IsByKey [] = tt
sort_by_key-IsByKey (e ∷ files) =
    insert_by_key-IsByKey e (sort_by_key files) (sort_by_key-IsByKey files)

insert_by_key-perm : (e : Listed) (files : List Listed) → Perm (insert_by_key e files) (e ∷ files)
unfolding insert_by_key
insert_by_key-perm e [] = Perm.refl (e ∷ [])
insert_by_key-perm e (f ∷ files) = elim (Bool-cases (goes_before e f)) [
  | inl h ↦ rw h (Perm.refl (e ∷ f ∷ files))
  | inr h ↦ rw h (Perm.trans (Perm.cons f (insert_by_key-perm e files)) (Perm.swap e f files))
]

pub sort_by_key-perm : (files : List Listed) → Perm (sort_by_key files) files
unfolding sort_by_key
sort_by_key-perm [] = Perm.refl []
sort_by_key-perm (e ∷ files) =
    Perm.trans (insert_by_key-perm e (sort_by_key files)) (Perm.cons e (sort_by_key-perm files))

insert_by_key-sizes :
    (e : Listed) (files : List Listed)
    → sum_sizes (insert_by_key e files) ≡ e.size + sum_sizes files
unfolding insert_by_key
insert_by_key-sizes e [] = refl
insert_by_key-sizes e (f ∷ files) = ground (arith, insert_by_key-sizes e files)

pub sort_by_key-sizes : (files : List Listed) → sum_sizes (sort_by_key files) ≡ sum_sizes files
unfolding sort_by_key
sort_by_key-sizes [] = refl
sort_by_key-sizes (e ∷ files) =
    omega (arith, insert_by_key-sizes e (sort_by_key files), sort_by_key-sizes files)
