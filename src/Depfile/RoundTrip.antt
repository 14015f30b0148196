-- ===== src/Depfile/RoundTrip.antt =====
-- Reading back a dependency file: every rule, with gcc's escapes and continued lines.
use frostbuild.Base.{false, List, [], ◌∷◌, ◌≡◌, refl, inl, inr, All, In, ◌↔◌, Bool-cases, arith}
use frostbuild.Base.Text.{Text, text_order}
use frostbuild.Base.BTreeMap.{contains_key}
use frostbuild.Base.BTreeSet.{keys, insert_all, contains_key_iff, In-keys-insert_all}
use frostbuild.Depfile.{TextSet, flush, start, relativize, listing, parse}
use frostbuild.Depfile.Rules.{Rule, IsRule, render, all_targets, all_deps, read_rules}

-- `p` stands for a dependency that is no target.
pub record IsListed (root : Text) (deps targets : List Text) (p : Text) : Type 0 where
  pub dep : Text
  pub is_dep : In dep deps
  pub not_target : ¬ In dep targets
  pub shown : p ≡ relativize root dep

listing-IsListed :
    (p root : Text) (targets : TextSet) (deps : List Text)
    → In p (listing root targets deps)
    → IsListed root deps (keys targets) p
unfolding listing
listing-IsListed p root targets [] m = elim m [ ]
listing-IsListed p root targets (d ∷ deps) m = elim (Bool-cases (contains_key d targets)) [
  | inl e ↦ wider (listing-IsListed p root targets deps (ground arith))
  | inr e ↦ elim (rw e at m) [
    | inl same ↦ record {
      dep = d;
      is_dep = inl refl;
      not_target = λ t. ground (arith, (contains_key_iff d targets).1 t);
      shown = same;
    }
    | inr m' ↦ wider (listing-IsListed p root targets deps m')
  ]
]
  where
    wider : IsListed root deps (keys targets) p → IsListed root (d ∷ deps) (keys targets) p
    wider l = record {
      dep = l.dep;
      is_dep = inr l.is_dep;
      not_target = l.not_target;
      shown = l.shown;
    }

In-listing :
    (d root : Text) (targets : TextSet) (deps : List Text)
    → In d deps
    → contains_key d targets ≡ false
    → In (relativize root d) (listing root targets deps)
unfolding listing
In-listing d root targets [] m h = elim m [ ]
In-listing d root targets (x ∷ deps) m h = ground (arith, In-listing d root targets deps)

-- What a well-formed file of rules is read as: exactly the dependencies that no rule has as a
-- target, each made relative to the workspace.
pub parse-render :
    (us : List Rule) (root p : Text)
    → All IsRule us
    → In p (parse (render us) root) ↔ IsListed root (all_deps us) (all_targets us) p
parse-render us root p h = rw parsed (there, back)
  where
    targets : TextSet
    targets = insert_all (all_targets us) []

    deps : TextSet
    deps = insert_all (all_deps us) []

    parsed : parse (render us) root ≡ listing root targets (keys deps)
    parsed =
        unfold parse in
        rw (read_rules us start h (record { no_token = refl; at_target = refl }))
          (unfold flush in refl)

    there : In p (listing root targets (keys deps)) → IsListed root (all_deps us) (all_targets us) p
    there m =
        let l = listing-IsListed p root targets (keys deps) m in
        record {
          dep = l.dep;
          is_dep = ground (arith, (In-keys-insert_all l.dep (all_deps us) []).0 l.is_dep);
          not_target = λ t. l.not_target ((In-keys-insert_all l.dep (all_targets us) []).1 (inl t));
          shown = l.shown;
        }

    back : IsListed root (all_deps us) (all_targets us) p → In p (listing root targets (keys deps))
    back l = rw l.shown (
        In-listing l.dep root targets (keys deps)
          ((In-keys-insert_all l.dep (all_deps us) []).1 (inl l.is_dep))
          (ground (
            arith,
            contains_key_iff l.dep targets,
            In-keys-insert_all l.dep (all_targets us) [],
            l.not_target,
          )))
