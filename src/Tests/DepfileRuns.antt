-- ===== src/Tests/DepfileRuns.antt =====
-- Runs of the dependency-file reader.
use frostbuild.Depfile.Rules.{Rule, IsRule, render, all_deps, all_targets}
use frostbuild.Base.{List, [], ◌∷◌, ◌↔◌, refl, inl, inr, arith, All, In}
use frostbuild.Base.Text.{codes}
use frostbuild.Depfile.{parse, is_whitespace}
use frostbuild.Depfile.RoundTrip.{IsListed, parse-render}

abbrev sample_rules : List Rule
sample_rules =
    record {
      target = codes "a.o";
      more = [];
      deps = record { first = b' '; more = []; name = codes "a.c" } ∷ [];
    }
    ∷ []

sample_rules-IsRule : All IsRule sample_rules
unfolding is_whitespace
sample_rules-IsRule = (
  record {
    target_name = (
      (λ e. cc),
      (
        (inl refl, inr (λ e. omega arith)),
        ((inl refl, inr (λ e. omega arith)), ((inl refl, inr (λ e. omega arith)), tt)),
      ),
    );
    more_names = tt;
    dep_names = (
      record {
        first_blank = (refl, λ e. omega arith);
        more_blank = tt;
        is_name =
            ((λ e. cc), ((inl refl, inl refl), ((inl refl, inl refl), ((inl refl, inl refl), tt))));
      },
      tt,
    );
  },
  tt,
)

parse-render_example :
    In (codes "a.c") (parse (render sample_rules) (codes "/w"))
    ↔ IsListed (codes "/w") (all_deps sample_rules) (all_targets sample_rules) (codes "a.c")
parse-render_example = parse-render sample_rules (codes "/w") (codes "a.c") sample_rules-IsRule
