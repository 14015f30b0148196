-- ===== src/Tests/PathRuns.antt =====
-- Runs of the path check, after the unit tests of paths.rs.
use frostbuild.Base.{◌≡◌, refl, ok, err}
use frostbuild.Base.Text.{codes, text_eq}
use frostbuild.Base.Split.{split, join, contains_char}
use frostbuild.Paths.{validate_rel_path, parent_component, empty_component, no_file}
use frostbuild.Paths.Normal.{validate-Normalizes, Normalizes, validate_idem}

run_dot_slash : validate_rel_path (codes "./src/main.c") ≡ ok (codes "src/main.c")
unfolding validate_rel_path split join contains_char text_eq
run_dot_slash = refl

validate_idem_example : validate_rel_path (codes "src/main.c") ≡ ok (codes "src/main.c")
validate_idem_example = validate_idem (codes "./src/main.c") (codes "src/main.c") run_dot_slash

run_refused :
    (validate_rel_path (codes "../escape.c") ≡ err parent_component)
    × (validate_rel_path (codes "a//b") ≡ err empty_component)
    × (validate_rel_path (codes ".") ≡ err no_file)
unfolding validate_rel_path split join contains_char text_eq
run_refused = (refl, refl, refl)

validate-Normalizes_example : Normalizes (codes "./src/main.c") (codes "src/main.c")
validate-Normalizes_example =
    (validate-Normalizes (codes "./src/main.c") (codes "src/main.c")).0 run_dot_slash
