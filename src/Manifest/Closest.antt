-- ===== src/Manifest/Closest.antt =====
-- `edit_distance` and `closest`: the hint of "unknown X, did you mean Y".
use frostbuild.Base.{
  ℕ, suc, ◌+◌, ◌/◌, min, Bool, true, List, [], ◌∷◌, Option, some, none, ltb, leb, ◌==◌,
  if◌then◌else◌, length,
}
use frostbuild.Base.Text.{Text}

-- The row `0..=b.len()`, from `i` on.
unfoldable pub first_row : ℕ → Text → List ℕ
first_row i [] = i ∷ []
first_row i (c ∷ b) = i ∷ first_row (suc i) b

abbrev pub mismatch : ℕ → ℕ → ℕ
mismatch x y = if x == y then 0 else 1

-- The inner loop: the row `current` from the cell `left` on, over what is left of `previous`.
unfoldable pub fill_row : ℕ → Text → List ℕ → ℕ → List ℕ
fill_row ca (cb ∷ b) (diagonal ∷ above ∷ previous) left =
    let substitute = diagonal + mismatch ca cb in
    left ∷ fill_row ca b (above ∷ previous) (min (min substitute (above + 1)) (left + 1))
fill_row ca _ previous left = left ∷ []

-- The outer loop, at the character with index `i`.
unfoldable pub fill_rows : ℕ → Text → Text → List ℕ → List ℕ
fill_rows i [] b previous = previous
fill_rows i (ca ∷ a) b previous = fill_rows (i + 1) a b (fill_row ca b previous (i + 1))

-- `previous[b.len()]`
abbrev pub last_cell : List ℕ → ℕ
last_cell [] = 0
last_cell (d ∷ []) = d
last_cell (d ∷ e ∷ row) = last_cell (e ∷ row)

unfoldable pub edit_distance : Text → Text → ℕ
unfolding first_row fill_row fill_rows
edit_distance a b = last_cell (fill_rows 0 a b (first_row 0 b))

-- Whether the candidate at this distance replaces the best one so far.
abbrev pub improves : Option (ℕ × Text) → ℕ → Bool
improves none distance = true
improves (some (d, _)) distance = ltb distance d

-- The loop of `closest` over the candidates.
unfoldable pub best_of : Text → List Text → Option (ℕ × Text) → Option (ℕ × Text)
best_of input [] best = best
best_of input (candidate ∷ candidates) best =
    let distance = edit_distance input candidate in
    best_of input candidates (if improves best distance then some (distance, candidate) else best)

abbrev pub within_budget : ℕ → Option (ℕ × Text) → Option Text
within_budget budget none = none
within_budget budget (some (distance, name)) = if leb distance budget then some name else none

unfoldable pub closest : Text → List Text → Option Text
unfolding best_of
closest input candidates = within_budget (1 + length input / 3) (best_of input candidates none)
