-- ===== src/Execx/Lines.antt =====
-- `selectLines` of internal/execx/runner.go.
pub mod Joined
pub mod Selected
use one_ssh.Base.{
  ℕ, ◌+◌, ◌-◌, Bool, true, false, List, [], ◌∷◌, ◌++◌, ◌==◌, leb, if◌then◌else◌, length, take, drop,
  split,
}

-- `bytes.Join` with newlines.
unfoldable pub join_lines : List (List ℕ) → List ℕ
join_lines [] = []
join_lines (l ∷ []) = l
join_lines (l ∷ k ∷ ls) = l ++ 10 ∷ join_lines (k ∷ ls)

pub record Selection : Type 0 where
  pub selected : List ℕ
  pub total : ℕ
  pub cut : Bool

unfoldable pub ends_in_newline : List ℕ → Bool
ends_in_newline [] = false
ends_in_newline (c ∷ []) = c == 10
ends_in_newline (c ∷ d ∷ s) = ends_in_newline (d ∷ s)

-- `total` in `selectLines`.
unfoldable pub total_lines : List ℕ → ℕ
unfolding ends_in_newline
total_lines s = let n = length (split 10 s) in if ends_in_newline s then n - 1 else n

unfoldable pub select_lines : List ℕ → ℕ → Bool → Selection
unfolding join_lines total_lines
select_lines [] max_lines tail = record { selected = []; total = 0; cut = false }
select_lines (c ∷ s) max_lines tail =
    let lines = split 10 (c ∷ s) in
    let total = total_lines (c ∷ s) in
    if leb total max_lines
    then record { selected = c ∷ s; total = total; cut = false }
    else if tail
    then record {
      selected = join_lines (drop (length lines - max_lines) lines);
      total = total;
      cut = true;
    }
    else record { selected = join_lines (take max_lines lines); total = total; cut = true }
