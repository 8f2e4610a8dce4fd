-- ===== src/Execx/Lines/Selected.antt =====
-- What `selectLines` of internal/execx/runner.go selects, and what total it tells.
use one_ssh.Base.{
  ℕ, ◌+◌, ◌-◌, ◌≤◌, ◌<◌, ◌≡◌, refl, sym, ◌∙◌, Bool, true, false, List, [], ◌∷◌, ◌++◌, arith, leb,
  if◌then◌else◌, length, take, drop, split, length-take, length-drop, ◌⊎◌, Bool-cases, inl, inr,
}
use one_ssh.Execx.Bytes.{count_byte}
use one_ssh.Execx.Lines.{join_lines, total_lines, Selection, select_lines}
use one_ssh.Execx.Lines.Joined.{
  join-split, join_cut, split-AreLines, take-AreLines, drop-AreLines, count-lines, total_lines-le,
  count_lines, length-split, count_lines_lem,
}

-- What the selection `r` is of the text `s`.
abbrev pub IsSelection : List ℕ → ℕ → Bool → Selection → Type 0
IsSelection s max_lines tail r =
    ((r.cut ≡ false) × (r.selected ≡ s) × (r.total ≤ max_lines))
    ⊎ ((r.cut ≡ true)
        × (max_lines < r.total)
        × (count_byte 10 r.selected + 1 ≡ max_lines)
        × (rest : List ℕ) × (s
            ≡ (if tail then rest ++ 10 ∷ r.selected else r.selected ++ 10 ∷ rest)))

module _ (c : ℕ) (s : List ℕ) (max_lines : ℕ) (h : 0 < max_lines) where
  head-IsSelection :
      max_lines < total_lines (c ∷ s)
      → IsSelection (c ∷ s) max_lines false (record {
        selected = join_lines (take max_lines (split 10 (c ∷ s)));
        total = total_lines (c ∷ s);
        cut = true;
      })
  head-IsSelection k =
      let ls = split 10 (c ∷ s) in
      let more : max_lines < length ls = omega (arith, total_lines-le (c ∷ s)) in
      inr (
        refl,
        k,
        count-lines (take max_lines ls) (take-AreLines max_lines ls (split-AreLines (c ∷ s)))
              (omega (arith, length-take max_lines ls))
            ∙ omega (arith, length-take max_lines ls),
        join_lines (drop max_lines ls),
        sym (join-split (c ∷ s)) ∙ join_cut max_lines ls h more,
      )

  tail-IsSelection :
      max_lines < total_lines (c ∷ s)
      → IsSelection (c ∷ s) max_lines true (record {
        selected = join_lines (drop (length (split 10 (c ∷ s)) - max_lines) (split 10 (c ∷ s)));
        total = total_lines (c ∷ s);
        cut = true;
      })
  tail-IsSelection k =
      let ls = split 10 (c ∷ s) in
      let n = length ls - max_lines in
      let more : max_lines < length ls = omega (arith, total_lines-le (c ∷ s)) in
      inr (
        refl,
        k,
        count-lines (drop n ls) (drop-AreLines n ls (split-AreLines (c ∷ s)))
              (omega (arith, length-drop n ls))
            ∙ omega (arith, length-drop n ls),
        join_lines (take n ls),
        sym (join-split (c ∷ s)) ∙ join_cut n ls (omega arith) (omega arith),
      )

total_lines_lem : (c : ℕ) (s : List ℕ) → total_lines (c ∷ s) ≡ count_lines (c ∷ s)
unfolding total_lines
total_lines_lem c s = ground (arith, length-split (c ∷ s), count_lines_lem c s)

select_lines-total :
    (s : List ℕ) (max_lines : ℕ) (tail : Bool)
    → (select_lines s max_lines tail).total ≡ count_lines s
unfolding select_lines count_lines
select_lines-total [] max_lines tail = refl
select_lines-total (c ∷ s) max_lines tail = let e = total_lines_lem c s in ground arith

select_lines-cut :
    (s : List ℕ) (max_lines : ℕ) (tail : Bool)
    → 0 < max_lines
    → IsSelection s max_lines tail (select_lines s max_lines tail)
unfolding select_lines
select_lines-cut [] max_lines tail h = inl (refl, refl, omega arith)
select_lines-cut (c ∷ s) max_lines tail h =
    elim (Bool-cases (leb (total_lines (c ∷ s)) max_lines)) [
      | inl e ↦ rw e (inl (refl, refl, leb→le e))
      | inr e ↦ rw e (pick tail (ground arith))
    ]
  where
    leb→le : leb (total_lines (c ∷ s)) max_lines ≡ true → total_lines (c ∷ s) ≤ max_lines
    leb→le e = ground arith

    pick :
        (t : Bool)
        → max_lines < total_lines (c ∷ s)
        → IsSelection (c ∷ s) max_lines t (
            if t
            then record {
              selected =
                  join_lines (drop (length (split 10 (c ∷ s)) - max_lines) (split 10 (c ∷ s)));
              total = total_lines (c ∷ s);
              cut = true;
            }
            else record {
              selected = join_lines (take max_lines (split 10 (c ∷ s)));
              total = total_lines (c ∷ s);
              cut = true;
            })
    pick true k = tail-IsSelection c s max_lines h k
    pick false k = head-IsSelection c s max_lines h k

-- With a positive limit: the total is the number of lines of the text, whether or not a newline
-- ends the last one; a text of at most that many lines is selected whole; of a longer one exactly
-- that many lines (with a last empty one, behind a final newline, counted in tail mode) are
-- selected, from the front or from the back, cut at a newline.
pub select_lines-IsSelection :
    (s : List ℕ) (max_lines : ℕ) (tail : Bool)
    → 0 < max_lines
    → ((select_lines s max_lines tail).total ≡ count_lines s)
      × IsSelection s max_lines tail (select_lines s max_lines tail)
select_lines-IsSelection s max_lines tail h =
    (select_lines-total s max_lines tail, select_lines-cut s max_lines tail h)
