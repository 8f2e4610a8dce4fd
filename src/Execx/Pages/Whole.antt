-- ===== src/Execx/Pages/Whole.antt =====
-- Pages of internal/execx/runner.go do not cut characters.
use one_ssh.Base.{
  ℕ, zero, suc, ◌+◌, ◌-◌, ◌≤◌, ◌<◌, ◌≡◌, refl, sym, ap, subst, ◌∙◌, true, false, ◌||◌, List, arith,
  ◌==◌, ltb, leb, length, take, drop, get_or, min, Bool-cases, inl, inr, ◌⊎◌, length-take,
  length-drop, take_all, take-take, drop-drop,
}
use native.Mathlib.Decide.{dec_le}
use one_ssh.Execx.Pages.Bounds.{
  rune_size_bounds, length-first_rune, last_start-le, complete_last, rune_size-front,
}
use one_ssh.Execx.Pages.Runes.{
  inside_continues, single_size, full_rune_size, get_or_of, get_or-drop, get_or-take,
  last_start-starts, last_start_lem, drop-take,
}
use one_ssh.Execx.Pages.{
  rune_start, full_rune, rune_size, last_start, complete_utf8_prefix, utf8_page, page_bytes,
}

module _ (s : List ℕ) (k : ℕ) where
  -- A byte in the character that starts at `k`, behind its first one.
  later_continues :
      (j : ℕ) → k < j → j < k + rune_size (drop k s) → rune_start (get_or s j 0) ≡ false
  later_continues j after inside =
      let e : k + (j - k) ≡ j = omega arith in
      sym (ap (λ b. rune_start b) (get_or-drop k (j - k) s ∙ ap (get_or_of s) e))
      ∙ inside_continues (j - k) (drop k s) (omega arith) (omega arith)

  long_starts : 1 < rune_size (drop k s) → rune_start (get_or s k 0) ≡ true
  long_starts h = elim (Bool-cases (rune_start (get_or s k 0))) [
    | inl e ↦ e
    | inr e ↦
        let same : k + 0 ≡ k = omega arith in
        let here : get_or (drop k s) 0 0 ≡ get_or s k 0 =
          get_or-drop k 0 s ∙ ap (get_or_of s) same in
        absurd (omega (arith, single_size (drop k s) (ap (λ b. rune_start b) here ∙ e)))
  ]

  module _ (n : ℕ) (h : k < n) (le : n ≤ length s) where
    -- A character that goes beyond `n` is the last one that starts before it.
    crossing_last : n < k + rune_size (drop k s) → last_start (n - 1) (take n s) ≡ k
    crossing_last beyond =
        last_start_lem (n - 1) k (take n s) (omega arith)
          (ap (λ b. rune_start b) (get_or-take n k s h) ∙ long_starts (omega arith))
          (λ j a b.
            ap (λ b. rune_start b) (get_or-take n j s (omega arith))
            ∙ later_continues j a (omega arith))

    full-whole :
        full_rune (drop (last_start (n - 1) (take n s)) (take n s)) ≡ true
        → k + rune_size (drop k s) ≤ n
    full-whole full = elim (dec_le (k + rune_size (drop k s)) n) [
      | yes inside ↦ inside
      | no beyond ↦
          let e = crossing_last (omega arith) in
          let last : full_rune (take (n - k) (drop k s)) ≡ true =
            sym (ap full_rune (ap (λ m. drop m (take n s)) e ∙ drop-take k n s (omega arith)))
            ∙ full in
          absurd (omega (arith, full_rune_size (n - k) (drop k s) (omega arith) last))
    ]

-- No character goes beyond a byte that starts one.
cut-whole :
    (s : List ℕ) (n k start : ℕ)
    → k < start
    → start < n
    → rune_start (get_or (take n s) start 0) ≡ true
    → k + rune_size (drop k s) ≤ start
cut-whole s n k start h before starts = elim (dec_le (k + rune_size (drop k s)) start) [
  | yes inside ↦ inside
  | no beyond ↦
      let here = ap (λ b. rune_start b) (get_or-take n start s before) in
      cc (starts, here, later_continues s k start h (omega arith))
]

complete-whole :
    (s : List ℕ) (n k : ℕ)
    → 0 < n
    → n ≤ length s
    → k < length (complete_utf8_prefix (take n s) true)
    → k + rune_size (drop k s) ≤ length (complete_utf8_prefix (take n s) true)
unfolding complete_utf8_prefix
complete-whole s n k pos_n le h =
    let size : length (take n s) ≡ n = omega (arith, length-take n s) in
    let test : (length (take n s) == 0) ≡ false = ground arith in
    let start = last_start (length (take n s) - 1) (take n s) in
    elim (Bool-cases (full_rune (drop start (take n s)))) [
      | inl e ↦
          let page : complete_utf8_prefix (take n s) true ≡ take n s = rw (test, e) refl in
          let all_of : length (complete_utf8_prefix (take n s) true) ≡ n = ap length page ∙ size in
          let full : full_rune (drop (last_start (n - 1) (take n s)) (take n s)) ≡ true =
            subst (λ m. full_rune (drop (last_start (m - 1) (take n s)) (take n s)) ≡ true) size
              e in
          rw all_of (full-whole s k n (omega (arith, all_of)) le full)
      | inr e ↦
          let page : complete_utf8_prefix (take n s) true ≡ take start (take n s) =
            rw (test, e) refl in
          let before = last_start-le (length (take n s) - 1) (take n s) in
          let cut : length (complete_utf8_prefix (take n s) true) ≡ start =
            ap length page ∙ omega (arith, length-take start (take n s)) in
          rw cut (
            cut-whole s n k start (omega (arith, cut)) (omega arith)
              (last_start-starts (length (take n s) - 1) (take n s) (omega (arith, cut))))
    ]

first-whole : (s : List ℕ) (k : ℕ) → k < rune_size s → k + rune_size (drop k s) ≤ rune_size s
first-whole s zero h = omega arith
first-whole s (suc k) h =
    let same : suc k + 0 ≡ suc k = omega arith in
    let e : get_or (drop (suc k) s) 0 0 ≡ get_or s (suc k) 0 =
      get_or-drop (suc k) 0 s ∙ ap (get_or_of s) same in
    let single =
      single_size (drop (suc k) s)
        (ap (λ b. rune_start b) e ∙ inside_continues (suc k) s (omega arith) h) in
    omega arith

-- A page is the rest of the file, the complete part of its first `limit` bytes, or one character.
page_bytes-cases :
    (file : List ℕ) (offset limit : ℕ)
    → 0 < limit
    → offset < length file
    → (page_bytes file offset limit ≡ drop offset file)
      ⊎ (((limit ≤ length (drop offset file))
            × (page_bytes file offset limit
                ≡ complete_utf8_prefix (take limit (drop offset file)) true))
          ⊎ (length (page_bytes file offset limit) ≡ rune_size (drop offset file)))
unfolding page_bytes utf8_page
page_bytes-cases file offset limit hl ho =
    let rest = drop offset file in
    let size : length rest ≡ length file - offset = length-drop offset file in
    let k = min (limit + 4 - 1) (length file - offset) in
    let s = take k rest in
    let n : length s ≡ k = omega (arith, length-take k rest) in
    elim (dec_le (length s) limit) [
      | yes small ↦
          let test : (limit == 0 || leb (length s) limit) ≡ true = ground arith in
          let last : ltb (offset + length s) (length file) ≡ false = ground arith in
          inl (rw (test, last) (complete_last s ∙ take_all k rest (omega arith)))
      | no big ↦
          let test : (limit == 0 || leb (length s) limit) ≡ false = ground arith in
          let same : take limit s ≡ take limit rest = take-take limit k rest (omega arith) in
          let page = complete_utf8_prefix (take limit rest) true in
          elim (Bool-cases (ltb 0 (length page))) [
            | inl e ↦ inr (inl (omega arith, rw (test, same, e) refl))
            | inr e ↦ inr (
                inr (
                  rw (test, same, e)
                    (length-first_rune s (omega arith)
                      ∙ rune_size-front rest k (ground (arith, size)))))
          ]
    ]

-- A page cuts no character: each one that starts in it, as `utf8.DecodeRune` measures it in the
-- file, ends in it.
pub page_bytes-whole :
    (file : List ℕ) (offset limit k : ℕ)
    → 0 < limit
    → offset < length file
    → k < length (page_bytes file offset limit)
    → k + rune_size (drop (offset + k) file) ≤ length (page_bytes file offset limit)
page_bytes-whole file offset limit k hl ho h =
    rw (sym (drop-drop k offset file)) (elim (page_bytes-cases file offset limit hl ho) [
      | inl whole ↦
          let size : length (page_bytes file offset limit) ≡ length (drop offset file) =
            ap length whole in
          let (a, b) =
            rune_size_bounds (drop k (drop offset file))
              (omega (arith, length-drop k (drop offset file))) in
          omega (arith, length-drop k (drop offset file))
      | inr (inl (short, cut)) ↦
          let size = ap length cut in
          let t = complete-whole (drop offset file) limit k hl short (omega arith) in omega arith
      | inr (inr first) ↦ let t = first-whole (drop offset file) k (omega arith) in omega arith
    ])
