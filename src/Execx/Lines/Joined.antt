-- ===== src/Execx/Lines/Joined.antt =====
-- Lines that are joined, and how many a text has, for internal/execx/runner.go.
use one_ssh.Base.{
  ℕ, zero, suc, ◌+◌, ◌≤◌, ◌<◌, ◌≡◌, refl, sym, ap, subst, ◌∙◌, List, [], ◌∷◌, ◌++◌, arith, ◌==◌,
  if◌then◌else◌, length, take, drop, append_assoc, split, to_first, split_first, length-take,
  length-drop, take-append-drop, Bool-cases, inl, inr,
}
use mathlib.Core.Path.{ap₂}
use one_ssh.Execx.Bytes.{count_byte, count_byte-append}
use one_ssh.Execx.Lines.{join_lines, total_lines, ends_in_newline}

pub join-first :
    (c : ℕ) (f : List ℕ) (fs : List (List ℕ)) → join_lines ((c ∷ f) ∷ fs) ≡ c ∷ join_lines (f ∷ fs)
unfolding join_lines
join-first c f [] = refl
join-first c f (g ∷ fs) = refl

pub join-newline :
    (f : List ℕ) (fs : List (List ℕ)) → join_lines ([] ∷ f ∷ fs) ≡ 10 ∷ join_lines (f ∷ fs)
unfolding join_lines
join-newline f fs = refl

pub join-split : (s : List ℕ) → join_lines (split 10 s) ≡ s
unfolding split to_first
join-split [] = unfold join_lines in refl
join-split (c ∷ s) =
    let (f, fs, here) = split_first 10 s in
    let ih : join_lines (f ∷ fs) ≡ s = rw (← here) (join-split s) in
    elim (Bool-cases (c == 10)) [
      | inl e ↦ rw (e, here) (join-newline f fs ∙ ground (arith, ih))
      | inr e ↦ rw (e, here) (join-first c f fs ∙ ap (◌∷◌ c) ih)
    ]

pub join-append :
    (l : List ℕ) (ls : List (List ℕ)) (k : List ℕ) (ks : List (List ℕ))
    → join_lines ((l ∷ ls) ++ k ∷ ks) ≡ join_lines (l ∷ ls) ++ 10 ∷ join_lines (k ∷ ks)
unfolding join_lines
join-append l [] k ks = refl
join-append l (m ∷ ls) k ks =
    ap (λ t. l ++ 10 ∷ t) (join-append m ls k ks)
    ∙ sym (append_assoc l (10 ∷ join_lines (m ∷ ls)) (10 ∷ join_lines (k ∷ ks)))

-- Cutting a list of lines anywhere inside cuts the text at a newline.
pub join_cut :
    (n : ℕ) (ls : List (List ℕ))
    → 0 < n
    → n < length ls
    → join_lines ls ≡ join_lines (take n ls) ++ 10 ∷ join_lines (drop n ls)
join_cut n ls h k = go (take n ls) (drop n ls) refl refl
  where
    go :
        (xs ys : List (List ℕ))
        → take n ls ≡ xs
        → drop n ls ≡ ys
        → join_lines ls ≡ join_lines (take n ls) ++ 10 ∷ join_lines (drop n ls)
    go [] ys e f = absurd (omega (arith, length-take n ls, ap (length {A = List ℕ}) e))
    go (x ∷ xs) [] e f = absurd (omega (arith, length-drop n ls, ap (length {A = List ℕ}) f))
    go (x ∷ xs) (y ∷ ys) e f =
        ap join_lines (sym (take-append-drop n ls) ∙ ap₂ (◌++◌ {A = List ℕ}) e f)
        ∙ join-append x xs y ys
        ∙ ap₂ (λ a b. join_lines a ++ 10 ∷ join_lines b) (sym e) (sym f)

-- No line of the list holds a newline.
abbrev pub AreLines : List (List ℕ) → Type 0
AreLines [] = Unit {0}
AreLines (l ∷ ls) = (count_byte 10 l ≡ 0) × AreLines ls

pub split-AreLines : (s : List ℕ) → AreLines (split 10 s)
unfolding split to_first count_byte
split-AreLines [] = (refl, tt)
split-AreLines (c ∷ s) =
    let (f, fs, here) = split_first 10 s in
    let ih : AreLines (f ∷ fs) = subst AreLines here (split-AreLines s) in
    elim (Bool-cases (c == 10)) [
      | inl e ↦ rw (e, here) (refl, ih)
      | inr e ↦ rw (e, here) (ground (arith, ih), ih.1)
    ]

pub take-AreLines : (n : ℕ) (ls : List (List ℕ)) → AreLines ls → AreLines (take n ls)
take-AreLines zero ls h = tt
take-AreLines (suc n) [] h = tt
take-AreLines (suc n) (l ∷ ls) h = (h.0, take-AreLines n ls h.1)

pub drop-AreLines : (n : ℕ) (ls : List (List ℕ)) → AreLines ls → AreLines (drop n ls)
drop-AreLines zero ls h = h
drop-AreLines (suc n) [] h = tt
drop-AreLines (suc n) (l ∷ ls) h = drop-AreLines n ls h.1

pub count-join :
    (l : List ℕ) (ls : List (List ℕ))
    → AreLines (l ∷ ls)
    → count_byte 10 (join_lines (l ∷ ls)) ≡ length ls
unfolding join_lines
count-join l [] h = h.0
count-join l (k ∷ ls) h =
    count_byte-append 10 l (10 ∷ join_lines (k ∷ ls))
    ∙ omega (arith, h.0, count_newline (join_lines (k ∷ ls)), count-join k ls h.1)
  where
    count_newline : (t : List ℕ) → count_byte 10 (10 ∷ t) ≡ suc (count_byte 10 t)
    count_newline t = unfold count_byte in omega arith

pub count-lines :
    (ls : List (List ℕ))
    → AreLines ls
    → 0 < length ls
    → count_byte 10 (join_lines ls) + 1 ≡ length ls
count-lines [] h k = absurd (omega arith)
count-lines (l ∷ ls) h k = omega (arith, count-join l ls h)

pub total_lines-le : (s : List ℕ) → total_lines s ≤ length (split 10 s)
unfolding total_lines
total_lines-le s = ground arith

-- The lines of a text: each newline ends one, and what stands behind the last newline, if
-- anything, is one more.
unfoldable pub count_lines : List ℕ → ℕ
count_lines [] = 0
count_lines (c ∷ []) = 1
count_lines (c ∷ d ∷ s) = if c == 10 then suc (count_lines (d ∷ s)) else count_lines (d ∷ s)

pub length-split : (s : List ℕ) → length (split 10 s) ≡ suc (count_byte 10 s)
length-split s =
    let (f, fs, here) = split_first 10 s in
    let some_lines : 0 < length (split 10 s) = rw here (omega arith) in
    let k = count-lines (split 10 s) (split-AreLines s) some_lines in
    omega (arith, k, ap (count_byte 10) (join-split s))

pub count_lines_lem :
    (c : ℕ) (s : List ℕ)
    → count_lines (c ∷ s)
      ≡ (if ends_in_newline (c ∷ s) then count_byte 10 (c ∷ s) else suc (count_byte 10 (c ∷ s)))
unfolding count_lines ends_in_newline count_byte
count_lines_lem c [] = ground arith
count_lines_lem c (d ∷ s) = ground (arith, count_lines_lem d s)
