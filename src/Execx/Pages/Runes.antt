-- ===== src/Execx/Pages/Runes.antt =====
-- Where characters begin and end, as the pages of internal/execx/runner.go need it.
use one_ssh.Base.{
  ℕ, zero, suc, ◌+◌, ◌-◌, ◌≤◌, ◌<◌, ◌≡◌, refl, sym, ap, subst, ◌∙◌, true, false, List, [], ◌∷◌,
  arith, take, drop, get_or, Bool-cases, inl, inr, take_all,
}
use native.Mathlib.Decide.{dec_le}
use one_ssh.Execx.Pages.Bounds.{rune_size_bounds}
use one_ssh.Execx.Pages.{
  rune_start, announced, accepts, continues, is_wrong, full_rune, decode_rest, rune_size,
  last_start,
}

-- A byte inside a character continues it.
rest_continues :
    (sz b i : ℕ) (s : List ℕ) → suc i < decode_rest sz b s → rune_start (get_or s i 0) ≡ false
unfolding decode_rest accepts continues rune_start
rest_continues sz b i [] h = absurd (omega arith)
rest_continues sz b zero (c ∷ []) h = ground arith
rest_continues sz b (suc i) (c ∷ []) h = ground arith
rest_continues sz b zero (c ∷ d ∷ []) h = ground arith
rest_continues sz b (suc zero) (c ∷ d ∷ []) h = ground arith
rest_continues sz b (suc (suc i)) (c ∷ d ∷ []) h = ground arith
rest_continues sz b zero (c ∷ d ∷ e ∷ s) h = ground arith
rest_continues sz b (suc zero) (c ∷ d ∷ e ∷ s) h = ground arith
rest_continues sz b (suc (suc zero)) (c ∷ d ∷ e ∷ s) h = ground arith
rest_continues sz b (suc (suc (suc i))) (c ∷ d ∷ e ∷ s) h = ground arith

pub inside_continues :
    (i : ℕ) (s : List ℕ) → 0 < i → i < rune_size s → rune_start (get_or s i 0) ≡ false
unfolding rune_size
inside_continues zero s p h = absurd (omega arith)
inside_continues (suc i) [] p h = absurd (omega arith)
inside_continues (suc i) (b ∷ s) p h = rest_continues (announced b) b i s h

-- A byte that starts nothing is a character of its own.
decode_rest_single : (b : ℕ) (s : List ℕ) → decode_rest 1 b s ≡ 1
unfolding decode_rest
decode_rest_single b [] = refl
decode_rest_single b (c ∷ []) = refl
decode_rest_single b (c ∷ d ∷ []) = refl
decode_rest_single b (c ∷ d ∷ e ∷ s) = refl

pub single_size : (s : List ℕ) → rune_start (get_or s 0 0) ≡ false → rune_size s ≤ 1
unfolding rune_size rune_start announced
single_size [] h = omega arith
single_size (b ∷ s) h =
    let one : announced b ≡ 1 = ground arith in
    let e = decode_rest_single b s in rw one (omega arith)

-- A character that is told complete, or wrong, from its first bytes does not go beyond them.
pub full_rune_size : (j : ℕ) (s : List ℕ) → 0 < j → full_rune (take j s) ≡ true → rune_size s ≤ j
unfolding full_rune rune_size is_wrong decode_rest
full_rune_size zero s p h = absurd (omega arith)
full_rune_size (suc j) [] p h = omega arith
full_rune_size (suc zero) (b ∷ []) p h = omega arith
full_rune_size (suc zero) (b ∷ c ∷ []) p h = ground arith
full_rune_size (suc zero) (b ∷ c ∷ d ∷ []) p h = ground arith
full_rune_size (suc zero) (b ∷ c ∷ d ∷ e ∷ s) p h = ground arith
full_rune_size (suc (suc zero)) (b ∷ []) p h = omega arith
full_rune_size (suc (suc zero)) (b ∷ c ∷ []) p h = ground arith
full_rune_size (suc (suc zero)) (b ∷ c ∷ d ∷ []) p h = ground arith
full_rune_size (suc (suc zero)) (b ∷ c ∷ d ∷ e ∷ s) p h = ground arith
full_rune_size (suc (suc (suc zero))) (b ∷ []) p h = omega arith
full_rune_size (suc (suc (suc zero))) (b ∷ c ∷ []) p h = ground arith
full_rune_size (suc (suc (suc zero))) (b ∷ c ∷ d ∷ []) p h = ground arith
full_rune_size (suc (suc (suc zero))) (b ∷ c ∷ d ∷ e ∷ s) p h = ground arith
full_rune_size (suc (suc (suc (suc j)))) (b ∷ s) p h =
    omega (arith, (rune_size_bounds (b ∷ s) (omega arith)).1)

abbrev pub get_or_of : List ℕ → ℕ → ℕ
get_or_of s n = get_or s n 0

pub get_or-drop : (k i : ℕ) (s : List ℕ) → get_or (drop k s) i 0 ≡ get_or s (k + i) 0
get_or-drop zero i s = let e : i ≡ 0 + i = omega arith in ap (get_or_of s) e
get_or-drop (suc k) i [] = refl
get_or-drop (suc k) i (x ∷ s) =
    let e : suc (k + i) ≡ suc k + i = omega arith in get_or-drop k i s ∙ ap (get_or_of (x ∷ s)) e

pub get_or-take : (n i : ℕ) (s : List ℕ) → i < n → get_or (take n s) i 0 ≡ get_or s i 0
get_or-take zero i s h = absurd (omega arith)
get_or-take (suc n) i [] h = refl
get_or-take (suc n) zero (x ∷ s) h = refl
get_or-take (suc n) (suc i) (x ∷ s) h = get_or-take n i s (omega arith)

pub last_start-starts :
    (i : ℕ) (s : List ℕ) → 0 < last_start i s → rune_start (get_or s (last_start i s) 0) ≡ true
unfolding last_start
last_start-starts zero s h = absurd (omega arith)
last_start-starts (suc i) s h = elim (Bool-cases (rune_start (get_or s (suc i) 0))) [
  | inl e ↦ rw e e
  | inr e ↦ rw e (last_start-starts i s (ground arith))
]

pub last_start_lem :
    (i k : ℕ) (s : List ℕ)
    → k ≤ i
    → rune_start (get_or s k 0) ≡ true
    → ((j : ℕ) → k < j → j ≤ i → rune_start (get_or s j 0) ≡ false)
    → last_start i s ≡ k
unfolding last_start
last_start_lem zero k s le starts others = omega arith
last_start_lem (suc i) k s le starts others = elim (dec_le k i) [
  | yes inside ↦
      rw (others (suc i) (omega arith) (omega arith))
        (last_start_lem i k s inside starts (λ j a b. others j a (omega arith)))
  | no last ↦
      let e : k ≡ suc i = omega arith in
      let here : rune_start (get_or s (suc i) 0) ≡ true =
        subst (λ n. rune_start (get_or s n 0) ≡ true) e starts in
      rw here (sym e)
]

pub drop-take : (k n : ℕ) (s : List ℕ) → k ≤ n → drop k (take n s) ≡ take (n - k) (drop k s)
drop-take zero n s h = let e : n ≡ n - 0 = omega arith in ap (λ m. take m s) e
drop-take (suc k) zero s h = absurd (omega arith)
drop-take (suc k) (suc n) [] h = sym (take_all {A = ℕ} (suc n - suc k) [] (omega arith))
drop-take (suc k) (suc n) (x ∷ s) h =
    let e : n - k ≡ suc n - suc k = omega arith in
    drop-take k n s (omega arith) ∙ ap (λ m. take m (drop k s)) e
