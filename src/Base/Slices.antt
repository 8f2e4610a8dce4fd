-- ===== src/Base/Slices.antt =====
-- Slices of concatenations, and searches for one byte string in another.
use Prim.Native.Nat.{ℕ, zero, suc, ◌+◌, ◌-◌, ◌≤◌, min}
use mathlib.Core.Path.{◌≡◌, refl, ap, sym}
use mathlib.Core.List.{List, [], ◌∷◌, ◌++◌}
use native.Mathlib.Omega.{arith}
use native.Mathlib.Nat.{sub-zero, zero-sub, suc-sub-suc}
use one_ssh.Base.Lists.{length, take, drop, length-append, length-drop, drop_all}

module _ {ℓ} {A : Type ℓ} where
  -- The last `n` elements, or all if there are fewer.
  abbrev pub last : ℕ → List A → List A
  last n xs = drop (length xs - n) xs

  pub take-append :
      (n : ℕ) (xs ys : List A) → take n (xs ++ ys) ≡ take n xs ++ take (n - length xs) ys
  take-append zero [] ys = refl
  take-append zero (x ∷ xs) ys = rw (zero-sub (suc (length xs)))
  take-append (suc n) [] ys = rw sub-zero
  take-append (suc n) (x ∷ xs) ys =
      rw (suc-sub-suc n (length xs)) (ap (◌∷◌ x) (take-append n xs ys))

  pub drop-append :
      (n : ℕ) (xs ys : List A) → drop n (xs ++ ys) ≡ drop n xs ++ drop (n - length xs) ys
  drop-append zero [] ys = refl
  drop-append zero (x ∷ xs) ys = rw (zero-sub (suc (length xs)))
  drop-append (suc n) [] ys = rw sub-zero
  drop-append (suc n) (x ∷ xs) ys = rw (suc-sub-suc n (length xs)) (drop-append n xs ys)

  pub drop-drop : (m n : ℕ) (xs : List A) → drop m (drop n xs) ≡ drop (n + m) xs
  drop-drop m zero xs = ap (λ k. drop k xs) (omega arith)
  drop-drop zero (suc n) [] = sym (drop_all (suc n + 0) [] (omega arith))
  drop-drop (suc m) (suc n) [] = sym (drop_all (suc n + suc m) [] (omega arith))
  drop-drop m (suc n) (x ∷ xs) =
      let e : suc n + m ≡ suc (n + m) = omega arith in rw e (drop-drop m n xs)

  pub take-min : (n : ℕ) (xs : List A) → take (min n (length xs)) xs ≡ take n xs
  take-min zero xs = let e : min zero (length xs) ≡ zero = omega arith in rw e
  take-min (suc n) [] = let e : min (suc n) 0 ≡ 0 = omega arith in rw e
  take-min (suc n) (x ∷ xs) =
      let e : min (suc n) (suc (length xs)) ≡ suc (min n (length xs)) = omega arith in
      rw e (ap (◌∷◌ x) (take-min n xs))

  pub drop-min : (n : ℕ) (xs : List A) → drop (min n (length xs)) xs ≡ drop n xs
  drop-min zero xs = let e : min zero (length xs) ≡ zero = omega arith in rw e
  drop-min (suc n) [] = drop_all (min (suc n) 0) [] (omega arith)
  drop-min (suc n) (x ∷ xs) =
      let e : min (suc n) (suc (length xs)) ≡ suc (min n (length xs)) = omega arith in
      rw e (drop-min n xs)

  pub length-last : (n : ℕ) (xs : List A) → length (last n xs) ≡ min n (length xs)
  length-last n xs = omega (arith, length-drop (length xs - n) xs)

  -- Keeping the last `n` of a prefix first loses nothing.
  pub last-last-append : (n : ℕ) (xs ys : List A) → last n (last n xs ++ ys) ≡ last n (xs ++ ys)
  last-last-append n xs ys =
      let k = length xs - n in
      let zs = xs ++ ys in
      let front : drop k xs ++ ys ≡ drop k zs =
        let z : k - length xs ≡ 0 = omega arith in sym (rw (drop-append k xs ys, z)) in
      let same_start : k + (length (drop k zs) - n) ≡ length zs - n =
        omega (arith, length-drop k zs, length-append xs ys) in
      rw front (rw drop-drop (rw same_start))

  pub take-take : (m n : ℕ) (xs : List A) → m ≤ n → take m (take n xs) ≡ take m xs
  take-take zero n xs h = refl
  take-take (suc m) zero xs h = absurd (omega arith)
  take-take (suc m) (suc n) [] h = refl
  take-take (suc m) (suc n) (x ∷ xs) h = ap (◌∷◌ x) (take-take m n xs (omega arith))

  pub take_self : (xs : List A) → take (length xs) xs ≡ xs
  take_self [] = refl
  take_self (x ∷ xs) = ap (◌∷◌ x) (take_self xs)
