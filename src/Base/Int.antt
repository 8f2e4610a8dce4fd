-- ===== src/Base/Int.antt =====
-- Signed numbers, Go's decimal parsers, and the chain of optional results.
use Prim.Native.Nat.{ℕ, zero, suc, ◌+◌, ◌-◌, ◌*◌, ◌^◌}
use mathlib.Core.Bool.{Bool, ◌&&◌}
use mathlib.Core.List.{List, [], ◌∷◌}
use mathlib.Core.Option.{Option, none, some}
use one_ssh.Base.Tests.{ltb, leb, ◌==◌, if◌then◌else◌}

-- `negsuc n` is -(n + 1).
pub data ℤ : Type 0 where
  pos : ℕ → ℤ
  negsuc : ℕ → ℤ

infixl 5 ◌>>=◌
abbrev pub ◌>>=◌ {ℓ κ} : {A : Type ℓ} {B : Type κ} → Option A → (A → Option B) → Option B
none >>= f = none
some a >>= f = f a

unfoldable pub is_digit : ℕ → Bool
is_digit c = leb b'0' c && leb c b'9'

-- The value of a string of digits, on top of `acc`; the empty string adds nothing.
unfoldable pub digits_value : ℕ → List ℕ → Option ℕ
unfolding is_digit
digits_value acc [] = some acc
digits_value acc (c ∷ cs) =
    let rest = digits_value (acc * 10 + (c - b'0')) cs in if is_digit c then rest else none

unfoldable pub magnitude : List ℕ → Option ℕ
unfolding digits_value
magnitude [] = none
magnitude (c ∷ cs) = digits_value 0 (c ∷ cs)

abbrev pub negate : ℕ → ℤ
negate zero = pos 0
negate (suc n) = negsuc n

-- `strconv.ParseInt(s, 10, 64)` and, on a 64-bit machine, `strconv.Atoi`: `none` on any error.
unfoldable pub atoi : List ℕ → Option ℤ
unfolding magnitude
atoi [] = none
atoi (c ∷ cs) =
    if c == b'-'
    then (magnitude cs >>= λ n. if leb n (2 ^ 63) then some (negate n) else none)
    else ((if c == b'+' then magnitude cs else magnitude (c ∷ cs)) >>= λ n.
        if ltb n (2 ^ 63) then some (pos n) else none)
