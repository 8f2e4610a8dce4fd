-- ===== src/Imagex/Fitted.antt =====
-- The sizes of the results of `Process` in internal/imagex/image.go.
use one_ssh.Base.{
  ℕ, ◌+◌, ◌*◌, ◌/◌, ◌≤◌, ◌<◌, ◌≡◌, ◌⊎◌, inl, inr, ℤ, pos, negsuc, ltb, leb, arith, Bool-cases, max,
  sym, subst, ◌||◌,
}
use native.Mathlib.Nat.{
  div-mul-le_self, lt-mul-div-succ, mul-le-mul_left, mul-le-mul_right, mul-le-mul,
  le_of_mul-le-mul_right,
}
use one_ssh.Imagex.{Codecs, ImageResult, max_dimension, product, shrunk, fitted, encoded}

pub max_dimension_bounds : (d : ℤ) → (1 ≤ max_dimension d) × (max_dimension d ≤ 2048)
unfolding max_dimension
max_dimension_bounds (pos n) = ground arith
max_dimension_bounds (negsuc n) = ground arith

pub product_small : (a b : ℕ) → a * b < 9223372036854775808 → product a b ≡ a * b
unfolding product
product_small a b h = ground arith

-- How the shorter side follows the longer one, which shrinks to `limit`.
record Follows (limit long short side : ℕ) : Type 0 where
  some_left : 1 ≤ side
  in_limit : side ≤ limit
  no_larger : side ≤ short
  from_below : limit * short < (side + 1) * long
  from_above : (side ≡ 1) ⊎ (side * long ≤ limit * short)

max_le : (q b : ℕ) → 1 ≤ b → q ≤ b → max 1 q ≤ b
max_le q b h k = ground arith

max_cases : (q : ℕ) → (max 1 q ≡ 1) ⊎ (max 1 q ≡ q)
max_cases q = ground arith

max_above : (q : ℕ) → (1 ≤ max 1 q) × (q ≤ max 1 q)
max_above q = ground arith

quotient_le : (d w h : ℕ) → 1 ≤ w → h ≤ w → h * d / w ≤ d
quotient_le d w h pos_w le =
    let a = div-mul-le_self (h * d) w in
    let b = mul-le-mul_right d le in le_of_mul-le-mul_right (ground arith) pos_w

quotient_le_short : (d w h : ℕ) → 1 ≤ w → d ≤ w → h * d / w ≤ h
quotient_le_short d w h pos_w le =
    let a = div-mul-le_self (h * d) w in
    let b = mul-le-mul_left h le in le_of_mul-le-mul_right (ground arith) pos_w

quotient-Follows :
    (limit long short q : ℕ)
    → 1 ≤ limit
    → 1 ≤ short
    → limit < long
    → q ≤ limit
    → q ≤ short
    → limit * short < long * (q + 1)
    → q * long ≤ limit * short
    → Follows limit long short (max 1 q)
quotient-Follows limit long short q pos_limit pos_short lt le le_short below above =
    let grown = mul-le-mul_right long (max_above q).1 in
    record {
      some_left = (max_above q).0;
      in_limit = max_le q limit pos_limit le;
      no_larger = max_le q short pos_short le_short;
      from_below = ground arith;
      from_above = elim (max_cases q) [
        | inl one ↦ inl one
        | inr same ↦ inr (subst (λ x. x * long ≤ limit * short) (sym same) above)
      ];
    }

shrunk-Follows :
    (limit long short : ℕ)
    → 1 ≤ limit
    → 1 ≤ short
    → limit < long
    → short ≤ long
    → short * limit < 9223372036854775808
    → Follows limit long short (shrunk limit long short)
unfolding shrunk
shrunk-Follows limit long short pos_limit pos_short lt le small =
    let below = lt-mul-div-succ (short * limit) {b = long} (omega arith) in
    let above = div-mul-le_self (short * limit) long in
    rw (product_small short limit small) (
      quotient-Follows limit long short (short * limit / long) pos_limit pos_short lt
        (quotient_le limit long short (omega arith) le)
        (quotient_le_short limit long short (omega arith) (omega arith)) (ground arith)
        (ground arith))

-- How a size follows from another one: neither side is larger, both are between 1 and `limit`,
-- and either side is, but for rounding, what the other one makes of it.
pub record Fits (limit w h width height : ℕ) : Type 0 where
  pub wide : (1 ≤ width) × (width ≤ limit)
  pub high : (1 ≤ height) × (height ≤ limit)
  pub no_wider : width ≤ w
  pub no_higher : height ≤ h
  pub width_follows : (width ≡ 1) ⊎ (width * h < (height + 1) * w)
  pub height_follows : (height ≡ 1) ⊎ (height * w < (width + 1) * h)

wide-Fits :
    (limit w h side : ℕ)
    → 1 ≤ limit
    → 1 ≤ h
    → limit < w
    → Follows limit w h side
    → Fits limit w h limit side
wide-Fits limit w h side pos_limit pos_h lt f = record {
  wide = (pos_limit, omega arith);
  high = (f.some_left, f.in_limit);
  no_wider = omega arith;
  no_higher = f.no_larger;
  width_follows = inr f.from_below;
  height_follows = elim f.from_above [ inl one ↦ inl one | inr above ↦ inr (ground arith) ];
}

swapped-Fits :
    (limit w h width height : ℕ) → Fits limit h w height width → Fits limit w h width height
swapped-Fits limit w h width height f = record {
  wide = f.high;
  high = f.wide;
  no_wider = f.no_higher;
  no_higher = f.no_wider;
  width_follows = f.height_follows;
  height_follows = f.width_follows;
}

same-Fits : (limit w h : ℕ) → 1 ≤ w → 1 ≤ h → w ≤ limit → h ≤ limit → Fits limit w h w h
same-Fits limit w h pos_w pos_h le le' = record {
  wide = (pos_w, le);
  high = (pos_h, le');
  no_wider = omega arith;
  no_higher = omega arith;
  width_follows = inr (ground arith);
  height_follows = inr (ground arith);
}

pub fitted-Fits :
    (limit w h : ℕ)
    → 1 ≤ limit
    → limit ≤ 2048
    → 1 ≤ w
    → 1 ≤ h
    → w < 2147483648
    → h < 2147483648
    → Fits limit w h (fitted limit w h).0 (fitted limit w h).1
unfolding fitted
fitted-Fits limit w h pos_limit le pos_w pos_h small_w small_h =
    let w_limit = mul-le-mul {n₁ = w} {n₂ = 2147483648} (omega arith) le in
    let h_limit = mul-le-mul {n₁ = h} {n₂ = 2147483648} (omega arith) le in
    elim (Bool-cases (ltb limit w || ltb limit h)) [
      | inl over ↦ rw over (elim (Bool-cases (leb h w)) [
        | inl landscape ↦ rw landscape (
            let lt : limit < w = ground arith in
            wide-Fits limit w h (shrunk limit w h) pos_limit pos_h lt
              (shrunk-Follows limit w h pos_limit pos_h lt (ground arith) (omega arith)))
        | inr portrait ↦ rw portrait (
            let lt : limit < h = ground arith in
            swapped-Fits limit w h (shrunk limit h w) limit (
              wide-Fits limit h w (shrunk limit h w) pos_limit pos_w lt
                (shrunk-Follows limit h w pos_limit pos_w lt (ground arith) (omega arith))))
      ])
      | inr within ↦ rw within (same-Fits limit w h pos_w pos_h (ground arith) (ground arith))
    ]

pub encoded_sizes :
    {I : Type 0} (lib : Codecs I) (w h : ℕ) (size : ℕ × ℕ) (picture : I) (r : ImageResult)
    → encoded lib w h size picture ≡ inr r
    → (r.original_width ≡ w) × (r.original_height ≡ h) × (r.width ≡ size.0) × (r.height ≡ size.1)
unfolding encoded
encoded_sizes lib w h size picture r given = ground arith
