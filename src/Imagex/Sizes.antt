-- ===== src/Imagex/Sizes.antt =====
-- The sizes of the pictures that `Process` of internal/imagex/image.go takes and gives.
use one_ssh.Base.{
  ℕ, ◌*◌, ◌≤◌, ◌<◌, ◌≡◌, inl, inr, List, some, ℤ, ltb, arith, Bool-cases, Option-cases, subst, ◌↔◌,
}
use native.Mathlib.Nat.{mul-le-mul}
use one_ssh.Imagex.{
  Codecs, ImageResult, too_many_pixels, max_dimension, product, fitted, encoded, process_sized,
  process,
}
use one_ssh.Imagex.Fitted.{Fits, max_dimension_bounds, product_small, fitted-Fits, encoded_sizes}

abbrev pub size_limit : ℕ
size_limit = 2147483648

area_small : (w h : ℕ) → w < size_limit → h < size_limit → product w h ≡ w * h
area_small w h small_w small_h =
    let area : w * h ≤ size_limit * size_limit =
      mul-le-mul {n₁ = w} {m₁ = h} {n₂ = size_limit} {m₂ = size_limit} (omega arith)
        (omega arith) in
    let large : size_limit * size_limit < 9223372036854775808 = omega arith in
    product_small w h (omega arith)

sized_steps :
    {I : Type 0} (lib : Codecs I) (input : List ℕ) (limit w h : ℕ) (r : ImageResult)
    → process_sized lib input limit w h ≡ inr r
    → (product w h ≤ 100000000)
      × (picture : I) × (encoded lib w h (fitted limit w h) picture ≡ inr r)
unfolding process_sized
sized_steps lib input limit w h r given = elim (Bool-cases (ltb 100000000 (product w h))) [
  | inl over ↦ absurd (ground arith)
  | inr few ↦ (elim (Option-cases (lib.decode input)) [
    | inl undecoded ↦ absurd (ground arith)
    | inr (picture, decoded) ↦
        (ground arith, lib.scaled picture (fitted limit w h).0 (fitted limit w h).1, ground arith)
  ])
]

-- What `Process` says of a picture, and what it makes of it.
abbrev pub Outcome : (limit w h : ℕ) → ImageResult → Type 0
Outcome limit w h r =
    (w * h ≤ 100000000)
    × (r.original_width ≡ w)
    × (r.original_height ≡ h)
    × Fits limit w h r.width r.height

-- A picture whose sides are between 1 and 2^31 - 1, when `Process` gives a result for it, has at
-- most 100,000,000 pixels; the result names its size, and has itself a size that fits: both sides
-- are between 1 and the limit that the argument `maxDim` stands for, which is at most 2048,
-- neither is larger than in the picture, and unless it is 1, each is less than what one pixel
-- more in the other one would give at the ratio of the picture.
pub process-Fits :
    {I : Type 0} (lib : Codecs I) (input : List ℕ) (max_dim : ℤ) (w h : ℕ) (r : ImageResult)
    → lib.decode_config input ≡ some (w, h)
    → 1 ≤ w
    → 1 ≤ h
    → w < size_limit
    → h < size_limit
    → process lib input max_dim ≡ inr r
    → (max_dimension max_dim ≤ 2048) × Outcome (max_dimension max_dim) w h r
unfolding process
process-Fits lib input max_dim w h r config pos_w pos_h small_w small_h given =
    let bounds = max_dimension_bounds max_dim in
    let sized : process_sized lib input (max_dimension max_dim) w h ≡ inr r = ground arith in
    let steps = sized_steps lib input (max_dimension max_dim) w h r sized in
    let sizes = encoded_sizes lib w h (fitted (max_dimension max_dim) w h) steps.1 r steps.2 in
    (
      bounds.1,
      (
        subst (λ area. area ≤ 100000000) (area_small w h small_w small_h) steps.0,
        sizes.0,
        sizes.1,
        rw (sizes.2) (
            rw (sizes.3) (
              fitted-Fits (max_dimension max_dim) w h bounds.0 bounds.1 pos_w pos_h small_w
                small_h)),
      ),
    )

-- For a picture whose sides are below 2^31, `Process` answers that there are too many pixels
-- exactly when there are more than 100,000,000 of them, whatever else may be wrong with it.
pub process-too_many :
    {I : Type 0} (lib : Codecs I) (input : List ℕ) (max_dim : ℤ) (w h : ℕ)
    → lib.decode_config input ≡ some (w, h)
    → w < size_limit
    → h < size_limit
    → (process lib input max_dim ≡ inl too_many_pixels) ↔ (100000000 < w * h)
unfolding process process_sized encoded
process-too_many lib input max_dim w h config small_w small_h =
    let area = area_small w h small_w small_h in ground arith
