-- ===== src/Imagex.antt =====
-- internal/imagex/image.go. The decoders, the encoders and the scaling of pixels are a parameter.
pub mod Fitted
pub mod Sizes
use Prim.Native.Nat.{◌^◌}
use one_ssh.Base.{
  ℕ, ◌*◌, ◌%◌, ◌/◌, max, Bool, ◌||◌, Option, none, some, List, ℤ, pos, negsuc, ltb, leb,
  if◌then◌else◌, ◌⊎◌, inl, inr, String,
}

pub data ImageError : Type 0 where
  unsupported : ImageError
  too_many_pixels : ImageError
  undecodable : ImageError
  not_encoded : ImageError

pub record ImageResult : Type 0 where
  pub bytes : List ℕ
  pub mime_type : String
  pub original_width : ℕ
  pub original_height : ℕ
  pub width : ℕ
  pub height : ℕ

-- `image.DecodeConfig` (of which the width and the height), `image.Decode`, a new picture of a
-- size with another one scaled into it, `Opaque`, and the encoders with the options that the
-- source gives them.
pub record Codecs (I : Type 0) : Type 0 where
  pub decode_config : List ℕ → Option (ℕ × ℕ)
  pub decode : List ℕ → Option I
  pub scaled : I → ℕ → ℕ → I
  pub is_opaque : I → Bool
  pub encode_jpeg : I → Option (List ℕ)
  pub encode_png : I → Option (List ℕ)

unfoldable pub max_dimension : ℤ → ℕ
max_dimension (pos n) = if leb n 0 then 1024 else if ltb 2048 n then 2048 else n
max_dimension (negsuc n) = 1024

-- The product of two numbers as a signed number of 64 bits, with 0 in place of a negative one:
-- the source asks whether it is above a bound, or takes the larger of 1 and a part of it.
unfoldable pub product : ℕ → ℕ → ℕ
product a b = let p = (a * b) % 2 ^ 64 in if ltb p (2 ^ 63) then p else 0

-- The shorter side, for a longer side that shrinks from `long` to `limit`.
unfoldable pub shrunk : ℕ → ℕ → ℕ → ℕ
unfolding product
shrunk limit long short = max 1 (product short limit / long)

-- The width and the height of the result.
unfoldable pub fitted : ℕ → ℕ → ℕ → ℕ × ℕ
unfolding shrunk
fitted limit w h =
    if ltb limit w || ltb limit h
    then if leb h w then (limit, shrunk limit w h) else (shrunk limit h w, limit)
    else (w, h)

-- What is left of `Process` when the pixels are scaled.
unfoldable pub encoded : {I : Type 0} → Codecs I → ℕ → ℕ → ℕ × ℕ → I → ImageError ⊎ ImageResult
encoded lib w h size picture =
    elim (if lib.is_opaque picture then lib.encode_jpeg picture else lib.encode_png picture) [
      | none ↦ inl not_encoded
      | some out ↦ inr record {
        bytes = out;
        mime_type = if lib.is_opaque picture then "image/jpeg" else "image/png";
        original_width = w;
        original_height = h;
        width = size.0;
        height = size.1;
      }
    ]

-- `Process`, for a picture of the given width and height.
unfoldable pub process_sized :
    {I : Type 0} → Codecs I → List ℕ → ℕ → ℕ → ℕ → ImageError ⊎ ImageResult
unfolding product fitted encoded
process_sized lib input limit w h =
    if ltb 100000000 (product w h) then inl too_many_pixels else elim (lib.decode input) [
      | none ↦ inl undecodable
      | some picture ↦
          let size = fitted limit w h in encoded lib w h size (lib.scaled picture size.0 size.1)
    ]

unfoldable pub process : {I : Type 0} → Codecs I → List ℕ → ℤ → ImageError ⊎ ImageResult
unfolding max_dimension process_sized
process lib input max_dim = elim (lib.decode_config input) [
  | none ↦ inl unsupported
  | some (w, h) ↦ process_sized lib input (max_dimension max_dim) w h
]
