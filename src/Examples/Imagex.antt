-- ===== src/Examples/Imagex.antt =====
-- internal/imagex/image.go at concrete inputs.
use one_ssh.Base.{
  ℕ, ◌*◌, ◌≤◌, ◌<◌, ◌≡◌, refl, false, inl, inr, [], ◌∷◌, none, some, pos, ◌↔◌, arith,
}
use one_ssh.Imagex.{Codecs, ImageResult, too_many_pixels, max_dimension, process}
use one_ssh.Imagex.Sizes.{Outcome, process-Fits, process-too_many}

-- Files are pairs of numbers, the width and the height; a picture keeps them, and is not opaque.
abbrev sized : Codecs (ℕ × ℕ)
sized = record {
  decode_config = λ input. elim input [ w ∷ h ∷ rest ↦ some (w, h) | _ ↦ none ];
  decode = λ input. elim input [ w ∷ h ∷ rest ↦ some (w, h) | _ ↦ none ];
  scaled = λ picture w h. (w, h);
  is_opaque = λ picture. false;
  encode_jpeg = λ picture. none;
  encode_png = λ picture. some (picture.0 ∷ picture.1 ∷ []);
}

abbrev small : ImageResult
small = record {
  bytes = 10 ∷ 5 ∷ [];
  mime_type = "image/png";
  original_width = 40;
  original_height = 20;
  width = 10;
  height = 5;
}

halved : process sized (40 ∷ 20 ∷ []) (pos 10) ≡ inr small
unfolding process
halved = refl

process-Fits_example :
    (max_dimension (pos 10) ≤ 2048) × Outcome (max_dimension (pos 10)) 40 20 small
process-Fits_example =
    process-Fits sized (40 ∷ 20 ∷ []) (pos 10) 40 20 small refl (omega arith) (omega arith)
      (omega arith) (omega arith) halved

process-too_many_example :
    (process sized (20000 ∷ 20000 ∷ []) (pos 10) ≡ inl too_many_pixels)
    ↔ (100000000 < 20000 * 20000)
process-too_many_example =
    process-too_many sized (20000 ∷ 20000 ∷ []) (pos 10) 20000 20000 refl (omega arith)
      (omega arith)
