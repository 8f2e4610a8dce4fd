-- ===== src/Execx/Pages/Ascii.antt =====
-- `strings.ToValidUTF8` of internal/execx/runner.go on ASCII text.
use one_ssh.Base.{
  ℕ, Bool, true, false, List, [], ◌∷◌, ◌++◌, ◌≡◌, refl, ap, arith, all, length, ltb, leb, map,
}
use mathlib.Core.Path.{ap₂}
use one_ssh.Execx.Pages.{announced, decode_rest, rune_size, valid_from, to_valid_utf8}
use one_ssh.Execx.Writer.Streams.{concat}

abbrev pub is_ascii : ℕ → Bool
is_ascii c = ltb c 128

decode_rest_one : (b : ℕ) (s : List ℕ) → decode_rest 0 b s ≡ 1
unfolding decode_rest
decode_rest_one b [] = refl
decode_rest_one b (c ∷ []) = refl
decode_rest_one b (c ∷ d ∷ []) = refl
decode_rest_one b (c ∷ d ∷ e ∷ s) = refl

rune_size_one : (b : ℕ) (s : List ℕ) → is_ascii b ≡ true → rune_size (b ∷ s) ≡ 1
unfolding rune_size announced
rune_size_one b s h = rw h (decode_rest_one b s)

valid_from_ascii :
    (wrong : Bool) (s : List ℕ) → all is_ascii s ≡ true → valid_from (length s) wrong s ≡ s
unfolding valid_from
valid_from_ascii wrong [] h = refl
valid_from_ascii wrong (b ∷ s) h =
    let one = rune_size_one b s (ground arith) in
    let good : leb 0x80 b ≡ false = ground arith in
    rw (one, good) (ap (◌∷◌ b) (valid_from_ascii false s (ground arith)))

to_valid_utf8_ascii : (s : List ℕ) → all is_ascii s ≡ true → to_valid_utf8 s ≡ s
unfolding to_valid_utf8
to_valid_utf8_ascii s h = valid_from_ascii false s h

all-append-front :
    (s t : List ℕ)
    → all is_ascii (s ++ t) ≡ true
    → (all is_ascii s ≡ true) × (all is_ascii t ≡ true)
all-append-front [] t h = (refl, h)
all-append-front (c ∷ s) t h = ground (arith, all-append-front s t)

-- Of the pieces of an ASCII text, nothing is replaced.
pub map-to_valid_utf8 :
    (pieces : List (List ℕ))
    → all is_ascii (concat pieces) ≡ true
    → map to_valid_utf8 pieces ≡ pieces
map-to_valid_utf8 [] h = refl
map-to_valid_utf8 (p ∷ ps) h =
    let (a, b) = all-append-front p (concat ps) h in
    ap₂ (λ x xs. x ∷ xs) (to_valid_utf8_ascii p a) (map-to_valid_utf8 ps b)
