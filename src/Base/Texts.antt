-- ===== src/Base/Texts.antt =====
-- Texts as lists of their code points.
use Prim.Native.Nat.{ℕ, ◌+◌}
use Prim.Native.Char.{Char, code}
use Prim.Native.String.{String}
use mathlib.Core.Path.{◌≡◌, refl}
use mathlib.Core.Logic.{◌↔◌, inl, inr}
use mathlib.Core.Bool.{Bool, true, false, ◌&&◌, ◌||◌}
use mathlib.Core.Option.{Option, none, some}
use mathlib.Core.List.{List, [], ◌∷◌, reverse}
use native.Mathlib.Omega.{arith}
use one_ssh.Base.Tests.{◌==◌, leb, Bool-cases, if◌then◌else◌}

-- The code points of a text: its bytes, if it is ASCII.
abbrev pub codes : String → List ℕ
codes String.[] = []
codes (String.◌∷◌ c s) = code c ∷ codes s

-- Equality of texts that are lists of bytes or characters.
abbrev pub same : List ℕ → List ℕ → Bool
same [] [] = true
same [] (y ∷ ys) = false
same (x ∷ xs) [] = false
same (x ∷ xs) (y ∷ ys) = x == y && same xs ys

pub same_eq : (xs ys : List ℕ) → same xs ys ≡ true → xs ≡ ys
same_eq [] [] h = refl
same_eq [] (y ∷ ys) h = cc
same_eq (x ∷ xs) [] h = cc
same_eq (x ∷ xs) (y ∷ ys) h = ground (arith, same_eq xs ys)

pub same_refl : (xs : List ℕ) → same xs xs ≡ true
same_refl [] = refl
same_refl (x ∷ xs) = ground (arith, same_refl xs)

pub same_iff : (xs ys : List ℕ) → (same xs ys ≡ true) ↔ (xs ≡ ys)
same_iff xs ys = (same_eq xs ys, λ e. rw e (same_refl ys))

-- `unicode.IsSpace`.
pub is_space : ℕ → Bool
is_space c =
    (leb 9 c && leb c 13)
    || c == 32
    || c == 0x85
    || c == 0xa0
    || c == 0x1680
    || (leb 0x2000 c && leb c 0x200a)
    || c == 0x2028
    || c == 0x2029
    || c == 0x202f
    || c == 0x205f
    || c == 0x3000

trim_left : List ℕ → List ℕ
trim_left [] = []
trim_left (c ∷ cs) = if is_space c then trim_left cs else c ∷ cs

-- `strings.TrimSpace`.
unfoldable pub trim_space : List ℕ → List ℕ
unfolding trim_left is_space
trim_space s = reverse (trim_left (reverse (trim_left s)))

text_reverse_onto : String → String → String
text_reverse_onto String.[] acc = acc
text_reverse_onto (String.◌∷◌ c s) acc = text_reverse_onto s (String.◌∷◌ c acc)

text_trim_left : String → String
unfolding is_space
text_trim_left String.[] = String.[]
text_trim_left (String.◌∷◌ c s) = if is_space (code c) then text_trim_left s else String.◌∷◌ c s

-- `strings.TrimSpace` on a native text.
unfoldable pub text_trim : String → String
unfolding text_trim_left text_reverse_onto
text_trim s =
    text_reverse_onto (text_trim_left (text_reverse_onto (text_trim_left s) String.[])) String.[]

unfoldable pub text_to_first : String → List String → List String
text_to_first c [] = c ∷ []
text_to_first String.[] (field ∷ fields) = field ∷ fields
text_to_first (String.◌∷◌ c rest) (field ∷ fields) = String.◌∷◌ c field ∷ fields

-- `strings.Split` of a native text at one character.
unfoldable pub text_split : ℕ → String → List String
unfolding text_to_first
text_split sep String.[] = String.[] ∷ []
text_split sep (String.◌∷◌ c s) =
    let rest = text_split sep s in
    if code c == sep then String.[] ∷ rest else text_to_first (String.◌∷◌ c String.[]) rest

-- `strings.Cut` of a native text at one character; `none` where it does not occur.
unfoldable pub text_cut : ℕ → String → Option (String × String)
text_cut sep String.[] = none
text_cut sep (String.◌∷◌ c s) =
    let rest : Option (String × String) = text_cut sep s in
    if code c == sep
    then some (String.[], s)
    else elim rest [ none ↦ none | some p ↦ some (String.◌∷◌ c p.0, p.1) ]

-- A field that a character begins or goes on, `more` says which.
abbrev joined_field : Bool → Char → List String → List String
joined_field more c [] = String.◌∷◌ c String.[] ∷ []
joined_field true c (field ∷ fields) = String.◌∷◌ c field ∷ fields
joined_field false c (field ∷ fields) = String.◌∷◌ c String.[] ∷ field ∷ fields

abbrev begins_field : String → Bool
begins_field String.[] = false
begins_field (String.◌∷◌ c s) = if is_space (code c) then false else true

-- `strings.Fields` of a native text.
unfoldable pub text_fields : String → List String
unfolding is_space
text_fields String.[] = []
text_fields (String.◌∷◌ c s) =
    let rest = text_fields s in
    if is_space (code c) then rest else joined_field (begins_field s) c rest

-- `len` of a native text: its bytes in UTF-8.
unfoldable pub byte_length : String → ℕ
byte_length String.[] = 0
byte_length (String.◌∷◌ c s) =
    let rest = byte_length s in
    (if leb (code c) 0x7f
      then 1
      else if leb (code c) 0x7ff
      then 2
      else if leb (code c) 0xffff
      then 3
      else 4)
    + rest

unfoldable pub text_append : String → String → String
text_append String.[] t = t
text_append (String.◌∷◌ c s) t = String.◌∷◌ c (text_append s t)

-- `unicode.ToLower`, as far as an ASCII letter comes out of it: U+0130 and U+212A are the only
-- other characters with an ASCII lower case, and all the rest are left as they are.
to_lower_rune : ℕ → ℕ
to_lower_rune c =
    if leb b'A' c && leb c b'Z'
    then c + 32
    else if c == 0x130
    then b'i'
    else if c == 0x212a
    then b'k'
    else c

-- `strings.ToLower`, up to the characters that `to_lower_rune` leaves.
unfoldable pub to_lower : List ℕ → List ℕ
unfolding to_lower_rune
to_lower [] = []
to_lower (c ∷ cs) = to_lower_rune c ∷ to_lower cs

unfoldable pub to_first : ℕ → List (List ℕ) → List (List ℕ)
to_first c [] = (c ∷ []) ∷ []
to_first c (field ∷ fields) = (c ∷ field) ∷ fields

-- `strings.Split` at one character: always at least one field.
unfoldable pub split : ℕ → List ℕ → List (List ℕ)
unfolding to_first
split sep [] = [] ∷ []
split sep (c ∷ cs) = let rest = split sep cs in if c == sep then [] ∷ rest else to_first c rest

-- There is always a first field.
pub split_first :
    (sep : ℕ) (s : List ℕ) → (f : List ℕ) × (fs : List (List ℕ)) × (split sep s ≡ f ∷ fs)
unfolding split to_first
split_first sep [] = ([], [], refl)
split_first sep (c ∷ s) = elim (Bool-cases (c == sep)) [
  | inl e ↦ ([], split sep s, rw e)
  | inr e ↦ let (f, fs, here) = split_first sep s in (c ∷ f, fs, rw (e, here))
]
