-- ===== src/Searchcore/Paths.antt =====
-- What internal/searchcore/core.go uses of Go's packages `path`, `strings` and `encoding/json`.
use one_ssh.Base.{
  ℕ, zero, suc, ◌+◌, Bool, false, ◌&&◌, ◌||◌, List, [], ◌∷◌, ◌++◌, if◌then◌else◌, any, leb, ltb,
  ◌==◌, length, drop, codes, same, split, reverse,
}
use one_ssh.Execx.Bytes.{has_prefix}
use one_ssh.Execx.Pages.{rune_size}

-- `strings.TrimPrefix`, `strings.TrimSuffix` and `strings.Contains` of a byte.
unfoldable pub trim_prefix : List ℕ → List ℕ → List ℕ
trim_prefix s prefix = if has_prefix prefix s then drop (length prefix) s else s

unfoldable pub has_suffix : List ℕ → List ℕ → Bool
has_suffix suffix s = has_prefix (reverse suffix) (reverse s)

unfoldable pub trim_suffix : List ℕ → List ℕ → List ℕ
unfolding trim_prefix
trim_suffix s suffix = reverse (trim_prefix (reverse s) (reverse suffix))

abbrev pub contains_byte : ℕ → List ℕ → Bool
contains_byte b s = any (λ c. c == b) s

-- `path.IsAbs`.
abbrev pub is_abs : List ℕ → Bool
is_abs [] = false
is_abs (c ∷ s) = c == b'/'

abbrev drop_top : Bool → List (List ℕ) → List (List ℕ)
drop_top rooted [] = if rooted then [] else codes ".." ∷ []
drop_top rooted (top ∷ stack) = if same top (codes "..") then codes ".." ∷ top ∷ stack else stack

-- The elements of a clean path, the last one first.
unfoldable pub clean_parts : Bool → List (List ℕ) → List (List ℕ) → List (List ℕ)
clean_parts rooted stack [] = stack
clean_parts rooted stack (e ∷ es) =
    clean_parts rooted
      (if length e == 0 || same e (codes ".")
        then stack
        else if same e (codes "..")
        then drop_top rooted stack
        else e ∷ stack)
      es

unfoldable pub join_slash : List (List ℕ) → List ℕ
join_slash [] = []
join_slash (e ∷ []) = e
join_slash (e ∷ d ∷ es) = e ++ b'/' ∷ join_slash (d ∷ es)

-- `path.Clean`.
unfoldable pub clean : List ℕ → List ℕ
unfolding clean_parts join_slash
clean s =
    let body = join_slash (reverse (clean_parts (is_abs s) [] (split b'/' s))) in
    if is_abs s then b'/' ∷ body else if length body == 0 then codes "." else body

-- `path.Join` of two elements.
unfoldable pub join_path : List ℕ → List ℕ → List ℕ
unfolding clean
join_path a b =
    if length a == 0
    then (if length b == 0 then [] else clean b)
    else clean (if length b == 0 then a else a ++ b'/' ∷ b)

trim_slashes : List ℕ → List ℕ
trim_slashes [] = []
trim_slashes (c ∷ s) = let rest = trim_slashes s in if c == b'/' then rest else c ∷ s

until_slash : List ℕ → List ℕ
until_slash [] = []
until_slash (c ∷ s) = let rest = until_slash s in if c == b'/' then [] else c ∷ rest

-- `path.Base`.
unfoldable pub base : List ℕ → List ℕ
unfolding trim_slashes until_slash
base s =
    let body = until_slash (trim_slashes (reverse s)) in
    if length s == 0 then codes "." else if length body == 0 then codes "/" else reverse body

-- The bytes that `json.Marshal` writes for one character of a string, of `size` bytes.
json_char : ℕ → List ℕ → ℕ
json_char size [] = 0
json_char size (c ∷ s) =
    if c == b'"' || c == 92
    then 2
    else if c == 8 || c == 9 || c == 10 || c == 12 || c == 13
    then 2
    else if ltb c 32 || c == b'<' || c == b'>' || c == b'&'
    then 6
    else if size == 1 && leb 0x80 c
    then 6
    else if has_prefix (0xe2 ∷ 0x80 ∷ 0xa8 ∷ []) (c ∷ s)
        || has_prefix (0xe2 ∷ 0x80 ∷ 0xa9 ∷ []) (c ∷ s)
    then 6
    else size

json_body : ℕ → List ℕ → ℕ
unfolding json_char
json_body zero s = 0
json_body (suc fuel) [] = 0
json_body (suc fuel) (c ∷ s) =
    json_char (rune_size (c ∷ s)) (c ∷ s) + json_body fuel (drop (rune_size (c ∷ s)) (c ∷ s))

-- The length of `json.Marshal(s)`; each round takes a byte at least.
unfoldable pub json_length : List ℕ → ℕ
unfolding json_body
json_length s = 2 + json_body (length s) s
