-- ===== src/Searchcore/Glob.antt =====
-- `compileGlob`, `CompilePathMatcher` and `PathMatcher` of internal/searchcore/core.go.
use one_ssh.Base.{
  ℕ, zero, suc, Bool, false, not, ◌&&◌, List, [], ◌∷◌, ◌++◌, Option, none, some, if◌then◌else◌, any,
  ◌==◌, length, drop, codes, same, ◌>>=◌,
}
use one_ssh.Execx.Bytes.{has_prefix}
use one_ssh.Searchcore.Paths.{trim_prefix, contains_byte, is_abs, clean, base}

-- A compiled expression is the test it makes. The engine is the standard library's `regexp`.
abbrev pub Regexp : Type 0
Regexp = List ℕ → Bool

abbrev pub Engine : Type 0
Engine = List ℕ → Option Regexp

-- `regexp.QuoteMeta` of one byte: `\.+*?()|[]{}^$` are escaped.
abbrev pub quote_meta : ℕ → List ℕ
quote_meta c = if any (λ m. m == c) (92 ∷ codes ".+*?()|[]{}^$") then 92 ∷ c ∷ [] else c ∷ []

-- `strings.ReplaceAll(class, "\\", "\\\\")`.
unfoldable pub double_backslashes : List ℕ → List ℕ
double_backslashes [] = []
double_backslashes (c ∷ s) = (if c == 92 then 92 ∷ 92 ∷ [] else c ∷ []) ++ double_backslashes s

-- The characters of a class up to its end, and what follows; `none` if it is not closed.
unfoldable pub class_end : List ℕ → Option (List ℕ × List ℕ)
class_end [] = none
class_end (c ∷ s) =
    let later : Option (List ℕ × List ℕ) = elim (class_end s) [
      | none ↦ none
      | some (a, b) ↦ some (c ∷ a, b)
    ] in
    if c == b']' then some ([], s) else later

-- A class as it is written: `!` at its start becomes `^`.
unfoldable pub write_class : List ℕ → Option (List ℕ)
unfolding double_backslashes
write_class [] = none
write_class (c ∷ class) =
    if contains_byte b'/' (c ∷ class)
    then none
    else if c == b'!'
    then (if length class == 0
        then none
        else some (b'[' ∷ b'^' ∷ double_backslashes class ++ b']' ∷ []))
    else some (b'[' ∷ double_backslashes (c ∷ class) ++ b']' ∷ [])

-- A run of stars after the first.
unfoldable pub skip_stars : List ℕ → List ℕ
skip_stars [] = []
skip_stars (c ∷ s) = let rest = skip_stars s in if c == b'*' then rest else c ∷ s

abbrev prepend_text : List ℕ → Option (List ℕ) → Option (List ℕ)
prepend_text front none = none
prepend_text front (some rest) = some (front ++ rest)

abbrev starts_with : ℕ → List ℕ → Bool
starts_with b [] = false
starts_with b (c ∷ s) = c == b

-- What the pattern's first element is written as, and the rest of the pattern.
unfoldable pub glob_element : ℕ → List ℕ → Option (List ℕ × List ℕ)
unfolding skip_stars class_end write_class
glob_element c s =
    if c == b'*'
    then (if starts_with b'*' s
        then (let rest = skip_stars s in
            if starts_with b'/' rest
            then some (codes "(?:.*/)?", drop 1 rest)
            else some (codes ".*", rest))
        else some (codes "[^/]*", s))
    else if c == b'?'
    then some (codes "[^/]", s)
    else if c == b'['
    then (class_end s >>= λ p. write_class p.0 >>= λ t. some (t, p.1))
    else if c == 92
    then (elim s [ [] ↦ none | d ∷ t ↦ some (quote_meta d, t) ])
    else some (quote_meta c, s)

-- The loop of `compileGlob`; each round takes a byte at least.
unfoldable pub glob_from : ℕ → List ℕ → Option (List ℕ)
unfolding glob_element
glob_from zero s = some []
glob_from (suc fuel) [] = some []
glob_from (suc fuel) (c ∷ s) = elim (glob_element c s) [
  | none ↦ none
  | some (text, rest) ↦ prepend_text text (glob_from fuel rest)
]

-- The expression that a glob is compiled to.
unfoldable pub glob_expression : List ℕ → Option (List ℕ)
unfolding glob_from
glob_expression pattern = glob_from (length pattern) pattern >>= λ e. some (b'^' ∷ e ++ b'$' ∷ [])

-- `compileGlob`.
unfoldable pub compile_glob : Engine → List ℕ → Option Regexp
unfolding glob_expression
compile_glob engine pattern = glob_expression pattern >>= engine

-- `PathMatcher`.
pub record PathMatcher : Type 0 where
  pub test : Regexp
  pub basename_only : Bool
  pub absolute : Bool
  pub negated : Bool

-- The pattern that is compiled.
unfoldable pub anchored : List ℕ → Bool → List ℕ
unfolding trim_prefix clean
anchored pattern find_pattern =
    if is_abs pattern
    then clean pattern
    else if contains_byte b'/' pattern
        && find_pattern
        && not (has_prefix (codes "**/") pattern)
        && not (same pattern (codes "**"))
    then codes "**/" ++ pattern
    else trim_prefix pattern (codes "/")

abbrev as_matcher : List ℕ → Bool → Option Regexp → Option PathMatcher
as_matcher pattern negated none = none
as_matcher pattern negated (some test) = some (record {
  test = test;
  basename_only = not (contains_byte b'/' pattern);
  absolute = is_abs pattern;
  negated = negated;
})

unfoldable pub matcher_of : Engine → Bool → Bool → List ℕ → Option PathMatcher
unfolding anchored compile_glob
matcher_of engine find_pattern negated pattern =
    if length pattern == 0
    then none
    else as_matcher pattern negated (compile_glob engine (anchored pattern find_pattern))

-- What `CompilePathMatcher` returns: a failure, no matcher for an empty pattern, or one.
pub data Compiled : Type 0 where
  bad_pattern no_matcher : Compiled
  compiled : PathMatcher → Compiled

abbrev as_compiled : Option PathMatcher → Compiled
as_compiled none = bad_pattern
as_compiled (some m) = compiled m

-- `CompilePathMatcher`.
unfoldable pub compile_path_matcher : Engine → List ℕ → Bool → Compiled
unfolding matcher_of trim_prefix
compile_path_matcher engine pattern find_pattern =
    let negated = not find_pattern && starts_with b'!' pattern in
    if length pattern == 0
    then no_matcher
    else as_compiled
        (matcher_of engine find_pattern negated (if negated then drop 1 pattern else pattern))

-- `PathMatcher.matches`, of a matcher that is not nil.
unfoldable pub path_matches : PathMatcher → List ℕ → List ℕ → Bool
unfolding base
path_matches m relative full =
    let candidate =
      if m.absolute then full else if m.basename_only then base relative else relative in
    if m.negated then not (m.test candidate) else m.test candidate
