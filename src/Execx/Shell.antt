-- ===== src/Execx/Shell.antt =====
-- `SHQ` and `commandScript` of internal/execx/runner.go: the script that is sent to the shell.
use one_ssh.Base.{
  ℕ, ◌≡◌, refl, sym, ap, ◌∙◌, Bool, true, false, ◌||◌, ◌&&◌, List, [], ◌∷◌, ◌++◌, Option, none,
  some, arith, ◌==◌, ltb, if◌then◌else◌, length, append_assoc, Bool-cases, inl, inr, ==_iff, codes,
  map, same,
}

-- `strings.ReplaceAll(s, "'", "'\\''")`
escape_quotes : List ℕ → List ℕ
escape_quotes [] = []
escape_quotes (c ∷ s) = (if c == 39 then 39 ∷ 92 ∷ 39 ∷ 39 ∷ [] else c ∷ []) ++ escape_quotes s

-- `SHQ`.
unfoldable pub shq : List ℕ → List ℕ
unfolding escape_quotes
shq s = 39 ∷ escape_quotes s ++ 39 ∷ []

-- Go's `<` on strings.
unfoldable pub text_lt : List ℕ → List ℕ → Bool
text_lt s [] = false
text_lt [] (d ∷ t) = true
text_lt (c ∷ s) (d ∷ t) = ltb c d || (c == d && text_lt s t)

insert_sorted : List ℕ → List (List ℕ) → List (List ℕ)
insert_sorted k [] = k ∷ []
insert_sorted k (j ∷ ks) = if text_lt j k then j ∷ insert_sorted k ks else k ∷ j ∷ ks

-- `sort.Strings`.
unfoldable pub sort_strings : List (List ℕ) → List (List ℕ)
unfolding insert_sorted
sort_strings [] = []
sort_strings (k ∷ ks) = insert_sorted k (sort_strings ks)

-- `env[k]`, of the entries of the map.
unfoldable pub env_value : List (List ℕ × List ℕ) → List ℕ → List ℕ
env_value [] k = []
env_value ((j, v) ∷ env) k = if same j k then v else env_value env k

export_lines : List (List ℕ × List ℕ) → List (List ℕ) → List ℕ
unfolding shq env_value
export_lines env [] = []
export_lines env (k ∷ ks) =
    codes "export " ++ k ++ b'=' ∷ shq (env_value env k) ++ 10 ∷ export_lines env ks

-- `commandScript`.
unfoldable pub command_script : List ℕ → List ℕ → List (List ℕ × List ℕ) → List ℕ → List ℕ
unfolding shq export_lines sort_strings
command_script command cwd env trailer_id =
    codes "cd "
    ++ shq cwd
    ++ codes " 2>/dev/null || cd \"$HOME\"\n"
    ++ export_lines env (sort_strings (map (λ e. e.0) env))
    ++ codes "{ "
    ++ command
    ++ codes "\n}\n__ec=$?\nprintf '\\n\\001ONESSH:"
    ++ (if length trailer_id == 0 then [] else trailer_id ++ b':' ∷ [])
    ++ codes "%d:%s\\001' \"$__ec\" \"$PWD\"\n"

-- How a POSIX shell reads a word that is made of single quotes, escaped characters and characters
-- that mean nothing to it. The result is the word's text and what follows it.
pub data Mode : Type 0 where
  plain quoted escaped : Mode

-- Blanks, newlines and operators end a word.
abbrev pub ends_word : ℕ → Bool
ends_word c =
    c == 32
    || c == 9
    || c == 10
    || c == b';'
    || c == b'&'
    || c == b'|'
    || c == b'<'
    || c == b'>'
    || c == b'('
    || c == b')'

prepend : ℕ → Option (List ℕ × List ℕ) → Option (List ℕ × List ℕ)
prepend c none = none
prepend c (some (w, rest)) = some (c ∷ w, rest)

-- What the shell would expand, or a quote that is not closed, is `none`.
pub read_word : Mode → List ℕ → Option (List ℕ × List ℕ)
read_word plain [] = some ([], [])
read_word quoted [] = none
read_word escaped [] = none
read_word plain (c ∷ s) =
    let in_quotes = read_word quoted s in
    let after_escape = read_word escaped s in
    let more = read_word plain s in
    if c == 39
    then in_quotes
    else if c == 92
    then after_escape
    else if ends_word c
    then some ([], c ∷ s)
    else if c == b'"' || c == b'$' || c == b'`' || c == b'*' || c == b'?' || c == b'[' || c == b'~'
    then none
    else prepend c more
read_word quoted (c ∷ s) =
    let closed = read_word plain s in
    let more = read_word quoted s in if c == 39 then closed else prepend c more
read_word escaped (c ∷ s) = if c == 10 then read_word plain s else prepend c (read_word plain s)

word_end :
    (c : ℕ) (rest : List ℕ) → ends_word c ≡ true → read_word plain (c ∷ rest) ≡ some ([], c ∷ rest)
unfolding read_word
word_end c rest h = ground arith

read_quoted_char :
    (x : ℕ) (t : List ℕ)
    → (x == 39) ≡ false
    → read_word quoted (x ∷ t) ≡ prepend x (read_word quoted t)
unfolding read_word
read_quoted_char x t h = rw h

read_escaped_quote :
    (t : List ℕ) → read_word quoted (39 ∷ 92 ∷ 39 ∷ 39 ∷ t) ≡ prepend 39 (read_word quoted t)
unfolding read_word
read_escaped_quote t = refl

read_closing : (t : List ℕ) → read_word quoted (39 ∷ t) ≡ read_word plain t
unfolding read_word
read_closing t = refl

read_quoted :
    (s : List ℕ) (c : ℕ) (rest : List ℕ)
    → ends_word c ≡ true
    → read_word quoted (escape_quotes s ++ 39 ∷ c ∷ rest) ≡ some (s, c ∷ rest)
unfolding escape_quotes prepend
read_quoted [] c rest h = read_closing (c ∷ rest) ∙ word_end c rest h
read_quoted (x ∷ s) c rest h =
    let t = escape_quotes s ++ 39 ∷ c ∷ rest in
    let ih = read_quoted s c rest h in
    elim (Bool-cases (x == 39)) [
      | inl e ↦ rw e (
          read_escaped_quote t
          ∙ ap (prepend 39) ih
          ∙ ap (λ y. some (y ∷ s, c ∷ rest)) (sym ((==_iff x 39).0 e)))
      | inr e ↦ rw e (read_quoted_char x t e ∙ ap (prepend x) ih)
    ]

-- The shell reads the quoted text back as one word, whatever bytes it holds, if a blank, a newline
-- or an operator follows.
pub shq_roundtrip :
    (s : List ℕ) (c : ℕ) (rest : List ℕ)
    → ends_word c ≡ true
    → read_word plain (shq s ++ c ∷ rest) ≡ some (s, c ∷ rest)
unfolding shq read_word
shq_roundtrip s c rest h =
    ap (read_word quoted) (append_assoc (escape_quotes s) (39 ∷ []) (c ∷ rest))
    ∙ read_quoted s c rest h
