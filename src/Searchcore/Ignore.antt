-- ===== src/Searchcore/Ignore.antt =====
-- `loadIgnoreRules`, `parseIgnoreRules` and `ignoredPath` of internal/searchcore/core.go.
pub mod Decided
use one_ssh.Base.{
  ℕ, Bool, true, false, not, ◌&&◌, ◌||◌, List, [], ◌∷◌, ◌++◌, Option, none, some, if◌then◌else◌,
  ltb, ◌==◌, length, drop, codes, split, trim_space,
}
use one_ssh.Execx.Bytes.{has_prefix}
use one_ssh.Searchcore.Paths.{trim_prefix, trim_suffix, has_suffix, contains_byte, join_path, base}
use one_ssh.Searchcore.Glob.{Regexp, Engine, compile_glob}

-- `ignoreRule`.
pub record IgnoreRule : Type 0 where
  pub base_dir : List ℕ
  pub test : Regexp
  pub basename_only : Bool
  pub directory : Bool
  pub negated : Bool

-- A line without its marks, with what they say.
pub record Line : Type 0 where
  pub text : List ℕ
  pub line_negated : Bool

-- The first two steps on a line that is neither blank nor a comment.
abbrev strip_marks : List ℕ → Line
strip_marks s =
    if has_prefix (codes "\\#") s || has_prefix (codes "\\!") s
    then record { text = drop 1 s; line_negated = false }
    else if has_prefix (codes "!") s
    then record { text = drop 1 s; line_negated = true }
    else record { text = s; line_negated = false }

-- The body of a line, behind the marks, and what is compiled of it.
abbrev rule_body : List ℕ → List ℕ
rule_body s =
    trim_prefix (if has_suffix (codes "/") s then trim_suffix s (codes "/") else s) (codes "/")

-- What becomes of a line: nothing, a rule, or an error.
pub data ParsedLine : Type 0 where
  skipped bad_line : ParsedLine
  parsed_rule : IgnoreRule → ParsedLine

abbrev to_rule : List ℕ → Line → Option Regexp → ParsedLine
to_rule base_dir l none = bad_line
to_rule base_dir l (some test) = parsed_rule (record {
  base_dir = base_dir;
  test = test;
  basename_only = not (contains_byte b'/' (rule_body l.text));
  directory = has_suffix (codes "/") l.text;
  negated = l.line_negated;
})

unfoldable pub parse_line : Engine → List ℕ → List ℕ → ParsedLine
unfolding trim_prefix trim_suffix has_suffix compile_glob
parse_line engine base_dir raw =
    let s = trim_space (trim_suffix raw (codes "\r")) in
    let l = strip_marks s in
    if length s == 0 || has_prefix (codes "#") s
    then skipped
    else if length l.text == 0
    then skipped
    else to_rule base_dir l (compile_glob engine (rule_body l.text))

unfoldable pub parse_lines : Engine → List ℕ → List (List ℕ) → Option (List IgnoreRule)
unfolding parse_line
parse_lines engine base_dir [] = some []
parse_lines engine base_dir (raw ∷ raws) =
    let rest = parse_lines engine base_dir raws in
    elim (parse_line engine base_dir raw) [
      | skipped ↦ rest
      | bad_line ↦ none
      | parsed_rule r ↦ elim rest [ none ↦ none | some rs ↦ some (r ∷ rs) ]
    ]

-- `parseIgnoreRules`.
unfoldable pub parse_ignore_rules : Engine → List ℕ → List ℕ → Option (List IgnoreRule)
unfolding parse_lines
parse_ignore_rules engine contents base_dir = parse_lines engine base_dir (split 10 contents)

-- What opening and reading a file comes to.
pub data FileRead : Type 0 where
  missing broken : FileRead
  contents : List ℕ → FileRead

-- `maxIgnoreFileBytes`.
abbrev pub max_ignore_file_bytes : ℕ
max_ignore_file_bytes = 262144

-- One ignore file: no rules where it is missing.
unfoldable pub rules_of : Engine → List ℕ → FileRead → Option (List IgnoreRule)
unfolding parse_ignore_rules
rules_of engine base_dir missing = some []
rules_of engine base_dir broken = none
rules_of engine base_dir (contents s) =
    if ltb max_ignore_file_bytes (length s) then none else parse_ignore_rules engine s base_dir

unfoldable pub load_files :
    Engine → (List ℕ → FileRead) → List ℕ → List ℕ → List (List ℕ) → Option (List IgnoreRule)
unfolding rules_of join_path
load_files engine open_file directory base_dir [] = some []
load_files engine open_file directory base_dir (name ∷ names) =
    let rest = load_files engine open_file directory base_dir names in
    elim (rules_of engine base_dir (open_file (join_path directory name))) [
      | none ↦ none
      | some rs ↦ elim rest [ none ↦ none | some more ↦ some (rs ++ more) ]
    ]

-- `loadIgnoreRules`.
unfoldable pub load_ignore_rules :
    Engine → (List ℕ → FileRead) → List ℕ → List ℕ → Option (List IgnoreRule)
unfolding load_files
load_ignore_rules engine open_file directory relative_dir =
    load_files engine open_file directory relative_dir
      (codes ".gitignore" ∷ codes ".ignore" ∷ codes ".rgignore" ∷ [])

-- What a rule is tested on.
abbrev candidate : IgnoreRule → List ℕ → List ℕ
candidate r relative =
    let below =
      if length r.base_dir == 0 then relative else trim_prefix relative (r.base_dir ++ b'/' ∷ []) in
    if r.basename_only then base below else below

-- One round of `ignoredPath` reaches the assignment.
unfoldable pub applies : IgnoreRule → List ℕ → Bool → Bool
unfolding trim_prefix base
applies r relative is_directory =
    not (r.directory && not is_directory)
    && (length r.base_dir == 0 || has_prefix (r.base_dir ++ b'/' ∷ []) relative)
    && r.test (candidate r relative)

unfoldable pub ignored_from : Bool → List IgnoreRule → List ℕ → Bool → Bool
unfolding applies
ignored_from ignored [] relative is_directory = ignored
ignored_from ignored (r ∷ rs) relative is_directory =
    ignored_from (if applies r relative is_directory then not r.negated else ignored) rs relative
      is_directory

-- `ignoredPath`.
unfoldable pub ignored_path : List IgnoreRule → List ℕ → Bool → Bool
unfolding ignored_from
ignored_path rules relative is_directory = ignored_from false rules relative is_directory
