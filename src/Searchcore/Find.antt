-- ===== src/Searchcore/Find.antt =====
-- `Find` of internal/searchcore/core.go.
pub mod Bounds
use one_ssh.Base.{
  ℕ, zero, suc, ◌+◌, ◌-◌, Bool, true, false, not, ◌&&◌, ◌||◌, List, [], ◌∷◌, ◌++◌, Option, none,
  some, if◌then◌else◌, ltb, leb, ◌==◌, length, drop, codes,
}
use one_ssh.Searchcore.Paths.{json_length, trim_suffix}
use one_ssh.Searchcore.Glob.{
  Engine, PathMatcher, Compiled, bad_pattern, no_matcher, compiled, compile_path_matcher,
  path_matches,
}
use one_ssh.Searchcore.Walk.{
  Fs, Info, is_regular, Visited, go_on, stop, fail_visit, Setting, Walker, walk,
  resolve_search_root, max_traversal_entries,
}
use one_ssh.Searchcore.Ignore.{FileRead, missing, broken, contents}

-- `MaxOutputBytes`.
abbrev pub max_output_bytes : ℕ
max_output_bytes = 262144

-- `FindResult`, with the count of bytes that `Find` keeps; `engine` and `warning` are not set here.
pub record FindResult : Type 0 where
  pub paths : List (List ℕ)
  pub is_truncated : Bool
  pub output_bytes : ℕ

-- A matcher that is nil lets every path through.
unfoldable pub lets_through : Compiled → List ℕ → List ℕ → Bool
unfolding path_matches
lets_through bad_pattern relative full = true
lets_through no_matcher relative full = true
lets_through (compiled m) relative full = path_matches m relative full

-- The visitor of `Find` on a path that matches.
unfoldable pub find_path : ℕ → List ℕ → FindResult → Visited FindResult
unfolding json_length
find_path limit relative out =
    let bytes = out.output_bytes + (json_length relative + 1) in
    let paths = out.paths ++ relative ∷ [] in
    if ltb max_output_bytes bytes
    then stop (record out { is_truncated = true })
    else if leb limit (length paths)
    then stop (record { paths = paths; is_truncated = true; output_bytes = bytes })
    else go_on (record { paths = paths; is_truncated = out.is_truncated; output_bytes = bytes })

unfoldable pub find_visit : Compiled → ℕ → List ℕ → List ℕ → Info → FindResult → Visited FindResult
unfolding find_path lets_through
find_visit c limit full relative info out =
    if not (lets_through c relative full) then go_on out else find_path limit relative out

abbrev pub find_start : FindResult
find_start = record { paths = []; is_truncated = false; output_bytes = 64 }

abbrev pub finish_find : Option (Walker FindResult) → Option FindResult
finish_find none = none
finish_find (some w) = some (record {
  paths = w.found.paths;
  is_truncated = w.found.is_truncated || w.truncated;
  output_bytes = w.found.output_bytes;
})

-- The walk of `Find`.
abbrev pub find_setting : Fs → Engine → (List ℕ → Bool) → Compiled → ℕ → Setting FindResult
find_setting fs engine cancelled c limit = record {
  fs = fs;
  engine = engine;
  max_entries = max_traversal_entries;
  cancelled = cancelled;
  visit = find_visit c limit;
}

abbrev find_at : Fs → Engine → (List ℕ → Bool) → Compiled → ℕ → Option (List ℕ) → Option FindResult
find_at fs engine cancelled c limit none = none
find_at fs engine cancelled c limit (some root) =
    finish_find (walk (find_setting fs engine cancelled c limit) root find_start)

abbrev find_with : Fs → Engine → (List ℕ → Bool) → Compiled → ℕ → List ℕ → Option FindResult
find_with fs engine cancelled bad_pattern limit name = none
find_with fs engine cancelled no_matcher limit name =
    find_at fs engine cancelled no_matcher limit (resolve_search_root fs name)
find_with fs engine cancelled (compiled m) limit name =
    find_at fs engine cancelled (compiled m) limit (resolve_search_root fs name)

-- `Find`; `none` is an error.
unfoldable pub find : Fs → Engine → (List ℕ → Bool) → List ℕ → List ℕ → ℕ → Option FindResult
unfolding compile_path_matcher walk resolve_search_root find_visit
find fs engine cancelled pattern name limit =
    find_with fs engine cancelled (compile_path_matcher engine pattern true) limit name
