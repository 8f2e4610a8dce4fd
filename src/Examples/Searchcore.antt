-- ===== src/Examples/Searchcore.antt =====
-- internal/searchcore/core.go at concrete inputs.
use one_ssh.Base.{
  ℕ, true, false, ◌≡◌, refl, List, [], ◌∷◌, codes, some, same, arith, split, trim_space, ◌||◌, ◌&&◌,
  if◌then◌else◌,
}
use one_ssh.Execx.Bytes.{has_prefix}
use one_ssh.Execx.Shell.{text_lt}
use one_ssh.Execx.Pages.{rune_size}
use one_ssh.Searchcore.Glob.{Engine, glob_expression}
use one_ssh.Searchcore.Paths.{clean}
use one_ssh.Searchcore.Ignore.{IgnoreRule, missing, contents, ignored_path}
use one_ssh.Searchcore.Ignore.Decided.{Decides, ignored_path-Decides}
use one_ssh.Searchcore.Walk.{regular, directory, Info, Fs}
use one_ssh.Searchcore.Find.{FindResult, find}
use one_ssh.Searchcore.Find.Bounds.{IsBounded, find-IsBounded}

-- An engine that knows the expressions of two globs.
abbrev engine : Engine
engine e = some (λ s. same e (codes "^.*$") || (same e (codes "^skip$") && same s (codes "skip")))

abbrev file : List ℕ → Info
file name = record { name = name; kind = regular; size = 1 }

-- /h holds `b`, `a`, `skip` and a file of ignore rules.
abbrev tree : Fs
tree = record {
  getwd = some (codes "/h");
  lstat = λ p. some (record { name = codes "h"; kind = directory; size = 0 });
  read_dir = λ p. some (file (codes "b") ∷ file (codes "skip") ∷ file (codes "a") ∷ []);
  open_file = λ p. if same p (codes "/h/.gitignore") then contents (codes "skip") else missing;
}

glob_text : glob_expression (codes "**/*.[!a]?") ≡ some (codes "^(?:.*/)?[^/]*\\.[^a][^/]$")
unfolding glob_expression
glob_text = refl

clean_path : clean (codes "/a/./b/../../../c/") ≡ codes "/c"
unfolding clean split
clean_path = refl

abbrev result : FindResult
result = record { paths = codes "a" ∷ codes "b" ∷ []; is_truncated = true; output_bytes = 72 }

find_two : find tree engine (λ p. false) (codes "**") (codes "~") 2 ≡ some result
unfolding find has_prefix split trim_space text_lt rune_size
find_two = refl

find-IsBounded_example : IsBounded 2 result
find-IsBounded_example =
    find-IsBounded 2 tree engine (λ p. false) (codes "**") (codes "~") result (omega arith) find_two

-- `skip`, and later `!skip`.
abbrev rules : List IgnoreRule
rules =
    record {
      base_dir = [];
      test = same (codes "skip");
      basename_only = true;
      directory = false;
      negated = false;
    }
    ∷ record {
      base_dir = codes "d";
      test = same (codes "skip");
      basename_only = true;
      directory = false;
      negated = true;
    }
    ∷ []

ignored_path-Decides_example :
    Decides rules (codes "d/skip") false false (ignored_path rules (codes "d/skip") false)
ignored_path-Decides_example = ignored_path-Decides rules (codes "d/skip") false
