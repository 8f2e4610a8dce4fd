-- ===== src/Searchcore/Walk.antt =====
-- `searchWalker` of internal/searchcore/core.go: the walk over a tree of files, which hands every
-- directory and file that is not ignored to a visitor.
pub mod Keeps
use one_ssh.Base.{
  ℕ, zero, suc, ◌+◌, Bool, true, false, not, ◌&&◌, ◌||◌, List, [], ◌∷◌, ◌++◌, Option, none, some,
  if◌then◌else◌, ltb, ◌==◌, length, drop, codes, same,
}
use one_ssh.Execx.Bytes.{has_prefix}
use one_ssh.Execx.Shell.{text_lt}
use one_ssh.Searchcore.Paths.{trim_prefix, join_path, base, is_abs, clean}
use one_ssh.Searchcore.Glob.{Engine}
use one_ssh.Searchcore.Ignore.{IgnoreRule, FileRead, load_ignore_rules, ignored_path}

pub data Kind : Type 0 where
  regular directory symlink irregular : Kind

-- What the walk reads of an `os.FileInfo`.
pub record Info : Type 0 where
  pub name : List ℕ
  pub kind : Kind
  pub size : ℕ

-- The interface `FS`; `none` is an error.
pub record Fs : Type 0 where
  pub getwd : Option (List ℕ)
  pub lstat : List ℕ → Option Info
  pub read_dir : List ℕ → Option (List Info)
  pub open_file : List ℕ → FileRead

-- `MaxTraversalEntries` and `MaxTraversalDepth`.
abbrev pub max_traversal_entries : ℕ
max_traversal_entries = 100000

abbrev pub max_traversal_depth : ℕ
max_traversal_depth = 128

-- `searchWalker`, with what its visitor has gathered.
pub record Walker (S : Type 0) : Type 0 where
  pub entries : ℕ
  pub truncated : Bool
  pub found : S

-- A visit goes on, stops the walk, or fails.
pub data Visited (S : Type 0) : Type 0 where
  go_on stop : S → Visited S
  fail_visit : Visited S

-- The walk goes on, has stopped (`errWalkStopped`), or has failed.
pub data Walked (S : Type 0) : Type 0 where
  walking stopped : Walker S → Walked S
  failed : Walked S

-- What does not change during a walk. `cancelled` tells whether the context has ended when a path
-- is reached.
pub record Setting (S : Type 0) : Type 0 where
  pub fs : Fs
  pub engine : Engine
  pub max_entries : ℕ
  pub cancelled : List ℕ → Bool
  pub visit : List ℕ → List ℕ → Info → S → Visited S

insert_info : Info → List Info → List Info
insert_info x [] = x ∷ []
insert_info x (y ∷ ys) = if text_lt y.name x.name then y ∷ insert_info x ys else x ∷ y ∷ ys

-- `sort.Slice` by name; the names of a directory differ.
unfoldable pub sort_infos : List Info → List Info
unfolding insert_info
sort_infos [] = []
sort_infos (x ∷ xs) = insert_info x (sort_infos xs)

abbrev is_symlink : Kind → Bool
is_symlink symlink = true
is_symlink k = false

abbrev is_directory : Kind → Bool
is_directory directory = true
is_directory k = false

abbrev pub is_regular : Kind → Bool
is_regular regular = true
is_regular k = false

-- `.git`, `.hg` and `.svn` are not entered.
abbrev is_vcs : List ℕ → Bool
is_vcs name = same name (codes ".git") || same name (codes ".hg") || same name (codes ".svn")

-- `walkDir` of a directory inside, as the loop calls it: its path, its relative path, its rules.
abbrev pub Enter : Type 0 → Type 0
Enter S = List ℕ → List ℕ → List IgnoreRule → Walker S → Walked S

module _ {S : Type 0} where
  -- What a visit makes of the walk.
  unfoldable pub after_visit : Walker S → Visited S → Walked S
  after_visit w (go_on s) = walking (record w { found = s })
  after_visit w (stop s) = stopped (record w { found = s; truncated = true })
  after_visit w fail_visit = failed

  -- The walk goes on where it has neither stopped nor failed.
  unfoldable pub then_walk : Walked S → (Walker S → Walked S) → Walked S
  then_walk (walking w) next = next w
  then_walk (stopped w) next = stopped w
  then_walk failed next = failed

  -- The body of the loop, once the entry is counted.
  unfoldable pub walk_entry :
      Enter S → Setting S → List ℕ → List ℕ → List IgnoreRule → Info → Walker S → Walked S
  unfolding after_visit then_walk join_path ignored_path
  walk_entry enter set dir relative_dir rules info w =
      let relative = join_path relative_dir info.name in
      let full = join_path dir info.name in
      let visited = after_visit w (set.visit full relative info w.found) in
      if is_symlink info.kind || ignored_path rules relative (is_directory info.kind)
      then walking w
      else if is_directory info.kind
      then (if is_vcs info.name then walking w else then_walk visited (enter full relative rules))
      else if is_regular info.kind
      then visited
      else walking w

  -- The loop over the entries of a directory.
  unfoldable pub walk_entries :
      Enter S → Setting S → List ℕ → List ℕ → List IgnoreRule → List Info → Walker S → Walked S
  unfolding walk_entry then_walk join_path
  walk_entries enter set dir relative_dir rules [] w = walking w
  walk_entries enter set dir relative_dir rules (info ∷ infos) w =
      let counted = record w { entries = w.entries + 1 } in
      if set.cancelled (join_path dir info.name)
      then failed
      else if ltb set.max_entries counted.entries
      then stopped (record counted { truncated = true })
      else then_walk (walk_entry enter set dir relative_dir rules info counted)
          (walk_entries enter set dir relative_dir rules infos)

  abbrev walk_listed :
      Enter S
      → Setting S
      → List ℕ
      → List ℕ
      → List IgnoreRule
      → Option (List Info)
      → Walker S
      → Walked S
  walk_listed enter set dir relative_dir rules none w = failed
  walk_listed enter set dir relative_dir rules (some infos) w =
      walk_entries enter set dir relative_dir rules (sort_infos infos) w

  abbrev walk_ruled :
      Enter S
      → Setting S
      → List ℕ
      → List ℕ
      → List IgnoreRule
      → Option (List IgnoreRule)
      → Walker S
      → Walked S
  walk_ruled enter set dir relative_dir inherited none w = failed
  walk_ruled enter set dir relative_dir inherited (some local) w =
      walk_listed enter set dir relative_dir (inherited ++ local) (set.fs.read_dir dir) w

  -- `walkDir`, `levels` below the greatest depth: at that depth a directory is not entered.
  unfoldable pub walk_dir : ℕ → Setting S → Enter S
  unfolding walk_entries load_ignore_rules sort_infos
  walk_dir zero set dir relative_dir inherited w =
      if set.cancelled dir then failed else walking (record w { truncated = true })
  walk_dir (suc levels) set dir relative_dir inherited w =
      if set.cancelled dir
      then failed
      else walk_ruled (walk_dir levels set) set dir relative_dir inherited
          (load_ignore_rules set.engine set.fs.open_file dir relative_dir) w

  -- A walk that was stopped has not failed.
  abbrev pub ended : Walked S → Option (Walker S)
  ended (walking w) = some w
  ended (stopped w) = some w
  ended failed = none

  unfoldable pub walk_root : Setting S → List ℕ → Info → Walker S → Option (Walker S)
  unfolding after_visit walk_dir base
  walk_root set root info w =
      if is_symlink info.kind
      then some w
      else if is_regular info.kind
      then ended (after_visit w (set.visit root (base root) info w.found))
      else if is_directory info.kind
      then ended (walk_dir max_traversal_depth set root [] [] w)
      else some w

  abbrev walk_at : Setting S → List ℕ → Option Info → S → Option (Walker S)
  walk_at set root none s = none
  walk_at set root (some info) s =
      walk_root set root info (record { entries = 0; truncated = false; found = s })

  -- `walk`, of a new walker.
  unfoldable pub walk : Setting S → List ℕ → S → Option (Walker S)
  unfolding walk_root
  walk set root s = walk_at set root (set.fs.lstat root) s

abbrev resolve_from : Option (List ℕ) → List ℕ → Option (List ℕ)
resolve_from none name = none
resolve_from (some cwd) name = some (
    clean (
      if same name (codes "~")
      then cwd
      else if has_prefix (codes "~/") name
      then join_path cwd (trim_prefix name (codes "~/"))
      else if not (is_abs name)
      then join_path cwd name
      else name))

-- `resolveSearchRoot`.
unfoldable pub resolve_search_root : Fs → List ℕ → Option (List ℕ)
unfolding clean join_path trim_prefix
resolve_search_root fs name = resolve_from fs.getwd name
