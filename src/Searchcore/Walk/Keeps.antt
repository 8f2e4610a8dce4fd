-- ===== src/Searchcore/Walk/Keeps.antt =====
-- What visits and walks of internal/searchcore/core.go have gathered.
use one_ssh.Base.{
  ℕ, zero, suc, ◌+◌, Bool, true, false, ◌||◌, List, [], ◌∷◌, ◌++◌, Option, none, some,
  if◌then◌else◌, ltb,
}
use one_ssh.Searchcore.Paths.{join_path, base}
use one_ssh.Searchcore.Ignore.{IgnoreRule, load_ignore_rules, ignored_path}
use one_ssh.Searchcore.Walk.{
  Info, Walker, Visited, go_on, stop, fail_visit, Walked, walking, stopped, failed, Setting,
  sort_infos, after_visit, then_walk, Enter, walk_entry, walk_entries, walk_listed, walk_ruled,
  walk_dir, walk_root, walk_at, walk, ended, max_traversal_depth, is_directory, is_symlink,
  is_regular, is_vcs,
}

module _ {S : Type 0} (P Q : S → Type 0) where
  -- What is gathered is as `P` says while the walk goes on, and as `Q` says once it has ended.
  abbrev pub VisitKeeps : Visited S → Type 0
  VisitKeeps (go_on s) = P s
  VisitKeeps (stop s) = Q s
  VisitKeeps fail_visit = Unit {0}

  abbrev pub WalkKeeps : Walked S → Type 0
  WalkKeeps (walking w) = P w.found
  WalkKeeps (stopped w) = Q w.found
  WalkKeeps failed = Unit {0}

  abbrev pub EndKeeps : Option (Walker S) → Type 0
  EndKeeps none = Unit {0}
  EndKeeps (some w) = Q w.found

module _ {S : Type 0} (P Q : S → Type 0) (set : Setting S) (weaken : (s : S) → P s → Q s)
    (visit-keeps : (full relative : List ℕ) (info : Info) (s : S)
      → P s
      → VisitKeeps P Q (set.visit full relative info s)) where
  after_visit-WalkKeeps :
      (w : Walker S) (v : Visited S) → VisitKeeps P Q v → WalkKeeps P Q (after_visit w v)
  unfolding after_visit
  after_visit-WalkKeeps w (go_on s) k = k
  after_visit-WalkKeeps w (stop s) k = k
  after_visit-WalkKeeps w fail_visit k = tt

  then_walk-WalkKeeps :
      (r : Walked S) (next : Walker S → Walked S)
      → WalkKeeps P Q r
      → ((w : Walker S) → P w.found → WalkKeeps P Q (next w))
      → WalkKeeps P Q (then_walk r next)
  unfolding then_walk
  then_walk-WalkKeeps (walking w) next k f = f w k
  then_walk-WalkKeeps (stopped w) next k f = k
  then_walk-WalkKeeps failed next k f = tt

  if-WalkKeeps :
      (t : Bool) (a b : Walked S)
      → WalkKeeps P Q a
      → WalkKeeps P Q b
      → WalkKeeps P Q (if t then a else b)
  if-WalkKeeps true a b k l = k
  if-WalkKeeps false a b k l = l

  module _ (enter : Enter S)
      (enter-keeps : (full relative : List ℕ) (rules : List IgnoreRule) (w : Walker S)
        → P w.found
        → WalkKeeps P Q (enter full relative rules w)) where
    walk_entry-WalkKeeps :
        (dir relative_dir : List ℕ) (rules : List IgnoreRule) (info : Info) (w : Walker S)
        → P w.found
        → WalkKeeps P Q (walk_entry enter set dir relative_dir rules info w)
    unfolding walk_entry
    walk_entry-WalkKeeps dir relative_dir rules info w k =
        let relative = join_path relative_dir info.name in
        let full = join_path dir info.name in
        let v =
          after_visit-WalkKeeps w (set.visit full relative info w.found)
            (visit-keeps full relative info w.found k) in
        if-WalkKeeps (is_symlink info.kind || ignored_path rules relative (is_directory info.kind))
          _ _ k
          (if-WalkKeeps (is_directory info.kind) _ _
            (if-WalkKeeps (is_vcs info.name) _ _ k (
              then_walk-WalkKeeps (after_visit w (set.visit full relative info w.found))
                (enter full relative rules) v (enter-keeps full relative rules)))
            (if-WalkKeeps (is_regular info.kind) _ _ v k))

    walk_entries-WalkKeeps :
        (dir relative_dir : List ℕ) (rules : List IgnoreRule) (infos : List Info) (w : Walker S)
        → P w.found
        → WalkKeeps P Q (walk_entries enter set dir relative_dir rules infos w)
    unfolding walk_entries
    walk_entries-WalkKeeps dir relative_dir rules [] w k = k
    walk_entries-WalkKeeps dir relative_dir rules (info ∷ infos) w k =
        let counted : Walker S = record w { entries = w.entries + 1 } in
        if-WalkKeeps (set.cancelled (join_path dir info.name)) _ _ tt (
          if-WalkKeeps (ltb set.max_entries counted.entries) _ _ (weaken w.found k) (
            then_walk-WalkKeeps (walk_entry enter set dir relative_dir rules info counted)
              (walk_entries enter set dir relative_dir rules infos)
              (walk_entry-WalkKeeps dir relative_dir rules info counted k)
              (walk_entries-WalkKeeps dir relative_dir rules infos)))

    walk_listed-WalkKeeps :
        (dir relative_dir : List ℕ) (rules : List IgnoreRule) (listed : Option (List Info))
        (w : Walker S)
        → P w.found
        → WalkKeeps P Q (walk_listed enter set dir relative_dir rules listed w)
    walk_listed-WalkKeeps dir relative_dir rules none w k = tt
    walk_listed-WalkKeeps dir relative_dir rules (some infos) w k =
        walk_entries-WalkKeeps dir relative_dir rules (sort_infos infos) w k

    walk_ruled-WalkKeeps :
        (dir relative_dir : List ℕ) (rules : List IgnoreRule) (local : Option (List IgnoreRule))
        (w : Walker S)
        → P w.found
        → WalkKeeps P Q (walk_ruled enter set dir relative_dir rules local w)
    walk_ruled-WalkKeeps dir relative_dir rules none w k = tt
    walk_ruled-WalkKeeps dir relative_dir rules (some local) w k =
        walk_listed-WalkKeeps dir relative_dir (rules ++ local) (set.fs.read_dir dir) w k

  walk_dir-WalkKeeps :
      (levels : ℕ) (dir relative_dir : List ℕ) (rules : List IgnoreRule) (w : Walker S)
      → P w.found
      → WalkKeeps P Q (walk_dir levels set dir relative_dir rules w)
  unfolding walk_dir
  walk_dir-WalkKeeps zero dir relative_dir rules w k = if-WalkKeeps (set.cancelled dir) _ _ tt k
  walk_dir-WalkKeeps (suc levels) dir relative_dir rules w k =
      if-WalkKeeps (set.cancelled dir) _ _ tt (
        walk_ruled-WalkKeeps (walk_dir levels set) (walk_dir-WalkKeeps levels) dir relative_dir
          rules (load_ignore_rules set.engine set.fs.open_file dir relative_dir) w k)

  ended-EndKeeps : (r : Walked S) → WalkKeeps P Q r → EndKeeps P Q (ended r)
  ended-EndKeeps (walking w) k = weaken w.found k
  ended-EndKeeps (stopped w) k = k
  ended-EndKeeps failed k = tt

  if-EndKeeps :
      (t : Bool) (a b : Option (Walker S))
      → EndKeeps P Q a
      → EndKeeps P Q b
      → EndKeeps P Q (if t then a else b)
  if-EndKeeps true a b k l = k
  if-EndKeeps false a b k l = l

  walk_root-EndKeeps :
      (root : List ℕ) (info : Info) (w : Walker S)
      → P w.found
      → EndKeeps P Q (walk_root set root info w)
  unfolding walk_root
  walk_root-EndKeeps root info w k = if-EndKeeps (is_symlink info.kind) _ _ (weaken w.found k) (
      if-EndKeeps (is_regular info.kind) _ _
        (ended-EndKeeps (after_visit w (set.visit root (base root) info w.found)) (
          after_visit-WalkKeeps w (set.visit root (base root) info w.found)
            (visit-keeps root (base root) info w.found k)))
        (if-EndKeeps (is_directory info.kind) _ _
          (ended-EndKeeps (walk_dir max_traversal_depth set root [] [] w)
            (walk_dir-WalkKeeps max_traversal_depth root [] [] w k))
          (weaken w.found k)))

  walk_at-EndKeeps :
      (root : List ℕ) (info : Option Info) (s : S) → P s → EndKeeps P Q (walk_at set root info s)
  walk_at-EndKeeps root none s k = tt
  walk_at-EndKeeps root (some info) s k =
      walk_root-EndKeeps root info (record { entries = 0; truncated = false; found = s }) k

  -- The walk keeps what every visit does.
  pub walk-EndKeeps : (root : List ℕ) (s : S) → P s → EndKeeps P Q (walk set root s)
  unfolding walk
  walk-EndKeeps root s k = walk_at-EndKeeps root (set.fs.lstat root) s k
