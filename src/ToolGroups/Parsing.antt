-- ===== src/ToolGroups/Parsing.antt =====
-- `ParseList` of internal/toolgroups/toolgroups.go: which lists it accepts, and what they disable.
use one_ssh.ToolGroups.{
  Group, hosts, exec, fanout, jobs, files, grep_find, monitor, image, memory, Definition, Disabled,
  ok, unknown_group, group_name, group_eq, all_groups, get, assign, find_group, lookup, parse_from,
  parse_list,
}
use one_ssh.ToolGroups.Sets.{group_eq_iff, get-assign, IsMap, assign-IsMap}
use one_ssh.Base.{
  ℕ, ◌≡◌, ◌≢◌, refl, sym, ap, subst, ◌∙◌, ◌↔◌, Bool, true, false, not, ◌||◌, ◌&&◌, List, [], ◌∷◌,
  any, arith, if◌then◌else◌, none, some, inl, inr, Bool-cases, Option-cases, length, ◌==◌, codes,
  same, same_eq, same_refl, same_iff, trim_space, to_lower,
}

-- What a field of the list names: its text, trimmed and in lower case.
abbrev pub normalise : List ℕ → List ℕ
normalise field = to_lower (trim_space field)

-- The field names the group.
abbrev pub denotes : List ℕ → Group → Bool
denotes field g = same (codes (group_name g)) (normalise field)

of_codes : List ℕ → Group
of_codes s =
    if same s (codes "hosts")
    then hosts
    else if same s (codes "exec")
    then exec
    else if same s (codes "fanout")
    then fanout
    else if same s (codes "jobs")
    then jobs
    else if same s (codes "files")
    then files
    else if same s (codes "search")
    then grep_find
    else if same s (codes "monitor")
    then monitor
    else if same s (codes "image")
    then image
    else memory

of_codes-group_name : (g : Group) → of_codes (codes (group_name g)) ≡ g
unfolding of_codes group_name
of_codes-group_name hosts = refl
of_codes-group_name exec = refl
of_codes-group_name fanout = refl
of_codes-group_name jobs = refl
of_codes-group_name files = refl
of_codes-group_name grep_find = refl
of_codes-group_name monitor = refl
of_codes-group_name image = refl
of_codes-group_name memory = refl

same-group_name : (g h : Group) → same (codes (group_name g)) (codes (group_name h)) ≡ group_eq h g
same-group_name g h = elim (Bool-cases (group_eq h g)) [
  | inl e ↦ rw e (rw ((group_eq_iff h g).0 e) (same_refl (codes (group_name g))))
  | inr e ↦ elim (Bool-cases (same (codes (group_name g)) (codes (group_name h)))) [
    | inl s ↦ rw s (
        sym (
          (group_eq_iff h g).1 (
            sym (of_codes-group_name h)
            ∙ ap of_codes (sym (same_eq _ _ s))
            ∙ of_codes-group_name g)))
    | inr s ↦ s ∙ sym e
  ]
]

find_group-some :
    (name : List ℕ) (defs : List Definition) (g : Group)
    → find_group name defs ≡ some g
    → codes (group_name g) ≡ name
unfolding find_group
find_group-some name [] g h = cc
find_group-some name (def ∷ defs) g h =
    ground (arith, same_iff (codes (group_name def.group)) name, find_group-some name defs g)

find_group-none :
    (name : List ℕ) (defs : List Definition)
    → find_group name defs ≡ none
    → any (λ def. same (codes (group_name def.group)) name) defs ≡ false
unfolding find_group
find_group-none name [] h = refl
find_group-none name (def ∷ defs) h = ground (arith, find_group-none name defs)

lookup-some :
    (name : List ℕ) (g h : Group)
    → lookup name ≡ some g
    → same (codes (group_name h)) name ≡ group_eq g h
unfolding lookup
lookup-some name g h e = rw (← find_group-some name all_groups g e) (same-group_name h g)

is_listed :
    (g : Group)
    → any (λ def. same (codes (group_name def.group)) (codes (group_name g))) all_groups ≡ true
unfolding group_name
is_listed hosts = refl
is_listed exec = refl
is_listed fanout = refl
is_listed jobs = refl
is_listed files = refl
is_listed grep_find = refl
is_listed monitor = refl
is_listed image = refl
is_listed memory = refl

none_listed : (name : List ℕ) (g : Group) → lookup name ≡ none → codes (group_name g) ≢ name
unfolding lookup
none_listed name g l e = cc (
  find_group-none name all_groups l,
  subst (λ n. any (λ def. same (codes (group_name def.group)) n) all_groups ≡ true) e (is_listed g),
)

lookup-none :
    (name : List ℕ) (g : Group) → lookup name ≡ none → same (codes (group_name g)) name ≡ false
lookup-none name g l = elim (Bool-cases (same (codes (group_name g)) name)) [
  | inl s ↦ absurd (none_listed name g l (same_eq (codes (group_name g)) name s))
  | inr s ↦ s
]

-- An empty text names no group.
blank_denotes :
    (name : List ℕ) (g : Group)
    → (length name == 0) ≡ true
    → same (codes (group_name g)) name ≡ false
unfolding group_name
blank_denotes (c ∷ name) g e = absurd (ground arith)
blank_denotes [] hosts e = refl
blank_denotes [] exec e = refl
blank_denotes [] fanout e = refl
blank_denotes [] jobs e = refl
blank_denotes [] files e = refl
blank_denotes [] grep_find e = refl
blank_denotes [] monitor e = refl
blank_denotes [] image e = refl
blank_denotes [] memory e = refl

-- What one field does to the rest of the loop.
data Field (field : List ℕ) : Type 0 where
  blank : (length (normalise field) == 0) ≡ true → Field field
  unknown : (length (normalise field) == 0) ≡ false → lookup (normalise field) ≡ none → Field field
  known :
      (g : Group)
      → (length (normalise field) == 0) ≡ false
      → lookup (normalise field) ≡ some g
      → Field field

Field-cases : (field : List ℕ) → Field field
Field-cases field = elim (Bool-cases (length (normalise field) == 0)) [
  | inl b ↦ blank b
  | inr b ↦ elim (Option-cases (lookup (normalise field))) [
    | inl e ↦ unknown b e
    | inr (g, e) ↦ known g b e
  ]
]

parse_from_keeps :
    (d e : Disabled) (fields : List (List ℕ)) (g : Group)
    → parse_from d fields ≡ ok e
    → get e g ≡ (get d g || any (λ field. denotes field g) fields)
unfolding parse_from
parse_from_keeps d e [] g h = ground arith
parse_from_keeps d e (field ∷ fields) g h = elim (Field-cases field) [
  | blank b ↦ ground (arith, parse_from_keeps d e fields g, blank_denotes (normalise field) g b)
  | unknown b l ↦ absurd (ground arith)
  | known k b l ↦ ground (
    arith,
    parse_from_keeps (assign d k) e fields g,
    get-assign d k g,
    lookup-some (normalise field) k g l,
  )
]

parse_from-IsMap :
    (d e : Disabled) (fields : List (List ℕ)) → parse_from d fields ≡ ok e → IsMap d → IsMap e
unfolding parse_from
parse_from-IsMap d e [] h m = subst IsMap (ground arith) m
parse_from-IsMap d e (field ∷ fields) h m = elim (Field-cases field) [
  | blank b ↦ parse_from-IsMap d e fields (ground arith) m
  | unknown b l ↦ absurd (ground arith)
  | known k b l ↦ parse_from-IsMap (assign d k) e fields (ground arith) (assign-IsMap d k m)
]

-- A list that `ParseList` accepts disables exactly the groups that some field of it names, after
-- trimming and lower-casing, and the result holds no group twice.
pub parse_list_lem :
    (fields : List (List ℕ)) (d : Disabled)
    → parse_list fields ≡ ok d
    → ((g : Group) → get d g ≡ any (λ field. denotes field g) fields) × IsMap d
unfolding parse_list get
parse_list_lem fields d h =
    (λ g. parse_from_keeps [] d fields g h, parse_from-IsMap [] d fields h tt)

-- A field that is not blank and names no group.
pub is_unknown : List ℕ → Bool
is_unknown field =
    not (length (normalise field) == 0) && not (any (λ def. denotes field def.group) all_groups)

listed : List ℕ → Bool
listed name = any (λ def. same (codes (group_name def.group)) name) all_groups

listed-none : (name : List ℕ) → lookup name ≡ none → listed name ≡ false
unfolding lookup listed
listed-none name l = find_group-none name all_groups l

listed-some : (name : List ℕ) (g : Group) → lookup name ≡ some g → listed name ≡ true
unfolding lookup listed
listed-some name g l =
    subst (λ n. any (λ def. same (codes (group_name def.group)) n) all_groups ≡ true)
      (find_group-some name all_groups g l) (is_listed g)

is_unknown_lem :
    (field : List ℕ)
    → is_unknown field ≡ (not (length (normalise field) == 0) && not (listed (normalise field)))
unfolding is_unknown listed
is_unknown_lem field = refl

parse_from_fails :
    (d : Disabled) (fields : List (List ℕ))
    → (parse_from d fields ≡ unknown_group) ↔ (any is_unknown fields ≡ true)
unfolding parse_from
parse_from_fails d [] = ground arith
parse_from_fails d (field ∷ fields) = elim (Field-cases field) [
  | blank b ↦ ground (arith, parse_from_fails d fields, is_unknown_lem field)
  | unknown b l ↦ ground (arith, is_unknown_lem field, listed-none (normalise field) l)
  | known k b l ↦ ground (
    arith,
    parse_from_fails (assign d k) fields,
    is_unknown_lem field,
    listed-some (normalise field) k l,
  )
]

-- `ParseList` refuses a list exactly when some field of it is not blank and names no group.
pub parse_list_fails :
    (fields : List (List ℕ)) → (parse_list fields ≡ unknown_group) ↔ (any is_unknown fields ≡ true)
unfolding parse_list
parse_list_fails fields = parse_from_fails [] fields
