-- ===== src/ToolGroups.antt =====
-- internal/toolgroups/toolgroups.go: the groups of MCP tools and the sets of disabled groups.
pub mod Sets
pub mod Hiding
pub mod Parsing
pub mod Normalizing
use one_ssh.Base.{
  ℕ, String, Bool, true, false, List, [], ◌∷◌, map, length, any, keep, codes, same, trim_space,
  to_lower, split, str_eq, ◌==◌, if◌then◌else◌, Option, none, some,
}

pub data Group : Type 0 where
  hosts exec fanout jobs files grep_find monitor image memory : Group

-- The text of each `Group` constant; `grep_find` is the constant `Search`.
unfoldable pub group_name : Group → String
group_name hosts = "hosts"
group_name exec = "exec"
group_name fanout = "fanout"
group_name jobs = "jobs"
group_name files = "files"
group_name grep_find = "search"
group_name monitor = "monitor"
group_name image = "image"
group_name memory = "memory"

unfoldable pub group_eq : Group → Group → Bool
unfolding group_name
group_eq a b = str_eq (group_name a) (group_name b)

pub record Definition : Type 0 where
  pub group : Group
  pub tools : List String

abbrev pub all_groups : List Definition
all_groups =
    record {
      group = hosts;
      tools =
          "hosts_list" ∷ "hosts_manage_list" ∷ "host_create" ∷ "host_update" ∷ "host_test"
          ∷ "host_reset_fingerprint" ∷ "host_delete" ∷ [];
    }
    ∷ record { group = exec; tools = "exec" ∷ "session_env" ∷ "output_read" ∷ [] }
    ∷ record { group = fanout; tools = "exec_many" ∷ [] }
    ∷ record {
      group = jobs;
      tools = "job_start" ∷ "job_list" ∷ "job_status" ∷ "job_logs" ∷ "job_kill" ∷ [];
    }
    ∷ record {
      group = files;
      tools = "file_read" ∷ "file_write" ∷ "file_edit" ∷ "file_list" ∷ "file_transfer" ∷ [];
    }
    ∷ record { group = grep_find; tools = "grep" ∷ "find" ∷ [] }
    ∷ record { group = monitor; tools = "host_status" ∷ [] }
    ∷ record { group = image; tools = "image_view" ∷ [] }
    ∷ record {
      group = memory;
      tools =
          "memory_remember" ∷ "memory_recall" ∷ "memory_list" ∷ "memory_update" ∷ "memory_forget"
          ∷ "memory_stats" ∷ "memory_sleep" ∷ [];
    }
    ∷ []

-- The Go map from groups to Booleans, by its entries; a nil map has none.
abbrev pub Disabled : Type 0
Disabled = List (Group × Bool)

-- `d[g]`, false on a missing key.
unfoldable pub get : Disabled → Group → Bool
get [] g = false
get ((h, on) ∷ d) g = if group_eq h g then on else get d g

-- `d[g] = true`.
unfoldable pub assign : Disabled → Group → Disabled
assign [] g = (g, true) ∷ []
assign ((h, on) ∷ d) g = if group_eq h g then (h, true) ∷ d else (h, on) ∷ assign d g

unfoldable pub enabled : Disabled → Group → Bool
enabled d g = if get d g then false else true

name_of : Definition → List ℕ
unfolding group_name
name_of def = codes (group_name def.group)

-- `Disabled.Names`.
unfoldable pub names : Disabled → List (List ℕ)
unfolding name_of
names d = map name_of (keep (λ def. get d def.group) all_groups)

-- The two loops of `HidesTool`.
unfoldable pub hides_in : Disabled → String → List Definition → Bool
hides_in d name [] = false
hides_in d name (def ∷ defs) =
    let rest = hides_in d name defs in
    if get d def.group
    then (if any (λ tool. str_eq tool name) def.tools then true else rest)
    else rest

unfoldable pub hides_tool : Disabled → String → Bool
unfolding hides_in
hides_tool d name = if length d == 0 then false else hides_in d name all_groups

unfoldable pub find_group : List ℕ → List Definition → Option Group
unfolding name_of
find_group name [] = none
find_group name (def ∷ defs) =
    if same (name_of def) name then some def.group else find_group name defs

-- The function `lookup`.
unfoldable pub lookup : List ℕ → Option Group
unfolding find_group
lookup name = find_group name all_groups

pub data Result {ℓ} (A : Type ℓ) : Type ℓ where
  ok : A → Result A
  unknown_group : Result A

unfoldable pub parse_from : Disabled → List (List ℕ) → Result Disabled
parse_from disabled [] = ok disabled
parse_from disabled (field ∷ fields) =
    let name = to_lower (trim_space field) in
    let go_on = parse_from disabled fields in
    if length name == 0 then go_on else elim (lookup name) [
      | none ↦ unknown_group
      | some group ↦ parse_from (assign disabled group) fields
    ]

-- `ParseList` and `parseGroups`.
unfoldable pub parse_list : List (List ℕ) → Result Disabled
unfolding parse_from
parse_list = parse_from []

-- `Parse`.
unfoldable pub parse : List ℕ → Result Disabled
unfolding parse_list
parse spec = parse_list (split b',' spec)

abbrev names_of : Result Disabled → Result (List (List ℕ))
names_of (ok disabled) = ok (names disabled)
names_of unknown_group = unknown_group

unfoldable pub normalize_list : List (List ℕ) → Result (List (List ℕ))
unfolding parse_list
normalize_list group_names = names_of (parse_list group_names)

-- The inner loop of `Union`, over the entries of one part.
unfoldable pub merge : Disabled → Disabled → Disabled
merge out [] = out
merge out ((group, on) ∷ part) = merge (if on then assign out group else out) part

unfoldable pub union_from : Disabled → List Disabled → Disabled
unfolding merge
union_from out [] = out
union_from out (part ∷ parts) = union_from (merge out part) parts

unfoldable pub union : List Disabled → Disabled
unfolding union_from
union = union_from []

unfoldable pub assign_all : Disabled → List Definition → Disabled
assign_all out [] = out
assign_all out (def ∷ defs) = assign_all (assign out def.group) defs

unfoldable pub all_disabled : Disabled
unfolding assign_all assign group_eq
all_disabled = assign_all [] all_groups
