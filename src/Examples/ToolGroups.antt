-- ===== src/Examples/ToolGroups.antt =====
-- internal/toolgroups/toolgroups.go at concrete inputs.
use one_ssh.Base.{
  true, false, ◌≡◌, refl, List, [], ◌∷◌, ℕ, codes, none, some, any, ◌↔◌, to_lower, trim_space,
}
use one_ssh.ToolGroups.{
  Group, exec, files, memory, Disabled, all_groups, get, union, hides_tool, all_disabled, ok,
  unknown_group, parse_list, normalize_list, lookup, group_name, group_eq, assign, names,
}
use one_ssh.ToolGroups.Sets.{IsMap, get-union}
use one_ssh.ToolGroups.Hiding.{owner, holds, hides_tool-owner, hides_tool-all_disabled}
use one_ssh.ToolGroups.Parsing.{denotes, is_unknown, parse_list_lem, parse_list_fails}
use one_ssh.ToolGroups.Normalizing.{normalize_list_idem}

abbrev no_exec : Disabled
no_exec = (exec, true) ∷ (files, false) ∷ []

abbrev no_memory : Disabled
no_memory = (memory, true) ∷ []

-- " Files", "exec", "" and "files".
abbrev fields : List (List ℕ)
fields = codes " Files" ∷ codes "exec" ∷ codes "" ∷ codes "files" ∷ []

abbrev parsed : Disabled
parsed = (files, true) ∷ (exec, true) ∷ []

abbrev normalized : List (List ℕ)
normalized = codes "exec" ∷ codes "files" ∷ []

parse_fields : parse_list fields ≡ ok parsed
unfolding parse_list lookup group_name group_eq assign to_lower trim_space
parse_fields = refl

normalize_fields : normalize_list fields ≡ ok normalized
unfolding normalize_list parse_list lookup group_name group_eq assign names get to_lower trim_space
normalize_fields = refl

get-union_example :
    get (union (no_exec ∷ no_memory ∷ [])) memory
    ≡ any (λ part. get part memory) (no_exec ∷ no_memory ∷ [])
unfolding group_eq group_name
get-union_example =
    get-union (no_exec ∷ no_memory ∷ []) memory ((refl, (refl, tt)), ((refl, tt), tt))

hides_tool-owner_example :
    hides_tool no_exec "output_read"
    ≡ (elim (owner "output_read" all_groups) [ none ↦ false | some g ↦ get no_exec g ])
hides_tool-owner_example = hides_tool-owner no_exec "output_read"

hides_tool-all_disabled_example :
    hides_tool all_disabled "job_kill" ≡ any (λ def. holds "job_kill" def.tools) all_groups
hides_tool-all_disabled_example = hides_tool-all_disabled "job_kill"

parse_list_lem_example :
    ((g : Group) → get parsed g ≡ any (λ field. denotes field g) fields) × IsMap parsed
parse_list_lem_example = parse_list_lem fields parsed parse_fields

parse_list_fails_example :
    (parse_list (codes "exec" ∷ codes "shell" ∷ []) ≡ unknown_group)
    ↔ (any is_unknown (codes "exec" ∷ codes "shell" ∷ []) ≡ true)
parse_list_fails_example = parse_list_fails (codes "exec" ∷ codes "shell" ∷ [])

normalize_list_idem_example : normalize_list normalized ≡ ok normalized
normalize_list_idem_example = normalize_list_idem fields normalized normalize_fields
