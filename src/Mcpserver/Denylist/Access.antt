-- ===== src/Mcpserver/Denylist/Access.antt =====
-- What a client may call, of internal/mcpserver/denylist.go.
use one_ssh.Base.{
  ℕ, String, Bool, true, false, ◌||◌, List, [], ◌∷◌, Option, none, some, if◌then◌else◌, str_eq, any,
  ◌==◌, length, ◌≡◌, refl, ap, ◌∙◌, arith, inl, inr, Bool-cases, eq_iff, subst,
}
use one_ssh.ToolGroups
use one_ssh.ToolGroups.{
  Group, group_name, Disabled, get, hides_tool, all_disabled, union, parse_list, unknown_group,
  all_groups,
}
use one_ssh.ToolGroups.Sets.{IsMap, get-union}
use one_ssh.ToolGroups.Hiding.{owner, holds, hides_tool-owner, hides_tool-all_disabled}
use one_ssh.ToolGroups.Parsing.{parse_list_lem}
use one_ssh.Mcpserver.Denylist.{
  AppCatalog, Request, call_tool, list_tools, Answer, not_authorized, resource_not_found,
  instructions, tools, resources, templates, other_answer, failure, token_disabled, of_token,
  effective_disabled, filter_tools, rewrite, serve_call, serve_method, serve,
}

all_disabled-IsMap : IsMap all_disabled
unfolding all_disabled group_name
all_disabled-IsMap = (refl, (refl, (refl, (refl, (refl, (refl, (refl, (refl, (refl, tt)))))))))

of_token-IsMap :
    (names : List (List ℕ)) (r : ToolGroups.Result Disabled)
    → parse_list names ≡ r
    → IsMap (of_token r)
of_token-IsMap names (ToolGroups.ok d) h = (parse_list_lem names d h).1
of_token-IsMap names ToolGroups.unknown_group h = all_disabled-IsMap

token_disabled-IsMap : (token : Option (List (List ℕ))) → IsMap (token_disabled token)
unfolding token_disabled
token_disabled-IsMap none = tt
token_disabled-IsMap (some names) = of_token-IsMap names (parse_list names) refl

get-effective :
    (i : Disabled) (token : Option (List (List ℕ))) (g : Group)
    → IsMap i
    → get (effective_disabled i token) g ≡ (get i g || get (token_disabled token) g)
unfolding effective_disabled
get-effective i token g m =
    ground
      (arith, get-union (i ∷ token_disabled token ∷ []) g (m, (token_disabled-IsMap token, tt)))

hides_by : Disabled → Option Group → Bool
hides_by d none = false
hides_by d (some g) = get d g

hides_by-effective :
    (i : Disabled) (token : Option (List (List ℕ))) (o : Option Group)
    → IsMap i
    → hides_by (effective_disabled i token) o ≡ (hides_by i o || hides_by (token_disabled token) o)
unfolding hides_by
hides_by-effective i token none m = refl
hides_by-effective i token (some g) m = get-effective i token g m

hides_tool-by :
    (d : Disabled) (name : String) → hides_tool d name ≡ hides_by d (owner name all_groups)
unfolding hides_by
hides_tool-by d name = hides_tool-owner d name

hides_tool-effective :
    (i : Disabled) (token : Option (List (List ℕ))) (name : String)
    → IsMap i
    → hides_tool (effective_disabled i token) name
      ≡ (hides_tool i name || hides_tool (token_disabled token) name)
hides_tool-effective i token name m =
    let a = hides_tool-by (effective_disabled i token) name in
    let b = hides_tool-by i name in
    let c = hides_tool-by (token_disabled token) name in
    let d = hides_by-effective i token (owner name all_groups) m in ground arith

hides_tool-empty :
    (d : Disabled) (name : String) → (length d == 0) ≡ true → hides_tool d name ≡ false
unfolding hides_tool
hides_tool-empty d name h = ground arith

-- A call of a named tool reaches its handler exactly if neither the instance nor the token hides
-- the tool: a token never opens what the instance closed. Otherwise it is refused and written to
-- the audit log. The instance's groups are a map with distinct keys.
pub serve_call_exact :
    (i : Disabled) (c : AppCatalog) (token : Option (List (List ℕ))) (next : Request → Answer)
    (name : String)
    → IsMap i
    → str_eq name "" ≡ false
    → serve i c token next (call_tool (some name)) ≡ (
        if hides_tool i name || hides_tool (token_disabled token) name
        then (not_authorized (some name), name ∷ [])
        else (next (call_tool (some name)), []))
unfolding serve serve_method serve_call
serve_call_exact i c token next name m n =
    let h = hides_tool-effective i token name m in
    let e = hides_tool-empty (effective_disabled i token) name in ground arith

-- With a token whose list of disabled groups cannot be read, a call of any tool that stands in some
-- group is refused, whatever the instance allows.
pub serve_unreadable :
    (i : Disabled) (c : AppCatalog) (names : List (List ℕ)) (next : Request → Answer)
    (name : String)
    → IsMap i
    → str_eq name "" ≡ false
    → parse_list names ≡ unknown_group
    → any (λ def. holds name def.tools) all_groups ≡ true
    → serve i c (some names) next (call_tool (some name)) ≡ (not_authorized (some name), name ∷ [])
unfolding token_disabled
serve_unreadable i c names next name m n u k =
    let h : hides_tool (token_disabled (some names)) name ≡ true =
      ap (λ r. hides_tool (of_token r) name) u ∙ hides_tool-all_disabled name ∙ k in
    let e = serve_call_exact i c (some names) next name m n in ground arith

-- The tool stands in the list.
abbrev pub lists : String → List (Option String) → Bool
lists name [] = false
lists name (none ∷ ts) = lists name ts
lists name (some t ∷ ts) = str_eq t name || lists name ts

filter_tools-shown :
    (d : Disabled) (name : String) (ts : List (Option String))
    → lists name (filter_tools ts d) ≡ true
    → hides_tool d name ≡ false
unfolding filter_tools
filter_tools-shown d name [] h = cc
filter_tools-shown d name (none ∷ ts) h = filter_tools-shown d name ts h
filter_tools-shown d name (some t ∷ ts) h = elim (Bool-cases (hides_tool d t)) [
  | inl e ↦ filter_tools-shown d name ts (ground arith)
  | inr e ↦ elim (Bool-cases (str_eq t name)) [
    | inl s ↦ subst (λ n. hides_tool d n ≡ false) ((eq_iff t name).0 s) e
    | inr s ↦ filter_tools-shown d name ts (ground arith)
  ]
]

rewrite-shown :
    (d : Disabled) (c : AppCatalog) (a : Answer) (shown : List (Option String)) (name : String)
    → rewrite d c list_tools a ≡ tools shown
    → lists name shown ≡ true
    → hides_tool d name ≡ false
unfolding rewrite
rewrite-shown d c (tools ts) shown name h l = filter_tools-shown d name ts (ground arith)
rewrite-shown d c (not_authorized x) shown name h l = cc
rewrite-shown d c (resource_not_found x) shown name h l = cc
rewrite-shown d c (instructions x) shown name h l = cc
rewrite-shown d c (resources x) shown name h l = cc
rewrite-shown d c (templates x) shown name h l = cc
rewrite-shown d c (other_answer x) shown name h l = cc
rewrite-shown d c (failure x) shown name h l = cc

-- A tool that `tools/list` shows to a client can be called by it: the call reaches its handler.
pub serve_listed :
    (i : Disabled) (c : AppCatalog) (token : Option (List (List ℕ))) (next : Request → Answer)
    (shown : List (Option String)) (name : String)
    → str_eq name "" ≡ false
    → (serve i c token next list_tools).0 ≡ tools shown
    → lists name shown ≡ true
    → serve i c token next (call_tool (some name)) ≡ (next (call_tool (some name)), [])
unfolding serve serve_method serve_call
serve_listed i c token next shown name n h l =
    let r = rewrite-shown (effective_disabled i token) c (next list_tools) shown name in
    ground arith
