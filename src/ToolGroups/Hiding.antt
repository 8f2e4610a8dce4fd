-- ===== src/ToolGroups/Hiding.antt =====
-- `HidesTool` of internal/toolgroups/toolgroups.go.
use one_ssh.ToolGroups.{
  Group, Definition, Disabled, all_groups, get, hides_in, hides_tool, all_disabled,
}
use one_ssh.ToolGroups.Sets.{get-all_disabled}
use one_ssh.Base.{
  String, ◌≡◌, refl, ap, ◌∙◌, Bool, true, false, not, ◌||◌, ◌&&◌, List, [], ◌∷◌, ◌++◌, any,
  any-append, arith, str_eq, eq_iff, if◌then◌else◌, Option, none, some,
}

abbrev pub holds : String → List String → Bool
holds name tools = any (λ tool. str_eq tool name) tools

-- The group that a tool belongs to: the first that lists it.
pub owner : String → List Definition → Option Group
owner name [] = none
owner name (def ∷ defs) = if holds name def.tools then some def.group else owner name defs

abbrev hidden_by : Disabled → Option Group → Bool
hidden_by d none = false
hidden_by d (some g) = get d g

abbrev tools_of : List Definition → List String
tools_of [] = []
tools_of (def ∷ defs) = def.tools ++ tools_of defs

abbrev overlap : List String → List String → Bool
overlap xs ys = any (λ x. holds x ys) xs

abbrev are_disjoint : List Definition → Bool
are_disjoint [] = true
are_disjoint (def ∷ defs) = not (overlap def.tools (tools_of defs)) && are_disjoint defs

holds-overlap :
    (name : String) (xs ys : List String)
    → holds name xs ≡ true
    → holds name ys ≡ true
    → overlap xs ys ≡ true
holds-overlap name [] ys h k = cc
holds-overlap name (x ∷ xs) ys h k = ground (arith, eq_iff x name, holds-overlap name xs ys)

hides_in_unlisted :
    (d : Disabled) (name : String) (defs : List Definition)
    → holds name (tools_of defs) ≡ false
    → hides_in d name defs ≡ false
unfolding hides_in
hides_in_unlisted d name [] h = refl
hides_in_unlisted d name (def ∷ defs) h = ground (
  arith,
  any-append (λ (tool : String). str_eq tool name) def.tools (tools_of defs),
  hides_in_unlisted d name defs,
)

hides_in-owner :
    (d : Disabled) (name : String) (defs : List Definition)
    → are_disjoint defs ≡ true
    → hides_in d name defs ≡ hidden_by d (owner name defs)
unfolding hides_in owner
hides_in-owner d name [] h = refl
hides_in-owner d name (def ∷ defs) h = ground (
  arith,
  hides_in-owner d name defs,
  hides_in_unlisted d name defs,
  holds-overlap name def.tools (tools_of defs),
)

hidden_by_empty : (o : Option Group) → hidden_by [] o ≡ false
unfolding get
hidden_by_empty none = refl
hidden_by_empty (some g) = refl

-- A tool is hidden exactly when the group that lists it is disabled; a name that no group lists
-- never is.
pub hides_tool-owner :
    (d : Disabled) (name : String)
    → hides_tool d name ≡ (elim (owner name all_groups) [ none ↦ false | some g ↦ get d g ])
unfolding hides_tool
hides_tool-owner [] name = ground (arith, hidden_by_empty (owner name all_groups))
hides_tool-owner (x ∷ d) name = ground (arith, hides_in-owner (x ∷ d) name all_groups refl)

owner-all_disabled :
    (name : String) (defs : List Definition)
    → hidden_by all_disabled (owner name defs) ≡ holds name (tools_of defs)
unfolding owner
owner-all_disabled name [] = refl
owner-all_disabled name (def ∷ defs) = ground (
  arith,
  any-append (λ (tool : String). str_eq tool name) def.tools (tools_of defs),
  owner-all_disabled name defs,
  get-all_disabled def.group,
)

any-holds :
    (name : String) (defs : List Definition)
    → holds name (tools_of defs) ≡ any (λ def. holds name def.tools) defs
any-holds name [] = refl
any-holds name (def ∷ defs) =
    any-append (λ (tool : String). str_eq tool name) def.tools (tools_of defs)
    ∙ ap (◌||◌ (holds name def.tools)) (any-holds name defs)

-- With every group disabled, exactly the tools that some group lists are hidden.
pub hides_tool-all_disabled :
    (name : String) → hides_tool all_disabled name ≡ any (λ def. holds name def.tools) all_groups
unfolding hides_tool all_disabled
hides_tool-all_disabled name =
    hides_in-owner all_disabled name all_groups refl
    ∙ owner-all_disabled name all_groups
    ∙ any-holds name all_groups
