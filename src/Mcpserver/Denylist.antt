-- ===== src/Mcpserver/Denylist.antt =====
-- internal/mcpserver/denylist.go, with the look-ups of apps.go that it needs: the middleware that
-- hides the disabled tools of an instance and of a token.
pub mod Access
use one_ssh.Base.{
  ℕ, ◌+◌, String, Bool, true, false, not, ◌&&◌, ◌||◌, List, [], ◌∷◌, ◌++◌, Option, none, some,
  if◌then◌else◌, str_eq, any, ◌==◌, length, drop, take, keep, codes, same,
}
use one_ssh.ToolGroups
use one_ssh.ToolGroups.{
  Disabled, Definition, get, hides_tool, all_disabled, union, parse_list, all_groups,
}
use one_ssh.Execx.Bytes.{has_prefix, index_byte}

-- `appEntry`, with its key in the catalog: the tool, which its binding names too.
pub record AppEntry : Type 0 where
  pub tool : String
  pub uri : List ℕ
  pub legacy_uri : List ℕ

-- `appCatalog`.
pub record AppCatalog : Type 0 where
  pub is_enabled : Bool
  pub entries : List AppEntry

-- A request's method, with the parameters that the middleware reads; `none` if they are missing or
-- of another type.
pub data Request : Type 0 where
  call_tool read_resource : Option String → Request
  initialize discover list_tools list_resources list_templates other_method : Request

pub record Resource : Type 0 where
  pub uri : String
  pub name : String

-- The results. Instructions are those that `serverInstructions` writes for the disabled groups, or
-- a text of the SDK; a pointer to a tool or a resource may be nil.
pub data Answer : Type 0 where
  not_authorized : Option String → Answer
  resource_not_found : String → Answer
  instructions : Disabled → Answer
  tools : List (Option String) → Answer
  resources : List (Option Resource) → Answer
  templates : List (Option Resource) → Answer
  other_answer failure : ℕ → Answer

abbrev of_token : ToolGroups.Result Disabled → Disabled
of_token (ToolGroups.ok d) = d
of_token ToolGroups.unknown_group = all_disabled

-- What the token of the request disables: nothing without a token, and everything if its list
-- cannot be read.
unfoldable pub token_disabled : Option (List (List ℕ)) → Disabled
token_disabled none = []
token_disabled (some names) = of_token (parse_list names)

-- `effectiveDisabled`.
unfoldable pub effective_disabled : Disabled → Option (List (List ℕ)) → Disabled
unfolding token_disabled
effective_disabled instance_disabled token = union (instance_disabled ∷ token_disabled token ∷ [])

-- `strings.TrimPrefix`.
unfoldable pub trim_prefix : List ℕ → List ℕ → List ℕ
trim_prefix s prefix = if has_prefix prefix s then drop (length prefix) s else s

unfoldable pub find_tool : List ℕ → List AppEntry → Option AppEntry
find_tool tool [] = none
find_tool tool (e ∷ es) = if same (codes e.tool) tool then some e else find_tool tool es

abbrev if_current : List ℕ → Option AppEntry → Option AppEntry
if_current uri none = none
if_current uri (some e) = if same e.legacy_uri uri then some e else none

abbrev after_slash : List ℕ → List AppEntry → List ℕ → Option ℕ → Option AppEntry
after_slash uri entries rest none = none
after_slash uri entries rest (some i) = if_current uri (find_tool (drop (i + 1) rest) entries)

-- `legacyEntry`.
unfoldable pub legacy_entry : AppCatalog → List ℕ → Option AppEntry
unfolding find_tool trim_prefix
legacy_entry c uri =
    let rest = trim_prefix uri (codes "ui://onessh/legacy/") in
    if same rest uri then none else after_slash uri c.entries rest (index_byte b'/' rest)

unfoldable pub has_visible : Disabled → List AppEntry → Bool
has_visible d [] = false
has_visible d (e ∷ es) = let rest = has_visible d es in if hides_tool d e.tool then rest else true

-- `hasPermittedApp`.
unfoldable pub has_permitted_app : AppCatalog → Disabled → Bool
unfolding has_visible
has_permitted_app c d = if not c.is_enabled then false else has_visible d c.entries

unfoldable pub find_uri : List ℕ → List AppEntry → Option String
find_uri uri [] = none
find_uri uri (e ∷ es) = if same e.uri uri then some e.tool else find_uri uri es

-- Up to the first `?` or `/`, or all of it.
unfoldable pub path_part : List ℕ → List ℕ
path_part [] = []
path_part (c ∷ s) = let rest = path_part s in if c == b'?' || c == b'/' then [] else c ∷ rest

abbrev tool_of : Option AppEntry → Option String
tool_of none = none
tool_of (some e) = some e.tool

unfoldable pub tool_in_path : AppCatalog → List ℕ → Option String
unfolding find_tool path_part trim_prefix
tool_in_path c uri =
    let prefix = codes "ui://onessh/" in
    let rest = path_part (trim_prefix uri prefix) in
    if not (has_prefix prefix uri)
    then none
    else if length rest == 0 || same rest (codes "legacy")
    then none
    else tool_of (find_tool rest c.entries)

abbrev first_of {ℓ} : {A : Type ℓ} → Option A → Option A → Option A
first_of none b = b
first_of (some a) b = some a

-- `toolNameForURI`.
unfoldable pub tool_name_for_uri : AppCatalog → String → Option String
unfolding legacy_entry find_uri tool_in_path
tool_name_for_uri c uri =
    if str_eq uri ""
    then none
    else first_of (tool_of (legacy_entry c (codes uri)))
        (first_of (find_uri (codes uri) c.entries) (tool_in_path c (codes uri)))

abbrev pub is_shown : Disabled → Option String → Bool
is_shown d none = false
is_shown d (some name) = not (hides_tool d name)

-- `filterTools`: nil and hidden tools are left out.
unfoldable pub filter_tools : List (Option String) → Disabled → List (Option String)
filter_tools [] d = []
filter_tools (t ∷ ts) d = if is_shown d t then t ∷ filter_tools ts d else filter_tools ts d

-- `HidesTool` on a name that is a text of bytes.
unfoldable pub hides_text : Disabled → List ℕ → Bool
hides_text d name =
    any (λ def. get d def.group && any (λ t. same (codes t) name) def.tools) all_groups

abbrev shows_named : Disabled → List ℕ → Option String → Bool
shows_named d name (some tool) = str_eq tool "" || not (hides_tool d tool)
shows_named d name none =
    let tool = trim_prefix name (codes "onessh-app-") in length tool == 0 || not (hides_text d tool)

unfoldable pub shows_resource : Disabled → AppCatalog → Option Resource → Bool
unfolding tool_name_for_uri hides_text trim_prefix
shows_resource d c none = false
shows_resource d c (some r) = shows_named d (codes r.name) (tool_name_for_uri c r.uri)

-- `filterResources`.
unfoldable pub filter_resources :
    List (Option Resource) → Disabled → AppCatalog → List (Option Resource)
unfolding shows_resource
filter_resources rs d c = keep (shows_resource d c) rs

unfoldable pub shows_template : Disabled → AppCatalog → Option Resource → Bool
unfolding has_permitted_app
shows_template d c none = false
shows_template d c (some t) = not (str_eq t.name "onessh-app-legacy" && not (has_permitted_app c d))

-- `filterTemplates`.
unfoldable pub filter_templates :
    List (Option Resource) → Disabled → AppCatalog → List (Option Resource)
unfolding shows_template
filter_templates ts d c = keep (shows_template d c) ts

-- What is changed of an answer to a method, on the way out.
unfoldable pub rewrite : Disabled → AppCatalog → Request → Answer → Answer
unfolding filter_tools filter_resources filter_templates
rewrite d c initialize (instructions i) = instructions d
rewrite d c discover (instructions i) = instructions d
rewrite d c list_tools (tools ts) = tools (filter_tools ts d)
rewrite d c list_resources (resources rs) = resources (filter_resources rs d c)
rewrite d c list_templates (templates ts) = templates (filter_templates ts d c)
rewrite d c r a = a

-- The answer, and the tools whose refusal is written to the audit log.
abbrev pub Served : Type 0
Served = Answer × List String

-- `tools/call`; a name that cannot be read is the empty text.
unfoldable pub serve_call : Disabled → Answer → Option String → Served
serve_call d next none = (not_authorized none, "(unparseable)" ∷ [])
serve_call d next (some name) =
    if str_eq name ""
    then (not_authorized none, "(unparseable)" ∷ [])
    else if hides_tool d name
    then (not_authorized (some name), name ∷ [])
    else (next, [])

abbrev serve_card : Disabled → Answer → String → Option String → Served
serve_card d next uri none = (next, [])
serve_card d next uri (some tool) =
    if hides_tool d tool then (resource_not_found uri, tool ∷ []) else (next, [])

-- `resources/read`.
unfoldable pub serve_read : Disabled → AppCatalog → Answer → Option String → Served
unfolding tool_name_for_uri
serve_read d c next none = (next, [])
serve_read d c next (some uri) = serve_card d next uri (tool_name_for_uri c uri)

unfoldable pub serve_method : Disabled → AppCatalog → (Request → Answer) → Request → Served
unfolding serve_call serve_read rewrite
serve_method d c next (call_tool name) = serve_call d (next (call_tool name)) name
serve_method d c next (read_resource uri) = serve_read d c (next (read_resource uri)) uri
serve_method d c next r = (rewrite d c r (next r), [])

-- The handler that `installTokenDenylist` puts before `next`.
unfoldable pub serve :
    Disabled → AppCatalog → Option (List (List ℕ)) → (Request → Answer) → Request → Served
unfolding effective_disabled serve_method
serve instance_disabled c token next r =
    let d = effective_disabled instance_disabled token in
    if length d == 0 then (next r, []) else serve_method d c next r
