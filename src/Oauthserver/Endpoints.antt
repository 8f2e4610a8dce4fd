-- ===== src/Oauthserver/Endpoints.antt =====
-- internal/oauthserver/handlers.go: the registration of clients, the decision of an administrator, and
-- the token endpoint, over the store. Random values come with a request; `none` is an error of the
-- source of random bytes.
use one_ssh.Base.{
  ℕ, ◌+◌, String, Bool, not, ◌&&◌, ◌||◌, List, [], ◌∷◌, ◌++◌, Option, none, some, if◌then◌else◌,
  str_eq, any, ltb, length, ◌==◌, text_trim, find_first, byte_length, text_append,
}
use one_ssh.ToolGroups
use one_ssh.Store.{CodeRow, Db, Result, ok, err, Faults, read, insert_row}
use one_ssh.Store.Hosts.{Host, Inventory}
use one_ssh.Store.Oauth.{create_code}
use one_ssh.Oauthserver.{
  ◌>>=◌, Library, Form, Reply, oauth_error, api_error, denied, registered, redirected, Checked,
  fine, refused, demand, given, contains, validate_redirect_uri, validate_optional_uri, OauthClient,
  AuthorizationRequest, parse_authorization_request,
}

-- The tables, with that of the registered clients.
pub record World : Type 0 where
  pub clients : List OauthClient
  pub tables : Inventory

-- What a request runs on: which statements fail, the time, the resource of this server, and the random
-- values; `name_of` is the name of an access token, made of the client's id and the token's end.
pub record Setting : Type 0 where
  pub lib : Library
  pub fails : Faults
  pub now : ℕ
  pub resource : String
  pub random : ℕ → Option String
  pub name_of : String → String → String

-- `codeLifetime`, `tokenLifetime` and `refreshLifetime`, in seconds.
abbrev pub code_lifetime : ℕ
code_lifetime = 300

abbrev pub token_lifetime : ℕ
token_lifetime = 3600

abbrev pub refresh_lifetime : ℕ
refresh_lifetime = 2592000

-- `clientRegistrationRequest`.
pub record Registration : Type 0 where
  pub redirect_uris : List String
  pub auth_method : String
  pub grant_types : List String
  pub response_types : List String
  pub client_name : String
  pub client_uri : String

-- The loop over the redirect URIs.
unfoldable pub redirects_from : Library → List String → List String → Checked (List String)
unfolding validate_redirect_uri
redirects_from lib out [] = fine out
redirects_from lib out (uri ∷ rest) =
    let more = redirects_from lib (if contains out uri then out else out ++ uri ∷ []) rest in
    if validate_redirect_uri lib uri then more else refused (oauth_error 400 "invalid_redirect_uri")

-- The checks of `RegisterClient` that come after those on the redirect URIs.
unfoldable pub check_metadata : Library → Registration → Checked (Unit {0})
unfolding text_trim validate_optional_uri byte_length
check_metadata lib input = do
  c ←
      demand (str_eq input.auth_method "" || str_eq input.auth_method "none")
        (oauth_error 400 "invalid_client_metadata")
  d ←
      demand (length input.grant_types == 0 || contains input.grant_types "authorization_code")
        (oauth_error 400 "invalid_client_metadata")
  e ←
      demand (length input.response_types == 0 || contains input.response_types "code")
        (oauth_error 400 "invalid_client_metadata")
  f ←
      demand (not (ltb 200 (byte_length (text_trim input.client_name))))
        (oauth_error 400 "invalid_client_metadata")
  demand (validate_optional_uri lib input.client_uri) (oauth_error 400 "invalid_client_metadata")

-- The checks of `RegisterClient`, with the redirect URIs that are kept.
unfoldable pub check_registration : Library → Registration → Checked (List String)
unfolding redirects_from check_metadata
check_registration lib input = do
  a ←
      demand (not (length input.redirect_uris == 0) && not (ltb 10 (length input.redirect_uris)))
        (oauth_error 400 "invalid_redirect_uri")
  uris ← redirects_from lib [] input.redirect_uris
  b ← check_metadata lib input
  fine uris

abbrev pub new_client : Setting → Registration → List String → String → OauthClient
new_client s input uris id = record {
  client_id = id;
  client_name =
      if str_eq (text_trim input.client_name) ""
      then "未命名 MCP 客户端"
      else text_trim input.client_name;
  client_uri = input.client_uri;
  redirect_uris = uris;
  created_at = s.now;
}

-- `CreateOAuthClient`; the id is the primary key.
unfoldable pub create_client : Setting → OauthClient → World → Reply × World
create_client s client w =
    if s.fails insert_row || any (λ c. str_eq c.client_id client.client_id) w.clients
    then (oauth_error 500 "server_error", w)
    else (
      registered client.client_id client.redirect_uris,
      record w { clients = client ∷ w.clients },
    )

unfoldable pub finish_registration :
    Setting → Registration → World → Checked (List String) → Reply × World
unfolding create_client text_trim
finish_registration s input w (refused r) = (r, w)
finish_registration s input w (fine uris) = elim (s.random 0) [
  | none ↦ (oauth_error 500 "server_error", w)
  | some id ↦ create_client s (new_client s input uris id) w
]

-- `RegisterClient`.
unfoldable pub register_client : Setting → Registration → World → Reply × World
unfolding check_registration finish_registration
register_client s input w = finish_registration s input w (check_registration s.lib input)

-- `authorizationDecision`, its query parsed. A host id that is not positive is 0 here.
pub record Decision : Type 0 where
  pub query : Form
  pub decision : String
  pub all_hosts : Bool
  pub manage_hosts : Bool
  pub host_ids : List ℕ
  pub disabled_tools : List (List ℕ)

-- `GetOAuthClient`.
unfoldable pub get_client : Faults → String → List OauthClient → Option OauthClient
get_client fails id clients =
    if fails read then none else find_first (λ c. str_eq c.client_id id) clients

-- `ValidateHostIDs`.
unfoldable pub validate_host_ids : Faults → List Host → List ℕ → List ℕ → Option (List ℕ)
validate_host_ids fails hosts out [] = some out
validate_host_ids fails hosts out (id ∷ ids) =
    let seen = any (λ i. i == id) out in
    let more = validate_host_ids fails hosts (if seen then out else out ++ id ∷ []) ids in
    if id == 0
    then none
    else if seen
    then more
    else if fails read || not (any (λ h. h.id == id) hosts)
    then none
    else more

-- The hosts of a decision that approves.
unfoldable pub decided_hosts : Faults → Decision → List Host → Checked (List ℕ)
unfolding validate_host_ids
decided_hosts fails d hosts = if d.all_hosts then fine [] else (do
  ids ← given (validate_host_ids fails hosts [] d.host_ids) (api_error 400)
  some_host ← demand (not (length ids == 0) || d.manage_hosts) (api_error 400)
  fine ids)

-- `toolgroups.NormalizeList`, its error a bad request.
unfoldable pub decided_tools : List (List ℕ) → Checked (List (List ℕ))
unfolding ToolGroups.normalize_list
decided_tools names = elim (ToolGroups.normalize_list names) [
  | ToolGroups.ok normalized ↦ fine normalized
  | ToolGroups.unknown_group ↦ refused (api_error 400)
]

-- `strings.Join`, with a space.
unfoldable pub join_scopes : List String → String
unfolding text_append
join_scopes [] = ""
join_scopes (scope ∷ []) = scope
join_scopes (scope ∷ scopes) = text_append scope (text_append " " (join_scopes scopes))

-- The row of the code that an approval makes.
unfoldable pub decided_code :
    Setting → Decision → AuthorizationRequest → List ℕ → List (List ℕ) → String → CodeRow
unfolding join_scopes
decided_code s d request ids tools code = record {
  code_hash = s.lib.token_hash code;
  client_id = request.client.client_id;
  redirect_uri = request.redirect_uri;
  resource = request.resource;
  code_challenge = request.code_challenge;
  scope = join_scopes request.scopes;
  all_hosts = d.all_hosts;
  manage_hosts = d.manage_hosts;
  disabled_tools = tools;
  host_ids = ids;
  expires_at = s.now + code_lifetime;
  created_at = s.now;
  used_at = none;
  grant_id = none;
}

-- The checks of `AuthorizationDecision`, up to the row that it inserts and the code in clear.
unfoldable pub check_decision : Setting → Decision → World → Checked (String × CodeRow)
unfolding parse_authorization_request get_client decided_hosts decided_tools decided_code
check_decision s d w = do
  request ←
      parse_authorization_request s.lib s.resource d.query
        (get_client s.fails (d.query "client_id") w.clients)
  a ← demand (not (str_eq d.decision "deny")) (denied request.redirect_uri)
  b ← demand (str_eq d.decision "approve") (api_error 400)
  ids ← decided_hosts s.fails d w.tables.hosts
  tools ← decided_tools d.disabled_tools
  code ← given (s.random 0) (api_error 500)
  fine (code, decided_code s d request ids tools code)

abbrev pub with_oauth : Db → World → World
with_oauth db w = record w { tables = record w.tables { oauth = db } }

abbrev pub answer_code : String → CodeRow → World → Result (Unit {0}) × Db → Reply × World
answer_code code row w (err e, db) = (api_error 500, with_oauth db w)
answer_code code row w (ok u, db) = (redirected row.redirect_uri "code" code, with_oauth db w)

unfoldable pub finish_decision : Setting → World → Checked (String × CodeRow) → Reply × World
unfolding create_code
finish_decision s w (refused r) = (r, w)
finish_decision s w (fine (code, row)) =
    answer_code code row w (create_code s.fails row w.tables.oauth)

-- `AuthorizationDecision`.
unfoldable pub authorization_decision : Setting → Decision → World → Reply × World
unfolding check_decision finish_decision
authorization_decision s d w = finish_decision s w (check_decision s d w)
