-- ===== src/Examples/Oauthserver.antt =====
-- internal/oauthserver at concrete inputs: a client registers, an administrator approves, and the
-- client asks for a token.
use one_ssh.Base.{
  String, List, true, false, ◌≡◌, refl, [], ◌∷◌, some, str_eq, if◌then◌else◌, codes, to_lower,
  trim_space, ◌==◌,
}
use one_ssh.ToolGroups.{normalize_list, lookup, names, get, assign, group_eq}
use one_ssh.Oauthserver.{Library, Form, Url, issued, oauth_error, parse_scopes}
use one_ssh.Oauthserver.Endpoints.{World, Setting, Registration, Decision}
use one_ssh.Oauthserver.Tokens.{token}
use one_ssh.Oauthserver.Issued.{IsBacked}
use one_ssh.Oauthserver.Served.{Request, registering, deciding, serve_all}
use one_ssh.Oauthserver.Bound.{IsBound, token-IsBound}
use one_ssh.Examples.Sshpool.{front}

abbrev web_url : Url
web_url = record {
  scheme = "https";
  host = "app";
  hostname = "app";
  path = "/cb";
  raw_query = "";
  fragment = "";
  has_user = false;
}

abbrev library : Library
library = record {
  parse_url =
      λ s. if str_eq s "ftp://x" then some (record web_url { scheme = "ftp" }) else some web_url;
  show_url = λ u. "https://gw/mcp";
  is_localhost = λ h. str_eq h "localhost";
  is_loopback = λ h. str_eq h "127.0.0.1";
  lower = λ s. s;
  is_digest = λ s. true;
  challenge_of = λ v. "digest";
  token_hash = λ s. s;
}

abbrev setting : Setting
setting = record {
  lib = library;
  fails = λ s. false;
  now = 100;
  resource = "https://gw/mcp";
  random = λ n. if n == 0 then some "one" else if n == 1 then some "two" else some "three";
  name_of = λ client t. t;
}

abbrev registration : Registration
registration = record {
  redirect_uris = "https://app/cb" ∷ [];
  auth_method = "none";
  grant_types = [];
  response_types = "code" ∷ [];
  client_name = "app";
  client_uri = "";
}

abbrev query : Form
query key =
    if str_eq key "response_type"
    then "code"
    else if str_eq key "client_id"
    then "one"
    else if str_eq key "redirect_uri"
    then "https://app/cb"
    else if str_eq key "code_challenge"
    then "digest"
    else if str_eq key "code_challenge_method"
    then "S256"
    else if str_eq key "scope"
    then "mcp mcp"
    else ""

abbrev decision : Decision
decision = record {
  query = query;
  decision = "approve";
  all_hosts = false;
  manage_hosts = false;
  host_ids = 1 ∷ 1 ∷ [];
  disabled_tools = codes "exec" ∷ [];
}

-- The code of the approval is "one", the first random value.
abbrev body : String → Form
body uri key =
    if str_eq key "grant_type"
    then "authorization_code"
    else if str_eq key "code"
    then "one"
    else if str_eq key "code_verifier"
    then "abcdefghijklmnopqrstuvwxyzabcdefghijklmnopqrstuvwxyz"
    else if str_eq key "client_id"
    then "one"
    else if str_eq key "redirect_uri"
    then uri
    else ""

abbrev start : World
start = record {
  clients = [];
  tables = record {
    hosts = front ∷ [];
    keys = [];
    jobs = [];
    sessions = [];
    metrics = [];
    memories = [];
    oauth = record { tokens = []; next_id = 1; token_hosts = []; codes = []; refresh = [] };
  };
}

start-IsBacked : IsBacked library start
start-IsBacked = record { safe = refl; backed = refl }

abbrev before : List Request
before = registering setting registration ∷ deciding setting decision ∷ []

scopes_once : parse_scopes " mcp  mcp " ≡ some ("mcp" ∷ [])
unfolding parse_scopes
scopes_once = refl

token_granted :
    (token setting (body "https://app/cb") (serve_all library before start)).0
    ≡ issued "one" "two" "mcp"
unfolding token serve_all normalize_list to_lower trim_space lookup names get assign group_eq
token_granted = refl

token_linked :
    (token setting
      (body "https://app/cb")
      (serve_all library before start)).1.tables.oauth.token_hosts
    ≡ (1, 1) ∷ []
unfolding token serve_all normalize_list to_lower trim_space lookup names get assign group_eq
token_linked = refl

token_elsewhere :
    (token setting (body "https://evil/cb") (serve_all library before start)).0
    ≡ oauth_error 400 "invalid_grant"
unfolding token serve_all normalize_list to_lower trim_space lookup names get assign group_eq
token_elsewhere = refl

token-IsBound_example : IsBound library 100 (body "https://app/cb") (serve_all library before start)
token-IsBound_example =
    token-IsBound library before start setting (body "https://app/cb") "one" "two" "mcp"
      start-IsBacked refl token_granted
