-- ===== src/Oauthserver.antt =====
-- internal/oauthserver/server.go: the checks of the OAuth server on URIs, scopes and requests. The
-- parser of URLs and the hashes of the standard library are a parameter.
pub mod Endpoints
pub mod Tokens
pub mod Issued
pub mod Served
pub mod Bound
use one_ssh.Base.{
  ℕ, String, Bool, true, false, not, ◌&&◌, ◌||◌, List, [], ◌∷◌, ◌++◌, Option, none, some,
  if◌then◌else◌, str_eq, any, all, ltb, leb, codes, text_trim, text_fields, byte_length,
}

-- `url.URL`, with what `Hostname` gives.
pub record Url : Type 0 where
  pub scheme : String
  pub host : String
  pub hostname : String
  pub path : String
  pub raw_query : String
  pub fragment : String
  pub has_user : Bool

-- What the standard library gives: `url.Parse` and `URL.String`, the test of a host name for
-- `localhost` or a loopback address, `strings.ToLower`, whether a text is 32 bytes in raw URL-safe
-- base64, the challenge of a verifier, and the hash of a token.
pub record Library : Type 0 where
  pub parse_url : String → Option Url
  pub show_url : Url → String
  pub is_localhost : String → Bool
  pub is_loopback : String → Bool
  pub lower : String → String
  pub is_digest : String → Bool
  pub challenge_of : String → String
  pub token_hash : String → String

-- `url.Values.Get`.
abbrev pub Form : Type 0
Form = String → String

pub data Reply : Type 0 where
  oauth_error : ℕ → String → Reply
  api_error : ℕ → Reply
  denied : String → Reply
  registered : String → List String → Reply
  redirected : String → String → String → Reply
  issued : String → String → String → Reply

-- A value, or the reply that refuses the request.
pub data Checked {ℓ} (A : Type ℓ) : Type ℓ where
  fine : A → Checked A
  refused : Reply → Checked A

infixl 5 ◌>>=◌
abbrev pub ◌>>=◌ {κ ℓ} : {B : Type κ} {A : Type ℓ} → Checked B → (B → Checked A) → Checked A
refused r >>= rest = refused r
fine value >>= rest = rest value

abbrev pub demand : Bool → Reply → Checked (Unit {0})
demand test r = if test then fine tt else refused r

abbrev pub given {ℓ} : {A : Type ℓ} → Option A → Reply → Checked A
given none r = refused r
given (some a) r = fine a

-- The function `contains`.
abbrev pub contains : List String → String → Bool
contains values target = any (λ v. str_eq v target) values

-- `parseScopes`: every field must be `mcp`, which is kept once.
unfoldable pub scopes_from : List String → List String → Option (List String)
scopes_from out [] = some out
scopes_from out (scope ∷ rest) =
    let more = scopes_from (if contains out scope then out else out ++ scope ∷ []) rest in
    if str_eq scope "mcp" then more else none

unfoldable pub parse_scopes : String → Option (List String)
unfolding text_trim text_fields scopes_from
parse_scopes raw =
    if str_eq (text_trim raw) "" then some ("mcp" ∷ []) else scopes_from [] (text_fields raw)

abbrev is_web : Url → Bool
is_web u = str_eq u.scheme "http" || str_eq u.scheme "https"

-- `normalizeResource`.
unfoldable pub normalize_resource : Library → String → Option String
normalize_resource lib raw = elim (lib.parse_url raw) [
  | none ↦ none
  | some u ↦
      if is_web u
        && not (str_eq u.host "")
        && not u.has_user
        && str_eq u.fragment ""
        && str_eq u.raw_query ""
      then some (lib.show_url (record u { scheme = lib.lower u.scheme; host = lib.lower u.host }))
      else none
]

-- `validateRedirectURI`, of a parsed URL.
unfoldable pub is_redirect_url : Library → Url → Bool
is_redirect_url lib u =
    if str_eq u.scheme "" || str_eq u.host "" || u.has_user || not (str_eq u.fragment "")
    then false
    else if str_eq u.scheme "https"
    then true
    else if not (str_eq u.scheme "http")
    then false
    else lib.is_localhost u.hostname || lib.is_loopback u.hostname

-- `validateRedirectURI`.
unfoldable pub validate_redirect_uri : Library → String → Bool
unfolding is_redirect_url
validate_redirect_uri lib raw = elim (lib.parse_url raw) [
  | none ↦ false
  | some u ↦ is_redirect_url lib u
]

-- `validateOptionalURI`.
unfoldable pub validate_optional_uri : Library → String → Bool
unfolding validate_redirect_uri
validate_optional_uri lib raw = if str_eq raw "" then true else validate_redirect_uri lib raw

abbrev is_verifier_char : ℕ → Bool
is_verifier_char c =
    (leb b'a' c && leb c b'z')
    || (leb b'A' c && leb c b'Z')
    || (leb b'0' c && leb c b'9')
    || any (λ d. leb c d && leb d c) (b'-' ∷ b'.' ∷ b'_' ∷ b'~' ∷ [])

-- `validCodeVerifier`.
unfoldable pub valid_code_verifier : String → Bool
unfolding byte_length
valid_code_verifier value =
    if ltb (byte_length value) 43 || ltb 128 (byte_length value)
    then false
    else all is_verifier_char (codes value)

-- A row of `oauth_clients`: `OAuthClient`.
pub record OauthClient : Type 0 where
  pub client_id : String
  pub client_name : String
  pub client_uri : String
  pub redirect_uris : List String
  pub created_at : ℕ

-- `authorizationRequest`.
pub record AuthorizationRequest : Type 0 where
  pub client : OauthClient
  pub redirect_uri : String
  pub resource : String
  pub scopes : List String
  pub state : String
  pub code_challenge : String

-- `parseAuthorizationRequest`; `resource` is that of this server, `client` the row of the client.
unfoldable pub parse_authorization_request :
    Library → String → Form → Option OauthClient → Checked AuthorizationRequest
unfolding normalize_resource parse_scopes
parse_authorization_request lib resource form row = do
  a ← demand (str_eq (form "response_type") "code") (oauth_error 400 "unsupported_response_type")
  client ← given row (oauth_error 400 "invalid_request")
  b ←
      demand (contains client.redirect_uris (form "redirect_uri"))
        (oauth_error 400 "invalid_request")
  c ←
      demand (lib.is_digest (form "code_challenge") && str_eq (form "code_challenge_method") "S256")
        (oauth_error 400 "invalid_request")
  requested ← given (normalize_resource lib (form "resource")) (oauth_error 400 "invalid_target")
  d ← demand (str_eq requested resource) (oauth_error 400 "invalid_target")
  scopes ← given (parse_scopes (form "scope")) (oauth_error 400 "invalid_scope")
  fine (record {
    client = client;
    redirect_uri = form "redirect_uri";
    resource = resource;
    scopes = scopes;
    state = form "state";
    code_challenge = form "code_challenge";
  })
