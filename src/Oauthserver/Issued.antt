-- ===== src/Oauthserver/Issued.antt =====
-- What stands behind a token of internal/oauthserver/handlers.go: a code, the client that it was made
-- for, and the client's redirect URIs.
use one_ssh.Base.{
  ℕ, String, Bool, true, false, not, ◌&&◌, ◌||◌, List, [], ◌∷◌, ◌++◌, Option, none, some, str_eq,
  any, all, ltb, length, ◌==◌, ◌≡◌, refl, sym, ap, subst, ◌∙◌, arith, Bool-cases, Option-cases, inl,
  inr, find_first, eq_refl,
}
use one_ssh.Store.{insert_row, insert_token, CodeRow, Db, Result, ok, err, Faults}
use one_ssh.Store.Oauth.{create_code, insert_code}
use one_ssh.Store.Oauth.Spent.{if-keeps}
use one_ssh.Store.Tokens.{encode_disabled_tools}
use one_ssh.Oauthserver.{
  Library, Form, Reply, oauth_error, api_error, denied, parse_scopes, Checked, fine, refused, ◌>>=◌,
  demand, given, contains, validate_redirect_uri, normalize_resource, OauthClient,
  AuthorizationRequest, parse_authorization_request,
}
use one_ssh.Oauthserver.Endpoints.{
  World, Setting, Registration, Decision, redirects_from, check_metadata, check_registration,
  new_client, create_client, finish_registration, register_client, get_client, decided_hosts,
  decided_tools, decided_code, check_decision, answer_code, finish_decision, authorization_decision,
}

-- A client has registered the redirect URI of the code.
abbrev pub is_backed : List OauthClient → CodeRow → Bool
is_backed clients code =
    any (λ c. str_eq c.client_id code.client_id && contains c.redirect_uris code.redirect_uri)
      clients

abbrev pub has_safe_uris : Library → OauthClient → Bool
has_safe_uris lib c = all (validate_redirect_uri lib) c.redirect_uris

-- Registered redirect URIs have passed the check, and every code is for one of them.
pub record IsBacked (lib : Library) (w : World) : Type 0 where
  pub safe : all (has_safe_uris lib) w.clients ≡ true
  pub backed : all (is_backed w.clients) w.tables.oauth.codes ≡ true

pub >>=-eq-fine {κ ℓ} :
    {B : Type κ} {A : Type ℓ} (step : Checked B) (rest : B → Checked A) {last : A}
    → (step >>= rest) ≡ fine last
    → (value : B) × (step ≡ fine value) × (rest value ≡ fine last)
>>=-eq-fine (refused r) rest h = cc
>>=-eq-fine (fine value) rest h = (value, refl, h)

-- A demand and the rest that end well.
pub demand-eq-fine {ℓ} :
    {A : Type ℓ} (t : Bool) (r : Reply) (m : Checked A) {last : A}
    → (demand t r >>= λ u. m) ≡ fine last
    → (t ≡ true) × (m ≡ fine last)
demand-eq-fine true r m h = (refl, h)
demand-eq-fine false r m h = cc

pub given-eq-fine {ℓ} :
    {A : Type ℓ} (o : Option A) (r : Reply) (a : A) → given o r ≡ fine a → o ≡ some a
given-eq-fine none r a h = cc
given-eq-fine (some b) r a h = cc

all-append_uri :
    (p : String → Bool) (uri : String) (out : List String)
    → all p out ≡ true
    → p uri ≡ true
    → all p (out ++ uri ∷ []) ≡ true
all-append_uri p uri [] h k = ground arith
all-append_uri p uri (x ∷ out) h k = ground (arith, all-append_uri p uri out)

-- The redirect URIs that a registration keeps have passed the check.
redirects_from-safe :
    (lib : Library) (out uris kept : List String)
    → all (validate_redirect_uri lib) out ≡ true
    → redirects_from lib out uris ≡ fine kept
    → all (validate_redirect_uri lib) kept ≡ true
unfolding redirects_from
redirects_from-safe lib out [] kept a h = ground arith
redirects_from-safe lib out (uri ∷ uris) kept a h =
    elim (Bool-cases (validate_redirect_uri lib uri)) [
      | inr e ↦ absurd (ground arith)
      | inl e ↦ elim (Bool-cases (contains out uri)) [
        | inl k ↦ redirects_from-safe lib out uris kept a (ground arith)
        | inr k ↦
            redirects_from-safe lib (out ++ uri ∷ []) uris kept
              (all-append_uri (validate_redirect_uri lib) uri out a e) (ground arith)
      ]
    ]

check_registration-safe :
    (lib : Library) (input : Registration) (kept : List String)
    → check_registration lib input ≡ fine kept
    → all (validate_redirect_uri lib) kept ≡ true
unfolding check_registration
check_registration-safe lib input kept h =
    let (a, h1) =
      demand-eq-fine
        (not (length input.redirect_uris == 0) && not (ltb 10 (length input.redirect_uris)))
        (oauth_error 400 "invalid_redirect_uri") _ h in
    let (uris, k, h2) = >>=-eq-fine (redirects_from lib [] input.redirect_uris) _ h1 in
    let (u, l, h3) = >>=-eq-fine (check_metadata lib input) _ h2 in
    let same : uris ≡ kept = ground arith in
    subst (λ xs. all (validate_redirect_uri lib) xs ≡ true) same
      (redirects_from-safe lib [] input.redirect_uris uris refl k)

-- A new client takes nothing from the codes of the others.
all-is_backed-more :
    (c : OauthClient) (clients : List OauthClient) (codes : List CodeRow)
    → all (is_backed clients) codes ≡ true
    → all (is_backed (c ∷ clients)) codes ≡ true
all-is_backed-more c clients [] h = refl
all-is_backed-more c clients (code ∷ codes) h = ground (arith, all-is_backed-more c clients codes)

create_client-IsBacked :
    (s : Setting) (c : OauthClient) (w : World)
    → has_safe_uris s.lib c ≡ true
    → IsBacked s.lib w
    → IsBacked s.lib (create_client s c w).1
unfolding create_client
create_client-IsBacked s c w e b =
    if-keeps (λ (r : Reply × World). IsBacked s.lib r.1)
      (s.fails insert_row || any (λ d. str_eq d.client_id c.client_id) w.clients) b
      (record {
        safe = let k = b.safe in ground arith;
        backed = all-is_backed-more c w.clients w.tables.oauth.codes b.backed;
      })

finish_registration-IsBacked :
    (s : Setting) (input : Registration) (w : World) (r : Checked (List String))
    → check_registration s.lib input ≡ r
    → IsBacked s.lib w
    → IsBacked s.lib (finish_registration s input w r).1
unfolding finish_registration
finish_registration-IsBacked s input w (refused r) h b = b
finish_registration-IsBacked s input w (fine uris) h b = elim (Option-cases (s.random 0)) [
  | inl e ↦ rw (finish_registration, e) b
  | inr (id, e) ↦
      rw (finish_registration, e)
        (create_client-IsBacked s (new_client s input uris id) w
          (check_registration-safe s.lib input uris h) b)
]

pub register_client-IsBacked :
    (s : Setting) (input : Registration) (w : World)
    → IsBacked s.lib w
    → IsBacked s.lib (register_client s input w).1
unfolding register_client
register_client-IsBacked s input w b =
    finish_registration-IsBacked s input w (check_registration s.lib input) refl b

-- A request that is parsed is for a redirect URI of its client.
parse_authorization_request-contains :
    (lib : Library) (resource : String) (form : Form) (row : Option OauthClient)
    (request : AuthorizationRequest)
    → parse_authorization_request lib resource form row ≡ fine request
    → (row ≡ some request.client)
      × (contains request.client.redirect_uris request.redirect_uri ≡ true)
unfolding parse_authorization_request
parse_authorization_request-contains lib resource form row request h =
    let (a, h1) =
      demand-eq-fine (str_eq (form "response_type") "code")
        (oauth_error 400 "unsupported_response_type") _ h in
    let (client, k, h2) = >>=-eq-fine (given row (oauth_error 400 "invalid_request")) _ h1 in
    let (c, h3) =
      demand-eq-fine (contains client.redirect_uris (form "redirect_uri"))
        (oauth_error 400 "invalid_request") _ h2 in
    let (d, h4) =
      demand-eq-fine
        (lib.is_digest (form "code_challenge") && str_eq (form "code_challenge_method") "S256")
        (oauth_error 400 "invalid_request") _ h3 in
    let (requested, l, h5) =
      >>=-eq-fine
        (given (normalize_resource lib (form "resource")) (oauth_error 400 "invalid_target")) _
        h4 in
    let (e, h6) =
      demand-eq-fine (str_eq requested resource) (oauth_error 400 "invalid_target") _ h5 in
    let (scopes, m, h7) =
      >>=-eq-fine (given (parse_scopes (form "scope")) (oauth_error 400 "invalid_scope")) _ h6 in
    let same_client : request.client ≡ client = ground arith in
    let same_uri : request.redirect_uri ≡ form "redirect_uri" = ground arith in
    (
      given-eq-fine row (oauth_error 400 "invalid_request") client k ∙ ap some (sym same_client),
      rw (same_client, same_uri) c,
    )

find_client-backed :
    (id uri : String) (clients : List OauthClient) (client : OauthClient)
    → find_first (λ c. str_eq c.client_id id) clients ≡ some client
    → contains client.redirect_uris uri ≡ true
    → any (λ c. str_eq c.client_id client.client_id && contains c.redirect_uris uri) clients ≡ true
find_client-backed id uri [] client h k = cc
find_client-backed id uri (c ∷ clients) client h k =
    ground (arith, find_client-backed id uri clients client, eq_refl client.client_id)

check_decision-backed :
    (s : Setting) (d : Decision) (w : World) (code : String) (row : CodeRow)
    → check_decision s d w ≡ fine (code, row)
    → is_backed w.clients row ≡ true
unfolding check_decision get_client decided_code
check_decision-backed s d w code row h =
    let id = d.query "client_id" in
    let (request, k, h1) =
      >>=-eq-fine
        (parse_authorization_request s.lib s.resource d.query (get_client s.fails id w.clients)) _
        h in
    let (a, h2) =
      demand-eq-fine (not (str_eq d.decision "deny")) (denied request.redirect_uri) _ h1 in
    let (b, h3) = demand-eq-fine (str_eq d.decision "approve") (api_error 400) _ h2 in
    let (ids, l, h4) = >>=-eq-fine (decided_hosts s.fails d w.tables.hosts) _ h3 in
    let (tools, m, h5) = >>=-eq-fine (decided_tools d.disabled_tools) _ h4 in
    let (plain, n, h6) = >>=-eq-fine (given (s.random 0) (api_error 500)) _ h5 in
    let (here, ok_uri) =
      parse_authorization_request-contains s.lib s.resource d.query
        (get_client s.fails id w.clients) request k in
    let there : find_first (λ c. str_eq c.client_id id) w.clients ≡ some request.client =
      ground arith in
    let known = find_client-backed id request.redirect_uri w.clients request.client there ok_uri in
    let same : row ≡ decided_code s d request ids tools plain = ground arith in
    subst (λ x. is_backed w.clients x ≡ true) (sym same) known

insert_code-backed :
    (fails : Faults) (code : CodeRow) (db : Db) (r : Result (List (List ℕ)))
    (clients : List OauthClient)
    → is_backed clients code ≡ true
    → all (is_backed clients) db.codes ≡ true
    → all (is_backed clients) (insert_code fails code db r).1.codes ≡ true
unfolding insert_code
insert_code-backed fails code db (err e) clients k b = b
insert_code-backed fails code db (ok disabled) clients k b =
    if-keeps (λ (r : Result (Unit {0}) × Db). all (is_backed clients) r.1.codes ≡ true)
      (fails insert_token || any (λ c. str_eq c.code_hash code.code_hash) db.codes) b (ground arith)

answer_code-IsBacked :
    (lib : Library) (code : String) (row : CodeRow) (w : World) (r : Result (Unit {0}) × Db)
    → IsBacked lib w
    → all (is_backed w.clients) r.1.codes ≡ true
    → IsBacked lib (answer_code code row w r).1
answer_code-IsBacked lib code row w (err e, db) b k = record { safe = b.safe; backed = k }
answer_code-IsBacked lib code row w (ok u, db) b k = record { safe = b.safe; backed = k }

finish_decision-IsBacked :
    (s : Setting) (d : Decision) (w : World) (r : Checked (String × CodeRow))
    → check_decision s d w ≡ r
    → IsBacked s.lib w
    → IsBacked s.lib (finish_decision s w r).1
unfolding finish_decision create_code
finish_decision-IsBacked s d w (refused r) h b = b
finish_decision-IsBacked s d w (fine (code, row)) h b =
    answer_code-IsBacked s.lib code row w (create_code s.fails row w.tables.oauth) b (
      insert_code-backed s.fails row w.tables.oauth (encode_disabled_tools row.disabled_tools)
        w.clients (check_decision-backed s d w code row h) b.backed)

pub authorization_decision-IsBacked :
    (s : Setting) (d : Decision) (w : World)
    → IsBacked s.lib w
    → IsBacked s.lib (authorization_decision s d w).1
unfolding authorization_decision
authorization_decision-IsBacked s d w b =
    finish_decision-IsBacked s d w (check_decision s d w) refl b
