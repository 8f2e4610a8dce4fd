-- ===== src/Oauthserver/Bound.antt =====
-- What a token of internal/oauthserver/handlers.go is bound to.
use one_ssh.Base.{
  ℕ, String, Bool, true, false, not, ◌&&◌, ◌||◌, List, [], ◌∷◌, Option, none, some, str_eq, all,
  ltb, ◌≡◌, refl, ap, subst, arith, Bool-cases, Option-cases, inl, inr, find_first, eq_iff,
}
use one_ssh.Store.{StoreError, CodeRow, Db, Result, ok, err, Faults, begin, read, is_set}
use one_ssh.Store.Oauth.{Exchange, find_code, fits, exchange, exchange_code, punish_code}
use one_ssh.Store.Tokens.{revoke_grant_tx}
use one_ssh.Oauthserver.{
  Library, Form, Reply, issued, oauth_error, Checked, fine, refused, given, contains,
  validate_redirect_uri, normalize_resource, valid_code_verifier, OauthClient,
}
use one_ssh.Oauthserver.Endpoints.{World, Setting}
use one_ssh.Oauthserver.Tokens.{
  Fresh, grant_error, check_exchange, answer_exchange, finish_exchange, exchange_authorization_code,
  token,
}
use one_ssh.Oauthserver.Issued.{is_backed, has_safe_uris, IsBacked, >>=-eq-fine, demand-eq-fine}
use one_ssh.Oauthserver.Served.{Request, with_library, serve_all, serve_all-IsBacked}

-- What a request for a token by a code has shown: the code is on record, unused and not too old; its
-- challenge is that of the verifier, which is well formed; it was made for the client and the redirect
-- URI of the request; and that URI is one that may be registered.
pub record IsBound (lib : Library) (now : ℕ) (form : Form) (w : World) : Type 0 where
  pub code : CodeRow
  pub found : find_code (lib.token_hash (form "code")) w.tables.oauth ≡ some code
  pub unused : is_set code.used_at ≡ false
  pub fresh : ltb now code.expires_at ≡ true
  pub verified : str_eq code.code_challenge (lib.challenge_of (form "code_verifier")) ≡ true
  pub well_formed : valid_code_verifier (form "code_verifier") ≡ true
  pub same_client : str_eq code.client_id (form "client_id") ≡ true
  pub same_uri : str_eq code.redirect_uri (form "redirect_uri") ≡ true
  pub safe_uri : validate_redirect_uri lib code.redirect_uri ≡ true

abbrev is_issued : Reply → Bool
is_issued (issued a r scope) = true
is_issued r = false

grant_error-refuses : (e : StoreError) → is_issued (grant_error e) ≡ false
unfolding grant_error
grant_error-refuses e = ground arith

answer_exchange-ok :
    (fresh : Fresh) (w : World) (r : Result CodeRow × Db)
    → is_issued (answer_exchange fresh w r).0 ≡ true
    → (code : CodeRow) × (r.0 ≡ ok code)
answer_exchange-ok fresh w (err e, db) h = let k = grant_error-refuses e in absurd (ground arith)
answer_exchange-ok fresh w (ok code, db) h = (code, refl)

-- An exchange that succeeds is of an unused code that fits.
exchange_code-fits :
    (fails : Faults) (x : Exchange) (db : Db) (o : Option CodeRow) (last : CodeRow)
    → (exchange_code fails x db o).0 ≡ ok last
    → (code : CodeRow) × (o ≡ some code) × (fits code x ≡ true) × (is_set code.used_at ≡ false)
unfolding exchange_code punish_code revoke_grant_tx
exchange_code-fits fails x db none last h = cc
exchange_code-fits fails x db (some code) last h = elim (Bool-cases (fits code x)) [
  | inr e ↦ absurd (ground arith)
  | inl e ↦ elim (Bool-cases (is_set code.used_at)) [
    | inr k ↦ (code, refl, e, k)
    | inl k ↦ elim (Option-cases code.grant_id) [
      | inl g ↦ absurd (ground arith)
      | inr (g, l) ↦ absurd (ground arith)
    ]
  ]
]

contains-all :
    (p : String → Bool) (uri : String) (uris : List String)
    → contains uris uri ≡ true
    → all p uris ≡ true
    → p uri ≡ true
contains-all p uri [] h a = cc
contains-all p uri (x ∷ uris) h a = elim (Bool-cases (str_eq x uri)) [
  | inl e ↦ let same : x ≡ uri = (eq_iff x uri).0 e in subst (λ y. p y ≡ true) same (ground arith)
  | inr e ↦ contains-all p uri uris (ground arith) (ground arith)
]

backed-safe :
    (lib : Library) (code : CodeRow) (clients : List OauthClient)
    → is_backed clients code ≡ true
    → all (has_safe_uris lib) clients ≡ true
    → validate_redirect_uri lib code.redirect_uri ≡ true
backed-safe lib code [] h a = cc
backed-safe lib code (c ∷ clients) h a =
    elim (Bool-cases
      (str_eq c.client_id code.client_id && contains c.redirect_uris code.redirect_uri)) [
        | inl e ↦
            contains-all (validate_redirect_uri lib) code.redirect_uri c.redirect_uris
              (ground arith) (ground arith)
        | inr e ↦ backed-safe lib code clients (ground arith) (ground arith)
      ]

find_first-all :
    (p q : CodeRow → Bool) (codes : List CodeRow) (code : CodeRow)
    → find_first q codes ≡ some code
    → all p codes ≡ true
    → p code ≡ true
find_first-all p q [] code h a = cc
find_first-all p q (c ∷ codes) code h a = ground (arith, find_first-all p q codes code)

check_exchange-refuses :
    (s : Setting) (form : Form) (r : Reply)
    → check_exchange s form ≡ refused r
    → is_issued r ≡ false
unfolding check_exchange
check_exchange-refuses s form r h = ground arith

-- What an exchange asks of the store.
record Asks (s : Setting) (form : Form) (x : Exchange) : Type 0 where
  well_formed : valid_code_verifier (form "code_verifier") ≡ true
  same_hash : x.code_hash ≡ s.lib.token_hash (form "code")
  same_client : x.client_id ≡ form "client_id"
  same_uri : x.redirect_uri ≡ form "redirect_uri"
  same_challenge : x.code_challenge ≡ s.lib.challenge_of (form "code_verifier")
  same_now : x.now ≡ s.now

check_exchange-Asks :
    (s : Setting) (form : Form) (fresh : Fresh) (x : Exchange)
    → check_exchange s form ≡ fine (fresh, x)
    → Asks s form x
unfolding check_exchange
check_exchange-Asks s form fresh x h =
    let (a, h1) =
      demand-eq-fine (not (str_eq (form "code") "") && valid_code_verifier (form "code_verifier"))
        (oauth_error 400 "invalid_grant") _ h in
    let (resource, b, h2) =
      >>=-eq-fine
        (given (normalize_resource s.lib (form "resource")) (oauth_error 400 "invalid_grant")) _
        h1 in
    let (access, c, h3) = >>=-eq-fine (given (s.random 0) (oauth_error 500 "server_error")) _ h2 in
    let (refresh, d, h4) = >>=-eq-fine (given (s.random 1) (oauth_error 500 "server_error")) _ h3 in
    let (grant, e, h5) = >>=-eq-fine (given (s.random 2) (oauth_error 500 "server_error")) _ h4 in
    record {
      well_formed = ground arith;
      same_hash = ground arith;
      same_client = ground arith;
      same_uri = ground arith;
      same_challenge = ground arith;
      same_now = ground arith;
    }

exchange-fits :
    (fails : Faults) (x : Exchange) (db : Db) (last : CodeRow)
    → (exchange fails x db).0 ≡ ok last
    → (code : CodeRow) × (find_code x.code_hash db ≡ some code)
      × (fits code x ≡ true)
      × (is_set code.used_at ≡ false)
unfolding exchange
exchange-fits fails x db last h = elim (Bool-cases (fails begin || fails read)) [
  | inl e ↦ absurd (ground arith)
  | inr e ↦ exchange_code-fits fails x db (find_code x.code_hash db) last (ground arith)
]

finish_exchange-IsBound :
    (s : Setting) (form : Form) (w : World) (r : Checked (Fresh × Exchange))
    → check_exchange s form ≡ r
    → is_issued (finish_exchange s w r).0 ≡ true
    → IsBacked s.lib w
    → IsBound s.lib s.now form w
unfolding finish_exchange fits find_code
finish_exchange-IsBound s form w (refused r) h i b =
    let k = check_exchange-refuses s form r h in absurd (ground arith)
finish_exchange-IsBound s form w (fine (fresh, x)) h i b =
    let asks = check_exchange-Asks s form fresh x h in
    let (last, e) = answer_exchange-ok fresh w (exchange s.fails x w.tables.oauth) i in
    let (code, found, fit, unused) = exchange-fits s.fails x w.tables.oauth last e in
    let a1 = asks.same_client in
    let a2 = asks.same_uri in
    let a3 = asks.same_challenge in
    let a4 = asks.same_now in
    let backed =
      find_first-all (is_backed w.clients) (λ c. str_eq c.code_hash x.code_hash)
        w.tables.oauth.codes code found b.backed in
    let challenge : str_eq code.code_challenge x.code_challenge ≡ true = ground arith in
    let client : str_eq code.client_id x.client_id ≡ true = ground arith in
    let uri : str_eq code.redirect_uri x.redirect_uri ≡ true = ground arith in
    let soon : ltb x.now code.expires_at ≡ true = ground arith in
    record {
      code = code;
      found = subst (λ k. find_code k w.tables.oauth ≡ some code) asks.same_hash found;
      unused = unused;
      fresh = subst (λ k. ltb k code.expires_at ≡ true) a4 soon;
      verified = subst (λ k. str_eq code.code_challenge k ≡ true) a3 challenge;
      well_formed = asks.well_formed;
      same_client = subst (λ k. str_eq code.client_id k ≡ true) a1 client;
      same_uri = subst (λ k. str_eq code.redirect_uri k ≡ true) a2 uri;
      safe_uri = backed-safe s.lib code w.clients backed b.safe;
    }

-- After any requests to a server whose codes are backed by registered redirect URIs, such as a new
-- one, a request with the grant type `authorization_code` that is answered with tokens has shown an
-- unused code in time, the verifier of its challenge, and the client and the redirect URI that it was
-- made for; and the redirect URI is one that may be registered: `https`, or `http` on the local host.
pub token-IsBound :
    (lib : Library) (rs : List Request) (start : World) (s : Setting) (form : Form)
    (access refresh scope : String)
    → IsBacked lib start
    → str_eq (form "grant_type") "authorization_code" ≡ true
    → (token (with_library lib s) form (serve_all lib rs start)).0 ≡ issued access refresh scope
    → IsBound lib s.now form (serve_all lib rs start)
unfolding token exchange_authorization_code
token-IsBound lib rs start s form access refresh scope b g h =
    let l = with_library lib s in
    let w = serve_all lib rs start in
    let answered : (finish_exchange l w (check_exchange l form)).0 ≡ issued access refresh scope =
      ground arith in
    finish_exchange-IsBound l form w (check_exchange l form) refl (ap is_issued answered)
      (serve_all-IsBacked lib rs start b)
