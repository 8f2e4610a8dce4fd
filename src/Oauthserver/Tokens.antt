-- ===== src/Oauthserver/Tokens.antt =====
-- The token endpoint of internal/oauthserver/handlers.go.
use one_ssh.Base.{◌+◌, String, not, ◌&&◌, if◌then◌else◌, str_eq}
use one_ssh.Store.{
  CodeRow, RefreshRow, Db, StoreError, no_rows, code_reuse, refresh_reuse, Result, ok, err,
}
use one_ssh.Store.Oauth.{Exchange, Rotation, exchange, rotate}
use one_ssh.Oauthserver.{
  ◌>>=◌, Form, Reply, oauth_error, issued, Checked, fine, refused, demand, given,
  normalize_resource, valid_code_verifier,
}
use one_ssh.Oauthserver.Endpoints.{World, Setting, token_lifetime, refresh_lifetime, with_oauth}

-- `writeGrantError`.
unfoldable pub grant_error : StoreError → Reply
grant_error no_rows = oauth_error 400 "invalid_grant"
grant_error code_reuse = oauth_error 400 "invalid_grant"
grant_error refresh_reuse = oauth_error 400 "invalid_grant"
grant_error e = oauth_error 500 "server_error"

-- The two or three random values: an access token, a refresh token and a grant's id.
pub record Fresh : Type 0 where
  pub access : String
  pub refresh : String
  pub grant : String

-- The checks of `exchangeAuthorizationCode`, up to what it asks of the store.
unfoldable pub check_exchange : Setting → Form → Checked (Fresh × Exchange)
unfolding valid_code_verifier normalize_resource
check_exchange s form = do
  a ←
      demand (not (str_eq (form "code") "") && valid_code_verifier (form "code_verifier"))
        (oauth_error 400 "invalid_grant")
  resource ← given (normalize_resource s.lib (form "resource")) (oauth_error 400 "invalid_grant")
  access ← given (s.random 0) (oauth_error 500 "server_error")
  refresh ← given (s.random 1) (oauth_error 500 "server_error")
  grant ← given (s.random 2) (oauth_error 500 "server_error")
  fine (
    record { access = access; refresh = refresh; grant = grant },
    record {
      code_hash = s.lib.token_hash (form "code");
      client_id = form "client_id";
      redirect_uri = form "redirect_uri";
      resource = resource;
      code_challenge = s.lib.challenge_of (form "code_verifier");
      grant_id = grant;
      access_token_name = s.name_of (form "client_id") access;
      access_token_hash = s.lib.token_hash access;
      refresh_token_hash = s.lib.token_hash refresh;
      now = s.now;
      access_expires_at = s.now + token_lifetime;
      refresh_expires_at = s.now + refresh_lifetime;
    },
  )

abbrev pub answer_exchange : Fresh → World → Result CodeRow × Db → Reply × World
answer_exchange fresh w (err e, db) = (grant_error e, with_oauth db w)
answer_exchange fresh w (ok code, db) =
    (issued fresh.access fresh.refresh code.scope, with_oauth db w)

unfoldable pub finish_exchange : Setting → World → Checked (Fresh × Exchange) → Reply × World
unfolding exchange grant_error
finish_exchange s w (refused r) = (r, w)
finish_exchange s w (fine (fresh, x)) = answer_exchange fresh w (exchange s.fails x w.tables.oauth)

-- `exchangeAuthorizationCode`.
unfoldable pub exchange_authorization_code : Setting → Form → World → Reply × World
unfolding check_exchange finish_exchange
exchange_authorization_code s form w = finish_exchange s w (check_exchange s form)

-- The checks of `refreshAccessToken`.
unfoldable pub check_refresh : Setting → Form → Checked (Fresh × Rotation)
unfolding normalize_resource
check_refresh s form = do
  resource ← given (normalize_resource s.lib (form "resource")) (oauth_error 400 "invalid_grant")
  a ← demand (not (str_eq (form "refresh_token") "")) (oauth_error 400 "invalid_grant")
  access ← given (s.random 0) (oauth_error 500 "server_error")
  refresh ← given (s.random 1) (oauth_error 500 "server_error")
  fine (
    record { access = access; refresh = refresh; grant = "" },
    record {
      token_hash = s.lib.token_hash (form "refresh_token");
      client_id = form "client_id";
      resource = resource;
      access_token_name = s.name_of (form "client_id") access;
      access_token_hash = s.lib.token_hash access;
      refresh_token_hash = s.lib.token_hash refresh;
      now = s.now;
      access_expires_at = s.now + token_lifetime;
      refresh_expires_at = s.now + refresh_lifetime;
    },
  )

abbrev pub answer_refresh : Fresh → World → Result RefreshRow × Db → Reply × World
answer_refresh fresh w (err e, db) = (grant_error e, with_oauth db w)
answer_refresh fresh w (ok token, db) =
    (issued fresh.access fresh.refresh token.scope, with_oauth db w)

unfoldable pub finish_refresh : Setting → World → Checked (Fresh × Rotation) → Reply × World
unfolding rotate grant_error
finish_refresh s w (refused r) = (r, w)
finish_refresh s w (fine (fresh, x)) = answer_refresh fresh w (rotate s.fails x w.tables.oauth)

-- `refreshAccessToken`.
unfoldable pub refresh_access_token : Setting → Form → World → Reply × World
unfolding check_refresh finish_refresh
refresh_access_token s form w = finish_refresh s w (check_refresh s form)

-- `Token`, on a body that parses.
unfoldable pub token : Setting → Form → World → Reply × World
unfolding exchange_authorization_code refresh_access_token
token s form w =
    if str_eq (form "grant_type") "authorization_code"
    then exchange_authorization_code s form w
    else if str_eq (form "grant_type") "refresh_token"
    then refresh_access_token s form w
    else (oauth_error 400 "unsupported_grant_type", w)
