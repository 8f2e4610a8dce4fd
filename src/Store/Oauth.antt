-- ===== src/Store/Oauth.antt =====
-- internal/store/oauth.go: authorization codes and refresh tokens.
pub mod Frame
pub mod Atomic
pub mod Revoke
pub mod Spent
pub mod History
pub mod Retired
use one_ssh.Base.{
  ℕ, String, Bool, not, ◌&&◌, ◌||◌, List, ◌∷◌, Option, none, some, if◌then◌else◌, str_eq, any, ltb,
  leb, ◌==◌, find_first,
}
use one_ssh.Store.{
  ◌>>◌, ◌>>=◌, CodeRow, RefreshRow, Db, Result, ok, err, no_rows, code_reuse, refresh_reuse,
  missing_grant, empty_grant, grant_revoked, db_error, refuse, Faults, begin, read, insert_token,
  insert_refresh, update_row, commit, update_where, count_where, is_set,
}
use one_ssh.Store.Tokens.{
  TokenCreate, encode_disabled_tools, create_token_tx, revoke_grant_tx, settle,
}

-- `OAuthAuthorizationCodeExchange`.
pub record Exchange : Type 0 where
  pub code_hash : String
  pub client_id : String
  pub redirect_uri : String
  pub resource : String
  pub code_challenge : String
  pub grant_id : String
  pub access_token_name : String
  pub access_token_hash : String
  pub refresh_token_hash : String
  pub now : ℕ
  pub access_expires_at : ℕ
  pub refresh_expires_at : ℕ

-- `OAuthRefreshTokenRotation`.
pub record Rotation : Type 0 where
  pub token_hash : String
  pub client_id : String
  pub resource : String
  pub access_token_name : String
  pub access_token_hash : String
  pub refresh_token_hash : String
  pub now : ℕ
  pub access_expires_at : ℕ
  pub refresh_expires_at : ℕ

unfoldable pub find_code : String → Db → Option CodeRow
find_code hash db = find_first (λ c. str_eq c.code_hash hash) db.codes

unfoldable pub find_refresh : String → Db → Option RefreshRow
find_refresh hash db = find_first (λ r. str_eq r.token_hash hash) db.refresh

-- `insertOAuthRefreshTokenTx`; `token_hash` is the primary key.
unfoldable pub insert_refresh_tx : Faults → RefreshRow → Db → Result Db
unfolding encode_disabled_tools
insert_refresh_tx fails row db = do
  disabled ← encode_disabled_tools row.disabled_tools
  refuse (fails insert_refresh || any (λ r. str_eq r.token_hash row.token_hash) db.refresh) db_error
  ok (record db { refresh = record row { disabled_tools = disabled } ∷ db.refresh })

-- The insertion of a new code, which is not used, once its disabled tools are encoded; `code_hash`
-- is the primary key.
unfoldable pub insert_code : Faults → CodeRow → Db → Result (List (List ℕ)) → Result (Unit {0}) × Db
insert_code fails code db (err e) = (err e, db)
insert_code fails code db (ok disabled) =
    if fails insert_token || any (λ c. str_eq c.code_hash code.code_hash) db.codes
    then (err db_error, db)
    else (
      ok tt,
      record db {
        codes =
            record code { disabled_tools = disabled; used_at = none; grant_id = none } ∷ db.codes;
      },
    )

-- `CreateOAuthAuthorizationCode`.
unfoldable pub create_code : Faults → CodeRow → Db → Result (Unit {0}) × Db
unfolding encode_disabled_tools insert_code
create_code fails code db = insert_code fails code db (encode_disabled_tools code.disabled_tools)

-- The test of `ExchangeOAuthAuthorizationCode` that a stored code fits the request.
unfoldable pub fits : CodeRow → Exchange → Bool
fits code x =
    str_eq code.code_challenge x.code_challenge
    && str_eq code.client_id x.client_id
    && str_eq code.redirect_uri x.redirect_uri
    && str_eq code.resource x.resource
    && ltb x.now code.expires_at

-- A code that has been used already: its grant is revoked and that is committed, although the
-- caller gets an error.
unfoldable pub punish_code : Faults → Option String → ℕ → Db → Result CodeRow × Db
unfolding revoke_grant_tx
punish_code fails none now db = (err missing_grant, db)
punish_code fails (some grant) now db = elim (revoke_grant_tx fails grant now db) [
  | err e ↦ (err e, db)
  | ok db' ↦ if fails commit then (err db_error, db) else (err code_reuse, db')
]

abbrev pub is_unused : String → CodeRow → Bool
is_unused hash c = str_eq c.code_hash hash && not (is_set c.used_at)

-- The access token that a code is exchanged for.
abbrev pub granted : CodeRow → Exchange → TokenCreate
granted code x = record {
  name = x.access_token_name;
  hash = x.access_token_hash;
  all_hosts = code.all_hosts;
  manage_hosts = code.manage_hosts;
  disabled_tools = code.disabled_tools;
  host_ids = code.host_ids;
  source = "oauth";
  expires_at = x.access_expires_at;
  resource = code.resource;
  client_id = code.client_id;
}

-- The refresh token that goes with it.
abbrev pub first_refresh : CodeRow → Exchange → ℕ → RefreshRow
first_refresh code x access_token_id = record {
  token_hash = x.refresh_token_hash;
  grant_id = x.grant_id;
  access_token_id = access_token_id;
  client_id = code.client_id;
  resource = code.resource;
  scope = code.scope;
  all_hosts = code.all_hosts;
  manage_hosts = code.manage_hosts;
  disabled_tools = code.disabled_tools;
  host_ids = code.host_ids;
  expires_at = x.refresh_expires_at;
  created_at = x.now;
  used_at = none;
  revoked_at = none;
}

-- The rest of the transaction, for a code that has not been used.
unfoldable pub redeem_tx : Faults → CodeRow → Exchange → Db → Result (CodeRow × Db)
unfolding create_token_tx insert_refresh_tx update_where count_where
redeem_tx fails code x db = do
  created ← create_token_tx fails (granted code x) x.now db
  inserted ← insert_refresh_tx fails (first_refresh code x created.0) created.1
  refuse (fails update_row) db_error
  refuse (not (count_where (is_unused x.code_hash) inserted.codes == 1)) code_reuse
  ok (
    record code { used_at = some x.now; grant_id = some x.grant_id },
    record inserted {
      codes =
          update_where (is_unused x.code_hash)
            (λ c. record c { used_at = some x.now; grant_id = some x.grant_id }) inserted.codes;
    },
  )

unfoldable pub exchange_code : Faults → Exchange → Db → Option CodeRow → Result CodeRow × Db
unfolding fits punish_code redeem_tx
exchange_code fails x db none = (err no_rows, db)
exchange_code fails x db (some code) =
    if not (fits code x)
    then (err no_rows, db)
    else if is_set code.used_at
    then punish_code fails code.grant_id x.now db
    else settle fails db (redeem_tx fails code x db)

-- `ExchangeOAuthAuthorizationCode`.
unfoldable pub exchange : Faults → Exchange → Db → Result CodeRow × Db
unfolding find_code exchange_code
exchange fails x db =
    if fails begin || fails read
    then (err db_error, db)
    else exchange_code fails x db (find_code x.code_hash db)

-- `CreateOAuthRefreshToken`, for a row with its time of creation filled in.
unfoldable pub create_refresh : Faults → RefreshRow → Db → Result (Unit {0}) × Db
unfolding insert_refresh_tx
create_refresh fails row db = settle fails db do
  refuse (str_eq row.grant_id "") empty_grant
  refuse (fails begin || fails read) db_error
  refuse (any (λ r. str_eq r.grant_id row.grant_id && is_set r.revoked_at) db.refresh) grant_revoked
  inserted ← insert_refresh_tx fails row db
  ok (tt, inserted)

-- The test that a stored refresh token is refused for.
unfoldable pub is_refused : RefreshRow → Rotation → Bool
is_refused token x =
    not (str_eq token.client_id x.client_id)
    || not (str_eq token.resource x.resource)
    || leb token.expires_at x.now
    || is_set token.revoked_at

unfoldable pub punish_refresh : Faults → RefreshRow → ℕ → Db → Result RefreshRow × Db
unfolding revoke_grant_tx
punish_refresh fails token now db = elim (revoke_grant_tx fails token.grant_id now db) [
  | err e ↦ (err e, db)
  | ok db' ↦ if fails commit then (err db_error, db) else (err refresh_reuse, db')
]

abbrev pub is_fresh : String → RefreshRow → Bool
is_fresh hash r = str_eq r.token_hash hash && not (is_set r.used_at) && not (is_set r.revoked_at)

-- The access token that a refresh token is exchanged for.
abbrev pub renewed : RefreshRow → Rotation → TokenCreate
renewed token x = record {
  name = x.access_token_name;
  hash = x.access_token_hash;
  all_hosts = token.all_hosts;
  manage_hosts = token.manage_hosts;
  disabled_tools = token.disabled_tools;
  host_ids = token.host_ids;
  source = "oauth";
  expires_at = x.access_expires_at;
  resource = token.resource;
  client_id = token.client_id;
}

-- The refresh token that takes its place.
abbrev pub next_refresh : RefreshRow → Rotation → ℕ → RefreshRow
next_refresh token x access_token_id = record {
  token_hash = x.refresh_token_hash;
  grant_id = token.grant_id;
  access_token_id = access_token_id;
  client_id = token.client_id;
  resource = token.resource;
  scope = token.scope;
  all_hosts = token.all_hosts;
  manage_hosts = token.manage_hosts;
  disabled_tools = token.disabled_tools;
  host_ids = token.host_ids;
  expires_at = x.refresh_expires_at;
  created_at = x.now;
  used_at = none;
  revoked_at = none;
}

unfoldable pub rotate_tx : Faults → RefreshRow → Rotation → Db → Result (RefreshRow × Db)
unfolding create_token_tx insert_refresh_tx update_where count_where
rotate_tx fails token x db = do
  refuse (fails update_row) db_error
  refuse (not (count_where (is_fresh x.token_hash) db.refresh == 1)) refresh_reuse
  created ← create_token_tx fails (renewed token x) x.now (record db {
    refresh =
        update_where (is_fresh x.token_hash) (λ r. record r { used_at = some x.now }) db.refresh;
  })
  inserted ← insert_refresh_tx fails (next_refresh token x created.0) created.1
  ok (record token { used_at = some x.now }, inserted)

unfoldable pub rotate_token : Faults → Rotation → Db → Option RefreshRow → Result RefreshRow × Db
unfolding is_refused punish_refresh rotate_tx
rotate_token fails x db none = (err no_rows, db)
rotate_token fails x db (some token) =
    if is_refused token x
    then (err no_rows, db)
    else if is_set token.used_at
    then punish_refresh fails token x.now db
    else settle fails db (rotate_tx fails token x db)

-- `RotateOAuthRefreshToken`.
unfoldable pub rotate : Faults → Rotation → Db → Result RefreshRow × Db
unfolding find_refresh rotate_token
rotate fails x db =
    if fails begin || fails read
    then (err db_error, db)
    else rotate_token fails x db (find_refresh x.token_hash db)
