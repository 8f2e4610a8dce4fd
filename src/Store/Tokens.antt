-- ===== src/Store/Tokens.antt =====
-- internal/store/auth_sessions.go: access tokens.
use one_ssh.Base.{
  ℕ, ◌+◌, String, Bool, true, false, not, ◌&&◌, ◌||◌, List, [], ◌∷◌, Option, none, some,
  if◌then◌else◌, str_eq, any, ltb, ◌==◌, keep, find_first,
}
use one_ssh.ToolGroups
use one_ssh.Store.{
  ◌>>◌, ◌>>=◌, TokenRow, RefreshRow, Db, Result, ok, err, bad_group, db_error, no_rows, refuse,
  Faults, begin, read, insert_token, insert_host, update_row, revoke, commit, update_where,
  count_where, is_set, nullable_string,
}

pub record TokenCreate : Type 0 where
  pub name : String
  pub hash : String
  pub all_hosts : Bool
  pub manage_hosts : Bool
  pub disabled_tools : List (List ℕ)
  pub host_ids : List ℕ
  pub source : String
  pub expires_at : ℕ
  pub resource : String
  pub client_id : String

pub record TokenUpdate : Type 0 where
  pub name : String
  pub all_hosts : Bool
  pub manage_hosts : Bool
  pub host_ids : List ℕ
  pub disabled_tools : List (List ℕ)

-- `encodeDisabledTools`, without the JSON around the list.
unfoldable pub encode_disabled_tools : List (List ℕ) → Result (List (List ℕ))
encode_disabled_tools names = elim (ToolGroups.normalize_list names) [
  | ToolGroups.ok normalized ↦ ok normalized
  | ToolGroups.unknown_group ↦ err bad_group
]

-- The loop of inserts into `token_hosts`, whose primary key is the pair.
unfoldable pub insert_hosts : Faults → ℕ → List ℕ → Db → Result Db
insert_hosts fails id [] db = ok db
insert_hosts fails id (host ∷ hosts) db = do
  refuse (fails insert_host || any (λ p. p.0 == id && p.1 == host) db.token_hosts) db_error
  insert_hosts fails id hosts (record db { token_hosts = (id, host) ∷ db.token_hosts })

-- The insert into `tokens`, where names and hashes are unique.
unfoldable pub insert_row : Faults → TokenRow → Db → Result Db
insert_row fails row db = do
  refuse
      (fails insert_token
        || any (λ t. str_eq t.name row.name || str_eq t.token_hash row.token_hash) db.tokens)
      db_error
  ok (record db { tokens = row ∷ db.tokens; next_id = db.next_id + 1 })

-- The row that `createTokenTx` writes.
unfoldable pub new_row : TokenCreate → List (List ℕ) → ℕ → ℕ → TokenRow
unfolding nullable_string
new_row t disabled id now = record {
  id = id;
  name = t.name;
  token_hash = t.hash;
  all_hosts = t.all_hosts;
  manage_hosts = t.manage_hosts;
  disabled_tools = disabled;
  created_at = now;
  source = if str_eq t.source "" then "manual" else t.source;
  expires_at = if ltb 0 t.expires_at then some t.expires_at else none;
  resource = nullable_string t.resource;
  client_id = nullable_string t.client_id;
  last_used_at = none;
}

-- `createTokenTx`: the new id and the tables.
unfoldable pub create_token_tx : Faults → TokenCreate → ℕ → Db → Result (ℕ × Db)
unfolding encode_disabled_tools new_row insert_row insert_hosts
create_token_tx fails t now db = do
  disabled ← encode_disabled_tools t.disabled_tools
  inserted ← insert_row fails (new_row t disabled db.next_id now) db
  linked ← insert_hosts fails db.next_id t.host_ids inserted
  ok (db.next_id, linked)

-- `revokeOAuthGrantTx` of oauth.go: the access tokens of the grant expire now, and its refresh
-- tokens are revoked.
unfoldable pub revoke_grant : String → ℕ → Db → Db
revoke_grant grant now db = record db {
  tokens =
      update_where (λ t. any (λ r. str_eq r.grant_id grant && r.access_token_id == t.id) db.refresh)
        (λ t. record t { expires_at = some now }) db.tokens;
  refresh =
      update_where (λ r. str_eq r.grant_id grant && not (is_set r.revoked_at))
        (λ r. record r { revoked_at = some now }) db.refresh;
}

unfoldable pub revoke_grant_tx : Faults → String → ℕ → Db → Result Db
unfolding revoke_grant
revoke_grant_tx fails grant now db = do
  refuse (fails revoke) db_error
  ok (revoke_grant grant now db)

-- The row that `findToken` selects.
unfoldable pub is_live : String → String → Bool → ℕ → TokenRow → Bool
is_live hash resource require_resource now t =
    str_eq t.token_hash hash
    && (elim t.expires_at [ none ↦ true | some expires ↦ ltb now expires ])
    && (not require_resource
        || str_eq t.source "manual"
        || (elim t.resource [ none ↦ false | some r ↦ str_eq r resource ]))

-- `findToken`, up to its list of hosts.
unfoldable pub find_token : String → String → Bool → ℕ → Db → Option TokenRow
unfolding is_live
find_token hash resource require_resource now db =
    find_first (is_live hash resource require_resource now) db.tokens

-- What a transaction leaves: its tables if it ends well and the commit does, the old ones if not.
abbrev pub settle {ℓ} : {A : Type ℓ} {S : Type 0} → Faults → S → Result (A × S) → Result A × S
settle fails db (err e) = (err e, db)
settle fails db (ok (a, db')) = if fails commit then (err db_error, db) else (ok a, db')

unfoldable pub create_token : Faults → TokenCreate → ℕ → Db → Result ℕ × Db
unfolding create_token_tx
create_token fails t now db =
    settle fails db (do refuse (fails begin) db_error; create_token_tx fails t now db)

-- `GetToken`.
unfoldable pub find_by_id : ℕ → List TokenRow → Result TokenRow
find_by_id id [] = err no_rows
find_by_id id (t ∷ ts) = if t.id == id then ok t else find_by_id id ts

-- `UpdateToken` ends with a `GetToken`, outside the transaction.
abbrev reread : Faults → ℕ → Result (Unit {0}) × Db → Result TokenRow × Db
reread fails id (err e, db) = (err e, db)
reread fails id (ok u, db) = (if fails read then err db_error else find_by_id id db.tokens, db)

unfoldable pub update_token : Faults → ℕ → TokenUpdate → Db → Result TokenRow × Db
unfolding find_by_id encode_disabled_tools insert_hosts update_where count_where
update_token fails id u db = reread fails id (
    settle fails db do
      refuse (fails begin) db_error
      disabled ← encode_disabled_tools u.disabled_tools
      refuse
          (fails update_row
            || any
                (λ t. not (t.id == id) && str_eq t.name u.name && any (λ s. s.id == id) db.tokens)
                db.tokens)
          db_error
      refuse (count_where (λ t. t.id == id) db.tokens == 0) no_rows
      linked ← insert_hosts fails id u.host_ids (record db {
        tokens =
            update_where (λ t. t.id == id)
              (λ t. record t {
                name = u.name;
                all_hosts = u.all_hosts;
                manage_hosts = u.manage_hosts;
                disabled_tools = disabled;
              })
              db.tokens;
        token_hosts = keep (λ p. not (p.0 == id)) db.token_hosts;
      })
      ok (
        tt,
        record linked {
          refresh =
              update_where
                (λ r.
                  r.access_token_id == id && not (is_set r.used_at) && not (is_set r.revoked_at))
                (λ r. record r {
                  all_hosts = u.all_hosts;
                  manage_hosts = u.manage_hosts;
                  host_ids = u.host_ids;
                  disabled_tools = disabled;
                })
                linked.refresh;
        },
      ))

-- The grant of a token, if it came from the OAuth server.
grant_of : ℕ → List RefreshRow → Option String
grant_of id [] = none
grant_of id (r ∷ rs) = if r.access_token_id == id then some r.grant_id else grant_of id rs

revoke_if_granted : Faults → Option String → ℕ → Db → Result Db
unfolding revoke_grant_tx
revoke_if_granted fails none now db = ok db
revoke_if_granted fails (some grant) now db = revoke_grant_tx fails grant now db

unfoldable pub delete_token : Faults → ℕ → ℕ → Db → Result (Unit {0}) × Db
unfolding grant_of revoke_if_granted
delete_token fails id now db = settle fails db do
  refuse (fails begin || fails read) db_error
  revoked ← revoke_if_granted fails (grant_of id db.refresh) now db
  refuse (fails update_row) db_error
  ok (
    tt,
    record revoked {
      token_hosts = keep (λ p. not (p.0 == id)) revoked.token_hosts;
      tokens = keep (λ t. not (t.id == id)) revoked.tokens;
    },
  )
