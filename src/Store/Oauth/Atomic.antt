-- ===== src/Store/Oauth/Atomic.antt =====
-- What a call of internal/store/oauth.go changes, if it fails and if it succeeds.
use one_ssh.Base.{ℕ, String, false, ◌||◌, ◌∷◌, Option, none, some, ◌≡◌, ◌≢◌, refl, arith, subst}
use one_ssh.Store.{
  TokenRow, CodeRow, RefreshRow, Db, Result, ok, err, StoreError, code_reuse, Faults, begin, read,
  update_where, is_set,
}
use one_ssh.Store.Tokens.{encode_disabled_tools, new_row, revoke_grant_tx, settle}
use one_ssh.Store.Oauth.{
  redeem_tx, rotate_tx, Exchange, Rotation, is_fresh, renewed, next_refresh, find_code,
  find_refresh, exchange_code, exchange, is_refused, punish_code, punish_refresh, rotate_token,
  rotate,
}
use one_ssh.Store.Oauth.Frame.{rotate_tx-Rotated}
use one_ssh.Store.Oauth.Spent.{settle-ok}

settle-fails {ℓ} :
    {A : Type ℓ} (fails : Faults) (db : Db) (m : Result (A × Db)) (e : StoreError)
    → (settle fails db m).0 ≡ err e
    → (settle fails db m).1 ≡ db
settle-fails fails db (err d) e h = refl
settle-fails fails db (ok (a, db')) e h = ground arith

punish_code-fails :
    (fails : Faults) (grant : Option String) (now : ℕ) (db : Db) (e : StoreError)
    → (punish_code fails grant now db).0 ≡ err e
    → e ≢ code_reuse
    → (punish_code fails grant now db).1 ≡ db
unfolding punish_code revoke_grant_tx
punish_code-fails fails none now db e h n = refl
punish_code-fails fails (some g) now db e h n = ground arith

exchange_code-fails :
    (fails : Faults) (x : Exchange) (db : Db) (f : Option CodeRow) (e : StoreError)
    → (exchange_code fails x db f).0 ≡ err e
    → e ≢ code_reuse
    → (exchange_code fails x db f).1 ≡ db
unfolding exchange_code
exchange_code-fails fails x db none e h n = refl
exchange_code-fails fails x db (some c) e h n =
    let p = punish_code-fails fails c.grant_id x.now db e in
    let q = settle-fails fails db (redeem_tx fails c x db) e in ground arith

-- An exchange that fails leaves the tables as they were, unless its error is that of a reused code.
pub exchange_fails :
    (fails : Faults) (x : Exchange) (db : Db) (e : StoreError)
    → (exchange fails x db).0 ≡ err e
    → e ≢ code_reuse
    → (exchange fails x db).1 ≡ db
unfolding exchange
exchange_fails fails x db e h n =
    let q = exchange_code-fails fails x db (find_code x.code_hash db) e in ground arith

punish_refresh-refused :
    (fails : Faults) (t : RefreshRow) (now : ℕ) (db : Db) (c : RefreshRow)
    → (punish_refresh fails t now db).0 ≢ ok c
unfolding punish_refresh revoke_grant_tx
punish_refresh-refused fails t now db c h = ground arith

-- What a row that hands on the rights of a refresh token may not change.
pub record Inherits (old : RefreshRow) (fresh : RefreshRow) (access : TokenRow) : Type 0 where
  pub grant : fresh.grant_id ≡ old.grant_id
  pub client : fresh.client_id ≡ old.client_id
  pub resource : fresh.resource ≡ old.resource
  pub scope : fresh.scope ≡ old.scope
  pub hosts : fresh.host_ids ≡ old.host_ids
  pub all_hosts : (fresh.all_hosts ≡ old.all_hosts) × (access.all_hosts ≡ old.all_hosts)
  pub manage : (fresh.manage_hosts ≡ old.manage_hosts) × (access.manage_hosts ≡ old.manage_hosts)
  pub disabled : encode_disabled_tools old.disabled_tools ≡ ok fresh.disabled_tools
  pub same_disabled : access.disabled_tools ≡ fresh.disabled_tools
  pub link : fresh.access_token_id ≡ access.id
  pub unused : (fresh.used_at ≡ none) × (fresh.revoked_at ≡ none)

-- What a rotation that ends well did to the tables.
pub record Rotates (old : RefreshRow) (x : Rotation) (db db' : Db) : Type 0 where
  pub live : (is_refused old x ≡ false) × (is_set old.used_at ≡ false)
  pub fresh : RefreshRow
  pub access : TokenRow
  pub inherits : Inherits old fresh access
  pub tokens : db'.tokens ≡ access ∷ db.tokens
  pub refresh :
      db'.refresh
      ≡ fresh
        ∷ update_where (is_fresh x.token_hash) (λ r. record r { used_at = some x.now }) db.refresh
  pub codes : db'.codes ≡ db.codes

rotate_tx-Rotates :
    (fails : Faults) (old : RefreshRow) (x : Rotation) (db : Db) (t : RefreshRow) (db' : Db)
    → is_refused old x ≡ false
    → is_set old.used_at ≡ false
    → rotate_tx fails old x db ≡ ok (t, db')
    → Rotates old x db db'
unfolding new_row
rotate_tx-Rotates fails old x db t db' r u h =
    let o = rotate_tx-Rotated fails old x db t db' h in
    record {
      live = (r, u);
      fresh = record (next_refresh old x o.id) { disabled_tools = o.disabled };
      access = new_row (renewed old x) o.disabled o.id x.now;
      inherits = record {
        grant = refl;
        client = refl;
        resource = refl;
        scope = refl;
        hosts = refl;
        all_hosts = (refl, refl);
        manage = (refl, refl);
        disabled = o.encoded;
        same_disabled = refl;
        link = refl;
        unused = (refl, refl);
      };
      tokens = o.tokens;
      refresh = o.refresh;
      codes = o.codes;
    }

rotate_token-Rotates :
    (fails : Faults) (x : Rotation) (db : Db) (old t : RefreshRow)
    → (rotate_token fails x db (some old)).0 ≡ ok t
    → Rotates old x db (rotate_token fails x db (some old)).1
unfolding rotate_token
rotate_token-Rotates fails x db old t h =
    let q = punish_refresh-refused fails old x.now db t in
    let r : is_refused old x ≡ false = ground arith in
    let u : is_set old.used_at ≡ false = ground arith in
    let (db', m, e) = settle-ok fails db (rotate_tx fails old x db) t (ground arith) in
    rw r (rw u (rw e (rotate_tx-Rotates fails old x db t db' r u m)))

-- A rotation that succeeds was of a refresh token that is neither expired nor revoked nor used, and
-- marks it as used. It adds one access token, with the old one's permissions, and one refresh token,
-- linked to it, with the old one's grant, client, resource, scope, hosts and permissions; the
-- disabled tools of both are the old one's, normalized. The codes stay as they are.
pub rotate_inherits :
    (fails : Faults) (x : Rotation) (db : Db) (old t : RefreshRow)
    → find_refresh x.token_hash db ≡ some old
    → (rotate fails x db).0 ≡ ok t
    → Rotates old x db (rotate fails x db).1
unfolding rotate rotate_token
rotate_inherits fails x db old t f h =
    let q = punish_refresh-refused fails old x.now db t in
    let b : (fails begin || fails read) ≡ false = ground arith in
    let k : (rotate_token fails x db (find_refresh x.token_hash db)).0 ≡ ok t = ground arith in
    rw b (
      rw f (
        rotate_token-Rotates fails x db old t
          (subst (λ o. (rotate_token fails x db o).0 ≡ ok t) f k)))
