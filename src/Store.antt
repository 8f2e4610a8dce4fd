-- ===== src/Store.antt =====
-- internal/store: the SQLite tables of access tokens and of the OAuth server (models.go, oauth.go,
-- auth_sessions.go and migrations/), and what their statements do. A transaction works on a copy of
-- the tables, which a commit puts in their place.
pub mod Tokens
pub mod Oauth
pub mod Jobs
pub mod Hosts
use one_ssh.Base.{
  ℕ, ◌+◌, String, Bool, true, false, List, [], ◌∷◌, Option, none, some, if◌then◌else◌, str_eq,
}

-- A row of `tokens`. `disabled_tools` is the decoded list of `disabled_tools_json`.
pub record TokenRow : Type 0 where
  pub id : ℕ
  pub name : String
  pub token_hash : String
  pub all_hosts : Bool
  pub manage_hosts : Bool
  pub disabled_tools : List (List ℕ)
  pub created_at : ℕ
  pub source : String
  pub expires_at : Option ℕ
  pub resource : Option String
  pub client_id : Option String
  pub last_used_at : Option ℕ

-- A row of `oauth_authorization_codes`: `OAuthAuthorizationCode`.
pub record CodeRow : Type 0 where
  pub code_hash : String
  pub client_id : String
  pub redirect_uri : String
  pub resource : String
  pub code_challenge : String
  pub scope : String
  pub all_hosts : Bool
  pub manage_hosts : Bool
  pub disabled_tools : List (List ℕ)
  pub host_ids : List ℕ
  pub expires_at : ℕ
  pub created_at : ℕ
  pub used_at : Option ℕ
  pub grant_id : Option String

-- A row of `oauth_refresh_tokens`: `OAuthRefreshToken`.
pub record RefreshRow : Type 0 where
  pub token_hash : String
  pub grant_id : String
  pub access_token_id : ℕ
  pub client_id : String
  pub resource : String
  pub scope : String
  pub all_hosts : Bool
  pub manage_hosts : Bool
  pub disabled_tools : List (List ℕ)
  pub host_ids : List ℕ
  pub expires_at : ℕ
  pub created_at : ℕ
  pub used_at : Option ℕ
  pub revoked_at : Option ℕ

-- `next_id` is the AUTOINCREMENT sequence of `tokens`.
pub record Db : Type 0 where
  pub tokens : List TokenRow
  pub next_id : ℕ
  pub token_hosts : List (ℕ × ℕ)
  pub codes : List CodeRow
  pub refresh : List RefreshRow

-- What a call of the store can fail with. `db_error` is any error of the database that the program
-- only passes on.
pub data StoreError : Type 0 where
  no_rows code_reuse refresh_reuse missing_grant empty_grant grant_revoked bad_group db_error :
      StoreError
  has_running_jobs is_jump_host jump_host_archived not_unique : StoreError

pub data Result {ℓ} (A : Type ℓ) : Type ℓ where
  ok : A → Result A
  err : StoreError → Result A

abbrev pub refuse : Bool → StoreError → Result (Unit {0})
refuse test e = if test then err e else ok tt

infixl 5 ◌>>◌
abbrev pub ◌>>◌ {ℓ} : {B : Type ℓ} → Result (Unit {0}) → Result B → Result B
err e >> next = err e
ok u >> next = next

-- The program's `if err != nil { return err }`.
infixl 5 ◌>>=◌
abbrev pub ◌>>=◌ {κ ℓ} : {B : Type κ} {A : Type ℓ} → Result B → (B → Result A) → Result A
err e >>= rest = err e
ok value >>= rest = rest value

-- The statements of a transaction that the database can refuse for reasons of its own, such as a
-- full disk or a cancelled context; reading a row and decoding its JSON count as one.
pub data Statement : Type 0 where
  begin read insert_token insert_host insert_refresh update_row revoke commit : Statement
  insert_row delete_row : Statement

-- Which statements fail.
abbrev pub Faults : Type 0
Faults = Statement → Bool

module _ {ℓ} {A : Type ℓ} where
  -- `UPDATE … SET f WHERE p`.
  unfoldable pub update_where : (A → Bool) → (A → A) → List A → List A
  update_where p f [] = []
  update_where p f (r ∷ rs) = (if p r then f r else r) ∷ update_where p f rs

  -- The rows that a `WHERE` selects; `RowsAffected` of an update.
  unfoldable pub count_where : (A → Bool) → List A → ℕ
  count_where p [] = 0
  count_where p (r ∷ rs) = (if p r then 1 else 0) + count_where p rs

abbrev pub is_set {ℓ} : {A : Type ℓ} → Option A → Bool
is_set none = false
is_set (some a) = true

-- `nullableString`.
unfoldable pub nullable_string : String → Option String
nullable_string s = if str_eq s "" then none else some s
