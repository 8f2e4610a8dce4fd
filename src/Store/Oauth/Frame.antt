-- ===== src/Store/Oauth/Frame.antt =====
-- What the parts of the transactions of internal/store/oauth.go change.
use one_ssh.Base.{
  ℕ, ◌+◌, Bool, true, false, not, ◌&&◌, ◌||◌, List, [], ◌∷◌, some, str_eq, any, ◌==◌, ◌≡◌, refl,
  sym, ap, ◌∙◌, arith,
}
use one_ssh.Store.{
  TokenRow, CodeRow, RefreshRow, Db, Result, ok, err, StoreError, code_reuse, refresh_reuse,
  db_error, ◌>>=◌, ◌>>◌, refuse, Faults, insert_host, update_row, update_where, count_where,
}
use one_ssh.Store.Tokens.{
  TokenCreate, encode_disabled_tools, new_row, insert_row, insert_hosts, create_token_tx,
}
use one_ssh.Store.Oauth.{
  insert_refresh_tx, redeem_tx, rotate_tx, Exchange, Rotation, is_unused, is_fresh, granted,
  first_refresh, renewed, next_refresh,
}

-- A step and the rest that end well: the step does, and the rest on its value.
pub >>=-eq-ok {κ ℓ} :
    {B : Type κ} {A : Type ℓ} (step : Result B) (rest : B → Result A) {last : A}
    → (step >>= rest) ≡ ok last
    → (value : B) × (step ≡ ok value) × (rest value ≡ ok last)
>>=-eq-ok (err e) rest h = cc
>>=-eq-ok (ok value) rest h = (value, refl, h)

pub refuse-eq-ok {ℓ} :
    {B : Type ℓ} (t : Bool) (e : StoreError) (m : Result B) {b : B}
    → (refuse t e >> m) ≡ ok b
    → (t ≡ false) × (m ≡ ok b)
refuse-eq-ok true e m h = cc
refuse-eq-ok false e m h = (refl, h)

ok-inj {ℓ} : {A : Type ℓ} {a b : A} → ok a ≡ ok b → a ≡ b
ok-inj h = cc

-- The tables of the OAuth server are the same.
pub record SameOauth (a b : Db) : Type 0 where
  pub codes : a.codes ≡ b.codes
  pub refresh : a.refresh ≡ b.refresh

insert_hosts-frame :
    (fails : Faults) (id : ℕ) (hosts : List ℕ) (db db' : Db)
    → insert_hosts fails id hosts db ≡ ok db'
    → SameOauth db' db × (db'.tokens ≡ db.tokens)
unfolding insert_hosts
insert_hosts-frame fails id [] db db' h = ground arith
insert_hosts-frame fails id (host ∷ hosts) db db' h =
    let (t, k) =
      refuse-eq-ok (fails insert_host || any (λ p. p.0 == id && p.1 == host) db.token_hosts)
        db_error
        (insert_hosts fails id hosts (record db { token_hosts = (id, host) ∷ db.token_hosts })) h in
    let (o, r) =
      insert_hosts-frame fails id hosts (record db { token_hosts = (id, host) ∷ db.token_hosts })
        db' k in
    (record { codes = o.codes; refresh = o.refresh }, r)

insert_row-ok :
    (fails : Faults) (row : TokenRow) (db db' : Db)
    → insert_row fails row db ≡ ok db'
    → db' ≡ record db { tokens = row ∷ db.tokens; next_id = db.next_id + 1 }
unfolding insert_row
insert_row-ok fails row db db' h = ground arith

-- What `createTokenTx` did, if it succeeded: one new row, under the next id.
pub record Created (t : TokenCreate) (now id : ℕ) (db db' : Db) : Type 0 where
  pub same : SameOauth db' db
  pub id_next : id ≡ db.next_id
  pub disabled : List (List ℕ)
  pub encoded : encode_disabled_tools t.disabled_tools ≡ ok disabled
  pub rows : db'.tokens ≡ new_row t disabled id now ∷ db.tokens

pub create_token_tx-Created :
    (fails : Faults) (t : TokenCreate) (now id : ℕ) (db db' : Db)
    → create_token_tx fails t now db ≡ ok (id, db')
    → Created t now id db db'
unfolding create_token_tx
create_token_tx-Created fails t now id db db' h =
    let (disabled, e, h1) = >>=-eq-ok (encode_disabled_tools t.disabled_tools) _ h in
    let (inserted, i, h2) =
      >>=-eq-ok (insert_row fails (new_row t disabled db.next_id now) db) _ h1 in
    let (linked, l, h3) = >>=-eq-ok (insert_hosts fails db.next_id t.host_ids inserted) _ h2 in
    let (o, k) = insert_hosts-frame fails db.next_id t.host_ids inserted linked l in
    let r = insert_row-ok fails (new_row t disabled db.next_id now) db inserted i in
    let linked_is : linked ≡ db' = ground arith in
    let id_is : db.next_id ≡ id = ground arith in
    record {
      same = record {
        codes = ap (λ d. d.codes) (sym linked_is) ∙ o.codes ∙ ap (λ d. d.codes) r;
        refresh = ap (λ d. d.refresh) (sym linked_is) ∙ o.refresh ∙ ap (λ d. d.refresh) r;
      };
      id_next = sym id_is;
      disabled = disabled;
      encoded = e;
      rows =
          ap (λ d. d.tokens) (sym linked_is)
          ∙ k
          ∙ ap (λ d. d.tokens) r
          ∙ ap (λ n. new_row t disabled n now ∷ db.tokens) id_is;
    }

-- What `insertOAuthRefreshTokenTx` did, if it succeeded: one new row, under a new hash.
pub record Inserted (row : RefreshRow) (db db' : Db) : Type 0 where
  pub disabled : List (List ℕ)
  pub encoded : encode_disabled_tools row.disabled_tools ≡ ok disabled
  pub is_new : any (λ r. str_eq r.token_hash row.token_hash) db.refresh ≡ false
  pub result : db' ≡ record db { refresh = record row { disabled_tools = disabled } ∷ db.refresh }

pub insert_refresh_tx-Inserted :
    (fails : Faults) (row : RefreshRow) (db db' : Db)
    → insert_refresh_tx fails row db ≡ ok db'
    → Inserted row db db'
unfolding insert_refresh_tx
insert_refresh_tx-Inserted fails row db db' h =
    let (disabled, e, h1) = >>=-eq-ok (encode_disabled_tools row.disabled_tools) _ h in
    record { disabled = disabled; encoded = e; is_new = ground arith; result = ground arith }

-- What a successful redemption of a code did.
pub record Redeemed (code : CodeRow) (x : Exchange) (db : Db) (code' : CodeRow) (db' : Db)
    : Type 0 where
  pub codes :
      db'.codes
      ≡ update_where
          (is_unused x.code_hash)
          (λ c. record c { used_at = some x.now; grant_id = some x.grant_id })
          db.codes
  pub result : code' ≡ record code { used_at = some x.now; grant_id = some x.grant_id }
  pub id : ℕ
  pub disabled : List (List ℕ)
  pub tokens : db'.tokens ≡ new_row (granted code x) disabled id x.now ∷ db.tokens
  pub refresh :
      db'.refresh ≡ record (first_refresh code x id) { disabled_tools = disabled } ∷ db.refresh
  pub encoded : encode_disabled_tools code.disabled_tools ≡ ok disabled
  pub is_new : any (λ r. str_eq r.token_hash x.refresh_token_hash) db.refresh ≡ false

pub redeem_tx-Redeemed :
    (fails : Faults) (code : CodeRow) (x : Exchange) (db : Db) (code' : CodeRow) (db' : Db)
    → redeem_tx fails code x db ≡ ok (code', db')
    → Redeemed code x db code' db'
unfolding redeem_tx
redeem_tx-Redeemed fails code x db code' db' h =
    let (created, c, h1) = >>=-eq-ok (create_token_tx fails (granted code x) x.now db) _ h in
    let (inserted, i, h2) =
      >>=-eq-ok (insert_refresh_tx fails (first_refresh code x created.0) created.1) _ h1 in
    let a = create_token_tx-Created fails (granted code x) x.now created.0 db created.1 c in
    let b =
      insert_refresh_tx-Inserted fails (first_refresh code x created.0) created.1 inserted i in
    let (t1, h3) = refuse-eq-ok (fails update_row) db_error _ h2 in
    let (t2, h4) =
      refuse-eq-ok (not (count_where (is_unused x.code_hash) inserted.codes == 1)) code_reuse _
        h3 in
    let same_codes : inserted.codes ≡ db.codes = ap (λ d. d.codes) b.result ∙ a.same.codes in
    let last_codes : db'.codes
        ≡ update_where (is_unused x.code_hash)
            (λ c. record c { used_at = some x.now; grant_id = some x.grant_id }) inserted.codes =
      ground arith in
    let result : code' ≡ record code { used_at = some x.now; grant_id = some x.grant_id } =
      ground arith in
    let same_tokens : db'.tokens ≡ inserted.tokens = ground arith in
    let same_refresh : db'.refresh ≡ inserted.refresh = ground arith in
    record {
      codes =
          last_codes
          ∙ ap
              (update_where (is_unused x.code_hash)
                (λ c. record c { used_at = some x.now; grant_id = some x.grant_id }))
              same_codes;
      result = result;
      id = created.0;
      disabled = a.disabled;
      tokens = same_tokens ∙ ap (λ d. d.tokens) b.result ∙ a.rows;
      refresh =
          same_refresh
          ∙ ap (λ d. d.refresh) b.result
          ∙ ap (λ r. record (first_refresh code x created.0) { disabled_tools = b.disabled } ∷ r)
              a.same.refresh
          ∙ ap (λ l. record (first_refresh code x created.0) { disabled_tools = l } ∷ db.refresh)
              (ok-inj (sym b.encoded ∙ a.encoded));
      encoded = a.encoded;
      is_new =
          ap (any (λ r. str_eq r.token_hash x.refresh_token_hash)) (sym a.same.refresh) ∙ b.is_new;
    }

-- What a successful rotation of a refresh token did.
pub record Rotated (token : RefreshRow) (x : Rotation) (db db' : Db) : Type 0 where
  pub id : ℕ
  pub disabled : List (List ℕ)
  pub codes : db'.codes ≡ db.codes
  pub tokens : db'.tokens ≡ new_row (renewed token x) disabled id x.now ∷ db.tokens
  pub refresh :
      db'.refresh
      ≡ record (next_refresh token x id) { disabled_tools = disabled }
        ∷ update_where (is_fresh x.token_hash) (λ r. record r { used_at = some x.now }) db.refresh
  pub encoded : encode_disabled_tools token.disabled_tools ≡ ok disabled
  pub is_new :
      any
        (λ r. str_eq r.token_hash x.refresh_token_hash)
        (update_where (is_fresh x.token_hash) (λ r. record r { used_at = some x.now }) db.refresh)
      ≡ false

pub rotate_tx-Rotated :
    (fails : Faults) (token : RefreshRow) (x : Rotation) (db : Db) (token' : RefreshRow) (db' : Db)
    → rotate_tx fails token x db ≡ ok (token', db')
    → Rotated token x db db'
unfolding rotate_tx
rotate_tx-Rotated fails token x db token' db' h =
    let (t1, h1) = refuse-eq-ok (fails update_row) db_error _ h in
    let (t2, h2) =
      refuse-eq-ok (not (count_where (is_fresh x.token_hash) db.refresh == 1)) refresh_reuse _ h1 in
    let marked : Db = record db {
      refresh =
          update_where (is_fresh x.token_hash) (λ r. record r { used_at = some x.now }) db.refresh;
    } in
    let (created, c, h3) = >>=-eq-ok (create_token_tx fails (renewed token x) x.now marked) _ h2 in
    let (inserted, i, h4) =
      >>=-eq-ok (insert_refresh_tx fails (next_refresh token x created.0) created.1) _ h3 in
    let a = create_token_tx-Created fails (renewed token x) x.now created.0 marked created.1 c in
    let b =
      insert_refresh_tx-Inserted fails (next_refresh token x created.0) created.1 inserted i in
    let same : inserted ≡ db' = ground arith in
    record {
      id = created.0;
      disabled = a.disabled;
      codes = ap (λ d. d.codes) (sym same ∙ b.result) ∙ a.same.codes;
      tokens = ap (λ d. d.tokens) (sym same ∙ b.result) ∙ a.rows;
      refresh =
          ap (λ d. d.refresh) (sym same ∙ b.result)
          ∙ ap (λ r. record (next_refresh token x created.0) { disabled_tools = b.disabled } ∷ r)
              a.same.refresh
          ∙ ap
              (λ l. record (next_refresh token x created.0) { disabled_tools = l } ∷ marked.refresh)
              (ok-inj (sym b.encoded ∙ a.encoded));
      encoded = a.encoded;
      is_new =
          ap (any (λ r. str_eq r.token_hash x.refresh_token_hash)) (sym a.same.refresh) ∙ b.is_new;
    }
