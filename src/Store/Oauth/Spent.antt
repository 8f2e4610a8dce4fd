-- ===== src/Store/Oauth/Spent.antt =====
-- Used codes, histories of operations, and what keeps the tables of a transaction that fails
-- (internal/store/oauth.go).
use one_ssh.Base.{
  ℕ, String, Bool, true, false, not, ◌||◌, List, [], ◌∷◌, Option, none, some, if◌then◌else◌, str_eq,
  any, find_first, ◌≡◌, refl, sym, ap, ◌∙◌, arith, subst,
}
use one_ssh.Store.{
  CodeRow, RefreshRow, Db, Result, ok, err, Faults, begin, read, commit, update_where, is_set,
}
use one_ssh.Store.Tokens.{revoke_grant, revoke_grant_tx, settle}
use one_ssh.Store.Oauth.{
  insert_refresh_tx, redeem_tx, rotate_tx, Exchange, Rotation, is_unused, find_code, find_refresh,
  create_code, create_refresh, fits, exchange_code, exchange, is_refused, punish_code,
  punish_refresh, rotate_token, rotate,
}
use one_ssh.Store.Oauth.Frame.{redeem_tx-Redeemed, rotate_tx-Rotated}

-- The code is on record, and every record of it is used.
pub record IsSpent (hash : String) (codes : List CodeRow) : Type 0 where
  pub known : any (λ c. str_eq c.code_hash hash) codes ≡ true
  pub used : any (is_unused hash) codes ≡ false

mark-known :
    (p : CodeRow → Bool) (now : ℕ) (grant hash : String) (codes : List CodeRow)
    → any
        (λ c. str_eq c.code_hash hash)
        (update_where p (λ c. record c { used_at = some now; grant_id = some grant }) codes)
      ≡ any (λ c. str_eq c.code_hash hash) codes
unfolding update_where
mark-known p now grant hash [] = refl
mark-known p now grant hash (c ∷ cs) = ground (arith, mark-known p now grant hash cs)

mark-used :
    (now : ℕ) (grant hash : String) (codes : List CodeRow)
    → any (is_unused hash) (
        update_where
          (is_unused hash)
          (λ c. record c { used_at = some now; grant_id = some grant })
          codes)
      ≡ false
unfolding update_where
mark-used now grant hash [] = refl
mark-used now grant hash (c ∷ cs) = ground (arith, mark-used now grant hash cs)

mark-unused :
    (p : CodeRow → Bool) (now : ℕ) (grant hash : String) (codes : List CodeRow)
    → any (is_unused hash) codes ≡ false
    → any
        (is_unused hash)
        (update_where p (λ c. record c { used_at = some now; grant_id = some grant }) codes)
      ≡ false
unfolding update_where
mark-unused p now grant hash [] h = refl
mark-unused p now grant hash (c ∷ cs) h = ground (arith, mark-unused p now grant hash cs)

pub find-known :
    (p : CodeRow → Bool) (codes : List CodeRow) (c : CodeRow)
    → find_first p codes ≡ some c
    → any p codes ≡ true
find-known p [] c h = cc
find-known p (d ∷ ds) c h = ground (arith, find-known p ds c)

pub find-used :
    (hash : String) (codes : List CodeRow) (c : CodeRow)
    → any (is_unused hash) codes ≡ false
    → find_first (λ d. str_eq d.code_hash hash) codes ≡ some c
    → is_set c.used_at ≡ true
find-used hash [] c u h = cc
find-used hash (d ∷ ds) c u h = ground (arith, find-used hash ds c)

-- An operation of the store on codes and refresh tokens, with the faults it meets.
pub data Op : Type 0 where
  op_create_code : CodeRow → Op
  op_exchange : Exchange → Op
  op_create_refresh : RefreshRow → Op
  op_rotate : Rotation → Op

unfoldable pub apply_op : Faults → Op → Db → Db
unfolding create_code exchange create_refresh rotate
apply_op fails (op_create_code c) db = (create_code fails c db).1
apply_op fails (op_exchange x) db = (exchange fails x db).1
apply_op fails (op_create_refresh r) db = (create_refresh fails r db).1
apply_op fails (op_rotate x) db = (rotate fails x db).1

unfoldable pub history : List (Faults × Op) → Db → Db
unfolding apply_op
history [] db = db
history (o ∷ os) db = history os (apply_op o.0 o.1 db)

redeem_tx-IsSpent :
    (hash : String) (fails : Faults) (code : CodeRow) (x : Exchange) (db : Db) (code' : CodeRow)
    (db' : Db)
    → IsSpent hash db.codes
    → redeem_tx fails code x db ≡ ok (code', db')
    → IsSpent hash db'.codes
redeem_tx-IsSpent hash fails code x db code' db' s h =
    let r = redeem_tx-Redeemed fails code x db code' db' h in
    record {
      known =
          ap (any (λ c. str_eq c.code_hash hash)) r.codes
          ∙ mark-known (is_unused x.code_hash) x.now x.grant_id hash db.codes
          ∙ s.known;
      used =
          ap (any (is_unused hash)) r.codes
          ∙ mark-unused (is_unused x.code_hash) x.now x.grant_id hash db.codes s.used;
    }

pub redeem_tx-spends :
    (fails : Faults) (code : CodeRow) (x : Exchange) (db : Db) (code' : CodeRow) (db' : Db)
    → any (λ c. str_eq c.code_hash x.code_hash) db.codes ≡ true
    → redeem_tx fails code x db ≡ ok (code', db')
    → IsSpent x.code_hash db'.codes
redeem_tx-spends fails code x db code' db' s h =
    let r = redeem_tx-Redeemed fails code x db code' db' h in
    record {
      known =
          ap (any (λ c. str_eq c.code_hash x.code_hash)) r.codes
          ∙ mark-known (is_unused x.code_hash) x.now x.grant_id x.code_hash db.codes
          ∙ s;
      used =
          ap (any (is_unused x.code_hash)) r.codes
          ∙ mark-used x.now x.grant_id x.code_hash db.codes;
    }

pub settle-ok {ℓ} :
    {A : Type ℓ} {S : Type 0} (fails : Faults) (db : S) (m : Result (A × S)) (a : A)
    → (settle fails db m).0 ≡ ok a
    → (db' : S) × (m ≡ ok (a, db')) × ((settle fails db m).1 ≡ db')
settle-ok fails db (err e) a h = cc
settle-ok fails db (ok (b, db')) a h = (db', ground arith, ground arith)

pub if-keeps {ℓ} :
    {A : Type ℓ} (P : A → Type 0) (t : Bool) {a b : A} → P a → P b → P (if t then a else b)
if-keeps P true p q = p
if-keeps P false p q = q

-- A property of the tables holds after a transaction if it holds before and where the transaction ends well.
pub settle-keeps {ℓ} :
    {A : Type ℓ} {S : Type 0} (P : S → Type 0) (fails : Faults) (db : S) (m : Result (A × S))
    → P db
    → ((a : A) (db' : S) → m ≡ ok (a, db') → P db')
    → P (settle fails db m).1
settle-keeps {A = A} {S} P fails db (err e) p f = p
settle-keeps {A = A} {S} P fails db (ok (a, db')) p f =
    if-keeps (λ (r : Result A × S). P r.1) (fails commit) p (f a db' refl)

pub punish_code-codes :
    (fails : Faults) (grant : Option String) (now : ℕ) (db : Db)
    → (punish_code fails grant now db).1.codes ≡ db.codes
unfolding punish_code revoke_grant_tx revoke_grant
punish_code-codes fails none now db = refl
punish_code-codes fails (some g) now db = ground arith

exchange_code-IsSpent :
    (hash : String) (fails : Faults) (x : Exchange) (db : Db) (c : Option CodeRow)
    → IsSpent hash db.codes
    → IsSpent hash (exchange_code fails x db c).1.codes
unfolding exchange_code
exchange_code-IsSpent hash fails x db none s = s
exchange_code-IsSpent hash fails x db (some code) s =
    if-keeps (λ (r : Result CodeRow × Db). IsSpent hash r.1.codes) (not (fits code x)) s
      (if-keeps (λ (r : Result CodeRow × Db). IsSpent hash r.1.codes) (is_set code.used_at)
        (subst (IsSpent hash) (sym (punish_code-codes fails code.grant_id x.now db)) s)
        (settle-keeps (λ d. IsSpent hash d.codes) fails db (redeem_tx fails code x db) s
          (λ code' db' h. redeem_tx-IsSpent hash fails code x db code' db' s h)))

pub exchange-IsSpent :
    (hash : String) (fails : Faults) (x : Exchange) (db : Db)
    → IsSpent hash db.codes
    → IsSpent hash (exchange fails x db).1.codes
unfolding exchange
exchange-IsSpent hash fails x db s =
    if-keeps (λ (r : Result CodeRow × Db). IsSpent hash r.1.codes) (fails begin || fails read) s
      (exchange_code-IsSpent hash fails x db (find_code x.code_hash db) s)

rotate_token-codes :
    (fails : Faults) (x : Rotation) (db : Db) (t : Option RefreshRow)
    → (rotate_token fails x db t).1.codes ≡ db.codes
unfolding rotate_token punish_refresh revoke_grant_tx revoke_grant
rotate_token-codes fails x db none = refl
rotate_token-codes fails x db (some t) =
    if-keeps (λ (r : Result RefreshRow × Db). r.1.codes ≡ db.codes) (is_refused t x) refl
      (if-keeps (λ (r : Result RefreshRow × Db). r.1.codes ≡ db.codes) (is_set t.used_at)
        (ground arith)
        (settle-keeps (λ d. d.codes ≡ db.codes) fails db (rotate_tx fails t x db) refl
          (λ t' db' h. (rotate_tx-Rotated fails t x db t' db' h).codes)))

pub rotate-codes :
    (fails : Faults) (x : Rotation) (db : Db) → (rotate fails x db).1.codes ≡ db.codes
unfolding rotate
rotate-codes fails x db =
    if-keeps (λ (r : Result RefreshRow × Db). r.1.codes ≡ db.codes) (fails begin || fails read) refl
      (rotate_token-codes fails x db (find_refresh x.token_hash db))

pub create_refresh-codes :
    (fails : Faults) (row : RefreshRow) (db : Db) → (create_refresh fails row db).1.codes ≡ db.codes
unfolding create_refresh insert_refresh_tx
create_refresh-codes fails row db = ground arith
