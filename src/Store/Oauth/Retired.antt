-- ===== src/Store/Oauth/Retired.antt =====
-- Refresh tokens that have been used or revoked, in internal/store/oauth.go.
use one_ssh.Base.{
  ℕ, String, Bool, true, false, not, ◌||◌, ◌&&◌, List, [], ◌∷◌, Option, none, some, if◌then◌else◌,
  str_eq, any, find_first, ◌≡◌, ◌≢◌, refl, sym, ◌∙◌, arith, inl, inr, Bool-cases, subst, eq_iff,
  or_true,
}
use one_ssh.Store.{
  CodeRow, RefreshRow, Db, Result, ok, err, Faults, begin, read, insert_token, revoke, commit,
  update_where, is_set, empty_grant, db_error, grant_revoked,
}
use one_ssh.Store.Tokens.{encode_disabled_tools, revoke_grant, revoke_grant_tx}
use one_ssh.Store.Oauth.{
  insert_refresh_tx, redeem_tx, rotate_tx, Exchange, Rotation, is_fresh, first_refresh,
  next_refresh, find_code, find_refresh, insert_code, create_code, create_refresh, fits,
  exchange_code, exchange, is_refused, punish_code, punish_refresh, rotate_token, rotate,
}
use one_ssh.Store.Oauth.Frame.{
  redeem_tx-Redeemed, rotate_tx-Rotated, insert_refresh_tx-Inserted, >>=-eq-ok, refuse-eq-ok,
}
use one_ssh.Store.Oauth.Spent.{
  Op, op_create_code, op_exchange, op_create_refresh, op_rotate, apply_op, history, if-keeps,
  settle-keeps,
}

-- The refresh token is on record, and every record of it is used or revoked.
pub record IsRetired (hash : String) (rows : List RefreshRow) : Type 0 where
  pub known : any (λ r. str_eq r.token_hash hash) rows ≡ true
  pub none_fresh : any (is_fresh hash) rows ≡ false

mark-IsRetired :
    (p : RefreshRow → Bool) (now : ℕ) (hash : String) (rows : List RefreshRow)
    → IsRetired hash rows
    → IsRetired hash (update_where p (λ r. record r { used_at = some now }) rows)
unfolding update_where
mark-IsRetired p now hash rows s = record {
  known = known rows ∙ s.known;
  none_fresh = kept rows s.none_fresh;
}
  where
    known :
        (rs : List RefreshRow)
        → any
            (λ r. str_eq r.token_hash hash)
            (update_where p (λ r. record r { used_at = some now }) rs)
          ≡ any (λ r. str_eq r.token_hash hash) rs
    known [] = refl
    known (r ∷ rs) = ground (arith, known rs)

    kept :
        (rs : List RefreshRow)
        → any (is_fresh hash) rs ≡ false
        → any (is_fresh hash) (update_where p (λ r. record r { used_at = some now }) rs) ≡ false
    kept [] h = refl
    kept (r ∷ rs) h = ground (arith, kept rs)

revoke-IsRetired :
    (p : RefreshRow → Bool) (now : ℕ) (hash : String) (rows : List RefreshRow)
    → IsRetired hash rows
    → IsRetired hash (update_where p (λ r. record r { revoked_at = some now }) rows)
unfolding update_where
revoke-IsRetired p now hash rows s = record {
  known = known rows ∙ s.known;
  none_fresh = kept rows s.none_fresh;
}
  where
    known :
        (rs : List RefreshRow)
        → any
            (λ r. str_eq r.token_hash hash)
            (update_where p (λ r. record r { revoked_at = some now }) rs)
          ≡ any (λ r. str_eq r.token_hash hash) rs
    known [] = refl
    known (r ∷ rs) = ground (arith, known rs)

    kept :
        (rs : List RefreshRow)
        → any (is_fresh hash) rs ≡ false
        → any (is_fresh hash) (update_where p (λ r. record r { revoked_at = some now }) rs) ≡ false
    kept [] h = refl
    kept (r ∷ rs) h = ground (arith, kept rs)

other_hash :
    (hash fresh : String) (rows : List RefreshRow)
    → any (λ r. str_eq r.token_hash hash) rows ≡ true
    → any (λ r. str_eq r.token_hash fresh) rows ≡ false
    → str_eq fresh hash ≡ false
other_hash hash fresh rows k n = elim (Bool-cases (str_eq fresh hash)) [
  | inl e ↦
      let q =
        subst (λ h. any (λ r. str_eq r.token_hash h) rows ≡ false) ((eq_iff fresh hash).0 e) n in
      cc
  | inr e ↦ e
]

-- A new row under another hash.
insert-IsRetired :
    (hash : String) (row : RefreshRow) (rows : List RefreshRow)
    → IsRetired hash rows
    → any (λ r. str_eq r.token_hash row.token_hash) rows ≡ false
    → IsRetired hash (row ∷ rows)
insert-IsRetired hash row rows s n =
    let o = other_hash hash row.token_hash rows s.known n in
    record { known = or_true _ _ (inr s.known); none_fresh = ground (arith, s.none_fresh) }

redeem_tx-IsRetired :
    (hash : String) (fails : Faults) (code : CodeRow) (x : Exchange) (db : Db) (code' : CodeRow)
    (db' : Db)
    → IsRetired hash db.refresh
    → redeem_tx fails code x db ≡ ok (code', db')
    → IsRetired hash db'.refresh
redeem_tx-IsRetired hash fails code x db code' db' s h =
    let r = redeem_tx-Redeemed fails code x db code' db' h in
    subst (IsRetired hash) (sym r.refresh) (
      insert-IsRetired hash (record (first_refresh code x r.id) { disabled_tools = r.disabled })
        db.refresh s r.is_new)

rotate_tx-IsRetired :
    (hash : String) (fails : Faults) (token : RefreshRow) (x : Rotation) (db : Db)
    (token' : RefreshRow) (db' : Db)
    → IsRetired hash db.refresh
    → rotate_tx fails token x db ≡ ok (token', db')
    → IsRetired hash db'.refresh
rotate_tx-IsRetired hash fails token x db token' db' s h =
    let r = rotate_tx-Rotated fails token x db token' db' h in
    let marked = mark-IsRetired (is_fresh x.token_hash) x.now hash db.refresh s in
    subst (IsRetired hash) (sym r.refresh) (
      insert-IsRetired hash (record (next_refresh token x r.id) { disabled_tools = r.disabled }) _
        marked r.is_new)

punish_code-IsRetired :
    (hash : String) (fails : Faults) (grant : Option String) (now : ℕ) (db : Db)
    → IsRetired hash db.refresh
    → IsRetired hash (punish_code fails grant now db).1.refresh
unfolding punish_code revoke_grant_tx revoke_grant
punish_code-IsRetired hash fails none now db s = s
punish_code-IsRetired hash fails (some g) now db s =
    let r =
      revoke-IsRetired (λ r. str_eq r.grant_id g && not (is_set r.revoked_at)) now hash db.refresh
        s in
    let e : (punish_code fails (some g) now db).1.refresh
        ≡ (if fails revoke || fails commit then db.refresh else (revoke_grant g now db).refresh) =
      ground arith in
    subst (IsRetired hash) (sym e) (if-keeps (IsRetired hash) (fails revoke || fails commit) s r)

punish_refresh-IsRetired :
    (hash : String) (fails : Faults) (t : RefreshRow) (now : ℕ) (db : Db)
    → IsRetired hash db.refresh
    → IsRetired hash (punish_refresh fails t now db).1.refresh
unfolding punish_refresh revoke_grant_tx revoke_grant
punish_refresh-IsRetired hash fails t now db s =
    let r =
      revoke-IsRetired (λ r. str_eq r.grant_id t.grant_id && not (is_set r.revoked_at)) now hash
        db.refresh s in
    let e : (punish_refresh fails t now db).1.refresh ≡ (
        if fails revoke || fails commit
        then db.refresh
        else (revoke_grant t.grant_id now db).refresh) =
      ground arith in
    subst (IsRetired hash) (sym e) (if-keeps (IsRetired hash) (fails revoke || fails commit) s r)

exchange_code-IsRetired :
    (hash : String) (fails : Faults) (x : Exchange) (db : Db) (c : Option CodeRow)
    → IsRetired hash db.refresh
    → IsRetired hash (exchange_code fails x db c).1.refresh
unfolding exchange_code
exchange_code-IsRetired hash fails x db none s = s
exchange_code-IsRetired hash fails x db (some code) s =
    if-keeps (λ (r : Result CodeRow × Db). IsRetired hash r.1.refresh) (not (fits code x)) s
      (if-keeps (λ (r : Result CodeRow × Db). IsRetired hash r.1.refresh) (is_set code.used_at)
        (punish_code-IsRetired hash fails code.grant_id x.now db s)
        (settle-keeps (λ d. IsRetired hash d.refresh) fails db (redeem_tx fails code x db) s
          (λ code' db' h. redeem_tx-IsRetired hash fails code x db code' db' s h)))

rotate_token-IsRetired :
    (hash : String) (fails : Faults) (x : Rotation) (db : Db) (t : Option RefreshRow)
    → IsRetired hash db.refresh
    → IsRetired hash (rotate_token fails x db t).1.refresh
unfolding rotate_token
rotate_token-IsRetired hash fails x db none s = s
rotate_token-IsRetired hash fails x db (some t) s =
    if-keeps (λ (r : Result RefreshRow × Db). IsRetired hash r.1.refresh) (is_refused t x) s
      (if-keeps (λ (r : Result RefreshRow × Db). IsRetired hash r.1.refresh) (is_set t.used_at)
        (punish_refresh-IsRetired hash fails t x.now db s)
        (settle-keeps (λ d. IsRetired hash d.refresh) fails db (rotate_tx fails t x db) s
          (λ t' db' h. rotate_tx-IsRetired hash fails t x db t' db' s h)))

insert_refresh_tx-IsRetired :
    (hash : String) (fails : Faults) (row : RefreshRow) (db db' : Db)
    → IsRetired hash db.refresh
    → insert_refresh_tx fails row db ≡ ok db'
    → IsRetired hash db'.refresh
insert_refresh_tx-IsRetired hash fails row db db' s h =
    let r = insert_refresh_tx-Inserted fails row db db' h in
    subst (λ d. IsRetired hash d.refresh) (sym r.result)
      (insert-IsRetired hash (record row { disabled_tools = r.disabled }) db.refresh s r.is_new)

insert_code-IsRetired :
    (hash : String) (fails : Faults) (c : CodeRow) (db : Db) (l : Result (List (List ℕ)))
    → IsRetired hash db.refresh
    → IsRetired hash (insert_code fails c db l).1.refresh
unfolding insert_code
insert_code-IsRetired hash fails c db (err e) s = s
insert_code-IsRetired hash fails c db (ok l) s =
    if-keeps (λ (r : Result (Unit {0}) × Db). IsRetired hash r.1.refresh)
      (fails insert_token || any (λ d. str_eq d.code_hash c.code_hash) db.codes) s s

create_refresh-IsRetired :
    (hash : String) (fails : Faults) (row : RefreshRow) (db : Db)
    → IsRetired hash db.refresh
    → IsRetired hash (create_refresh fails row db).1.refresh
unfolding create_refresh
create_refresh-IsRetired hash fails row db s =
    settle-keeps (λ d. IsRetired hash d.refresh) fails db _ s
      (λ u db' h.
        let (t1, h1) = refuse-eq-ok (str_eq row.grant_id "") empty_grant _ h in
        let (t2, h2) = refuse-eq-ok (fails begin || fails read) db_error _ h1 in
        let (t3, h3) =
          refuse-eq-ok (any (λ r. str_eq r.grant_id row.grant_id && is_set r.revoked_at) db.refresh)
            grant_revoked _ h2 in
        let (inserted, i, h4) = >>=-eq-ok (insert_refresh_tx fails row db) _ h3 in
        let same : inserted ≡ db' = ground arith in
        subst (λ d. IsRetired hash d.refresh) same
          (insert_refresh_tx-IsRetired hash fails row db inserted s i))

apply_op-IsRetired :
    (hash : String) (fails : Faults) (o : Op) (db : Db)
    → IsRetired hash db.refresh
    → IsRetired hash (apply_op fails o db).refresh
unfolding apply_op exchange rotate create_code
apply_op-IsRetired hash fails (op_create_code c) db s =
    insert_code-IsRetired hash fails c db (encode_disabled_tools c.disabled_tools) s
apply_op-IsRetired hash fails (op_exchange x) db s =
    if-keeps (λ (r : Result CodeRow × Db). IsRetired hash r.1.refresh) (fails begin || fails read) s
      (exchange_code-IsRetired hash fails x db (find_code x.code_hash db) s)
apply_op-IsRetired hash fails (op_create_refresh r) db s =
    create_refresh-IsRetired hash fails r db s
apply_op-IsRetired hash fails (op_rotate x) db s =
    if-keeps (λ (r : Result RefreshRow × Db). IsRetired hash r.1.refresh)
      (fails begin || fails read) s
      (rotate_token-IsRetired hash fails x db (find_refresh x.token_hash db) s)

history-IsRetired :
    (hash : String) (os : List (Faults × Op)) (db : Db)
    → IsRetired hash db.refresh
    → IsRetired hash (history os db).refresh
unfolding history
history-IsRetired hash [] db s = s
history-IsRetired hash (o ∷ os) db s =
    history-IsRetired hash os (apply_op o.0 o.1 db) (apply_op-IsRetired hash o.0 o.1 db s)

find-retired :
    (hash : String) (rows : List RefreshRow) (r : RefreshRow)
    → any (is_fresh hash) rows ≡ false
    → find_first (λ d. str_eq d.token_hash hash) rows ≡ some r
    → (is_set r.used_at || is_set r.revoked_at) ≡ true
find-retired hash [] r u h = cc
find-retired hash (d ∷ ds) r u h = ground (arith, find-retired hash ds r)

punish_refresh-refused :
    (fails : Faults) (t : RefreshRow) (now : ℕ) (db : Db) (c : RefreshRow)
    → (punish_refresh fails t now db).0 ≢ ok c
unfolding punish_refresh revoke_grant_tx
punish_refresh-refused fails t now db c h = ground arith

rotate_token-refused :
    (fails : Faults) (x : Rotation) (db : Db) (f : Option RefreshRow) (c : RefreshRow)
    → ((d : RefreshRow) → f ≡ some d → (is_set d.used_at || is_set d.revoked_at) ≡ true)
    → (rotate_token fails x db f).0 ≢ ok c
unfolding rotate_token is_refused
rotate_token-refused fails x db none c u h = cc
rotate_token-refused fails x db (some d) c u h =
    let dead = u d refl in let q = punish_refresh-refused fails d x.now db c in ground arith

-- A refresh token that is on record, all of its records used or revoked, is never exchanged with
-- success, whatever operations on codes and refresh tokens come before and whichever of their
-- statements fail.
pub rotate_never :
    (os : List (Faults × Op)) (db : Db) (fails : Faults) (x : Rotation) (c : RefreshRow)
    → IsRetired x.token_hash db.refresh
    → (rotate fails x (history os db)).0 ≢ ok c
unfolding rotate
rotate_never os db fails x c s h =
    let db' = history os db in
    let q = rotate_token-refused fails x db' (find_refresh x.token_hash db') c (λ d e.
      find-retired x.token_hash db'.refresh d (history-IsRetired x.token_hash os db s).none_fresh
        e) in
    ground arith
