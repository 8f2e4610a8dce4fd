-- ===== src/Store/Oauth/History.antt =====
-- Repeated exchanges of one code, in internal/store/oauth.go.
use one_ssh.Base.{
  ℕ, String, true, false, not, ◌||◌, List, [], ◌∷◌, Option, none, some, str_eq, any, find_first,
  ◌≡◌, ◌≢◌, refl, sym, arith, inl, inr, Bool-cases, subst,
}
use one_ssh.Store.{CodeRow, Db, Result, ok, err, Faults, begin, read, insert_token, is_set}
use one_ssh.Store.Tokens.{encode_disabled_tools, revoke_grant, revoke_grant_tx}
use one_ssh.Store.Oauth.{
  redeem_tx, Exchange, find_code, insert_code, create_code, fits, exchange_code, exchange,
  punish_code,
}
use one_ssh.Base.{eq_iff, or_true}
use one_ssh.Store.Oauth.Spent.{
  op_create_code, op_exchange, op_create_refresh, op_rotate, IsSpent, find-known, find-used, Op,
  apply_op, history, redeem_tx-spends, settle-ok, exchange-IsSpent, rotate-codes,
  create_refresh-codes,
}

other_hash :
    (hash : String) (c : CodeRow) (codes : List CodeRow)
    → any (λ d. str_eq d.code_hash hash) codes ≡ true
    → any (λ d. str_eq d.code_hash c.code_hash) codes ≡ false
    → str_eq c.code_hash hash ≡ false
other_hash hash c codes k n = elim (Bool-cases (str_eq c.code_hash hash)) [
  | inl e ↦
      let q =
        subst (λ h. any (λ d. str_eq d.code_hash h) codes ≡ false) ((eq_iff c.code_hash hash).0 e)
          n in
      cc
  | inr e ↦ e
]

insert_code-IsSpent :
    (hash : String) (fails : Faults) (c : CodeRow) (db : Db) (l : Result (List (List ℕ)))
    → IsSpent hash db.codes
    → IsSpent hash (insert_code fails c db l).1.codes
unfolding insert_code
insert_code-IsSpent hash fails c db (err e) s = s
insert_code-IsSpent hash fails c db (ok l) s =
    elim (Bool-cases (fails insert_token || any (λ d. str_eq d.code_hash c.code_hash) db.codes)) [
      | inl e ↦ rw e s
      | inr e ↦
          let n : any (λ d. str_eq d.code_hash c.code_hash) db.codes ≡ false = ground arith in
          let o = other_hash hash c db.codes s.known n in
          rw e (record { known = or_true _ _ (inr s.known); used = ground arith })
    ]

create_code-IsSpent :
    (hash : String) (fails : Faults) (c : CodeRow) (db : Db)
    → IsSpent hash db.codes
    → IsSpent hash (create_code fails c db).1.codes
unfolding create_code
create_code-IsSpent hash fails c db s =
    insert_code-IsSpent hash fails c db (encode_disabled_tools c.disabled_tools) s

apply_op-IsSpent :
    (hash : String) (fails : Faults) (o : Op) (db : Db)
    → IsSpent hash db.codes
    → IsSpent hash (apply_op fails o db).codes
unfolding apply_op
apply_op-IsSpent hash fails (op_create_code c) db s = create_code-IsSpent hash fails c db s
apply_op-IsSpent hash fails (op_exchange x) db s = exchange-IsSpent hash fails x db s
apply_op-IsSpent hash fails (op_create_refresh r) db s =
    subst (IsSpent hash) (sym (create_refresh-codes fails r db)) s
apply_op-IsSpent hash fails (op_rotate x) db s =
    subst (IsSpent hash) (sym (rotate-codes fails x db)) s

history-IsSpent :
    (hash : String) (os : List (Faults × Op)) (db : Db)
    → IsSpent hash db.codes
    → IsSpent hash (history os db).codes
unfolding history
history-IsSpent hash [] db s = s
history-IsSpent hash (o ∷ os) db s =
    history-IsSpent hash os (apply_op o.0 o.1 db) (apply_op-IsSpent hash o.0 o.1 db s)

punish_code-refused :
    (fails : Faults) (grant : Option String) (now : ℕ) (db : Db) (c : CodeRow)
    → (punish_code fails grant now db).0 ≢ ok c
unfolding punish_code revoke_grant_tx revoke_grant
punish_code-refused fails none now db c h = ground arith
punish_code-refused fails (some g) now db c h = ground arith

spent_code-refused :
    (fails : Faults) (x : Exchange) (db : Db) (f : Option CodeRow) (c : CodeRow)
    → ((d : CodeRow) → f ≡ some d → is_set d.used_at ≡ true)
    → (exchange_code fails x db f).0 ≢ ok c
unfolding exchange_code
spent_code-refused fails x db none c u h = cc
spent_code-refused fails x db (some d) c u h =
    let used = u d refl in let q = punish_code-refused fails d.grant_id x.now db c in ground arith

spent-refused :
    (fails : Faults) (x : Exchange) (db : Db) (c : CodeRow)
    → IsSpent x.code_hash db.codes
    → (exchange fails x db).0 ≢ ok c
unfolding exchange find_code
spent-refused fails x db c s h =
    let q =
      spent_code-refused fails x db (find_first (λ d. str_eq d.code_hash x.code_hash) db.codes) c
        (λ d e. find-used x.code_hash db.codes d s.used e) in
    ground arith

exchange_code-spends :
    (fails : Faults) (x : Exchange) (db : Db) (f : Option CodeRow) (c : CodeRow)
    → ((d : CodeRow) → f ≡ some d → any (λ d. str_eq d.code_hash x.code_hash) db.codes ≡ true)
    → (exchange_code fails x db f).0 ≡ ok c
    → IsSpent x.code_hash (exchange_code fails x db f).1.codes
unfolding exchange_code
exchange_code-spends fails x db none c k h = cc
exchange_code-spends fails x db (some d) c k h =
    let q = punish_code-refused fails d.grant_id x.now db c in
    let t1 : not (fits d x) ≡ false = ground arith in
    let t2 : is_set d.used_at ≡ false = ground arith in
    let (db', m, r) = settle-ok fails db (redeem_tx fails d x db) c (ground arith) in
    rw t1 (rw t2 (rw r (redeem_tx-spends fails d x db c db' (k d refl) m)))

exchange-spends :
    (fails : Faults) (x : Exchange) (db : Db) (c : CodeRow)
    → (exchange fails x db).0 ≡ ok c
    → IsSpent x.code_hash (exchange fails x db).1.codes
unfolding exchange find_code
exchange-spends fails x db c h = elim (Bool-cases (fails begin || fails read)) [
  | inl e ↦ ground arith
  | inr e ↦ rw e (
      exchange_code-spends fails x db (find_first (λ d. str_eq d.code_hash x.code_hash) db.codes) c
        (λ d k. find-known (λ d. str_eq d.code_hash x.code_hash) db.codes d k) (ground arith))
]

-- A code that was exchanged once with success is never exchanged with success again, whatever
-- operations on codes and refresh tokens come in between and whichever of their statements fail.
pub exchange_once :
    (fails : Faults) (x : Exchange) (db : Db) (c : CodeRow) (os : List (Faults × Op))
    → (fails' : Faults) (x' : Exchange) (c' : CodeRow) → (exchange fails x db).0 ≡ ok c
    → str_eq x'.code_hash x.code_hash ≡ true
    → (exchange fails' x' (history os (exchange fails x db).1)).0 ≢ ok c'
exchange_once fails x db c os fails' x' c' h same =
    let s =
      history-IsSpent x.code_hash os (exchange fails x db).1 (exchange-spends fails x db c h) in
    let e = (eq_iff x'.code_hash x.code_hash).0 same in
    spent-refused fails' x' (history os (exchange fails x db).1) c'
      (subst (λ k. IsSpent k (history os (exchange fails x db).1).codes) (sym e) s)
