-- ===== src/Store/Oauth/Revoke.antt =====
-- What the reuse of a code or of a refresh token does to its grant (internal/store/oauth.go).
use one_ssh.Base.{
  ℕ, String, Bool, true, false, not, ◌&&◌, ◌||◌, List, [], ◌∷◌, Option, none, some, str_eq, any,
  ◌==◌, find_first, ◌≡◌, refl, sym, ap, ◌∙◌, arith, inl, inr, Bool-cases, Option-cases, subst,
}
use one_ssh.Store.{
  TokenRow, CodeRow, RefreshRow, Db, err, code_reuse, refresh_reuse, Faults, update_where, is_set,
}
use one_ssh.Store.Tokens.{revoke_grant, revoke_grant_tx, find_token, is_live}
use one_ssh.Store.Oauth.{
  Exchange, Rotation, find_code, find_refresh, fits, exchange_code, exchange, is_refused,
  punish_code, punish_refresh, rotate_token, rotate,
}
use one_ssh.Base.{ℕ, ◌≤◌, all}

-- A transaction in which no statement fails.
abbrev pub no_faults : Faults
no_faults s = false

-- The access token belongs to the grant.
abbrev pub belongs : String → ℕ → List RefreshRow → Bool
belongs grant id rows = any (λ r. str_eq r.grant_id grant && r.access_token_id == id) rows

abbrev pub is_cut_off : String → RefreshRow → Bool
is_cut_off grant r = not (str_eq r.grant_id grant) || is_set r.revoked_at

revoke_rows :
    (grant : String) (now : ℕ) (rows : List RefreshRow)
    → all (is_cut_off grant) (
        update_where
          (λ r. str_eq r.grant_id grant && not (is_set r.revoked_at))
          (λ r. record r { revoked_at = some now })
          rows)
      ≡ true
unfolding update_where
revoke_rows grant now [] = refl
revoke_rows grant now (r ∷ rs) = ground (arith, revoke_rows grant now rs)

expired_row :
    (hash resource : String) (require : Bool) (now later : ℕ) (t : TokenRow)
    → now ≤ later
    → is_live hash resource require later (record t { expires_at = some now }) ≡ false
unfolding is_live
expired_row hash resource require now later t le = ground arith

hidden_rows :
    (p : TokenRow → Bool) (q : ℕ → Bool) (hash resource : String) (require : Bool) (now later : ℕ)
    (ts : List TokenRow) (t : TokenRow)
    → ((t : TokenRow) → p t ≡ q t.id)
    → now ≤ later
    → find_first
        (is_live hash resource require later)
        (update_where p (λ t. record t { expires_at = some now }) ts)
      ≡ some t
    → q t.id ≡ false
unfolding update_where
hidden_rows p q hash resource require now later [] t pq le h = cc
hidden_rows p q hash resource require now later (u ∷ us) t pq le h =
    let dead = expired_row hash resource require now later u le in
    let ih = hidden_rows p q hash resource require now later us t pq le in
    let qu = pq u in
    elim (Bool-cases (p u)) [
      | inl e ↦ ih (ground arith)
      | inr e ↦ elim (Bool-cases (is_live hash resource require later u)) [
        | inl l ↦ (let same : u ≡ t = ground arith in subst (λ v. q v.id ≡ false) same (sym qu ∙ e))
        | inr l ↦ ih (ground arith)
      ]
    ]

revoke_grant-hides :
    (grant : String) (now : ℕ) (db : Db) (hash resource : String) (require : Bool) (later : ℕ)
    (t : TokenRow)
    → now ≤ later
    → find_token hash resource require later (revoke_grant grant now db) ≡ some t
    → belongs grant t.id db.refresh ≡ false
unfolding revoke_grant find_token
revoke_grant-hides grant now db hash resource require later t le h =
    hidden_rows (λ t. belongs grant t.id db.refresh) (λ id. belongs grant id db.refresh) hash
      resource require now later db.tokens t (λ t. refl) le h

-- Presenting a used code, with all that belongs to it, is answered with the reuse error, and what
-- is committed is the revocation of the code's grant.
replay :
    (x : Exchange) (db : Db) (c : CodeRow) (grant : String)
    → find_code x.code_hash db ≡ some c
    → fits c x ≡ true
    → is_set c.used_at ≡ true
    → c.grant_id ≡ some grant
    → exchange no_faults x db ≡ (err code_reuse, revoke_grant grant x.now db)
unfolding exchange exchange_code punish_code revoke_grant_tx
replay x db c grant f ok_ used g = rw f (rw ok_ (rw used (rw g refl)))

replay_rotation :
    (x : Rotation) (db : Db) (token : RefreshRow)
    → find_refresh x.token_hash db ≡ some token
    → is_refused token x ≡ false
    → is_set token.used_at ≡ true
    → rotate no_faults x db ≡ (err refresh_reuse, revoke_grant token.grant_id x.now db)
unfolding rotate rotate_token punish_refresh revoke_grant_tx
replay_rotation x db token f r used = rw f (rw r (rw used refl))

-- What a look-up finds, if anything, is not an access token of the grant.
abbrev pub is_foreign : String → List RefreshRow → Option TokenRow → Bool
is_foreign grant rows none = true
is_foreign grant rows (some t) = not (belongs grant t.id rows)

revoke_grant-is_foreign :
    (grant : String) (now : ℕ) (db : Db) (hash resource : String) (require : Bool) (later : ℕ)
    → now ≤ later
    → is_foreign grant db.refresh
        (find_token hash resource require later (revoke_grant grant now db))
      ≡ true
revoke_grant-is_foreign grant now db hash resource require later le =
    elim (Option-cases (find_token hash resource require later (revoke_grant grant now db))) [
      | inl e ↦ rw e refl
      | inr (t, e) ↦ rw (e, revoke_grant-hides grant now db hash resource require later t le e) refl
    ]

-- A used code that is presented again, with all that was bound to it, and with no statement failing:
-- the answer is the error for a reused code; every refresh token of its grant is revoked; and a
-- look-up of an access token at that time or later finds nothing, or a token that is not of the
-- grant.
pub code_replay :
    (x : Exchange) (db : Db) (c : CodeRow) (grant hash resource : String) (require : Bool)
    (later : ℕ)
    → find_code x.code_hash db ≡ some c
    → fits c x ≡ true
    → is_set c.used_at ≡ true
    → c.grant_id ≡ some grant
    → x.now ≤ later
    → ((exchange no_faults x db).0 ≡ err code_reuse)
      × (all (is_cut_off grant) (exchange no_faults x db).1.refresh ≡ true)
      × (is_foreign grant db.refresh
            (find_token hash resource require later (exchange no_faults x db).1)
          ≡ true)
unfolding revoke_grant
code_replay x db c grant hash resource require later f ft used g le =
    let r = replay x db c grant f ft used g in
    (
      ap (λ p. p.0) r,
      ap (λ p. all (is_cut_off grant) p.1.refresh) r ∙ revoke_rows grant x.now db.refresh,
      ap (λ p. is_foreign grant db.refresh (find_token hash resource require later p.1)) r
          ∙ revoke_grant-is_foreign grant x.now db hash resource require later le,
    )

-- A used refresh token that is presented again by its client, neither expired nor revoked, with no
-- statement failing: the answer is the error for a reused refresh token; every refresh token of its
-- grant is revoked; and a look-up of an access token at that time or later finds nothing, or a token
-- that is not of the grant.
pub refresh_replay :
    (x : Rotation) (db : Db) (token : RefreshRow) (hash resource : String) (require : Bool)
    (later : ℕ)
    → find_refresh x.token_hash db ≡ some token
    → is_refused token x ≡ false
    → is_set token.used_at ≡ true
    → x.now ≤ later
    → ((rotate no_faults x db).0 ≡ err refresh_reuse)
      × (all (is_cut_off token.grant_id) (rotate no_faults x db).1.refresh ≡ true)
      × (is_foreign token.grant_id db.refresh
            (find_token hash resource require later (rotate no_faults x db).1)
          ≡ true)
unfolding revoke_grant
refresh_replay x db token hash resource require later f ft used le =
    let r = replay_rotation x db token f ft used in
    (
      ap (λ p. p.0) r,
      ap (λ p. all (is_cut_off token.grant_id) p.1.refresh) r
          ∙ revoke_rows token.grant_id x.now db.refresh,
      ap (λ p. is_foreign token.grant_id db.refresh (find_token hash resource require later p.1)) r
          ∙ revoke_grant-is_foreign token.grant_id x.now db hash resource require later le,
    )
