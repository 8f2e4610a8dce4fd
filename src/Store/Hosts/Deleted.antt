-- ===== src/Store/Hosts/Deleted.antt =====
-- `DeleteHost` of internal/store/hosts_keys.go: what is left of a host.
use one_ssh.Base.{
  ℕ, String, Bool, true, false, not, ◌&&◌, ◌||◌, List, [], ◌∷◌, Option, none, some, any, all, keep,
  ltb, ◌==◌, ◌≡◌, refl, arith, Bool-cases, inl, inr, subst, sym, ◌∙◌, eq_refl,
}
use one_ssh.Store.{
  TokenRow, RefreshRow, ok, Faults, begin, read, revoke, delete_row, db_error, has_running_jobs,
  is_jump_host, no_rows, update_where, is_set,
}
use one_ssh.Store.Jobs.{is_running}
use one_ssh.Store.Oauth.Frame.{refuse-eq-ok}
use one_ssh.Store.Oauth.Spent.{settle-ok}
use one_ssh.Store.Hosts.{
  Inventory, jumps_to, is_restricted_to, forget_host, without_host, delete_host,
}

-- The row of a grant that is restricted to hosts, this one among them.
abbrev pub names_host : ℕ → RefreshRow → Bool
names_host id r = not r.all_hosts && any (λ h. h == id) r.host_ids

-- A token of the id may still be used at the time.
abbrev pub outlives : ℕ → TokenRow → Bool
outlives now t = elim t.expires_at [ none ↦ true | some e ↦ ltb now e ]

abbrev pub is_usable : ℕ → List TokenRow → ℕ → Bool
is_usable now tokens id = any (λ t. t.id == id && outlives now t) tokens

abbrev pub is_of : ℕ → Option ℕ → Bool
is_of id row = elim row [ none ↦ false | some host ↦ host == id ]

none-without_host :
    (id : ℕ) (rows : List (Option ℕ)) → any (is_of id) (without_host id rows) ≡ false
unfolding without_host
none-without_host id [] = refl
none-without_host id (none ∷ rows) = none-without_host id rows
none-without_host id (some host ∷ rows) = ground (arith, none-without_host id rows)

-- The tables that a deletion takes a host out of hold it no longer.
pub record IsForgotten (id now : ℕ) (before after : Inventory) : Type 0 where
  pub no_row : any (λ h. h.id == id) after.hosts ≡ false
  pub no_jump : any (jumps_to id) after.hosts ≡ false
  pub no_job : any (λ j. j.host_id == id) after.jobs ≡ false
  pub no_session : any (is_of id) after.sessions ≡ false
  pub no_metric : any (is_of id) after.metrics ≡ false
  pub no_memory : any (is_of id) after.memories ≡ false
  pub no_link : any (λ p. p.1 == id) after.oauth.token_hosts ≡ false
  pub no_refresh :
      any (λ r. names_host id r && not (is_set r.revoked_at)) after.oauth.refresh ≡ false
  pub no_access :
      all
        (λ r. not (names_host id r) || not (is_usable now after.oauth.tokens r.access_token_id))
        before.oauth.refresh
      ≡ true

none-keep {ℓ} : {A : Type ℓ} (p : A → Bool) (xs : List A) → any p (keep (λ x. not (p x)) xs) ≡ false
none-keep p [] = refl
none-keep p (x ∷ xs) = ground (arith, none-keep p xs)

any-keep {ℓ} :
    {A : Type ℓ} (p q : A → Bool) (xs : List A) → any p xs ≡ false → any p (keep q xs) ≡ false
any-keep p q [] e = refl
any-keep p q (x ∷ xs) e = ground (arith, any-keep p q xs)

-- A row that names the host restricts its grant.
restricts :
    (id : ℕ) (rows : List RefreshRow) (r : RefreshRow) (rest : List RefreshRow)
    → names_host id r ≡ true
    → is_restricted_to id (r ∷ rest) r.grant_id ≡ true
unfolding is_restricted_to
restricts id rows r rest e = ground (arith, eq_refl r.grant_id)

revoked_rows :
    (id now : ℕ) (whole rows : List RefreshRow)
    → ((grant : String)
        → is_restricted_to id rows grant ≡ true
        → is_restricted_to id whole grant ≡ true)
    → any
        (λ r. names_host id r && not (is_set r.revoked_at))
        (update_where
          (λ r. is_restricted_to id whole r.grant_id && not (is_set r.revoked_at))
          (λ r. record r { revoked_at = some now })
          rows)
      ≡ false
unfolding update_where is_restricted_to
revoked_rows id now whole [] inc = refl
revoked_rows id now whole (r ∷ rows) inc =
    let tail = revoked_rows id now whole rows (λ g k. inc g (ground arith)) in
    elim (Bool-cases (names_host id r)) [
      | inl e ↦ let k = inc r.grant_id (restricts id rows r rows e) in ground arith
      | inr e ↦ ground arith
    ]

-- The tokens that a set of rows reaches have ended.
ended_tokens :
    (now id : ℕ) (p : TokenRow → Bool) (tokens : List TokenRow)
    → ((t : TokenRow) → t.id ≡ id → p t ≡ true)
    → is_usable now (update_where p (λ t. record t { expires_at = some now }) tokens) id ≡ false
unfolding update_where
ended_tokens now id p [] h = refl
ended_tokens now id p (t ∷ tokens) h =
    let tail = ended_tokens now id p tokens h in
    elim (Bool-cases (t.id == id)) [
      | inl e ↦ let k = h t (ground arith) in ground arith
      | inr e ↦ ground arith
    ]

ended_rows :
    (id now : ℕ) (whole rows : List RefreshRow) (tokens : List TokenRow) (p : TokenRow → Bool)
    → ((t : TokenRow)
        → any (λ r. r.access_token_id == t.id && names_host id r) rows ≡ true
        → p t ≡ true)
    → all
        (λ r.
          not (names_host id r)
          || not (
              is_usable now
                (update_where p (λ t. record t { expires_at = some now }) tokens)
                r.access_token_id))
        rows
      ≡ true
ended_rows id now whole [] tokens p h = refl
ended_rows id now whole (r ∷ rows) tokens p h =
    let tail = ended_rows id now whole rows tokens p (λ t k. h t (ground arith)) in
    elim (Bool-cases (names_host id r)) [
      | inl e ↦
          let k = ended_tokens now r.access_token_id p tokens (λ t same. h t (ground arith)) in
          ground arith
      | inr e ↦ ground arith
    ]

bound_tokens :
    (id : ℕ) (whole rows : List RefreshRow) (t : TokenRow)
    → ((grant : String)
        → is_restricted_to id rows grant ≡ true
        → is_restricted_to id whole grant ≡ true)
    → any (λ r. r.access_token_id == t.id && names_host id r) rows ≡ true
    → any (λ r. r.access_token_id == t.id && is_restricted_to id whole r.grant_id) rows ≡ true
unfolding is_restricted_to
bound_tokens id whole [] t inc e = cc
bound_tokens id whole (r ∷ rows) t inc e =
    elim (Bool-cases (r.access_token_id == t.id && names_host id r)) [
      | inl k ↦ let l = inc r.grant_id (restricts id rows r rows (ground arith)) in ground arith
      | inr k ↦
          let tail = bound_tokens id whole rows t (λ g l. inc g (ground arith)) (ground arith) in
          ground arith
    ]

-- After a deletion that succeeds, no row of the tables hosts, jobs, sessions, metrics, memories and
-- token_hosts is of the host, and no host jumps through it; no refresh token that is restricted to
-- hosts, this one among them, is unrevoked; and the access token of every such refresh token that
-- was there before has ended. Authorization codes, which may still name the host, are not spoken of.
pub delete_host-IsForgotten :
    (fails : Faults) (id now : ℕ) (t : Inventory)
    → (delete_host fails id now t).0 ≡ ok tt
    → IsForgotten id now t (delete_host fails id now t).1
unfolding delete_host forget_host
delete_host-IsForgotten fails id now t h =
    let (d, e, there) = settle-ok fails t _ tt h in
    let (r1, e1) = refuse-eq-ok (fails begin || fails read) db_error _ e in
    let (r2, e2) =
      refuse-eq-ok (any (λ j. j.host_id == id && is_running j.status) t.jobs) has_running_jobs _
        e1 in
    let (r3, e3) = refuse-eq-ok (any (jumps_to id) t.hosts) is_jump_host _ e2 in
    let (r4, e4) = refuse-eq-ok (fails revoke || fails delete_row) db_error _ e3 in
    let (r5, e5) = refuse-eq-ok (not (any (λ h. h.id == id) t.hosts)) no_rows _ e4 in
    let last : d ≡ record t {
      oauth = forget_host id now t.oauth;
      jobs = keep (λ j. not (j.host_id == id)) t.jobs;
      sessions = without_host id t.sessions;
      metrics = without_host id t.metrics;
      memories = without_host id t.memories;
      hosts = keep (λ h. not (h.id == id)) t.hosts;
    } =
      ground arith in
    subst (IsForgotten id now t) (sym (there ∙ last)) (record {
      no_row = none-keep (λ h. h.id == id) t.hosts;
      no_jump = any-keep (jumps_to id) (λ h. not (h.id == id)) t.hosts r3;
      no_job = none-keep (λ j. j.host_id == id) t.jobs;
      no_session = none-without_host id t.sessions;
      no_metric = none-without_host id t.metrics;
      no_memory = none-without_host id t.memories;
      no_link = none-keep (λ p. p.1 == id) t.oauth.token_hosts;
      no_refresh = revoked_rows id now t.oauth.refresh t.oauth.refresh (λ g k. k);
      no_access =
          ended_rows id now t.oauth.refresh t.oauth.refresh t.oauth.tokens _
            (λ token k. bound_tokens id t.oauth.refresh t.oauth.refresh token (λ g l. l) k);
    })
