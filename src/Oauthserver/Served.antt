-- ===== src/Oauthserver/Served.antt =====
-- Histories of requests to internal/oauthserver/handlers.go.
use one_ssh.Base.{
  ℕ, String, Bool, true, not, ◌||◌, List, [], ◌∷◌, Option, none, some, str_eq, all, ◌≡◌, refl, sym,
  subst, arith,
}
use one_ssh.Store.{
  CodeRow, RefreshRow, Db, Result, ok, err, Faults, begin, read, update_where, is_set,
}
use one_ssh.Store.Oauth.{
  Exchange, Rotation, find_code, fits, is_unused, exchange, exchange_code, redeem_tx, rotate,
}
use one_ssh.Store.Oauth.Frame.{redeem_tx-Redeemed}
use one_ssh.Store.Oauth.Spent.{if-keeps, settle-keeps, punish_code-codes, rotate-codes}
use one_ssh.Oauthserver.{Library, Form, Reply, Checked, fine, refused, OauthClient}
use one_ssh.Oauthserver.Endpoints.{
  World, Setting, Registration, Decision, register_client, authorization_decision,
}
use one_ssh.Oauthserver.Tokens.{
  Fresh, check_exchange, answer_exchange, finish_exchange, exchange_authorization_code,
  check_refresh, answer_refresh, finish_refresh, refresh_access_token, token,
}
use one_ssh.Oauthserver.Issued.{
  is_backed, IsBacked, register_client-IsBacked, authorization_decision-IsBacked,
}

marked-backed :
    (p : CodeRow → Bool) (now : ℕ) (grant : String) (clients : List OauthClient)
    (codes : List CodeRow)
    → all (is_backed clients) codes ≡ true
    → all
        (is_backed clients)
        (update_where p (λ c. record c { used_at = some now; grant_id = some grant }) codes)
      ≡ true
unfolding update_where
marked-backed p now grant clients [] h = refl
marked-backed p now grant clients (c ∷ codes) h =
    ground (arith, marked-backed p now grant clients codes)

exchange_code-backed :
    (fails : Faults) (x : Exchange) (db : Db) (c : Option CodeRow) (clients : List OauthClient)
    → all (is_backed clients) db.codes ≡ true
    → all (is_backed clients) (exchange_code fails x db c).1.codes ≡ true
unfolding exchange_code
exchange_code-backed fails x db none clients h = h
exchange_code-backed fails x db (some code) clients h =
    let backed = λ (r : Result CodeRow × Db). all (is_backed clients) r.1.codes ≡ true in
    if-keeps backed (not (fits code x)) h (
      if-keeps backed (is_set code.used_at)
        (subst (λ cs. all (is_backed clients) cs ≡ true)
          (sym (punish_code-codes fails code.grant_id x.now db)) h)
        (settle-keeps (λ d. all (is_backed clients) d.codes ≡ true) fails db
          (redeem_tx fails code x db) h
          (λ code' db' k.
            subst (λ cs. all (is_backed clients) cs ≡ true)
              (sym (redeem_tx-Redeemed fails code x db code' db' k).codes)
              (marked-backed (is_unused x.code_hash) x.now x.grant_id clients db.codes h))))

exchange-backed :
    (fails : Faults) (x : Exchange) (db : Db) (clients : List OauthClient)
    → all (is_backed clients) db.codes ≡ true
    → all (is_backed clients) (exchange fails x db).1.codes ≡ true
unfolding exchange
exchange-backed fails x db clients h =
    if-keeps (λ (r : Result CodeRow × Db). all (is_backed clients) r.1.codes ≡ true)
      (fails begin || fails read) h
      (exchange_code-backed fails x db (find_code x.code_hash db) clients h)

answer_exchange-IsBacked :
    (lib : Library) (fresh : Fresh) (w : World) (r : Result CodeRow × Db)
    → IsBacked lib w
    → all (is_backed w.clients) r.1.codes ≡ true
    → IsBacked lib (answer_exchange fresh w r).1
answer_exchange-IsBacked lib fresh w (err e, db) b k = record { safe = b.safe; backed = k }
answer_exchange-IsBacked lib fresh w (ok code, db) b k = record { safe = b.safe; backed = k }

finish_exchange-IsBacked :
    (s : Setting) (w : World) (r : Checked (Fresh × Exchange))
    → IsBacked s.lib w
    → IsBacked s.lib (finish_exchange s w r).1
unfolding finish_exchange
finish_exchange-IsBacked s w (refused r) b = b
finish_exchange-IsBacked s w (fine (fresh, x)) b =
    answer_exchange-IsBacked s.lib fresh w (exchange s.fails x w.tables.oauth) b
      (exchange-backed s.fails x w.tables.oauth w.clients b.backed)

answer_refresh-IsBacked :
    (lib : Library) (fresh : Fresh) (w : World) (r : Result RefreshRow × Db)
    → IsBacked lib w
    → r.1.codes ≡ w.tables.oauth.codes
    → IsBacked lib (answer_refresh fresh w r).1
answer_refresh-IsBacked lib fresh w (err e, db) b k = record {
  safe = b.safe;
  backed = subst (λ cs. all (is_backed w.clients) cs ≡ true) (sym k) b.backed;
}
answer_refresh-IsBacked lib fresh w (ok t, db) b k = record {
  safe = b.safe;
  backed = subst (λ cs. all (is_backed w.clients) cs ≡ true) (sym k) b.backed;
}

finish_refresh-IsBacked :
    (s : Setting) (w : World) (r : Checked (Fresh × Rotation))
    → IsBacked s.lib w
    → IsBacked s.lib (finish_refresh s w r).1
unfolding finish_refresh
finish_refresh-IsBacked s w (refused r) b = b
finish_refresh-IsBacked s w (fine (fresh, x)) b =
    answer_refresh-IsBacked s.lib fresh w (rotate s.fails x w.tables.oauth) b
      (rotate-codes s.fails x w.tables.oauth)

token-IsBacked :
    (s : Setting) (form : Form) (w : World) → IsBacked s.lib w → IsBacked s.lib (token s form w).1
unfolding token exchange_authorization_code refresh_access_token
token-IsBacked s form w b =
    let backed = λ (r : Reply × World). IsBacked s.lib r.1 in
    if-keeps backed (str_eq (form "grant_type") "authorization_code")
      (finish_exchange-IsBacked s w (check_exchange s form) b)
      (if-keeps backed (str_eq (form "grant_type") "refresh_token")
        (finish_refresh-IsBacked s w (check_refresh s form) b) b)

-- A request to the server.
pub data Request : Type 0 where
  registering : Setting → Registration → Request
  deciding : Setting → Decision → Request
  asking : Setting → Form → Request

abbrev pub with_library : Library → Setting → Setting
with_library lib s = record s { lib = lib }

unfoldable pub serve : Library → Request → World → World
unfolding register_client authorization_decision token
serve lib (registering s input) w = (register_client (with_library lib s) input w).1
serve lib (deciding s d) w = (authorization_decision (with_library lib s) d w).1
serve lib (asking s form) w = (token (with_library lib s) form w).1

unfoldable pub serve_all : Library → List Request → World → World
unfolding serve
serve_all lib [] w = w
serve_all lib (r ∷ rs) w = serve_all lib rs (serve lib r w)

serve-IsBacked :
    (lib : Library) (r : Request) (w : World) → IsBacked lib w → IsBacked lib (serve lib r w)
unfolding serve
serve-IsBacked lib (registering s input) w b =
    register_client-IsBacked (with_library lib s) input w b
serve-IsBacked lib (deciding s d) w b = authorization_decision-IsBacked (with_library lib s) d w b
serve-IsBacked lib (asking s form) w b = token-IsBacked (with_library lib s) form w b

pub serve_all-IsBacked :
    (lib : Library) (rs : List Request) (w : World)
    → IsBacked lib w
    → IsBacked lib (serve_all lib rs w)
unfolding serve_all
serve_all-IsBacked lib [] w b = b
serve_all-IsBacked lib (r ∷ rs) w b =
    serve_all-IsBacked lib rs (serve lib r w) (serve-IsBacked lib r w b)
