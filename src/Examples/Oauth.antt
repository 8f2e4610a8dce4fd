-- ===== src/Examples/Oauth.antt =====
-- internal/store/oauth.go at concrete inputs: a code, its exchange, and the rotations that follow.
use one_ssh.Base.{true, false, ◌≡◌, ◌≢◌, refl, [], ◌∷◌, none, some, arith, all}
use one_ssh.ToolGroups.{normalize_list}
use one_ssh.Store.{TokenRow, CodeRow, RefreshRow, Db, ok, err, no_rows, code_reuse, refresh_reuse}
use one_ssh.Store.Tokens.{find_token}
use one_ssh.Store.Oauth.{
  Exchange, Rotation, find_code, find_refresh, fits, is_refused, exchange, rotate, redeem_tx,
}
use one_ssh.Store.Oauth.Revoke.{no_faults, is_foreign, is_cut_off, code_replay, refresh_replay}
use one_ssh.Store.Oauth.Atomic.{Rotates, exchange_fails, rotate_inherits}
use one_ssh.Store.Oauth.Retired.{rotate_never}
use one_ssh.Store.Oauth.Spent.{op_rotate, history}
use one_ssh.Store.Oauth.History.{exchange_once}

abbrev pub code : CodeRow
code = record {
  code_hash = "c";
  client_id = "client";
  redirect_uri = "https://app/cb";
  resource = "r";
  code_challenge = "s256";
  scope = "mcp";
  all_hosts = false;
  manage_hosts = false;
  disabled_tools = [];
  host_ids = 7 ∷ [];
  expires_at = 100;
  created_at = 1;
  used_at = none;
  grant_id = none;
}

abbrev start : Db
start = record { tokens = []; next_id = 1; token_hosts = []; codes = code ∷ []; refresh = [] }

abbrev pub first_exchange : Exchange
first_exchange = record {
  code_hash = "c";
  client_id = "client";
  redirect_uri = "https://app/cb";
  resource = "r";
  code_challenge = "s256";
  grant_id = "g";
  access_token_name = "a1";
  access_token_hash = "h1";
  refresh_token_hash = "r1";
  now = 10;
  access_expires_at = 50;
  refresh_expires_at = 90;
}

abbrev late_exchange : Exchange
late_exchange = record first_exchange { now = 200 }

abbrev first_rotation : Rotation
first_rotation = record {
  token_hash = "r1";
  client_id = "client";
  resource = "r";
  access_token_name = "a2";
  access_token_hash = "h2";
  refresh_token_hash = "r2";
  now = 20;
  access_expires_at = 60;
  refresh_expires_at = 95;
}

abbrev used_code : CodeRow
used_code = record code { used_at = some 10; grant_id = some "g" }

abbrev first_token : RefreshRow
first_token = record {
  token_hash = "r1";
  grant_id = "g";
  access_token_id = 1;
  client_id = "client";
  resource = "r";
  scope = "mcp";
  all_hosts = false;
  manage_hosts = false;
  disabled_tools = [];
  host_ids = 7 ∷ [];
  expires_at = 90;
  created_at = 10;
  used_at = none;
  revoked_at = none;
}

abbrev first_access : TokenRow
first_access = record {
  id = 1;
  name = "a1";
  token_hash = "h1";
  all_hosts = false;
  manage_hosts = false;
  disabled_tools = [];
  created_at = 10;
  source = "oauth";
  expires_at = some 50;
  resource = some "r";
  client_id = some "client";
  last_used_at = none;
}

-- A token that an administrator made.
abbrev manual : TokenRow
manual = record first_access {
  id = 2;
  name = "m";
  token_hash = "h9";
  source = "manual";
  expires_at = none;
  resource = none;
  client_id = none;
}

-- The tables after the exchange, with that token beside.
abbrev after_exchange : Db
after_exchange = record {
  tokens = first_access ∷ manual ∷ [];
  next_id = 3;
  token_hosts = (1, 7) ∷ [];
  codes = used_code ∷ [];
  refresh = first_token ∷ [];
}

abbrev after_rotation : Db
after_rotation = record after_exchange { refresh = record first_token { used_at = some 20 } ∷ [] }

exchange_runs : (exchange no_faults first_exchange start).0 ≡ ok used_code
unfolding exchange redeem_tx normalize_list
exchange_runs = refl

exchange_refuses : (exchange no_faults late_exchange start).0 ≡ err no_rows
unfolding exchange
exchange_refuses = refl

rotate_runs :
    (rotate no_faults first_rotation after_exchange).0
    ≡ ok (record first_token { used_at = some 20 })
unfolding rotate normalize_list
rotate_runs = refl

exchange_once_example :
    (exchange no_faults late_exchange (
      history
        ((no_faults, op_rotate first_rotation) ∷ [])
        (exchange no_faults first_exchange start).1)).0
    ≢ ok code
exchange_once_example =
    exchange_once no_faults first_exchange start used_code
      ((no_faults, op_rotate first_rotation) ∷ []) no_faults late_exchange code exchange_runs refl

exchange_fails_example : (exchange no_faults late_exchange start).1 ≡ start
exchange_fails_example =
    exchange_fails no_faults late_exchange start no_rows exchange_refuses (λ e. cc)

rotate_inherits_example :
    Rotates first_token first_rotation after_exchange
      (rotate no_faults first_rotation after_exchange).1
unfolding find_refresh
rotate_inherits_example =
    rotate_inherits no_faults first_rotation after_exchange first_token
      (record first_token { used_at = some 20 }) refl rotate_runs

code_replay_example :
    ((exchange no_faults first_exchange after_exchange).0 ≡ err code_reuse)
    × (all (is_cut_off "g") (exchange no_faults first_exchange after_exchange).1.refresh ≡ true)
    × (is_foreign "g" after_exchange.refresh
          (find_token "h9" "r" true 40 (exchange no_faults first_exchange after_exchange).1)
        ≡ true)
unfolding find_code fits exchange find_token
code_replay_example =
    code_replay first_exchange after_exchange used_code "g" "h9" "r" true 40 refl refl refl refl
      (omega arith)

refresh_replay_example :
    ((rotate no_faults first_rotation after_rotation).0 ≡ err refresh_reuse)
    × (all (is_cut_off "g") (rotate no_faults first_rotation after_rotation).1.refresh ≡ true)
    × (is_foreign "g" after_rotation.refresh
          (find_token "h9" "r" true 40 (rotate no_faults first_rotation after_rotation).1)
        ≡ true)
unfolding find_refresh is_refused rotate find_token
refresh_replay_example =
    refresh_replay first_rotation after_rotation (record first_token { used_at = some 20 }) "h9" "r"
      true 40 refl refl refl (omega arith)

rotate_never_example :
    (rotate no_faults first_rotation
      (history ((no_faults, op_rotate first_rotation) ∷ []) after_rotation)).0
    ≢ ok first_token
rotate_never_example =
    rotate_never ((no_faults, op_rotate first_rotation) ∷ []) after_rotation no_faults
      first_rotation first_token (record { known = refl; none_fresh = refl })
