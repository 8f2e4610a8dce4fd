-- ===== src/Sshpool.antt =====
-- internal/sshpool/pool.go: the pool of SSH connections, one for each host, dialled through chains
-- of jump hosts. Calls of others are taken one at a time: of an entry's lock, which is held during a
-- whole call, it counts that a call cannot take it twice. `deadlocked` and `out_of_fuel` stand for
-- calls that do not come to an end.
pub mod Chains
pub mod Password
pub mod Rows
use one_ssh.Base.{
  ℕ, zero, suc, ◌+◌, String, Bool, true, false, List, [], ◌∷◌, ◌++◌, Option, none, some,
  if◌then◌else◌, str_eq, any, ltb, ◌==◌, find_first, length,
}
use one_ssh.Store.Hosts.{Host}

-- `entry`; a client is known by its number.
pub record Entry : Type 0 where
  pub client : Option ℕ
  pub online : Bool

-- The pool and what it changes elsewhere: the table of hosts, and the clients that it has closed.
-- `opened` counts the clients opened so far.
pub record Pool : Type 0 where
  pub entries : List (String × Entry)
  pub pool_closed : Bool
  pub hosts : List Host
  pub opened : ℕ
  pub closed_clients : List ℕ

pub data DialError : Type 0 where
  jump_cycle chain_too_long unknown_host no_key credentials_error unsupported_auth no_jump_host
        unreachable fingerprint_not_recorded fingerprint_changed handshake_error :
      DialError
  jump_failed : DialError → DialError
  deadlocked out_of_fuel : DialError

pub data Result {ℓ} (A : Type ℓ) : Type ℓ where
  ok : A → Result A
  err : DialError → Result A

-- What lies outside: reading and opening a host's credentials, reaching an address directly or
-- through a client, the fingerprint that stands there, and whether its server lets the user in.
pub record Network : Type 0 where
  pub opens_password : Host → Bool
  pub opens_key : Host → ℕ → Bool
  pub reaches : Option ℕ → Host → Option String
  pub records : Host → Bool
  pub lets_in : Host → Bool

-- `maxJumpChain`.
abbrev pub max_jump_chain : ℕ
max_jump_chain = 5

-- `New`.
abbrev pub new_pool : List Host → Pool
new_pool hosts = record {
  entries = [];
  pool_closed = false;
  hosts = hosts;
  opened = 0;
  closed_clients = [];
}

abbrev pub new_entry : Entry
new_entry = record { client = none; online = false }

-- `p.entries[name]`, a new entry where there is none.
unfoldable pub entry_of : List (String × Entry) → String → Entry
entry_of [] name = new_entry
entry_of ((key, e) ∷ es) name = if str_eq key name then e else entry_of es name

-- The entry of a name after a change of its fields.
unfoldable pub put_entry : List (String × Entry) → String → Entry → List (String × Entry)
put_entry [] name e = (name, e) ∷ []
put_entry ((key, d) ∷ es) name e =
    if str_eq key name then (key, e) ∷ es else (key, d) ∷ put_entry es name e

-- `getEntry`: the entry is made if it is missing.
unfoldable pub get_entry : String → Pool → Pool
unfolding put_entry entry_of
get_entry name p = record p { entries = put_entry p.entries name (entry_of p.entries name) }

unfoldable pub set_entry : String → Entry → Pool → Pool
unfolding put_entry
set_entry name e p = record p { entries = put_entry p.entries name e }

unfoldable pub set_fingerprint : ℕ → String → List Host → List Host
set_fingerprint id fp [] = []
set_fingerprint id fp (h ∷ hs) =
    (if h.id == id then record h { host_key_fp = some fp } else h) ∷ set_fingerprint id fp hs

-- The first part of `dial`: the authentication methods.
unfoldable pub credentials : Network → Host → Option DialError
credentials net h =
    if str_eq h.auth_type "password"
    then (if net.opens_password h then none else some credentials_error)
    else if str_eq h.auth_type "key"
    then (elim h.key_id [
      | none ↦ some no_key
      | some key ↦ if net.opens_key h key then none else some credentials_error
    ])
    else some unsupported_auth

-- No fingerprint is recorded for the host: none, or an empty text.
abbrev pub is_unpinned : Host → Bool
is_unpinned h = elim h.host_key_fp [ none ↦ true | some fp ↦ str_eq fp "" ]

abbrev pub is_pinned_to : Host → String → Bool
is_pinned_to h fp = elim h.host_key_fp [ none ↦ false | some old ↦ str_eq old fp ]

-- The host key callback: the first key is recorded, and a different one is refused.
unfoldable pub host_key : Network → Host → String → Pool → Result (Unit {0}) × Pool
unfolding set_fingerprint
host_key net h fp p =
    if is_unpinned h
    then (if net.records h
        then (ok tt, record p { hosts = set_fingerprint h.id fp p.hosts })
        else (err fingerprint_not_recorded, p))
    else if is_pinned_to h fp
    then (ok tt, p)
    else (err fingerprint_changed, p)

-- The end of the handshake, once the host key is accepted.
abbrev pub log_in : Network → Host → Result (Unit {0}) × Pool → Result ℕ × Pool
log_in net h (err e, p) = (err e, p)
log_in net h (ok u, p) =
    if net.lets_in h
    then (ok p.opened, record p { opened = p.opened + 1 })
    else (err handshake_error, p)

-- Reaching the host, directly or through a client, and `newSSHClient`.
abbrev pub connect_at : Network → Host → Pool → Option String → Result ℕ × Pool
connect_at net h p none = (err unreachable, p)
connect_at net h p (some fp) = log_in net h (host_key net h fp p)

unfoldable pub connect : Network → Host → Option ℕ → Pool → Result ℕ × Pool
unfolding host_key
connect net h jump p = connect_at net h p (net.reaches jump h)

-- `get` of the jump host, as `dial` calls it.
abbrev pub Get : Type 0
Get = String → List String → Pool → Result ℕ × Pool

abbrev pub through : Network → Host → Result ℕ × Pool → Result ℕ × Pool
through net h (err e, p) = (err (jump_failed e), p)
through net h (ok client, p) = connect net h (some client) p

-- The last part of `dial`: over the host's jump host if it has one.
unfoldable pub dial_route : Get → Network → Host → List String → Pool → Option ℕ → Result ℕ × Pool
unfolding connect
dial_route go net h via p none = connect net h none p
dial_route go net h via p (some id) = elim (find_first (λ j. j.id == id) p.hosts) [
  | none ↦ (err no_jump_host, p)
  | some j ↦ through net h (go j.name (via ++ h.name ∷ []) p)
]

unfoldable pub dial : Get → Network → Host → List String → Pool → Result ℕ × Pool
unfolding credentials dial_route
dial go net h via p = elim (credentials net h) [
  | some e ↦ (err e, p)
  | none ↦ dial_route go net h via p h.jump_host_id
]

-- What `get` makes of a dialled connection.
unfoldable pub keep_client : String → Result ℕ × Pool → Result ℕ × Pool
unfolding set_entry entry_of
keep_client name (err e, p) =
    (err e, set_entry name (record (entry_of p.entries name) { online = false }) p)
keep_client name (ok client, p) =
    (ok client, set_entry name (record { client = some client; online = true }) p)

-- The end of `get`, on the row of the host.
unfoldable pub open_host :
    Get → Network → String → List String → Pool → Option Host → Result ℕ × Pool
unfolding keep_client dial
open_host go net name via p none = (err unknown_host, p)
open_host go net name via p (some h) = keep_client name (dial go net h via p)

-- The rest of `get`, on the entry of the name: a client that is online is used again.
unfoldable pub use_or_open : Get → Network → String → List String → Pool → Entry → Result ℕ × Pool
unfolding open_host
use_or_open go net name via p e =
    let fresh = open_host go net name via p (find_first (λ h. str_eq h.name name) p.hosts) in
    elim e.client [ none ↦ fresh | some client ↦ if e.online then (ok client, p) else fresh ]

-- One call of `get`, its own call for a jump host being `go`. Its first argument are the names whose
-- entries this call or those that led to it have locked: a lock is held until `get` returns, so
-- locking such an entry again waits for ever.
unfoldable pub get_step : (List String → Get) → Network → List String → Get
unfolding get_entry use_or_open entry_of
get_step go net held name via p =
    if any (λ v. str_eq v name) via
    then (err jump_cycle, p)
    else if ltb max_jump_chain (length via)
    then (err chain_too_long, p)
    else if any (λ v. str_eq v name) held
    then (err deadlocked, get_entry name p)
    else use_or_open (go (held ++ name ∷ [])) net name via (get_entry name p)
        (entry_of p.entries name)

unfoldable pub get_within : ℕ → Network → List String → Get
unfolding get_step
get_within zero net held name via p = (err out_of_fuel, p)
get_within (suc fuel) net held name via p = get_step (get_within fuel net) net held name via p

-- `Get`. A chain of more than `max_jump_chain` hosts is refused, so that much fuel, and two more,
-- are enough.
unfoldable pub get : Network → String → Pool → Result ℕ × Pool
unfolding get_within
get net name p = get_within (max_jump_chain + 2) net [] name [] p

-- `keepalive`, at a tick whose request failed, of the client `client`.
unfoldable pub keepalive_failed : String → ℕ → Pool → Pool
unfolding set_entry entry_of
keepalive_failed name client p =
    let forgotten =
      if (elim (entry_of p.entries name).client [ none ↦ false | some c ↦ c == client ])
      then set_entry name (record { client = none; online = false }) p
      else p in
    record forgotten { closed_clients = client ∷ p.closed_clients }

unfoldable pub is_online : String → Pool → Bool × Pool
unfolding get_entry entry_of
is_online name p = ((entry_of p.entries name).online, get_entry name p)

abbrev pub close_client : Option ℕ → List ℕ → List ℕ
close_client none closed = closed
close_client (some c) closed = c ∷ closed

-- `Invalidate`.
unfoldable pub invalidate : String → Pool → Pool
unfolding set_entry entry_of
invalidate name p = record (set_entry name (record { client = none; online = false }) p) {
  closed_clients = close_client (entry_of p.entries name).client p.closed_clients;
}

-- The loop of `Close`.
unfoldable pub close_entries : List (String × Entry) → List (String × Entry)
close_entries [] = []
close_entries ((name, e) ∷ es) = (name, record e { online = false }) ∷ close_entries es

unfoldable pub closed_by : List (String × Entry) → List ℕ → List ℕ
closed_by [] closed = closed
closed_by ((name, e) ∷ es) closed = closed_by es (close_client e.client closed)

-- `Close`; a second call does nothing.
unfoldable pub close : Pool → Pool
unfolding close_entries closed_by
close p = if p.pool_closed then p else record p {
  entries = close_entries p.entries;
  pool_closed = true;
  closed_clients = closed_by p.entries p.closed_clients;
}

-- `passwordChallenge`: what the stored password answers, once, to one hidden question. The state is
-- `answered`.
unfoldable pub password_challenge :
    String → Bool → List String → List Bool → Option (List String) × Bool
password_challenge password true questions echos = (none, true)
password_challenge password false (q ∷ []) (echo ∷ []) =
    if echo then (none, false) else (some (password ∷ []), true)
password_challenge password false questions echos = (none, false)

-- The callback of `passwordAuthentication`, which ends an authentication after a partial success.
unfoldable pub allows_next_method : List String → Bool
allows_next_method partial_success_methods = length partial_success_methods == 0
