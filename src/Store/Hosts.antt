-- ===== src/Store/Hosts.antt =====
-- internal/store/hosts_keys.go: the table of hosts.
pub mod Find
pub mod Deleted
use one_ssh.Base.{
  ℕ, ◌+◌, max, String, Bool, false, not, ◌&&◌, ◌||◌, List, [], ◌∷◌, Option, none, some,
  if◌then◌else◌, str_eq, any, keep, ◌==◌, map,
}
use one_ssh.Store.{
  RefreshRow, Db, Result, ok, err, no_rows, db_error, has_running_jobs, is_jump_host,
  jump_host_archived, not_unique, refuse, ◌>>◌, ◌>>=◌, Faults, begin, read, insert_row, update_row,
  delete_row, revoke, update_where, is_set,
}
use one_ssh.Store.Tokens.{settle}
use one_ssh.Store.Jobs.{Job, is_running}

-- A row of `hosts`: `Host`. `password_enc` and a tag are texts of bytes.
pub record Host : Type 0 where
  pub id : ℕ
  pub name : String
  pub addr : String
  pub port : ℕ
  pub username : String
  pub auth_type : String
  pub key_id : Option ℕ
  pub password_enc : Option (List ℕ)
  pub host_key_fp : Option String
  pub jump_host_id : Option ℕ
  pub monitor_enabled : Bool
  pub tags : List String
  pub created_at : ℕ
  pub archived_at : Option ℕ

-- The tables that the calls on hosts read and change; of `keys` the ids. Of sessions, metrics and
-- memories, which a deletion clears too, only the column `host_id`, which may be NULL in memories.
pub record Inventory : Type 0 where
  pub hosts : List Host
  pub keys : List ℕ
  pub jobs : List Job
  pub sessions : List (Option ℕ)
  pub metrics : List (Option ℕ)
  pub memories : List (Option ℕ)
  pub oauth : Db

-- `INTEGER PRIMARY KEY` without `AUTOINCREMENT`: a new id is one above the greatest in the table.
unfoldable pub fresh_id : List Host → ℕ
fresh_id [] = 1
fresh_id (h ∷ hs) = max (h.id + 1) (fresh_id hs)

unfoldable pub find_id : ℕ → List Host → Option Host
find_id id [] = none
find_id id (h ∷ hs) = if h.id == id then some h else find_id id hs

unfoldable pub find_name : String → List Host → Option Host
find_name name [] = none
find_name name (h ∷ hs) = if str_eq h.name name then some h else find_name name hs

abbrev row_or : Option Host → Result Host
row_or none = err no_rows
row_or (some h) = ok h

-- `GetHost` and `GetHostByName`.
unfoldable pub get_host : Faults → ℕ → Inventory → Result Host
unfolding find_id
get_host fails id t = if fails read then err db_error else row_or (find_id id t.hosts)

unfoldable pub get_host_by_name : Faults → String → Inventory → Result Host
unfolding find_name
get_host_by_name fails name t = if fails read then err db_error else row_or (find_name name t.hosts)

-- `GetKey`, of which only whether there is one is used.
unfoldable pub get_key : Faults → ℕ → Inventory → Result (Unit {0})
get_key fails id t = do
  refuse (fails read) db_error
  refuse (not (any (λ k. k == id) t.keys)) no_rows

-- The row that `CreateHost` inserts: fingerprint and time of archiving are NULL.
abbrev pub created : ℕ → ℕ → Host → Host
created id now h = record h { id = id; created_at = now; host_key_fp = none; archived_at = none }

-- `CreateHost`; names are unique.
unfoldable pub create_host : Faults → ℕ → Host → Inventory → Result Host × Inventory
unfolding fresh_id
create_host fails now h t =
    if fails insert_row
    then (err db_error, t)
    else if any (λ g. str_eq g.name h.name) t.hosts
    then (err not_unique, t)
    else (
      ok (record h { id = fresh_id t.hosts; created_at = now }),
      record t { hosts = created (fresh_id t.hosts) now h ∷ t.hosts },
    )

-- What `UpdateHost` sets.
abbrev pub updated : Host → Host → Host
updated h row = record row {
  name = h.name;
  addr = h.addr;
  port = h.port;
  username = h.username;
  auth_type = h.auth_type;
  key_id = h.key_id;
  password_enc = h.password_enc;
  jump_host_id = h.jump_host_id;
  monitor_enabled = h.monitor_enabled;
  tags = h.tags;
}

-- `UpdateHost`.
unfoldable pub update_host : Faults → Host → Inventory → Result (Unit {0}) × Inventory
unfolding update_where
update_host fails h t =
    if fails update_row
    then (err db_error, t)
    else if any (λ g. not (g.id == h.id) && str_eq g.name h.name) t.hosts
        && any (λ g. g.id == h.id) t.hosts
    then (err not_unique, t)
    else (ok tt, record t { hosts = update_where (λ g. g.id == h.id) (updated h) t.hosts })

abbrev pub jumps_to : ℕ → Host → Bool
jumps_to id h = elim h.jump_host_id [ none ↦ false | some j ↦ j == id ]

-- A grant that is restricted to hosts, among them this one: a row of it says so.
unfoldable pub is_restricted_to : ℕ → List RefreshRow → String → Bool
is_restricted_to id rows grant =
    any (λ r. str_eq r.grant_id grant && not r.all_hosts && any (λ h. h == id) r.host_ids) rows

-- The two updates of `DeleteHost` on tokens, and its deletion of links.
unfoldable pub forget_host : ℕ → ℕ → Db → Db
unfolding is_restricted_to update_where
forget_host id now db = record db {
  tokens =
      update_where
        (λ t.
          any (λ r. r.access_token_id == t.id && is_restricted_to id db.refresh r.grant_id)
            db.refresh)
        (λ t. record t { expires_at = some now }) db.tokens;
  refresh =
      update_where (λ r. is_restricted_to id db.refresh r.grant_id && not (is_set r.revoked_at))
        (λ r. record r { revoked_at = some now }) db.refresh;
  token_hosts = keep (λ p. not (p.1 == id)) db.token_hosts;
}

-- `DELETE FROM … WHERE host_id=?`; NULL is no host.
unfoldable pub without_host : ℕ → List (Option ℕ) → List (Option ℕ)
without_host id [] = []
without_host id (none ∷ rows) = none ∷ without_host id rows
without_host id (some host ∷ rows) =
    if host == id then without_host id rows else some host ∷ without_host id rows

-- `DeleteHost`.
unfoldable pub delete_host : Faults → ℕ → ℕ → Inventory → Result (Unit {0}) × Inventory
unfolding forget_host without_host
delete_host fails id now t = settle fails t do
  refuse (fails begin || fails read) db_error
  refuse (any (λ j. j.host_id == id && is_running j.status) t.jobs) has_running_jobs
  refuse (any (jumps_to id) t.hosts) is_jump_host
  refuse (fails revoke || fails delete_row) db_error
  refuse (not (any (λ h. h.id == id) t.hosts)) no_rows
  ok (
    tt,
    record t {
      oauth = forget_host id now t.oauth;
      jobs = keep (λ j. not (j.host_id == id)) t.jobs;
      sessions = without_host id t.sessions;
      metrics = without_host id t.metrics;
      memories = without_host id t.memories;
      hosts = keep (λ h. not (h.id == id)) t.hosts;
    },
  )

-- `JumpDependentNames`, up to their order.
unfoldable pub jump_dependent_names : ℕ → Inventory → List String
jump_dependent_names id t = map (λ h. h.name) (keep (jumps_to id) t.hosts)

-- `UpdateHostFingerprint`.
unfoldable pub update_fingerprint :
    Faults → ℕ → Option String → Inventory → Result (Unit {0}) × Inventory
unfolding update_where
update_fingerprint fails id fp t = if fails update_row then (err db_error, t) else (
  ok tt,
  record t { hosts = update_where (λ h. h.id == id) (λ h. record h { host_key_fp = fp }) t.hosts },
)

-- `COALESCE(archived_at,at)`.
abbrev pub archived : ℕ → Host → Host
archived at h = record h { archived_at = elim h.archived_at [ none ↦ some at | some t ↦ some t ] }

-- `ArchiveHost`.
unfoldable pub archive_host : Faults → ℕ → ℕ → Inventory → Result (Unit {0}) × Inventory
unfolding update_where
archive_host fails id at t = settle fails t do
  refuse (fails begin || fails read) db_error
  refuse (any (λ h. jumps_to id h && not (is_set h.archived_at)) t.hosts) is_jump_host
  refuse (fails update_row) db_error
  refuse (not (any (λ h. h.id == id) t.hosts)) no_rows
  ok (tt, record t { hosts = update_where (λ h. h.id == id) (archived at) t.hosts })

-- The jump host of a row is in the table, and archived.
unfoldable pub has_archived_jump : List Host → Host → Bool
has_archived_jump hosts h = elim h.jump_host_id [
  | none ↦ false
  | some j ↦ any (λ g. g.id == j && is_set g.archived_at) hosts
]

-- `UnarchiveHost`.
unfoldable pub unarchive_host : Faults → ℕ → ℕ → Inventory → Result (Unit {0}) × Inventory
unfolding has_archived_jump update_where
unarchive_host fails id now t = settle fails t do
  refuse (fails begin || fails read) db_error
  refuse (any (λ h. h.id == id && has_archived_jump t.hosts h) t.hosts) jump_host_archived
  refuse (fails update_row) db_error
  refuse (not (any (λ h. h.id == id) t.hosts)) no_rows
  ok (
    tt,
    record t {
      hosts = update_where (λ h. h.id == id) (λ h. record h { archived_at = none }) t.hosts;
      jobs =
          update_where (λ j. j.host_id == id && is_running j.status)
            (λ j. record j { last_checked_at = some now }) t.jobs;
    },
  )

-- `MonitoredHosts`, up to their order.
unfoldable pub monitored_hosts : Inventory → List Host
monitored_hosts t = keep (λ h. h.monitor_enabled && not (is_set h.archived_at)) t.hosts
