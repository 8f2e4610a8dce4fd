-- ===== src/Examples/Hosts.antt =====
-- internal/hostmanager/manager.go and internal/store/hosts_keys.go at concrete inputs.
use one_ssh.Base.{
  ℕ, String, List, false, ◌≡◌, refl, [], ◌∷◌, none, some, pos, map, str_eq, if◌then◌else◌,
}
use one_ssh.Store.{Db}
use one_ssh.Store.Hosts.{Host, Inventory, delete_host, find_id, has_archived_jump}
use one_ssh.Store.Hosts.Find.{distinct_ids}
use one_ssh.Store.Hosts.Deleted.{IsForgotten, delete_host-IsForgotten}
use one_ssh.ToolGroups.{normalize_list}
use one_ssh.Store.Oauth.{exchange}
use one_ssh.Sshpool.{new_pool, get, ok, err, jump_failed, chain_too_long}
use one_ssh.Hostmanager.{Lower, Input, failed, invalid, conflict, normalize_tags}
use one_ssh.Hostmanager.Chains.{no_rows_left, row_and, direct, hop}
use one_ssh.Hostmanager.Sound.{IsSound}
use one_ssh.Hostmanager.Tags.{IsTidy, normalize_tags-IsTidy}
use one_ssh.Hostmanager.Operations.{Manager, Setting, create, update, delete, archive}
use one_ssh.Hostmanager.History.{
  creating, updating, deleting, archiving, testing, perform_all, perform_all-IsSound, HasSoundTable,
}
use one_ssh.Examples.Sshpool.{front, inner, network}
use one_ssh.Examples.Oauth.{code, first_exchange}

abbrev empty : Db
empty = record { tokens = []; next_id = 1; token_hosts = []; codes = []; refresh = [] }

abbrev tables : Inventory
tables = record {
  hosts = inner ∷ front ∷ [];
  keys = 4 ∷ [];
  jobs = [];
  sessions = some 2 ∷ some 1 ∷ [];
  metrics = some 2 ∷ [];
  memories = none ∷ some 1 ∷ [];
  oauth = empty;
}

abbrev manager : Manager
manager = record { tables = tables; pool = new_pool [] }

-- A part of `strings.ToLower`.
abbrev lower : Lower
lower s = if str_eq s "Prod" then "prod" else s

abbrev setting : Setting
setting = record {
  lower = lower;
  seal = λ s. some (7 ∷ []);
  fails = λ s. false;
  fails_later = λ s. false;
  now = 50;
}

abbrev db_input : Input
db_input = record {
  name = " db ";
  addr = "10.0.0.9";
  port = pos 0;
  username = "root";
  auth_type = "password";
  key_id = none;
  password = some "secret";
  jump_host = "inner";
  monitor_enabled = none;
  tags = "Prod" ∷ " prod" ∷ "" ∷ "eu" ∷ [];
}

-- `front` behind `db`, which is behind `inner`, which is behind `front`.
abbrev cycle_input : Input
cycle_input = record db_input { name = "front"; jump_host = "db" }

tables-IsSound : IsSound tables.hosts
unfolding distinct_ids find_id has_archived_jump
tables-IsSound = record {
  distinct = refl;
  ends =
      row_and inner (front ∷ []) (hop 1 front refl refl direct)
        (row_and front [] direct no_rows_left);
  open_jumps = refl;
}

create_tags :
    map {B = ℕ × String × ℕ × List String}
      (λ h. (h.id, h.name, h.port, h.tags))
      (create setting db_input manager).1.tables.hosts
    ≡ (3, "db", 22, "Prod" ∷ "eu" ∷ []) ∷ (2, "inner", 22, []) ∷ (1, "front", 22, []) ∷ []
unfolding create
create_tags = refl

update_cycle : (update setting 1 cycle_input (create setting db_input manager).1).0 ≡ failed invalid
unfolding create update
update_cycle = refl

delete_jump : (delete setting 1 manager).0 ≡ failed conflict
unfolding delete
delete_jump = refl

archive_jump : (archive setting 1 manager).0 ≡ failed conflict
unfolding archive
archive_jump = refl

perform_all-IsSound_example : HasSoundTable (
    perform_all
      (creating setting db_input
        ∷ updating setting 1 cycle_input
        ∷ archiving setting 3
        ∷ deleting setting 2
        ∷ testing network (λ c. some "up") setting 3
        ∷ [])
      manager)
perform_all-IsSound_example =
    perform_all-IsSound
      (creating setting db_input
        ∷ updating setting 1 cycle_input
        ∷ archiving setting 3
        ∷ deleting setting 2
        ∷ testing network (λ c. some "up") setting 3
        ∷ [])
      manager tables-IsSound

-- A grant for the host 2, with its access token.
abbrev granted : Inventory
granted = record tables {
  oauth = record empty {
    tokens =
        record {
          id = 5;
          name = "a";
          token_hash = "h";
          all_hosts = false;
          manage_hosts = false;
          disabled_tools = [];
          created_at = 1;
          source = "oauth";
          expires_at = some 90;
          resource = some "r";
          client_id = some "client";
          last_used_at = none;
        }
        ∷ [];
    next_id = 6;
    token_hosts = (5, 2) ∷ [];
    refresh =
        record {
          token_hash = "r";
          grant_id = "g";
          access_token_id = 5;
          client_id = "client";
          resource = "r";
          scope = "mcp";
          all_hosts = false;
          manage_hosts = false;
          disabled_tools = [];
          host_ids = 2 ∷ [];
          expires_at = 90;
          created_at = 1;
          used_at = none;
          revoked_at = none;
        }
        ∷ [];
  };
}

delete_host-IsForgotten_example : IsForgotten 2 50 granted (delete_host (λ s. false) 2 50 granted).1
unfolding delete_host
delete_host-IsForgotten_example = delete_host-IsForgotten (λ s. false) 2 50 granted refl

normalize_tags-IsTidy_example : IsTidy lower db_input.tags ("Prod" ∷ "eu" ∷ [])
unfolding normalize_tags
normalize_tags-IsTidy_example = normalize_tags-IsTidy lower db_input.tags ("Prod" ∷ "eu" ∷ []) refl

-- A code for the host 2, which is deleted before the code is used: the next host gets the id 2, and
-- the token of the code is for it.
abbrev coded : Manager
coded = record manager {
  tables = record tables {
    oauth = record empty { codes = record code { host_ids = 2 ∷ [] } ∷ [] };
  };
}

abbrev next_input : Input
next_input = record db_input { name = "next"; jump_host = "" }

reused_id :
    map {B = ℕ × String}
      (λ h. (h.id, h.name))
      (create setting next_input (delete setting 2 coded).1).1.tables.hosts
    ≡ (2, "next") ∷ (1, "front") ∷ []
unfolding create delete
reused_id = refl

reused_access :
    (exchange
      (λ s. false)
      first_exchange
      (create setting next_input (delete setting 2 coded).1).1.tables.oauth).1.token_hosts
    ≡ (1, 2) ∷ []
unfolding create delete exchange normalize_list
reused_access = refl

-- `front` is put behind `db`, though five hosts are behind `front` already: the last of them is six
-- levels deep, and the pool refuses it.
abbrev behind : ℕ → String → ℕ → Host
behind id name jump = record front { id = id; name = name; jump_host_id = some jump }

abbrev deep : Manager
deep = record manager {
  tables = record tables {
    hosts =
        front
        ∷ record front { id = 9; name = "db" }
        ∷ behind 2 "b" 1
        ∷ behind 3 "c" 2
        ∷ behind 4 "d" 3
        ∷ behind 5 "e" 4
        ∷ behind 6 "f" 5
        ∷ [];
  };
}

abbrev deeper : Manager
deeper = (update setting 1 cycle_input deep).1

deep_reached : (get network "f" (new_pool deep.tables.hosts)).0 ≡ ok 5
unfolding get
deep_reached = refl

deeper_refused :
    (get network "f" (new_pool deeper.tables.hosts)).0
    ≡ err (
        jump_failed
          (jump_failed (jump_failed (jump_failed (jump_failed (jump_failed chain_too_long))))))
unfolding get update
deeper_refused = refl
