-- ===== src/Hostmanager.antt =====
-- internal/hostmanager/manager.go: the checks on a host that a user describes, and the operations on
-- hosts over the table of hosts and the pool of connections.
pub mod Chains
pub mod Sound
pub mod Checked
pub mod Tags
pub mod Statements
pub mod History
pub mod Operations
use one_ssh.Base.{
  ℕ, zero, suc, ◌+◌, String, Bool, true, false, not, ◌&&◌, ◌||◌, List, [], ◌∷◌, ◌++◌, Option, none,
  some, if◌then◌else◌, str_eq, any, ltb, ◌==◌, length, codes, text_trim, ℤ, pos, negsuc,
}
use one_ssh.Store.{
  StoreError, no_rows, has_running_jobs, is_jump_host, jump_host_archived, not_unique, Result, ok,
  err, Faults, is_set,
}
use one_ssh.Store.Hosts.{Host, Inventory, get_host, get_host_by_name, get_key}
use one_ssh.Sshpool

pub record Input : Type 0 where
  pub name : String
  pub addr : String
  pub port : ℤ
  pub username : String
  pub auth_type : String
  pub key_id : Option ℕ
  pub password : Option String
  pub jump_host : String
  pub monitor_enabled : Option Bool
  pub tags : List String

pub data ErrorKind : Type 0 where
  invalid not_found conflict connection internal : ErrorKind

-- A value, or an `Error` of a kind.
pub data Answer {ℓ} (A : Type ℓ) : Type ℓ where
  done : A → Answer A
  failed : ErrorKind → Answer A

infixl 5 ◌>>=◌
abbrev pub ◌>>=◌ {κ ℓ} : {B : Type κ} {A : Type ℓ} → Answer B → (B → Answer A) → Answer A
failed e >>= rest = failed e
done value >>= rest = rest value

-- The answer of a call of the store, its error classified.
abbrev pub classified {ℓ} : {A : Type ℓ} → (StoreError → ErrorKind) → Result A → Answer A
classified kind (ok a) = done a
classified kind (err e) = failed (kind e)

-- `classifyLookup`.
unfoldable pub classify_lookup : StoreError → ErrorKind
classify_lookup no_rows = not_found
classify_lookup e = internal

-- `classifyArchive`.
unfoldable pub classify_archive : StoreError → ErrorKind
classify_archive is_jump_host = conflict
classify_archive jump_host_archived = conflict
classify_archive no_rows = not_found
classify_archive e = internal

-- `classifyStoreWrite`.
unfoldable pub classify_store_write : StoreError → ErrorKind
classify_store_write not_unique = conflict
classify_store_write e = internal

-- The errors of `DeleteHost` in `Delete`.
unfoldable pub classify_delete : StoreError → ErrorKind
classify_delete has_running_jobs = conflict
classify_delete is_jump_host = conflict
classify_delete no_rows = not_found
classify_delete e = internal

-- What the caller named does not exist, and is a fault of the input.
unfoldable pub classify_named : StoreError → ErrorKind
classify_named no_rows = invalid
classify_named e = internal

abbrev pub any_error : StoreError → ErrorKind
any_error e = internal

-- `Box.Seal` of `internal/cryptox`; `none` is its error.
abbrev pub Seal : Type 0
Seal = String → Option (List ℕ)

-- `maxJumpChain` of this package.
abbrev pub max_levels : ℕ
max_levels = 5

-- `store.Host{}`.
abbrev pub zero_host : Host
zero_host = record {
  id = 0;
  name = "";
  addr = "";
  port = 0;
  username = "";
  auth_type = "";
  key_id = none;
  password_enc = none;
  host_key_fp = none;
  jump_host_id = none;
  monitor_enabled = false;
  tags = [];
  created_at = 0;
  archived_at = none;
}

-- The port that is kept: 22 in place of 0, and `none` for one that is refused.
unfoldable pub port_of : ℤ → Option ℕ
port_of (pos n) = if n == 0 then some 22 else if ltb 65535 n then none else some n
port_of (negsuc n) = none

abbrev pub is_blank : String → Bool
is_blank s = str_eq (text_trim s) ""

-- The fields that need no look-up, on top of the old row.
unfoldable pub basic_fields : Bool → Input → Host → ℕ → Host
unfolding text_trim
basic_fields updating in_ old port = record old {
  name = text_trim in_.name;
  addr = text_trim in_.addr;
  port = port;
  username = text_trim in_.username;
  auth_type = in_.auth_type;
  monitor_enabled = elim in_.monitor_enabled [
    | some on ↦ on
    | none ↦ if updating then old.monitor_enabled else true
  ];
}

unfoldable pub check_basic : Bool → Input → Host → Answer Host
unfolding basic_fields port_of text_trim
check_basic updating in_ old =
    if is_blank in_.name || is_blank in_.addr || is_blank in_.username
    then failed invalid
    else elim (port_of in_.port) [
      | none ↦ failed invalid
      | some port ↦ done (basic_fields updating in_ old port)
    ]

abbrev pub with_key : Faults → Host → Inventory → Option ℕ → Answer Host
with_key fails h t none = failed invalid
with_key fails h t (some id) = do
  found ← classified classify_named (get_key fails id t)
  done (record h { key_id = some id; password_enc = none })

-- `len(old.PasswordEnc) == 0`.
abbrev pub has_password : Host → Bool
has_password h = elim h.password_enc [ none ↦ false | some enc ↦ ltb 0 (length enc) ]

unfoldable pub with_password : Seal → Bool → Host → Host → Option String → Answer Host
with_password seal updating old h none =
    if updating && str_eq old.auth_type "password" && has_password old
    then done (record h { key_id = none })
    else failed invalid
with_password seal updating old h (some password) =
    if str_eq password "" then failed invalid else elim (seal password) [
      | none ↦ failed internal
      | some enc ↦ done (record h { key_id = none; password_enc = some enc })
    ]

-- The switch on `host.AuthType`.
unfoldable pub check_auth : Seal → Faults → Bool → Input → Host → Inventory → Host → Answer Host
unfolding with_password classify_named get_key
check_auth seal fails updating in_ old t h =
    if str_eq in_.auth_type "key"
    then with_key fails h t in_.key_id
    else if str_eq in_.auth_type "password"
    then with_password seal updating old h in_.password
    else failed invalid

-- The loop along the jump hosts from `cur`, of which `n` may still be entered; `bad` is the host that
-- is changed. At the last level each of the three tests refuses the input in the same way.
unfoldable pub walk_chain : ℕ → (ℕ → Bool) → Faults → Inventory → List ℕ → Host → Answer (Unit {0})
unfolding get_host
walk_chain zero bad fails t seen cur = failed invalid
walk_chain (suc n) bad fails t seen cur =
    if bad cur.id || any (λ id. id == cur.id) seen then failed invalid else elim cur.jump_host_id [
      | none ↦ done tt
      | some j ↦ elim (get_host fails j t) [
        | err e ↦ failed internal
        | ok next ↦ walk_chain n bad fails t (cur.id ∷ seen) next
      ]
    ]

-- The part of `hostFromInput` on a jump host that is there.
unfoldable pub link_jump : Faults → (ℕ → Bool) → Inventory → Host → Host → Answer Host
unfolding walk_chain
link_jump fails bad t h jump =
    if is_set jump.archived_at && not (is_set h.archived_at) then failed invalid else (do
      ends ← walk_chain max_levels bad fails t [] jump
      done (record h { jump_host_id = some jump.id }))

unfoldable pub check_jump : Faults → (ℕ → Bool) → Input → Inventory → Host → Answer Host
unfolding text_trim link_jump get_host_by_name classify_named
check_jump fails bad in_ t h =
    if is_blank in_.jump_host then done (record h { jump_host_id = none }) else (do
      jump ← classified classify_named (get_host_by_name fails (text_trim in_.jump_host) t)
      link_jump fails bad t h jump)

-- `strings.ToLower`.
abbrev pub Lower : Type 0
Lower = String → String

-- Equality of the keys of `normalizeTags`, texts in lower case.
unfoldable pub same_tag : Lower → String → String → Bool
same_tag lower a b = str_eq (lower a) (lower b)

-- `maxTagLength` and `maxTagsCount`.
abbrev pub max_tag_length : ℕ
max_tag_length = 32

abbrev pub max_tags_count : ℕ
max_tags_count = 16

abbrev pub is_skipped : Lower → List String → String → Bool
is_skipped lower tags tag = str_eq tag "" || any (same_tag lower tag) tags

-- The loop of `normalizeTags`; `tags` are those that are kept so far, which are those in `seen`.
unfoldable pub tags_from : Lower → List String → List String → Answer (List String)
unfolding text_trim same_tag
tags_from lower tags [] = done tags
tags_from lower tags (raw ∷ rest) =
    let tag = text_trim raw in
    let kept = if is_skipped lower tags tag then tags else tags ++ tag ∷ [] in
    let normalized = tags_from lower kept rest in
    if not (is_skipped lower tags tag) && ltb max_tag_length (length (codes tag))
    then failed invalid
    else normalized

-- `normalizeTags`.
unfoldable pub normalize_tags : Lower → List String → Answer (List String)
unfolding tags_from
normalize_tags lower raw = do
  tags ← tags_from lower [] raw
  if ltb max_tags_count (length tags) then failed invalid else done tags

-- The host that a chain may not meet: the one that is updated.
unfoldable pub is_changed : Bool → Host → ℕ → Bool
is_changed updating old id = updating && id == old.id

-- `hostFromInput`.
unfoldable pub host_from_input :
    Lower → Seal → Faults → Bool → Inventory → Host → Input → Answer Host
unfolding check_basic check_auth check_jump is_changed normalize_tags
host_from_input lower seal fails updating t old in_ = do
  basic ← check_basic updating in_ old
  with_auth ← check_auth seal fails updating in_ old t basic
  with_jump ← check_jump fails (is_changed updating old) in_ t with_auth
  tags ← normalize_tags lower in_.tags
  done (record with_jump { tags = tags })
