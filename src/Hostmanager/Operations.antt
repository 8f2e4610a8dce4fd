-- ===== src/Hostmanager/Operations.antt =====
-- internal/hostmanager/manager.go: the operations of a `Manager`.
use one_ssh.Base.{
  ℕ, String, true, false, List, [], ◌∷◌, ◌++◌, Option, none, some, if◌then◌else◌, str_eq,
}
use one_ssh.Store.{StoreError, Result, ok, err, Faults, read}
use one_ssh.Store.Hosts.{
  Host, Inventory, get_host, create_host, update_host, delete_host, update_fingerprint,
  archive_host, unarchive_host, jump_dependent_names,
}
use one_ssh.Sshpool
use one_ssh.Sshpool.{Pool, Network}
use one_ssh.Hostmanager.{
  Input, Answer, done, failed, ErrorKind, connection, classify_lookup, classify_archive,
  classify_store_write, classify_delete, any_error, Lower, Seal, zero_host, host_from_input,
}

-- `Manager`: the tables of the store, which the pool reads too, and the pool. `pool.hosts` is not
-- used: a call of the pool is given the table.
pub record Manager : Type 0 where
  pub tables : Inventory
  pub pool : Pool

-- What a call runs on: the sealing of passwords, the statements that fail, those that fail after its
-- write, and the time.
pub record Setting : Type 0 where
  pub lower : Lower
  pub seal : Seal
  pub fails : Faults
  pub fails_later : Faults
  pub now : ℕ

-- The answer of a change of the tables, and what the manager does after it.
abbrev pub stored {ℓ} :
    {A B : Type ℓ}
    → (StoreError → ErrorKind)
    → (A → Manager → Answer B × Manager)
    → Manager
    → Result A × Inventory
    → Answer B × Manager
stored kind rest m (err e, t) = (failed (kind e), record m { tables = t })
stored kind rest m (ok a, t) = rest a (record m { tables = t })

-- The row of the id, for the rest of an operation.
unfoldable pub found {ℓ} :
    {B : Type ℓ} → Manager → (Host → Answer B × Manager) → Result Host → Answer B × Manager
unfolding classify_lookup
found m rest (err e) = (failed (classify_lookup e), m)
found m rest (ok h) = rest h

abbrev pub given {ℓ} :
    {A B : Type ℓ} → Manager → (A → Answer B × Manager) → Answer A → Answer B × Manager
given m rest (failed e) = (failed e, m)
given m rest (done a) = rest a

unfoldable pub invalidate_all : List String → Manager → Manager
unfolding Sshpool.invalidate
invalidate_all [] m = m
invalidate_all (name ∷ names) m =
    invalidate_all names (record m { pool = Sshpool.invalidate name m.pool })

abbrev pub returned : Host → Manager → Answer Host × Manager
returned row m = (done row, m)

-- `Create`.
unfoldable pub create : Setting → Input → Manager → Answer Host × Manager
unfolding host_from_input create_host classify_store_write
create s in_ m =
    given m (λ h. stored classify_store_write returned m (create_host s.fails s.now h m.tables))
      (host_from_input s.lower s.seal s.fails false m.tables zero_host in_)

-- The names whose connections an update closes; the jump hosts are read after it.
unfoldable pub stale_names : Setting → Host → Host → Inventory → List String
unfolding jump_dependent_names
stale_names s old h t =
    old.name ∷ (if str_eq h.name old.name then [] else h.name ∷ [])
    ++ (if s.fails_later read then [] else jump_dependent_names old.id t)

abbrev pub replaced : Setting → Host → Host → Unit {0} → Manager → Answer Host × Manager
replaced s old h u m = (done h, invalidate_all (stale_names s old h m.tables) m)

-- `Update`.
unfoldable pub update : Setting → ℕ → Input → Manager → Answer Host × Manager
unfolding found get_host host_from_input update_host classify_store_write stale_names invalidate_all
update s id in_ m =
    found m
      (λ old.
        given m
          (λ h. stored classify_store_write (replaced s old h) m (update_host s.fails h m.tables))
          (host_from_input s.lower s.seal s.fails true m.tables old in_))
      (get_host s.fails id m.tables)

abbrev pub finished : Unit {0} → Manager → Answer (Unit {0}) × Manager
finished u m = (done tt, m)

-- `Delete`: the connection is closed before the row is deleted.
unfoldable pub delete : Setting → ℕ → Manager → Answer (Unit {0}) × Manager
unfolding found get_host invalidate_all delete_host classify_delete
delete s id m =
    found m
      (λ h.
        stored classify_delete finished (invalidate_all (h.name ∷ []) m)
          (delete_host s.fails id s.now m.tables))
      (get_host s.fails id m.tables)

abbrev pub dropped : Host → Unit {0} → Manager → Answer (Unit {0}) × Manager
dropped h u m = (done tt, invalidate_all (h.name ∷ []) m)

-- `ResetFingerprint`.
unfoldable pub reset_fingerprint : Setting → ℕ → Manager → Answer (Unit {0}) × Manager
unfolding found get_host invalidate_all update_fingerprint
reset_fingerprint s id m =
    found m (λ h. stored any_error (dropped h) m (update_fingerprint s.fails id none m.tables))
      (get_host s.fails id m.tables)

-- `reload`.
unfoldable pub reload : Setting → ℕ → Manager → Answer Host × Manager
unfolding found get_host
reload s id m = found m (λ h. (done h, m)) (get_host s.fails_later id m.tables)

abbrev pub put_away : Setting → ℕ → Host → Unit {0} → Manager → Answer Host × Manager
put_away s id h u m = reload s id (invalidate_all (h.name ∷ []) m)

-- `Archive`.
unfoldable pub archive : Setting → ℕ → Manager → Answer Host × Manager
unfolding found get_host invalidate_all archive_host classify_archive reload
archive s id m =
    found m
      (λ h. stored classify_archive (put_away s id h) m (archive_host s.fails id s.now m.tables))
      (get_host s.fails id m.tables)

-- `Unarchive`.
unfoldable pub unarchive : Setting → ℕ → Manager → Answer Host × Manager
unfolding unarchive_host classify_archive reload
unarchive s id m =
    stored classify_archive (λ u. reload s id) m (unarchive_host s.fails id s.now m.tables)

-- What `Test` runs on the client, outside of this package; `none` is its error.
abbrev pub Run : Type 0
Run = ℕ → Option String

-- The pool, on the table of hosts; a connection may write a fingerprint to it.
abbrev pub connected : Run → Manager → Sshpool.Result ℕ × Pool → Answer String × Manager
connected run m (Sshpool.err e, p) =
    (failed connection, record m { tables = record m.tables { hosts = p.hosts }; pool = p })
connected run m (Sshpool.ok client, p) = (
  elim (run client) [ none ↦ failed connection | some output ↦ done output ],
  record m { tables = record m.tables { hosts = p.hosts }; pool = p },
)

unfoldable pub dial_host : Network → Run → String → Manager → Answer String × Manager
unfolding Sshpool.get
dial_host net run name m =
    connected run m (Sshpool.get net name (record m.pool { hosts = m.tables.hosts }))

-- `Test`.
unfoldable pub test_host : Network → Run → Setting → ℕ → Manager → Answer String × Manager
unfolding found get_host invalidate_all dial_host
test_host net run s id m =
    found m (λ h. dial_host net run h.name (invalidate_all (h.name ∷ []) m))
      (get_host s.fails id m.tables)
