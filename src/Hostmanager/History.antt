-- ===== src/Hostmanager/History.antt =====
-- Histories of operations of a `Manager` (internal/hostmanager/manager.go).
use one_ssh.Base.{
  ℕ, String, true, false, List, [], ◌∷◌, none, some, ◌≡◌, refl, sym, ap, subst, ◌∙◌, ◌==◌,
  if◌then◌else◌,
}
use one_ssh.Store.{StoreError, Result, ok, err, update_where}
use one_ssh.Store.Hosts.{
  Host, Inventory, find_id, get_host, create_host, update_host, delete_host, update_fingerprint,
  archive_host, unarchive_host,
}
use one_ssh.Store.Hosts.Find.{find_id-id}
use one_ssh.Sshpool
use one_ssh.Sshpool.{Pool, Network, set_fingerprint}
use one_ssh.Sshpool.Rows.{get-keeps}
use one_ssh.Hostmanager.{
  Input, Answer, done, failed, ErrorKind, zero_host, host_from_input, any_error, is_changed,
  classify_delete, classify_archive, classify_store_write,
}
use one_ssh.Hostmanager.Chains.{get_host-ok}
use one_ssh.Hostmanager.Sound.{IsSound, mark-IsSound}
use one_ssh.Hostmanager.Checked.{host_from_input-IsFit}
use one_ssh.Hostmanager.Statements.{
  create_host-IsSound, update_host-IsSound, update_fingerprint-IsSound, delete_host-IsSound,
  archive_host-IsSound, unarchive_host-IsSound,
}
use one_ssh.Hostmanager.Operations.{
  Manager, Setting, Run, stored, given, found, returned, replaced, finished, dropped, put_away,
  connected, stale_names, invalidate_all, create, update, delete, reset_fingerprint, reload,
  archive, unarchive, dial_host, test_host,
}

-- A call of the manager, with what it runs on.
pub data Operation : Type 0 where
  creating : Setting → Input → Operation
  updating : Setting → ℕ → Input → Operation
  deleting resetting archiving unarchiving : Setting → ℕ → Operation
  testing : Network → Run → Setting → ℕ → Operation

unfoldable pub perform : Operation → Manager → Manager
unfolding create update delete reset_fingerprint archive unarchive test_host
perform (creating s in_) m = (create s in_ m).1
perform (updating s id in_) m = (update s id in_ m).1
perform (deleting s id) m = (delete s id m).1
perform (resetting s id) m = (reset_fingerprint s id m).1
perform (archiving s id) m = (archive s id m).1
perform (unarchiving s id) m = (unarchive s id m).1
perform (testing net run s id) m = (test_host net run s id m).1

unfoldable pub perform_all : List Operation → Manager → Manager
unfolding perform
perform_all [] m = m
perform_all (op ∷ ops) m = perform_all ops (perform op m)

-- The table of a manager is sound.
abbrev pub HasSoundTable : Manager → Type 0
HasSoundTable m = IsSound m.tables.hosts

stored-keeps :
    {A B : Type 0} (kind : StoreError → ErrorKind) (rest : A → Manager → Answer B × Manager)
    (m : Manager) (r : Result A × Inventory)
    → IsSound r.1.hosts
    → ((a : A) (n : Manager) → HasSoundTable n → HasSoundTable (rest a n).1)
    → HasSoundTable (stored kind rest m r).1
stored-keeps kind rest m (err e, t) s f = s
stored-keeps kind rest m (ok a, t) s f = f a (record m { tables = t }) s

found-keeps :
    {B : Type 0} (m : Manager) (rest : Host → Answer B × Manager) (r : Result Host)
    → HasSoundTable m
    → ((h : Host) → r ≡ ok h → HasSoundTable (rest h).1)
    → HasSoundTable (found m rest r).1
unfolding found
found-keeps m rest (err e) s f = s
found-keeps m rest (ok h) s f = f h refl

given-keeps :
    {A B : Type 0} (m : Manager) (rest : A → Answer B × Manager) (r : Answer A)
    → HasSoundTable m
    → ((a : A) → r ≡ done a → HasSoundTable (rest a).1)
    → HasSoundTable (given m rest r).1
given-keeps m rest (failed e) s f = s
given-keeps m rest (done a) s f = f a refl

-- Closing connections leaves the tables as they are.
invalidate_all-keeps :
    (names : List String) (m : Manager) → HasSoundTable m → HasSoundTable (invalidate_all names m)
unfolding invalidate_all Sshpool.invalidate
invalidate_all-keeps [] m s = s
invalidate_all-keeps (name ∷ names) m s =
    invalidate_all-keeps names (record m { pool = Sshpool.invalidate name m.pool }) s

create-keeps :
    (s : Setting) (in_ : Input) (m : Manager) → HasSoundTable m → HasSoundTable (create s in_ m).1
unfolding create is_changed
create-keeps s in_ m k =
    given-keeps m _ (host_from_input s.lower s.seal s.fails false m.tables zero_host in_) k (λ h e.
      stored-keeps classify_store_write returned m (create_host s.fails s.now h m.tables)
        (create_host-IsSound s.fails s.now h m.tables k (
          host_from_input-IsFit s.lower s.seal s.fails false m.tables zero_host in_ h k.distinct e))
        (λ row n l. l))

update-keeps :
    (s : Setting) (id : ℕ) (in_ : Input) (m : Manager)
    → HasSoundTable m
    → HasSoundTable (update s id in_ m).1
unfolding update is_changed
update-keeps s id in_ m k = found-keeps m _ (get_host s.fails id m.tables) k (λ old g.
    given-keeps m _ (host_from_input s.lower s.seal s.fails true m.tables old in_) k (λ h e.
      let here = get_host-ok s.fails id m.tables old g in
      let fit = host_from_input-IsFit s.lower s.seal s.fails true m.tables old in_ h k.distinct e in
      let same = fit.same_id ∙ find_id-id id m.tables.hosts old here in
      stored-keeps classify_store_write (replaced s old h) m (update_host s.fails h m.tables)
        (update_host-IsSound s.fails h old m.tables k
          (subst (λ i. find_id i m.tables.hosts ≡ some old) (sym same) here) fit)
        (λ u n l. invalidate_all-keeps (stale_names s old h n.tables) n l)))

delete-keeps :
    (s : Setting) (id : ℕ) (m : Manager) → HasSoundTable m → HasSoundTable (delete s id m).1
unfolding delete
delete-keeps s id m k = found-keeps m _ (get_host s.fails id m.tables) k (λ h g.
    stored-keeps classify_delete finished (invalidate_all (h.name ∷ []) m)
      (delete_host s.fails id s.now m.tables) (delete_host-IsSound s.fails id s.now m.tables k)
      (λ u n l. l))

reset_fingerprint-keeps :
    (s : Setting) (id : ℕ) (m : Manager)
    → HasSoundTable m
    → HasSoundTable (reset_fingerprint s id m).1
unfolding reset_fingerprint
reset_fingerprint-keeps s id m k = found-keeps m _ (get_host s.fails id m.tables) k (λ h g.
    stored-keeps any_error (dropped h) m (update_fingerprint s.fails id none m.tables)
      (update_fingerprint-IsSound s.fails id none m.tables k)
      (λ u n l. invalidate_all-keeps (h.name ∷ []) n l))

reload-keeps :
    (s : Setting) (id : ℕ) (m : Manager) → HasSoundTable m → HasSoundTable (reload s id m).1
unfolding reload
reload-keeps s id m k = found-keeps m _ (get_host s.fails_later id m.tables) k (λ h g. k)

archive-keeps :
    (s : Setting) (id : ℕ) (m : Manager) → HasSoundTable m → HasSoundTable (archive s id m).1
unfolding archive
archive-keeps s id m k = found-keeps m _ (get_host s.fails id m.tables) k (λ h g.
    stored-keeps classify_archive (put_away s id h) m (archive_host s.fails id s.now m.tables)
      (archive_host-IsSound s.fails id s.now m.tables k)
      (λ u n l.
        reload-keeps s id (invalidate_all (h.name ∷ []) n)
          (invalidate_all-keeps (h.name ∷ []) n l)))

unarchive-keeps :
    (s : Setting) (id : ℕ) (m : Manager) → HasSoundTable m → HasSoundTable (unarchive s id m).1
unfolding unarchive
unarchive-keeps s id m k =
    stored-keeps classify_archive (λ u. reload s id) m (unarchive_host s.fails id s.now m.tables)
      (unarchive_host-IsSound s.fails id s.now m.tables k) (λ u n l. reload-keeps s id n l)

set_fingerprint-update_where :
    (id : ℕ) (fp : String) (hosts : List Host)
    → set_fingerprint id fp hosts
      ≡ update_where (λ h. h.id == id) (λ h. record h { host_key_fp = some fp }) hosts
unfolding set_fingerprint update_where
set_fingerprint-update_where id fp [] = refl
set_fingerprint-update_where id fp (h ∷ hosts) =
    ap (λ rest. (if h.id == id then record h { host_key_fp = some fp } else h) ∷ rest)
      (set_fingerprint-update_where id fp hosts)

connected-keeps :
    (run : Run) (m : Manager) (r : Sshpool.Result ℕ × Pool)
    → IsSound r.1.hosts
    → HasSoundTable (connected run m r).1
connected-keeps run m (Sshpool.err e, p) s = s
connected-keeps run m (Sshpool.ok client, p) s = s

test_host-keeps :
    (net : Network) (run : Run) (s : Setting) (id : ℕ) (m : Manager)
    → HasSoundTable m
    → HasSoundTable (test_host net run s id m).1
unfolding test_host dial_host
test_host-keeps net run s id m k = found-keeps m _ (get_host s.fails id m.tables) k (λ h g.
    let n = invalidate_all (h.name ∷ []) m in
    connected-keeps run n (Sshpool.get net h.name (record n.pool { hosts = n.tables.hosts })) (
      get-keeps IsSound
        (λ i fp hosts l. subst IsSound (sym (set_fingerprint-update_where i fp hosts)) (
          mark-IsSound (λ h. h.id == i) (λ h. record h { host_key_fp = some fp }) hosts (λ g. refl)
            (λ g. refl) (λ g. refl) l))
        net h.name (record n.pool { hosts = n.tables.hosts })
        (invalidate_all-keeps (h.name ∷ []) m k)))

perform-keeps : (op : Operation) (m : Manager) → HasSoundTable m → HasSoundTable (perform op m)
unfolding perform
perform-keeps (creating s in_) m k = create-keeps s in_ m k
perform-keeps (updating s id in_) m k = update-keeps s id in_ m k
perform-keeps (deleting s id) m k = delete-keeps s id m k
perform-keeps (resetting s id) m k = reset_fingerprint-keeps s id m k
perform-keeps (archiving s id) m k = archive-keeps s id m k
perform-keeps (unarchiving s id) m k = unarchive-keeps s id m k
perform-keeps (testing net run s id) m k = test_host-keeps net run s id m k

-- Whatever operations on hosts are called, on whatever inputs and with whatever statements failing,
-- a sound table of hosts stays sound: ids are distinct, from every host the chain of jump hosts is
-- in the table and comes to an end, and no host that is in use is behind an archived one.
pub perform_all-IsSound :
    (ops : List Operation) (m : Manager) → HasSoundTable m → HasSoundTable (perform_all ops m)
unfolding perform_all
perform_all-IsSound [] m k = k
perform_all-IsSound (op ∷ ops) m k = perform_all-IsSound ops (perform op m) (perform-keeps op m k)
