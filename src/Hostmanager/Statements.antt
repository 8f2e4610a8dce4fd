-- ===== src/Hostmanager/Statements.antt =====
-- The statements of internal/store/hosts_keys.go that the manager of hosts calls, and the soundness
-- of the table of hosts.
use one_ssh.Base.{
  ℕ, String, false, not, ◌&&◌, ◌||◌, Option, none, some, str_eq, any, keep, ◌==◌, ◌≡◌, refl, sym,
  ap, subst, arith,
}
use one_ssh.Store.{
  Result, Faults, begin, read, insert_row, update_row, revoke, delete_row, db_error, no_rows,
  has_running_jobs, is_jump_host, jump_host_archived, update_where, is_set,
}
use one_ssh.Store.Jobs.{is_running}
use one_ssh.Store.Oauth.Frame.{refuse-eq-ok}
use one_ssh.Store.Oauth.Spent.{if-keeps, settle-keeps}
use one_ssh.Store.Hosts.{
  Host, Inventory, find_id, jumps_to, has_archived_jump, archived, create_host, update_host,
  delete_host, update_fingerprint, archive_host, unarchive_host,
}
use one_ssh.Hostmanager.{zero_host}
use one_ssh.Hostmanager.Chains.{Ends}
use one_ssh.Hostmanager.Sound.{IsSound, mark-IsSound}
use one_ssh.Hostmanager.Sound.Rows.{add-IsSound, replace-IsSound}
use one_ssh.Hostmanager.Sound.Columns.{remove-IsSound, archive-IsSound, unarchive-IsSound}
use one_ssh.Hostmanager.Checked.{IsFit}

pub create_host-IsSound :
    (fails : Faults) (now : ℕ) (h : Host) (t : Inventory)
    → IsSound t.hosts
    → IsFit (λ j. false) t.hosts zero_host h
    → IsSound (create_host fails now h t).1.hosts
unfolding create_host has_archived_jump
create_host-IsSound fails now h t s f =
    let sound = λ (r : Result Host × Inventory). IsSound r.1.hosts in
    let a = f.same_archived in
    let o = f.open_jump in
    if-keeps sound (fails insert_row) s (
      if-keeps sound (any (λ g. str_eq g.name h.name) t.hosts) s
        (add-IsSound now h t.hosts s f.ends (ground arith)))

pub update_host-IsSound :
    (fails : Faults) (h old : Host) (t : Inventory)
    → IsSound t.hosts
    → find_id h.id t.hosts ≡ some old
    → IsFit (λ j. j == old.id) t.hosts old h
    → IsSound (update_host fails h t).1.hosts
unfolding update_host
update_host-IsSound fails h old t s here f =
    let sound = λ (r : Result (Unit {0}) × Inventory). IsSound r.1.hosts in
    if-keeps sound (fails update_row) s (
      if-keeps sound
        (any (λ g. not (g.id == h.id) && str_eq g.name h.name) t.hosts
          && any (λ g. g.id == h.id) t.hosts)
        s
        (replace-IsSound h old t.hosts s here (ap is_set f.same_archived)
          (subst (λ i. Ends (λ j. j == i) t.hosts h.jump_host_id) (sym f.same_id) f.ends)
          f.open_jump))

pub update_fingerprint-IsSound :
    (fails : Faults) (id : ℕ) (fp : Option String) (t : Inventory)
    → IsSound t.hosts
    → IsSound (update_fingerprint fails id fp t).1.hosts
unfolding update_fingerprint
update_fingerprint-IsSound fails id fp t s =
    if-keeps (λ (r : Result (Unit {0}) × Inventory). IsSound r.1.hosts) (fails update_row) s
      (mark-IsSound (λ h. h.id == id) (λ h. record h { host_key_fp = fp }) t.hosts (λ g. refl)
        (λ g. refl) (λ g. refl) s)

pub delete_host-IsSound :
    (fails : Faults) (id now : ℕ) (t : Inventory)
    → IsSound t.hosts
    → IsSound (delete_host fails id now t).1.hosts
unfolding delete_host
delete_host-IsSound fails id now t s =
    settle-keeps (λ d. IsSound d.hosts) fails t _ s
      (λ a d e.
        let (r1, e1) = refuse-eq-ok (fails begin || fails read) db_error _ e in
        let (r2, e2) =
          refuse-eq-ok (any (λ j. j.host_id == id && is_running j.status) t.jobs) has_running_jobs _
            e1 in
        let (r3, e3) = refuse-eq-ok (any (jumps_to id) t.hosts) is_jump_host _ e2 in
        let (r4, e4) = refuse-eq-ok (fails revoke || fails delete_row) db_error _ e3 in
        let (r5, e5) = refuse-eq-ok (not (any (λ h. h.id == id) t.hosts)) no_rows _ e4 in
        let last : d.hosts ≡ keep (λ h. not (h.id == id)) t.hosts = ground arith in
        subst IsSound (sym last) (remove-IsSound id t.hosts s r3))

pub archive_host-IsSound :
    (fails : Faults) (id at : ℕ) (t : Inventory)
    → IsSound t.hosts
    → IsSound (archive_host fails id at t).1.hosts
unfolding archive_host
archive_host-IsSound fails id at t s =
    settle-keeps (λ d. IsSound d.hosts) fails t _ s
      (λ a d e.
        let (r1, e1) = refuse-eq-ok (fails begin || fails read) db_error _ e in
        let (r2, e2) =
          refuse-eq-ok (any (λ h. jumps_to id h && not (is_set h.archived_at)) t.hosts) is_jump_host
            _ e1 in
        let (r3, e3) = refuse-eq-ok (fails update_row) db_error _ e2 in
        let (r4, e4) = refuse-eq-ok (not (any (λ h. h.id == id) t.hosts)) no_rows _ e3 in
        let last : d.hosts ≡ update_where (λ h. h.id == id) (archived at) t.hosts = ground arith in
        subst IsSound (sym last) (archive-IsSound id at t.hosts s r2))

pub unarchive_host-IsSound :
    (fails : Faults) (id now : ℕ) (t : Inventory)
    → IsSound t.hosts
    → IsSound (unarchive_host fails id now t).1.hosts
unfolding unarchive_host
unarchive_host-IsSound fails id now t s =
    settle-keeps (λ d. IsSound d.hosts) fails t _ s
      (λ a d e.
        let (r1, e1) = refuse-eq-ok (fails begin || fails read) db_error _ e in
        let (r2, e2) =
          refuse-eq-ok (any (λ h. h.id == id && has_archived_jump t.hosts h) t.hosts)
            jump_host_archived _ e1 in
        let (r3, e3) = refuse-eq-ok (fails update_row) db_error _ e2 in
        let (r4, e4) = refuse-eq-ok (not (any (λ h. h.id == id) t.hosts)) no_rows _ e3 in
        let last : d.hosts
            ≡ update_where (λ h. h.id == id) (λ h. record h { archived_at = none }) t.hosts =
          ground arith in
        subst IsSound (sym last) (unarchive-IsSound id t.hosts s r2))
