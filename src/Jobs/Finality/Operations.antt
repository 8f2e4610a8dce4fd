-- ===== src/Jobs/Finality/Operations.antt =====
-- Refreshes and kills of internal/jobs/manager.go, and runs that have ended.
use one_ssh.Base.{
  ℕ, ◌*◌, String, Bool, true, false, not, ◌||◌, List, [], ◌∷◌, Option, none, if◌then◌else◌, str_eq,
  ◌==◌, ℤ, pos, negsuc, Bool-cases, Option-cases, Sum-cases, ◌⊎◌, inl, inr, map,
}
use one_ssh.Store.Jobs.{
  Job, is_running, update_job_state, update_job_log_bytes, record_job_check, update_run_job_bytes,
}
use one_ssh.Jobs.{
  World, Status, Hosts, Report, sync_command_run, snapshot, with_end, record_end, apply_report,
  code_of, size_of, sized, with_tables, with_state, probe, probe_report, probe_all, refresh,
  refresh_host,
}
use one_ssh.Jobs.Refreshing.{
  Turn, stuck, delivered, prefill, of_host, take_turn, take_turns, refresh_all,
}
use one_ssh.Jobs.Killing.{
  Script, kill_report, end_code, exact_size, killed, store_kill, record_kill, accept_kill,
  after_script, kill, is_end,
}
use one_ssh.Jobs.Finality.{
  Later, LaterRuns-refl, LaterRuns-trans, update_run_job_bytes-LaterRuns, sync_command_run-Later,
}

pub Later-refl : (w : World) → Later w w
Later-refl w = LaterRuns-refl w.tables.runs

pub Later-trans : (u v w : World) → Later u v → Later v w → Later u w
Later-trans u v w a b = LaterRuns-trans u.tables.runs v.tables.runs w.tables.runs a b

pub if-Later {ℓ} :
    {A : Type ℓ} (u : World) (b : Bool) (x y : A × World)
    → Later u x.1
    → Later u y.1
    → Later u (if b then x else y).1
if-Later u true x y p q = p
if-Later u false x y p q = q

record_end-Later :
    (now : ℕ) (status : String) (code : Option ℤ) (j : Job) (w : World)
    → Later w (record_end now status code j w).1
unfolding record_end update_job_state
record_end-Later now status code j w = if-Later w (str_eq status j.status) _ _ (Later-refl w) (
    sync_command_run-Later (now * 1000) (with_end now status code j) code
      (with_state now status code j w))

apply_report-Later :
    (now : ℕ) (j : Job) (r : Report) (w : World) → Later w (apply_report now j r w).1
unfolding apply_report record_job_check
apply_report-Later now j r w =
    let checked = record_job_check j.id (size_of r) now w.tables in
    let next = with_tables (update_run_job_bytes j.id (size_of r) checked) w in
    Later-trans w next (apply_report now j r w).1
      (update_run_job_bytes-LaterRuns j.id (size_of r) checked)
      (record_end-Later now r.status (code_of r) (sized (size_of r) j) next)

probe-Later : (hosts : Hosts) (now : ℕ) (j : Job) (w : World) → Later w (probe hosts now j w).1
unfolding probe
probe-Later hosts now j w = elim (Sum-cases (hosts.prints j)) [
  | inl (error, e) ↦ rw (probe, e) (Later-refl w)
  | inr (output, e) ↦ elim (Option-cases (probe_report output)) [
    | inl k ↦ rw (probe, e, k) (Later-refl w)
    | inr (r, k) ↦ rw (probe, e, k) (apply_report-Later now j r w)
  ]
]

pub refresh-Later :
    (hosts : Hosts) (now : ℕ) (j : Job) (w : World) → Later w (refresh hosts now j w).1
unfolding refresh snapshot
refresh-Later hosts now j w = elim (Bool-cases (is_running j.status)) [
  | inr e ↦ rw (refresh, e) (sync_command_run-Later (now * 1000) j none w)
  | inl e ↦ elim (Option-cases (hosts.connects j.host_id)) [
    | inl k ↦ rw (refresh, e, k) (probe-Later hosts now j w)
    | inr (error, k) ↦ rw (refresh, e, k) (Later-refl w)
  ]
]

probe_all-Later :
    (hosts : Hosts) (now : ℕ) (js : List Job) (w : World) → Later w (probe_all hosts now js w).1
unfolding probe_all
probe_all-Later hosts now [] w = Later-refl w
probe_all-Later hosts now (j ∷ js) w =
    let next = (probe hosts now j w).1 in
    Later-trans w next (probe_all hosts now js next).1 (probe-Later hosts now j w)
      (probe_all-Later hosts now js next)

pub refresh_host-Later :
    (hosts : Hosts) (now host : ℕ) (js : List Job) (w : World)
    → Later w (refresh_host hosts now host js w).1
unfolding refresh_host
refresh_host-Later hosts now host js w = elim (Option-cases (hosts.connects host)) [
  | inl e ↦ rw (refresh_host, e) (probe_all-Later hosts now js w)
  | inr (error, e) ↦ rw (refresh_host, e) (Later-refl w)
]

prefill-Later : (now : ℕ) (js : List Job) (w : World) → Later w (prefill now js w).1
unfolding prefill snapshot
prefill-Later now [] w = Later-refl w
prefill-Later now (j ∷ js) w = elim (Bool-cases (is_running j.status)) [
  | inl e ↦ rw (prefill, e) (prefill-Later now js w)
  | inr e ↦
      let next = sync_command_run (now * 1000) j none w in
      rw (prefill, e)
        (Later-trans w next (prefill now js next).1 (sync_command_run-Later (now * 1000) j none w)
          (prefill-Later now js next))
]

take_turn-Later :
    (hosts : Hosts) (now : ℕ) (list : List Job) (turn : ℕ × Turn) (r : List Status × World)
    → Later r.1 (take_turn hosts now list turn r).1
unfolding take_turn
take_turn-Later hosts now list (host, stuck) (out, w) = Later-refl w
take_turn-Later hosts now list (host, delivered) (out, w) =
    refresh_host-Later hosts now host (map (λ p. p.1) (of_host host 0 list)) w

take_turns-Later :
    (hosts : Hosts) (now : ℕ) (list : List Job) (turns : List (ℕ × Turn)) (r : List Status × World)
    → Later r.1 (take_turns hosts now list turns r).1
unfolding take_turns
take_turns-Later hosts now list [] r = Later-refl r.1
take_turns-Later hosts now list (turn ∷ turns) r =
    let next = take_turn hosts now list turn r in
    Later-trans r.1 next.1 (take_turns hosts now list turns next).1
      (take_turn-Later hosts now list turn r) (take_turns-Later hosts now list turns next)

pub refresh_all-Later :
    (hosts : Hosts) (now : ℕ) (turns : List (ℕ × Turn)) (list : List Job) (w : World)
    → Later w (refresh_all hosts now turns list w).1
unfolding refresh_all
refresh_all-Later hosts now turns list w =
    let first = prefill now list w in
    Later-trans w first.1 (take_turns hosts now list turns first).1 (prefill-Later now list w)
      (take_turns-Later hosts now list turns first)

record_kill-Later :
    (now : ℕ) (j : Job) (status : String) (size : ℤ) (code : Option ℤ) (w : World)
    → Later w (record_kill now j status size code w)
unfolding record_kill store_kill update_job_state update_job_log_bytes
record_kill-Later now j status size code w =
    let next = with_tables (store_kill now j status size code w.tables) w in
    Later-trans w next (record_kill now j status size code w)
      (update_run_job_bytes-LaterRuns j.id size (update_job_log_bytes j.id size w.tables))
      (sync_command_run-Later (now * 1000) (killed now status size code j) code next)

accept_kill-Later : (now : ℕ) (j : Job) (r : Report) (w : World) → Later w (accept_kill now j r w).1
unfolding accept_kill
accept_kill-Later now j r w =
    if-Later w (not (is_end r.status)) _ _ (Later-refl w) (elim (Option-cases (exact_size r)) [
      | inl e ↦ rw e (Later-refl w)
      | inr (size, e) ↦ elim (Option-cases (end_code r)) [
        | inl k ↦ rw (e, k) (Later-refl w)
        | inr (code, k) ↦ rw (e, k) (record_kill-Later now j r.status size code w)
      ]
    ])

after_script-Later :
    (now : ℕ) (j : Job) (r : String ⊎ (ℤ × String)) (w : World) → Later w (after_script now j r w).1
unfolding after_script
after_script-Later now j (inl error) w = Later-refl w
after_script-Later now j (inr (negsuc n, output)) w = Later-refl w
after_script-Later now j (inr (pos n, output)) w = elim (Bool-cases (n == 0)) [
  | inr e ↦ rw (after_script, e) (Later-refl w)
  | inl e ↦ elim (Option-cases (kill_report output)) [
    | inl k ↦ rw (after_script, e, k) (Later-refl w)
    | inr (r, k) ↦ rw (after_script, e, k) (accept_kill-Later now j r w)
  ]
]

pub kill-Later :
    (reach : Option String) (script : Script) (now : ℕ) (signal : String) (j : Job) (w : World)
    → Later w (kill reach script now signal j w).1
unfolding kill
kill-Later reach script now signal j w = if-Later w (not (is_running j.status)) _ _ (Later-refl w) (
    if-Later w (not (str_eq signal "TERM" || str_eq signal "KILL")) _ _ (Later-refl w)
      (elim (Option-cases reach) [
        | inl e ↦ rw e (after_script-Later now j (script signal) w)
        | inr (error, e) ↦ rw e (Later-refl w)
      ]))
