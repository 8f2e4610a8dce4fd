-- ===== src/Jobs/Killing.antt =====
-- `Kill` of internal/jobs/manager.go.
use one_ssh.Base.{
  ℕ, ◌*◌, String, Bool, not, ◌||◌, ◌∷◌, Option, none, some, if◌then◌else◌, str_eq, ◌==◌, ℤ, pos,
  text_trim, text_cut, codes, atoi, ◌⊎◌, inl, inr,
}
use one_ssh.Store.Jobs.{
  Job, JobTables, is_running, update_job_state, update_job_log_bytes, update_run_job_bytes,
}
use one_ssh.Jobs.{World, with_tables, Report, job_status, sync_command_run}

-- What the script that sends the signal came to: an error, or its exit code and what it printed.
abbrev pub Script : Type 0
Script = String → String ⊎ (ℤ × String)

-- `strings.SplitN(…, ":", 3)`, where it gives three fields.
unfoldable pub kill_report : String → Option Report
unfolding text_trim text_cut
kill_report output = elim (text_cut b':' (text_trim output)) [
  | none ↦ none
  | some (status, rest) ↦ elim (text_cut b':' rest) [
    | none ↦ none
    | some (code, size) ↦ some (record { status = status; code = code; size = size })
  ]
]

abbrev pub is_end : String → Bool
is_end status = str_eq status "exited" || str_eq status "killed" || str_eq status "lost"

-- The exit code of a report: that of a job which exited must be a number.
unfoldable pub end_code : Report → Option (Option ℤ)
unfolding text_trim atoi
end_code r =
    if str_eq r.status "exited"
    then (elim (atoi (codes (text_trim r.code))) [ none ↦ none | some n ↦ some (some n) ])
    else some none

-- The job's row and the tables at the end of `Kill`.
abbrev pub killed : ℕ → String → ℤ → Option ℤ → Job → Job
killed now status size code j = record j {
  status = status;
  exit_code = code;
  log_bytes = size;
  finished_at = some now;
}

unfoldable pub store_kill : ℕ → Job → String → ℤ → Option ℤ → JobTables → JobTables
unfolding update_job_state update_job_log_bytes update_run_job_bytes
store_kill now j status size code t =
    update_job_state j.id status code now
      (update_run_job_bytes j.id size (update_job_log_bytes j.id size t))

-- The end of `Kill`: the job's log, its state, its run, and the event.
unfoldable pub record_kill : ℕ → Job → String → ℤ → Option ℤ → World → World
unfolding store_kill sync_command_run
record_kill now j status size code w =
    let synced =
      sync_command_run (now * 1000) (killed now status size code j) code
        (with_tables (store_kill now j status size code w.tables) w) in
    record synced { notices = job_status j.id status ∷ synced.notices }

unfoldable pub exact_size : Report → Option ℤ
unfolding text_trim atoi
exact_size r = atoi (codes (text_trim r.size))

unfoldable pub accept_kill : ℕ → Job → Report → World → Option String × World
unfolding exact_size end_code record_kill
accept_kill now j r w =
    if not (is_end r.status) then (some "unknown status", w) else elim (exact_size r) [
      | none ↦ (some "no size", w)
      | some size ↦ elim (end_code r) [
        | none ↦ (some "no exit code", w)
        | some code ↦ (none, record_kill now j r.status size code w)
      ]
    ]

unfoldable pub after_script : ℕ → Job → String ⊎ (ℤ × String) → World → Option String × World
unfolding kill_report accept_kill
after_script now j (inl error) w = (some error, w)
after_script now j (inr (exit_code, output)) w = elim exit_code [
  | pos n ↦
      if n == 0
      then (elim (kill_report output) [
        | none ↦ (some "no report", w)
        | some r ↦ accept_kill now j r w
      ])
      else (some output, w)
  | _ ↦ (some output, w)
]

-- `Kill`: the error, if any. `reach` is the way to the host, an error in its place or not.
unfoldable pub kill : Option String → Script → ℕ → String → Job → World → Option String × World
unfolding after_script
kill reach script now signal j w =
    if not (is_running j.status)
    then (none, w)
    else if not (str_eq signal "TERM" || str_eq signal "KILL")
    then (some "no such signal", w)
    else elim reach [ some error ↦ (some error, w) | none ↦ after_script now j (script signal) w ]
