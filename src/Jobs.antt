-- ===== src/Jobs.antt =====
-- internal/jobs/manager.go: background jobs on hosts, what is asked of them and what is kept of the
-- answers. What a script prints on a host is an argument; errors of the database are left out.
pub mod Refreshing
pub mod Killing
pub mod Maintenance
pub mod Finality
pub mod History
use one_ssh.Base.{
  ℕ, ◌*◌, String, Bool, not, List, [], ◌∷◌, Option, none, some, if◌then◌else◌, str_eq, ◌==◌, ℤ, pos,
  map, ◌⊎◌, inl, inr, text_trim, text_split, codes, atoi,
}
use one_ssh.Store.Jobs.{
  Job, CommandRun, JobTables, is_running, update_job_state, record_job_check, get_run_by_job,
  update_run_job_bytes, finish_run_by_job,
}

-- What is published on the bus of events.
pub data Notice : Type 0 where
  job_status : String → String → Notice
  command_job_linked : String → String → Notice
  command_finished : CommandRun → String → Option ℤ → ℤ → ℕ → Notice

-- The tables, and what has been published, the latest first.
pub record World : Type 0 where
  pub tables : JobTables
  pub notices : List Notice

pub record JobView : Type 0 where
  pub id : String
  pub host_id : ℕ
  pub command : String
  pub cwd : String
  pub pid : Option ℤ
  pub used_setsid : Bool
  pub status : String
  pub exit_code : Option ℤ
  pub started_at : ℕ
  pub finished_at : Option ℕ

pub record Status : Type 0 where
  pub job : JobView
  pub log_bytes : ℤ
  pub refresh_error : String

unfoldable pub view : Job → JobView
view j = record {
  id = j.id;
  host_id = j.host_id;
  command = j.command;
  cwd = j.cwd;
  pid = j.pid;
  used_setsid = j.used_setsid;
  status = j.status;
  exit_code = j.exit_code;
  started_at = j.started_at;
  finished_at = j.finished_at;
}

-- How a run ends with its job: the status, and the exit code; `none` where the job has not ended.
unfoldable pub run_end : Job → Option ℤ → Option (String × Option ℤ)
run_end j code =
    if str_eq j.status "exited"
    then (let known : Option ℤ = elim code [ none ↦ j.exit_code | some c ↦ some c ] in
        some (
          elim known [
            | none ↦ "failed"
            | some c ↦ elim c [ pos n ↦ if n == 0 then "succeeded" else "failed" | _ ↦ "failed" ]
          ],
          known,
        ))
    else if str_eq j.status "killed"
    then some ("cancelled", code)
    else if str_eq j.status "lost"
    then some ("lost", code)
    else none

-- The milliseconds at which a run ended: those of its job, or `now_ms`.
abbrev end_ms : ℕ → Job → ℕ
end_ms now_ms j = elim j.finished_at [ none ↦ now_ms | some t ↦ t * 1000 ]

abbrev notified : Job → CommandRun → String × Option ℤ → ℕ → World → Bool × JobTables → World
notified j run (status, code) ms w (changed, tables) = record {
  tables = tables;
  notices =
      if changed then command_finished run status code j.log_bytes ms ∷ w.notices else w.notices;
}

-- The end of `syncCommandRun`.
unfoldable pub finish_run : ℕ → Job → CommandRun → String × Option ℤ → World → World
unfolding finish_run_by_job
finish_run now_ms j run (status, code) w =
    notified j run (status, code) (end_ms now_ms j) w
      (finish_run_by_job j.id status code (end_ms now_ms j) w.tables)

-- `syncCommandRun`.
unfoldable pub sync_command_run : ℕ → Job → Option ℤ → World → World
unfolding run_end finish_run get_run_by_job
sync_command_run now_ms j code w = elim (get_run_by_job j.id w.tables) [
  | none ↦ w
  | some run ↦
      if is_running run.status
      then (elim (run_end j code) [ none ↦ w | some e ↦ finish_run now_ms j run e w ])
      else w
]

-- `snapshot`.
unfoldable pub snapshot : ℕ → Job → World → Status × World
unfolding view sync_command_run
snapshot now_ms j w = (
  record { job = view j; log_bytes = j.log_bytes; refresh_error = "" },
  sync_command_run now_ms j none w,
)

-- `staleStatus`.
unfoldable pub stale_status : Job → String → Status
unfolding view
stale_status j reason = record { job = view j; log_bytes = j.log_bytes; refresh_error = reason }

-- What a script's output says of a job: the status, the text of the exit code and the log's size.
pub record Report : Type 0 where
  pub status : String
  pub code : String
  pub size : String

abbrev fields : List String → Option Report
fields (status ∷ code ∷ size ∷ rest) = some (record { status = status; code = code; size = size })
fields parts = none

-- The fields of the output that `probe` reads.
unfoldable pub probe_report : String → Option Report
unfolding text_trim text_split
probe_report output = fields (text_split b':' (text_trim output))

-- The job's new state in `probe`, where the status has changed.
abbrev pub with_end : ℕ → String → Option ℤ → Job → Job
with_end now status code j = record j {
  status = status;
  exit_code = elim code [ none ↦ j.exit_code | some c ↦ some c ];
  finished_at = if is_running status then j.finished_at else some now;
}

-- `strconv.ParseInt`, 0 where it fails; that of a number out of range, which no size is, is not told
-- from the rest.
abbrev pub int_or_zero : String → ℤ
unfolding atoi
int_or_zero s = elim (atoi (codes s)) [ none ↦ pos 0 | some n ↦ n ]

abbrev pub with_state : ℕ → String → Option ℤ → Job → World → World
unfolding update_job_state
with_state now status code j w = record {
  tables = update_job_state j.id status code now w.tables;
  notices = job_status j.id status ∷ w.notices;
}

abbrev pub plain_status : Job → Status
unfolding view
plain_status j = record { job = view j; log_bytes = j.log_bytes; refresh_error = "" }

unfoldable pub record_end : ℕ → String → Option ℤ → Job → World → Status × World
unfolding view update_job_state sync_command_run
record_end now status code j w = if str_eq status j.status then (plain_status j, w) else (
  plain_status (with_end now status code j),
  sync_command_run (now * 1000) (with_end now status code j) code (with_state now status code j w),
)

-- The exit code and the size of a report that `probe` reads.
unfoldable pub code_of : Report → Option ℤ
unfolding text_trim atoi
code_of r = if str_eq r.status "exited" then atoi (codes (text_trim r.code)) else none

unfoldable pub size_of : Report → ℤ
unfolding text_trim atoi
size_of r = int_or_zero (text_trim r.size)

abbrev pub sized : ℤ → Job → Job
sized size j = record j { log_bytes = size }

abbrev pub with_tables : JobTables → World → World
with_tables t w = record w { tables = t }

-- What `probe` does with a report.
unfoldable pub apply_report : ℕ → Job → Report → World → Status × World
unfolding code_of size_of record_end record_job_check update_run_job_bytes
apply_report now j r w = record_end now r.status (code_of r) (sized (size_of r) j) (
    with_tables
      (update_run_job_bytes j.id (size_of r) (record_job_check j.id (size_of r) now w.tables)) w)

-- What runs on the hosts: whether a connection comes about, and what a job's script prints, or an
-- error, each with its message.
pub record Hosts : Type 0 where
  pub connects : ℕ → Option String
  pub prints : Job → String ⊎ String

-- `probe`, on the connection to the job's host.
unfoldable pub probe : Hosts → ℕ → Job → World → (String ⊎ Status) × World
unfolding probe_report apply_report
probe hosts now j w = elim (hosts.prints j) [
  | inl error ↦ (inl error, w)
  | inr output ↦ elim (probe_report output) [
    | none ↦ (inl "no status", w)
    | some r ↦ let (status, next) = apply_report now j r w in (inr status, next)
  ]
]

-- `Refresh`, of which `activeHostClient` is the connection.
unfoldable pub refresh : Hosts → ℕ → Job → World → (String ⊎ Status) × World
unfolding snapshot probe
refresh hosts now j w =
    if not (is_running j.status)
    then (let (status, next) = snapshot (now * 1000) j w in (inr status, next))
    else elim (hosts.connects j.host_id) [
      | some error ↦ (inl error, w)
      | none ↦ probe hosts now j w
    ]

-- The status of a job that is shown after a probe of it.
abbrev pub shown : Job → String ⊎ Status → Status
unfolding stale_status
shown j (inl error) = stale_status j error
shown j (inr status) = status

-- The loop of `refreshHost` on a connection.
unfoldable pub probe_all : Hosts → ℕ → List Job → World → List Status × World
unfolding probe stale_status
probe_all hosts now [] w = ([], w)
probe_all hosts now (j ∷ js) w =
    let (result, next) = probe hosts now j w in
    let (rest, last) = probe_all hosts now js next in (shown j result ∷ rest, last)

-- `refreshHost`.
unfoldable pub refresh_host : Hosts → ℕ → ℕ → List Job → World → List Status × World
unfolding probe_all stale_status
refresh_host hosts now host js w = elim (hosts.connects host) [
  | some error ↦ (map (λ j. stale_status j error) js, w)
  | none ↦ probe_all hosts now js w
]
