-- ===== src/Store/Jobs.antt =====
-- internal/store/jobs.go and the statements of internal/store/command_runs.go that follow a job:
-- the tables of background jobs and of command runs. A status is the text that is stored.
use one_ssh.Base.{
  ℕ, String, Bool, true, false, not, ◌&&◌, ◌||◌, List, [], ◌∷◌, Option, none, some, if◌then◌else◌,
  str_eq, any, keep, ltb, ◌==◌, find_first, ℤ, pos,
}
use one_ssh.Store.{update_where, count_where}

-- A row of `jobs`: `Job`, with the column of the last check.
pub record Job : Type 0 where
  pub id : String
  pub host_id : ℕ
  pub token_id : Option ℕ
  pub command : String
  pub cwd : String
  pub pid : Option ℤ
  pub used_setsid : Bool
  pub status : String
  pub exit_code : Option ℤ
  pub log_bytes : ℤ
  pub started_at : ℕ
  pub finished_at : Option ℕ
  pub last_checked_at : Option ℕ

-- The columns of `command_runs` that a job's end or its log changes, and what an event shows.
pub record CommandRun : Type 0 where
  pub id : String
  pub tool : String
  pub host : String
  pub job_id : Option String
  pub status : String
  pub exit_code : Option ℤ
  pub stdout_bytes : ℤ
  pub output_available : Bool
  pub finished_at : Option ℕ

pub record JobTables : Type 0 where
  pub jobs : List Job
  pub runs : List CommandRun

abbrev pub is_running : String → Bool
is_running status = str_eq status "running"

abbrev pub has_job : String → CommandRun → Bool
has_job id r = elim r.job_id [ none ↦ false | some j ↦ str_eq j id ]

-- `CreateJob`; `id` is the primary key. `none` is an error, and nothing is inserted.
unfoldable pub create_job : Job → JobTables → Option JobTables
create_job j t =
    if any (λ k. str_eq k.id j.id) t.jobs
    then none
    else some (record t {
      jobs =
          record j {
            exit_code = none;
            log_bytes = pos 0;
            finished_at = none;
            last_checked_at = some j.started_at;
          }
          ∷ t.jobs;
    })

-- The update of `CreateJobForCommandRun`: of the one row with the run's id, if it is running.
abbrev pub link_run : String → String → List CommandRun → List CommandRun
link_run job_id run_id runs =
    update_where (λ r. str_eq r.id run_id && is_running r.status)
      (λ r. record r { job_id = some job_id; output_available = true }) runs

abbrev linked : String → String → Option JobTables → Option JobTables
linked job_id run_id none = none
linked job_id run_id (some t) =
    if count_where (λ r. str_eq r.id run_id && is_running r.status) t.runs == 1
    then some (record t { runs = link_run job_id run_id t.runs })
    else none

-- `CreateJobForCommandRun`.
unfoldable pub create_job_for_run : Job → String → JobTables → Option JobTables
unfolding create_job update_where count_where
create_job_for_run j run_id t = linked j.id run_id (create_job j t)

-- `GetJob`.
unfoldable pub get_job : String → JobTables → Option Job
get_job id t = find_first (λ j. str_eq j.id id) t.jobs

-- The CHECK on the column `status` of jobs.
unfoldable pub is_job_status : String → Bool
is_job_status status =
    is_running status || str_eq status "exited" || str_eq status "lost" || str_eq status "killed"

-- `UpdateJobState`, at the time `now`; the CHECK refuses other statuses, and nothing is written.
unfoldable pub update_job_state : String → String → Option ℤ → ℕ → JobTables → JobTables
unfolding update_where is_job_status
update_job_state id status code now t = record t {
  jobs =
      update_where (λ j. str_eq j.id id && is_job_status status)
        (λ j. record j {
          status = status;
          exit_code = code;
          finished_at = if is_running status then none else some now;
        })
        t.jobs;
}

-- `UpdateJobLogBytes`.
unfoldable pub update_job_log_bytes : String → ℤ → JobTables → JobTables
unfolding update_where
update_job_log_bytes id bytes t = record t {
  jobs = update_where (λ j. str_eq j.id id) (λ j. record j { log_bytes = bytes }) t.jobs;
}

-- `RecordJobCheck`.
unfoldable pub record_job_check : String → ℤ → ℕ → JobTables → JobTables
unfolding update_where
record_job_check id bytes checked_at t = record t {
  jobs =
      update_where (λ j. str_eq j.id id)
        (λ j. record j { log_bytes = bytes; last_checked_at = some checked_at }) t.jobs;
}

-- `COALESCE(last_checked_at,started_at)` and `COALESCE(finished_at,started_at)`.
abbrev pub last_seen : Job → ℕ
last_seen j = elim j.last_checked_at [ none ↦ j.started_at | some t ↦ t ]

abbrev pub ended_at : Job → ℕ
ended_at j = elim j.finished_at [ none ↦ j.started_at | some t ↦ t ]

-- The rows that `ExpireUncheckedJobs` selects.
unfoldable pub is_overdue : List String → ℕ → Job → Bool
is_overdue ids cutoff j =
    is_running j.status && ltb (last_seen j) cutoff && any (λ id. str_eq id j.id) ids

abbrev pub as_lost : ℕ → Job → Job
as_lost now j = record j { status = "lost"; finished_at = some now }

-- The rows that the statement returns, as they are after it.
unfoldable pub overdue : (Job → Bool) → (Job → Job) → List Job → List Job
overdue p f [] = []
overdue p f (j ∷ js) = let rest = overdue p f js in if p j then f j ∷ rest else rest

-- `ExpireUncheckedJobs`.
unfoldable pub expire_unchecked_jobs : List String → ℕ → ℕ → JobTables → List Job × JobTables
unfolding is_overdue overdue update_where
expire_unchecked_jobs ids cutoff now t = (
  overdue (is_overdue ids cutoff) (as_lost now) t.jobs,
  record t { jobs = update_where (is_overdue ids cutoff) (as_lost now) t.jobs },
)

abbrev pub is_stale : ℕ → Job → Bool
is_stale cutoff j = not (is_running j.status) && ltb (ended_at j) cutoff

-- `PruneFinishedJobs`, with the number of deleted rows.
unfoldable pub prune_finished_jobs : ℕ → JobTables → ℕ × JobTables
unfolding count_where
prune_finished_jobs cutoff t = (
  count_where (is_stale cutoff) t.jobs,
  record t { jobs = keep (λ j. not (is_stale cutoff j)) t.jobs },
)

-- `GetCommandRunByJob`.
unfoldable pub get_run_by_job : String → JobTables → Option CommandRun
get_run_by_job id t = find_first (has_job id) t.runs

-- `UpdateCommandRunJobBytes`.
unfoldable pub update_run_job_bytes : String → ℤ → JobTables → JobTables
unfolding update_where
update_run_job_bytes id bytes t = record t {
  runs = update_where (has_job id) (λ r. record r { stdout_bytes = bytes }) t.runs;
}

-- `FinishCommandRunByJob`: only rows that are running change.
unfoldable pub finish_run_by_job : String → String → Option ℤ → ℕ → JobTables → Bool × JobTables
unfolding update_where count_where
finish_run_by_job id status code finished_at t = (
  ltb 0 (count_where (λ r. has_job id r && is_running r.status) t.runs),
  record t {
    runs =
        update_where (λ r. has_job id r && is_running r.status)
          (λ r. record r { status = status; exit_code = code; finished_at = some finished_at })
          t.runs;
  },
)
