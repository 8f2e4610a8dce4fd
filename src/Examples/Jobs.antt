-- ===== src/Examples/Jobs.antt =====
-- internal/jobs/manager.go and internal/jobs/maintenance.go at concrete inputs.
use one_ssh.Base.{
  String, List, Option, true, false, ◌≡◌, refl, [], ◌∷◌, none, some, pos, inl, inr, str_eq,
  if◌then◌else◌, map, ℤ,
}
use one_ssh.Store.Jobs.{Job, CommandRun}
use one_ssh.Jobs.{World, Hosts}
use one_ssh.Jobs.Refreshing.{stuck, delivered, refresh_all}
use one_ssh.Jobs.Refreshing.Order.{shown_ids, job_ids, refresh_all-ids}
use one_ssh.Jobs.Killing.{kill}
use one_ssh.Jobs.Maintenance.{hung, answered, maintain}
use one_ssh.Jobs.Finality.{Later}
use one_ssh.Jobs.History.{refreshing, killing, maintaining, calls, calls-Later}

abbrev job : Job
job = record {
  id = "a";
  host_id = 1;
  token_id = none;
  command = "make";
  cwd = "~";
  pid = some (pos 99);
  used_setsid = true;
  status = "running";
  exit_code = none;
  log_bytes = pos 0;
  started_at = 10;
  finished_at = none;
  last_checked_at = some 10;
}

abbrev far_job : Job
far_job = record job { id = "b"; host_id = 2 }

abbrev old_job : Job
old_job = record job {
  id = "c";
  status = "exited";
  exit_code = some (pos 1);
  finished_at = some 20;
}

abbrev run : CommandRun
run = record {
  id = "r";
  tool = "job_start";
  host = "front";
  job_id = some "a";
  status = "running";
  exit_code = none;
  stdout_bytes = pos 0;
  output_available = true;
  finished_at = none;
}

abbrev world : World
world = record {
  tables = record { jobs = job ∷ far_job ∷ old_job ∷ []; runs = run ∷ [] };
  notices = [];
}

-- The job `a` has exited; the host 2 cannot be reached.
abbrev hosts : Hosts
hosts = record {
  connects = λ host. none;
  prints = λ j. if str_eq j.id "a" then inr "exited:0:120\n" else inl "unreachable";
}

abbrev list : List Job
list = far_job ∷ old_job ∷ job ∷ []

refresh_all_try :
    map {B = String × String}
      (λ s. (s.job.status, s.refresh_error))
      (refresh_all hosts 100 ((1, delivered) ∷ (2, stuck) ∷ []) list world).0
    ≡ ("running", "stuck") ∷ ("exited", "") ∷ ("exited", "") ∷ []
unfolding refresh_all
refresh_all_try = refl

refresh_all-ids_example :
    shown_ids (refresh_all hosts 100 ((1, delivered) ∷ (2, stuck) ∷ []) list world).0 ≡ job_ids list
refresh_all-ids_example = refresh_all-ids hosts 100 ((1, delivered) ∷ (2, stuck) ∷ []) list world

run_ends :
    map {B = String × Option ℤ}
      (λ r. (r.status, r.exit_code))
      (refresh_all hosts 100 ((1, delivered) ∷ []) list world).1.tables.runs
    ≡ ("succeeded", some (pos 0)) ∷ []
unfolding refresh_all
run_ends = refl

kill_unconfirmed : (kill none (λ s. inr (pos 46, "running::120")) 100 "TERM" job world).1 ≡ world
unfolding kill
kill_unconfirmed = refl

-- After eight days the job `b`, whose host does not answer, is lost, and the job `a` is not: it was
-- seen to exit.
maintain_try :
    map {B = String × String}
      (λ j. (j.id, j.status))
      (maintain hosts (λ h. true) false 691300 ((1, answered) ∷ (2, hung) ∷ []) world).1.tables.jobs
    ≡ ("a", "exited") ∷ ("b", "lost") ∷ ("c", "exited") ∷ []
unfolding maintain
maintain_try = refl

calls-Later_example : Later world (
    calls
      (refreshing hosts 100 job
        ∷ killing none (λ s. inr (pos 0, "killed::7")) 101 "KILL" job
        ∷ maintaining hosts (λ h. true) false 691300 ((1, answered) ∷ (2, hung) ∷ [])
        ∷ [])
      world)
calls-Later_example =
    calls-Later
      (refreshing hosts 100 job
        ∷ killing none (λ s. inr (pos 0, "killed::7")) 101 "KILL" job
        ∷ maintaining hosts (λ h. true) false 691300 ((1, answered) ∷ (2, hung) ∷ [])
        ∷ [])
      world
