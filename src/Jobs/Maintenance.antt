-- ===== src/Jobs/Maintenance.antt =====
-- internal/jobs/maintenance.go: one round of maintenance.
use one_ssh.Base.{
  ℕ, ◌*◌, ◌-◌, String, Bool, not, ◌&&◌, List, [], ◌∷◌, ◌++◌, none, if◌then◌else◌, str_eq, keep, map,
  length, ◌==◌,
}
use one_ssh.Store.Jobs.{Job, is_running, expire_unchecked_jobs, prune_finished_jobs}
use one_ssh.Jobs.{World, Status, Hosts, job_status, refresh_host, sync_command_run}

-- How it went with a host: it was not its turn before the round was stopped, its worker hangs or did
-- not end in its time, or it answered.
pub data Visit : Type 0 where
  no_turn hung answered : Visit

-- `UnconfirmedLostAfter` and `FinishedRetention`, in seconds.
abbrev pub unconfirmed_lost_after : ℕ
unconfirmed_lost_after = 604800

abbrev pub finished_retention : ℕ
finished_retention = 2592000

-- The jobs whose status shows an error.
unfoldable pub failed_ids : List Job → List Status → List String
failed_ids [] statuses = []
failed_ids (j ∷ js) [] = []
failed_ids (j ∷ js) (s ∷ statuses) =
    let rest = failed_ids js statuses in if str_eq s.refresh_error "" then rest else j.id ∷ rest

-- `probeHost`.
unfoldable pub probe_host : Hosts → ℕ → ℕ → Visit → List Job → World → List String × World
unfolding refresh_host failed_ids
probe_host hosts now host no_turn js w = ([], w)
probe_host hosts now host hung js w = (map (λ j. j.id) js, w)
probe_host hosts now host answered js w =
    let (statuses, next) = refresh_host hosts now host js w in (failed_ids js statuses, next)

-- `probeRunning`, the hosts in the order in which they deliver.
unfoldable pub probe_running : Hosts → ℕ → List (ℕ × Visit) → List Job → World → List String × World
unfolding probe_host
probe_running hosts now [] running w = ([], w)
probe_running hosts now ((host, visit) ∷ visits) running w =
    let (failed, next) =
      probe_host hosts now host visit (keep (λ j. j.host_id == host) running) w in
    let (more, last) = probe_running hosts now visits running next in (failed ++ more, last)

-- The loop over the jobs that are marked as lost.
unfoldable pub announce : ℕ → List Job → World → World
unfolding sync_command_run
announce now_ms [] w = w
announce now_ms (j ∷ js) w =
    announce now_ms js
      (sync_command_run now_ms j none (record w { notices = job_status j.id j.status ∷ w.notices }))

unfoldable pub expire : ℕ → List String → World → ℕ × World
unfolding expire_unchecked_jobs announce
expire now failed w =
    let (expired, tables) =
      expire_unchecked_jobs failed (now - unconfirmed_lost_after) now w.tables in
    (length expired, announce (now * 1000) expired (record w { tables = tables }))

-- `ListRunningJobsOnActiveHosts`; `active` says which hosts are not archived.
abbrev pub running_jobs : (ℕ → Bool) → List Job → List Job
running_jobs active jobs = keep (λ j. is_running j.status && active j.host_id) jobs

-- `Maintain`, with the numbers of its report; `cancelled` is the context's end.
unfoldable pub maintain : Hosts → (ℕ → Bool) → Bool → ℕ → List (ℕ × Visit) → World → (ℕ × ℕ) × World
unfolding probe_running expire prune_finished_jobs
maintain hosts active cancelled now visits w =
    let (failed, probed) = probe_running hosts now visits (running_jobs active w.tables.jobs) w in
    let (expired, left) =
      if not (length failed == 0) && not cancelled then expire now failed probed else (0, probed) in
    let (pruned, tables) = prune_finished_jobs (now - finished_retention) left.tables in
    ((expired, pruned), record left { tables = tables })
