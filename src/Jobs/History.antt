-- ===== src/Jobs/History.antt =====
-- Histories of the operations of internal/jobs/manager.go and internal/jobs/maintenance.go.
use one_ssh.Base.{
  ℕ, ◌*◌, ◌-◌, String, Bool, not, ◌&&◌, List, [], ◌∷◌, Option, none, ◌==◌, keep, length,
}
use one_ssh.Store.Jobs.{Job, expire_unchecked_jobs, prune_finished_jobs}
use one_ssh.Jobs.{World, Hosts, job_status, sync_command_run, with_tables, refresh}
use one_ssh.Jobs.Refreshing.{Turn, refresh_all}
use one_ssh.Jobs.Killing.{Script, kill}
use one_ssh.Jobs.Maintenance.{
  Visit, no_turn, hung, answered, probe_host, probe_running, announce, expire, running_jobs,
  maintain, unconfirmed_lost_after,
}
use one_ssh.Jobs.Finality.{Later, sync_command_run-Later}
use one_ssh.Jobs.Finality.Operations.{
  Later-refl, Later-trans, if-Later, refresh-Later, refresh_host-Later, refresh_all-Later,
  kill-Later,
}

-- A call, with what the hosts and the clock give it.
pub data Call : Type 0 where
  refreshing : Hosts → ℕ → Job → Call
  refreshing_all : Hosts → ℕ → List (ℕ × Turn) → List Job → Call
  killing : Option String → Script → ℕ → String → Job → Call
  maintaining : Hosts → (ℕ → Bool) → Bool → ℕ → List (ℕ × Visit) → Call

unfoldable pub call : Call → World → World
unfolding refresh refresh_all kill maintain
call (refreshing hosts now j) w = (refresh hosts now j w).1
call (refreshing_all hosts now turns list) w = (refresh_all hosts now turns list w).1
call (killing reach script now signal j) w = (kill reach script now signal j w).1
call (maintaining hosts active cancelled now visits) w =
    (maintain hosts active cancelled now visits w).1

unfoldable pub calls : List Call → World → World
unfolding call
calls [] w = w
calls (c ∷ cs) w = calls cs (call c w)

announce-Later : (now_ms : ℕ) (js : List Job) (w : World) → Later w (announce now_ms js w)
unfolding announce
announce-Later now_ms [] w = Later-refl w
announce-Later now_ms (j ∷ js) w =
    let noted = record w { notices = job_status j.id j.status ∷ w.notices } in
    let next = sync_command_run now_ms j none noted in
    Later-trans w next (announce now_ms js next) (sync_command_run-Later now_ms j none noted)
      (announce-Later now_ms js next)

expire-Later : (now : ℕ) (failed : List String) (w : World) → Later w (expire now failed w).1
unfolding expire expire_unchecked_jobs
expire-Later now failed w =
    let (expired, tables) =
      expire_unchecked_jobs failed (now - unconfirmed_lost_after) now w.tables in
    announce-Later (now * 1000) expired (with_tables tables w)

probe_host-Later :
    (hosts : Hosts) (now host : ℕ) (visit : Visit) (js : List Job) (w : World)
    → Later w (probe_host hosts now host visit js w).1
unfolding probe_host
probe_host-Later hosts now host no_turn js w = Later-refl w
probe_host-Later hosts now host hung js w = Later-refl w
probe_host-Later hosts now host answered js w = refresh_host-Later hosts now host js w

probe_running-Later :
    (hosts : Hosts) (now : ℕ) (visits : List (ℕ × Visit)) (running : List Job) (w : World)
    → Later w (probe_running hosts now visits running w).1
unfolding probe_running
probe_running-Later hosts now [] running w = Later-refl w
probe_running-Later hosts now ((host, visit) ∷ visits) running w =
    let here = keep (λ j. j.host_id == host) running in
    let next = (probe_host hosts now host visit here w).1 in
    Later-trans w next (probe_running hosts now visits running next).1
      (probe_host-Later hosts now host visit here w)
      (probe_running-Later hosts now visits running next)

maintain-Later :
    (hosts : Hosts) (active : ℕ → Bool) (cancelled : Bool) (now : ℕ) (visits : List (ℕ × Visit))
    (w : World)
    → Later w (maintain hosts active cancelled now visits w).1
unfolding maintain prune_finished_jobs
maintain-Later hosts active cancelled now visits w =
    let probed = probe_running hosts now visits (running_jobs active w.tables.jobs) w in
    Later-trans w probed.1 (maintain hosts active cancelled now visits w).1
      (probe_running-Later hosts now visits (running_jobs active w.tables.jobs) w)
      (if-Later probed.1 (not (length probed.0 == 0) && not cancelled) _ _
        (expire-Later now probed.0 probed.1) (Later-refl probed.1))

call-Later : (c : Call) (w : World) → Later w (call c w)
unfolding call
call-Later (refreshing hosts now j) w = refresh-Later hosts now j w
call-Later (refreshing_all hosts now turns list) w = refresh_all-Later hosts now turns list w
call-Later (killing reach script now signal j) w = kill-Later reach script now signal j w
call-Later (maintaining hosts active cancelled now visits) w =
    maintain-Later hosts active cancelled now visits w

-- Whatever refreshes, kills and rounds of maintenance follow, whatever the hosts print: the table
-- keeps its command runs, and a run that has ended keeps the status, the exit code and the time with
-- which it ended.
pub calls-Later : (cs : List Call) (w : World) → Later w (calls cs w)
unfolding calls
calls-Later [] w = Later-refl w
calls-Later (c ∷ cs) w =
    Later-trans w (call c w) (calls cs (call c w)) (call-Later c w) (calls-Later cs (call c w))
