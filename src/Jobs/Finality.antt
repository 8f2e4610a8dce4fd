-- ===== src/Jobs/Finality.antt =====
-- Runs of commands that have ended, in the histories of internal/jobs/manager.go and
-- internal/jobs/maintenance.go.
pub mod Operations
use one_ssh.Base.{
  ℕ, String, Bool, true, false, ◌&&◌, List, [], ◌∷◌, Option, some, if◌then◌else◌, ℤ, ◌≡◌, refl, ◌∙◌,
  subst, arith, Bool-cases, Option-cases, ◌⊎◌, inl, inr,
}
use one_ssh.Store.{update_where}
use one_ssh.Store.Jobs.{
  Job, CommandRun, JobTables, is_running, has_job, get_run_by_job, update_run_job_bytes,
  finish_run_by_job,
}
use one_ssh.Jobs.{World, end_ms, finish_run, sync_command_run, run_end}

-- How a run is shown that has ended: its status, its exit code and its time.
pub record SameEnd (r s : CommandRun) : Type 0 where
  pub status : s.status ≡ r.status
  pub exit_code : s.exit_code ≡ r.exit_code
  pub finished_at : s.finished_at ≡ r.finished_at

-- A row and what has become of it: the same run, which ended the same way if it had ended.
pub record Follows (r s : CommandRun) : Type 0 where
  pub same_id : s.id ≡ r.id
  pub same_end : (is_running r.status ≡ true) ⊎ SameEnd r s

pub data LaterRuns : List CommandRun → List CommandRun → Type 0 where
  no_runs : LaterRuns [] []
  run_and :
      (r s : CommandRun) (rs ss : List CommandRun)
      → Follows r s
      → LaterRuns rs ss
      → LaterRuns (r ∷ rs) (s ∷ ss)

-- Every run that had ended before ended the same way after.
abbrev pub Later : World → World → Type 0
Later v w = LaterRuns v.tables.runs w.tables.runs

Follows-refl : (r : CommandRun) → Follows r r
Follows-refl r = record {
  same_id = refl;
  same_end = inr (record { status = refl; exit_code = refl; finished_at = refl });
}

SameEnd-trans :
    (r s t : CommandRun)
    → (is_running r.status ≡ true) ⊎ SameEnd r s
    → (is_running s.status ≡ true) ⊎ SameEnd s t
    → (is_running r.status ≡ true) ⊎ SameEnd r t
SameEnd-trans r s t (inl a) b = inl a
SameEnd-trans r s t (inr a) (inl b) = inl (subst (λ x. is_running x ≡ true) a.status b)
SameEnd-trans r s t (inr a) (inr b) = inr (record {
  status = b.status ∙ a.status;
  exit_code = b.exit_code ∙ a.exit_code;
  finished_at = b.finished_at ∙ a.finished_at;
})

pub LaterRuns-refl : (rs : List CommandRun) → LaterRuns rs rs
LaterRuns-refl [] = no_runs
LaterRuns-refl (r ∷ rs) = run_and r r rs rs (Follows-refl r) (LaterRuns-refl rs)

pub LaterRuns-trans :
    (rs ss ts : List CommandRun) → LaterRuns rs ss → LaterRuns ss ts → LaterRuns rs ts
LaterRuns-trans _ _ _ no_runs no_runs = no_runs
LaterRuns-trans _ _ _ (run_and r s rs ss f a) (run_and _ t _ ts g b) =
    run_and r t rs ts
      (record {
        same_id = g.same_id ∙ f.same_id;
        same_end = SameEnd-trans r s t f.same_end g.same_end;
      })
      (LaterRuns-trans rs ss ts a b)

if-Follows :
    (b : Bool) (r s : CommandRun) → (b ≡ true → Follows r s) → Follows r (if b then s else r)
if-Follows true r s f = f refl
if-Follows false r s f = Follows-refl r

update_where-LaterRuns :
    (p : CommandRun → Bool) (f : CommandRun → CommandRun) (rs : List CommandRun)
    → ((r : CommandRun) → p r ≡ true → Follows r (f r))
    → LaterRuns rs (update_where p f rs)
unfolding update_where
update_where-LaterRuns p f [] h = no_runs
update_where-LaterRuns p f (r ∷ rs) h =
    run_and r (if p r then f r else r) rs (update_where p f rs) (if-Follows (p r) r (f r) (h r))
      (update_where-LaterRuns p f rs h)

pub update_run_job_bytes-LaterRuns :
    (id : String) (bytes : ℤ) (t : JobTables)
    → LaterRuns t.runs (update_run_job_bytes id bytes t).runs
unfolding update_run_job_bytes
update_run_job_bytes-LaterRuns id bytes t =
    update_where-LaterRuns (has_job id) (λ r. record r { stdout_bytes = bytes }) t.runs
      (λ r p. record {
        same_id = refl;
        same_end = inr (record { status = refl; exit_code = refl; finished_at = refl });
      })

finish_run-Later :
    (now_ms : ℕ) (j : Job) (run : CommandRun) (e : String × Option ℤ) (w : World)
    → Later w (finish_run now_ms j run e w)
unfolding finish_run finish_run_by_job
finish_run-Later now_ms j run (status, code) w =
    update_where-LaterRuns (λ r. has_job j.id r && is_running r.status)
      (λ r. record r { status = status; exit_code = code; finished_at = some (end_ms now_ms j) })
      w.tables.runs (λ r p. record { same_id = refl; same_end = inl (ground arith) })

pub sync_command_run-Later :
    (now_ms : ℕ) (j : Job) (code : Option ℤ) (w : World)
    → Later w (sync_command_run now_ms j code w)
unfolding sync_command_run
sync_command_run-Later now_ms j code w = elim (Option-cases (get_run_by_job j.id w.tables)) [
  | inl e ↦ rw (sync_command_run, e) (LaterRuns-refl w.tables.runs)
  | inr (run, e) ↦ elim (Bool-cases (is_running run.status)) [
    | inr k ↦ rw (sync_command_run, e, k) (LaterRuns-refl w.tables.runs)
    | inl k ↦ elim (Option-cases (run_end j code)) [
      | inl l ↦ rw (sync_command_run, e, k, l) (LaterRuns-refl w.tables.runs)
      | inr (end, l) ↦ rw (sync_command_run, e, k, l) (finish_run-Later now_ms j run end w)
    ]
  ]
]
