-- ===== src/Jobs/Steps.antt =====
-- The steps of a job manager, in any order that the event loop may take.
use rc_node.Jobs.{
  cancelled, failed, succeeded, run_finish, running, Outcome, run_start, queued, Job, submit,
  JobManager, JobState,
}
use rc_node.Base.Dict.{lookup}
use rc_node.Base.{ℕ, String, ◌≡◌, Bool, true, false, none, some, string_eq, nat_eq}

pub data Step (m : JobManager) : JobManager → Type 0 where
  submitted :
      (core_id action uuid : String) (now : ℕ)
      → lookup uuid m.objects ≡ none
      → Step m (submit core_id action uuid now m).1
  start :
      (job : Job) (now : ℕ)
      → lookup job.job_id m.objects ≡ some job
      → job.state ≡ queued
      → Step m (run_start job now m)
  finish :
      (job : Job) (outcome : Outcome) (timeout now : ℕ)
      → lookup job.job_id m.objects ≡ some job
      → job.state ≡ running
      → Step m (run_finish job outcome timeout now m)

pub data Reach (m : JobManager) : JobManager → Type 0 where
  here : Reach m m
  next : {n k : JobManager} → Reach m n → Step n k → Reach m k

-- A job that has not ended.
abbrev pub is_live : JobState → Bool
is_live queued = true
is_live running = true
is_live succeeded = false
is_live failed = false
is_live cancelled = false
