-- ===== src/Jobs/Serial.antt =====
-- Jobs are serialized per core, end once, and free their core.
use rc_node.Base.Dict.{lookup-erase, lookup-insert, lookup}
use rc_node.Jobs.{
  started, new_job, running, finished, queued, Outcome, new_manager, Job, active_for, run_start,
  submit, JobManager, run_finish,
}
use rc_node.Jobs.Invariant.{Reach-IsSerial}
use rc_node.Base.{ℕ, String, ◌≡◌, true, false, none, some, arith, string_eq, nat_eq, ok}
use rc_node.Jobs.Steps.{Step, Reach, submitted, start, finish, here, next, is_live}

-- In every state that a new manager reaches, two jobs of one core that have not ended are the same
-- job.
pub one_live_job :
    (limit : ℕ) {m : JobManager} (id id' : String) (job job' : Job)
    → Reach (new_manager limit) m
    → lookup id m.objects ≡ some job
    → lookup id' m.objects ≡ some job'
    → is_live job.state ≡ true
    → is_live job'.state ≡ true
    → job.core_id ≡ job'.core_id
    → id ≡ id'
one_live_job limit id id' job job' r f f' live live' same =
    let h = Reach-IsSerial limit r in cc (h.serial id job f live, h.serial id' job' f' live')

run_start-ended :
    (id : String) (job ended : Job) (now : ℕ) (m : JobManager)
    → lookup id m.objects ≡ some ended
    → is_live ended.state ≡ false
    → lookup job.job_id m.objects ≡ some job
    → job.state ≡ queued
    → lookup id (run_start job now m).objects ≡ some ended
unfolding run_start
run_start-ended id job ended now m e dead found q =
    ground (arith, lookup-insert id job.job_id (started now job) m.objects)

run_finish-ended :
    (id : String) (job ended : Job) (outcome : Outcome) (timeout now : ℕ) (m : JobManager)
    → lookup id m.objects ≡ some ended
    → is_live ended.state ≡ false
    → lookup job.job_id m.objects ≡ some job
    → job.state ≡ running
    → lookup id (run_finish job outcome timeout now m).objects ≡ some ended
unfolding run_finish
run_finish-ended id job ended outcome timeout now m e dead found r =
    ground (arith, lookup-insert id job.job_id (finished outcome timeout now job) m.objects)

submit-objects :
    (id core_id action uuid : String) (now : ℕ) (job : Job) (m : JobManager)
    → lookup id m.objects ≡ some job
    → lookup uuid m.objects ≡ none
    → lookup id (submit core_id action uuid now m).1.objects ≡ some job
unfolding submit
submit-objects id core_id action uuid now job m e new =
    ground (arith, lookup-insert id uuid (new_job uuid core_id action now) m.objects)

Step-ended :
    {m n : JobManager} (id : String) (ended : Job)
    → Step m n
    → lookup id m.objects ≡ some ended
    → is_live ended.state ≡ false
    → lookup id n.objects ≡ some ended
Step-ended id ended (submitted core_id action uuid now new) e dead =
    submit-objects id core_id action uuid now ended _ e new
Step-ended id ended (start job now found q) e dead =
    run_start-ended id job ended now _ e dead found q
Step-ended id ended (finish job outcome timeout now found r) e dead =
    run_finish-ended id job ended outcome timeout now _ e dead found r

-- A job that has succeeded, failed or been cancelled stays exactly as it is, whatever steps follow.
pub ended_is_final :
    {m n : JobManager} (id : String) (ended : Job)
    → Reach m n
    → lookup id m.objects ≡ some ended
    → is_live ended.state ≡ false
    → lookup id n.objects ≡ some ended
ended_is_final id ended here e dead = e
ended_is_final id ended (next r step) e dead =
    Step-ended id ended step (ended_is_final id ended r e dead) dead

-- However the coroutine of a job ends, its `_run` leaves the job in an end state with the time of its
-- end, and its core takes the next submission of any action.
pub finish_frees_core :
    (job : Job) (outcome : Outcome) (timeout now now' : ℕ) (action uuid : String) (m : JobManager)
    → let m' = run_finish job outcome timeout now m in
      (lookup job.job_id m'.objects ≡ some (finished outcome timeout now job))
      × (is_live (finished outcome timeout now job).state ≡ false)
      × ((finished outcome timeout now job).finished_at ≡ some now)
      × (active_for job.core_id m' ≡ none)
      × ((submit job.core_id action uuid now' m').0 ≡ ok (new_job uuid job.core_id action now'))
unfolding run_finish active_for submit
finish_frees_core job outcome timeout now now' action uuid m = ground (
  arith,
  lookup-insert job.job_id job.job_id (finished outcome timeout now job) m.objects,
  lookup-erase job.core_id job.core_id m.active,
)
