-- ===== src/Jobs/Invariant.antt =====
-- The bookkeeping of active jobs is right in every reachable state.
use rc_node.Jobs.{
  enqueue, finished, started, new_job, queued, running, Outcome, run_start, submit, run_finish,
  JobManager, Job, new_manager,
}
use rc_node.Base.{
  ok, ℕ, String, ◌≡◌, inl, inr, true, Option, none, some, arith, Option-cases, string_eq, nat_eq,
}
use rc_node.Jobs.Steps.{Step, Reach, submitted, start, finish, here, next, is_live}
use rc_node.Base.Dict.{lookup-erase, lookup-insert, lookup}

abbrev pub BackedBy : String → Option Job → Type 0
BackedBy core_id none = ⊥
BackedBy core_id (some job) = (job.core_id ≡ core_id) × (is_live job.state ≡ true)

-- A job that has not ended is the active one of its core, and an active entry is such a job.
pub record IsSerial (m : JobManager) : Type 0 where
  pub own_id : (id : String) (job : Job) → lookup id m.objects ≡ some job → job.job_id ≡ id
  pub serial :
      (id : String) (job : Job)
      → lookup id m.objects ≡ some job
      → is_live job.state ≡ true
      → lookup job.core_id m.active ≡ some id
  pub backed :
      (core_id id : String)
      → lookup core_id m.active ≡ some id
      → BackedBy core_id (lookup id m.objects)

new_manager-IsSerial : (limit : ℕ) → IsSerial (new_manager limit)
unfolding new_manager
new_manager-IsSerial limit = record {
  own_id = λ id job e. cc;
  serial = λ id job e live. cc;
  backed = λ core_id id e. cc;
}

submit_new-IsSerial :
    (core_id action uuid : String) (now : ℕ) (m : JobManager)
    → IsSerial m
    → lookup uuid m.objects ≡ none
    → lookup core_id m.active ≡ none
    → IsSerial (submit core_id action uuid now m).1
unfolding submit
submit_new-IsSerial core_id action uuid now m h new idle =
    let job = new_job uuid core_id action now in
    record {
      own_id = λ id j e. ground (arith, lookup-insert id uuid job m.objects, h.own_id id j);
      serial = λ id j e live. ground (
        arith,
        lookup-insert id uuid job m.objects,
        lookup-insert j.core_id core_id uuid m.active,
        h.serial id j,
      );
      backed = λ c id e. ground (
        arith,
        lookup-insert id uuid job m.objects,
        lookup-insert c core_id uuid m.active,
        h.backed c id,
      );
    }

pub submit_idle :
    (core_id action uuid : String) (now : ℕ) (m : JobManager)
    → lookup core_id m.active ≡ none
    → submit core_id action uuid now m
      ≡ (ok (new_job uuid core_id action now), enqueue (new_job uuid core_id action now) m)
unfolding submit
submit_idle core_id action uuid now m idle = ground arith

pub submit_same :
    (core_id action uuid id : String) (now : ℕ) (m : JobManager)
    → lookup core_id m.active ≡ some id
    → (submit core_id action uuid now m).1 ≡ m
unfolding submit
submit_same core_id action uuid id now m busy = ground arith

submit-IsSerial :
    (core_id action uuid : String) (now : ℕ) (m : JobManager)
    → IsSerial m
    → lookup uuid m.objects ≡ none
    → IsSerial (submit core_id action uuid now m).1
submit-IsSerial core_id action uuid now m h new = elim (Option-cases (lookup core_id m.active)) [
  | inl idle ↦ submit_new-IsSerial core_id action uuid now m h new idle
  | inr (id, busy) ↦ rw (submit_same core_id action uuid id now m busy) h
]

run_start-IsSerial :
    (job : Job) (now : ℕ) (m : JobManager)
    → IsSerial m
    → lookup job.job_id m.objects ≡ some job
    → job.state ≡ queued
    → IsSerial (run_start job now m)
unfolding run_start
run_start-IsSerial job now m h found q =
    let job' = started now job in
    record {
      own_id = λ id j e. ground (arith, lookup-insert id job.job_id job' m.objects, h.own_id id j);
      serial = λ id j e live. ground (
        arith,
        lookup-insert id job.job_id job' m.objects,
        h.serial id j,
        h.serial job.job_id job found,
      );
      backed = λ c id e. ground (arith, lookup-insert id job.job_id job' m.objects, h.backed c id);
    }

run_finish-IsSerial :
    (job : Job) (outcome : Outcome) (timeout now : ℕ) (m : JobManager)
    → IsSerial m
    → lookup job.job_id m.objects ≡ some job
    → job.state ≡ running
    → IsSerial (run_finish job outcome timeout now m)
unfolding run_finish
run_finish-IsSerial job outcome timeout now m h found r =
    let job' = finished outcome timeout now job in
    record {
      own_id = λ id j e. ground (arith, lookup-insert id job.job_id job' m.objects, h.own_id id j);
      serial = λ id j e live. ground (
        arith,
        lookup-insert id job.job_id job' m.objects,
        lookup-erase j.core_id job.core_id m.active,
        h.serial id j,
        h.serial job.job_id job found,
      );
      backed = λ c id e. ground (
        arith,
        lookup-insert id job.job_id job' m.objects,
        lookup-erase c job.core_id m.active,
        h.backed c id,
      );
    }

Step-IsSerial : {m n : JobManager} → Step m n → IsSerial m → IsSerial n
Step-IsSerial (submitted core_id action uuid now new) h =
    submit-IsSerial core_id action uuid now _ h new
Step-IsSerial (start job now found q) h = run_start-IsSerial job now _ h found q
Step-IsSerial (finish job outcome timeout now found r) h =
    run_finish-IsSerial job outcome timeout now _ h found r

pub Reach-IsSerial : (limit : ℕ) {m : JobManager} → Reach (new_manager limit) m → IsSerial m
Reach-IsSerial limit here = new_manager-IsSerial limit
Reach-IsSerial limit (next r step) = Step-IsSerial step (Reach-IsSerial limit r)
