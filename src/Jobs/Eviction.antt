-- ===== src/Jobs/Eviction.antt =====
-- The history can drop a job that has not ended.
use rc_node.Base.Nodup.{contains-append, NoDup}
use rc_node.Base.Dict.{has_key, lookup-insert, lookup}
use rc_node.Jobs.History.{enqueue-IsHistory, IsHistory}
use rc_node.Base.{
  length-append, key_error, ℕ, ◌-◌, String, ◌≡◌, true, none, some, List, [], ◌∷◌, ◌++◌, arith,
  string_eq, nat_eq, length, drop, All, err,
}
use rc_node.Jobs.Invariant.{submit_idle}
use rc_node.Jobs.{Job, enqueue, new_job, get, active_for, submit, JobManager}

still_active :
    (core_id id : String) (job : Job) (m : JobManager)
    → lookup core_id m.active ≡ some id
    → lookup job.core_id m.active ≡ none
    → lookup core_id (enqueue job m).active ≡ some id
unfolding enqueue
still_active core_id id job m busy idle =
    ground (arith, lookup-insert core_id job.core_id job.job_id m.active)

lost_job :
    (core_id id : String) (m : JobManager)
    → lookup core_id m.active ≡ some id
    → get id m ≡ none
    → (active_for core_id m ≡ none)
      × ((action' uuid' : String) (now' : ℕ)
          → submit core_id action' uuid' now' m ≡ (err key_error, m))
unfolding active_for submit
lost_job core_id id m busy gone = (ground arith, λ action' uuid' now'. ground arith)

-- Submitting at a full history drops its oldest id.
oldest_dropped :
    (job : Job) (id : String) (rest : List String) (m : JobManager)
    → IsHistory m
    → m.order ≡ id ∷ rest
    → length m.order ≡ m.history_limit
    → lookup job.job_id m.objects ≡ none
    → get id (enqueue job m) ≡ none
unfolding get enqueue
oldest_dropped job id rest m h oldest full new =
    let n : length (m.order ++ job.job_id ∷ []) - m.history_limit ≡ 1 =
      omega (arith, length-append {0} m.order (job.job_id ∷ [])) in
    let same = (enqueue-IsHistory job m h new).listed in
    let u : NoDup (id ∷ rest) = rw oldest at h.nodup in
    let k : All (λ i. has_key i m.objects ≡ true) (id ∷ rest) = rw oldest at h.known in
    let order' : drop (length (m.order ++ job.job_id ∷ []) - m.history_limit)
          (m.order ++ job.job_id ∷ [])
        ≡ rest ++ job.job_id ∷ [] =
      rw n (rw oldest) in
    ground (arith, contains-append rest (job.job_id ∷ []) id)

-- In a manager whose history is full and whose oldest job is the active one of its core, a
-- submission for any other, idle core drops that job from the history while it runs on: `active_for`
-- its core finds nothing, and every submission for it, of the same action or another, raises a
-- KeyError.
pub evicted_active_job :
    (core_id other action uuid id : String) (rest : List String) (now : ℕ) (m : JobManager)
    → IsHistory m
    → m.order ≡ id ∷ rest
    → length m.order ≡ m.history_limit
    → lookup core_id m.active ≡ some id
    → lookup other m.active ≡ none
    → lookup uuid m.objects ≡ none
    → let m' = (submit other action uuid now m).1 in
      (active_for core_id m' ≡ none)
      × ((action' uuid' : String) (now' : ℕ)
          → submit core_id action' uuid' now' m' ≡ (err key_error, m'))
evicted_active_job core_id other action uuid id rest now m h oldest full busy idle new =
    let job = new_job uuid other action now in
    rw (submit_idle other action uuid now m idle) (
      lost_job core_id id (enqueue job m) (still_active core_id id job m busy idle)
        (oldest_dropped job id rest m h oldest full new))
