-- ===== src/Jobs/Submit.antt =====
-- What a submission does, on each of its branches.
use rc_node.Base.{
  Option-cases, ℕ, ◌<◌, ok, err, ◌⊎◌, string_eq, ◌≡◌, key_error, ◌==◌, arith, if◌then◌else◌, inl,
  nat_eq, none, String, inr, some, refl,
}
use rc_node.Base.Dict.{lookup-insert, lookup}
use rc_node.Jobs.History.{get-enqueue, IsHistory}
use rc_node.Jobs.{get, enqueue, new_job, conflict, submit, active_for, Job, JobManager}
use rc_node.Jobs.Invariant.{submit_idle}

submit_busy :
    (core_id action uuid : String) (now : ℕ) (job : Job) (m : JobManager)
    → active_for core_id m ≡ some job
    → submit core_id action uuid now m
      ≡ (if job.action == action then ok job else err (conflict core_id job), m)
unfolding submit active_for
submit_busy core_id action uuid now job m e = ground arith

submit_lost :
    (core_id action uuid id : String) (now : ℕ) (m : JobManager)
    → lookup core_id m.active ≡ some id
    → get id m ≡ none
    → submit core_id action uuid now m ≡ (err key_error, m)
unfolding submit
submit_lost core_id action uuid id now m busy gone = ground arith

active_for-enqueue :
    (job : Job) (m : JobManager)
    → get job.job_id (enqueue job m) ≡ some job
    → active_for job.core_id (enqueue job m) ≡ some job
unfolding active_for enqueue
active_for-enqueue job m e =
    ground (arith, lookup-insert job.core_id job.core_id job.job_id m.active)

-- What a submission does, where the history is right and holds at least one job: a core with an
-- active job gives that job if the action is the same and a conflict if it is another, and changes
-- nothing; an idle core gets a new queued job, which is then its active one; and a core whose active
-- job the history has dropped raises a KeyError and changes nothing.
pub submit-outcome :
    (core_id action uuid : String) (now : ℕ) (m : JobManager)
    → IsHistory m
    → lookup uuid m.objects ≡ none
    → 0 < m.history_limit
    → ((job : Job) × (active_for core_id m ≡ some job)
        × (submit core_id action uuid now m
            ≡ (if job.action == action then ok job else err (conflict core_id job), m)))
      ⊎ ((lookup core_id m.active ≡ none)
          × ((submit core_id action uuid now m).0 ≡ ok (new_job uuid core_id action now))
          × (active_for core_id (submit core_id action uuid now m).1
              ≡ some (new_job uuid core_id action now)))
      ⊎ ((id : String) × (lookup core_id m.active ≡ some id)
          × (get id m ≡ none)
          × (submit core_id action uuid now m ≡ (err key_error, m)))
unfolding active_for
submit-outcome core_id action uuid now m h new room =
    elim (Option-cases (lookup core_id m.active)) [
      | inl idle ↦
          let job = new_job uuid core_id action now in
          let made = submit_idle core_id action uuid now m idle in
          inr (
            inl (
              idle,
              rw made refl,
              rw made (active_for-enqueue job m (get-enqueue job m h new room)),
            ))
      | inr (id, busy) ↦ elim (Option-cases (get id m)) [
        | inl gone ↦ inr (inr (id, busy, gone, submit_lost core_id action uuid id now m busy gone))
        | inr (job, kept) ↦
            let found : active_for core_id m ≡ some job = ground arith in
            inl (job, found, submit_busy core_id action uuid now job m found)
      ]
    ]
