-- ===== src/App/Lifecycle/Run.antt =====
-- The task of a lifecycle job, on the job manager.
use rc_node.Base.{
  Error, Exec, ℕ, String, ◌≡◌, refl, ap, ◌∙◌, Bool, true, false, none, some, [], ◌∷◌, arith,
  string_eq, nat_eq, Result, ok, err, Keeps, bind-Keeps, ◌>>=◌, pure, timeout_error, security_error,
  job_conflict_error, value_error, type_error, key_error, os_error, not_implemented_error,
  other_error, http_exception,
}
use Prim.Native.Nat.{◌/◌}
use rc_node.Base.Int.{ℤ}
use rc_node.Base.Json.{Json}
use rc_node.Base.Dict.{Dict, lookup, lookup-insert, lookup-erase}
use rc_node.Jobs.{
  Job, JobManager, new_job, enqueue, remember, started, finished, run_start, run_finish, Outcome,
  returned, raised, timed_out, was_cancelled, succeeded, failed,
}
use rc_node.App.Lifecycle.{
  CoreManager, CoreActionBody, Action, install, uninstall, start, stop, restart, update,
  action_name, timeout_of, Plant, on_cores, forget_if, execute, run_job, outcome_of, answered,
  is_terminal, seen,
}

seen-some :
    (job job' : Job) (m : JobManager) → lookup job.job_id m.objects ≡ some job' → seen job m ≡ job'
unfolding seen
seen-some job job' m h = rw (h, seen) refl

module _ {D : Type 0} (manager : CoreManager D) where
  -- The jobs and the identity are these.
  abbrev IsBeside : Plant D → Plant D → Type 0
  IsBeside before s = (s.jobs ≡ before.jobs) × (s.identity ≡ before.identity)

  on_cores-Keeps :
      (before : Plant D) {A : Type 0} (m : Exec D A) → Keeps (IsBeside before) (on_cores m)
  on_cores-Keeps before m s h = h

  forget_if-Keeps :
      (before : Plant D) (purge removable : Bool) (core_id : String)
      → Keeps (IsBeside before) (forget_if purge removable core_id)
  forget_if-Keeps before true removable core_id s h = h
  forget_if-Keeps before false removable core_id s h = h

  -- A method on the cores, and then the status.
  with_status-Keeps :
      (before : Plant D) {A B : Type 0} (m : Exec D A) (n : Exec D B)
      → Keeps (IsBeside before) (on_cores m >>= λ _. on_cores n)
  with_status-Keeps before m n =
      bind-Keeps (IsBeside before) (on_cores m) (λ _. on_cores n) (on_cores-Keeps before m)
        (λ _. on_cores-Keeps before n)

  abbrev uninstalled : String → Dict String Json
  uninstalled core_id = ("core_id", Json.text core_id) ∷ ("state", Json.text "uninstalled") ∷ []

  abbrev updated : String → Json → Dict String Json
  updated core_id version = ("core_id", Json.text core_id) ∷ ("version", version) ∷ []

  execute-Keeps :
      (before : Plant D) (removable : Bool) (core_id : String) (body : CoreActionBody)
      (action : Action)
      → Keeps (IsBeside before) (execute manager removable core_id body action)
  unfolding execute
  execute-Keeps before removable core_id body install =
      with_status-Keeps before (manager.install_core core_id body.settings) (manager.status core_id)
  execute-Keeps before removable core_id body start =
      with_status-Keeps before (manager.start_core core_id) (manager.status core_id)
  execute-Keeps before removable core_id body stop =
      with_status-Keeps before (manager.stop_core core_id) (manager.status core_id)
  execute-Keeps before removable core_id body restart =
      with_status-Keeps before (manager.restart_core core_id) (manager.status core_id)
  execute-Keeps before removable core_id body uninstall =
      bind-Keeps (IsBeside before) (on_cores (manager.uninstall_core core_id body.purge body.force))
        (λ _. forget_if body.purge removable core_id >>= λ _. pure (uninstalled core_id))
        (on_cores-Keeps before (manager.uninstall_core core_id body.purge body.force))
        (λ _.
          bind-Keeps (IsBeside before) (forget_if body.purge removable core_id)
            (λ _. pure (uninstalled core_id)) (forget_if-Keeps before body.purge removable core_id)
            (λ _ s h. h))
  execute-Keeps before removable core_id body update =
      bind-Keeps (IsBeside before)
        (on_cores (manager.update_core core_id (lookup "release_version" body.settings)))
        (λ version. pure (updated core_id version))
        (on_cores-Keeps before
          (manager.update_core core_id (lookup "release_version" body.settings)))
        (λ _ s h. h)

  module _ (type_name str_error : Error → String) where
    -- What the panel is told of a run: the job with its result, or that it failed.
    abbrev pub IsReport : Result (Dict String Json) → Job → Result Job → Type 0
    IsReport (ok d) done answer =
        (answer ≡ ok done) × (done.state ≡ succeeded) × (done.result ≡ some d)
    IsReport (err e) done answer =
        (text : String) × (answer ≡ err (http_exception 409 text)) × (done.state ≡ failed)

    abbrev pub ended_job : Result (Dict String Json) → Action → ℕ → ℕ → Job → Job
    ended_job r action begun ended job =
        finished (outcome_of type_name str_error r) (timeout_of action / 1000) ended
          (started begun job)

    pub answered-IsReport :
        (r : Result (Dict String Json)) (after : ℤ) (core_id : String) (action : Action)
        (begun ended : ℕ) (job : Job) (s : Plant D)
        → let done = ended_job r action begun ended job in
          IsReport r done ((answered after core_id action done s).0)
    unfolding answered finished started
    answered-IsReport (ok d) after core_id action begun ended job s = (refl, refl, refl)
    answered-IsReport (err (security_error m)) after core_id action begun ended job s =
        (_, refl, refl)
    answered-IsReport (err (job_conflict_error m)) after core_id action begun ended job s =
        (_, refl, refl)
    answered-IsReport (err (http_exception c m)) after core_id action begun ended job s =
        (_, refl, refl)
    answered-IsReport (err (value_error m)) after core_id action begun ended job s = (_, refl, refl)
    answered-IsReport (err type_error) after core_id action begun ended job s = (_, refl, refl)
    answered-IsReport (err key_error) after core_id action begun ended job s = (_, refl, refl)
    answered-IsReport (err os_error) after core_id action begun ended job s = (_, refl, refl)
    answered-IsReport (err timeout_error) after core_id action begun ended job s = (_, refl, refl)
    answered-IsReport (err not_implemented_error) after core_id action begun ended job s =
        (_, refl, refl)
    answered-IsReport (err (other_error m)) after core_id action begun ended job s = (_, refl, refl)

    pub finished-is_terminal :
        (outcome : Outcome) (timeout now : ℕ) (job : Job)
        → is_terminal ((finished outcome timeout now job).state) ≡ true
    unfolding finished is_terminal
    finished-is_terminal (returned d) timeout now job = refl
    finished-is_terminal timed_out timeout now job = refl
    finished-is_terminal was_cancelled timeout now job = refl
    finished-is_terminal (raised name text) timeout now job = refl

    -- The job manager goes through the start of the job and its end; the core is free and the job is
    -- as `_run` has left it.
    pub run_job-jobs :
        (removable : Bool) (core_id uuid : String) (body : CoreActionBody) (now begun ended : ℕ)
        (s : Plant D)
        → let job = new_job uuid core_id (action_name body.action) now in
          let m = run_start job begun s.jobs in
          let r = (execute manager removable core_id body body.action (record s { jobs = m })).0 in
          let s' = run_job manager type_name str_error removable core_id body begun ended job s in
          (s'.jobs
            ≡ run_finish
                (started begun job)
                (outcome_of type_name str_error r)
                (timeout_of body.action / 1000)
                ended
                m)
          × (lookup core_id s'.jobs.active ≡ none)
          × (seen job s'.jobs ≡ ended_job r body.action begun ended job)
    unfolding run_job run_finish seen started finished
    run_job-jobs removable core_id uuid body now begun ended s =
        let job = new_job uuid core_id (action_name body.action) now in
        let s1 = record s { jobs = run_start job begun s.jobs } in
        let (r, s2) = execute manager removable core_id body body.action s1 in
        let done = ended_job r body.action begun ended job in
        let (kept, same) = execute-Keeps s1 removable core_id body body.action s1 (refl, refl) in
        (
          ap
              (λ (m : JobManager).
                run_finish (started begun job) (outcome_of type_name str_error r)
                  (timeout_of body.action / 1000) ended m)
              kept,
          lookup-erase core_id core_id s2.jobs.active ∙ (ground arith),
          seen-some job done
              (run_finish (started begun job) (outcome_of type_name str_error r)
                (timeout_of body.action / 1000) ended s2.jobs)
              (lookup-insert uuid uuid done s2.jobs.objects ∙ (ground arith)),
        )

pub seen-enqueue : (job : Job) (m : JobManager) → seen job (enqueue job m) ≡ job
unfolding enqueue remember
seen-enqueue job m =
    seen-some job job (enqueue job m)
      (lookup-insert job.job_id job.job_id job m.objects ∙ (ground arith))
