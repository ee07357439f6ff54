-- ===== src/App/Lifecycle/Endpoint.antt =====
-- A lifecycle request that waits for its job.
use rc_node.Base.{
  Error, ℕ, suc, ◌+◌, String, ◌≡◌, refl, ap, ◌∙◌, Bool, true, false, none, some, arith, leb,
  string_eq, nat_eq, Result, ok,
}
use Prim.Native.Nat.{◌/◌}
use rc_node.Base.Int.{ℤ, pos, ltb_ℤ, negsuc}
use rc_node.Base.Dict.{lookup}
use rc_node.Jobs.{Job, new_job, enqueue, started, run_start, run_finish}
use rc_node.App.Settings.{Host, authorize_core}
use rc_node.Jobs.Invariant.{submit_idle}
use rc_node.App.Lifecycle.{
  CoreManager, CoreActionBody, Action, action_name, timeout_of, Plant, execute, run_job, outcome_of,
  request, submitted, answered, patience, is_terminal, seen, watch, core_lifecycle,
}
use rc_node.App.Lifecycle.Run.{
  seen-enqueue, IsReport, ended_job, answered-IsReport, finished-is_terminal, run_job-jobs,
}

request_idle :
    {D : Type 0} (str_lower : String → String) (host : Host) (before : ℤ) (now : ℕ)
    (uuid core_id : String) (body : CoreActionBody) (s : Plant D)
    → authorize_core str_lower host core_id body.settings ≡ ok tt
    → lookup core_id s.jobs.active ≡ none
    → let job = new_job uuid core_id (action_name body.action) now in
      request str_lower host before now uuid core_id body s
      ≡ submitted before core_id body.action (ok job, enqueue job s.jobs) s
unfolding request
request_idle str_lower host before now uuid core_id body s permitted idle =
    rw (permitted, submit_idle core_id (action_name body.action) uuid now s.jobs idle, request) refl

-- The endpoint whose loop ends at the `n`-th test.
pub core_lifecycle_watched :
    {D : Type 0} (str_lower : String → String) (host : Host) (fuel : ℕ) (clock : ℕ → ℕ)
    (world : ℕ → Plant D → Plant D) (before after : ℤ) (now : ℕ) (uuid core_id : String)
    (body : CoreActionBody) (wait : ℤ) (s : Plant D) (job : Job) (n : ℕ)
    → (request str_lower host before now uuid core_id body s).0 ≡ ok job
    → let s1 = (request str_lower host before now uuid core_id body s).1 in
      let job_at = λ (k : ℕ). seen job (world k s1).jobs in
      watch wait (clock 0 + patience wait body.action) clock job_at fuel 0 ≡ some n
      → core_lifecycle str_lower host fuel clock world (before, after) now uuid core_id body wait s
        ≡ some (answered after core_id body.action (job_at n) (world n s1))
unfolding core_lifecycle
core_lifecycle_watched str_lower host fuel clock world before after now uuid core_id body wait s job
      n accepted over =
    rw (accepted, over, core_lifecycle) refl

-- The loop that finds a job which has not ended, and then one that has.
watch_second :
    (wait : ℤ) (deadline : ℕ) (clock : ℕ → ℕ) (job : ℕ → Job) (fuel : ℕ)
    → ltb_ℤ (pos 0) wait ≡ true
    → is_terminal ((job 0).state) ≡ false
    → leb deadline (clock 0) ≡ false
    → is_terminal ((job 1).state) ≡ true
    → watch wait deadline clock job (suc (suc fuel)) 0 ≡ some 1
unfolding watch
watch_second wait deadline clock job fuel patient live early over = ground arith

patience_positive :
    (wait : ℤ) (action : Action) (t : ℕ)
    → ltb_ℤ (pos 0) wait ≡ true
    → leb (t + patience wait action) t ≡ false
patience_positive (pos n) action t h = ground arith
patience_positive (negsuc n) action t h = ground arith

-- What a panel is told that waits for a lifecycle action. On an idle core, with settings that the
-- policy permits, let the task of the job run to its end while the loop sleeps for the first time.
-- The endpoint then returns at its second test. Its answer is the job with the result of the action
-- when that has returned, and 409 with a failed job when it has raised. The job manager has gone
-- through the start of the job and its end, and the core is free again.
pub core_lifecycle-run_job :
    {D : Type 0} (manager : CoreManager D) (type_name str_error : Error → String)
    (str_lower : String → String) (host : Host) (removable : Bool) (uuid core_id : String)
    (body : CoreActionBody) (wait before after : ℤ) (now begun ended fuel : ℕ) (clock : ℕ → ℕ)
    (world : ℕ → Plant D → Plant D) (s : Plant D)
    → authorize_core str_lower host core_id body.settings ≡ ok tt
    → lookup core_id s.jobs.active ≡ none
    → ltb_ℤ (pos 0) wait ≡ true
    → let job = new_job uuid core_id (action_name body.action) now in
      ((p : Plant D) → world 0 p ≡ p)
      → ((p : Plant D)
          → world 1 p
            ≡ run_job manager type_name str_error removable core_id body begun ended job p)
      → let s1 = (request str_lower host before now uuid core_id body s).1 in
        let m = run_start job begun s1.jobs in
        let r = (execute manager removable core_id body body.action (record s1 { jobs = m })).0 in
        let done = ended_job manager type_name str_error r body.action begun ended job in
        let s2 = run_job manager type_name str_error removable core_id body begun ended job s1 in
        let answer = answered after core_id body.action done s2 in
        (core_lifecycle str_lower host
            (suc (suc fuel))
            clock
            world
            (before, after)
            now
            uuid
            core_id
            body
            wait
            s
          ≡ some answer)
        × IsReport manager type_name str_error r done (answer.0)
        × (s2.jobs
            ≡ run_finish
                (started begun job)
                (outcome_of type_name str_error r)
                (timeout_of body.action / 1000)
                ended
                m)
        × (lookup core_id s2.jobs.active ≡ none)
unfolding submitted is_terminal
core_lifecycle-run_job {D = D} manager type_name str_error str_lower host removable uuid core_id
      body wait before after now begun ended fuel clock world s permitted idle patient still runs =
    let job = new_job uuid core_id (action_name body.action) now in
    let accepted = request_idle str_lower host before now uuid core_id body s permitted idle in
    let s1 = (request str_lower host before now uuid core_id body s).1 in
    let m = run_start job begun s1.jobs in
    let r = (execute manager removable core_id body body.action (record s1 { jobs = m })).0 in
    let (steps, free, found) =
      run_job-jobs manager type_name str_error removable core_id uuid body now begun ended s1 in
    let done = ended_job manager type_name str_error r body.action begun ended job in
    let queued : seen job (world 0 s1).jobs ≡ job =
      ap (λ (p : Plant D). seen job p.jobs)
        (still s1 ∙ ap (λ (x : Result Job × Plant D). x.1) accepted)
      ∙ seen-enqueue job s.jobs in
    let done_then : seen job (world 1 s1).jobs ≡ done =
      ap (λ (p : Plant D). seen job p.jobs) (runs s1) ∙ found in
    (
      core_lifecycle_watched str_lower host (suc (suc fuel)) clock world before after now uuid
            core_id body wait s job 1 (ap (λ (x : Result Job × Plant D). x.0) accepted)
            (watch_second wait (clock 0 + patience wait body.action) clock
              (λ n. seen job (world n s1).jobs) fuel patient
              (ap (λ (j : Job). is_terminal j.state) queued)
              (patience_positive wait body.action (clock 0) patient)
              (ap (λ (j : Job). is_terminal j.state) done_then
                ∙ finished-is_terminal manager type_name str_error
                    (outcome_of type_name str_error r) (timeout_of body.action / 1000) ended
                    (started begun job)))
          ∙ ap (λ (j : Job). some (answered after core_id body.action j (world 1 s1))) done_then
          ∙ ap (λ (p : Plant D). some (answered after core_id body.action done p)) (runs s1),
      answered-IsReport manager type_name str_error r after core_id body.action begun ended job
          (run_job manager type_name str_error removable core_id body begun ended job s1),
      steps,
      free,
    )
