-- ===== src/App/Lifecycle.antt =====
-- `POST /v1/cores/{core_id}/lifecycle` of node_agent/app.py, behind its signed request: the
-- submission, the coroutine of the job, and the wait for its end. The core manager is a parameter,
-- on a state `D`; times are in milliseconds.
pub mod Run
pub mod Endpoint
pub mod Wait
use rc_node.Base.{
  ◌>>◌, ◌>>=◌, pure, http_exception, Error, Exec, ℕ, zero, suc, ◌+◌, ◌<◌, String, ◌<>◌, Bool, true,
  false, ◌||◌, not, Option, none, some, List, [], ◌∷◌, ◌++◌, if◌then◌else◌, leb, string_eq, nat_eq,
  Result, ok, err, job_conflict_error, timeout_error,
}
use rc_node.Base.Int.{ℤ, pos, pos_part, ltb_ℤ}
use rc_node.Base.Json.{Json}
use rc_node.Base.Dict.{Dict, lookup}
use rc_node.Base.Text.{is_nonempty}
use rc_node.Security.Identity.{NodeIdentityStore, audit}
use rc_node.Accounts.{AccountsStore, forget}
use rc_node.Jobs.{
  recent, get, Job, JobManager, JobState, submit, queued, running, succeeded, failed, cancelled,
  Outcome, returned, raised, timed_out, run_start, run_finish, started,
}
use rc_node.App.Settings.{Host, authorize_core}
use Prim.Native.Nat.{min, ◌/◌}

pub data Action : Type 0 where
  install uninstall start stop restart update : Action

abbrev pub action_name : Action → String
action_name install = "install"
action_name uninstall = "uninstall"
action_name start = "start"
action_name stop = "stop"
action_name restart = "restart"
action_name update = "update"

-- `_JOB_TIMEOUT.get(action, 120.0)`
abbrev pub timeout_of : Action → ℕ
timeout_of install = 1200000
timeout_of uninstall = 600000
timeout_of update = 1200000
timeout_of _ = 120000

pub record CoreActionBody : Type 0 where
  pub action : Action
  pub settings : Dict String Json
  pub purge : Bool
  pub force : Bool

-- The core manager; `status` is the dict of its answer.
pub record CoreManager (D : Type 0) : Type 0 where
  pub install_core : String → Dict String Json → Exec D (Unit {0})
  pub uninstall_core : String → Bool → Bool → Exec D (Unit {0})
  pub start_core : String → Exec D (Unit {0})
  pub stop_core : String → Exec D (Unit {0})
  pub restart_core : String → Exec D (Unit {0})
  pub update_core : String → Option Json → Exec D Json
  pub status : String → Exec D (Dict String Json)

-- What the endpoint and its job read and write.
pub record Plant (D : Type 0) : Type 0 where
  pub identity : NodeIdentityStore
  pub jobs : JobManager
  pub accounts : AccountsStore
  pub cores : D

-- `except JobConflictError as exc: raise HTTPException(409, str(exc))`
unfoldable pub conflict_as_409 : Error → Error
conflict_as_409 (job_conflict_error text) = http_exception 409 text
conflict_as_409 e = e

module _ {D : Type 0} where
  abbrev pub on_cores : {A : Type 0} → Exec D A → Exec (Plant D) A
  on_cores m s = let (r, d) = m s.cores in (r, record s { cores = d })

  abbrev pub note : ℤ → String → Dict String Json → Plant D → Plant D
  note now action detail s = record s { identity = (audit now action detail s.identity).1 }

  -- `if body.purge: accounts_store.forget(core_id)`
  abbrev pub forget_if : Bool → Bool → String → Exec (Plant D) Unit
  forget_if purge removable core_id s =
      (ok tt, if purge then record s { accounts = forget removable core_id s.accounts } else s)

  module _ (manager : CoreManager D) where
    -- `execute`. The flag says whether the file of the accounts can be unlinked.
    unfoldable pub execute :
        Bool → String → CoreActionBody → Action → Exec (Plant D) (Dict String Json)
    execute removable core_id body install = do
      on_cores (manager.install_core core_id body.settings)
      on_cores (manager.status core_id)
    execute removable core_id body uninstall = do
      on_cores (manager.uninstall_core core_id body.purge body.force)
      forget_if body.purge removable core_id
      pure (("core_id", Json.text core_id) ∷ ("state", Json.text "uninstalled") ∷ [])
    execute removable core_id body start = do
      on_cores (manager.start_core core_id)
      on_cores (manager.status core_id)
    execute removable core_id body stop = do
      on_cores (manager.stop_core core_id)
      on_cores (manager.status core_id)
    execute removable core_id body restart = do
      on_cores (manager.restart_core core_id)
      on_cores (manager.status core_id)
    execute removable core_id body update = do
      version ← on_cores (manager.update_core core_id (lookup "release_version" body.settings))
      pure (("core_id", Json.text core_id) ∷ ("version", version) ∷ [])

  unfoldable pub submitted :
      ℤ → String → Action → Result Job × JobManager → Plant D → Result Job × Plant D
  unfolding conflict_as_409
  submitted now core_id action (err e, m) s = (err (conflict_as_409 e), record s { jobs = m })
  submitted now core_id action (ok job, m) s = (
    ok job,
    note now "core.lifecycle.submit"
        (("core_id", Json.text core_id) ∷ ("action", Json.text (action_name action)) ∷ [])
        (record s { jobs = m }),
  )

  -- The endpoint up to its loop. `now_s` is the time of the audit log.
  unfoldable pub request :
      (String → String) → Host → ℤ → ℕ → String → String → CoreActionBody → Exec (Plant D) Job
  unfolding submitted
  request str_lower host now_s now uuid core_id body s =
      elim (authorize_core str_lower host core_id body.settings) [
        | err e ↦ (err e, s)
        | ok _ ↦
            submitted now_s core_id body.action
              (submit core_id (action_name body.action) uuid now s.jobs) s
      ]

  -- The endpoint behind its loop, with the job as it is then: its `payload`.
  unfoldable pub answered : ℤ → String → Action → Job → Exec (Plant D) Job
  answered now core_id action job s =
      let names =
        ("core_id", Json.text core_id) ∷ ("action", Json.text (action_name action)) ∷ [] in
      elim job.state [
        | queued ↦ (ok job, s)
        | running ↦ (ok job, s)
        | cancelled ↦ (ok job, s)
        | succeeded ↦ (ok job, note now "core.lifecycle" names s)
        | failed ↦ (
          err (
              http_exception 409 (elim job.error [
                | none ↦ action_name action <> " failed"
                | some text ↦ if is_nonempty text then text else action_name action <> " failed"
              ])),
          note now "core.failed"
              (names
                ++ ("error_type", elim job.error_type [ none ↦ Json.null | some t ↦ Json.text t ])
                  ∷ [])
              s,
        )
      ]

-- How `_run` sees the end of the coroutine; the names and the texts of exceptions are parameters.
abbrev pub outcome_of : (Error → String) → (Error → String) → Result (Dict String Json) → Outcome
outcome_of type_name str_error (ok result) = returned result
outcome_of type_name str_error (err timeout_error) = timed_out
outcome_of type_name str_error (err e) = raised (type_name e) (str_error e)

-- The task of the job, `_run` with `execute`, where no other task runs in between and the deadline of
-- the job does not pass.
unfoldable pub run_job :
    {D : Type 0}
    → CoreManager D
    → (Error → String)
    → (Error → String)
    → Bool
    → String
    → CoreActionBody
    → ℕ
    → ℕ
    → Job
    → Plant D
    → Plant D
unfolding execute
run_job manager type_name str_error removable core_id body begun ended job s =
    let (r, s') =
      execute manager removable core_id body body.action
        (record s { jobs = run_start job begun s.jobs }) in
    record s' {
      jobs =
          run_finish (started begun job) (outcome_of type_name str_error r)
            (timeout_of body.action / 1000) ended s'.jobs;
    }

-- `max(0.0, min(wait, timeout + 5))`
abbrev pub patience : ℤ → Action → ℕ
patience wait action = min (pos_part wait) (timeout_of action + 5000)

-- `job.state in ("succeeded", "failed", "cancelled")`
unfoldable pub is_terminal : JobState → Bool
is_terminal queued = false
is_terminal running = false
is_terminal _ = true

-- The object that `submit` has returned, as the other tasks have left it.
unfoldable pub seen : Job → JobManager → Job
seen job m = elim (lookup job.job_id m.objects) [ none ↦ job | some job' ↦ job' ]

-- The tests of the loop: at the `n`-th one the clock shows `clock n` and the job is `job n`. `none`
-- stands for a loop that goes on after `fuel` tests.
module _ (wait : ℤ) (deadline : ℕ) (clock : ℕ → ℕ) (job : ℕ → Job) where
  unfoldable pub watch : ℕ → ℕ → Option ℕ
  unfolding is_terminal
  watch zero n = none
  watch (suc fuel) n =
      let rest = watch fuel (suc n) in
      if not (ltb_ℤ (pos 0) wait) || is_terminal (job n).state
      then some n
      else if leb deadline (clock n)
      then some n
      else rest

module _ {D : Type 0} (str_lower : String → String) (host : Host) where
  -- `core_lifecycle`, which answers the job. `world n` gives what the other tasks have made of the
  -- state when the loop tests for the `n`-th time.
  unfoldable pub core_lifecycle :
      ℕ
      → (ℕ → ℕ)
      → (ℕ → Plant D → Plant D)
      → (ℤ × ℤ)
      → ℕ
      → String
      → String
      → CoreActionBody
      → ℤ
      → Plant D
      → Option (Result Job × Plant D)
  unfolding request watch answered seen
  core_lifecycle fuel clock world (before, after) now uuid core_id body wait s =
      let (r, s') = request str_lower host before now uuid core_id body s in
      elim r [
        | err e ↦ some (err e, s')
        | ok job ↦
            let job_at = λ (n : ℕ). seen job (world n s').jobs in
            elim (watch wait (clock 0 + patience wait body.action) clock job_at fuel 0) [
              | none ↦ none
              | some n ↦ some (answered after core_id body.action (job_at n) (world n s'))
            ]
      ]

-- `list_jobs`
unfoldable pub list_jobs : ℤ → JobManager → List Job
list_jobs limit m = recent limit m

-- `job_status`
unfoldable pub job_status : String → JobManager → Result Job
job_status job_id m = elim (get job_id m) [
  | none ↦ err (http_exception 404 ("job '" <> (job_id <> "' not found")))
  | some job ↦ ok job
]
