-- ===== src/Jobs.antt =====
-- node_agent/jobs.py: lifecycle jobs, one at a time for each core, with a bounded history. The
-- event loop runs one step at a time: a call of `submit` (it awaits nothing but its lock), the
-- start of a task of `_run`, or its end.
pub mod Steps
pub mod Invariant
pub mod Serial
pub mod History
pub mod Recent
pub mod Submit
pub mod Eviction
use rc_node.Base.Int.{negsuc, pos, ℤ}
use rc_node.Base.Json.{Json}
use rc_node.Base.Dict.{erase, lookup, insert, Dict}
use rc_node.Base.Text.Decimal.{decimal}
use rc_node.Base.{
  ℕ, ◌+◌, ◌-◌, ◌<◌, String, ◌<>◌, Option, none, some, List, [], ◌∷◌, ◌++◌, if◌then◌else◌, ◌==◌,
  string_eq, nat_eq, length, take, drop, ok, err, Exec, Error, job_conflict_error, key_error,
  contains,
}
use mathlib.Core.List.{reverse}
use Prim.Native.Nat.{min, max}

pub data JobState : Type 0 where
  queued running succeeded failed cancelled : JobState

-- Times are clock values that the code only stores.
pub record Job : Type 0 where
  pub job_id : String
  pub core_id : String
  pub action : String
  pub state : JobState
  pub queued_at : ℕ
  pub started_at : Option ℕ
  pub finished_at : Option ℕ
  pub result : Option (Dict String Json)
  pub error : Option String
  pub error_type : Option String

-- `_jobs` is a dict from an id to the `Job` object with that id. The tasks hold the same objects,
-- and go on writing to them when `_jobs` no longer lists them. So `objects` has every object that
-- was made, and `jobs` the keys of `_jobs`.
pub record JobManager : Type 0 where
  pub history_limit : ℕ
  pub jobs : List String
  pub order : List String
  pub active : Dict String String
  pub objects : Dict String Job

-- `JobManager(history_limit)`
unfoldable pub new_manager : ℕ → JobManager
new_manager limit = record {
  history_limit = limit;
  jobs = [];
  order = [];
  active = [];
  objects = [];
}

-- `self._jobs.pop(job_id, None)`
abbrev pub discard : String → List String → List String
discard id [] = []
discard id (j ∷ js) = let rest = discard id js in if id == j then rest else j ∷ rest

abbrev pub discard_all : List String → List String → List String
discard_all [] js = js
discard_all (id ∷ ids) js = discard_all ids (discard id js)

-- `_remember`; the id is new, so `_jobs` lists it last.
unfoldable pub remember : Job → JobManager → JobManager
remember job m =
    let order = m.order ++ job.job_id ∷ [] in
    let jobs = m.jobs ++ job.job_id ∷ [] in
    let overflow = length order - m.history_limit in
    record m {
      jobs = discard_all (take overflow order) jobs;
      order = drop overflow order;
      objects = insert job.job_id job m.objects;
    }

-- `self._jobs.get(job_id)`
unfoldable pub get : String → JobManager → Option Job
get id m = if contains m.jobs id then lookup id m.objects else none

unfoldable pub active_for : String → JobManager → Option Job
unfolding get
active_for core_id m = elim (lookup core_id m.active) [ none ↦ none | some id ↦ get id m ]

abbrev state_name : JobState → String
state_name queued = "queued"
state_name running = "running"
state_name succeeded = "succeeded"
state_name failed = "failed"
state_name cancelled = "cancelled"

abbrev pub conflict : String → Job → Error
conflict core_id active = job_conflict_error (
    "a '"
    <> active.action
    <> "' job for core '"
    <> core_id
    <> "' is already "
    <> state_name active.state
    <> " (job "
    <> active.job_id
    <> ")")

-- The branch of `submit` for a core with an entry in `_active`; `_jobs[...]` raises a KeyError on
-- an id that it does not list.
join : String → String → Option Job → Exec JobManager Job
join core_id action none m = (err key_error, m)
join core_id action (some active) m =
    if active.action == action then (ok active, m) else (err (conflict core_id active), m)

abbrev pub new_job : String → String → String → ℕ → Job
new_job job_id core_id action now = record {
  job_id = job_id;
  core_id = core_id;
  action = action;
  state = queued;
  queued_at = now;
  started_at = none;
  finished_at = none;
  result = none;
  error = none;
  error_type = none;
}

-- What `submit` writes for an idle core.
unfoldable pub enqueue : Job → JobManager → JobManager
unfolding remember
enqueue job m = record (remember job m) { active = insert job.core_id job.job_id m.active }

-- `uuid` is `uuid.uuid4().hex`; the task that `submit` creates runs later, as `run_start`.
unfoldable pub submit : String → String → String → ℕ → Exec JobManager Job
unfolding join get enqueue
submit core_id action uuid now m = elim (lookup core_id m.active) [
  | some id ↦ join core_id action (get id m) m
  | none ↦ let job = new_job uuid core_id action now in (ok job, enqueue job m)
]

-- How the coroutine of a job ends.
pub data Outcome : Type 0 where
  returned : Dict String Json → Outcome
  timed_out : Outcome
  was_cancelled : Outcome
  raised : String → String → Outcome  -- type(exc).__name__ and str(exc)

-- `_run` up to its await.
unfoldable pub started : ℕ → Job → Job
started now job = record job { state = running; started_at = some now }

-- The handlers of `_run`, and the first line of its `finally`.
unfoldable pub finished : Outcome → ℕ → ℕ → Job → Job
finished (returned result) timeout now job = record job {
  state = succeeded;
  result = some result;
  finished_at = some now;
}
finished timed_out timeout now job = record job {
  state = failed;
  error = some (job.action <> " timed out after " <> decimal timeout <> "s");
  error_type = some "TimeoutError";
  finished_at = some now;
}
finished was_cancelled timeout now job = record job {
  state = cancelled;
  error_type = some "CancelledError";
  finished_at = some now;
}
finished (raised name text) timeout now job = record job {
  state = failed;
  error = some text;
  error_type = some name;
  finished_at = some now;
}

unfoldable pub run_start : Job → ℕ → JobManager → JobManager
unfolding started
run_start job now m = record m { objects = insert job.job_id (started now job) m.objects }

unfoldable pub run_finish : Job → Outcome → ℕ → ℕ → JobManager → JobManager
unfolding finished
run_finish job outcome timeout now m = record m {
  objects = insert job.job_id (finished outcome timeout now job) m.objects;
  active = erase job.core_id m.active;
}

-- `max(1, min(limit, self._history_limit))`
recent_count : ℤ → ℕ → ℕ
recent_count (pos n) limit = max 1 (min n limit)
recent_count (negsuc n) limit = 1

present : List String → JobManager → List Job
unfolding get
present [] m = []
present (id ∷ ids) m =
    let rest = present ids m in elim (get id m) [ none ↦ rest | some job ↦ job ∷ rest ]

-- `recent`, as the jobs whose `to_dict` it lists.
unfoldable pub recent : ℤ → JobManager → List Job
unfolding recent_count present
recent limit m = present (take (recent_count limit m.history_limit) (reverse m.order)) m
