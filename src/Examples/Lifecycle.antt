-- ===== src/Examples/Lifecycle.antt =====
-- A panel that starts a core and waits for it; the start raises.
use rc_node.Base.{
  Error, ℕ, zero, suc, ◌+◌, ◌≤◌, String, ◌≡◌, refl, ◌⊎◌, true, false, none, some, [], ◌∷◌, arith,
  string_eq, nat_eq, ok, err, key_error,
}
use rc_node.Examples.Data.{armed}
use rc_node.Base.Int.{pos}
use rc_node.Base.Json.{Json}
use rc_node.Base.Dict.{lookup}
use rc_node.Jobs.{Job, new_manager, new_job, run_start, run_finish, started}
use rc_node.App.Settings.{Host, authorize_core, unknown, check_paths}
use rc_node.App.Lifecycle.{
  CoreManager, CoreActionBody, Plant, start, timeout_of, execute, run_job, outcome_of, request,
  answered, patience, seen, core_lifecycle,
}
use rc_node.App.Lifecycle.Run.{IsReport, ended_job}
use rc_node.App.Lifecycle.Endpoint.{core_lifecycle-run_job}
use rc_node.App.Lifecycle.Wait.{core_lifecycle-returns, IsOver}
use Prim.Native.Nat.{◌/◌}

abbrev host : Host
host = record {
  available_drivers = "xray" ∷ [];
  schema_properties = λ core_id. [];
  default_settings = λ core_id. [];
  is_absolute = λ path. false;
  resolve = λ path. [];
  core_root = "/cores";
  repr_sorted = λ names. "[]";
}

-- The cores, as the number of starts that were tried.
abbrev manager : CoreManager ℕ
manager = record {
  install_core = λ core_id settings d. (ok tt, d);
  uninstall_core = λ core_id purge force d. (ok tt, d);
  start_core = λ core_id d. (err key_error, suc d);
  stop_core = λ core_id d. (ok tt, d);
  restart_core = λ core_id d. (ok tt, d);
  update_core = λ core_id version d. (ok Json.null, d);
  status = λ core_id d. (ok [], d);
}

abbrev body : CoreActionBody
body = record { action = start; settings = []; purge = false; force = false }

abbrev plant : Plant ℕ
plant = record {
  identity = armed;
  jobs = new_manager 200;
  accounts = record { files = [] };
  cores = 0;
}

same_text : String → String
same_text s = s

named : Error → String
named e = "KeyError"

abbrev job : Job
job = new_job "j1" "xray" "start" 0

-- The job runs while the loop sleeps.
abbrev world : ℕ → Plant ℕ → Plant ℕ
world zero p = p
world (suc n) p = run_job manager named named true "xray" body 10 20 job p

abbrev clock : ℕ → ℕ
clock zero = 0
clock (suc n) = clock n + 250

permitted : authorize_core same_text host "xray" [] ≡ ok tt
unfolding authorize_core unknown check_paths string_eq
permitted = refl

idle : lookup "xray" plant.jobs.active ≡ none
unfolding new_manager
idle = refl

core_lifecycle-run_job_example :
    let s1 = (request same_text host (pos 1) 0 "j1" "xray" body plant).1 in
    let m = run_start job 10 s1.jobs in
    let r = (execute manager true "xray" body start (record s1 { jobs = m })).0 in
    let done = ended_job manager named named r start 10 20 job in
    let s2 = run_job manager named named true "xray" body 10 20 job s1 in
    let answer = answered (pos 2) "xray" start done s2 in
    (core_lifecycle same_text host 2 clock world (pos 1, pos 2) 0 "j1" "xray" body (pos 5000) plant
      ≡ some answer)
    × IsReport manager named named r done (answer.0)
    × (s2.jobs
        ≡ run_finish (started 10 job) (outcome_of named named r) (timeout_of start / 1000) 20 m)
    × (lookup "xray" s2.jobs.active ≡ none)
core_lifecycle-run_job_example =
    core_lifecycle-run_job manager named named same_text host true "j1" "xray" body (pos 5000)
      (pos 1) (pos 2) 0 10 20 0 clock world plant permitted idle refl (λ p. refl) (λ p. refl)

core_lifecycle-returns_example :
    let (r, s1) = request same_text host (pos 1) 0 "j1" "xray" body plant in
    let result =
      core_lifecycle same_text host 21 clock world
        (pos 1, pos 2)
        0
        "j1"
        "xray"
        body
        (pos 5000)
        plant in
    ((e : Error) × (r ≡ err e) × (result ≡ some (err e, s1)))
    ⊎ ((j : Job) × (k : ℕ) × (r ≡ ok j)
        × (k ≤ 20)
        × (result ≡ some (answered (pos 2) "xray" start (seen j (world k s1).jobs) (world k s1)))
        × IsOver
            (pos 5000)
            (clock 0 + patience (pos 5000) start)
            clock
            (λ n. seen j (world n s1).jobs)
            k)
core_lifecycle-returns_example =
    core_lifecycle-returns same_text host 20 clock world (pos 1) (pos 2) 0 "j1" "xray" body
      (pos 5000) plant (λ k. omega arith) (omega arith)
