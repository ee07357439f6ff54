-- ===== src/Examples/Jobs.antt =====
-- A manager with one or two jobs in its history.
use rc_node.Jobs.Eviction.{evicted_active_job}
use rc_node.Jobs.{
  active_for, JobManager, Job, new_manager, new_job, started, finished, submit, run_start,
  run_finish, returned,
}
use rc_node.Jobs.Serial.{one_live_job}
use rc_node.Base.{
  key_error, ℕ, String, ◌≡◌, refl, none, some, [], string_eq, nat_eq, ◌∷◌, length, err,
}
use rc_node.Jobs.Steps.{Reach, here, next, submitted, start}
use rc_node.Jobs.History.{IsHistory, Reach-IsHistory}
use rc_node.Base.Dict.{lookup}

abbrev first : Job
first = new_job "j1" "default" "restart" 10

-- After one submission, with room for `limit` jobs.
abbrev one : ℕ → JobManager
one limit = (submit "default" "restart" "j1" 10 (new_manager limit)).1

Reach-one : (limit : ℕ) → Reach (new_manager limit) (one limit)
unfolding new_manager
Reach-one limit = next here (submitted "default" "restart" "j1" 10 refl)

one_has_first : lookup "j1" (one 1).objects ≡ some first
unfolding new_manager submit string_eq
one_has_first = refl

one_live_job_example : ◌≡◌ {A = String} "j1" "j1"
one_live_job_example =
    one_live_job 1 "j1" "j1" first first (Reach-one 1) one_has_first one_has_first refl refl refl

abbrev begun : JobManager
begun = run_start first 11 (one 1)

begun_has_first : lookup "j1" begun.objects ≡ some (started 11 first)
unfolding new_manager submit string_eq run_start
begun_has_first = refl

Reach-begun : Reach (new_manager 1) begun
Reach-begun = next (Reach-one 1) (start first 11 one_has_first refl)

abbrev ended : JobManager
ended = run_finish (started 11 first) (returned []) 60 12 begun

abbrev done : Job
done = finished (returned []) 60 12 (started 11 first)

ended_has_first : lookup "j1" ended.objects ≡ some done
unfolding new_manager submit string_eq run_start run_finish
ended_has_first = refl

abbrev later : JobManager
later = (submit "default" "stop" "j2" 13 ended).1

new_id : lookup "j2" ended.objects ≡ none
unfolding new_manager submit string_eq run_start run_finish
new_id = refl

second_id : lookup "j2" (one 1).objects ≡ none
unfolding new_manager submit string_eq
second_id = refl

one-IsHistory : (limit : ℕ) → IsHistory (one limit)
one-IsHistory limit = (Reach-IsHistory limit (Reach-one limit)).0

still_listed : (one 1).order ≡ "j1" ∷ []
unfolding new_manager submit
still_listed = refl

full : length (one 1).order ≡ (one 1).history_limit
unfolding new_manager submit
full = refl

busy : lookup "default" (one 1).active ≡ some "j1"
unfolding new_manager submit string_eq
busy = refl

other_idle : lookup "second" (one 1).active ≡ none
unfolding new_manager submit string_eq
other_idle = refl

evicted_active_job_example :
    let m' = (submit "second" "start" "j2" 11 (one 1)).1 in
    (active_for "default" m' ≡ none)
    × ((action' uuid' : String) (now' : ℕ)
        → submit "default" action' uuid' now' m' ≡ (err key_error, m'))
evicted_active_job_example =
    evicted_active_job "default" "second" "start" "j2" "j1" [] 11 (one 1) (one-IsHistory 1)
      still_listed full busy other_idle second_id
