-- ===== src/Jobs/History.antt =====
-- The bounded history: `_jobs` lists exactly the ids of `_order`.
use rc_node.Base.{
  length-append, List, All, take, zero, true, nat_eq, ap, ◌≡◌, arith, some, ℕ, suc, string_eq, inl,
  none, drop, String, false, ◌∷◌, inr, length, ◌++◌, Option-cases, [], ◌∙◌, refl, ◌<◌, ◌-◌, ◌≤◌,
  All-append, length-drop, All-map, contains,
}
use rc_node.Base.Nodup.{contains-append, NoDup-drop, not-contains_of_All, NoDup-append_one, NoDup}
use rc_node.Jobs.{
  get, finished, started, run_finish, new_manager, enqueue, run_start, new_job, discard_all,
  discard, Job, submit, JobManager,
}
use rc_node.Jobs.Invariant.{submit_same, submit_idle}
use rc_node.Base.Dict.{lookup-insert, lookup, insert, has_key, Dict}
use rc_node.Jobs.Steps.{Step, Reach, submitted, start, finish, here, next}

abbrev pub IsKnown : JobManager → String → Type 0
IsKnown m id = has_key id m.objects ≡ true

pub record IsHistory (m : JobManager) : Type 0 where
  pub listed : m.jobs ≡ m.order
  pub nodup : NoDup m.order
  pub bounded : length m.order ≤ m.history_limit
  pub known : All (λ id. has_key id m.objects ≡ true) m.order

discard_absent : (id : String) (js : List String) → contains js id ≡ false → discard id js ≡ js
discard_absent id [] h = refl
discard_absent id (j ∷ js) h = ground (arith, discard_absent id js)

pub discard_head :
    (id : String) (js : List String) → contains js id ≡ false → discard id (id ∷ js) ≡ js
discard_head id js h = ground (arith, discard_absent id js h)

-- Dropping the oldest ids one by one is dropping them from the list.
pub discard_all-take :
    (n : ℕ) (js : List String) → NoDup js → discard_all (take n js) js ≡ drop n js
discard_all-take zero js u = refl
discard_all-take (suc n) [] u = refl
discard_all-take (suc n) (j ∷ js) (fresh, u) =
    ap (discard_all (take n js)) (discard_head j js fresh) ∙ discard_all-take n js u

All-drop : (P : String → Type 0) (n : ℕ) (js : List String) → All P js → All P (drop n js)
All-drop P zero js h = h
All-drop P (suc n) [] h = tt
All-drop P (suc n) (j ∷ js) h = All-drop P n js h.1

known_insert_one :
    (id i : String) (job : Job) (d : Dict String Job)
    → has_key i d ≡ true
    → has_key i (insert id job d) ≡ true
known_insert_one id i job d h = ground (arith, lookup-insert i id job d)

known_insert :
    (id : String) (job : Job) (d : Dict String Job) (js : List String)
    → All (λ i. has_key i d ≡ true) js
    → All (λ i. has_key i (insert id job d) ≡ true) js
known_insert id job d js = All-map _ _ js (λ i h. known_insert_one id i job d h)

new_id_absent :
    (id : String) (d : Dict String Job) (js : List String)
    → All (λ i. has_key i d ≡ true) js
    → lookup id d ≡ none
    → contains js id ≡ false
new_id_absent id d js h new =
    not-contains_of_All (λ i. has_key i d ≡ true) js id h (λ k. ground arith)

pub enqueue-IsHistory :
    (job : Job) (m : JobManager)
    → IsHistory m
    → lookup job.job_id m.objects ≡ none
    → IsHistory (enqueue job m)
unfolding enqueue
enqueue-IsHistory job m h new =
    let order = m.order ++ job.job_id ∷ [] in
    let n = length order - m.history_limit in
    let absent = new_id_absent job.job_id m.objects m.order h.known new in
    let u : NoDup order = NoDup-append_one m.order job.job_id h.nodup absent in
    let self : has_key job.job_id (insert job.job_id job m.objects) ≡ true =
      ground (arith, lookup-insert job.job_id job.job_id job m.objects) in
    record {
      listed = rw h.listed (discard_all-take n order u);
      nodup = NoDup-drop n order u;
      bounded = omega (arith, length-drop {0} n order);
      known = All-drop _ n order (
          All-append _ m.order (job.job_id ∷ [])
            (known_insert job.job_id job m.objects m.order h.known) (self, tt));
    }

submit-IsHistory :
    (core_id action uuid : String) (now : ℕ) (m : JobManager)
    → IsHistory m
    → lookup uuid m.objects ≡ none
    → IsHistory (submit core_id action uuid now m).1
submit-IsHistory core_id action uuid now m h new = elim (Option-cases (lookup core_id m.active)) [
  | inl idle ↦
      rw (submit_idle core_id action uuid now m idle)
        (enqueue-IsHistory (new_job uuid core_id action now) m h new)
  | inr (id, busy) ↦ rw (submit_same core_id action uuid id now m busy) h
]

Step-IsHistory : {m n : JobManager} → Step m n → IsHistory m → IsHistory n
unfolding run_start run_finish
Step-IsHistory (submitted core_id action uuid now new) h =
    submit-IsHistory core_id action uuid now _ h new
Step-IsHistory {m} (start job now found q) h = record {
  listed = h.listed;
  nodup = h.nodup;
  bounded = h.bounded;
  known = known_insert job.job_id (started now job) m.objects m.order h.known;
}
Step-IsHistory {m} (finish job outcome timeout now found r) h = record {
  listed = h.listed;
  nodup = h.nodup;
  bounded = h.bounded;
  known = known_insert job.job_id (finished outcome timeout now job) m.objects m.order h.known;
}

submit-limit :
    (core_id action uuid : String) (now : ℕ) (m : JobManager)
    → (submit core_id action uuid now m).1.history_limit ≡ m.history_limit
unfolding submit
submit-limit core_id action uuid now m = ground arith

Step-limit : {m n : JobManager} → Step m n → n.history_limit ≡ m.history_limit
unfolding run_start run_finish
Step-limit (submitted core_id action uuid now new) = submit-limit core_id action uuid now _
Step-limit (start job now found q) = refl
Step-limit (finish job outcome timeout now found r) = refl

pub Reach-IsHistory :
    (limit : ℕ) {m : JobManager}
    → Reach (new_manager limit) m
    → IsHistory m × (m.history_limit ≡ limit)
Reach-IsHistory limit here =
    unfold new_manager in
    (record { listed = refl; nodup = tt; bounded = omega arith; known = tt }, refl)
Reach-IsHistory limit (next r step) =
    let (h, e) = Reach-IsHistory limit r in (Step-IsHistory step h, Step-limit step ∙ e)

-- The newest id is in the history.
newest_kept :
    (n : ℕ) (xs : List String) (a : String)
    → n ≤ length xs
    → contains (drop n (xs ++ a ∷ [])) a ≡ true
newest_kept zero xs a h = ground (arith, contains-append xs (a ∷ []) a)
newest_kept (suc n) [] a h = absurd (omega arith)
newest_kept (suc n) (x ∷ xs) a h = newest_kept n xs a (omega arith)

pub get-enqueue :
    (job : Job) (m : JobManager)
    → IsHistory m
    → lookup job.job_id m.objects ≡ none
    → 0 < m.history_limit
    → get job.job_id (enqueue job m) ≡ some job
unfolding get enqueue
get-enqueue job m h new room =
    let order = m.order ++ job.job_id ∷ [] in
    let n = length order - m.history_limit in
    let small : n ≤ length m.order = omega (arith, length-append {0} m.order (job.job_id ∷ [])) in
    let kept = newest_kept n m.order job.job_id small in
    let same = (enqueue-IsHistory job m h new).listed in
    ground (arith, lookup-insert job.job_id job.job_id job m.objects)
