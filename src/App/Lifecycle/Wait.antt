-- ===== src/App/Lifecycle/Wait.antt =====
-- The loop in which a lifecycle request waits for its job comes to an end.
use rc_node.Base.{
  Result-cases, Error, ℕ, zero, suc, ◌+◌, ◌*◌, ◌≤◌, ◌<◌, String, ◌≡◌, refl, ◌∙◌, ◌⊎◌, inl, inr,
  true, false, some, arith, leb, Bool-cases, string_eq, nat_eq, ok, err,
}
use rc_node.Base.Int.{ℤ, pos, ltb_ℤ}
use rc_node.Jobs.{Job}
use rc_node.App.Settings.{Host}
use rc_node.App.Lifecycle.{
  CoreActionBody, Plant, request, answered, patience, is_terminal, seen, watch, core_lifecycle,
}
use rc_node.App.Lifecycle.Endpoint.{core_lifecycle_watched}

module _ (wait : ℤ) (deadline : ℕ) (clock : ℕ → ℕ) (job : ℕ → Job) where
  -- Why the loop ends: nobody waits, the job has ended, or the deadline is over.
  abbrev pub IsOver : ℕ → Type 0
  IsOver n =
      (ltb_ℤ (pos 0) wait ≡ false) ⊎ (is_terminal ((job n).state) ≡ true) ⊎ (deadline ≤ clock n)

  -- A test of the loop either ends it or goes on to the next one.
  watch_step :
      (fuel n : ℕ)
      → ((watch wait deadline clock job (suc fuel) n ≡ some n) × IsOver n)
        ⊎ ((clock n < deadline)
            × (watch wait deadline clock job (suc fuel) n
                ≡ watch wait deadline clock job fuel (suc n)))
  unfolding watch
  watch_step fuel n = elim (Bool-cases (ltb_ℤ (pos 0) wait)) [
    | inr hasty ↦ inl (rw hasty refl, inl hasty)
    | inl patient ↦ elim (Bool-cases (is_terminal ((job n).state))) [
      | inl over ↦ inl (rw (patient, over) refl, inr (inl over))
      | inr live ↦ elim (Bool-cases (leb deadline (clock n))) [
        | inl late ↦ inl (rw (patient, live, late) refl, inr (inr (ground arith)))
        | inr early ↦ inr (ground arith, rw (patient, live, early) refl)
      ]
    ]
  ]

  watch-returns :
      (fuel n : ℕ)
      → ((k : ℕ) → clock k + 250 ≤ clock (suc k))
      → deadline ≤ clock n + fuel * 250
      → (k : ℕ) × (watch wait deadline clock job (suc fuel) n ≡ some k) × (k ≤ n + fuel) × IsOver k
  watch-returns zero n ticks room = elim (watch_step zero n) [
    | inl (ends, over) ↦ (n, ends, omega arith, over)
    | inr (early, rest) ↦ absurd (omega arith)
  ]
  watch-returns (suc fuel) n ticks room = elim (watch_step (suc fuel) n) [
    | inl (ends, over) ↦ (n, ends, omega arith, over)
    | inr (early, rest) ↦
        let step = ticks n in
        let (k, ends, bound, over) = watch-returns fuel (suc n) ticks (omega arith) in
        (k, rest ∙ ends, omega arith, over)
  ]

-- A lifecycle request is answered. Let the clock show at least 250 milliseconds more at each test of
-- the loop, since it sleeps in between. With as many tests as fit into the time that the request
-- waits, and one more, the endpoint returns: with what the submission has raised, or with the job as
-- it stands when nobody waits, the job has ended or the deadline is over.
pub core_lifecycle-returns :
    {D : Type 0} (str_lower : String → String) (host : Host) (fuel : ℕ) (clock : ℕ → ℕ)
    (world : ℕ → Plant D → Plant D) (before after : ℤ) (now : ℕ) (uuid core_id : String)
    (body : CoreActionBody) (wait : ℤ) (s : Plant D)
    → ((k : ℕ) → clock k + 250 ≤ clock (suc k))
    → patience wait body.action ≤ fuel * 250
    → let (r, s1) = request str_lower host before now uuid core_id body s in
      let result =
        core_lifecycle str_lower host
          (suc fuel)
          clock
          world
          (before, after)
          now
          uuid
          core_id
          body
          wait
          s in
      ((e : Error) × (r ≡ err e) × (result ≡ some (err e, s1)))
      ⊎ ((job : Job) × (k : ℕ) × (r ≡ ok job)
          × (k ≤ fuel)
          × (result
              ≡ some (answered after core_id body.action (seen job (world k s1).jobs) (world k s1)))
          × IsOver wait
              (clock 0 + patience wait body.action)
              clock
              (λ n. seen job (world n s1).jobs)
              k)
unfolding core_lifecycle
core_lifecycle-returns str_lower host fuel clock world before after now uuid core_id body wait s
      ticks room =
    let (r, s1) = request str_lower host before now uuid core_id body s in
    elim (Result-cases r) [
      | inr (e, refused) ↦ inl (e, refused, rw (refused, core_lifecycle) refl)
      | inl (job, accepted) ↦
          let (k, ends, bound, over) =
            watch-returns wait (clock 0 + patience wait body.action) clock
              (λ n. seen job (world n s1).jobs) fuel 0 ticks (omega arith) in
          let bound' : k ≤ fuel = omega arith in
          inr (
            job,
            k,
            accepted,
            bound',
            core_lifecycle_watched str_lower host (suc fuel) clock world before after now uuid
                core_id body wait s job k accepted ends,
            over,
          )
    ]
