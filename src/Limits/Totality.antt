-- ===== src/Limits/Totality.antt =====
-- When `apply` returns, and what it leaves for the next start.
use rc_node.Base.{
  String, ◌≡◌, refl, ap, ◌∙◌, inl, inr, true, none, some, [], ◌∷◌, arith, Option-cases, string_eq,
  nat_eq, err, Error, Result-cases,
}
use rc_node.Limits.{
  LimitsFile, NodeBandwidthLimiter, init, load, store, is_limited, count_limited, limited_count,
  applied_status, refused_status, reconcile, apply, status, content,
}
use rc_node.Limits.Users.{Host, int_or_zero, specs}
use rc_node.Base.Dict.{Dict, lookup}
use rc_node.Base.Json.{Json, Fields, get_json, as_dict, entries, of_entries, entries-of_entries}
use rc_node.Base.Json.Json.{object}

is_limited-err :
    (spec : Dict String Json) (e : Error)
    → int_or_zero (get_json "upload_mbps" spec) ≡ err e
    → is_limited spec ≡ err e
unfolding is_limited
is_limited-err spec e h = rw (h, is_limited) refl

-- A rate that cannot be read makes the count raise.
count_limited-err :
    (raw_id : String) (fields : Fields) (limits : Dict String Json) (e : Error)
    → lookup raw_id limits ≡ some (object fields)
    → int_or_zero (get_json "upload_mbps" (entries fields)) ≡ err e
    → (e' : Error) × (count_limited (specs limits) ≡ err e')
unfolding count_limited specs
count_limited-err raw_id fields [] e h bad = absurd (ground arith)
count_limited-err raw_id fields ((k, spec) ∷ limits) e h bad = elim (string_eq.dec raw_id k) [
  | yes here ↦
      let same : spec ≡ object fields = ground arith in
      let one = is_limited-err (entries fields) e bad in (e, ground arith)
  | no later ↦
      let (e', rest) = count_limited-err raw_id fields limits e (ground arith) bad in
      elim (Option-cases (as_dict spec)) [
        | inl skipped ↦ (e', ground arith)
        | inr (d, counted) ↦ elim (Result-cases (is_limited d)) [
          | inl (b, one) ↦ (e', ground arith)
          | inr (e'', one) ↦ (e'', ground arith)
        ]
      ]
]

-- What is restored at a start is what was stored.
pub load-stored :
    (interface : String) (limits : Dict String Json)
    → (load (init interface (content (object (of_entries limits))))).limits ≡ limits
unfolding load
load-stored interface limits = entries-of_entries limits

module _ (host : Host) where
  reconcile-err :
      (s : NodeBandwidthLimiter) (e : Error)
      → limited_count s ≡ err e
      → (reconcile host s).0 ≡ err e
  unfolding reconcile applied_status refused_status
  reconcile-err s e h = ground arith

  limited_count-eq :
      (s : NodeBandwidthLimiter) (limits : Dict String Json) (e : Error)
      → s.limits ≡ limits
      → count_limited (specs limits) ≡ err e
      → limited_count s ≡ err e
  unfolding limited_count
  limited_count-eq s limits e h count = rw h count

  status-err : (s : NodeBandwidthLimiter) (e : Error) → limited_count s ≡ err e → status s ≡ err e
  unfolding status
  status-err s e h = ground arith

  pub reconcile-kept :
      (s : NodeBandwidthLimiter)
      → ((reconcile host s).1.limits ≡ s.limits) × ((reconcile host s).1.file ≡ s.file)
  unfolding reconcile
  reconcile-kept s = ground arith

  -- The limiter, when it has taken and stored the pushed limits.
  abbrev pub given : Dict String Json → NodeBandwidthLimiter → NodeBandwidthLimiter
  given limits s = record s { limits = limits; file = content (object (of_entries limits)) }

  pub apply-given :
      (limits : Dict String Json) (s : NodeBandwidthLimiter)
      → apply host true (some limits) s ≡ reconcile host (given limits s)
  unfolding apply store
  apply-given limits s = refl

  apply-none : (s : NodeBandwidthLimiter) → apply host true none s ≡ reconcile host s
  unfolding apply
  apply-none s = refl

  pub apply-kept :
      (limits : Dict String Json) (s : NodeBandwidthLimiter)
      → ((apply host true (some limits) s).1.limits ≡ limits)
        × ((apply host true (some limits) s).1.file ≡ content (object (of_entries limits)))
  apply-kept limits s = rw (apply-given limits s) (reconcile-kept (given limits s))

  -- One pushed spec whose upload rate cannot be read as an integer, under any key, makes `apply`
  -- raise whatever the panel's library answers. The limits have been taken by then, so that `status`
  -- raises from then on, and where their write has succeeded, as it does here, the first `apply` of
  -- the next start raises too.
  pub apply-raises :
      (raw_id : String) (fields : Fields) (limits : Dict String Json) (e : Error)
      (s : NodeBandwidthLimiter)
      → lookup raw_id limits ≡ some (object fields)
      → int_or_zero (get_json "upload_mbps" (entries fields)) ≡ err e
      → let s' = (apply host true (some limits) s).1 in
        (e' : Error) × ((apply host true (some limits) s).0 ≡ err e')
        × (status s' ≡ err e')
        × ((apply host true none (load (init s.interface s'.file))).0 ≡ err e')
  apply-raises raw_id fields limits e s h bad =
      let (e', count) = count_limited-err raw_id fields limits e h bad in
      let (same, stored) = apply-kept limits s in
      let s' = (apply host true (some limits) s).1 in
      let restored = ap (λ (f : LimitsFile). load (init s.interface f)) stored in
      (
        e',
        rw (apply-given limits s) (
            reconcile-err (given limits s) e'
              (limited_count-eq (given limits s) limits e' refl count)),
        status-err s' e' (limited_count-eq s' limits e' same count),
        rw (apply-none (load (init s.interface s'.file))) (
            reconcile-err (load (init s.interface s'.file)) e' (
              limited_count-eq (load (init s.interface s'.file)) limits e'
                (ap (λ (x : NodeBandwidthLimiter). x.limits) restored
                  ∙ load-stored s.interface limits)
                count)),
      )
