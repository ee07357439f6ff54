-- ===== src/Limits/Returns.antt =====
-- Limits that can be read are applied and survive a restart.
use rc_node.Limits.{
  LimitsFile, store, desired, NodeBandwidthLimiter, Applied, init, load, is_limited, count_limited,
  limited_count, wanted_by, wanted_onto, identity_map, applied_status, refused_status, reconcile,
  apply, found,
}
use rc_node.Base.{
  false, ap, ℕ, suc, String, ◌≡◌, refl, inl, inr, Bool, true, some, List, [], ◌∷◌, arith,
  if◌then◌else◌, string_eq, nat_eq, All, ok, Error, Result-cases,
}
use rc_node.Limits.Totality.{reconcile-kept, given, apply-given, apply-kept, load-stored}
use rc_node.Limits.Users.{Host, int_or_zero, specs, add_all}
use rc_node.Base.Int.{ℤ}
use rc_node.Base.Dict.{Dict, values}
use rc_node.Base.Json.{Json, get_json}

module _ (host : Host) where
  -- Both rates are integers, and the accounts have keys.
  pub record IsReadable (spec : Dict String Json) : Type 0 where
    pub up : ℤ
    pub down : ℤ
    pub cores : List String
    pub up_read : int_or_zero (get_json "upload_mbps" spec) ≡ ok up
    pub down_read : int_or_zero (get_json "download_mbps" spec) ≡ ok down
    pub cores_read : wanted_by host spec ≡ ok cores

  is_limited-ok :
      (spec : Dict String Json) → IsReadable spec → (b : Bool) × (is_limited spec ≡ ok b)
  unfolding is_limited
  is_limited-ok spec r =
      let up = r.up_read in
      let down = r.down_read in
      elim (Result-cases (is_limited spec)) [
        | inl found ↦ found
        | inr (e, bad) ↦ absurd (ground arith)
      ]

  count_limited-ok :
      (limits : Dict String (Dict String Json))
      → All IsReadable (values limits)
      → (n : ℕ) × (count_limited limits ≡ ok n)
  unfolding count_limited
  count_limited-ok [] h = (0, refl)
  count_limited-ok ((raw_id, spec) ∷ limits) (r, h) =
      let (b, one) = is_limited-ok spec r in
      let (n, rest) = count_limited-ok limits h in (if b then suc n else n, rw (one, rest) refl)

  wanted_onto-ok :
      (wanted : List String) (limits : Dict String (Dict String Json))
      → All IsReadable (values limits)
      → (cores : List String) × (wanted_onto host wanted limits ≡ ok cores)
  unfolding wanted_onto
  wanted_onto-ok wanted [] h = (wanted, refl)
  wanted_onto-ok wanted ((raw_id, spec) ∷ limits) (r, h) =
      let (cores, rest) = wanted_onto-ok (add_all r.cores wanted) limits h in
      let one = r.cores_read in (cores, ground arith)

  applied_status-ok :
      (users : ℕ) (s : NodeBandwidthLimiter)
      → All IsReadable (values (specs s.limits))
      → (r : Applied) × (applied_status host users s ≡ ok r)
  unfolding applied_status limited_count identity_map
  applied_status-ok users s h =
      let (n, count) = count_limited-ok (specs s.limits) h in
      let (cores, wanted) = wanted_onto-ok [] (specs s.limits) h in
      elim (Result-cases (applied_status host users s)) [
        | inl found ↦ found
        | inr (e, bad) ↦ absurd (ground arith)
      ]

  refused_status-ok :
      (e : Error) (s : NodeBandwidthLimiter)
      → All IsReadable (values (specs s.limits))
      → (r : Applied) × (refused_status host e s ≡ ok r)
  unfolding refused_status limited_count
  refused_status-ok e s h =
      let (n, count) = count_limited-ok (specs s.limits) h in
      elim (Result-cases (refused_status host e s)) [
        | inl found ↦ found
        | inr (e', bad) ↦ absurd (ground arith)
      ]

  reconcile-ok :
      (s : NodeBandwidthLimiter)
      → All IsReadable (values (specs s.limits))
      → (r : Applied) × ((reconcile host s).0 ≡ ok r)
  unfolding reconcile
  reconcile-ok s h = elim (Result-cases (host.reconcile s.interface (desired host s))) [
    | inl ((users, last_error), e) ↦
        let (r, answered) = applied_status-ok users s h in (r, ground arith)
    | inr (x, e) ↦ let (r, answered) = refused_status-ok x s h in (r, ground arith)
  ]

  apply-unwritten :
      (limits : Dict String Json) (s : NodeBandwidthLimiter)
      → apply host false (some limits) s ≡ reconcile host (record s { limits = limits })
  unfolding apply store
  apply-unwritten limits s = refl

  -- Where both rates of every spec are integers and its accounts have keys, `apply` returns a
  -- status; the limits are then the pushed ones, and a restart loads them if their write succeeded,
  -- and those of before if it failed.
  pub apply-returns :
      (limits : Dict String Json) (writable : Bool) (s : NodeBandwidthLimiter)
      → All IsReadable (values (specs limits))
      → let s' = (apply host writable (some limits) s).1 in
        (r : Applied) × ((apply host writable (some limits) s).0 ≡ ok r)
        × (s'.limits ≡ limits)
        × ((load (init s.interface s'.file)).limits
            ≡ (if writable then limits else (load (init s.interface s.file)).limits))
  apply-returns limits true s h =
      let (r, e) = reconcile-ok (given host limits s) h in
      let (same, stored) = apply-kept host limits s in
      (r, rw (apply-given host limits s) e, same, rw stored (load-stored s.interface limits))
  apply-returns limits false s h =
      let pushed = record s { limits = limits } in
      let (r, e) = reconcile-ok pushed h in
      let (same, kept) = reconcile-kept host pushed in
      rw (apply-unwritten limits s)
        (r, e, same, ap (λ (file : LimitsFile). (load (init s.interface file)).limits) kept)
