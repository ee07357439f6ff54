-- ===== src/Security/Identity/OneTime.antt =====
-- What happens to an identity while no new token is installed: attempts to register, revocations,
-- and restarts of the process without a registration hash in its environment.
use rc_node.Security.Identity.Registration.{token_hash}
use rc_node.Security.Identity.{
  token_matches, decide_registration, is_nonempty, root_of, ℤ, init, Bytes, revoke,
  NodeIdentityStore, register,
}
use rc_node.Base.{
  Bool-cases, inl, inr, ◌≢◌, refl, ℕ, ◌+◌, ◌≤◌, String, ◌≡◌, Bool, true, false, none, List, [], ◌∷◌,
  arith, if◌then◌else◌, string_eq, nat_eq, Result, ok, err,
}
use rc_node.Security.Signature.{Hashes}
use rc_node.Security.Cipher.{Cipher}

module _ (cipher : Cipher) (hashes : Hashes) where
  pub data Op : Type 0 where
    attempt : String → String → Bytes → Bytes → ℤ → Op
    unpair : ℤ → Op
    restart : Bytes → String → Op

  count : Result Bytes × NodeIdentityStore → ℕ × NodeIdentityStore
  count (ok key, s) = (1, s)
  count (err e, s) = (0, s)

  -- The number of registrations that one operation completes. A node that cannot start changes
  -- nothing.
  step : Op → NodeIdentityStore → ℕ × NodeIdentityStore
  unfolding count
  step (attempt token panel_id key seed now) s =
      count (register cipher hashes token panel_id key seed now s)
  step (unpair now) s = (0, (revoke now s).1)
  step (restart urandom token_hex) s = elim (init none urandom token_hex (root_of s)) [
    | ok s' ↦ (0, s')
    | err e ↦ (0, s)
  ]

  pub registrations : List Op → NodeIdentityStore → ℕ
  registrations [] s = 0
  registrations (op ∷ ops) s = let (n, s') = step op s in n + registrations ops s'

  pending : NodeIdentityStore → ℕ
  pending s = if is_nonempty s.state.registration_token_hash then 1 else 0

  not_ok_false : ◌≢◌ {A = Result Bool} (ok false) (ok true)
  not_ok_false h = cc

  -- A registration that returns uses up the pending token; one that raises changes nothing.
  abbrev Progress : NodeIdentityStore → Result Bytes × NodeIdentityStore → Type 0
  Progress s (ok key, s') = (pending s ≡ 1) × (pending s' ≡ 0)
  Progress s (err e, s') = s' ≡ s

  decide-Progress :
      (r : Result Bool) (panel_id : String) (key seed : Bytes) (now : ℤ) (s : NodeIdentityStore)
      → (r ≡ ok true → is_nonempty s.state.registration_token_hash ≡ true)
      → Progress s (decide_registration cipher r panel_id key seed now s)
  unfolding decide_registration pending
  decide-Progress (ok true) panel_id key seed now s h = (rw (h refl), refl)
  decide-Progress (ok false) panel_id key seed now s h = refl
  decide-Progress (err e) panel_id key seed now s h = refl

  matched :
      (expected actual : String)
      → token_matches expected actual ≡ ok true
      → is_nonempty expected ≡ true
  unfolding token_matches
  matched expected actual h = elim (Bool-cases (is_nonempty expected)) [
    | inl p ↦ p
    | inr n ↦ absurd (not_ok_false (rw n at h))
  ]

  register-Progress :
      (token panel_id : String) (key seed : Bytes) (now : ℤ) (s : NodeIdentityStore)
      → Progress s (register cipher hashes token panel_id key seed now s)
  unfolding register
  register-Progress token panel_id key seed now s =
      decide-Progress _ panel_id key seed now s
        (matched s.state.registration_token_hash (token_hash hashes token))

  count-pending :
      (s : NodeIdentityStore) (r : Result Bytes × NodeIdentityStore)
      → Progress s r
      → (count r).0 + pending (count r).1 ≤ pending s
  unfolding count
  count-pending s (ok key, s') (p, q) = omega arith
  count-pending s (err e, s') p = rw p (omega arith)

  step-pending :
      (op : Op) (s : NodeIdentityStore) → (step op s).0 + pending (step op s).1 ≤ pending s
  unfolding step
  step-pending (attempt token panel_id key seed now) s =
      count-pending s _ (register-Progress token panel_id key seed now s)
  step-pending (unpair now) s = unfold revoke pending in omega arith
  step-pending (restart urandom token_hex) s = unfold init pending in ground arith

  registrations-le-pending :
      (ops : List Op) (s : NodeIdentityStore) → registrations ops s ≤ pending s
  unfolding registrations
  registrations-le-pending [] s = omega arith
  registrations-le-pending (op ∷ ops) s =
      omega (arith, step-pending op s, registrations-le-pending ops (step op s).1)

  -- One token registers at most one panel: of all attempts, whatever their tokens, with revocations
  -- and restarts without a registration hash between them, at most one returns a key.
  pub one_registration : (ops : List Op) (s : NodeIdentityStore) → registrations ops s ≤ 1
  unfolding pending
  one_registration ops s = ground (arith, registrations-le-pending ops s)
