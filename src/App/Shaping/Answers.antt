-- ===== src/App/Shaping/Answers.antt =====
-- A push of limits that can be read is answered.
use rc_node.Base.{
  Bool, if◌then◌else◌, ℕ, String, ◌≡◌, refl, ap, ◌∙◌, ◌⊎◌, inl, inr, true, false, some, string_eq,
  nat_eq, All, Result, ok, err, http_exception,
}
use rc_node.Base.Int.{ℤ}
use rc_node.Base.Json.{Json}
use rc_node.Base.Dict.{Dict, values}
use rc_node.Security.Identity.{NodeIdentityStore}
use rc_node.Limits
use rc_node.Limits.{NodeBandwidthLimiter, Applied, refused, applied, init, load}
use rc_node.Limits.Users.{Host, specs}
use rc_node.Limits.Returns.{IsReadable, apply-returns}
use rc_node.App.Shaping.{Shaper, note, answer_limits, bandwidth_limits}

-- The answer is 200 or 409, and the audit log says which.
abbrev pub IsAnswer : ℤ → NodeIdentityStore → Result Applied × Shaper → Type 0
IsAnswer now identity (r, s) =
    (limited : ℕ) × (((a : Applied) × (r ≡ ok a) × (s.identity ≡ note now limited true identity))
      ⊎ ((text : String) × (r ≡ err (http_exception 409 text))
          × (s.identity ≡ note now limited false identity)))

answer_limits-IsAnswer :
    (now : ℤ) (a : Applied) (identity : NodeIdentityStore) (limiter : NodeBandwidthLimiter)
    → IsAnswer now identity (answer_limits now (ok a) identity limiter)
      × ((answer_limits now (ok a) identity limiter).1.limiter ≡ limiter)
unfolding answer_limits
answer_limits-IsAnswer now (refused text limited) identity limiter =
    ((limited, inr (_, refl, refl)), refl)
answer_limits-IsAnswer now (applied interface limited users counts sources) identity limiter =
    ((limited, inl (_, refl, refl)), refl)

-- A push of limits whose rates are integers and whose accounts have keys is answered with 200 or
-- 409, and with one row of the audit log that says which, whether the drivers raise or not, whatever
-- identities they give in the shape that the base class documents, whatever the panel's library
-- does, and whether the limits can be written or not. The limiter then has the pushed limits. The
-- limiter of the next start has them too if they were written, and those of before if that failed.
pub bandwidth_limits-IsAnswer :
    (host : Host) (writable : Bool) (now : ℤ) (limits : Dict String Json) (s : Shaper)
    → All (IsReadable host) (values (specs limits))
    → let (r, s') = bandwidth_limits host writable now limits s in
      IsAnswer now s.identity (r, s')
      × (s'.limiter.limits ≡ limits)
      × ((load (init s.limiter.interface s'.limiter.file)).limits
          ≡ (if writable then limits else (load (init s.limiter.interface s.limiter.file)).limits))
unfolding bandwidth_limits
bandwidth_limits-IsAnswer host writable now limits s readable =
    let (a, answers, kept, stored) = apply-returns host limits writable s.limiter readable in
    let l = (Limits.apply host writable (some limits) s.limiter).1 in
    let (answered, same) = answer_limits-IsAnswer now a s.identity l in
    rw answers (
      answered,
      ap (λ (x : NodeBandwidthLimiter). x.limits) same ∙ kept,
      ap (λ (x : NodeBandwidthLimiter). (load (init s.limiter.interface x.file)).limits) same
          ∙ stored,
    )
