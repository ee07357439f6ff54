-- ===== src/App/Shaping.antt =====
-- `PUT /v1/bandwidth/limits` and `GET /v1/bandwidth/status` of node_agent/app.py, behind their signed
-- requests.
pub mod Answers
use rc_node.Base.{
  Exec, ℕ, String, Bool, true, false, Option, some, [], ◌∷◌, if◌then◌else◌, string_eq, nat_eq,
  Result, ok, err, http_exception,
}
use rc_node.Base.Int.{ℤ, pos}
use rc_node.Base.Json.{Json}
use rc_node.Base.Dict.{Dict}
use rc_node.Base.Text.{is_nonempty}
use rc_node.Security.Identity.{NodeIdentityStore, audit}
use rc_node.Limits
use rc_node.Limits.{NodeBandwidthLimiter, Applied, refused, applied}
use rc_node.Limits.Users.{Host}

pub record Shaper : Type 0 where
  pub identity : NodeIdentityStore
  pub limiter : NodeBandwidthLimiter

-- `identity.audit("bandwidth.apply", ...)`
abbrev pub note : ℤ → ℕ → Bool → NodeIdentityStore → NodeIdentityStore
note now limited done identity =
    (audit now "bandwidth.apply"
      (("limited_users", Json.number (pos limited)) ∷ ("ok", Json.boolean done) ∷ []) identity).1

-- The endpoint behind `limiter.apply`
unfoldable pub answer_limits :
    ℤ → Result Applied → NodeIdentityStore → NodeBandwidthLimiter → Result Applied × Shaper
answer_limits now (err e) identity limiter =
    (err e, record { identity = identity; limiter = limiter })
answer_limits now (ok (refused text limited)) identity limiter = (
  err (http_exception 409 (if is_nonempty text then text else "bandwidth apply failed")),
  record { identity = note now limited false identity; limiter = limiter },
)
answer_limits now (ok (applied interface limited users counts sources)) identity limiter = (
  ok (applied interface limited users counts sources),
  record { identity = note now limited true identity; limiter = limiter },
)

-- `bandwidth_limits`. The flag says whether the file system takes the write.
unfoldable pub bandwidth_limits : Host → Bool → ℤ → Dict String Json → Exec Shaper Applied
unfolding answer_limits
bandwidth_limits host writable now limits s =
    let (r, limiter) = Limits.apply host writable (some limits) s.limiter in
    answer_limits now r s.identity limiter

-- `bandwidth_status`
unfoldable pub bandwidth_status : Shaper → Result (String × ℕ × ℕ × Option String)
bandwidth_status s = Limits.status s.limiter
