-- ===== src/App/Auth.antt =====
-- `signed_request` of node_agent/app.py, the dependency of every endpoint but `POST /v1/register`.
pub mod Outcome
pub mod Refusals
pub mod Replays
use rc_node.Security.Signature.{verify_signature, Hashes, Bytes}
use rc_node.Security.Identity.{signing_key, NodeIdentityStore}
use rc_node.Base.Text.{int, is_nonempty}
use rc_node.Base.{
  security_error, value_error, Error, http_exception, ℕ, String, Bool, ◌&&◌, not, Option, none,
  some, if◌then◌else◌, ◌==◌, string_eq, nat_eq, Result, ok, err, Exec,
}
use rc_node.Security.Replay.{accept, ReplayGuard}
use rc_node.Security.Cipher.{Cipher}
use rc_node.Base.Int.{ℤ}

pub record Agent : Type 0 where
  pub identity : NodeIdentityStore
  pub replays : ReplayGuard

-- What `signed_request` reads of a request. Header texts are decoded as latin-1.
pub record Request : Type 0 where
  pub scheme : String
  pub method : String
  pub path : String
  pub body : Bytes
  pub x_zagros_node : Option String
  pub x_zagros_timestamp : Option String
  pub x_zagros_nonce : Option String
  pub x_zagros_signature : Option String

-- The four headers, all there and none of them empty.
pub record Credentials : Type 0 where
  pub node : String
  pub timestamp : String
  pub nonce : String
  pub signature : String

-- `all((…))`
unfoldable pub credentials : Request → Option Credentials
credentials r = elim r.x_zagros_node [
  | none ↦ none
  | some n ↦ elim r.x_zagros_timestamp [
    | none ↦ none
    | some t ↦ elim r.x_zagros_nonce [
      | none ↦ none
      | some o ↦ elim r.x_zagros_signature [
        | none ↦ none
        | some s ↦
            if is_nonempty n && is_nonempty t && is_nonempty o && is_nonempty s
            then some (record { node = n; timestamp = t; nonce = o; signature = s })
            else none
      ]
    ]
  ]
]

-- The status of a response: FastAPI answers an exception other than HTTPException with 500.
unfoldable pub error_status : Error → ℕ
error_status (http_exception code detail) = code
error_status e = 500

unfoldable pub status {ℓ} : {A : Type ℓ} → Result A → ℕ
unfolding error_status
status (ok a) = 200
status (err e) = error_status e

-- `except (ValueError, NodeSecurityError) as exc: raise HTTPException(401, str(exc))`
unfoldable pub unauthorized : Error → Error
unauthorized (value_error s) = http_exception 401 s
unauthorized (security_error s) = http_exception 401 s
unauthorized e = e

abbrev accept_as :
    Request → Credentials → Result (Unit {0}) × ReplayGuard → Agent → Result String × Agent
accept_as r c (ok _, g) a = (ok c.node, record a { replays = g })
accept_as r c (err e, g) a = (err (unauthorized e), record a { replays = g })

-- The call `replays.accept`, behind a verified signature.
consume : Request → Credentials → ℤ → ℤ → Bool → Exec Agent String
unfolding unauthorized
consume r c timestamp now writable a =
    accept_as r c (accept c.nonce timestamp now writable a.replays) a

module _ (cipher : Cipher) (hashes : Hashes) where
  -- The body of the `try`.
  pub verify : Request → Credentials → Bytes → ℤ → Bool → Exec Agent String
  unfolding unauthorized consume
  verify r c key now writable a = elim (int c.timestamp) [
    | none ↦ (err (unauthorized (value_error "invalid literal for int()")), a)
    | some timestamp ↦
        elim (verify_signature hashes key c.signature r.method r.path c.timestamp c.nonce r.body) [
          | err e ↦ (err (unauthorized e), a)
          | ok _ ↦ consume r c timestamp now writable a
        ]
  ]

  -- Behind the test of the headers.
  authenticate : Request → Credentials → ℤ → Bool → Exec Agent String
  unfolding verify
  authenticate r c now writable a = elim (signing_key cipher a.identity) [
    | err e ↦ (err e, a)
    | ok none ↦ (err (http_exception 401 "node is not registered for this signer"), a)
    | ok (some key) ↦
        if c.node == a.identity.state.node_id
        then verify r c key now writable a
        else (err (http_exception 401 "node is not registered for this signer"), a)
  ]

  -- `now` is the clock at the replay test, and the flag says whether its write succeeds.
  unfoldable pub signed_request : Request → ℤ → Bool → Exec Agent String
  unfolding authenticate credentials
  signed_request r now writable a = elim (credentials r) [
    | none ↦ (err (http_exception 401 "missing signature headers"), a)
    | some c ↦ authenticate r c now writable a
  ]
