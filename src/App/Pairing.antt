-- ===== src/App/Pairing.antt =====
-- `POST /v1/register`, `POST /v1/revoke` and `GET /v1/audit` of node_agent/app.py.
pub mod Session
use rc_node.Base.{
  ◌>>◌, ◌>>=◌, Error, ℕ, String, Bool, ◌&&◌, ◌||◌, not, List, if◌then◌else◌, leb, ◌==◌, string_eq,
  nat_eq, length, Result, ok, err, Exec, http_exception, security_error, modify, gets,
}
use rc_node.Security.Identity.{audit_tail, revoke, register, AuditRow, NodeIdentityStore}
use rc_node.App.Auth.{signed_request, Request, Agent}
use rc_node.Base.Base64.{b64encode}
use rc_node.Base.Int.{negsuc, pos, ℤ}
use rc_node.Security.Signature.{Hashes, Bytes}
use rc_node.Security.Cipher.{Cipher}
use rc_node.Base.Text

pub record RegisterBody : Type 0 where
  pub panel_id : String
  pub registration_token : String

-- The characters of the pattern `^[A-Za-z0-9._-]+$`.
panel_char : ℕ → Bool
panel_char c =
    (leb 65 c && leb c 90)
    || (leb 97 c && leb c 122)
    || (leb 48 c && leb c 57)
    || (leb 45 c && leb c 46)
    || (leb 95 c && leb c 95)

-- The field constraints of `RegisterBody`; a body that breaks them is answered 422.
unfoldable pub valid_body : RegisterBody → Bool
unfolding panel_char
valid_body b =
    leb 8 (Text.length b.panel_id)
    && leb (Text.length b.panel_id) 128
    && Text.all panel_char b.panel_id
    && leb 16 (Text.length b.registration_token)
    && leb (Text.length b.registration_token) 512

-- The fields of the answer that are not constants.
pub record Registered : Type 0 where
  pub node_id : String
  pub signing_key : String

-- `except NodeSecurityError as exc: raise HTTPException(401, str(exc))`
refuse_registration : Error → Error
refuse_registration (security_error s) = http_exception 401 s
refuse_registration e = e

answer : Result Bytes × NodeIdentityStore → Agent → Result Registered × Agent
unfolding refuse_registration
answer (ok key, s) a = (
  ok (record { node_id = s.state.node_id; signing_key = b64encode key }),
  record a { identity = s },
)
answer (err e, s) a = (err (refuse_registration e), record a { identity = s })

-- `max(1, min(limit, 500))`
clamp : ℤ → ℤ
clamp (pos n) = pos (if leb n 0 then 1 else if leb n 500 then n else 500)
clamp (negsuc n) = pos 1

module _ (cipher : Cipher) (hashes : Hashes) where
  -- `register`, behind the validation of its body. `key` and `seed` are random.
  unfoldable pub register_node :
      Bool → String → RegisterBody → Bytes → Bytes → ℤ → Exec Agent Registered
  unfolding answer valid_body
  register_node allow_insecure_test scheme body key seed now a =
      if not (valid_body body)
      then (err (http_exception 422 "validation error"), a)
      else if not (scheme == "https") && not allow_insecure_test
      then (err (http_exception 400 "node registration requires HTTPS"), a)
      else answer
          (register cipher hashes body.registration_token body.panel_id key seed now a.identity) a

  -- `revoke`: the signed request, then the store's `revoke`.
  unfoldable pub revoke_node : Request → ℤ → Bool → Exec Agent Unit
  revoke_node r now writable = do
    signed_request cipher hashes r now writable
    modify (λ a. record a { identity = (revoke now a.identity).1 })

  -- `audit`, with its limit kept between 1 and 500.
  unfoldable pub audit_entries : Request → ℤ → Bool → ℤ → Exec Agent (List AuditRow)
  unfolding clamp
  audit_entries r now writable limit = do
    signed_request cipher hashes r now writable
    gets (λ a. audit_tail (clamp limit) a.identity)
