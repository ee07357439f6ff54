-- ===== src/Security/Signature.antt =====
-- The request signature of node_agent/security.py. SHA-256 and HMAC-SHA256 are functions of the
-- interpreter's C library, and stand as parameters about which nothing is assumed.
pub mod Canonical
pub mod Verify
use Prim.Native.Nat.{ℕ, ◌-◌}
use rc_node.Base.{
  Bool, ◌&&◌, String, List, ◌∷◌, ◌++◌, map, leb, if◌then◌else◌, string_eq, ◌==◌, Result, ok, err,
  security_error, type_error,
}
use rc_node.Base.Text.{is_ascii}
use rc_node.Base.Text.Codes.{codes, utf8}

abbrev pub Bytes : Type 0
Bytes = List ℕ

pub record Hashes : Type 0 where
  pub sha256_hex : Bytes → String  -- hashlib.sha256(b).hexdigest()
  pub hmac_sha256_hex : Bytes → Bytes → String  -- hmac.new(key, b, sha256).hexdigest()

-- `hmac.compare_digest` of two `str`: it raises a TypeError unless both are ASCII.
unfoldable pub compare_digest : String → String → Result Bool
compare_digest a b = if is_ascii a && is_ascii b then ok (a == b) else err type_error

-- `method.upper()`; an HTTP method is an ASCII token.
unfoldable pub upper : ℕ → ℕ
upper c = if leb 97 c && leb c 122 then c - 32 else c

module _ (hashes : Hashes) where
  unfoldable pub body_hash : Bytes → String
  body_hash body = hashes.sha256_hex body

  unfoldable pub canonical_request : String → String → String → String → Bytes → Bytes
  unfolding body_hash
  canonical_request method path timestamp nonce body = utf8 (
      map upper (codes method)
      ++ 10
        ∷ (codes path
            ++ 10 ∷ (codes timestamp ++ 10 ∷ (codes nonce ++ 10 ∷ codes (body_hash body)))))

  unfoldable pub signature : Bytes → String → String → String → String → Bytes → String
  signature key method path timestamp nonce body =
      hashes.hmac_sha256_hex key (canonical_request method path timestamp nonce body)

  unfoldable pub verify_signature :
      Bytes → String → String → String → String → String → Bytes → Result (Unit {0})
  unfolding compare_digest
  verify_signature key provided method path timestamp nonce body =
      let expected = signature key method path timestamp nonce body in
      elim (compare_digest expected provided) [
        | err e ↦ err e
        | ok same ↦ if same then ok tt else err (security_error "invalid request signature")
      ]
