-- ===== src/Security/Signature/Verify.antt =====
-- What `verify_signature` accepts, and how it fails.
use rc_node.Base.{
  ◌≡◌, ◌↔◌, ◌≢◌, ok, err, arith, String, true, false, security_error, type_error, string_eq,
}
use rc_node.Base.Text.{is_ascii}
use rc_node.Security.Signature.{Bytes, Hashes, signature, verify_signature}

module _ (hashes : Hashes) (key : Bytes) (provided method path timestamp nonce : String)
    (body : Bytes) where
  abbrev expected : String
  expected = signature hashes key method path timestamp nonce body

  -- For an HMAC in ASCII digits, `verify_signature` returns exactly when the signature provided is
  -- the HMAC of the request; a wrong signature is a `NodeSecurityError` if it is ASCII, and a
  -- TypeError if it is not.
  pub verify_signature-outcome :
      is_ascii expected ≡ true
      → ((verify_signature hashes key provided method path timestamp nonce body ≡ ok tt)
          ↔ (provided ≡ expected))
        × (provided ≢ expected
            → is_ascii provided ≡ true
            → verify_signature hashes key provided method path timestamp nonce body
              ≡ err (security_error "invalid request signature"))
        × (is_ascii provided ≡ false
            → verify_signature hashes key provided method path timestamp nonce body
              ≡ err type_error)
  unfolding verify_signature
  verify_signature-outcome a = ground arith
