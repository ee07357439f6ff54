-- ===== src/Examples/Auth.antt =====
-- One node and one request, through the endpoints.
use rc_node.Base.{
  String, ◌≡◌, refl, ap, ◌∙◌, ◌≢◌, ◌↔◌, true, false, some, [], ◌∷◌, arith, ◌==◌, string_eq, nat_eq,
  ok, err, type_error,
}
use rc_node.Security.Identity.{seal_signing_key, register, signing_key}
use rc_node.Base.Text.{is_nonempty, is_ascii, int, isalnum}
use rc_node.App.Auth.{Credentials, Agent, signed_request, status, credentials}
use rc_node.Base.Int.{pos, ◌-ℤ◌}
use rc_node.Base.Base64.{b64encode, b64decode}
use rc_node.Base.Text.Codes.{codes, utf8}
use rc_node.Security.Signature.{
  Bytes, signature, canonical_request, upper, body_hash, verify_signature,
}
use rc_node.Security.Replay.{accept}
use rc_node.Security.Replay.Trace
use rc_node.App.Auth.Outcome.{IsAuthentic, signed_request-ok_iff}
use rc_node.App.Auth.Refusals.{IsSigned, signed_request-state, signed_request-non_ascii}
use rc_node.App.Auth.Replays.{captured_request_refused}
use rc_node.App.Pairing.{register_node, revoke_node}
use rc_node.App.Pairing.Session.{register-signed_request}
use rc_node.Examples.Data.{
  hashes, cipher, cipher-Opens, key, node, body, nonce, request, credentials_of,
}

hex : (k message : Bytes) → is_ascii (hashes.hmac_sha256_hex k message) ≡ true
hex k [] = refl
hex k (b ∷ bs) = refl

abbrev paired : Agent
paired = (register_node cipher hashes false "https" body key [] (pos 5) node).1

registers :
    (register_node cipher hashes false "https" body key [] (pos 5) node).0
    ≡ ok (record { node_id = "node1"; signing_key = b64encode key })
unfolding register_node register codes utf8 string_eq
registers = refl

unseals : signing_key cipher paired.identity ≡ ok (some key)
unfolding register_node register codes utf8 string_eq signing_key b64encode b64decode nat_eq
    seal_signing_key
unseals = refl

sends : (s : String) → is_nonempty s ≡ true → credentials (request s) ≡ some (credentials_of s)
unfolding credentials
sends s h = rw h

lets_through :
    (signed_request cipher hashes (request "d19e57") (pos 1010) true paired).0 ≡ ok "node1"
unfolding signed_request register_node register codes utf8 string_eq signing_key b64encode b64decode
    nat_eq seal_signing_key credentials verify_signature signature canonical_request upper body_hash
    accept isalnum ◌-ℤ◌ int
lets_through = refl

abbrev after : Agent
after = (signed_request cipher hashes (request "d19e57") (pos 1010) true paired).1

signed_request-ok_iff_example :
    ((signed_request cipher hashes (request "d19e57") (pos 1010) true paired).0 ≡ ok "node1")
    ↔ IsAuthentic cipher hashes (request "d19e57") (pos 1010) true paired "node1"
signed_request-ok_iff_example =
    signed_request-ok_iff cipher hashes (request "d19e57") (pos 1010) true paired "node1" hex

paired_persists : paired.replays.persistent ≡ true
unfolding register_node register codes utf8 string_eq
paired_persists = refl

captured_request_refused_example :
    (signed_request cipher hashes (request "d19e57") (pos 1200) true after).0 ≢ ok "node1"
captured_request_refused_example =
    captured_request_refused cipher hashes (request "d19e57") (request "d19e57")
      (credentials_of "d19e57") (credentials_of "d19e57") (pos 1010) (pos 1200) true true paired
      after "node1" "node1" paired_persists (sends "d19e57" refl) (sends "d19e57" refl) refl refl
      lets_through Trace.here

real_signature : signature hashes key "get" "/v1/info" "1000" nonce [] ≡ "d19e57"
unfolding signature canonical_request upper body_hash codes utf8
real_signature = refl

differ : ◌≢◌ {A = String} "forged" "d19e57"
unfolding string_eq
differ h = let apart : true ≡ false = ap (λ (s : String). s == "forged") h in cc (apart)

forged_unsigned : ¬ IsSigned cipher hashes (request "forged") (pos 1010) true paired
forged_unsigned (c, k, p, q, e) =
    let c_eq : c ≡ credentials_of "forged" = cc (sends "forged" refl) in
    let k_eq : k ≡ key = cc (unseals) in
    let same : "forged" ≡ signature hashes key "get" "/v1/info" "1000" nonce [] =
      rw (c_eq, k_eq) at e in
    differ (same ∙ real_signature)

signed_request-state_example :
    (signed_request cipher hashes (request "forged") (pos 1010) true paired).1 ≡ paired
signed_request-state_example =
    signed_request-state cipher hashes (request "forged") (pos 1010) true paired forged_unsigned

ascii_header :
    (c : Credentials) → credentials (request "forged") ≡ some c → is_ascii c.signature ≡ true
ascii_header c h = let e : c ≡ credentials_of "forged" = cc (sends "forged" refl) in rw e

timestamp_read : int "1000" ≡ some (pos 1000)
unfolding int
timestamp_read = refl

same_node : (credentials_of "é").node ≡ paired.identity.state.node_id
unfolding register_node register codes utf8 string_eq
same_node = refl

signed_request-non_ascii_example :
    (signed_request cipher hashes (request "é") (pos 1010) true paired ≡ (err type_error, paired))
    × (status (signed_request cipher hashes (request "é") (pos 1010) true paired).0 ≡ 500)
signed_request-non_ascii_example =
    signed_request-non_ascii cipher hashes (request "é") (pos 1010) true paired (credentials_of "é")
      key (pos 1000) (sends "é" refl) unseals same_node timestamp_read refl

decodes : b64decode (b64encode key) ≡ some key
unfolding b64decode b64encode
decodes = refl

signs : "d19e57" ≡ signature hashes key "get" "/v1/info" "1000" nonce []
unfolding signature canonical_request upper codes utf8 body_hash
signs = refl

accepts : (accept nonce (pos 1000) (pos 1010) true node.replays).0 ≡ ok tt
unfolding accept isalnum ◌-ℤ◌ string_eq
accepts = refl

register-signed_request_example :
    (signed_request cipher hashes (request "d19e57") (pos 1010) true paired).0 ≡ ok "node1"
register-signed_request_example =
    register-signed_request cipher hashes false "https" body key [] key (pos 5) (pos 1010) node
      (record { node_id = "node1"; signing_key = b64encode key }) (request "d19e57")
      (credentials_of "d19e57") (pos 1000) true cipher-Opens hex refl (omega arith) registers
      decodes (sends "d19e57" refl) refl timestamp_read signs accepts

revokes : (revoke_node cipher hashes (request "d19e57") (pos 1010) true paired).0 ≡ ok tt
unfolding revoke_node
revokes = ground (arith, lets_through)
