-- ===== src/Examples/Identity.antt =====
-- Registrations of one node, and the signatures of one request.
use rc_node.Base.Text.{nonempty_iff, is_ascii}
use rc_node.Base.{
  security_error, ◌≤◌, String, ◌≡◌, refl, ◌≢◌, true, some, [], ◌∷◌, map, arith, string_eq, nat_eq,
  ok, err,
}
use rc_node.Security.Identity.Registration.{token_hash}
use rc_node.Base.Int.{pos}
use rc_node.Security.Identity.{register, init, root_of, NodeIdentityStore}
use rc_node.Security.Identity.OneTime
use rc_node.Security.Identity.OneTime.{one_registration, registrations}
use rc_node.Security.Identity.Rearm.{register-restart}
use rc_node.Security.Signature.{signature, canonical_request, upper, body_hash}
use rc_node.Security.Signature.Canonical.{canonical_request_inj, IsLine}
use rc_node.Base.Text.Codes.{codes, utf8}
use rc_node.Examples.Data.{hashes, cipher, copies, key, armed, token, nonce}

digest_ascii : is_ascii (token_hash hashes token) ≡ true
unfolding codes utf8
digest_ascii = refl

registers : (register cipher hashes token "panel-01" key [] (pos 5) armed).0 ≡ ok key
unfolding register codes utf8 string_eq
registers = refl

wrong_token :
    (register cipher hashes "" "panel-01" key [] (pos 5) armed).0
    ≡ err (security_error "invalid or already-consumed registration token")
unfolding register codes utf8 string_eq
wrong_token = refl

abbrev paired : NodeIdentityStore
paired = (register cipher hashes token "panel-01" key [] (pos 5) armed).1

one_registration_example :
    registrations cipher hashes
      (OneTime.attempt token "panel-01" key [] (pos 5)
        ∷ OneTime.unpair (pos 6)
        ∷ OneTime.attempt token "panel-02" key [] (pos 7)
        ∷ [])
      armed
    ≤ 1
one_registration_example =
    one_registration cipher hashes
      (OneTime.attempt token "panel-01" key [] (pos 5)
        ∷ OneTime.unpair (pos 6)
        ∷ OneTime.attempt token "panel-02" key [] (pos 7)
        ∷ [])
      armed

register-restart_example :
    (t : NodeIdentityStore) × (init (some (token_hash hashes token)) [] "ff" (root_of paired)
      ≡ ok t)
    × ((register cipher hashes token "panel-02" (copies 32 9) [] (pos 8) t).0 ≡ ok (copies 32 9))
register-restart_example =
    register-restart cipher hashes token "panel-01" "panel-02" "ff" key (copies 32 9) [] [] []
      (pos 5) (pos 8) armed refl digest_ascii registers

digest_full : token_hash hashes token ≢ ""
unfolding codes utf8
digest_full = (nonempty_iff (token_hash hashes token)).0 refl

lines : IsLine "get" × IsLine "/v1/info" × IsLine "1000" × IsLine nonce
unfolding codes
lines = omega arith

lines' : IsLine "GET" × IsLine "/v1/info" × IsLine "1000" × IsLine nonce
unfolding codes
lines' = omega arith

same_encoding :
    canonical_request hashes "get" "/v1/info" "1000" nonce []
    ≡ canonical_request hashes "GET" "/v1/info" "1000" nonce []
unfolding canonical_request upper codes utf8 body_hash
same_encoding = refl

signature_ascii : is_ascii (signature hashes key "get" "/v1/info" "1000" nonce []) ≡ true
unfolding signature canonical_request upper codes utf8 body_hash
signature_ascii = refl

canonical_request_inj_example :
    (map upper (codes "get") ≡ map upper (codes "GET"))
    × (◌≡◌ {A = String} "/v1/info" "/v1/info")
    × (◌≡◌ {A = String} "1000" "1000")
    × (nonce ≡ nonce)
    × (body_hash hashes [] ≡ body_hash hashes [])
canonical_request_inj_example =
    canonical_request_inj hashes "get" "GET" "/v1/info" "/v1/info" "1000" "1000" nonce nonce [] []
      lines lines' same_encoding
