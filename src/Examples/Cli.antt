-- ===== src/Examples/Cli.antt =====
-- A paired node that is reset with the hash of a second token.
use rc_node.Examples.Data.{differ, cipher, armed, key, node, request, credentials_of}
use rc_node.Base.{
  http_exception, String, ◌≡◌, refl, ◌≢◌, true, Option, some, [], ◌∷◌, if◌then◌else◌, ◌==◌,
  string_eq, nat_eq, ok, err,
}
use rc_node.Base.Int.{pos}
use rc_node.Base.Text.Codes.{codes, utf8}
use rc_node.Base.Text.Trim.{strip, lower}
use rc_node.Security.Signature.{Hashes, Bytes}
use rc_node.Security.Identity.{NodeIdentityStore, Root, root_of, init, register}
use rc_node.Security.Identity.Registration.{token_hash}
use rc_node.App.Auth.{credentials, signed_request}
use rc_node.Cli.{cmd_reset_registration, token_hash_of, rearmed}
use rc_node.Cli.Reset.{cmd_reset_registration-register, cmd_reset_registration-restart}

-- Digests of 64 characters, which tell the first characters of texts apart.
digest : Bytes → String
digest [] = "bbbbbbbbbbbbbbbbbbbbbbbbbbbbbbbbbbbbbbbbbbbbbbbbbbbbbbbbbbbbbbbb"
digest (b ∷ bs) =
    if b == 97
    then "aaaaaaaaaaaaaaaaaaaaaaaaaaaaaaaaaaaaaaaaaaaaaaaaaaaaaaaaaaaaaaaa"
    else "bbbbbbbbbbbbbbbbbbbbbbbbbbbbbbbbbbbbbbbbbbbbbbbbbbbbbbbbbbbbbbbb"

abbrev hashes : Hashes
hashes = record { sha256_hex = digest; hmac_sha256_hex = λ key message. digest message }

abbrev root : Root
root = root_of armed

abbrev argument : Option String
argument = some " AAAAAAAAAAAAAAAAAAAAAAAAAAAAAAAAAAAAAAAAAAAAAAAAAAAAAAAAAAAAAAAA"

reads : token_hash_of argument ≡ token_hash hashes "a"
unfolding strip lower codes utf8 digest nat_eq
reads = refl

different : token_hash hashes "a" ≢ token_hash hashes "b"
unfolding codes utf8 digest nat_eq string_eq
different = differ refl

headers : credentials (request "d19e57") ≡ some (credentials_of "d19e57")
unfolding credentials
headers = refl

cmd_reset_registration-register_example :
    (s : NodeIdentityStore) × (cmd_reset_registration [] "ff" (pos 4) argument root
      ≡ (ok (rearmed s.state.node_id true), root_of s))
    × ((signed_request cipher hashes
          (request "d19e57")
          (pos 5)
          true
          (record node { identity = s })).0
        ≡ err (http_exception 401 "node is not registered for this signer"))
    × ((register cipher hashes "a" "panel-02" key [] (pos 6) s).0 ≡ ok key)
unfolding codes utf8 digest nat_eq
cmd_reset_registration-register_example =
    cmd_reset_registration-register cipher hashes "a" "panel-02" "ff" key [] [] (pos 4) (pos 5)
      (pos 6) argument root (request "d19e57") (credentials_of "d19e57") true node reads refl refl
      refl headers

cmd_reset_registration-restart_example :
    let (output, root') = cmd_reset_registration [] "ff" (pos 4) argument root in
    (t : NodeIdentityStore) × (init (some (token_hash hashes "b")) [] "ff" root' ≡ ok t)
    × ((register cipher hashes "a" "panel-02" key [] (pos 6) t).0 ≢ ok key)
    × ((register cipher hashes "b" "panel-02" key [] (pos 6) t).0 ≡ ok key)
unfolding codes utf8 digest nat_eq
cmd_reset_registration-restart_example =
    cmd_reset_registration-restart cipher hashes "a" "b" "panel-02" "ff" "ff" key [] [] [] (pos 4)
      (pos 6) argument root reads refl refl refl refl different refl
