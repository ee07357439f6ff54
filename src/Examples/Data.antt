-- ===== src/Examples/Data.antt =====
-- A node, its crypto functions and a request, all concrete.
use rc_node.Base.{
  arith, ◌≢◌, false, ◌==◌, ℕ, zero, suc, String, ◌≡◌, refl, true, Option, none, some, [], ◌∷◌,
  string_eq, nat_eq,
}
use rc_node.Base.Text.{nonempty_iff, is_nonempty}
use rc_node.Security.Cipher.{Cipher, Opens}
use rc_node.Security.Signature.{Hashes, Bytes}
use rc_node.Security.Replay.{ReplayGuard, missing}
use rc_node.Security.Identity.{NodeIdentityStore}
use rc_node.App.Auth.{Agent, Request, Credentials}
use rc_node.App.Pairing.{RegisterBody}
use rc_node.Base.Dict.{Dict}
use rc_node.Base.Json.{Json}

-- A hash that tells the empty message apart from all others.
abbrev pub sum_text : Bytes → String
sum_text [] = "00"
sum_text (b ∷ bs) = "d19e57"

abbrev pub hashes : Hashes
hashes = record { sha256_hex = sum_text; hmac_sha256_hex = λ key message. sum_text message }

abbrev seal_one : Json → String
seal_one (Json.text v) = String.◌∷◌ "v" v
seal_one _ = "v"

abbrev seal : Dict String Json → String
seal [] = "v"
seal (x ∷ []) = seal_one x.1
seal (x ∷ y ∷ o) = "v"

abbrev unseal : String → Option (Dict String Json)
unseal String.[] = none
unseal (String.◌∷◌ c v) = some (("key", Json.text v) ∷ [])

-- A cipher that hides nothing.
abbrev pub cipher : Cipher
cipher = record {
  encrypt_json = λ key nonce o aad. seal o;
  decrypt_json = λ key blob aad. unseal blob;
}

seal_one_full : (v : Json) → is_nonempty (seal_one v) ≡ true
seal_one_full (Json.text v) = refl
seal_one_full _ = refl

seal_full : (o : Dict String Json) → is_nonempty (seal o) ≡ true
seal_full [] = refl
seal_full (x ∷ []) = seal_one_full x.1
seal_full (x ∷ y ∷ o) = refl

pub cipher-Opens : Opens cipher
cipher-Opens = record {
  opens = λ key nonce v aad. refl;
  nonempty = λ key nonce o aad. (nonempty_iff (seal o)).0 (seal_full o);
}

abbrev pub copies : ℕ → ℕ → Bytes
copies zero b = []
copies (suc n) b = b ∷ copies n b

abbrev pub key : Bytes
key = copies 32 7

-- A fresh node with the hash of a token.
abbrev pub armed : NodeIdentityStore
armed = record {
  local_key = copies 32 1;
  state = record {
    node_id = "node1";
    registration_token_hash = "d19e57";
    signing_key_enc = none;
    registered_panel = none;
    registered_at = none;
  };
  audit_file = [];
}

abbrev pub token : String
token = "0123456789abcdef"

abbrev pub guard : ReplayGuard
guard = record { window = 300; persistent = true; seen = []; file = missing }

abbrev pub node : Agent
node = record { identity = armed; replays = guard }

abbrev pub body : RegisterBody
body = record { panel_id = "panel-01"; registration_token = token }

abbrev pub nonce : String
nonce = "0a1b2c3d4e5f6071"

abbrev pub credentials_of : String → Credentials
credentials_of s = record { node = "node1"; timestamp = "1000"; nonce = nonce; signature = s }

-- A request with a signature header.
abbrev pub request : String → Request
request s = record {
  scheme = "https";
  method = "get";
  path = "/v1/info";
  body = [];
  x_zagros_node = some "node1";
  x_zagros_timestamp = some "1000";
  x_zagros_nonce = some nonce;
  x_zagros_signature = some s;
}

-- Two texts that the test tells apart.
pub differ : {a b : String} → (a == b) ≡ false → a ≢ b
differ h e = ground arith
