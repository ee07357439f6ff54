-- ===== src/Security/Cipher.antt =====
-- `SecretsCipher` (app.persistence.cipher), which the agent takes from the vendored panel tree. It
-- is a parameter: AES-256-GCM over JSON objects, under a key and bound to associated data.
use rc_node.Base.{◌≡◌, ◌≢◌, String, Option, some, [], ◌∷◌}
use rc_node.Base.Dict.{Dict}
use rc_node.Base.Json.{Json, text}
use rc_node.Security.Signature.{Bytes}

pub record Cipher : Type 0 where
  -- The key, the random nonce, the object and the associated data.
  pub encrypt_json : Bytes → Bytes → Dict String Json → String → String
  -- `none` where it raises: a wrong key, other associated data, a blob that was tampered with.
  pub decrypt_json : Bytes → String → String → Option (Dict String Json)

-- What the agent relies on: an object whose only entry is a text `key` decrypts under the key and the associated data
-- that sealed it, and no ciphertext is empty.
pub record Opens (c : Cipher) : Type 0 where
  pub opens :
      (key nonce : Bytes) (v aad : String)
      → c.decrypt_json key (c.encrypt_json key nonce (("key", text v) ∷ []) aad) aad
        ≡ some (("key", text v) ∷ [])
  pub nonempty :
      (key nonce : Bytes) (o : Dict String Json) (aad : String)
      → c.encrypt_json key nonce o aad ≢ ""
