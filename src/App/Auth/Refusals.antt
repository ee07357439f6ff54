-- ===== src/App/Auth/Refusals.antt =====
-- What a refused request leaves behind, and the status that it is answered with.
use rc_node.Base.{
  ℕ, String, ◌≡◌, refl, ◌≢◌, ◌⊎◌, inl, inr, Bool, true, false, none, some, arith, Option-cases,
  string_eq, nat_eq, ok, err, type_error, Result-cases, http_exception, Error,
}
use rc_node.Base.Text.{int, is_ascii}
use rc_node.Security.Replay.{ReplayGuard, write, remember, accept}
use rc_node.App.Auth.{
  unauthorized, credentials, error_status, status, authenticate, Credentials, signed_request,
  verify, Agent, Request,
}
use rc_node.Security.Signature.{signature, Bytes, verify_signature, Hashes}
use rc_node.Security.Identity.{signing_key}
use rc_node.Base.Int.{ℤ}
use rc_node.Security.Cipher.{Cipher}

module _ (cipher : Cipher) (hashes : Hashes) (r : Request) (now : ℤ) (writable : Bool)
    (a : Agent) where
  -- The request is signed with the key of the store.
  abbrev pub IsSigned : Type 0
  IsSigned =
      (c : Credentials) × (key : Bytes) × (credentials r ≡ some c)
      × (signing_key cipher a.identity ≡ ok (some key))
      × (c.signature ≡ signature hashes key r.method r.path c.timestamp c.nonce r.body)

  verify_state :
      (c : Credentials) (key : Bytes)
      → verify_signature hashes key c.signature r.method r.path c.timestamp c.nonce r.body ≢ ok tt
      → (verify cipher hashes r c key now writable a).1 ≡ a
  unfolding verify
  verify_state c key wrong = ground arith

  -- A request reaches the check of its signature, or is answered 401 before it, or meets a key
  -- that cannot be unsealed.
  abbrev pub Reaches : Type 0
  Reaches =
      (c : Credentials) × (key : Bytes) × (credentials r ≡ some c)
      × (signing_key cipher a.identity ≡ ok (some key))
      × (signed_request cipher hashes r now writable a
          ≡ verify cipher hashes r c key now writable a)

  abbrev pub Stopped : Type 0
  Stopped =
      ((e : Error) × (signed_request cipher hashes r now writable a ≡ (err e, a))
        × ((error_status e ≡ 401) ⊎ (signing_key cipher a.identity ≡ err e)))

  pub stages : Reaches ⊎ Stopped
  unfolding signed_request authenticate error_status
  stages = elim (Option-cases (credentials r)) [
    | inl missing ↦ inr (http_exception 401 "missing signature headers", ground arith, inl refl)
    | inr (c, p) ↦ elim (Result-cases (signing_key cipher a.identity)) [
      | inr (e, sealed) ↦ inr (e, ground arith, inr sealed)
      | inl (none, unpaired) ↦
          inr (http_exception 401 "node is not registered for this signer", ground arith, inl refl)
      | inl (some key, q) ↦ elim (string_eq.dec c.node a.identity.state.node_id) [
        | yes n ↦ inl (c, key, p, q, ground arith)
        | no n ↦
            inr
              (http_exception 401 "node is not registered for this signer", ground arith, inl refl)
      ]
    ]
  ]

  ok_of_verify :
      (c : Credentials) (key : Bytes)
      → verify_signature hashes key c.signature r.method r.path c.timestamp c.nonce r.body ≡ ok tt
      → c.signature ≡ signature hashes key r.method r.path c.timestamp c.nonce r.body
  unfolding verify_signature
  ok_of_verify c key h = ground arith

  -- A request changes nothing of the agent unless it is signed with the key of the store: a forged
  -- one uses up no nonce and leaves no trace.
  pub signed_request-state : ¬ IsSigned → (signed_request cipher hashes r now writable a).1 ≡ a
  signed_request-state unsigned = elim stages [
    | inr (e, same, _) ↦ rw same
    | inl (c, key, p, q, same) ↦
        rw same (verify_state c key (λ h. unsigned (c, key, p, q, ok_of_verify c key h)))
  ]

  accept_error :
      (nonce : String) (timestamp : ℤ) (g : ReplayGuard) (e : Error)
      → (accept nonce timestamp now true g).0 ≡ err e
      → error_status (unauthorized e) ≡ 401
  unfolding accept remember write error_status unauthorized
  accept_error nonce timestamp g e h = ground arith

  verify_error :
      (c : Credentials) (key : Bytes) (e : Error)
      → is_ascii (signature hashes key r.method r.path c.timestamp c.nonce r.body) ≡ true
      → is_ascii c.signature ≡ true
      → verify_signature hashes key c.signature r.method r.path c.timestamp c.nonce r.body ≡ err e
      → error_status (unauthorized e) ≡ 401
  unfolding verify_signature error_status unauthorized
  verify_error c key e hex ascii h = ground arith

  abbrev pub IsAnswered : ℕ → Type 0
  IsAnswered code = (code ≡ 200) ⊎ (code ≡ 401)

  verify-status :
      (c : Credentials) (key : Bytes)
      → is_ascii (signature hashes key r.method r.path c.timestamp c.nonce r.body) ≡ true
      → is_ascii c.signature ≡ true
      → writable ≡ true
      → IsAnswered (status (verify cipher hashes r c key now writable a).0)
  unfolding verify status unauthorized error_status
  verify-status c key hex ascii w = elim (Option-cases (int c.timestamp)) [
    | inl bad ↦ inr (ground arith)
    | inr (timestamp, numeric) ↦
        elim (Result-cases
          (verify_signature hashes key c.signature r.method r.path c.timestamp c.nonce r.body)) [
            | inr (e, wrong) ↦ let f = verify_error c key e hex ascii wrong in inr (ground arith)
            | inl (u, right) ↦
                elim (Result-cases (accept c.nonce timestamp now writable a.replays).0) [
                  | inl (u, taken) ↦ inl (ground arith)
                  | inr (e, refused) ↦
                      let f = accept_error c.nonce timestamp a.replays e (rw w at refused) in
                      inr (ground arith)
                ]
          ]
  ]

  -- On a node whose signing key can be unsealed and whose replay cache can be written, with HMACs
  -- in ASCII digits, every request whose signature header is ASCII is let through or answered 401:
  -- missing and wrong credentials look the same.
  pub signed_request-status :
      ((key message : Bytes) → is_ascii (hashes.hmac_sha256_hex key message) ≡ true)
      → ((c : Credentials) → credentials r ≡ some c → is_ascii c.signature ≡ true)
      → ((e : Error) → signing_key cipher a.identity ≢ err e)
      → writable ≡ true
      → IsAnswered (status (signed_request cipher hashes r now writable a).0)
  unfolding status signature
  signed_request-status hex ascii unsealed w = elim stages [
    | inl (c, key, p, q, same) ↦ rw same (verify-status c key (hex key _) (ascii c p) w)
    | inr (e, same, inl code) ↦ rw same (inr code)
    | inr (e, same, inr sealed) ↦ absurd (unsealed e sealed)
  ]

  -- A request that names the node, with an integer timestamp and any character outside ASCII in its
  -- signature header, is answered 500 on a paired node: `hmac.compare_digest` raises a TypeError,
  -- which `signed_request` does not catch.
  pub signed_request-non_ascii :
      (c : Credentials) (key : Bytes) (timestamp : ℤ)
      → credentials r ≡ some c
      → signing_key cipher a.identity ≡ ok (some key)
      → c.node ≡ a.identity.state.node_id
      → int c.timestamp ≡ some timestamp
      → is_ascii c.signature ≡ false
      → signed_request cipher hashes r now writable a ≡ (err type_error, a)
        × (status (signed_request cipher hashes r now writable a).0 ≡ 500)
  unfolding signed_request authenticate verify status error_status unauthorized verify_signature
  signed_request-non_ascii c key timestamp p q n t bad =
      let e : signed_request cipher hashes r now writable a ≡ (err type_error, a) = ground arith in
      (e, rw e)

-- A node without a signing key refuses every request with its headers.
pub refused_unpaired :
    (cipher : Cipher) (hashes : Hashes) (r : Request) (c : Credentials) (now : ℤ) (writable : Bool)
    (a : Agent)
    → credentials r ≡ some c
    → signing_key cipher a.identity ≡ ok none
    → (signed_request cipher hashes r now writable a).0
      ≡ err (http_exception 401 "node is not registered for this signer")
unfolding signed_request authenticate
refused_unpaired cipher hashes r c now writable a read none_left = ground arith
