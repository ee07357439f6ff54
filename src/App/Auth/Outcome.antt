-- ===== src/App/Auth/Outcome.antt =====
-- When `signed_request` lets a request through.
use rc_node.Security.Signature.Verify.{verify_signature-outcome}
use rc_node.Base.Text.{is_ascii}
use rc_node.App.Auth.{
  signed_request, accept, int, signing_key, authenticate, credentials, verify, Credentials, Agent,
  Bytes, ℤ, Request,
}
use rc_node.Base.{
  Result-cases, String, ◌≡◌, ◌↔◌, inl, inr, Bool, true, none, some, arith, Option-cases, string_eq,
  nat_eq, ok,
}
use rc_node.Security.Signature.{signature, verify_signature, Hashes}
use rc_node.Security.Cipher.{Cipher}

module _ (cipher : Cipher) (hashes : Hashes) where
  -- All that a request must be to get past `signed_request`.
  pub record IsAuthentic (r : Request) (now : ℤ) (writable : Bool) (a : Agent) (node : String)
      : Type 0 where
    pub sent : Credentials
    pub key : Bytes
    pub timestamp : ℤ
    pub present : credentials r ≡ some sent
    pub paired : signing_key cipher a.identity ≡ ok (some key)
    pub names_node : sent.node ≡ a.identity.state.node_id
    pub returned : sent.node ≡ node
    pub numeric : int sent.timestamp ≡ some timestamp
    pub signed :
        sent.signature ≡ signature hashes key r.method r.path sent.timestamp sent.nonce r.body
    pub unseen : (accept sent.nonce timestamp now writable a.replays).0 ≡ ok tt

  ok_of_verify :
      (key : Bytes) (c : Credentials) (r : Request)
      → verify_signature hashes key c.signature r.method r.path c.timestamp c.nonce r.body ≡ ok tt
      → c.signature ≡ signature hashes key r.method r.path c.timestamp c.nonce r.body
  unfolding verify_signature
  ok_of_verify key c r h = ground arith

  module _ (r : Request) (now : ℤ) (writable : Bool) (a : Agent) (node : String) where
    -- The request is authentic, and `accept` has changed the replay cache and nothing else.
    abbrev pub Through : Agent → Type 0
    Through b =
        (i : IsAuthentic r now writable a node) × (b
          ≡ record a { replays = (accept i.sent.nonce i.timestamp now writable a.replays).1 })

    sound_verify :
        (c : Credentials) (key : Bytes)
        → credentials r ≡ some c
        → signing_key cipher a.identity ≡ ok (some key)
        → c.node ≡ a.identity.state.node_id
        → (verify cipher hashes r c key now writable a).0 ≡ ok node
        → Through (verify cipher hashes r c key now writable a).1
    unfolding verify
    sound_verify c key p q n h = elim (Option-cases (int c.timestamp)) [
      | inl bad ↦ absurd (ground arith)
      | inr (timestamp, numeric) ↦
          elim (Result-cases
            (verify_signature hashes key c.signature r.method r.path c.timestamp c.nonce r.body)) [
              | inr (e, wrong) ↦ absurd (ground arith)
              | inl (u, right) ↦ (
                record {
                  sent = c;
                  key = key;
                  timestamp = timestamp;
                  present = p;
                  paired = q;
                  names_node = n;
                  returned = ground arith;
                  numeric = numeric;
                  signed = ok_of_verify key c r right;
                  unseen = ground arith;
                },
                ground arith,
              )
            ]
    ]

    sound_authenticate :
        (c : Credentials)
        → credentials r ≡ some c
        → (authenticate cipher hashes r c now writable a).0 ≡ ok node
        → Through (authenticate cipher hashes r c now writable a).1
    unfolding authenticate
    sound_authenticate c p h = elim (Result-cases (signing_key cipher a.identity)) [
      | inr (e, sealed) ↦ absurd (ground arith)
      | inl (none, unpaired) ↦ absurd (ground arith)
      | inl (some key, q) ↦ elim (string_eq.dec c.node a.identity.state.node_id) [
        | yes n ↦ let (i, e) = sound_verify c key p q n (ground arith) in (i, ground arith)
        | no n ↦ absurd (ground arith)
      ]
    ]

    pub sound :
        (signed_request cipher hashes r now writable a).0 ≡ ok node
        → Through (signed_request cipher hashes r now writable a).1
    unfolding signed_request
    sound h = elim (Option-cases (credentials r)) [
      | inl missing ↦ absurd (ground arith)
      | inr (c, p) ↦ let (i, e) = sound_authenticate c p (ground arith) in (i, ground arith)
    ]

    complete :
        ((key message : Bytes) → is_ascii (hashes.hmac_sha256_hex key message) ≡ true)
        → IsAuthentic r now writable a node
        → (signed_request cipher hashes r now writable a).0 ≡ ok node
    unfolding signed_request signature
    complete hex i =
        let c = i.sent in
        let expected = signature hashes i.key r.method r.path c.timestamp c.nonce r.body in
        let out =
          verify_signature-outcome hashes i.key c.signature r.method r.path c.timestamp c.nonce
            r.body (hex i.key _) in
        let verified = out.0.1 i.signed in ground (arith, verified)

-- Where every HMAC is in ASCII digits, `signed_request` returns the node id exactly for a request
-- that carries the four headers, names this node, has an integer timestamp and the HMAC of its
-- method, path, timestamp, nonce and body under the signing key of the store, and that the replay
-- cache accepts.
pub signed_request-ok_iff :
    (cipher : Cipher) (hashes : Hashes) (r : Request) (now : ℤ) (writable : Bool) (a : Agent)
    (node : String)
    → ((key message : Bytes) → is_ascii (hashes.hmac_sha256_hex key message) ≡ true)
    → ((signed_request cipher hashes r now writable a).0 ≡ ok node)
      ↔ IsAuthentic cipher hashes r now writable a node
signed_request-ok_iff cipher hashes r now writable a node hex = (
  λ h. (sound cipher hashes r now writable a node h).0,
  complete cipher hashes r now writable a node hex,
)
