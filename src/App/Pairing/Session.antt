-- ===== src/App/Pairing/Session.antt =====
-- From registration to signed requests, and to their end.
use rc_node.Security.Identity.Registration.{
  registered_state, register_returns, register-signing_key,
}
use rc_node.Security.Identity.{NodeIdentityStore, signing_key, revoke, register}
use rc_node.App.Auth.Outcome.{signed_request-ok_iff}
use rc_node.App.Auth.Refusals.{stages}
use rc_node.Base.Base64.{b64decode-b64encode, b64decode, IsByte, b64encode}
use mathlib.Core.Option.{some-injective}
use rc_node.Security.Replay.{accept}
use rc_node.Base.{
  Result-cases, String, ◌≡◌, refl, sym, ap, ◌∙◌, inl, inr, Bool, true, none, some, arith, string_eq,
  nat_eq, length, All, ok,
}
use rc_node.Security.Signature.{signature, Bytes, Hashes}
use rc_node.Base.Text.{int, is_ascii}
use rc_node.App.Auth.{credentials, Credentials, signed_request, status, Agent, Request}
use rc_node.Security.Cipher.{Opens, Cipher}
use rc_node.App.Pairing.{Registered, register_node, RegisterBody, revoke_node}
use rc_node.Base.Int.{ℤ}

module _ (cipher : Cipher) (hashes : Hashes) where
  registered :
      (insecure : Bool) (scheme : String) (body : RegisterBody) (key seed : Bytes) (now : ℤ)
      (a : Agent) (answered : Registered)
      → (register_node cipher hashes insecure scheme body key seed now a).0 ≡ ok answered
      → ((register cipher hashes body.registration_token body.panel_id key seed now a.identity).0
          ≡ ok key)
        × (answered.signing_key ≡ b64encode key)
        × (answered.node_id ≡ a.identity.state.node_id)
        × ((register_node cipher hashes insecure scheme body key seed now a).1 ≡ record a {
          identity =
              (register cipher hashes body.registration_token body.panel_id key seed now
                a.identity).1;
        })
  unfolding register_node
  registered insecure scheme body key seed now a answered h =
      elim (Result-cases
        (register cipher hashes body.registration_token body.panel_id key seed now a.identity).0) [
          | inr (e, bad) ↦ absurd (ground arith)
          | inl (k, good) ↦ ground (
            arith,
            register_returns cipher hashes body.registration_token body.panel_id key seed now
                a.identity k good,
            registered_state cipher hashes body.registration_token body.panel_id key seed now
                a.identity,
          )
        ]

  -- After `POST /v1/register` answered, with a 32-byte key, a request that names the node id of the
  -- answer and is signed with the key of the answer is let through, if its nonce and timestamp are
  -- accepted and HMACs are in ASCII digits.
  pub register-signed_request :
      (insecure : Bool) (scheme : String) (body : RegisterBody) (key seed k : Bytes) (now now' : ℤ)
      (a : Agent) (answered : Registered) (r : Request) (c : Credentials) (timestamp : ℤ)
      (writable : Bool)
      → Opens cipher
      → ((key message : Bytes) → is_ascii (hashes.hmac_sha256_hex key message) ≡ true)
      → length key ≡ 32
      → All IsByte key
      → (register_node cipher hashes insecure scheme body key seed now a).0 ≡ ok answered
      → b64decode answered.signing_key ≡ some k
      → credentials r ≡ some c
      → c.node ≡ answered.node_id
      → int c.timestamp ≡ some timestamp
      → c.signature ≡ signature hashes k r.method r.path c.timestamp c.nonce r.body
      → (accept c.nonce timestamp now' writable a.replays).0 ≡ ok tt
      → (signed_request cipher hashes r now' writable
          (register_node cipher hashes insecure scheme body key seed now a).1).0
        ≡ ok answered.node_id
  register-signed_request insecure scheme body key seed k now now' a answered r c timestamp writable
        lawful hex len bytes h dec p n t sig fresh =
      let (reg, enc, id, after) = registered insecure scheme body key seed now a answered h in
      let b = (register_node cipher hashes insecure scheme body key seed now a).1 in
      let (unsealed, _, same_id, _) =
        register-signing_key cipher hashes body.registration_token body.panel_id key seed now
          a.identity lawful len bytes reg in
      let k_eq : k ≡ key =
        some-injective k key (sym dec ∙ ap b64decode enc ∙ b64decode-b64encode key bytes) in
      (signed_request-ok_iff cipher hashes r now' writable b answered.node_id hex).1 (record {
        sent = c;
        key = key;
        timestamp = timestamp;
        present = p;
        paired = rw after unsealed;
        names_node = rw after (n ∙ id ∙ sym same_id);
        returned = n;
        numeric = t;
        signed = rw k_eq at sig;
        unseen = rw after fresh;
      })

  unpaired_refused :
      (r : Request) (now : ℤ) (writable : Bool) (a : Agent)
      → signing_key cipher a.identity ≡ ok none
      → (status (signed_request cipher hashes r now writable a).0 ≡ 401)
        × ((signed_request cipher hashes r now writable a).1 ≡ a)
  unfolding status
  unpaired_refused r now writable a unpaired = elim (stages cipher hashes r now writable a) [
    | inl (c, key, p, q, same) ↦ absurd (ground arith)
    | inr (e, same, inl code) ↦ (rw same code, rw same)
    | inr (e, same, inr sealed) ↦ absurd (ground arith)
  ]

  revoke-signing_key :
      (s : NodeIdentityStore) (now : ℤ) → signing_key cipher (revoke now s).1 ≡ ok none
  unfolding revoke signing_key
  revoke-signing_key s now = refl

  -- After `POST /v1/revoke` answered, every request to a signed endpoint is answered 401 and
  -- changes nothing.
  pub revoke-signed_request :
      (r r' : Request) (now now' : ℤ) (writable writable' : Bool) (a : Agent)
      → (revoke_node cipher hashes r now writable a).0 ≡ ok tt
      → let b = (revoke_node cipher hashes r now writable a).1 in
        (status (signed_request cipher hashes r' now' writable' b).0 ≡ 401)
        × ((signed_request cipher hashes r' now' writable' b).1 ≡ b)
  unfolding revoke_node
  revoke-signed_request r r' now now' writable writable' a h =
      elim (Result-cases (signed_request cipher hashes r now writable a).0) [
        | inr (e, bad) ↦ absurd (ground arith)
        | inl (node, good) ↦ unpaired_refused r' now' writable' _ (
            let same : (revoke_node cipher hashes r now writable a).1.identity
                ≡ (revoke now (signed_request cipher hashes r now writable a).1.identity).1 =
              ground arith in
            rw same (revoke-signing_key _ now))
      ]
