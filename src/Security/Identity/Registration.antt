-- ===== src/Security/Identity/Registration.antt =====
-- One registration, and what it leaves behind.
use rc_node.Base.Text.{nonempty_iff, is_ascii, is_nonempty}
use rc_node.Base.{
  err, Error, false, All, length, [], ◌∷◌, ◌≡◌, ◌≢◌, ◌↔◌, true, some, String, arith, ok, string_eq,
  nat_eq,
}
use rc_node.Base.Base64.{b64decode-b64encode, b64encode, IsByte}
use rc_node.Security.Cipher.{Opens, Cipher}
use rc_node.Base.Json
use rc_node.Base.Int.{ℤ}
use rc_node.Base.Text.Codes.{codes, utf8}
use rc_node.Security.Signature.{Bytes, Hashes}
use rc_node.Security.Identity.{
  signing_key, has_pending_token, aad, NodeIdentityStore, register, seal_signing_key,
}

abbrev pub token_hash : Hashes → String → String
token_hash hashes token = hashes.sha256_hex (utf8 (codes token))

module _ (cipher : Cipher) (hashes : Hashes) (token panel_id : String) (key seed : Bytes) (now : ℤ)
    (s : NodeIdentityStore) where
  -- Where the stored hash and the digest are ASCII, `register` returns the new key exactly when a
  -- token is pending and its SHA-256 is the stored hash.
  pub register-ok_iff :
      is_ascii (token_hash hashes token) ≡ true
      → is_ascii s.state.registration_token_hash ≡ true
      → ((register cipher hashes token panel_id key seed now s).0 ≡ ok key) ↔ (
          (s.state.registration_token_hash ≢ "")
          × (s.state.registration_token_hash ≡ token_hash hashes token))
  unfolding register
  register-ok_iff a b = ground (arith, nonempty_iff s.state.registration_token_hash)

  -- A registration that raises leaves the store as it was: no key, no panel, no used token and no
  -- row of the audit trail.
  pub register-refused :
      (e : Error)
      → (register cipher hashes token panel_id key seed now s).0 ≡ err e
      → (register cipher hashes token panel_id key seed now s).1 ≡ s
  unfolding register
  register-refused e h = ground arith

  -- A token that registers is the pending one.
  pub registered_matches :
      (register cipher hashes token panel_id key seed now s).0 ≡ ok key
      → (is_nonempty s.state.registration_token_hash ≡ true)
        × (s.state.registration_token_hash ≡ token_hash hashes token)
  unfolding register
  registered_matches e = ground arith

  pub register_returns :
      (k : Bytes) → (register cipher hashes token panel_id key seed now s).0 ≡ ok k → k ≡ key
  unfolding register
  register_returns k e = ground arith

  pub registered_state :
      (register cipher hashes token panel_id key seed now s).0 ≡ ok key
      → ((register cipher hashes token panel_id key seed now s).1.state ≡ record {
        node_id = s.state.node_id;
        registration_token_hash = "";
        signing_key_enc = some (seal_signing_key cipher s.local_key seed key s.state.node_id);
        registered_panel = some panel_id;
        registered_at = some now;
      })
        × ((register cipher hashes token panel_id key seed now s).1.local_key ≡ s.local_key)
  unfolding register
  registered_state e = ground arith

-- A key that is sealed is unsealed by `signing_key`.
signing_key-sealed :
    (cipher : Cipher) (key seed : Bytes) (s : NodeIdentityStore)
    → Opens cipher
    → length key ≡ 32
    → All IsByte key
    → s.state.signing_key_enc ≡ some (seal_signing_key cipher s.local_key seed key s.state.node_id)
    → signing_key cipher s ≡ ok (some key)
unfolding signing_key seal_signing_key
signing_key-sealed cipher key seed s lawful len bytes e =
    let blob =
      cipher.encrypt_json s.local_key seed (("key", Json.text (b64encode key)) ∷ [])
        (aad s.state.node_id) in
    ground (
      arith,
      lawful.opens s.local_key seed (b64encode key) (aad s.state.node_id),
      lawful.nonempty s.local_key seed (("key", Json.text (b64encode key)) ∷ [])
          (aad s.state.node_id),
      nonempty_iff blob,
      b64decode-b64encode key bytes,
    )

-- After a registration that returned, the store holds the panel that registered, its node id is the
-- old one, no token is pending, and `signing_key` gives the 32 bytes that were returned.
pub register-signing_key :
    (cipher : Cipher) (hashes : Hashes) (token panel_id : String) (key seed : Bytes) (now : ℤ)
    (s : NodeIdentityStore)
    → Opens cipher
    → length key ≡ 32
    → All IsByte key
    → (register cipher hashes token panel_id key seed now s).0 ≡ ok key
    → let s' = (register cipher hashes token panel_id key seed now s).1 in
      (signing_key cipher s' ≡ ok (some key))
      × (s'.state.registered_panel ≡ some panel_id)
      × (s'.state.node_id ≡ s.state.node_id)
      × (has_pending_token s' ≡ false)
unfolding has_pending_token
register-signing_key cipher hashes token panel_id key seed now s lawful len bytes e =
    let (p, q) = registered_state cipher hashes token panel_id key seed now s e in
    (signing_key-sealed cipher key seed _ lawful len bytes (cc), cc, cc, rw p)
