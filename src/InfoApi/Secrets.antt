-- ===== src/InfoApi/Secrets.antt =====
-- What the port without credentials tells of a paired node.
use rc_node.Base.{
  Result-cases, String, ◌≡◌, refl, sym, ap, ◌∙◌, inl, inr, Bool, true, some, arith, string_eq,
  nat_eq, length, All, ok,
}
use rc_node.Base.Int.{ℤ}
use rc_node.Base.Base64.{IsByte}
use rc_node.Base.Dict.{Dict}
use rc_node.Base.Json.{Json}
use rc_node.Config.{NodeConfig}
use rc_node.Tls.{NodeCertificate}
use rc_node.Security.Cipher.{Cipher, Opens}
use rc_node.Security.Signature.{Bytes, Hashes}
use rc_node.Security.Identity.{NodeIdentityStore, signing_key, has_pending_token, register}
use rc_node.Security.Identity.Registration.{register-signing_key}
use rc_node.InfoApi.{Surroundings, payload, node_info, healthz, fingerprint}

module _ (cipher : Cipher) (around : Surroundings) (config : NodeConfig)
    (certificate : NodeCertificate) where
  -- The three answers.
  abbrev pub AreSame : NodeIdentityStore → NodeIdentityStore → Type 0
  AreSame s t =
      (node_info cipher around config certificate s ≡ node_info cipher around config certificate t)
      × (healthz cipher around config certificate s ≡ healthz cipher around config certificate t)
      × (fingerprint cipher around config certificate s
          ≡ fingerprint cipher around config certificate t)

  payload-cong :
      (s t : NodeIdentityStore) (registered : Bool) (pem : String)
      → s.state.node_id ≡ t.state.node_id
      → has_pending_token s ≡ has_pending_token t
      → payload cipher around config certificate s registered pem
        ≡ payload cipher around config certificate t registered pem
  unfolding payload has_pending_token
  payload-cong s t registered pem id pending = ground arith

  paired-AreSame :
      (s t : NodeIdentityStore) (k l : Bytes)
      → signing_key cipher s ≡ ok (some k)
      → signing_key cipher t ≡ ok (some l)
      → s.state.node_id ≡ t.state.node_id
      → has_pending_token s ≡ has_pending_token t
      → AreSame s t
  unfolding node_info healthz fingerprint
  paired-AreSame s t k l p q id pending = elim (Result-cases (around.pem certificate)) [
    | inl (pem, read) ↦ (
      rw (p, q, read, node_info)
          (ap (λ (d : Dict String Json). ok d) (payload-cong s t true pem id pending)),
      rw (p, q, healthz) refl,
      rw (id, fingerprint) refl,
    )
    | inr (e, bad) ↦
        (rw (p, q, bad, node_info) refl, rw (p, q, healthz) refl, rw (id, fingerprint) refl)
  ]

-- The port without credentials does not tell paired nodes apart by their secrets. Take two nodes with
-- the same node id, certificate and surroundings that have each let a panel register, whatever their
-- cipher keys, tokens, panels, signing keys, times and audit logs were. Then `/info`, `/healthz` and
-- `/fingerprint` answer the same on both.
pub register-AreSame :
    (cipher : Cipher) (hashes : Hashes) (around : Surroundings) (config : NodeConfig)
    (certificate : NodeCertificate) (token token' panel_id panel_id' : String)
    (key key' seed seed' : Bytes) (now now' : ℤ) (s s' : NodeIdentityStore)
    → Opens cipher
    → length key ≡ 32
    → length key' ≡ 32
    → All IsByte key
    → All IsByte key'
    → (register cipher hashes token panel_id key seed now s).0 ≡ ok key
    → (register cipher hashes token' panel_id' key' seed' now' s').0 ≡ ok key'
    → s.state.node_id ≡ s'.state.node_id
    → AreSame cipher around config certificate
        ((register cipher hashes token panel_id key seed now s).1)
        ((register cipher hashes token' panel_id' key' seed' now' s').1)
register-AreSame cipher hashes around config certificate token token' panel_id panel_id' key key'
      seed seed' now now' s s' lawful len len' bytes bytes' e e' same =
    let (p, _, id, burned) =
      register-signing_key cipher hashes token panel_id key seed now s lawful len bytes e in
    let (p', _, id', burned') =
      register-signing_key cipher hashes token' panel_id' key' seed' now' s' lawful len' bytes'
        e' in
    paired-AreSame cipher around config certificate
      ((register cipher hashes token panel_id key seed now s).1)
      ((register cipher hashes token' panel_id' key' seed' now' s').1) key key' p p'
      (id ∙ same ∙ sym id') (burned ∙ sym burned')
