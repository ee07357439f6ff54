-- ===== src/Security/Identity/Rearm.antt =====
-- What a restart does to a token that has been used, and how a node is armed with a new one.
use rc_node.Base.Text.{nonempty_iff, is_nonempty, is_ascii}
use rc_node.Base.{
  none, refl, ap, sym, ◌∙◌, ◌≢◌, List, String, ◌≡◌, true, some, arith, string_eq, nat_eq, length,
  ok,
}
use rc_node.Security.Identity.{
  reset_registration, signing_key, AuditRow, IdentityState, root_of, register, NodeIdentityStore, ℤ,
  Bytes, Hashes, Cipher, init,
}
use rc_node.Security.Identity.Registration.{
  register-ok_iff, registered_matches, registered_state, token_hash,
}

pub restart_installs :
    (hash token_hex : String) (urandom local_key : Bytes) (state : IdentityState)
    (rows : List AuditRow)
    → length local_key ≡ 32
    → is_nonempty hash ≡ true
    → state.registration_token_hash ≢ hash
    → init
        (some hash)
        urandom
        token_hex
        (record { key_file = some local_key; identity_file = some state; audit_file = rows })
      ≡ ok (record {
        local_key = local_key;
        state = record state { registration_token_hash = hash };
        audit_file = rows;
      })
unfolding init
restart_installs hash token_hex urandom local_key state rows len full differ = ground arith

-- A token that has registered a panel registers another one after a restart of the process with the
-- hash of that token still in its environment: for every store whose key has 32 bytes, `__init__`
-- with that hash succeeds, and `register` with the same token and any panel returns a new key.
pub register-restart :
    (cipher : Cipher) (hashes : Hashes) (token panel_id panel_id' token_hex : String)
    (key key' seed seed' urandom : Bytes) (now now' : ℤ) (s : NodeIdentityStore)
    → length s.local_key ≡ 32
    → is_ascii (token_hash hashes token) ≡ true
    → (register cipher hashes token panel_id key seed now s).0 ≡ ok key
    → (t : NodeIdentityStore) × (init
          (some (token_hash hashes token))
          urandom
          token_hex
          (root_of (register cipher hashes token panel_id key seed now s).1)
        ≡ ok t)
      × ((register cipher hashes token panel_id' key' seed' now' t).0 ≡ ok key')
register-restart cipher hashes token panel_id panel_id' token_hex key key' seed seed' urandom now
      now' s len a e =
    let s' = (register cipher hashes token panel_id key seed now s).1 in
    let h = token_hash hashes token in
    let t : NodeIdentityStore = record s' {
      state = record s'.state { registration_token_hash = h };
    } in
    let (p, q) = registered_state cipher hashes token panel_id key seed now s e in
    let (full, same) = registered_matches cipher hashes token panel_id key seed now s e in
    let full' : is_nonempty h ≡ true = rw same at full in
    let burned : s'.state.registration_token_hash ≡ "" =
      ap (λ (x : IdentityState). x.registration_token_hash) p in
    (
      t,
      restart_installs h token_hex urandom s'.local_key s'.state s'.audit_file (ap length q ∙ len)
          full' (λ e. (nonempty_iff h).0 full' (sym e ∙ burned)),
      (register-ok_iff cipher hashes token panel_id' key' seed' now' t a a).1
          ((nonempty_iff h).0 full', refl),
    )

-- `reset_registration` with the hash of a new token unpairs the node and arms it: no signing key is
-- left, the node id stays, and the new token registers whatever was stored before, if its digest is
-- ASCII and not empty.
pub reset_registration-register :
    (cipher : Cipher) (hashes : Hashes) (token panel_id : String) (key seed : Bytes) (now now' : ℤ)
    (s : NodeIdentityStore)
    → is_ascii (token_hash hashes token) ≡ true
    → token_hash hashes token ≢ ""
    → let t = (reset_registration (token_hash hashes token) now s).1 in
      (signing_key cipher t ≡ ok none)
      × (t.state.node_id ≡ s.state.node_id)
      × ((register cipher hashes token panel_id key seed now' t).0 ≡ ok key)
unfolding signing_key reset_registration
reset_registration-register cipher hashes token panel_id key seed now now' s a full = (
  refl,
  refl,
  (register-ok_iff cipher hashes token panel_id key seed now'
        (reset_registration (token_hash hashes token) now s).1 a a).1
      (full, refl),
)
