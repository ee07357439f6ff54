-- ===== src/Cli/Reset.antt =====
-- What the reset of a node's pairing leaves to the agent.
use rc_node.Base.{
  Result-cases, http_exception, ℕ, String, ◌≡◌, refl, sym, ap, ◌∙◌, ◌≢◌, inl, inr, Bool, true,
  Option, some, arith, string_eq, nat_eq, length, ok, err,
}
use rc_node.Base.Int.{ℤ}
use rc_node.Base.Text
use rc_node.Base.Text.{is_nonempty, is_ascii, nonempty_iff}
use rc_node.Security.Cipher.{Cipher}
use rc_node.Security.Signature.{Bytes, Hashes}
use rc_node.Security.Identity.{
  NodeIdentityStore, Root, init, or_new, root_of, reset_registration, register,
}
use rc_node.Security.Identity.Registration.{register-ok_iff, token_hash}
use rc_node.Security.Identity.Rearm.{reset_registration-register, restart_installs}
use rc_node.App.Auth.Refusals.{refused_unpaired}
use rc_node.App.Auth.{Agent, Request, Credentials, credentials, signed_request}
use rc_node.Cli.{cmd_reset_registration, token_hash_of, rearmed}

-- A directory with a sound key opens.
init_opens :
    (hash : Option String) (urandom : Bytes) (token_hex : String) (root : Root)
    → length (or_new root.key_file urandom) ≡ 32
    → (s : NodeIdentityStore) × (init hash urandom token_hex root ≡ ok s)
      × (s.local_key ≡ or_new root.key_file urandom)
unfolding init
init_opens hash urandom token_hex root len =
    elim (Result-cases (init hash urandom token_hex root)) [
      | inr (e, bad) ↦ absurd (ground arith)
      | inl (s, opened) ↦ (s, opened, ground arith)
    ]

full_text : (s : String) → Text.length s ≡ 64 → s ≢ ""
full_text s h e = (let bad : ◌≡◌ {A = ℕ} 0 64 = ap Text.length (sym e) ∙ h in omega arith)

-- The command with a hash of 64 characters.
reset_opened :
    (urandom : Bytes) (token_hex : String) (now : ℤ) (argument : Option String) (root : Root)
    (hash : String)
    → token_hash_of argument ≡ hash
    → Text.length hash ≡ 64
    → length (or_new root.key_file urandom) ≡ 32
    → (s0 : NodeIdentityStore) × (cmd_reset_registration urandom token_hex now argument root
        ≡ (ok (rearmed s0.state.node_id true), root_of (reset_registration hash now s0).1))
      × (s0.local_key ≡ or_new root.key_file urandom)
unfolding cmd_reset_registration reset_registration nat_eq
reset_opened urandom token_hex now argument root hash same len key =
    let (s0, opened, local) = init_opens (some hash) urandom token_hex root key in
    let full : is_nonempty hash ≡ true = (nonempty_iff hash).1 (full_text hash len) in
    (s0, rw (same, full, len, cmd_reset_registration) (rw opened (rw (same, full) refl)), local)

-- The command rearms a node for the agent that runs beside it. On a directory with a sound key, with
-- an argument that reads as the 64-character hash of a token, it prints that the node is rearmed.
-- From then on the agent refuses each request with its headers, whatever its signature, and the
-- token registers any panel, if its hash is ASCII.
pub cmd_reset_registration-register :
    (cipher : Cipher) (hashes : Hashes) (token panel_id token_hex : String)
    (key seed urandom : Bytes) (now now' now'' : ℤ) (argument : Option String) (root : Root)
    (r : Request) (c : Credentials) (writable : Bool) (a : Agent)
    → token_hash_of argument ≡ token_hash hashes token
    → Text.length (token_hash hashes token) ≡ 64
    → is_ascii (token_hash hashes token) ≡ true
    → length (or_new root.key_file urandom) ≡ 32
    → credentials r ≡ some c
    → (s : NodeIdentityStore) × (cmd_reset_registration urandom token_hex now argument root
        ≡ (ok (rearmed s.state.node_id true), root_of s))
      × ((signed_request cipher hashes r now' writable (record a { identity = s })).0
          ≡ err (http_exception 401 "node is not registered for this signer"))
      × ((register cipher hashes token panel_id key seed now'' s).0 ≡ ok key)
cmd_reset_registration-register cipher hashes token panel_id token_hex key seed urandom now now'
      now'' argument root r c writable a same len ascii sound read =
    let hash = token_hash hashes token in
    let (s0, made, local) = reset_opened urandom token_hex now argument root hash same len sound in
    let s = (reset_registration hash now s0).1 in
    let (unpaired, kept, claims) =
      reset_registration-register cipher hashes token panel_id key seed now now'' s0 ascii
        (full_text hash len) in
    (
      s,
      made ∙ ap (λ (id : String). (ok (rearmed id true), root_of s)) (sym kept),
      refused_unpaired cipher hashes r c now' writable (record a { identity = s }) read unpaired,
      claims,
    )

-- The command does not outlast a restart of an agent whose environment still has the hash of another
-- token. On a directory with a sound key, `__init__` with that hash succeeds on what the command has
-- left, the new token no longer registers, and the old one does, if both hashes are ASCII and differ.
pub cmd_reset_registration-restart :
    (cipher : Cipher) (hashes : Hashes) (token old panel_id token_hex token_hex' : String)
    (key seed urandom urandom' : Bytes) (now now' : ℤ) (argument : Option String) (root : Root)
    → token_hash_of argument ≡ token_hash hashes token
    → Text.length (token_hash hashes token) ≡ 64
    → is_ascii (token_hash hashes token) ≡ true
    → is_ascii (token_hash hashes old) ≡ true
    → is_nonempty (token_hash hashes old) ≡ true
    → token_hash hashes token ≢ token_hash hashes old
    → length (or_new root.key_file urandom) ≡ 32
    → let (output, root') = cmd_reset_registration urandom token_hex now argument root in
      (t : NodeIdentityStore) × (init (some (token_hash hashes old)) urandom' token_hex' root'
        ≡ ok t)
      × ((register cipher hashes token panel_id key seed now' t).0 ≢ ok key)
      × ((register cipher hashes old panel_id key seed now' t).0 ≡ ok key)
unfolding reset_registration
cmd_reset_registration-restart cipher hashes token old panel_id token_hex token_hex' key seed
      urandom urandom' now now' argument root same len ascii ascii' full differ sound =
    let hash = token_hash hashes token in
    let other = token_hash hashes old in
    let (s0, made, local) = reset_opened urandom token_hex now argument root hash same len sound in
    let s = (reset_registration hash now s0).1 in
    let t : NodeIdentityStore = record s {
      state = record s.state { registration_token_hash = other };
    } in
    (
      t,
      rw made (
          restart_installs other token_hex' urandom' s.local_key s.state s.audit_file
            (ap length local ∙ sound) full differ),
      λ e.
          differ (
            sym
              ((register-ok_iff cipher hashes token panel_id key seed now' t ascii ascii').0 e).1),
      (register-ok_iff cipher hashes old panel_id key seed now' t ascii' ascii').1
          ((nonempty_iff other).0 full, refl),
    )
