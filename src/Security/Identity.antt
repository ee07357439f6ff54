-- ===== src/Security/Identity.antt =====
-- `NodeIdentityStore` of node_agent/security.py. Random bytes and the clock are arguments. That a
-- write of `identity.json` or of the audit log fails is not modelled.
pub mod Registration
pub mod OneTime
pub mod Rearm
use rc_node.Base.{
  Bool, true, false, ◌&&◌, not, Option, none, some, String, List, [], ◌∷◌, ◌++◌, length, ◌<>◌,
  if◌then◌else◌, string_eq, nat_eq, ◌==◌, Result, Exec, ok, err, security_error, zero, suc, ◌-◌,
  drop,
}
use rc_node.Base.Int.{ℤ, pos, negsuc}
use rc_node.Base.Dict.{Dict, lookup}
use rc_node.Base.Json.{Json, text}
use rc_node.Base.Text.{is_nonempty}
use rc_node.Base.Text.Codes.{codes, utf8}
use rc_node.Base.Base64.{b64encode, b64decode}
use rc_node.Security.Cipher.{Cipher}
use rc_node.Security.Signature.{Bytes, Hashes, compare_digest}

-- `identity.json`
pub record IdentityState : Type 0 where
  pub node_id : String
  pub registration_token_hash : String
  pub signing_key_enc : Option String
  pub registered_panel : Option String
  pub registered_at : Option ℤ

-- A line of `audit.jsonl`.
pub record AuditRow : Type 0 where
  pub ts : ℤ
  pub action : String
  pub detail : Dict String Json

-- The files of the root directory, before a store is opened on it.
pub record Root : Type 0 where
  pub key_file : Option Bytes
  pub identity_file : Option IdentityState
  pub audit_file : List AuditRow

-- An open store: the key of its cipher, and the two files that its methods read and write.
pub record NodeIdentityStore : Type 0 where
  pub local_key : Bytes
  pub state : IdentityState
  pub audit_file : List AuditRow

abbrev pub or_new : Option Bytes → Bytes → Bytes
or_new none new = new
or_new (some key) new = key

abbrev or_empty : Option String → String
or_empty none = ""
or_empty (some s) = s

-- The last `if` of `__init__`.
initial_state : Option String → String → Option IdentityState → IdentityState
initial_state hash token_hex none = record {
  node_id = token_hex;
  registration_token_hash = or_empty hash;
  signing_key_enc = none;
  registered_panel = none;
  registered_at = none;
}
initial_state hash token_hex (some state) =
    if is_nonempty (or_empty hash) && not (state.registration_token_hash == or_empty hash)
    then record state { registration_token_hash = or_empty hash }
    else state

-- `__init__`, with `os.urandom(32)` and `secrets.token_hex(16)`
unfoldable pub init : Option String → Bytes → String → Root → Result NodeIdentityStore
unfolding initial_state
init hash urandom token_hex root =
    let local_key = or_new root.key_file urandom in
    if length local_key == 32
    then ok (record {
      local_key = local_key;
      state = initial_state hash token_hex root.identity_file;
      audit_file = root.audit_file;
    })
    else err (security_error "identity.key must contain exactly 32 bytes")

-- The files that a store leaves behind.
abbrev pub root_of : NodeIdentityStore → Root
root_of s = record {
  key_file = some s.local_key;
  identity_file = some s.state;
  audit_file = s.audit_file;
}

unfoldable pub has_pending_token : NodeIdentityStore → Bool
has_pending_token s = is_nonempty s.state.registration_token_hash

unfoldable pub audit : ℤ → String → Dict String Json → Exec NodeIdentityStore Unit
audit now action detail s = (
  ok tt,
  record s {
    audit_file = s.audit_file ++ (record { ts = now; action = action; detail = detail }) ∷ [];
  },
)

abbrev aad : String → String
aad node_id = "node-signing:" <> node_id

-- The test of `register`: `expected and hmac.compare_digest(expected, actual)`.
token_matches : String → String → Result Bool
unfolding compare_digest
token_matches expected actual =
    if is_nonempty expected then compare_digest expected actual else ok false

module _ (cipher : Cipher) where
  unfoldable pub seal_signing_key : Bytes → Bytes → Bytes → String → String
  seal_signing_key local_key seed key node_id =
      cipher.encrypt_json local_key seed (("key", text (b64encode key)) ∷ []) (aad node_id)

  -- The body of the `try`: any exception of it is the same NodeSecurityError.
  unseal : Bytes → String → String → Option Bytes
  unseal local_key value node_id = elim (cipher.decrypt_json local_key value (aad node_id)) [
    | none ↦ none
    | some unsealed ↦ elim (lookup "key" unsealed) [ some (text s) ↦ b64decode s | _ ↦ none ]
  ]

  unfoldable pub signing_key : NodeIdentityStore → Result (Option Bytes)
  unfolding unseal
  signing_key s =
      let value = or_empty s.state.signing_key_enc in
      if is_nonempty value
      then elim (unseal s.local_key value s.state.node_id) [
        | none ↦ err (security_error "node signing key cannot be unsealed")
        | some key ↦
            if length key == 32
            then ok (some key)
            else err (security_error "node signing key has invalid length")
      ]
      else ok none

  -- The statements of `register` behind its check of the token.
  complete_registration : String → Bytes → Bytes → ℤ → Exec NodeIdentityStore Bytes
  unfolding audit seal_signing_key
  complete_registration panel_id key seed now s =
      let registered = record s {
        state = record {
          node_id = s.state.node_id;
          registration_token_hash = "";
          signing_key_enc = some (seal_signing_key s.local_key seed key s.state.node_id);
          registered_panel = some panel_id;
          registered_at = some now;
        };
      } in
      (ok key, (audit now "node.register" (("panel_id", text panel_id) ∷ []) registered).1)

  -- What `register` does on the outcome of its test of the token.
  decide_registration : Result Bool → String → Bytes → Bytes → ℤ → Exec NodeIdentityStore Bytes
  unfolding complete_registration
  decide_registration (err e) panel_id key seed now s = (err e, s)
  decide_registration (ok true) panel_id key seed now s =
      complete_registration panel_id key seed now s
  decide_registration (ok false) panel_id key seed now s =
      (err (security_error "invalid or already-consumed registration token"), s)

  -- `key` is `secrets.token_bytes(32)`, and `seed` the randomness of the cipher.
  unfoldable pub register :
      Hashes → String → String → Bytes → Bytes → ℤ → Exec NodeIdentityStore Bytes
  unfolding decide_registration token_matches
  register hashes token panel_id key seed now s =
      decide_registration
        (token_matches s.state.registration_token_hash (hashes.sha256_hex (utf8 (codes token))))
        panel_id key seed now s

-- The statements that `revoke` and `reset_registration` share.
abbrev unpaired : IdentityState → IdentityState
unpaired state = record state {
  signing_key_enc = none;
  registered_panel = none;
  registered_at = none;
}

unfoldable pub revoke : ℤ → Exec NodeIdentityStore Unit
unfolding audit
revoke now s = audit now "node.revoke" [] (record s { state = unpaired s.state })

unfoldable pub reset_registration : String → ℤ → Exec NodeIdentityStore Unit
unfolding audit
reset_registration hash now s =
    audit now "node.reset_registration" []
      (record s { state = record (unpaired s.state) { registration_token_hash = hash } })

-- `lines[-limit:]`: the last rows for a positive limit, all of them for 0, and those from a
-- position on for a negative one.
abbrev from_end : {A : Type 0} → ℤ → List A → List A
from_end (pos zero) lines = lines
from_end (pos (suc n)) lines = drop (length lines - suc n) lines
from_end (negsuc n) lines = drop (suc n) lines

-- Every line is one that `audit` has written, so each parses.
unfoldable pub audit_tail : ℤ → NodeIdentityStore → List AuditRow
audit_tail limit s = from_end limit s.audit_file
