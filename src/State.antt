-- ===== src/State.antt =====
-- node_agent/state.py: what the core manager persists of each core, with the settings sealed. The
-- file is the value of its JSON; its objects are read by key, so the order that `sort_keys` gives
-- their entries is not modelled.
pub mod Sealing
pub mod Calls
pub mod Refinement
pub mod Migration
use rc_node.Base.{
  ◌-◌, ◌<◌, String, ◌<>◌, Bool, true, false, ◌&&◌, not, Option, none, some, [], ◌∷◌, if◌then◌else◌,
  ◌==◌, string_eq, nat_eq, length, Result, ok, err, Exec, Error, value_error, other_error, os_error,
  any, ◌>>=◌, ◌>>◌, pure,
}
use rc_node.Base.Dict.{Dict, lookup, insert, erase, has_key, values}
use rc_node.Base.Json.{
  Json, Coercions, str_json, dict_json, get_json, as_dict, truthy, of_entries, boolean, text,
  object,
}
use rc_node.Security.Cipher.{Cipher}
use rc_node.Security.Signature.{Bytes}

pub record CoreRecord : Type 0 where
  pub state : Json
  pub enabled : Bool
  pub settings : Dict String Json

-- `cores.json`. Reading or decoding an unreadable file raises the error.
pub data CoresFile : Type 0 where
  missing : CoresFile
  unreadable : Error → CoresFile
  content : Json → CoresFile

-- A store: the key of its cipher, and the file.
pub record NodeCoreStateStore : Type 0 where
  pub key : Bytes
  pub file : CoresFile

abbrev or_new : Option Bytes → Bytes → Bytes
or_new none new = new
or_new (some key) new = key

-- `__init__`, with `os.urandom(32)`, on the key file and the state file of its directory
unfoldable pub init : Bytes → Option Bytes → CoresFile → Result NodeCoreStateStore
init urandom key_file file =
    let key = or_new key_file urandom in
    if length key == 32
    then ok (record { key = key; file = file })
    else err (value_error "node state.key must contain exactly 32 bytes")

abbrev pub aad : String → String
aad core_id = "node-core:" <> core_id

-- `record.get(key, default)`
abbrev field_or : String → Json → Dict String Json → Json
field_or key default record' = elim (lookup key record') [ none ↦ default | some v ↦ v ]

-- The test of `_load_and_migrate` on one value of the file.
unfoldable pub is_plain : Json → Bool
is_plain raw = elim (as_dict raw) [
  | none ↦ false
  | some record' ↦ has_key "settings" record' && not (has_key "settings_enc" record')
]

unfoldable pub needs_migration : CoresFile → Bool
unfolding is_plain
needs_migration missing = false
needs_migration (unreadable e) = false
needs_migration (content raw) = elim (as_dict raw) [
  | none ↦ false
  | some cores ↦ any is_plain (values cores)
]

module _ (cipher : Cipher) (py : Coercions) where
  -- The settings of one record: sealed, or plain from before the sealing.
  unfoldable pub stored_settings : Bytes → String → Dict String Json → Result (Dict String Json)
  stored_settings key core_id record' =
      let sealed = get_json "settings_enc" record' in
      let plain = get_json "settings" record' in
      if truthy sealed
      then elim (cipher.decrypt_json key (str_json py sealed) (aad core_id)) [
        | none ↦ err (other_error "CipherError")
        | some settings ↦ ok settings
      ]
      else if truthy plain
      then dict_json py plain
      else ok []

  unfoldable pub read_record : Bytes → String → Dict String Json → Result CoreRecord
  unfolding stored_settings
  read_record key core_id record' = elim (stored_settings key core_id record') [
    | err e ↦ err e
    | ok settings ↦ ok (record {
      state = field_or "state" (text "installed") record';
      enabled = truthy (field_or "enabled" (boolean true) record');
      settings = settings;
    })
  ]

  abbrev prepend :
      String → Result CoreRecord → Result (Dict String CoreRecord) → Result (Dict String CoreRecord)
  prepend core_id (err e) rest = err e
  prepend core_id (ok r) (err e) = err e
  prepend core_id (ok r) (ok value) = ok ((core_id, r) ∷ value)

  -- The loop of `_read`. The keys of a decoded object differ.
  unfoldable pub read_entries : Bytes → Dict String Json → Result (Dict String CoreRecord)
  unfolding read_record
  read_entries key [] = ok []
  read_entries key ((core_id, raw) ∷ cores) =
      let rest = read_entries key cores in
      elim (as_dict raw) [
        | none ↦ rest
        | some record' ↦ prepend core_id (read_record key core_id record') rest
      ]

  -- `_read`
  unfoldable pub read : NodeCoreStateStore → Result (Dict String CoreRecord)
  read s = elim s.file [
    | missing ↦ ok []
    | unreadable e ↦ err e
    | content raw ↦ elim (as_dict raw) [ none ↦ ok [] | some cores ↦ read_entries s.key cores ]
  ]

  unfoldable pub seal_record : Bytes → Bytes → String → CoreRecord → Json
  seal_record key nonce core_id r = object (
      of_entries (
        ("state", r.state)
        ∷ ("enabled", boolean r.enabled)
        ∷ ("settings_enc", text (cipher.encrypt_json key nonce r.settings (aad core_id)))
        ∷ []))

  -- `nonces` has the random nonce that each core's settings are sealed with.
  unfoldable pub seal_entries : Bytes → (String → Bytes) → Dict String CoreRecord → Dict String Json
  unfolding seal_record
  seal_entries key nonces [] = []
  seal_entries key nonces ((core_id, r) ∷ value) =
      (core_id, seal_record key (nonces core_id) core_id r) ∷ seal_entries key nonces value

  -- `_write`. The flag says whether the file system takes the write.
  unfoldable pub write :
      (String → Bytes) → Bool → Dict String CoreRecord → Exec NodeCoreStateStore Unit
  write nonces writable value s =
      if writable
      then (
        ok tt,
        record s { file = content (object (of_entries (seal_entries s.key nonces value))) },
      )
      else (err os_error, s)

  -- `load`, which is `_load_and_migrate` under the lock
  unfoldable pub load : (String → Bytes) → Bool → Exec NodeCoreStateStore (Dict String CoreRecord)
  unfolding read write needs_migration
  load nonces writable s = elim (read s) [
    | err e ↦ (err e, s)
    | ok value ↦
        if needs_migration s.file
        then (write nonces writable value >>= λ _. pure value) s
        else (ok value, s)
  ]

  abbrev previous_settings : String → Dict String CoreRecord → Dict String Json
  previous_settings core_id value = elim (lookup core_id value) [ none ↦ [] | some r ↦ r.settings ]

  abbrev pub chosen_settings :
      Option (Dict String Json) → String → Dict String CoreRecord → Dict String Json
  chosen_settings none core_id value = previous_settings core_id value
  chosen_settings (some settings) core_id value = settings

  unfoldable pub save_state :
      (String → Bytes)
      → Bool
      → String
      → String
      → Bool
      → Option (Dict String Json)
      → Exec NodeCoreStateStore Unit
  unfolding read write
  save_state nonces writable core_id state enabled settings s = elim (read s) [
    | err e ↦ (err e, s)
    | ok value ↦
        write nonces writable
          (insert core_id
            (record {
              state = text state;
              enabled = enabled;
              settings = chosen_settings settings core_id value;
            })
            value)
          s
  ]

  unfoldable pub remove : (String → Bytes) → Bool → String → Exec NodeCoreStateStore Unit
  unfolding read write
  remove nonces writable core_id s = elim (read s) [
    | err e ↦ (err e, s)
    | ok value ↦ write nonces writable (erase core_id value) s
  ]
