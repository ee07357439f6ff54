-- ===== src/App/Patch.antt =====
-- `PUT /v1/cores/{core_id}/settings` of node_agent/app.py, behind its signed request: the settings
-- policy, the driver's settings and the state store together.
pub mod Persistence
use rc_node.Base.{
  ◌<◌, String, ◌<>◌, Bool, not, none, some, List, [], ◌∷◌, map, string_eq, nat_eq, Result, ok, err,
  http_exception, key_error,
}
use rc_node.Base.Int.{ℤ}
use rc_node.Base.Dict.{Dict, lookup, insert, update, keys}
use rc_node.Base.Json.{Json, Coercions, of_elements}
use rc_node.Security.Cipher.{Cipher}
use rc_node.Security.Signature.{Bytes}
use rc_node.Security.Identity.{NodeIdentityStore, audit}
use rc_node.State.{NodeCoreStateStore, save_state}
use rc_node.App.Settings.{Host, authorize_core, mask_settings}

-- What the endpoint reads and writes: the identity, the state store, and of the core manager the
-- settings of each installed core's driver.
pub record Cores : Type 0 where
  pub identity : NodeIdentityStore
  pub store : NodeCoreStateStore
  pub settings : Dict String (Dict String Json)

-- What the core manager says of its cores: `_states`, by the values of the states, and `is_enabled`.
pub record Manager : Type 0 where
  pub states : Dict String String
  pub is_enabled : String → Bool

-- `{**dict(driver.settings or {}), **body.settings}`
abbrev pub merged_with : Dict String Json → Dict String Json → Dict String Json
merged_with old patch = update old patch

abbrev names : List String → Json
names keys = Json.array (of_elements (map Json.text keys))

module _ (cipher : Cipher) (py : Coercions) (str_lower : String → String) (str_of : Json → String)
    (sorted : List String → List String) (host : Host) (manager : Manager) where
  abbrev note : ℤ → String → Dict String Json → Cores → Cores
  note now core_id patch s = record s {
    identity =
        (audit now "core.settings"
          (("core_id", Json.text core_id) ∷ ("keys", names (sorted (keys patch))) ∷ [])
          s.identity).1;
  }

  -- The endpoint behind the write.
  unfoldable pub persisted :
      ℤ
      → String
      → Dict String Json
      → Dict String Json
      → Result (Unit {0})
      → Cores
      → Result (Dict String Json) × Cores
  persisted now core_id patch merged (err e) s = (err e, s)
  persisted now core_id patch merged (ok _) s =
      (ok (mask_settings str_lower str_of merged), note now core_id patch s)

  -- The endpoint behind its refusals. The driver has the new settings before they are written.
  unfoldable pub patch_driver :
      (String → Bytes)
      → Bool
      → ℤ
      → String
      → Dict String Json
      → Dict String Json
      → Cores
      → Result (Dict String Json) × Cores
  unfolding persisted
  patch_driver nonces writable now core_id patch old s =
      let merged = merged_with old patch in
      let s' = record s { settings = insert core_id merged s.settings } in
      elim (lookup core_id manager.states) [
        | none ↦ (err key_error, s')
        | some state ↦
            let (outcome, store) =
              save_state cipher py nonces writable core_id state (manager.is_enabled core_id)
                (some merged) s.store in
            persisted now core_id patch merged outcome (record s' { store = store })
      ]

  -- `core_settings_update`, which answers the masked settings. The flag says whether the file system
  -- takes the write.
  unfoldable pub core_settings_update :
      (String → Bytes)
      → Bool
      → ℤ
      → String
      → Dict String Json
      → Cores
      → Result (Dict String Json) × Cores
  unfolding patch_driver
  core_settings_update nonces writable now core_id patch s =
      elim (authorize_core str_lower host core_id patch) [
        | err e ↦ (err e, s)
        | ok _ ↦ elim (lookup core_id s.settings) [
          | none ↦ (err (http_exception 404 ("core '" <> core_id <> "' is not installed")), s)
          | some old ↦ patch_driver nonces writable now core_id patch old s
        ]
      ]
