-- ===== src/App/Patch/Persistence.antt =====
-- A change of settings is what the next start of the agent reads.
use rc_node.Base.{
  String, ◌≡◌, refl, ap, ◌∙◌, true, Option, some, List, arith, if◌then◌else◌, ◌==◌, string_eq,
  nat_eq, Result, ok,
}
use rc_node.Base.Int.{ℤ}
use rc_node.Base.Dict.{Dict, lookup, insert, lookup-insert}
use rc_node.Base.Json.{Json, Coercions}
use rc_node.Base.Json.Json.{text}
use rc_node.Security.Cipher.{Cipher}
use rc_node.Security.Signature.{Bytes}
use rc_node.State.{NodeCoreStateStore, CoreRecord, save_state, load}
use rc_node.State.Sealing.{Seals, Represents, load-Represents}
use rc_node.State.Calls.{promise, save_state-Represents}
use rc_node.App.Settings.{Host, authorize_core, mask_settings}
use rc_node.App.Patch.{Cores, Manager, merged_with, persisted, patch_driver, core_settings_update}

module _ (cipher : Cipher) (py : Coercions) (Storable : Dict String Json → Type 0)
    (lawful : Seals cipher Storable) (str_lower : String → String) (str_of : Json → String)
    (sorted : List String → List String) (host : Host) (manager : Manager) where
  module _ (nonces : String → Bytes) (now : ℤ) (core_id state : String)
      (patch old : Dict String Json) (s : Cores) where
    saved : Result (Unit {0}) × NodeCoreStateStore
    saved =
        save_state cipher py nonces true core_id state (manager.is_enabled core_id)
          (some (merged_with old patch)) s.store

    core_settings_update-saved :
        authorize_core str_lower host core_id patch ≡ ok tt
        → lookup core_id s.settings ≡ some old
        → lookup core_id manager.states ≡ some state
        → saved.0 ≡ ok tt
        → let (answer, s') =
            core_settings_update cipher py str_lower str_of sorted host manager nonces true now
              core_id patch s in
          (answer ≡ ok (mask_settings str_lower str_of (merged_with old patch)))
          × (s'.store ≡ saved.1)
          × (s'.settings ≡ insert core_id (merged_with old patch) s.settings)
    unfolding core_settings_update patch_driver persisted saved
    core_settings_update-saved authorized installed running works =
        rw (authorized, installed, core_settings_update, running, patch_driver, works)
          (refl, refl, refl)

  -- A change of settings is kept over a restart. Where the policy allows the patch, the core is
  -- installed and its driver has settings, the store's file says what a map of the cores says, the
  -- merged settings are of the kind that decrypts, and the write succeeds: the answer is the mask of
  -- the merged settings, the driver has these, and a load of the store gives the core its state with
  -- exactly these settings, and every other core the record that it had.
  pub core_settings_update-load :
      (nonces nonces' : String → Bytes) (now : ℤ) (core_id state : String)
      (patch old : Dict String Json) (s : Cores) (m : String → Option CoreRecord)
      → authorize_core str_lower host core_id patch ≡ ok tt
      → lookup core_id s.settings ≡ some old
      → lookup core_id manager.states ≡ some state
      → Storable (merged_with old patch)
      → Represents cipher py Storable lawful s.store m
      → let (answer, s') =
          core_settings_update cipher py str_lower str_of sorted host manager nonces true now
            core_id patch s in
        (answer ≡ ok (mask_settings str_lower str_of (merged_with old patch)))
        × (lookup core_id s'.settings ≡ some (merged_with old patch))
        × ((value : Dict String CoreRecord) × ((load cipher py nonces' true s'.store).0 ≡ ok value)
            × ((k : String)
                → lookup k value ≡ (
                    if k == core_id
                    then some (record {
                      state = text state;
                      enabled = manager.is_enabled core_id;
                      settings = merged_with old patch;
                    })
                    else m k)))
  unfolding saved promise
  core_settings_update-load nonces nonces' now core_id state patch old s m authorized installed
        running p r =
      let (done, r') =
        save_state-Represents cipher py Storable lawful nonces core_id state
          (manager.is_enabled core_id) (merged_with old patch) s.store m p r in
      let (answer, stored, kept) =
        core_settings_update-saved nonces now core_id state patch old s authorized installed running
          done in
      let (after, loaded, r'') =
        load-Represents cipher py Storable lawful nonces'
          (saved nonces now core_id state patch old s).1 _ r' in
      (
        answer,
        ap (λ (d : Dict String (Dict String Json)). lookup core_id d) kept
            ∙ (lookup-insert core_id core_id (merged_with old patch) s.settings ∙ (ground arith)),
        (
          r'.value,
          ap (λ (t : NodeCoreStateStore). (load cipher py nonces' true t).0) stored
              ∙ ap (λ (x : Result (Dict String CoreRecord) × NodeCoreStateStore). x.0) loaded,
          λ k. r'.agrees k,
        ),
      )
