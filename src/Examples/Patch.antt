-- ===== src/Examples/Patch.antt =====
-- A patch of the settings of one core.
use rc_node.Base.{
  String, ◌≡◌, refl, true, false, none, some, [], ◌∷◌, if◌then◌else◌, ◌==◌, string_eq, nat_eq, ok,
}
use rc_node.Base.Int.{pos}
use rc_node.Base.Dict.{Dict, lookup}
use rc_node.Base.Text.Trim.{lower}
use rc_node.Base.Json.{Json}
use rc_node.Base.Json.Json.{text}
use rc_node.State.{CoreRecord, load}
use rc_node.App.Settings.{
  Host, authorize_core, mask_settings, unknown, allowed, check_paths, escapes, is_pathish,
}
use rc_node.App.Patch.{Cores, Manager, core_settings_update}
use rc_node.App.Patch.Persistence.{core_settings_update-load}
use rc_node.Examples.Data.{armed}
use rc_node.Examples.State.{cipher, py, Storable, seals, fresh, nothing, text_of}

abbrev host : Host
host = record {
  available_drivers = "xray" ∷ [];
  schema_properties = λ core_id. "psk" ∷ [];
  default_settings = λ core_id. [];
  is_absolute = λ path. false;
  resolve = λ path. [];
  core_root = "/cores";
  repr_sorted = λ names. "[]";
}

abbrev manager : Manager
manager = record { states = ("xray", "running") ∷ []; is_enabled = λ core_id. true }

abbrev cores : Cores
cores = record {
  identity = armed;
  store = fresh;
  settings = ("xray", ("psk", text "old") ∷ []) ∷ [];
}

abbrev patch : Dict String Json
patch = ("psk", text "new") ∷ []

authorized : authorize_core lower host "xray" patch ≡ ok tt
unfolding authorize_core string_eq unknown allowed check_paths escapes is_pathish lower nat_eq
authorized = refl

core_settings_update-load_example :
    let (answer, s') =
      core_settings_update cipher py lower text_of
        (λ names. names)
        host
        manager
        (λ c. [])
        true
        (pos 0)
        "xray"
        patch
        cores in
    (answer ≡ ok (mask_settings lower text_of patch))
    × (lookup "xray" s'.settings ≡ some patch)
    × ((value : Dict String CoreRecord) × ((load cipher py (λ c. []) true s'.store).0 ≡ ok value)
        × ((k : String)
            → lookup k value ≡ (
                if k == "xray"
                then some (record { state = text "running"; enabled = true; settings = patch })
                else none)))
unfolding string_eq
core_settings_update-load_example =
    core_settings_update-load cipher py Storable seals lower text_of (λ names. names) host manager
      (λ c. []) (λ c. []) (pos 0) "xray" "running" patch (("psk", text "old") ∷ []) cores
      (λ core_id. none) authorized refl refl (refl, refl) nothing
