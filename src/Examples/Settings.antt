-- ===== src/Examples/Settings.antt =====
-- A host with one core, its settings and their mask.
use rc_node.Base.{
  String, ◌≡◌, refl, ◌↔◌, Bool, true, false, List, [], ◌∷◌, if◌then◌else◌, ◌==◌, string_eq, nat_eq,
  All, ok, contains,
}
use rc_node.Base.Dict.{Dict}
use rc_node.Base.Json.{Json}
use rc_node.Base.Json.Json.{text}
use rc_node.Base.Text.Trim.{lower}
use rc_node.App.Settings.{Host, authorize_core, is_under, node_core_allowlist, allowed}
use rc_node.App.Settings.Policy.{IsPermitted, authorize_core-ok_iff, authorize_core-relative}

text_of : Json → String
text_of (Json.text s) = s
text_of _ = ""

absolute : String → Bool
absolute path = path == "/etc"

resolved : String → List String
resolved path = if path == "/cores" then "/" ∷ "cores" ∷ [] else "/" ∷ "etc" ∷ []

abbrev host : Host
host = record {
  available_drivers = "xray" ∷ [];
  schema_properties = λ core_id. "config_path" ∷ "api_token" ∷ [];
  default_settings = λ core_id. [];
  is_absolute = absolute;
  resolve = resolved;
  core_root = "/cores";
  repr_sorted = λ names. "[]";
}

abbrev settings : Dict String Json
settings = ("api_token", text "abc") ∷ ("config_path", text "x.json") ∷ []

abbrev other : Dict String Json
other = ("api_token", text "xyz") ∷ ("config_path", text "x.json") ∷ []

authorize_core-ok_iff_example : (authorize_core lower host "xray" settings ≡ ok tt) ↔ (
    (contains node_core_allowlist "xray" ≡ true)
    × (contains host.available_drivers "xray" ≡ true)
    × All (IsPermitted lower host "xray") settings)
authorize_core-ok_iff_example = authorize_core-ok_iff lower host "xray" settings

-- The path resolves outside the core root.
outside : is_under (host.resolve host.core_root) (host.resolve "../etc") ≡ false
unfolding is_under resolved string_eq
outside = refl

authorize_core-relative_example :
    authorize_core lower host "xray" (("config_path", text "../etc") ∷ []) ≡ ok tt
unfolding string_eq allowed absolute
authorize_core-relative_example =
    authorize_core-relative lower host "xray" "config_path" "../etc" refl refl refl refl
