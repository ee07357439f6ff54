-- ===== src/Examples/Cores.antt =====
-- A node with two cores, one of which cannot be read, and the settings of its drivers.
use rc_node.Examples.Data.{differ}
use rc_node.Base.{
  String, ◌≡◌, refl, ◌≢◌, true, some, List, [], ◌∷◌, if◌then◌else◌, ◌==◌, string_eq, nat_eq, Result,
  ok, err, other_error,
}
use rc_node.Base.Int.{pos}
use rc_node.Base.Json.{Json, text}
use rc_node.Base.Dict.{Dict, lookup}
use rc_node.App.Roots.{
  node_driver_settings, core_root, core_root_default, without_slashes, relocation, behind,
}
use rc_node.App.Roots.Relocated.{lookup-node_driver_settings, or_else, moved}
use rc_node.App.Cores.{Readings, tracking, runtime_devices, read_devices, tag_sessions}
use rc_node.App.Cores.Devices.{runtime_devices-IsAnswer}
use rc_node.App.Cores.Reported.{IsAnswer}
use rc_node.Base.Text.Trim.{strip}

abbrev devices_of : String → Result (List (Result (Dict String Json)))
devices_of core_id =
    if core_id == "ssh"
    then err (other_error "closed")
    else ok (ok (("ip", text "10.8.0.2") ∷ []) ∷ [])

abbrev readings : Readings
readings = record {
  list_cores = "ssh" ∷ "wireguard" ∷ [];
  status = λ core_id. ok Json.null;
  version = λ core_id. ok Json.null;
  logs = λ core_id tail. ok [];
  settings = λ core_id. [];
  is_running = λ core_id. true;
  metadata = λ core_id. Json.null;
  tracks_devices = λ core_id. true;
  is_enabled = λ core_id. some true;
  online_devices = devices_of;
}

runtime_devices-IsAnswer_example : IsAnswer readings (runtime_devices readings)
runtime_devices-IsAnswer_example = runtime_devices-IsAnswer readings

answered :
    runtime_devices readings
    ≡ ok (record {
      devices = (("ip", text "10.8.0.2") ∷ ("core_id", text "wireguard") ∷ []) ∷ [];
      failed_cores = "ssh" ∷ [];
    })
unfolding runtime_devices tracking read_devices tag_sessions string_eq
answered = refl

root_read : core_root " /srv/zagros/ " ≡ "/srv/zagros"
unfolding core_root without_slashes strip nat_eq
root_read = refl

other_root : "/srv" ≢ core_root_default
unfolding string_eq
other_root = differ refl

abbrev defaults : Dict String Json
defaults = ("config_path", text "/var/lib/zagros/x.json") ∷ ("port", Json.number (pos 1)) ∷ []

lookup-node_driver_settings_example :
    lookup {K = String} "config_path" (node_driver_settings "/srv" (some defaults) []) ≡ (
      if ◌==◌ {A = String} "config_path" "_runtime_mode"
      then some (text "node")
      else or_else
          (lookup {K = String} {V = Json} "config_path" [])
          (moved "/srv" "config_path" defaults))
lookup-node_driver_settings_example =
    lookup-node_driver_settings "/srv" "config_path" defaults [] other_root

relocated : moved "/srv" "config_path" defaults ≡ some (text "/srv/x.json")
unfolding relocation behind string_eq nat_eq
relocated = refl
