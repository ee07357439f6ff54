-- ===== src/App/Cores.antt =====
-- The endpoints of node_agent/app.py that read the cores of a node, behind their signed requests:
-- the status, the version, the logs and the settings of one core, the catalogue, the online devices,
-- and the information on the node. The core manager, the drivers and the host are parameters.
pub mod Devices
pub mod Reported
pub mod Sessions
use rc_node.Base.{
  ℕ, ◌+◌, ◌<◌, String, ◌<>◌, Bool, true, ◌&&◌, not, Option, none, some, List, [], ◌∷◌, ◌++◌, map,
  if◌then◌else◌, leb, string_eq, nat_eq, Result, ok, err, is_some, http_exception, contains,
}
use rc_node.Base.Int.{ℤ, pos, negsuc}
use rc_node.Base.Json.{Json, of_entries}
use rc_node.Base.Dict.{Dict, insert, has_key}
use rc_node.App.Settings.{Host, authorize_core, node_core_allowlist, mask_settings}
use rc_node.Config.{NodeConfig}
use rc_node.Tls.{NodeCertificate}
use rc_node.Cli.{null_or, texts}
use rc_node.InfoApi.{Surroundings, without}
use rc_node.Security.Cipher.{Cipher}
use rc_node.Security.Identity.{NodeIdentityStore, signing_key}

-- What the core manager and the drivers tell. `online_devices` is an error where the driver raises or
-- takes too long, and else has what `model_dump` of each session gives or raises.
pub record Readings : Type 0 where
  pub list_cores : List String
  pub status : String → Result Json
  pub version : String → Result Json
  pub logs : String → ℕ → Result (List String)
  pub settings : String → Dict String Json
  pub is_running : String → Bool
  pub metadata : String → Json
  pub tracks_devices : String → Bool
  pub is_enabled : String → Option Bool
  pub online_devices : String → Result (List (Result (Dict String Json)))

-- `max(1, min(tail, 2000))`
unfoldable pub tail_of : ℤ → ℕ
tail_of (pos n) = if leb n 0 then 1 else if leb n 2000 then n else 2000
tail_of (negsuc n) = 1

-- `names.intersection(others)`
abbrev pub kept : List String → List String → List String
kept others [] = []
kept others (x ∷ xs) = let rest = kept others xs in if contains others x then x ∷ rest else rest

-- `dict.setdefault`
abbrev pub set_default : String → Json → Dict String Json → Dict String Json
set_default key value d = if has_key key d then d else insert key value d

-- What `runtime_devices` answers: `devices` and `failed_cores`.
pub record DevicesAnswer : Type 0 where
  pub devices : List (Dict String Json)
  pub failed_cores : List String

module _ (str_lower : String → String) (str_of : Json → String) (host : Host)
    (readings : Readings) where
  -- The refusals of the four endpoints on one core.
  unfoldable pub installed : String → Result (Unit {0})
  installed core_id = elim (authorize_core str_lower host core_id []) [
    | err e ↦ err e
    | ok _ ↦
        if contains readings.list_cores core_id
        then ok tt
        else err (http_exception 404 ("core '" <> (core_id <> "' is not installed")))
  ]

  -- `core_status`
  unfoldable pub core_status : String → Result Json
  unfolding installed
  core_status core_id = elim (installed core_id) [ err e ↦ err e | ok _ ↦ readings.status core_id ]

  -- `core_version`
  unfoldable pub core_version : String → Result Json
  unfolding installed
  core_version core_id = elim (installed core_id) [
    | err e ↦ err e
    | ok _ ↦ readings.version core_id
  ]

  -- `core_logs`, as its lines
  unfoldable pub core_logs : String → ℤ → Result (List String)
  unfolding installed tail_of
  core_logs core_id tail = elim (installed core_id) [
    | err e ↦ err e
    | ok _ ↦ readings.logs core_id (tail_of tail)
  ]

  -- `core_settings`, as its settings
  unfoldable pub core_settings : String → Result (Dict String Json)
  unfolding installed
  core_settings core_id = elim (installed core_id) [
    | err e ↦ err e
    | ok _ ↦ ok (mask_settings str_lower str_of (readings.settings core_id))
  ]

module _ (sorted : List String → List String) (host : Host) (readings : Readings) where
  -- `sorted(NODE_CORE_ALLOWLIST.intersection(available_drivers()) - installed)`
  unfoldable pub catalogue : List String
  catalogue = sorted (without readings.list_cores (kept host.available_drivers node_core_allowlist))

  unfoldable pub previews : List String → Dict String Json
  previews [] = []
  previews (core_id ∷ ids) = (core_id, readings.metadata core_id) ∷ previews ids

  -- `cores`, from the `status_all` of the core manager
  unfoldable pub cores : Dict String Json → Dict String Json
  unfolding catalogue previews
  cores statuses =
      ("installed", Json.object (of_entries statuses))
      ∷ ("features", Json.object (of_entries (("xray_tls_material", Json.number (pos 1)) ∷ [])))
      ∷ ("available", texts catalogue)
      ∷ ("preview", Json.object (of_entries (previews catalogue)))
      ∷ []

  abbrev pub running : List String → List String
  running [] = []
  running (core_id ∷ ids) =
      let rest = running ids in if readings.is_running core_id then core_id ∷ rest else rest

  -- `_cores_summary`
  unfoldable pub cores_summary : Dict String Json
  cores_summary =
      ("installed", texts readings.list_cores)
      ∷ ("running", texts (sorted (running readings.list_cores)))
      ∷ []

  -- `_node_info(detailed=True)`, the answer of `info`. `resources` is the answer of `_resources`.
  unfoldable pub detailed_info :
      Cipher
      → Surroundings
      → NodeConfig
      → NodeCertificate
      → Json
      → NodeIdentityStore
      → Result (Dict String Json)
  unfolding cores_summary
  detailed_info cipher around config certificate resources s = elim (signing_key cipher s) [
    | err e ↦ err e
    | ok key ↦ elim (around.pem certificate) [
      | err e ↦ err e
      | ok pem ↦ ok (
          ("node_id", Json.text s.state.node_id)
          ∷ ("name", null_or config.name)
          ∷ ("agent", Json.text around.versions.agent_name)
          ∷ ("agent_version", Json.text around.versions.agent_version)
          ∷ ("api_version", around.versions.api_version)
          ∷ ("control_plane_port", Json.number config.port)
          ∷ ("info_port", Json.number config.api_port)
          ∷ ("registered", Json.boolean (is_some key))
          ∷ (
            "registered_panel",
            elim s.state.registered_panel [ none ↦ Json.null | some p ↦ Json.text p ],
          )
          ∷ ("uptime_seconds", around.uptime)
          ∷ ("certificate_sha256", Json.text certificate.fingerprint)
          ∷ ("certificate_pem", Json.text pem)
          ∷ ("certificate_not_after", Json.text certificate.not_after)
          ∷ ("image", Json.text config.image)
          ∷ ("allowlist", texts (sorted node_core_allowlist))
          ∷ ("cores", Json.object (of_entries cores_summary))
          ∷ ("resources", resources)
          ∷ [])
    ]
  ]

  -- `health`
  unfoldable pub health : Json → Json → NodeIdentityStore → Dict String Json
  unfolding cores_summary
  health uptime resources s =
      ("node_id", Json.text s.state.node_id)
      ∷ ("healthy", Json.boolean true)
      ∷ ("uptime_seconds", uptime)
      ∷ ("resources", resources)
      ∷ ("cores", Json.object (of_entries cores_summary))
      ∷ []

-- The inner loop on the sessions of a core, behind those of the cores before it.
unfoldable pub tag_sessions :
    String
    → List (Result (Dict String Json))
    → List (Dict String Json)
    → Result (List (Dict String Json))
tag_sessions core_id [] sessions = ok sessions
tag_sessions core_id (err e ∷ found) sessions = err e
tag_sessions core_id (ok payload ∷ found) sessions =
    tag_sessions core_id found (sessions ++ set_default "core_id" (Json.text core_id) payload ∷ [])

module _ (readings : Readings) where
  -- `_capable_drivers(Capability.ONLINE_TRACKING)`
  unfoldable pub tracking : List String → List String
  tracking [] = []
  tracking (core_id ∷ ids) =
      let rest = tracking ids in
      elim (readings.is_enabled core_id) [
        | none ↦ rest
        | some enabled ↦ if enabled && readings.tracks_devices core_id then core_id ∷ rest else rest
      ]

  -- The loop of `runtime_devices`.
  unfoldable pub read_devices :
      List String → List (Dict String Json) → List String → Result DevicesAnswer
  unfolding tag_sessions
  read_devices [] sessions failed = ok (record { devices = sessions; failed_cores = failed })
  read_devices (core_id ∷ ids) sessions failed = elim (readings.online_devices core_id) [
    | err e ↦ read_devices ids sessions (failed ++ core_id ∷ [])
    | ok found ↦ elim (tag_sessions core_id found sessions) [
      | err e ↦ err e
      | ok sessions' ↦ read_devices ids sessions' failed
    ]
  ]

  -- `runtime_devices`
  unfoldable pub runtime_devices : Result DevicesAnswer
  unfolding tracking read_devices
  runtime_devices = read_devices (tracking readings.list_cores) [] []
