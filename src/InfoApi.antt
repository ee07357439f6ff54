-- ===== src/InfoApi.antt =====
-- node_agent/info_api.py: the port that answers without credentials. What the environment says, the
-- cores, the clock and the server are parameters; texts are in ASCII.
pub mod Secrets
use rc_node.Base.{
  contains, other_error, Error, ℕ, zero, suc, ◌<◌, String, ◌<>◌, Bool, true, not, List, [], ◌∷◌,
  if◌then◌else◌, string_eq, nat_eq, Result, ok, err, is_some,
}
use rc_node.Base.Json.{Json, of_entries}
use rc_node.Base.Dict.{Dict}
use rc_node.Base.Text.Decimal.{str_int}
use rc_node.Base.Text.Trim.{strip, lower}
use rc_node.Config.{NodeConfig}
use rc_node.App.Settings.{node_core_allowlist}
use rc_node.Tls.{NodeCertificate}
use rc_node.Cli.{Versions, null_or, texts}
use rc_node.Security.Cipher.{Cipher}
use rc_node.Security.Identity.{NodeIdentityStore, signing_key, has_pending_token}

-- `detail` is ZAGROS_NODE_INFO_DETAIL with its default, `pem` the text of the certificate file or what
-- reading it raises, and `sorted` Python's function.
pub record Surroundings : Type 0 where
  pub versions : Versions
  pub detail : String
  pub pem : NodeCertificate → Result String
  pub uptime : Json
  pub list_cores : List String
  pub sorted : List String → List String

-- `_detailed`
unfoldable pub detailed : Surroundings → Bool
detailed around = contains ("1" ∷ "true" ∷ "yes" ∷ "on" ∷ []) (lower (strip around.detail))

-- `set(cores)`, in some order
abbrev pub distinct : List String → List String
distinct [] = []
distinct (x ∷ xs) = let rest = distinct xs in if contains xs x then rest else x ∷ rest

-- `names - installed`
abbrev pub without : List String → List String → List String
without installed [] = []
without installed (x ∷ xs) =
    let rest = without installed xs in if contains installed x then rest else x ∷ rest

-- The entry that is there only with `_detailed`.
unfoldable pub inventory : Surroundings → Dict String Json
unfolding detailed
inventory around =
    let installed = distinct around.list_cores in
    let cores =
      ("installed", texts (around.sorted installed))
      ∷ ("available", texts (around.sorted (without installed node_core_allowlist)))
      ∷ [] in
    if detailed around then ("cores", Json.object (of_entries cores)) ∷ [] else []

module _ (cipher : Cipher) (around : Surroundings) (config : NodeConfig)
    (certificate : NodeCertificate) where
  unfoldable pub payload : NodeIdentityStore → Bool → String → Dict String Json
  unfolding inventory
  payload s registered pem =
      ("node_id", Json.text s.state.node_id)
      ∷ ("name", null_or config.name)
      ∷ ("agent", Json.text around.versions.agent_name)
      ∷ ("agent_version", Json.text around.versions.agent_version)
      ∷ ("api_version", around.versions.api_version)
      ∷ ("control_plane_port", Json.number config.port)
      ∷ ("info_port", Json.number config.api_port)
      ∷ ("registered", Json.boolean registered)
      ∷ ("pending_token", Json.boolean (has_pending_token s))
      ∷ ("certificate_sha256", Json.text certificate.fingerprint)
      ∷ ("certificate_pem", Json.text pem)
      ∷ ("certificate_not_after", Json.text certificate.not_after)
      ∷ ("uptime_seconds", around.uptime)
      ∷ inventory around

  -- `node_info`
  unfoldable pub node_info : NodeIdentityStore → Result (Dict String Json)
  unfolding payload
  node_info s = elim (signing_key cipher s) [
    | err e ↦ err e
    | ok key ↦ elim (around.pem certificate) [
      | err e ↦ err e
      | ok pem ↦ ok (payload s (is_some key) pem)
    ]
  ]

  -- `healthz`
  unfoldable pub healthz : NodeIdentityStore → Result (Dict String Json)
  healthz s = elim (signing_key cipher s) [
    | err e ↦ err e
    | ok key ↦ ok (("ok", Json.boolean true) ∷ ("registered", Json.boolean (is_some key)) ∷ [])
  ]

  -- `fingerprint`
  unfoldable pub fingerprint : NodeIdentityStore → Dict String Json
  fingerprint s =
      ("node_id", Json.text s.state.node_id)
      ∷ ("certificate_sha256", Json.text certificate.fingerprint)
      ∷ []

-- What a pass of the loop of `start_info_server` finds: the server has started, its task has ended
-- with or without an exception, or neither.
pub data Poll : Type 0 where
  is_started : Poll
  has_failed : Error → Poll
  has_ended : Poll
  waiting : Poll

unfoldable pub await_start : NodeConfig → (ℕ → Poll) → ℕ → ℕ → Result (Unit {0})
await_start config poll zero n = err (
    other_error (
      "info port "
      <> (str_int config.api_port
          <> (" did not bind within 10s " <> "(is it already in use? see ZAGROS_NODE_API_PORT)"))))
await_start config poll (suc passes) n =
    let rest = await_start config poll passes (suc n) in
    elim (poll n) [ is_started ↦ ok tt | has_failed e ↦ err e | has_ended ↦ rest | waiting ↦ rest ]

-- `start_info_server`, up to its answer
unfoldable pub start_info_server : NodeConfig → (ℕ → Poll) → Result (Unit {0})
unfolding await_start
start_info_server config poll = await_start config poll 200 0
