-- ===== src/Cli.antt =====
-- node_agent/cli.py: the commands of the operator on the files of a node, each as what it prints and
-- what it leaves. The configuration, and the certificate of `tls.ensure`, are arguments; the parser of
-- arguments and the layout of the output are left out. Texts are in ASCII.
pub mod Reset
use rc_node.Base.{
  other_error, value_error, String, Bool, ◌&&◌, not, Option, none, some, List, [], ◌∷◌, map,
  if◌then◌else◌, ◌==◌, string_eq, nat_eq, length, Result, ok, err, is_some,
}
use rc_node.Base.Int.{ℤ}
use rc_node.Base.Json.{Json, truthy, get_json, as_dict, of_entries, of_elements}
use rc_node.Base.Dict.{keys, Dict, lookup}
use rc_node.Base.Text
use rc_node.Base.Text.{is_nonempty}
use rc_node.Base.Text.Trim.{strip, lower}
use rc_node.Config.{NodeConfig}
use rc_node.Tls.{NodeCertificate}
use rc_node.Security.Cipher.{Cipher}
use rc_node.Security.Signature.{Bytes}
use rc_node.Security.Identity.{
  NodeIdentityStore, Root, AuditRow, init, root_of, reset_registration, signing_key,
  has_pending_token, audit_tail,
}
use rc_node.State.{CoresFile, missing, unreadable, content}

-- What `cmd_reset_registration` prints: an error with exit code 2, or the answer.
pub data ResetOutput : Type 0 where
  bad_hash : ResetOutput
  rearmed : String → Bool → ResetOutput

abbrev or_empty : Option String → String
or_empty none = ""
or_empty (some s) = s

-- `(args.token_hash or "").strip().lower()`
abbrev pub token_hash_of : Option String → String
token_hash_of argument = lower (strip (or_empty argument))

-- `value or None`
abbrev pub or_none : String → Option String
or_none s = if is_nonempty s then some s else none

-- `cmd_reset_registration`, with `os.urandom(32)` and `secrets.token_hex(16)` for a new store
unfoldable pub cmd_reset_registration :
    Bytes → String → ℤ → Option String → Root → Result ResetOutput × Root
cmd_reset_registration urandom token_hex now argument root =
    let token_hash = token_hash_of argument in
    if is_nonempty token_hash && not (Text.length token_hash == 64)
    then (ok bad_hash, root)
    else elim (init (or_none token_hash) urandom token_hex root) [
      | err e ↦ (err e, root)
      | ok s ↦
          let s' = (reset_registration token_hash now s).1 in
          (ok (rearmed s'.state.node_id (is_nonempty token_hash)), root_of s')
    ]

-- `cmd_audit`, as the rows that it prints
unfoldable pub cmd_audit : Bytes → String → ℤ → Root → Result (List AuditRow)
cmd_audit urandom token_hex limit root = elim (init none urandom token_hex root) [
  | err e ↦ err e
  | ok s ↦ ok (audit_tail limit s)
]

-- `{... for core_id, record in raw.items() if isinstance(record, dict)}`
unfoldable pub core_rows : Dict String Json → Dict String Json
core_rows [] = []
core_rows ((core_id, value) ∷ raw) =
    let rest = core_rows raw in
    elim (as_dict value) [
      | none ↦ rest
      | some fields ↦
          (
            core_id,
            Json.object (
                of_entries (
                  ("state", get_json "state" fields)
                  ∷ ("enabled", get_json "enabled" fields)
                  ∷ [])),
          )
          ∷ rest
    ]

-- `_cores_state`. A file that is no JSON raises a ValueError.
unfoldable pub cores_state : CoresFile → Result (Dict String Json)
unfolding core_rows
cores_state missing = ok []
cores_state (unreadable (value_error m)) = ok []
cores_state (unreadable e) = err e
cores_state (content raw) = elim (as_dict raw) [
  | none ↦ err (other_error "AttributeError")
  | some d ↦ ok (core_rows d)
]

-- A line of `cmd_status`: the core, its state and whether it is enabled.
pub record StatusLine : Type 0 where
  pub core_id : String
  pub state : Json
  pub enabled : Bool

abbrev pub line_of : String → Dict String Json → StatusLine
line_of core_id fields = record {
  core_id = core_id;
  state = elim (lookup "state" fields) [ none ↦ Json.text "?" | some v ↦ v ];
  enabled = truthy (get_json "enabled" fields);
}

-- The loop of `cmd_status`, over the sorted ids of the cores
unfoldable pub status_lines : List String → Dict String Json → List StatusLine
status_lines [] states = []
status_lines (core_id ∷ ids) states =
    let rest = status_lines ids states in
    elim (lookup core_id states) [
      | none ↦ rest
      | some value ↦ elim (as_dict value) [
        | none ↦ rest
        | some fields ↦ line_of core_id fields ∷ rest
      ]
    ]

abbrev pub null_or : String → Json
null_or s = if is_nonempty s then Json.text s else Json.null

abbrev pub texts : List String → Json
texts xs = Json.array (of_elements (map Json.text xs))

-- `cmd_cert`
unfoldable pub cmd_cert : NodeConfig → NodeCertificate → Dict String Json
cmd_cert cfg certificate =
    ("node_name", null_or cfg.name)
    ∷ ("certificate_path", Json.text certificate.cert_path)
    ∷ ("key_path", Json.text certificate.key_path)
    ∷ ("certificate_sha256", Json.text certificate.fingerprint)
    ∷ ("not_after", Json.text certificate.not_after)
    ∷ ("sans", texts certificate.sans)
    ∷ []

-- The versions of node_agent/config.py
pub record Versions : Type 0 where
  pub agent_name : String
  pub agent_version : String
  pub api_version : Json

module _ (cipher : Cipher) (versions : Versions) where
  unfoldable pub info_payload :
      NodeConfig → NodeCertificate → NodeIdentityStore → Bool → Dict String Json → Dict String Json
  info_payload cfg certificate s registered cores =
      ("node_id", Json.text s.state.node_id)
      ∷ ("node_name", null_or cfg.name)
      ∷ ("agent", Json.text versions.agent_name)
      ∷ ("agent_version", Json.text versions.agent_version)
      ∷ ("api_version", versions.api_version)
      ∷ ("control_plane_port", Json.number cfg.port)
      ∷ ("info_port", Json.number cfg.api_port)
      ∷ ("image", Json.text cfg.image)
      ∷ ("registered", Json.boolean registered)
      ∷ (
        "registered_panel",
        elim s.state.registered_panel [ none ↦ Json.null | some p ↦ Json.text p ],
      )
      ∷ ("pending_token", Json.boolean (has_pending_token s))
      ∷ ("certificate_sha256", Json.text certificate.fingerprint)
      ∷ ("certificate_not_after", Json.text certificate.not_after)
      ∷ ("cores", Json.object (of_entries cores))
      ∷ []

  -- `cmd_info`
  unfoldable pub cmd_info :
      Bytes
      → String
      → NodeConfig
      → NodeCertificate
      → CoresFile
      → Root
      → Result (Dict String Json) × Root
  unfolding cores_state info_payload
  cmd_info urandom token_hex cfg certificate file root =
      elim (init (or_none cfg.registration_hash) urandom token_hex root) [
        | err e ↦ (err e, root)
        | ok s ↦ elim (signing_key cipher s) [
          | err e ↦ (err e, root_of s)
          | ok key ↦ elim (cores_state file) [
            | err e ↦ (err e, root_of s)
            | ok cores ↦ (ok (info_payload cfg certificate s (is_some key) cores), root_of s)
          ]
        ]
      ]

-- `cmd_status`; no line stands for the text that no core is installed.
unfoldable pub cmd_status : (List String → List String) → CoresFile → Result (List StatusLine)
unfolding cores_state status_lines
cmd_status sorted file = elim (cores_state file) [
  | err e ↦ err e
  | ok states ↦ ok (status_lines (sorted (keys states)) states)
]
