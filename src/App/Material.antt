-- ===== src/App/Material.antt =====
-- `_materialize_xray_tls` of node_agent/app.py, which writes the uploaded PEM pairs and puts their
-- paths into the document. A file is replaced by its `.part` file in one step.
pub mod Writes
pub mod Confined
use rc_node.Base.{
  ℕ, ◌<◌, String, ◌<>◌, not, Option, none, some, List, [], ◌∷◌, if◌then◌else◌, string_eq, nat_eq,
  Result, ok, err, type_error, texts_eq, Exec, pure, raise, ◌>>=◌, ◌>>◌, other_error,
}
use rc_node.App.Settings.{Host, is_under}
use rc_node.Base.Dict.{keys, Dict, lookup, insert}
use rc_node.Base.Text
use rc_node.Base.Json.{
  Json, Coercions, str_json, get_json, as_dict, truthy, elements, of_entries, of_elements,
}
use rc_node.App.Uploads.{material_prefix, after, is_pair, invalid, check_material, unused}

-- A file, with its mode.
pub record File : Type 0 where
  pub content : String
  pub mode : ℕ  -- 384 is 0o600, 420 is 0o644

-- The files of the host by their resolved paths, and the names in `consumed`.
pub record Materials : Type 0 where
  pub files : Dict (List String) File
  pub consumed : List String

-- The libraries that the functions call: `str(cert_dir / name)`, the parts of that path, and the
-- message of the exception of `validate_pem_pair`.
pub record Pems : Type 0 where
  pub path_text : List String → String → String
  pub join : List String → String → List String
  pub invalid_pair : String → String → Option String
  pub settings : Dict String Json  -- of the Xray driver

-- `str(pair.get(key) or "")`
abbrev pub ref_of : Coercions → String → Dict String Json → String
ref_of py key pair = let v = get_json key pair in if truthy v then str_json py v else ""

-- `d.get(key) or {}`; `.get` of a true value that is no object raises.
abbrev pub object_of : String → Dict String Json → Result (Dict String Json)
object_of key d =
    let v = get_json key d in
    if truthy v
    then elim (as_dict v) [ none ↦ err (other_error "AttributeError") | some o ↦ ok o ]
    else ok []

abbrev pub with_certificates :
    Dict String Json → Dict String Json → Dict String Json → List Json → Json
with_certificates inbound stream tls pairs =
    let tls' = insert "certificates" (Json.array (of_elements pairs)) tls in
    let stream' = insert "tlsSettings" (Json.object (of_entries tls')) stream in
    Json.object (of_entries (insert "streamSettings" (Json.object (of_entries stream')) inbound))

module _ (py : Coercions) (pems : Pems) (material : Dict String String)
    (cert_dir : List String) where
  -- Both files of a pair, and the names as consumed.
  unfoldable pub write_pair : String → String → String → String → Materials → Materials
  write_pair cert_name cert_pem key_name key_pem m = record {
    files =
        insert (pems.join cert_dir key_name) (record { content = key_pem; mode = 384 })
          (insert (pems.join cert_dir cert_name) (record { content = cert_pem; mode = 420 })
            m.files);
    consumed = cert_name ∷ key_name ∷ m.consumed;
  }

  abbrev resolved : String → String → Dict String Json → Json
  resolved cert_name key_name pair = Json.object (
      of_entries (
        insert "keyFile" (Json.text (pems.path_text cert_dir key_name))
          (insert "certificateFile" (Json.text (pems.path_text cert_dir cert_name)) pair)))

  -- A pair of references to uploads.
  unfoldable pub resolve_pair : String → String → Dict String Json → Exec Materials Json
  unfolding is_pair write_pair
  resolve_pair cert_name key_name pair m =
      if not (is_pair cert_name key_name)
      then (invalid "invalid paired Xray TLS material references", m)
      else elim (lookup cert_name material) [
        | none ↦ (invalid ("missing Xray TLS material '" <> cert_name <> "'"), m)
        | some cert_pem ↦ elim (lookup key_name material) [
          | none ↦ (invalid ("missing Xray TLS material '" <> key_name <> "'"), m)
          | some key_pem ↦ elim (pems.invalid_pair cert_pem key_pem) [
            | some message ↦ (invalid message, m)
            | none ↦ (
              ok (resolved cert_name key_name pair),
              write_pair cert_name cert_pem key_name key_pem m,
            )
          ]
        ]
      ]

  -- One pass of the loop over `certificates`.
  unfoldable pub materialize_pair : Json → Exec Materials Json
  unfolding resolve_pair after
  materialize_pair v m = elim (as_dict v) [
    | none ↦ (ok v, m)
    | some pair ↦ elim (after material_prefix (ref_of py "certificateFile" pair)) [
      | none ↦ elim (after material_prefix (ref_of py "keyFile" pair)) [
        | none ↦ (ok v, m)
        | some key_name ↦ (invalid "Xray TLS material references must be a complete pair", m)
      ]
      | some cert_name ↦ elim (after material_prefix (ref_of py "keyFile" pair)) [
        | none ↦ (invalid "Xray TLS material references must be a complete pair", m)
        | some key_name ↦ resolve_pair cert_name key_name pair m
      ]
    ]
  ]

  unfoldable pub materialize_pairs : List Json → Exec Materials (List Json)
  unfolding materialize_pair
  materialize_pairs [] = pure []
  materialize_pairs (v ∷ vs) = do
    pair ← materialize_pair v
    pairs ← materialize_pairs vs
    pure (pair ∷ pairs)

  -- The certificates of an inbound. A value that is no list is skipped.
  unfoldable pub materialize_certificates :
      Json → Dict String Json → Dict String Json → Dict String Json → Exec Materials Json
  unfolding materialize_pairs
  materialize_certificates (Json.array items) inbound stream tls = do
    pairs ← materialize_pairs (elements items)
    pure (with_certificates inbound stream tls pairs)
  materialize_certificates _ inbound stream tls = pure (Json.object (of_entries inbound))

  -- One pass of the loop over `inbounds`.
  unfoldable pub materialize_inbound : Json → Exec Materials Json
  unfolding materialize_certificates
  materialize_inbound v m = elim (as_dict v) [
    | none ↦ (ok v, m)
    | some inbound ↦ elim (object_of "streamSettings" inbound) [
      | err e ↦ (err e, m)
      | ok stream ↦ elim (object_of "tlsSettings" stream) [
        | err e ↦ (err e, m)
        | ok tls ↦ materialize_certificates (get_json "certificates" tls) inbound stream tls m
      ]
    ]
  ]

  unfoldable pub materialize_inbounds : List Json → Exec Materials (List Json)
  unfolding materialize_inbound
  materialize_inbounds [] = pure []
  materialize_inbounds (v ∷ vs) = do
    inbound ← materialize_inbound v
    inbounds ← materialize_inbounds vs
    pure (inbound ∷ inbounds)

  -- `for inbound in prepared.get("inbounds") or []`. The characters of a text and the keys of an
  -- object are no objects.
  unfoldable pub materialize_document : Json → Dict String Json → Exec Materials (Dict String Json)
  unfolding materialize_inbounds
  materialize_document (Json.array items) document = do
    inbounds ← materialize_inbounds (elements items)
    pure (insert "inbounds" (Json.array (of_elements inbounds)) document)
  materialize_document (Json.text s) document = pure document
  materialize_document (Json.object o) document = pure document
  materialize_document v document = if truthy v then raise type_error else pure document

  -- The last test.
  unfoldable pub refuse_unused : Dict String Json → Exec Materials (Dict String Json)
  unfolding unused
  refuse_unused document m = elim (unused m.consumed (keys material)) [
    | [] ↦ (ok document, m)
    | name ∷ names ↦ (invalid "unused Xray TLS material", m)
  ]

module _ (py : Coercions) (host : Host) (pems : Pems) where
  -- `Path(...).resolve()` of the setting or of its default
  unfoldable pub cert_dir_of : List String
  cert_dir_of =
      let v = get_json "cert_dir" pems.settings in
      host.resolve (if truthy v then str_json py v else host.core_root <> "/cores/xray/certs")

  -- `_materialize_xray_tls`, on the files of the host
  unfoldable pub materialize_xray_tls :
      Dict String Json
      → Dict String String
      → Dict (List String) File
      → Result (Dict String Json) × Materials
  unfolding check_material cert_dir_of materialize_document refuse_unused
  materialize_xray_tls document material files =
      let m : Materials = record { files = files; consumed = [] } in
      elim (check_material material) [
        | err e ↦ (err e, m)
        | ok _ ↦
            if not (is_under (host.resolve host.core_root) cert_dir_of)
            then (invalid "the Xray certificate directory escapes the node core root", m)
            else (materialize_document py pems material cert_dir_of (get_json "inbounds" document)
                    document
                  >>= refuse_unused py pems material cert_dir_of)
                m
      ]
