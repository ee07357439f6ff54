-- ===== src/App/Inbounds.antt =====
-- `PUT /v1/cores/{core_id}/inbounds` of node_agent/app.py, behind its signed request.
pub mod Files
use rc_node.Base.{
  ℕ, ◌<◌, String, ◌<>◌, ◌&&◌, not, List, [], ◌∷◌, if◌then◌else◌, ltb, ◌==◌, string_eq, nat_eq,
  length, Result, ok, err, http_exception, contains, type_error, texts_eq, Error, Exec, value_error,
}
use rc_node.App.Settings.{authorize_core, Host}
use rc_node.Base.Int.{ℤ}
use rc_node.Security.Identity.{NodeIdentityStore, audit}
use rc_node.Base.Dict.{Dict}
use rc_node.Base.Text
use rc_node.Base.Json.{Json, Coercions, get_json, truthy, entries, elements}
use rc_node.App.Material.{File, Pems, materialize_xray_tls}

pub record InboundDocument : Type 0 where
  pub document : Dict String Json
  pub material : Dict String String

-- What the endpoint reads and writes of the agent and the host. The cores are in a state `D`.
pub record Site (D : Type 0) : Type 0 where
  pub identity : NodeIdentityStore
  pub files : Dict (List String) File
  pub cores : D

-- The core manager, which writes files of the host too. An await that takes too long is a
-- `timeout_error`.
pub record Studio (D : Type 0) : Type 0 where
  pub list_cores : List String
  pub apply_studio_document : String → Dict String Json → Exec (D × Dict (List String) File) Unit
  pub str_error : Error → String
  pub type_name : Error → String

-- `len(body.document.get("inbounds") or [])`
abbrev pub inbound_count : Json → Result ℕ
inbound_count (Json.array items) = ok (length (elements items))
inbound_count (Json.object fields) = ok (length (entries fields))
inbound_count (Json.text s) = ok (Text.length s)
inbound_count v = if truthy v then err type_error else ok 0

-- `except ValueError as exc: raise HTTPException(422, str(exc))`
abbrev unprocessable : Error → Error
unprocessable (Error.value_error detail) = http_exception 422 detail
unprocessable e = e

module _ {D : Type 0} (py : Coercions) (host : Host) (pems : Pems) (studio : Studio D) where
  abbrev note : ℤ → String → Dict String Json → Site D → Site D
  note now action detail s = record s { identity = (audit now action detail s.identity).1 }

  -- The document that is applied, and the files of the host then.
  unfoldable pub prepare :
      String
      → InboundDocument
      → Dict (List String) File
      → Result (Dict String Json) × Dict (List String) File
  unfolding materialize_xray_tls
  prepare core_id body files =
      if core_id == "xray"
      then (let (r, m) = materialize_xray_tls py host pems body.document body.material files in
          (r, m.files))
      else (ok body.document, files)

  -- The endpoint behind the core manager's answer.
  unfoldable pub answered :
      ℤ → String → InboundDocument → Result (Unit {0}) → Site D → Result ℕ × Site D
  answered now core_id body (err Error.timeout_error) s =
      (err (http_exception 504 "inbound apply timed out"), s)
  answered now core_id body (err e) s = (
    err (http_exception 409 (studio.str_error e)),
    note now "inbounds.failed"
        (("core_id", Json.text core_id) ∷ ("error_type", Json.text (studio.type_name e)) ∷ []) s,
  )
  answered now core_id body (ok _) s = elim (inbound_count (get_json "inbounds" body.document)) [
    | err e ↦ (err e, s)
    | ok n ↦ (
      ok n,
      note now "inbounds.apply"
          (("core_id", Json.text core_id) ∷ ("inbound_count", Json.number (ℤ.pos n)) ∷ []) s,
    )
  ]

  unfoldable pub apply_prepared :
      ℤ → String → InboundDocument → Result (Dict String Json) → Site D → Result ℕ × Site D
  unfolding answered
  apply_prepared now core_id body (err e) s = (err (unprocessable e), s)
  apply_prepared now core_id body (ok document) s =
      let (outcome, (d, files)) =
        studio.apply_studio_document core_id document (s.cores, s.files) in
      answered now core_id body outcome (record s { cores = d; files = files })

  -- `core_inbounds`, which answers the number of inbounds
  unfoldable pub core_inbounds :
      (String → String) → ℤ → String → InboundDocument → Site D → Result ℕ × Site D
  unfolding prepare apply_prepared
  core_inbounds str_lower now core_id body s = elim (authorize_core str_lower host core_id []) [
    | err e ↦ (err e, s)
    | ok _ ↦
        if not (contains studio.list_cores core_id)
        then (err (http_exception 404 ("core '" <> core_id <> "' is not installed")), s)
        else if not (core_id == "xray") && ltb 0 (length body.material)
        then (err (http_exception 422 "file material is supported only for Xray TLS sync"), s)
        else (let (document, files) = prepare core_id body s.files in
            apply_prepared now core_id body document (record s { files = files }))
  ]
