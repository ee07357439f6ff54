-- ===== src/App/Adoption.antt =====
-- `PUT /v1/cores/{core_id}/identity` of node_agent/app.py, behind its signed request: a node adopts
-- the server identity of the panel. The core manager and the drivers are parameters, on a state `D`.
pub mod Restarted
use rc_node.Base.{
  Exec, Error, ◌<◌, String, ◌<>◌, Bool, true, false, not, Option, none, some, List, [], ◌∷◌,
  if◌then◌else◌, string_eq, nat_eq, Result, ok, err, http_exception, not_implemented_error,
  timeout_error, contains,
}
use rc_node.Base.Int.{ℤ}
use rc_node.Base.Json.{Json}
use rc_node.Base.Dict.{Dict}
use rc_node.Security.Identity.{NodeIdentityStore, audit}
use rc_node.App.Settings.{Host, authorize_core}
use rc_node.Cli.{texts}

-- The core manager and the drivers. `importer` is `none` for a driver without `import_identity`, and
-- `persist_settings` for a manager without it; an importer gives the names that it has applied.
pub record Adopters (D : Type 0) : Type 0 where
  pub list_cores : List String
  pub importer : String → Option (Dict String String → Exec D (List String))
  pub persist_settings : Option (String → Exec D (Unit {0}))
  pub is_running : String → D → Bool
  pub stop_core : String → Exec D (Unit {0})
  pub start_core : String → Exec D (Unit {0})
  pub type_name : Error → String
  pub str_error : Error → String

pub record Adoption (D : Type 0) : Type 0 where
  pub identity : NodeIdentityStore
  pub cores : D

-- `applied` and `restarted` of the answer
pub record Adopted : Type 0 where
  pub applied : List String
  pub restarted : Bool

module _ {D : Type 0} (adopters : Adopters D) where
  abbrev pub note : ℤ → String → Dict String Json → NodeIdentityStore → NodeIdentityStore
  note now action detail identity = (audit now action detail identity).1

  abbrev pub failure : String → Error → Dict String Json
  failure core_id e =
      ("core_id", Json.text core_id) ∷ ("error_type", Json.text (adopters.type_name e)) ∷ []

  -- The handlers of the import.
  unfoldable pub import_failed : ℤ → String → Error → NodeIdentityStore → Error × NodeIdentityStore
  import_failed now core_id not_implemented_error identity = (
    http_exception 409 (
        "core '"
        <> (core_id
            <> ("' cannot adopt an identity ("
                <> (adopters.str_error not_implemented_error <> ")")))),
    identity,
  )
  import_failed now core_id e identity = (
    http_exception 409 (adopters.str_error e),
    note now "identity.failed" (failure core_id e) identity,
  )

  -- What a manager without the method, or with one that raises, leaves.
  unfoldable pub persisted : String → D → D
  persisted core_id d = elim adopters.persist_settings [
    | none ↦ d
    | some persist ↦ (persist core_id d).1
  ]

  -- `stop_core`, then `start_core`
  unfoldable pub restart : String → Exec D (Unit {0})
  restart core_id d =
      let (stopped, d') = adopters.stop_core core_id d in
      elim stopped [ err e ↦ (err e, d') | ok _ ↦ adopters.start_core core_id d' ]

  -- The handlers of the restart.
  unfoldable pub restart_failed : ℤ → String → Error → NodeIdentityStore → Error × NodeIdentityStore
  restart_failed now core_id timeout_error identity =
      (http_exception 504 "identity apply timed out on restart", identity)
  restart_failed now core_id e identity = (
    http_exception 409 ("identity applied but restart failed: " <> adopters.str_error e),
    note now "identity.restart_failed" (failure core_id e) identity,
  )

  module _ (sorted : List String → List String) where
    -- The end of the endpoint.
    abbrev pub adopted :
        ℤ → String → List String → Bool → NodeIdentityStore → D → Result Adopted × Adoption D
    adopted now core_id names restarted identity d = (
      ok (record { applied = sorted names; restarted = restarted }),
      record {
        identity =
            note now "identity.apply"
              (("core_id", Json.text core_id)
                ∷ ("applied", texts (sorted names))
                ∷ ("restarted", Json.boolean restarted)
                ∷ [])
              identity;
        cores = d;
      },
    )

    -- The endpoint behind `persist_settings`
    unfoldable pub restarted_if :
        ℤ → String → List String → Bool → NodeIdentityStore → D → Result Adopted × Adoption D
    unfolding restart restart_failed
    restarted_if now core_id names false identity d = adopted now core_id names false identity d
    restarted_if now core_id names true identity d =
        let (outcome, d') = restart core_id d in
        elim outcome [
          | ok _ ↦ adopted now core_id names true identity d'
          | err e ↦
              let (e', identity') = restart_failed now core_id e identity in
              (err e', record { identity = identity'; cores = d' })
        ]

    -- The endpoint behind the import
    unfoldable pub imported :
        ℤ → String → Result (List String) → NodeIdentityStore → D → Result Adopted × Adoption D
    unfolding import_failed persisted restarted_if
    imported now core_id (err e) identity d =
        let (e', identity') = import_failed now core_id e identity in
        (err e', record { identity = identity'; cores = d })
    imported now core_id (ok []) identity d =
        (ok (record { applied = []; restarted = false }), record { identity = identity; cores = d })
    imported now core_id (ok (name ∷ names)) identity d =
        let d' = persisted core_id d in
        restarted_if now core_id (name ∷ names) (adopters.is_running core_id d') identity d'

    -- `core_identity`
    unfoldable pub core_identity :
        (String → String) → Host → ℤ → String → Dict String String → Exec (Adoption D) Adopted
    unfolding imported
    core_identity str_lower host now core_id material s =
        elim (authorize_core str_lower host core_id []) [
          | err e ↦ (err e, s)
          | ok _ ↦
              if not (contains adopters.list_cores core_id)
              then (err (http_exception 404 ("core '" <> (core_id <> "' is not installed"))), s)
              else elim (adopters.importer core_id) [
                | none ↦ (
                  err (
                      http_exception 409
                        ("core '" <> (core_id <> "' has no server identity to adopt"))),
                  s,
                )
                | some importer ↦
                    let (outcome, d) = importer material s.cores in
                    imported now core_id outcome s.identity d
              ]
        ]
