-- ===== src/App/Accounts.antt =====
-- `PUT /v1/cores/{core_id}/accounts` of node_agent/app.py, behind its signed request, and what a
-- start of the agent makes of the snapshots (`restore_accounts`).
pub mod Snapshots
pub mod Replay
pub mod Restart
use rc_node.Base.{
  ℕ, ◌<◌, String, ◌<>◌, Bool, true, false, ◌&&◌, not, Option, none, some, List, [], ◌∷◌, map,
  if◌then◌else◌, leb, string_eq, nat_eq, length, Result, ok, err, Exec, Error, contains,
  http_exception,
}
use rc_node.Base.Int.{ℤ}
use rc_node.Base.Dict.{Dict, lookup}
use rc_node.Base.Text
use rc_node.Base.Json.{Json, Coercions, str_json, get_json, as_dict, truthy, int_json, of_entries}
use rc_node.Accounts.{AccountsStore, Account, store, all}
use rc_node.App.Settings.{Host, authorize_core}
use rc_node.Security.Identity.{NodeIdentityStore, audit}

-- The arguments of `UserAccount(...)`. Its date and its limit are validated by that class.
pub record AccountFields : Type 0 where
  pub user_id : ℤ
  pub username : String
  pub account_id : String
  pub protocol : String
  pub enabled : Bool
  pub expire_at : Json
  pub data_limit_bytes : Json
  pub settings : Dict String Json

-- The cores on this host, with their drivers in a state `D`, and the class `UserAccount`, which is
-- `A`. An await that takes too long is a `timeout_error`.
pub record Drivers (D A : Type 0) : Type 0 where
  pub list_cores : List String
  pub user_account : AccountFields → Result A
  pub sync_accounts : String → List A → Exec D Unit
  pub str_error : Error → String
  pub type_name : Error → String

-- What the endpoint reads and writes of the agent.
pub record Node (D : Type 0) : Type 0 where
  pub identity : NodeIdentityStore
  pub accounts : AccountsStore
  pub drivers : D

pub record AccountsPayload : Type 0 where
  pub accounts : List Account
  pub replace : Bool

-- `str(raw.get(key) or "")`
unfoldable pub text_of : Coercions → String → Account → String
text_of py key raw = let v = get_json key raw in if truthy v then str_json py v else ""

abbrev unprocessable : String → Error
unprocessable detail = http_exception 422 detail

-- `1 <= len(s) <= n`
abbrev sized : String → ℕ → Bool
sized s n = leb 1 (Text.length s) && leb (Text.length s) n

-- `raw["user_id"]` as an integer
unfoldable pub user_id_of : Account → Option ℤ
user_id_of raw = elim (lookup "user_id" raw) [ none ↦ none | some v ↦ int_json v ]

-- `raw.get("settings") or {}`, which must be an object. All values of a decoded body survive the
-- round trip through `json`.
unfoldable pub settings_of : Account → Option (Dict String Json)
settings_of raw = let v = get_json "settings" raw in if truthy v then as_dict v else some []

abbrev enabled_of : Account → Bool
enabled_of raw = elim (lookup "enabled" raw) [ none ↦ true | some v ↦ truthy v ]

-- `_to_user_account` up to the construction, on an object
unfoldable pub account_fields : Coercions → Account → Result AccountFields
unfolding text_of user_id_of settings_of
account_fields py raw =
    let username = text_of py "username" raw in
    let account_id = text_of py "account_id" raw in
    let protocol = text_of py "protocol" raw in
    elim (user_id_of raw) [
      | none ↦ err (unprocessable "account is missing a numeric 'user_id'")
      | some user_id ↦
          if not (sized username 128)
          then err (unprocessable "account 'username' must be 1–128 characters")
          else if not (sized account_id 256)
          then err (unprocessable "account 'account_id' must be 1–256 characters")
          else if not (sized protocol 64)
          then err (unprocessable "account 'protocol' must be 1–64 characters")
          else elim (settings_of raw) [
            | none ↦ err (unprocessable "account 'settings' must be an object")
            | some settings ↦ ok (record {
              user_id = user_id;
              username = username;
              account_id = account_id;
              protocol = protocol;
              enabled = enabled_of raw;
              expire_at = get_json "expire_at" raw;
              data_limit_bytes = get_json "data_limit_bytes" raw;
              settings = settings;
            })
          ]
    ]

abbrev is_http : Error → Bool
is_http (http_exception status detail) = true
is_http e = false

-- `_ACCOUNTS_TIMEOUT` is part of `sync_accounts`.
module _ {D A : Type 0} (py : Coercions) (drivers : Drivers D A) where
  -- `_to_user_account`
  unfoldable pub to_user_account : Account → Result A
  unfolding account_fields
  to_user_account raw = elim (account_fields py raw) [
    | err e ↦ err e
    | ok fields ↦ drivers.user_account fields
  ]

  unfoldable pub to_user_accounts : List Account → Result (List A)
  to_user_accounts [] = ok []
  to_user_accounts (raw ∷ raws) = elim (to_user_account raw) [
    | err e ↦ err e
    | ok account ↦ elim (to_user_accounts raws) [
      | err e ↦ err e
      | ok accounts ↦ ok (account ∷ accounts)
    ]
  ]

  abbrev note : ℤ → String → Dict String Json → Node D → Node D
  note now action detail s = record s { identity = (audit now action detail s.identity).1 }

  abbrev failed : ℤ → String → Error → Node D → Node D
  failed now core_id e s =
      note now "accounts.failed"
        (("core_id", Json.text core_id) ∷ ("error_type", Json.text (drivers.type_name e)) ∷ []) s

  -- The endpoint behind the driver's answer.
  unfoldable pub synced :
      ℤ → Bool → String → AccountsPayload → Result (Unit {0}) → Node D → Result ℕ × Node D
  synced now writable core_id body (err Error.timeout_error) s =
      (err (http_exception 504 "account sync timed out"), s)
  synced now writable core_id body (err Error.not_implemented_error) s = (
    err (
        http_exception 409 (
          "core '"
          <> core_id
          <> "' cannot manage accounts ("
          <> drivers.str_error Error.not_implemented_error
          <> ")")),
    s,
  )
  synced now writable core_id body (err e) s =
      (err (http_exception 409 (drivers.str_error e)), failed now core_id e s)
  synced now writable core_id body (ok _) s = (
    ok (length body.accounts),
    note now "accounts.sync"
        (("core_id", Json.text core_id)
          ∷ ("count", Json.number (ℤ.pos (length body.accounts)))
          ∷ ("replace", Json.boolean body.replace)
          ∷ [])
        (record s {
          accounts =
              (store py writable core_id
                (map (λ (a : Account). Json.object (of_entries a)) body.accounts) body.replace
                s.accounts).1;
        }),
  )

  module _ (str_lower : String → String) (host : Host) where
    -- `core_accounts`, which answers the number of accounts. The flag says whether the file system
    -- takes the snapshot.
    unfoldable pub core_accounts : ℤ → Bool → String → AccountsPayload → Node D → Result ℕ × Node D
    unfolding synced to_user_accounts
    core_accounts now writable core_id body s = elim (authorize_core str_lower host core_id []) [
      | err e ↦ (err e, s)
      | ok _ ↦
          if not (contains drivers.list_cores core_id)
          then (err (http_exception 404 ("core '" <> core_id <> "' is not installed")), s)
          else elim (to_user_accounts body.accounts) [
            | err e ↦ (err e, s)
            | ok accounts ↦
                let (outcome, d) = drivers.sync_accounts core_id accounts s.drivers in
                synced now writable core_id body outcome (record s { drivers = d })
          ]
    ]

  -- The inner loop of `restore_accounts`: an account that is refused as one of a request is
  -- skipped; any other exception leaves the function.
  unfoldable pub restorable : List Account → Result (List A)
  unfolding to_user_account
  restorable [] = ok []
  restorable (raw ∷ raws) =
      let rest = restorable raws in
      elim (to_user_account raw) [
        | err e ↦ if is_http e then rest else err e
        | ok account ↦ elim rest [ err e ↦ err e | ok accounts ↦ ok (account ∷ accounts) ]
      ]

  -- One pass of the loop over the cores. What the driver raises is only logged.
  unfoldable pub restore_core : String → List Account → Exec D Unit
  unfolding restorable
  restore_core core_id [] d = (ok tt, d)
  restore_core core_id (raw ∷ raws) d =
      if not (contains drivers.list_cores core_id)
      then (ok tt, d)
      else elim (restorable (raw ∷ raws)) [
        | err e ↦ (err e, d)
        | ok [] ↦ (ok tt, d)
        | ok (account ∷ accounts) ↦
            (ok tt, (drivers.sync_accounts core_id (account ∷ accounts) d).1)
      ]

  unfoldable pub restore_cores : Dict String (List Account) → Exec D Unit
  unfolding restore_core
  restore_cores [] d = (ok tt, d)
  restore_cores ((core_id, raws) ∷ snapshots) d =
      let (outcome, d') = restore_core core_id raws d in
      elim outcome [ err e ↦ (err e, d') | ok _ ↦ restore_cores snapshots d' ]

  -- `restore_accounts`, on the store and the drivers of a new process
  unfoldable pub restore_accounts : (List String → List String) → AccountsStore → Exec D Unit
  unfolding restore_cores all
  restore_accounts sorted s d = restore_cores (all sorted s) d
