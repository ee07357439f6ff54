-- ===== src/App/Usage.antt =====
-- `GET /v1/runtime/usage` of node_agent/app.py, behind its signed request: the baselines of the
-- usage counters, their file (`_save_usage_baselines`) and its replay (`restore_usage_baselines`).
pub mod Handed
pub mod Keys
pub mod Restore
pub mod Roundtrip
use rc_node.Base.{
  ◌<◌, String, ◌<>◌, Bool, not, Option, none, some, List, [], ◌∷◌, if◌then◌else◌, ◌==◌, string_eq,
  nat_eq, Result, ok, err, Exec, contains, value_error, other_error,
}
use Prim.Native.Char.{code}
use rc_node.Base.Int.{ℤ}
use rc_node.Base.Dict.{Dict, lookup, insert, update}
use rc_node.Base.Text.{is_nonempty}
use rc_node.Base.Json.{Json, as_dict, truthy, int_json, elements, of_entries, of_elements}

-- `usage-baselines.json`
pub data UsageFile : Type 0 where
  missing unreadable : UsageFile
  content : Json → UsageFile

abbrev pub Totals : Type 0
Totals = ℤ × ℤ

-- `f"{core_id}:{account_id}"`
abbrev pub key_of : String → String → String
key_of core_id account_id = core_id <> String.◌∷◌ ":" account_id

-- `[int(totals[0]), int(totals[1])]`
abbrev pub totals_json : Totals → Json
totals_json (up, down) = Json.array (of_elements (Json.number up ∷ Json.number down ∷ []))

-- `baselines[key] = ...` for each account of a core's snapshot
unfoldable pub collect : String → Dict String Totals → Dict String Json → Dict String Json
collect core_id [] baselines = baselines
collect core_id ((account_id, totals) ∷ snapshot) baselines =
    collect core_id snapshot (insert (key_of core_id account_id) (totals_json totals) baselines)

-- `json.loads(...) or {}`
abbrev pub decoded : Json → Json
decoded raw = if truthy raw then raw else Json.object (of_entries [])

-- What `_save_usage_baselines` reads before it merges.
unfoldable pub previous : UsageFile → Json
previous missing = Json.object (of_entries [])
previous unreadable = Json.object (of_entries [])
previous (content raw) = decoded raw

-- What `write_text` does, which truncates the file before it writes: it writes the whole text, raises
-- before it has opened the file, or raises later. What is then on disk is a proper prefix of the text
-- of an object, and no prefix of it can be decoded.
pub data Write : Type 0 where
  written unopened truncated : Write

abbrev pub after_write : Write → UsageFile → Dict String Json → UsageFile
after_write written file merged = content (Json.object (of_entries merged))
after_write unopened file merged = file
after_write truncated file merged = unreadable

-- `_save_usage_baselines`. A failed write is only logged; a decoded value that is no object has no
-- `update`, and that exception is not caught.
unfoldable pub save_usage_baselines : Write → Dict String Json → Exec UsageFile Unit
unfolding previous
save_usage_baselines write baselines file = elim (as_dict (previous file)) [
  | none ↦ (err (other_error "AttributeError"), file)
  | some merged ↦ (ok tt, after_write write file (update merged baselines))
]

-- `key.partition(":")`, without the separator
unfoldable pub partition : String → String × String
partition String.[] = (String.[], String.[])
partition (String.◌∷◌ c s) =
    let (core_id, account_id) = partition s in
    if code c == 58 then (String.[], s) else (String.◌∷◌ c core_id, account_id)

abbrev pub ByCore : Type 0
ByCore = Dict String (Dict String Totals)

-- `by_core.setdefault(core_id, {})[account_id] = ...`
abbrev pub put : String → String → Totals → ByCore → ByCore
put core_id account_id totals by_core =
    insert core_id
      (insert account_id totals (elim (lookup core_id by_core) [ none ↦ [] | some d ↦ d ])) by_core

-- A list of two values.
unfoldable pub pair_of : Json → Option (Json × Json)
pair_of (Json.array items) = elim (elements items) [
  | [] ↦ none
  | up ∷ rest ↦ elim rest [
    | [] ↦ none
    | down ∷ more ↦ elim more [ [] ↦ some (up, down) | v ∷ vs ↦ none ]
  ]
]
pair_of _ = none

-- The two `int(...)`, which raise where a value is no number.
unfoldable pub totals_of : Json × Json → Result Totals
totals_of (up, down) = elim (int_json up) [
  | none ↦ err (value_error "invalid literal for int()")
  | some u ↦ elim (int_json down) [
    | none ↦ err (value_error "invalid literal for int()")
    | some d ↦ ok (u, d)
  ]
]

-- The first loop of `restore_usage_baselines`.
unfoldable pub by_core_onto : ByCore → Dict String Json → Result ByCore
unfolding partition pair_of totals_of
by_core_onto by_core [] = ok by_core
by_core_onto by_core ((key, value) ∷ stored) =
    let (core_id, account_id) = partition key in
    let skipped = by_core_onto by_core stored in
    elim (pair_of value) [
      | none ↦ skipped
      | some pair ↦ if not (is_nonempty core_id) then skipped else elim (totals_of pair) [
        | err e ↦ err e
        | ok totals ↦ by_core_onto (put core_id account_id totals by_core) stored
      ]
    ]

-- What the file gives for each core.
unfoldable pub stored_baselines : UsageFile → Result ByCore
unfolding by_core_onto
stored_baselines missing = ok []
stored_baselines unreadable = ok []
stored_baselines (content raw) = elim (as_dict (decoded raw)) [
  | none ↦ err (other_error "AttributeError")
  | some stored ↦ by_core_onto [] stored
]

-- The cores that account for usage, in a state `D`, with `usage_tracker_snapshot` and
-- `restore_usage_baselines` of their drivers. A driver that raises restores nothing.
pub record Trackers (D : Type 0) : Type 0 where
  pub list_cores : List String
  pub restore_usage_baselines : String → Dict String Totals → D → D

module _ {D : Type 0} (trackers : Trackers D) where
  unfoldable pub restore_each : ByCore → D → D
  restore_each [] d = d
  restore_each ((core_id, mapping) ∷ by_core) d = restore_each by_core (
      if contains trackers.list_cores core_id
      then trackers.restore_usage_baselines core_id mapping d
      else d)

  -- `restore_usage_baselines`
  unfoldable pub restore_usage_baselines : UsageFile → Exec D Unit
  unfolding stored_baselines restore_each
  restore_usage_baselines file d = elim (stored_baselines file) [
    | err e ↦ (err e, d)
    | ok by_core ↦ (ok tt, restore_each by_core d)
  ]
