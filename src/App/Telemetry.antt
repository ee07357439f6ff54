-- ===== src/App/Telemetry.antt =====
-- `GET /v1/runtime/usage` of node_agent/app.py, behind its signed request: the loop over the cores
-- that account for usage, and the save of the baselines behind it.
pub mod Cursor
use rc_node.Base.{
  Result, true, false, ◌+◌, String, Bool, ◌&&◌, Option, none, some, List, [], ◌∷◌, ◌++◌,
  if◌then◌else◌, string_eq, nat_eq, ok, err, Exec,
}
use rc_node.Base.Dict.{Dict}
use rc_node.Base.Json.{Json}
use rc_node.App.Usage.{Totals, UsageFile, Write, collect, save_usage_baselines}
use rc_node.App.Cores.{set_default}

-- The cores and their drivers, in a state `D`, with records of type `R` and totals of type `T`.
-- `is_enabled` is `none` where the manager raises, `get_usage` where the driver raises or takes too
-- long, and `snapshot` is empty where `usage_tracker_snapshot` raises. The reading of a record's
-- bytes, `model_dump` and the two `int(...)` of the totals may raise.
pub record Meters (D R T : Type 0) : Type 0 where
  pub list_cores : List String
  pub is_enabled : String → Option Bool
  pub accounts_usage : String → Bool
  pub get_usage : String → D → Option (List R) × D
  pub has_traffic : R → Result Bool
  pub model_dump : R → Result (Dict String Json)
  pub snapshot : String → D → Dict String T
  pub int_totals : T → Result Totals

pub record Telemetry (D : Type 0) : Type 0 where
  pub file : UsageFile
  pub drivers : D

-- `if baselines: ...`
unfoldable pub save_cursor : Write → Dict String Json → Exec UsageFile Unit
save_cursor write [] file = (ok tt, file)
save_cursor write (entry ∷ baselines) file = save_usage_baselines write (entry ∷ baselines) file

module _ {D R T : Type 0} (meters : Meters D R T) where
  -- `_capable_drivers`
  unfoldable pub capable : List String → List String
  capable [] = []
  capable (core_id ∷ cores) =
      let rest = capable cores in
      elim (meters.is_enabled core_id) [
        | none ↦ rest
        | some enabled ↦ if enabled && meters.accounts_usage core_id then core_id ∷ rest else rest
      ]

  -- The inner loop on the records of a core, behind those of the cores before it.
  unfoldable pub with_traffic :
      String → List R → List (Dict String Json) → Result (List (Dict String Json))
  with_traffic core_id [] records = ok records
  with_traffic core_id (r ∷ rs) records = elim (meters.has_traffic r) [
    | err e ↦ err e
    | ok false ↦ with_traffic core_id rs records
    | ok true ↦ elim (meters.model_dump r) [
      | err e ↦ err e
      | ok payload ↦
          with_traffic core_id rs
            (records ++ set_default "core_id" (Json.text core_id) payload ∷ [])
    ]
  ]

  -- The inner loop on the snapshot of a core.
  unfoldable pub collect_snapshot :
      String → Dict String T → Dict String Json → Result (Dict String Json)
  unfolding collect
  collect_snapshot core_id [] baselines = ok baselines
  collect_snapshot core_id ((account_id, totals) ∷ snapshot) baselines =
      elim (meters.int_totals totals) [
        | err e ↦ err e
        | ok t ↦
            collect_snapshot core_id snapshot (collect core_id ((account_id, t) ∷ []) baselines)
      ]

  -- The loop of `runtime_usage`. A core that cannot be read keeps its cursor.
  unfoldable pub read_cores :
      List String
      → List (Dict String Json)
      → Dict String Json
      → Exec D (List (Dict String Json) × Dict String Json)
  unfolding with_traffic collect_snapshot
  read_cores [] records baselines d = (ok (records, baselines), d)
  read_cores (core_id ∷ cores) records baselines d =
      let (found, d') = meters.get_usage core_id d in
      elim found [
        | none ↦ read_cores cores records baselines d'
        | some rs ↦ elim (with_traffic core_id rs records) [
          | err e ↦ (err e, d')
          | ok records' ↦ elim (collect_snapshot core_id (meters.snapshot core_id d') baselines) [
            | err e ↦ (err e, d')
            | ok baselines' ↦ read_cores cores records' baselines' d'
          ]
        ]
      ]

  -- `runtime_usage`
  unfoldable pub runtime_usage : Write → Exec (Telemetry D) (List (Dict String Json))
  unfolding capable read_cores save_cursor
  runtime_usage write s =
      let (read, d) = read_cores (capable meters.list_cores) [] [] s.drivers in
      elim read [
        | err e ↦ (err e, record { file = s.file; drivers = d })
        | ok (records, baselines) ↦
            let (outcome, file) = save_cursor write baselines s.file in
            (
              elim outcome [ err e ↦ err e | ok _ ↦ ok records ],
              record { file = file; drivers = d },
            )
      ]
