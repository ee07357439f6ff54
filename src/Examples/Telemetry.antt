-- ===== src/Examples/Telemetry.antt =====
-- One core that accounts for usage, with a tracker that counts.
use rc_node.Base.{ℕ, ◌≡◌, refl, true, some, [], ◌∷◌, ltb, string_eq, nat_eq, ok}
use rc_node.Base.Int.{pos}
use rc_node.App.Usage.{missing, previous, written, collect, save_usage_baselines}
use rc_node.Base.Json.{Json, truthy}
use rc_node.App.Usage.Roundtrip.{IsStored}
use rc_node.App.Telemetry.{
  Meters, Telemetry, runtime_usage, capable, read_cores, with_traffic, collect_snapshot,
  save_cursor,
}
use rc_node.App.Telemetry.Cursor.{IsRead, runtime_usage-IsStored}

abbrev meters : Meters ℕ ℕ ℕ
meters = record {
  list_cores = "xray" ∷ [];
  is_enabled = λ core_id. some true;
  accounts_usage = λ core_id. true;
  get_usage = λ core_id n. (some (n ∷ []), 0);
  has_traffic = λ r. ok (ltb 0 r);
  model_dump = λ r. ok (("uplink_bytes", Json.number (pos r)) ∷ []);
  snapshot = λ core_id n. ("1.ann", n) ∷ [];
  int_totals = λ n. ok (pos n, pos 7);
}

abbrev fresh : Telemetry ℕ
fresh = record { file = missing; drivers = 12 }

empty : IsStored missing
unfolding previous
empty = ([], refl, tt)

runtime_usage-IsStored_example : IsRead meters missing (runtime_usage meters written fresh)
unfolding nat_eq
runtime_usage-IsStored_example =
    runtime_usage-IsStored meters written fresh ((refl, refl), tt) empty

-- The answer of that call.
answered :
    (runtime_usage meters written fresh).0
    ≡ ok ((("uplink_bytes", Json.number (pos 12)) ∷ ("core_id", Json.text "xray") ∷ []) ∷ [])
unfolding runtime_usage capable read_cores with_traffic collect_snapshot collect save_cursor
    save_usage_baselines previous string_eq nat_eq truthy
answered = refl
