-- ===== src/Examples/Usage.antt =====
-- The counters of one core over a restart.
use rc_node.Base.{
  arith, contains, if◌then◌else◌, ◌==◌, String, ◌≡◌, refl, true, [], ◌∷◌, string_eq, nat_eq, ok,
}
use rc_node.Base.Int.{pos}
use rc_node.Base.Dict.{Dict, lookup}
use rc_node.App.Usage.{
  Totals, Trackers, missing, written, collect, key_of, previous, save_usage_baselines,
  restore_usage_baselines,
}
use rc_node.App.Usage.Restore.{or_else, totals_at}
use rc_node.App.Usage.Roundtrip.{IsStored}
use rc_node.App.Usage.Handed.{IsTold, restore-save_usage_baselines}

abbrev snapshot : Dict String Totals
snapshot = ("1:ann", (pos 5, pos 7)) ∷ []

stored : IsStored missing
unfolding previous
stored = ([], refl, tt)

-- Two drivers, which keep what they were handed.
abbrev Drivers : Type 0
Drivers = String → Dict String Totals

abbrev trackers : Trackers Drivers
trackers = record {
  list_cores = "ssh" ∷ "xray" ∷ [];
  restore_usage_baselines =
      λ core_id mapping d other. if other == core_id then mapping else d other;
}

tells : IsTold trackers (λ d. d)
tells = record {
  here = λ core_id mapping d. ground arith;
  others = λ core_id other mapping d differ. ground arith;
}

listed : contains trackers.list_cores "xray" ≡ true
unfolding string_eq
listed = refl

restore-save_usage_baselines_example :
    let (answer, file') = save_usage_baselines written (collect "xray" snapshot []) missing in
    let (before, d) = restore_usage_baselines trackers missing (λ core_id. []) in
    let (after, d') = restore_usage_baselines trackers file' (λ core_id. []) in
    (answer ≡ ok tt)
    × IsStored file'
    × (before ≡ ok tt)
    × (after ≡ ok tt)
    × ((account_id : String)
        → lookup account_id (d' "xray")
          ≡ or_else
              (lookup account_id snapshot)
              (or_else (totals_at (key_of "xray" account_id) []) (lookup account_id (d "xray"))))
unfolding nat_eq
restore-save_usage_baselines_example =
    restore-save_usage_baselines trackers (λ d. d) missing [] "xray" snapshot (λ core_id. []) tells
      stored tt (refl, refl) (refl, tt) listed refl
