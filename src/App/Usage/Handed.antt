-- ===== src/App/Usage/Handed.antt =====
-- What a start of the agent hands to the drivers that account for usage.
use rc_node.Base.{
  String, ◌≡◌, refl, sym, ap, ◌∙◌, ◌≢◌, inl, inr, true, Option, none, some, [], ◌∷◌, arith,
  Bool-cases, Option-cases, string_eq, nat_eq, ok, contains,
}
use rc_node.Base.Dict.{Dict, NodupKeys, lookup, insert-NodupKeys}
use rc_node.Base.Json.{Json}
use rc_node.App.Usage.{
  Totals, UsageFile, ByCore, Trackers, written, collect, key_of, put, by_core_onto,
  save_usage_baselines, stored_baselines, restore_each, restore_usage_baselines,
}
use rc_node.App.Usage.Restore.{IsCoreId, IsBaselines, find, or_else, totals_at, by_core_onto-entry}
use rc_node.App.Usage.Roundtrip.{IsStored, save-stored_baselines, stored_baselines-previous}

by_core_onto-NodupKeys :
    (b b' : ByCore) (d : Dict String Json)
    → IsBaselines d
    → NodupKeys b
    → by_core_onto b d ≡ ok b'
    → NodupKeys b'
unfolding by_core_onto
by_core_onto-NodupKeys b b' [] h u e = let same : b ≡ b' = ground arith in rw (sym same) u
by_core_onto-NodupKeys b b' ((key, value) ∷ d) (entry, fresh, h) u e =
    by_core_onto-NodupKeys (put entry.core_id entry.account_id entry.totals b) b' d h
      (insert-NodupKeys entry.core_id _ b u) (sym (by_core_onto-entry b key value d entry) ∙ e)

stored-NodupKeys :
    (file : UsageFile) (b : ByCore) → IsStored file → stored_baselines file ≡ ok b → NodupKeys b
stored-NodupKeys file b (d, stored, valid) e =
    by_core_onto-NodupKeys [] b d valid tt (sym (stored_baselines-previous file d stored) ∙ e)

module _ {D : Type 0} (trackers : Trackers D) (told : D → String → Dict String Totals) where
  -- `told` is what the driver of each core was handed last.
  pub record IsTold : Type 0 where
    pub here :
        (core_id : String) (mapping : Dict String Totals) (d : D)
        → told (trackers.restore_usage_baselines core_id mapping d) core_id ≡ mapping
    pub others :
        (core_id other : String) (mapping : Dict String Totals) (d : D)
        → other ≢ core_id
        → told (trackers.restore_usage_baselines core_id mapping d) other ≡ told d other

  abbrev handed : String → ByCore → D → Dict String Totals
  handed core_id by_core d = elim (lookup core_id by_core) [
    | none ↦ told d core_id
    | some mapping ↦ mapping
  ]

  module _ (tells : IsTold) where
    restore_each-told :
        (core_id : String) (by_core : ByCore) (d : D)
        → contains trackers.list_cores core_id ≡ true
        → NodupKeys by_core
        → told (restore_each trackers by_core d) core_id ≡ handed core_id by_core d
    unfolding restore_each
    restore_each-told core_id [] d listed u = refl
    restore_each-told core_id ((c, mapping) ∷ by_core) d listed (fresh, u) =
        elim (string_eq.dec core_id c) [
          | yes same ↦
              let there : contains trackers.list_cores c ≡ true =
                ap (contains trackers.list_cores) (sym same) ∙ listed in
              let gone : lookup core_id by_core ≡ none =
                ap (λ (x : String). lookup x by_core) same ∙ fresh in
              let d' = trackers.restore_usage_baselines c mapping d in
              let given : told d' core_id ≡ mapping = ap (told d') same ∙ tells.here c mapping d in
              let rest : told (restore_each trackers by_core d') core_id ≡ mapping =
                restore_each-told core_id by_core d' listed u ∙ (rw (gone, handed) given) in
              rw (there, restore_each) (rest ∙ (ground arith))
          | no differ ↦ elim (Bool-cases (contains trackers.list_cores c)) [
            | inl there ↦
                let d' = trackers.restore_usage_baselines c mapping d in
                let kept = tells.others c core_id mapping d differ in
                let rest = restore_each-told core_id by_core d' listed u in
                rw (there, restore_each) (rest ∙ (ground arith))
            | inr missing ↦
                let rest = restore_each-told core_id by_core d listed u in
                rw (missing, restore_each) (rest ∙ (ground arith))
          ]
        ]

    -- A start from a file that the agent wrote, or from none.
    restored :
        (file : UsageFile) (b : ByCore) (core_id : String) (fresh : D)
        → IsStored file
        → stored_baselines file ≡ ok b
        → contains trackers.list_cores core_id ≡ true
        → told fresh core_id ≡ []
        → let (answer, d) = restore_usage_baselines trackers file fresh in
          (answer ≡ ok tt)
          × ((account_id : String) → lookup account_id (told d core_id) ≡ find core_id account_id b)
    unfolding restore_usage_baselines
    restored file b core_id fresh stored e listed empty =
        let given = restore_each-told core_id b fresh listed (stored-NodupKeys file b stored e) in
        rw (e, restore_usage_baselines)
          (
            refl,
            λ account_id.
                ap (λ (m : Dict String Totals). lookup account_id m) given
                ∙ (elim (Option-cases (lookup core_id b)) [
                  | inl none_stored ↦ ground arith
                  | inr (m, found) ↦ ground arith
                ]),
          )

-- A restart neither loses a counter nor takes it for new traffic. Take a file that holds entries that
-- the agent wrote, or no file, and a save whose write succeeds of baselines into which the totals of
-- one installed core are collected, whose id is not empty and has no colon. The save answers and
-- leaves such a file again. A start from it does not raise, and hands the driver of that core the
-- saved totals of every account. An account that the snapshot does not name gets the totals of the
-- other baselines under its key, and without these the ones that a start before the save would have
-- handed over.
pub restore-save_usage_baselines :
    {D : Type 0} (trackers : Trackers D) (told : D → String → Dict String Totals) (file : UsageFile)
    (baselines : Dict String Json) (core_id : String) (snapshot : Dict String Totals) (fresh : D)
    → IsTold trackers told
    → IsStored file
    → IsBaselines baselines
    → IsCoreId core_id
    → NodupKeys snapshot
    → contains trackers.list_cores core_id ≡ true
    → told fresh core_id ≡ []
    → let (answer, file') =
        save_usage_baselines written (collect core_id snapshot baselines) file in
      let (before, d) = restore_usage_baselines trackers file fresh in
      let (after, d') = restore_usage_baselines trackers file' fresh in
      (answer ≡ ok tt)
      × IsStored file'
      × (before ≡ ok tt)
      × (after ≡ ok tt)
      × ((account_id : String)
          → lookup account_id (told d' core_id)
            ≡ or_else (lookup account_id snapshot) (
                or_else
                  (totals_at (key_of core_id account_id) baselines)
                  (lookup account_id (told d core_id))))
restore-save_usage_baselines trackers told file baselines core_id snapshot fresh tells stored h core
      u listed empty =
    let (done, stored', (before, after, read, read', found)) =
      save-stored_baselines file baselines core_id snapshot stored h core u in
    let file' = (save_usage_baselines written (collect core_id snapshot baselines) file).1 in
    let (fine, old) =
      restored trackers told tells file before core_id fresh stored read listed empty in
    let (fine', new) =
      restored trackers told tells file' after core_id fresh stored' read' listed empty in
    (
      done,
      stored',
      fine,
      fine',
      λ a.
          new a
          ∙ found a
          ∙ ap
              (λ (o : Option Totals).
                or_else (lookup a snapshot) (or_else (totals_at (key_of core_id a) baselines) o))
              (sym (old a)),
    )
