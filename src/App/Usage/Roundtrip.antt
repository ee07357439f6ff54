-- ===== src/App/Usage/Roundtrip.antt =====
-- The baselines of the counters over a restart of the agent.
use rc_node.App.Usage.{
  written, Totals, UsageFile, missing, unreadable, content, key_of, totals_json, collect, ByCore,
  by_core_onto, stored_baselines, previous, save_usage_baselines, decoded,
}
use rc_node.Base.{
  ◌≡◌, ap, ok, ◌∙◌, string_eq, Option, none, err, nat_eq, [], arith, ◌∷◌, other_error, Result,
  String, some, sym, refl,
}
use rc_node.Base.Dict.{Dict, lookup, insert, update, NodupKeys}
use rc_node.Base.Json.{Json, Fields, as_dict, of_entries, entries-of_entries, truthy}
use rc_node.App.Usage.Restore.{
  or_else, find, totals_at, IsCoreId, IsEntry, IsBaselines, by_core_onto-find, totals_at-update,
  update-IsBaselines, insert-IsBaselines, totals_at-insert, totals_at-entry, key_of-inj,
}

entry :
    (core_id account_id : String) (totals : Totals)
    → IsCoreId core_id
    → IsEntry (key_of core_id account_id) (totals_json totals)
entry core_id account_id totals core = record {
  core_id = core_id;
  account_id = account_id;
  totals = totals;
  core = core;
  named = refl;
  counted = refl;
}

module _ (core_id : String) (core : IsCoreId core_id) where
  pub collect-IsBaselines :
      (snapshot : Dict String Totals) (baselines : Dict String Json)
      → IsBaselines baselines
      → IsBaselines (collect core_id snapshot baselines)
  unfolding collect
  collect-IsBaselines [] baselines h = h
  collect-IsBaselines ((a, t) ∷ snapshot) baselines h =
      collect-IsBaselines snapshot (insert (key_of core_id a) (totals_json t) baselines)
        (insert-IsBaselines (key_of core_id a) (totals_json t) baselines (entry core_id a t core) h)

  totals_at-collect :
      (snapshot : Dict String Totals) (baselines : Dict String Json) (a : String)
      → NodupKeys snapshot
      → totals_at (key_of core_id a) (collect core_id snapshot baselines)
        ≡ or_else (lookup a snapshot) (totals_at (key_of core_id a) baselines)
  unfolding collect
  totals_at-collect [] baselines a u = refl
  totals_at-collect ((a', t) ∷ snapshot) baselines a (fresh, u) =
      let key = key_of core_id a' in
      let inserted = totals_at-insert (key_of core_id a) key (totals_json t) baselines in
      let here = totals_at-entry key key (totals_json t) baselines (entry core_id a' t core) refl in
      totals_at-collect snapshot (insert key (totals_json t) baselines) a u
      ∙ (elim (string_eq.dec a a') [
        | yes same ↦
            let key_same = ap (key_of core_id) same in
            let gone = ap (λ (x : String). lookup x snapshot) same ∙ fresh in
            let got : totals_at (key_of core_id a) (insert key (totals_json t) baselines) ≡ some t =
              inserted ∙ (ground arith) in
            let found : lookup a ((a', t) ∷ snapshot) ≡ some t = ground arith in
            ap
              (λ (o : Option Totals).
                or_else o (totals_at (key_of core_id a) (insert key (totals_json t) baselines)))
              gone
            ∙ got
            ∙ sym (
                ap (λ (o : Option Totals). or_else o (totals_at (key_of core_id a) baselines))
                  found)
        | no differ ↦
            let key_differ = λ (e : key_of core_id a ≡ key).
              differ (key_of-inj core_id core_id a a' core.1 core.1 e).1 in
            let kept : totals_at (key_of core_id a) (insert key (totals_json t) baselines)
                ≡ totals_at (key_of core_id a) baselines =
              inserted ∙ (ground arith) in
            let later : lookup a ((a', t) ∷ snapshot) ≡ lookup a snapshot = ground arith in
            ap (or_else (lookup a snapshot)) kept
            ∙ sym (
                ap (λ (o : Option Totals). or_else o (totals_at (key_of core_id a) baselines))
                  later)
      ])

or_else-none {ℓ} : {A : Type ℓ} (o : Option A) → or_else o none ≡ o
or_else-none none = refl
or_else-none (some a) = refl

pub decoded-object : (fields : Fields) → decoded (Json.object fields) ≡ Json.object fields
unfolding truthy
decoded-object Fields.end = refl
decoded-object (Fields.field k v fields) = refl

abbrev fields_of : Json → Dict String Json
fields_of v = elim (as_dict v) [ none ↦ [] | some d ↦ d ]

abbrev read_object : Json → Result ByCore
read_object v = elim (as_dict v) [
  | none ↦ err (other_error "AttributeError")
  | some stored ↦ by_core_onto [] stored
]

pub stored_baselines-previous :
    (file : UsageFile) (d : Dict String Json)
    → previous file ≡ Json.object (of_entries d)
    → stored_baselines file ≡ by_core_onto [] d
unfolding stored_baselines previous by_core_onto
stored_baselines-previous missing d e = ap (by_core_onto []) (ap fields_of e ∙ entries-of_entries d)
stored_baselines-previous unreadable d e =
    ap (by_core_onto []) (ap fields_of e ∙ entries-of_entries d)
stored_baselines-previous (content raw) d e =
    ap read_object e ∙ ap (by_core_onto []) (entries-of_entries d)

-- The file holds entries that the agent wrote, or none.
abbrev pub IsStored : UsageFile → Type 0
IsStored file =
    (d : Dict String Json) × (previous file ≡ Json.object (of_entries d)) × IsBaselines d

abbrev kept : Dict String Json → Dict String Json → Result (Unit {0}) × UsageFile
kept baselines merged = (ok tt, content (Json.object (of_entries (update merged baselines))))

abbrev saved : UsageFile → Dict String Json → Json → Result (Unit {0}) × UsageFile
saved file baselines v = elim (as_dict v) [
  | none ↦ (err (other_error "AttributeError"), file)
  | some merged ↦ kept baselines merged
]

or_else_assoc {ℓ} :
    {A : Type ℓ} (x y z : Option A) → or_else (or_else x y) z ≡ or_else x (or_else y z)
or_else_assoc none y z = refl
or_else_assoc (some a) y z = refl

pub save-content :
    (file : UsageFile) (d baselines : Dict String Json)
    → previous file ≡ Json.object (of_entries d)
    → save_usage_baselines written baselines file
      ≡ (ok tt, content (Json.object (of_entries (update d baselines))))
unfolding save_usage_baselines
save-content file d baselines e =
    ap (saved file baselines) e ∙ ap (kept baselines) (entries-of_entries d)

-- The save, and what a start reads of the file before it and after it.
pub save-stored_baselines :
    (file : UsageFile) (baselines : Dict String Json) (core_id : String)
    (snapshot : Dict String Totals)
    → IsStored file
    → IsBaselines baselines
    → IsCoreId core_id
    → NodupKeys snapshot
    → let (answer, file') =
        save_usage_baselines written (collect core_id snapshot baselines) file in
      (answer ≡ ok tt)
      × IsStored file'
      × ((before : ByCore) × (after : ByCore) × (stored_baselines file ≡ ok before)
          × (stored_baselines file' ≡ ok after)
          × ((account_id : String)
              → find core_id account_id after
                ≡ or_else (lookup account_id snapshot) (
                    or_else
                      (totals_at (key_of core_id account_id) baselines)
                      (find core_id account_id before))))
unfolding previous
save-stored_baselines file baselines core_id snapshot (d, stored, valid) h core u =
    let collected = collect core_id snapshot baselines in
    let merged = update d collected in
    let valid' = collect-IsBaselines core_id core snapshot baselines h in
    let all = update-IsBaselines d collected valid valid' in
    let file' = content (Json.object (of_entries merged)) in
    let stored' : previous file' ≡ Json.object (of_entries merged) =
      decoded-object (of_entries merged) in
    let (before, read, found) = by_core_onto-find [] d valid in
    let (after, read', found') = by_core_onto-find [] merged all in
    rw (save-content file d collected stored) (
      refl,
      (merged, stored', all),
      (
        before,
        after,
        stored_baselines-previous file d stored ∙ read,
        stored_baselines-previous file' merged stored' ∙ read',
        λ a.
            let key = key_of core_id a in
            let old = found core_id a core ∙ or_else-none (totals_at key d) in
            found' core_id a core
            ∙ or_else-none (totals_at key merged)
            ∙ totals_at-update key d collected valid'
            ∙ ap (λ (o : Option Totals). or_else o (totals_at key d))
                (totals_at-collect core_id core snapshot baselines a u)
            ∙ or_else_assoc (lookup a snapshot) (totals_at key baselines) (totals_at key d)
            ∙ ap
                (λ (o : Option Totals).
                  or_else (lookup a snapshot) (or_else (totals_at key baselines) o))
                (sym old),
      ),
    )
