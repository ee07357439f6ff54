-- ===== src/App/Telemetry/Cursor.antt =====
-- The file of the baselines over calls of the endpoint.
use rc_node.App.Cores.{set_default}
use rc_node.Base.{
  ◌++◌, Error, Result, Result-cases, err, ◌⊎◌, subst, String, ◌≡◌, refl, ◌∙◌, inl, inr, true, false,
  ◌&&◌, List, [], ◌∷◌, arith, Bool-cases, Option-cases, string_eq, nat_eq, All, ok,
}
use rc_node.Base.Dict.{Dict, update}
use rc_node.Base.Json.{Json, of_entries}
use rc_node.App.Usage.{
  UsageFile, unreadable, Write, written, unopened, truncated, ByCore, previous, stored_baselines,
  save_usage_baselines,
}
use rc_node.App.Usage.Restore.{IsCoreId, IsBaselines, by_core_onto-find, update-IsBaselines}
use rc_node.App.Usage.Roundtrip.{
  IsStored, collect-IsBaselines, stored_baselines-previous, save-content, decoded-object,
}
use rc_node.App.Telemetry.{
  Meters, Telemetry, capable, read_cores, save_cursor, runtime_usage, with_traffic,
  collect_snapshot,
}

-- A file that the agent wrote is read without an exception.
stored-read :
    (file : UsageFile) → IsStored file → (by_core : ByCore) × (stored_baselines file ≡ ok by_core)
stored-read file (d, stored, valid) =
    let (by_core, read, found) = by_core_onto-find [] d valid in
    (by_core, stored_baselines-previous file d stored ∙ read)

save-unopened :
    (file : UsageFile) (d baselines : Dict String Json)
    → previous file ≡ Json.object (of_entries d)
    → save_usage_baselines unopened baselines file ≡ (ok tt, file)
unfolding save_usage_baselines
save-unopened file d baselines e = rw (e, save_usage_baselines) refl

save-truncated :
    (file : UsageFile) (d baselines : Dict String Json)
    → previous file ≡ Json.object (of_entries d)
    → save_usage_baselines truncated baselines file ≡ (ok tt, unreadable)
unfolding save_usage_baselines
save-truncated file d baselines e = rw (e, save_usage_baselines) refl

save-IsStored :
    (write : Write) (baselines : Dict String Json) (file : UsageFile)
    → IsBaselines baselines
    → IsStored file
    → ((save_usage_baselines write baselines file).0 ≡ ok tt)
      × IsStored (save_usage_baselines write baselines file).1
unfolding previous
save-IsStored written baselines file h (d, stored, valid) =
    rw (save-content file d baselines stored) (
      refl,
      (
        update d baselines,
        decoded-object (of_entries (update d baselines)),
        update-IsBaselines d baselines valid h,
      ),
    )
save-IsStored unopened baselines file h (d, stored, valid) =
    rw (save-unopened file d baselines stored) (refl, (d, stored, valid))
save-IsStored truncated baselines file h (d, stored, valid) =
    rw (save-truncated file d baselines stored) (refl, ([], refl, tt))

save_cursor-IsStored :
    (write : Write) (baselines : Dict String Json) (file : UsageFile)
    → IsBaselines baselines
    → IsStored file
    → ((save_cursor write baselines file).0 ≡ ok tt) × IsStored (save_cursor write baselines file).1
unfolding save_cursor
save_cursor-IsStored write [] file h stored = (refl, stored)
save_cursor-IsStored write (e ∷ baselines) file h stored =
    save-IsStored write (e ∷ baselines) file h stored

module _ {D R T : Type 0} (meters : Meters D R T) where
  -- The reading of a record or of a total has raised `e`.
  abbrev pub HasRaised : Error → Type 0
  HasRaised e =
      ((r : R) × (meters.has_traffic r ≡ err e))
      ⊎ (((r : R) × (meters.model_dump r ≡ err e)) ⊎ ((t : T) × (meters.int_totals t ≡ err e)))

  -- What a call of the endpoint comes to, from a file of the agent: its records, or what a record or
  -- a total has raised, which leaves the file as it was; and a file that a start reads.
  abbrev pub IsRead : UsageFile → Result (List (Dict String Json)) × Telemetry D → Type 0
  IsRead file (answer, s) =
      (((records : List (Dict String Json)) × (answer ≡ ok records))
        ⊎ ((e : Error) × (answer ≡ err e) × HasRaised e × (s.file ≡ file)))
      × IsStored s.file
      × ((by_core : ByCore) × (stored_baselines s.file ≡ ok by_core))

  capable-All : (cores : List String) → All IsCoreId cores → All IsCoreId (capable meters cores)
  unfolding capable
  capable-All [] h = tt
  capable-All (core_id ∷ cores) (c, h) =
      let rest = capable-All cores h in
      elim (Option-cases (meters.is_enabled core_id)) [
        | inl broken ↦ rw (broken, capable) rest
        | inr (enabled, e) ↦ elim (Bool-cases (enabled && meters.accounts_usage core_id)) [
          | inl reads ↦ rw (e, reads, capable) (c, rest)
          | inr skips ↦ rw (e, skips, capable) rest
        ]
      ]

  with_traffic-raised :
      (core_id : String) (rs : List R) (records : List (Dict String Json)) (e : Error)
      → with_traffic meters core_id rs records ≡ err e
      → HasRaised e
  unfolding with_traffic
  with_traffic-raised core_id [] records e h = absurd (ground arith)
  with_traffic-raised core_id (r ∷ rs) records e h = elim (Result-cases (meters.has_traffic r)) [
    | inr (x, bad) ↦ inl (r, ground arith)
    | inl (true, reads) ↦ elim (Result-cases (meters.model_dump r)) [
      | inr (x, bad) ↦ inr (inl (r, ground arith))
      | inl (payload, dumped) ↦
          with_traffic-raised core_id rs
            (records ++ set_default "core_id" (Json.text core_id) payload ∷ []) e (ground arith)
    ]
    | inl (false, reads) ↦ with_traffic-raised core_id rs records e (ground arith)
  ]

  -- The baselines are entries of the agent, or a total has raised.
  abbrev AreCollected : Result (Dict String Json) → Type 0
  AreCollected (err e) = HasRaised e
  AreCollected (ok baselines) = IsBaselines baselines

  collect_snapshot-AreCollected :
      (core_id : String) (snapshot : Dict String T) (baselines : Dict String Json)
      → IsCoreId core_id
      → IsBaselines baselines
      → AreCollected (collect_snapshot meters core_id snapshot baselines)
  unfolding collect_snapshot
  collect_snapshot-AreCollected core_id [] baselines c b = b
  collect_snapshot-AreCollected core_id ((a, totals) ∷ snapshot) baselines c b =
      elim (Result-cases (meters.int_totals totals)) [
        | inr (e, bad) ↦ rw (bad, collect_snapshot) (inr (inr (totals, bad)))
        | inl (t, good) ↦
            rw (good, collect_snapshot)
              (collect_snapshot-AreCollected core_id snapshot _ c
                (collect-IsBaselines core_id c ((a, t) ∷ []) baselines b))
      ]

  abbrev AreRead : Result (List (Dict String Json) × Dict String Json) → Type 0
  AreRead (err e) = HasRaised e
  AreRead (ok (records, baselines)) = IsBaselines baselines

  read_cores-AreRead :
      (cores : List String) (records : List (Dict String Json)) (baselines : Dict String Json)
      (d : D)
      → All IsCoreId cores
      → IsBaselines baselines
      → AreRead (read_cores meters cores records baselines d).0
  unfolding read_cores
  read_cores-AreRead [] records baselines d h b = b
  read_cores-AreRead (core_id ∷ cores) records baselines d (c, h) b =
      let d' = (meters.get_usage core_id d).1 in
      elim (Option-cases (meters.get_usage core_id d).0) [
        | inl failed ↦ rw (failed, read_cores) (read_cores-AreRead cores records baselines d' h b)
        | inr (rs, e) ↦ elim (Result-cases (with_traffic meters core_id rs records)) [
          | inr (x, bad) ↦ rw (e, bad, read_cores) (with_traffic-raised core_id rs records x bad)
          | inl (records', good) ↦
              let collected =
                collect_snapshot-AreCollected core_id (meters.snapshot core_id d') baselines c b in
              elim (Result-cases
                (collect_snapshot meters core_id (meters.snapshot core_id d') baselines)) [
                  | inr (x, bad) ↦
                      rw (e, good, bad, read_cores)
                        (subst (λ (r : Result (Dict String Json)). AreCollected r) bad collected)
                  | inl (baselines', kept) ↦
                      rw (e, good, kept, read_cores)
                        (read_cores-AreRead cores records' baselines' d' h (
                          subst (λ (r : Result (Dict String Json)). AreCollected r) kept collected))
                ]
        ]
      ]

  runtime_usage-read :
      (write : Write) (s : Telemetry D) (records : List (Dict String Json))
      (baselines : Dict String Json)
      → (read_cores meters (capable meters meters.list_cores) [] [] s.drivers).0
        ≡ ok (records, baselines)
      → (save_cursor write baselines s.file).0 ≡ ok tt
      → runtime_usage meters write s ≡ (
        ok records,
        record {
          file = (save_cursor write baselines s.file).1;
          drivers = (read_cores meters (capable meters meters.list_cores) [] [] s.drivers).1;
        },
      )
  unfolding runtime_usage
  runtime_usage-read write s records baselines e saved = rw (e, saved, runtime_usage) refl

  runtime_usage-raised :
      (write : Write) (s : Telemetry D) (x : Error)
      → (read_cores meters (capable meters meters.list_cores) [] [] s.drivers).0 ≡ err x
      → runtime_usage meters write s ≡ (
        err x,
        record {
          file = s.file;
          drivers = (read_cores meters (capable meters meters.list_cores) [] [] s.drivers).1;
        },
      )
  unfolding runtime_usage
  runtime_usage-raised write s x e = rw (e, runtime_usage) refl

  -- Reading the usage never breaks the next start. Let core ids be not empty and without a colon, and
  -- let the file hold entries that the agent wrote, or be missing or cut off. Whatever the drivers
  -- answer or raise, and whether the write succeeds, fails before it has opened the file or truncates
  -- it: the file then is such a file again, and the loop of a start reads it without an exception. The
  -- endpoint answers its records, or it raises what the reading of a record or of a total has raised,
  -- and the file is then as it was.
  pub runtime_usage-IsStored :
      (write : Write) (s : Telemetry D)
      → All IsCoreId meters.list_cores
      → IsStored s.file
      → IsRead s.file (runtime_usage meters write s)
  runtime_usage-IsStored write s h stored =
      let cores = capable meters meters.list_cores in
      let read = read_cores-AreRead cores [] [] s.drivers (capable-All meters.list_cores h) tt in
      elim (Result-cases (read_cores meters cores [] [] s.drivers).0) [
        | inr (x, bad) ↦ rw (runtime_usage-raised write s x bad) (
          inr (x, refl, subst (λ (r : _). AreRead r) bad read, refl),
          stored,
          stored-read s.file stored,
        )
        | inl ((records, baselines), good) ↦
            let (saved, stored') =
              save_cursor-IsStored write baselines s.file (subst (λ (r : _). AreRead r) good read)
                stored in
            rw (runtime_usage-read write s records baselines good saved) (
              inl (records, refl),
              stored',
              stored-read (save_cursor write baselines s.file).1 stored',
            )
      ]
