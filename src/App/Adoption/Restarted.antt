-- ===== src/App/Adoption/Restarted.antt =====
-- An adopted identity is what the core serves.
use rc_node.Base.{
  subst, contains, [], Error, Exec, Result-cases, String, ◌≡◌, refl, sym, ap, ◌∙◌, ◌⊎◌, inl, inr,
  Bool, true, false, Option, none, some, List, ◌∷◌, arith, Option-cases, string_eq, nat_eq, Result,
  ok, err,
}
use rc_node.App.Settings.{Host, authorize_core}
use rc_node.App.Adoption.{
  imported, core_identity, Adopters, Adoption, Adopted, persisted, restart, restarted_if,
}
use rc_node.Base.Int.{ℤ}
use rc_node.Base.Dict.{Dict}
use rc_node.Security.Identity.{NodeIdentityStore}

module _ {D : Type 0} (adopters : Adopters D) (core_id : String) (stored : D → Dict String String)
    (served : D → Option (Dict String String)) where
  -- What the endpoint relies on, for one core: `stored` is the material on its disk and `served` what
  -- it answers handshakes with. The saving of settings and a stop leave the disk alone, a core that
  -- has started serves what is stored, and one that does not run serves nothing.
  pub record IsLoaded : Type 0 where
    pub persists :
        (f : String → Exec D (Unit {0})) (d : D)
        → adopters.persist_settings ≡ some f
        → stored ((f core_id d).1) ≡ stored d
    pub stops : (d : D) → stored ((adopters.stop_core core_id d).1) ≡ stored d
    pub starts :
        (d : D)
        → (adopters.start_core core_id d).0 ≡ ok tt
        → served ((adopters.start_core core_id d).1) ≡ some (stored d)
    pub idle : (d : D) → adopters.is_running core_id d ≡ false → served d ≡ none

  -- The core serves the material after a restart, or it does not run, or its restart raised.
  abbrev pub IsServed : Dict String String → D → Result Adopted × Adoption D → Type 0
  IsServed material d (err e, s) = (x : Error) × ((restart adopters core_id d).0 ≡ err x)
  IsServed material d (ok a, s) =
      ((a.restarted ≡ true) × (served s.cores ≡ some material))
      ⊎ ((a.restarted ≡ false) × (served s.cores ≡ none))

  module _ (loaded : IsLoaded) where
    persisted-stored : (d : D) → stored (persisted adopters core_id d) ≡ stored d
    unfolding persisted
    persisted-stored d = elim (Option-cases adopters.persist_settings) [
      | inl missing ↦ rw (missing, persisted) refl
      | inr (f, there) ↦ rw (there, persisted) (loaded.persists f d there)
    ]

    restart-served :
        (d : D)
        → (restart adopters core_id d).0 ≡ ok tt
        → served ((restart adopters core_id d).1) ≡ some (stored d)
    unfolding restart
    restart-served d h = elim (Result-cases ((adopters.stop_core core_id d).0)) [
      | inr (e, bad) ↦ absurd (ground arith)
      | inl (u, stopped) ↦
          let d' = (adopters.stop_core core_id d).1 in
          let goes : restart adopters core_id d ≡ adopters.start_core core_id d' =
            rw (stopped, restart) refl in
          ap (λ (r : Result (Unit {0}) × D). served (r.1)) goes
          ∙ loaded.starts d' (sym (ap (λ (r : Result (Unit {0}) × D). r.0) goes) ∙ h)
          ∙ ap some (loaded.stops d)
    ]

    module _ (sorted : List String → List String) where
      restarted_if-IsServed :
          (now : ℤ) (names : List String) (running : Bool) (identity : NodeIdentityStore) (d : D)
          → adopters.is_running core_id d ≡ running
          → IsServed
              (stored d)
              d
              (restarted_if adopters sorted now core_id names running identity d)
      unfolding restarted_if
      restarted_if-IsServed now names false identity d h = inr (refl, loaded.idle d h)
      restarted_if-IsServed now names true identity d h =
          elim (Result-cases ((restart adopters core_id d).0)) [
            | inr (e, bad) ↦ rw (bad, restarted_if) (e, bad)
            | inl (u, good) ↦ rw (good, restarted_if) (inl (refl, restart-served d good))
          ]

-- An adopted identity is what the core serves. Let the checks pass and the driver apply at least one
-- name of the material. When the endpoint then answers, the core was restarted and serves the
-- material that the import has left on its disk, whatever part of the pushed one this is, or it was
-- not restarted and serves nothing. It raises only when the stop or the start of the core has raised.
-- This is for cores whose start serves what is on the disk, which serve nothing while they do not
-- run, and whose disk a stop and the saving of settings leave alone.
pub core_identity-IsServed :
    {D : Type 0} (adopters : Adopters D) (stored : D → Dict String String)
    (served : D → Option (Dict String String)) (sorted : List String → List String)
    (str_lower : String → String) (host : Host) (now : ℤ) (core_id name : String)
    (names : List String) (material : Dict String String)
    (f : Dict String String → Exec D (List String)) (s : Adoption D)
    → (loaded : IsLoaded adopters core_id stored served)
    → authorize_core str_lower host core_id [] ≡ ok tt
    → contains adopters.list_cores core_id ≡ true
    → adopters.importer core_id ≡ some f
    → (f material s.cores).0 ≡ ok (name ∷ names)
    → IsServed adopters core_id stored served
        (stored ((f material s.cores).1))
        (persisted adopters core_id ((f material s.cores).1))
        (core_identity adopters sorted str_lower host now core_id material s)
unfolding core_identity imported
core_identity-IsServed adopters stored served sorted str_lower host now core_id name names material
      f s loaded permitted there can takes =
    let d = persisted adopters core_id ((f material s.cores).1) in
    let kept : stored d ≡ stored ((f material s.cores).1) =
      persisted-stored adopters core_id stored served loaded ((f material s.cores).1) in
    rw (permitted, there, can, takes, core_identity, imported)
      (subst
        (λ (m : Dict String String). IsServed adopters core_id stored served m d (
          restarted_if adopters sorted now core_id (name ∷ names) (adopters.is_running core_id d)
            s.identity d))
        kept
        (restarted_if-IsServed adopters core_id stored served loaded sorted now (name ∷ names)
          (adopters.is_running core_id d) s.identity d refl))
