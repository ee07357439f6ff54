-- ===== src/App/Cores/Devices.antt =====
-- The answer on online devices, against what each core says of its sessions.
use rc_node.Base.{
  ◌++◌, string_eq, nat_eq, true, List, inr, All, err, ◌∷◌, String, ok, false, inl, Result,
  Option-cases, [], ◌≡◌, Bool-cases, sym, All-append, Result-cases, All-map, Error, subst,
}
use rc_node.Base.Dict.{Dict}
use rc_node.Base.Json.{Json}
use rc_node.App.Cores.{
  Readings, DevicesAnswer, tag_sessions, tracking, read_devices, runtime_devices,
}
use rc_node.App.Cores.Reported.{
  IsIn, IsIn-left, IsIn-last, All-IsIn, IsTracked, IsDevice, IsFailed, HasRaised, HasSession,
  HasSession-mono, Shows, ShowsTracked, IsAnswer,
}
use rc_node.App.Cores.Sessions.{
  AreDevices, AreSessions, tag_sessions-AreDevices, tag_sessions-AreSessions,
}

module _ (readings : Readings) where
  -- What the loop never adds.
  abbrev IsSound : Result DevicesAnswer → Type 0
  IsSound (err e) = HasRaised readings e
  IsSound (ok a) = All (IsDevice readings) a.devices × All (IsFailed readings) a.failed_cores

  read_devices-IsSound :
      (ids : List String) (sessions : List (Dict String Json)) (failed : List String)
      → All (IsTracked readings) ids
      → All (IsDevice readings) sessions
      → All (IsFailed readings) failed
      → IsSound (read_devices readings ids sessions failed)
  unfolding read_devices
  read_devices-IsSound [] sessions failed t h f = (h, f)
  read_devices-IsSound (core_id ∷ ids) sessions failed (t, ts) h f =
      elim (Result-cases (readings.online_devices core_id)) [
        | inr (e, bad) ↦
            rw (bad, read_devices)
              (read_devices-IsSound ids sessions (failed ++ core_id ∷ []) ts h
                (All-append (IsFailed readings) failed (core_id ∷ []) f ((e, t, bad), tt)))
        | inl (found, good) ↦
            let tagged =
              tag_sessions-AreDevices readings core_id found found sessions t good (All-IsIn found)
                h in
            elim (Result-cases (tag_sessions core_id found sessions)) [
              | inr (e, bad) ↦
                  rw (good, bad, read_devices)
                    (subst (λ (r : Result (List (Dict String Json))). AreDevices readings r) bad
                      tagged)
              | inl (sessions', fine) ↦
                  rw (good, fine, read_devices)
                    (read_devices-IsSound ids sessions' failed ts
                      (subst (λ (r : Result (List (Dict String Json))). AreDevices readings r) fine
                        tagged)
                      f)
            ]
      ]

  -- What the loop never leaves out.
  abbrev IsFull :
      List String → List (Dict String Json) → List String → Result DevicesAnswer → Type 0
  IsFull ids sessions failed (err e) = Unit
  IsFull ids sessions failed (ok a) =
      ((d : Dict String Json) → IsIn d sessions → IsIn d a.devices)
      × ((c : String) → IsIn c failed → IsIn c a.failed_cores)
      × All (λ c. Shows readings a c (readings.online_devices c)) ids

  failed-IsFull :
      (core_id : String) (ids : List String) (sessions : List (Dict String Json))
      (failed : List String) (e : Error) (r : Result DevicesAnswer)
      → readings.online_devices core_id ≡ err e
      → IsFull ids sessions (failed ++ core_id ∷ []) r
      → IsFull (core_id ∷ ids) sessions failed r
  failed-IsFull core_id ids sessions failed e (err x) bad h = tt
  failed-IsFull core_id ids sessions failed e (ok a) bad (grow, keep, rest) = (
    grow,
    λ c h. keep c (IsIn-left c failed (core_id ∷ []) h),
    (
      subst (λ (o : Result (List (Result (Dict String Json)))). Shows readings a core_id o)
          (sym bad) (keep core_id (IsIn-last core_id failed)),
      rest,
    ),
  )

  read-IsFull :
      (core_id : String) (ids : List String) (sessions sessions' : List (Dict String Json))
      (failed : List String) (found : List (Result (Dict String Json))) (r : Result DevicesAnswer)
      → readings.online_devices core_id ≡ ok found
      → AreSessions readings core_id found sessions (ok sessions')
      → IsFull ids sessions' failed r
      → IsFull (core_id ∷ ids) sessions failed r
  read-IsFull core_id ids sessions sessions' failed found (err x) good tags h = tt
  read-IsFull core_id ids sessions sessions' failed found (ok a) good (more, tags)
        (grow, keep, rest) =
      (
        λ d h. grow d (more d h),
        keep,
        (
          subst (λ (o : Result (List (Result (Dict String Json)))). Shows readings a core_id o)
              (sym good)
              (All-map (HasSession readings sessions' core_id)
                (HasSession readings a.devices core_id) found
                (λ p h. HasSession-mono readings sessions' a.devices core_id p grow h) tags),
          rest,
        ),
      )

  read_devices-IsFull :
      (ids : List String) (sessions : List (Dict String Json)) (failed : List String)
      → IsFull ids sessions failed (read_devices readings ids sessions failed)
  unfolding read_devices
  read_devices-IsFull [] sessions failed = (λ d h. h, λ c h. h, tt)
  read_devices-IsFull (core_id ∷ ids) sessions failed =
      elim (Result-cases (readings.online_devices core_id)) [
        | inr (e, bad) ↦
            rw (bad, read_devices)
              (failed-IsFull core_id ids sessions failed e
                (read_devices readings ids sessions (failed ++ core_id ∷ [])) bad
                (read_devices-IsFull ids sessions (failed ++ core_id ∷ [])))
        | inl (found, good) ↦
            let tags = tag_sessions-AreSessions readings core_id found sessions in
            elim (Result-cases (tag_sessions core_id found sessions)) [
              | inr (e, bad) ↦ rw (good, bad, read_devices) tt
              | inl (sessions', fine) ↦
                  rw (good, fine, read_devices)
                    (read-IsFull core_id ids sessions sessions' failed found
                      (read_devices readings ids sessions' failed) good
                      (subst
                        (λ (r : Result (List (Dict String Json))).
                          AreSessions readings core_id found sessions r)
                        fine tags)
                      (read_devices-IsFull ids sessions' failed))
            ]
      ]

  tracking-IsTracked :
      (ids : List String)
      → All (λ c. IsIn c readings.list_cores) ids
      → All (IsTracked readings) (tracking readings ids)
  unfolding tracking
  tracking-IsTracked [] h = tt
  tracking-IsTracked (core_id ∷ ids) (here, h) =
      let rest = tracking-IsTracked ids h in
      elim (Option-cases (readings.is_enabled core_id)) [
        | inl broken ↦ rw (broken, tracking) rest
        | inr (false, off) ↦ rw (off, tracking) rest
        | inr (true, on) ↦ elim (Bool-cases (readings.tracks_devices core_id)) [
          | inl tracks ↦ rw (on, tracks, tracking) ((here, on, tracks), rest)
          | inr blind ↦ rw (on, blind, tracking) rest
        ]
      ]

  shown :
      (a : DevicesAnswer) (ids : List String)
      → All (λ c. Shows readings a c (readings.online_devices c)) (tracking readings ids)
      → All (λ c. ShowsTracked readings a c (readings.is_enabled c) (readings.tracks_devices c)) ids
  unfolding tracking
  shown a [] h = tt
  shown a (core_id ∷ ids) h = elim (Option-cases (readings.is_enabled core_id)) [
    | inl broken ↦ rw broken (tt, shown a ids (rw (broken, tracking) at h))
    | inr (false, off) ↦ rw off (tt, shown a ids (rw (off, tracking) at h))
    | inr (true, on) ↦ elim (Bool-cases (readings.tracks_devices core_id)) [
      | inl tracks ↦
          let (one, rest) = rw (on, tracks, tracking) at h in
          rw (on, tracks) (one, shown a ids rest)
      | inr blind ↦ rw (on, blind) (tt, shown a ids (rw (on, blind, tracking) at h))
    ]
  ]

  answered :
      (r : Result DevicesAnswer)
      → IsSound r
      → IsFull (tracking readings readings.list_cores) [] [] r
      → IsAnswer readings r
  answered (err e) raised full = raised
  answered (ok a) (devices, failed) (grow, keep, full) =
      (devices, failed, shown a readings.list_cores full)

-- The answer on devices is neither short nor made up. Each of its devices is a session that an
-- installed and enabled core which tracks its devices has given, under the name of that core unless
-- the session named one itself, and with all else as it was. Each failed core is such a core whose
-- read has failed. And for every such core the answer has each of its sessions, or names it as
-- failed, whatever the reads of the other cores do. The endpoint raises only what the dump of a
-- session of such a core has raised.
pub runtime_devices-IsAnswer : (readings : Readings) → IsAnswer readings (runtime_devices readings)
unfolding runtime_devices
runtime_devices-IsAnswer readings =
    let ids = tracking readings readings.list_cores in
    answered readings (read_devices readings ids [] [])
      (read_devices-IsSound readings ids [] []
        (tracking-IsTracked readings readings.list_cores (All-IsIn readings.list_cores)) tt tt)
      (read_devices-IsFull readings ids [] [])
