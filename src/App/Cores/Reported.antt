-- ===== src/App/Cores/Reported.antt =====
-- What the answer on online devices is to be: each device against the core that has reported it.
use rc_node.Base.{
  ◌⊎◌, ◌++◌, string_eq, nat_eq, true, List, arith, Option, inr, is_some, ◌&&◌, All, err, ◌∷◌,
  String, ok, inl, Result, Option-cases, Bool, ◌==◌, [], ◌≡◌, refl, if◌then◌else◌, some, not,
  All-map, Error,
}
use rc_node.Base.Dict.{lookup, lookup-insert, Dict}
use rc_node.Base.Json.{Json, text}
use rc_node.App.Cores.{Readings, DevicesAnswer, set_default}

-- `x` stands in the list.
abbrev pub IsIn : {A : Type 0} → A → List A → Type 0
IsIn x [] = ⊥
IsIn x (y ∷ ys) = (x ≡ y) ⊎ IsIn x ys

pub IsIn-left : {A : Type 0} (x : A) (xs ys : List A) → IsIn x xs → IsIn x (xs ++ ys)
IsIn-left x [] ys h = absurd h
IsIn-left x (y ∷ xs) ys (inl e) = inl e
IsIn-left x (y ∷ xs) ys (inr h) = inr (IsIn-left x xs ys h)

pub IsIn-last : {A : Type 0} (x : A) (xs : List A) → IsIn x (xs ++ x ∷ [])
IsIn-last x [] = inl refl
IsIn-last x (y ∷ xs) = inr (IsIn-last x xs)

pub All-IsIn : {A : Type 0} (xs : List A) → All (λ x. IsIn x xs) xs
All-IsIn [] = tt
All-IsIn (x ∷ xs) =
    (inl refl, All-map (λ y. IsIn y xs) (λ y. IsIn y (x ∷ xs)) xs (λ y h. inr h) (All-IsIn xs))

-- The session `payload` of a core, as the answer has it: it names the core that it came from, unless
-- it named one itself, and has all else as it was.
abbrev pub IsTagged : String → Dict String Json → Dict String Json → Type 0
IsTagged core_id payload d =
    (k : String)
    → lookup k d ≡ (
        if k == "core_id" && not (is_some (lookup k payload))
        then some (text core_id)
        else lookup k payload)

pub set_default-IsTagged :
    (core_id : String) (payload : Dict String Json)
    → IsTagged core_id payload (set_default "core_id" (text core_id) payload)
set_default-IsTagged core_id payload k =
    let looked = lookup-insert k "core_id" (text core_id) payload in
    elim (string_eq.dec k "core_id") [
      | yes same ↦ elim (Option-cases (lookup "core_id" payload)) [
        | inl free ↦ ground arith
        | inr (v, taken) ↦ ground arith
      ]
      | no differ ↦ elim (Option-cases (lookup "core_id" payload)) [
        | inl free ↦ ground arith
        | inr (v, taken) ↦ ground arith
      ]
    ]

module _ (readings : Readings) where
  -- An installed and enabled core that tracks its devices.
  abbrev pub IsTracked : String → Type 0
  IsTracked core_id =
      IsIn core_id readings.list_cores
      × (readings.is_enabled core_id ≡ some true)
      × (readings.tracks_devices core_id ≡ true)

  -- The device is a session of such a core.
  abbrev pub IsDevice : Dict String Json → Type 0
  IsDevice d =
      (core_id : String) × (found : List (Result (Dict String Json))) × (payload : Dict String Json)
      × IsTracked core_id
      × (readings.online_devices core_id ≡ ok found)
      × IsIn (ok payload) found
      × IsTagged core_id payload d

  -- The read of such a core has failed.
  abbrev pub IsFailed : String → Type 0
  IsFailed core_id = (e : Error) × IsTracked core_id × (readings.online_devices core_id ≡ err e)

  -- A session of such a core has raised `e` when it was dumped.
  abbrev pub HasRaised : Error → Type 0
  HasRaised e =
      (core_id : String) × (found : List (Result (Dict String Json))) × IsTracked core_id
      × (readings.online_devices core_id ≡ ok found)
      × IsIn (err e) found

  -- The answer has the session of the core.
  abbrev pub HasSession : List (Dict String Json) → String → Result (Dict String Json) → Type 0
  HasSession devices core_id (err e) = ⊥
  HasSession devices core_id (ok payload) =
      (d : Dict String Json) × IsIn d devices × IsTagged core_id payload d

  -- The answer has each session of the core, or its name where its read has failed.
  abbrev pub Shows : DevicesAnswer → String → Result (List (Result (Dict String Json))) → Type 0
  Shows a core_id (err e) = IsIn core_id a.failed_cores
  Shows a core_id (ok found) = All (HasSession a.devices core_id) found

  -- So it is for the cores that count.
  abbrev pub ShowsTracked : DevicesAnswer → String → Option Bool → Bool → Type 0
  ShowsTracked a core_id (some true) true = Shows a core_id (readings.online_devices core_id)
  ShowsTracked a core_id _ _ = Unit

  abbrev pub IsAnswer : Result DevicesAnswer → Type 0
  IsAnswer (err e) = HasRaised e
  IsAnswer (ok a) =
      All IsDevice a.devices
      × All IsFailed a.failed_cores
      × All
          (λ core_id.
            ShowsTracked a core_id (readings.is_enabled core_id) (readings.tracks_devices core_id))
          readings.list_cores

  pub HasSession-mono :
      (xs ys : List (Dict String Json)) (core_id : String) (r : Result (Dict String Json))
      → ((d : Dict String Json) → IsIn d xs → IsIn d ys)
      → HasSession xs core_id r
      → HasSession ys core_id r
  HasSession-mono xs ys core_id (err e) grow h = h
  HasSession-mono xs ys core_id (ok payload) grow (d, there, tagged) = (d, grow d there, tagged)
