-- ===== src/App/Settings/Masking.antt =====
-- What the shown settings tell of the real ones.
use rc_node.Base.{
  String, ◌≡◌, refl, sym, ◌⊎◌, inl, inr, true, Option, none, some, [], ◌∷◌, arith, string_eq,
  nat_eq,
}
use mathlib.Core.Option
use rc_node.Base.Dict.{Dict, lookup, insert, NodupKeys, lookup-insert}
use rc_node.Base.Json.{Json, truthy}
use rc_node.Base.Text
use rc_node.App.Settings.{mask_settings, mask_onto, mask_value, is_secret}

or_else : {A : Type 0} → Option A → Option A → Option A
or_else none o = o
or_else (some a) o = some a

module _ (str_lower : String → String) (str_of : Json → String) where
  mask_onto-lookup :
      (k : String) (masked settings : Dict String Json)
      → NodupKeys settings
      → lookup k (mask_onto str_lower str_of masked settings)
        ≡ or_else (Option.map (mask_value str_lower str_of k) (lookup k settings)) (lookup k masked)
  unfolding mask_onto or_else
  mask_onto-lookup k masked [] u = refl
  mask_onto-lookup k masked ((key, value) ∷ settings) (fresh, u) =
      let v = mask_value str_lower str_of key value in
      ground
        (arith, mask_onto-lookup k (insert key v masked) settings u, lookup-insert k key v masked)

  -- The masked settings have the keys of the settings; each value is the masked one of its key.
  pub mask_settings-lookup :
      (k : String) (settings : Dict String Json)
      → NodupKeys settings
      → lookup k (mask_settings str_lower str_of settings)
        ≡ Option.map (mask_value str_lower str_of k) (lookup k settings)
  unfolding mask_settings or_else
  mask_settings-lookup k settings u = ground (arith, mask_onto-lookup k [] settings u)

  -- Two values of a setting that an observer of the mask must not tell apart.
  abbrev pub IsHidden : String → Json → Json → Type 0
  IsHidden key v v' =
      (is_secret str_lower str_of key ≡ true)
      × (truthy v ≡ true)
      × (truthy v' ≡ true)
      × (Text.length (str_of v) ≡ Text.length (str_of v'))

  -- The same settings, but for secret values of the same length.
  abbrev pub IsAlike : Dict String Json → Dict String Json → Type 0
  IsAlike [] [] = Unit
  IsAlike [] (y ∷ t) = ⊥
  IsAlike (x ∷ s) [] = ⊥
  IsAlike ((k, v) ∷ s) ((k', v') ∷ t) = (k ≡ k') × ((v ≡ v') ⊎ IsHidden k v v') × IsAlike s t

  mask_value-hides :
      (k : String) (v v' : Json)
      → (v ≡ v') ⊎ IsHidden k v v'
      → mask_value str_lower str_of k v ≡ mask_value str_lower str_of k v'
  unfolding mask_value
  mask_value-hides k v v' (inl same) = cc
  mask_value-hides k v v' (inr hidden) = ground arith

  mask_onto-hides :
      (masked s t : Dict String Json)
      → IsAlike s t
      → mask_onto str_lower str_of masked s ≡ mask_onto str_lower str_of masked t
  unfolding mask_onto
  mask_onto-hides masked [] [] h = refl
  mask_onto-hides masked [] (y ∷ t) h = elim h [ ]
  mask_onto-hides masked (x ∷ s) [] h = elim h [ ]
  mask_onto-hides masked ((k, v) ∷ s) ((k', v') ∷ t) (same, alike, rest) =
      let e = mask_value-hides k v v' alike in
      let ih = mask_onto-hides (insert k (mask_value str_lower str_of k v) masked) s t rest in
      rw (sym same) (rw (sym e) ih)

  -- The mask tells nothing of a secret but the length of its text: settings that differ in nothing
  -- but the values of secret keys, with texts of the same lengths, have the same mask.
  pub mask_settings-hides :
      (s t : Dict String Json)
      → IsAlike s t
      → mask_settings str_lower str_of s ≡ mask_settings str_lower str_of t
  unfolding mask_settings
  mask_settings-hides s t h = mask_onto-hides [] s t h
