-- ===== src/App/Settings/Policy.antt =====
-- Which settings a signed command may set.
use rc_node.Base.{
  String, ◌≡◌, refl, ◌↔◌, ◌⊎◌, inl, inr, true, false, List, [], ◌∷◌, arith, string_eq, nat_eq, All,
  ok, contains,
}
use rc_node.App.Settings.{
  node_core_allowlist, check_settings, authorize_core, Host, allowed, unknown, is_pathish, escapes,
  check_paths, is_under,
}
use rc_node.Base.Dict.{Dict}
use rc_node.Base.Json.{Json}
use rc_node.Base.Json.Json.{text}

module _ (str_lower : String → String) (host : Host) where
  -- A text that is an absolute path lies under the core root, if its key is that of a path.
  abbrev pub IsConfined : String → Json → Type 0
  IsConfined key (text path) =
      (is_pathish str_lower host key ≡ false)
      ⊎ (host.is_absolute path ≡ false)
      ⊎ (is_under (host.resolve host.core_root) (host.resolve path) ≡ true)
  IsConfined key _ = Unit

  abbrev pub IsPermitted : String → String × Json → Type 0
  IsPermitted core_id (key, value) =
      (allowed str_lower host core_id key ≡ true) × IsConfined key value

  escapes_iff :
      (key : String) (value : Json)
      → (escapes str_lower host key value ≡ false) ↔ IsConfined key value
  unfolding escapes
  escapes_iff key (text path) = ground arith
  escapes_iff key Json.null = (λ h. tt, λ h. refl)
  escapes_iff key (Json.boolean b) = (λ h. tt, λ h. refl)
  escapes_iff key (Json.number n) = (λ h. tt, λ h. refl)
  escapes_iff key (Json.array items) = (λ h. tt, λ h. refl)
  escapes_iff key (Json.object fields) = (λ h. tt, λ h. refl)

  unknown_iff :
      (core_id : String) (settings : Dict String Json)
      → (unknown str_lower host core_id settings ≡ [])
        ↔ All (λ (s : String × Json). allowed str_lower host core_id s.0 ≡ true) settings
  unfolding unknown
  unknown_iff core_id [] = (λ h. tt, λ h. refl)
  unknown_iff core_id ((key, value) ∷ settings) = ground (arith, unknown_iff core_id settings)

  check_paths_iff :
      (settings : Dict String Json)
      → (check_paths str_lower host settings ≡ ok tt)
        ↔ All (λ (s : String × Json). escapes str_lower host s.0 s.1 ≡ false) settings
  unfolding check_paths
  check_paths_iff [] = (λ h. tt, λ h. refl)
  check_paths_iff ((key, value) ∷ settings) = ground (arith, check_paths_iff settings)

  IsPermitted-iff :
      (core_id : String) (settings : Dict String Json)
      → (All (λ (s : String × Json). allowed str_lower host core_id s.0 ≡ true) settings
          × All (λ (s : String × Json). escapes str_lower host s.0 s.1 ≡ false) settings)
        ↔ All (IsPermitted core_id) settings
  IsPermitted-iff core_id [] = (λ h. tt, λ h. (tt, tt))
  IsPermitted-iff core_id ((key, value) ∷ settings) =
      let ih = IsPermitted-iff core_id settings in
      let here = escapes_iff key value in
      (
        λ ((a, known), (e, es)). ((a, here.0 e), ih.0 (known, es)),
        λ ((a, c), rest). let (known, es) = ih.1 rest in ((a, known), (here.1 c, es)),
      )

  check_settings_iff :
      (core_id : String) (settings : Dict String Json) (keys : List String)
      → (check_settings str_lower host core_id settings keys ≡ ok tt)
        ↔ ((keys ≡ []) × (check_paths str_lower host settings ≡ ok tt))
  unfolding check_settings
  check_settings_iff core_id settings [] = (λ h. (refl, h), λ h. h.1)
  check_settings_iff core_id settings (key ∷ keys) = (λ h. cc, λ h. cc)

  settings_iff :
      (core_id : String) (settings : Dict String Json)
      → (check_settings str_lower host core_id settings (unknown str_lower host core_id settings)
          ≡ ok tt)
        ↔ All (IsPermitted core_id) settings
  settings_iff core_id settings =
      let c = check_settings_iff core_id settings (unknown str_lower host core_id settings) in
      let u = unknown_iff core_id settings in
      let p = check_paths_iff settings in
      let both = IsPermitted-iff core_id settings in
      (
        λ h. let (none_unknown, paths) = c.0 h in both.0 (u.0 none_unknown, p.0 paths),
        λ h. let (a, e) = both.1 h in c.1 (u.1 a, p.1 e),
      )

  -- `_authorize_core` lets a command through exactly when its core is one of the allowlist and has
  -- a driver, every key is one of the core's schema, one of its defaults or `release_version`, and
  -- every absolute path under a key that names a path, a root or a directory resolves to the core
  -- root or to a place under it.
  pub authorize_core-ok_iff :
      (core_id : String) (settings : Dict String Json)
      → (authorize_core str_lower host core_id settings ≡ ok tt) ↔ (
          (contains node_core_allowlist core_id ≡ true)
          × (contains host.available_drivers core_id ≡ true)
          × All (IsPermitted core_id) settings)
  unfolding authorize_core
  authorize_core-ok_iff core_id settings = ground (arith, settings_iff core_id settings)

  -- A relative path is never compared with the core root: under an allowed key of a core that the
  -- node hosts, every such text is accepted, wherever it resolves.
  pub authorize_core-relative :
      (core_id key path : String)
      → contains node_core_allowlist core_id ≡ true
      → contains host.available_drivers core_id ≡ true
      → allowed str_lower host core_id key ≡ true
      → host.is_absolute path ≡ false
      → authorize_core str_lower host core_id ((key, text path) ∷ []) ≡ ok tt
  authorize_core-relative core_id key path listed present known relative =
      (authorize_core-ok_iff core_id ((key, text path) ∷ [])).1
        (listed, present, ((known, inr (inl relative)), tt))
