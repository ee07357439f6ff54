-- ===== src/Examples/Adoption.antt =====
-- A running core that adopts an identity.
use rc_node.Base.{
  String, ◌≡◌, refl, true, false, Option, none, some, [], ◌∷◌, arith, string_eq, nat_eq, ok,
  is_some, contains,
}
use rc_node.Base.Int.{pos}
use rc_node.Base.Dict.{Dict}
use rc_node.App.Settings.{Host, authorize_core, unknown, check_paths}
use rc_node.App.Adoption.{Adopters, Adoption, persisted, core_identity}
use rc_node.App.Adoption.Restarted.{IsLoaded, IsServed, core_identity-IsServed}
use rc_node.Examples.Data.{armed}

-- The disk of a core, and what it serves.
record Core : Type 0 where
  disk : Dict String String
  serves : Option (Dict String String)

abbrev adopters : Adopters Core
adopters = record {
  list_cores = "wireguard" ∷ [];
  importer = λ core_id. some (λ material d. (ok ("key" ∷ []), record d { disk = material }));
  persist_settings = none;
  is_running = λ core_id d. is_some d.serves;
  stop_core = λ core_id d. (ok tt, record d { serves = none });
  start_core = λ core_id d. (ok tt, record d { serves = some d.disk });
  type_name = λ e. "Exception";
  str_error = λ e. "";
}

stopped : (o : Option (Dict String String)) → is_some o ≡ false → o ≡ none
stopped none h = refl
stopped (some m) h = absurd (ground arith)

loaded : IsLoaded adopters "wireguard" (λ d. d.disk) (λ d. d.serves)
loaded = record {
  persists = λ f d there. absurd (ground arith);
  stops = λ d. refl;
  starts = λ d started. refl;
  idle = λ d h. stopped d.serves h;
}

abbrev host : Host
host = record {
  available_drivers = "wireguard" ∷ [];
  schema_properties = λ core_id. [];
  default_settings = λ core_id. [];
  is_absolute = λ path. false;
  resolve = λ path. [];
  core_root = "/cores";
  repr_sorted = λ names. "[]";
}

same_text : String → String
same_text s = s

permitted : authorize_core same_text host "wireguard" [] ≡ ok tt
unfolding authorize_core unknown check_paths string_eq
permitted = refl

listed : contains adopters.list_cores "wireguard" ≡ true
unfolding string_eq
listed = refl

abbrev material : Dict String String
material = ("key", "k") ∷ []

abbrev before : Adoption Core
before = record { identity = armed; cores = record { disk = []; serves = some [] } }

core_identity-IsServed_example :
    IsServed adopters "wireguard"
      (λ d. d.disk)
      (λ d. d.serves)
      material
      (persisted adopters "wireguard" (record { disk = material; serves = some [] }))
      (core_identity adopters (λ names. names) same_text host (pos 1) "wireguard" material before)
core_identity-IsServed_example =
    core_identity-IsServed adopters (λ d. d.disk) (λ d. d.serves) (λ names. names) same_text host
      (pos 1) "wireguard" "key" [] material (λ m d. (ok ("key" ∷ []), record d { disk = m })) before
      loaded permitted listed refl refl
