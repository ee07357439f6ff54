-- ===== src/App/Settings.antt =====
-- The settings of a core in node_agent/app.py: which ones a signed command may set
-- (`_authorize_core`), and how they are shown (`_mask_settings`).
pub mod Masking
pub mod Policy
use rc_node.Base.{
  http_exception, contains, ◌-◌, ◌<◌, String, ◌<>◌, Bool, true, false, ◌&&◌, ◌||◌, not, List, [],
  ◌∷◌, if◌then◌else◌, ◌==◌, string_eq, nat_eq, length, Result, ok, err,
}
use Prim.Native.Char.{code}
use rc_node.Base.Dict.{Dict, insert}
use rc_node.Base.Json.{truthy, Json}
use rc_node.Base.Json.Json.{text}
use rc_node.Base.Text
use rc_node.Base.Text.Decimal.{decimal}

starts_with : String → String → Bool
starts_with String.[] s = true
starts_with (String.◌∷◌ c p) String.[] = false
starts_with (String.◌∷◌ c p) (String.◌∷◌ d s) = (code c == code d) && starts_with p s

-- `marker in s`
is_in : String → String → Bool
unfolding starts_with
is_in marker String.[] = starts_with marker String.[]
is_in marker (String.◌∷◌ c s) = starts_with marker (String.◌∷◌ c s) || is_in marker s

any_in : List String → String → Bool
unfolding is_in
any_in [] s = false
any_in (marker ∷ markers) s = is_in marker s || any_in markers s

abbrev secret_markers : List String
secret_markers = "secret" ∷ "password" ∷ "passwd" ∷ "token" ∷ "key" ∷ "psk" ∷ "pass" ∷ []

-- `str_lower` is `str.lower`, and `str_of` is `str` of a value.
module _ (str_lower : String → String) (str_of : Json → String) where
  unfoldable pub is_secret : String → Bool
  unfolding any_in
  is_secret key = any_in secret_markers (str_lower key)

  -- What the mask shows for one setting.
  unfoldable pub mask_value : String → Json → Json
  mask_value key value =
      if is_secret key && truthy value
      then text ("set (" <> decimal (Text.length (str_of value)) <> " chars)")
      else value

  unfoldable pub mask_onto : Dict String Json → Dict String Json → Dict String Json
  mask_onto masked [] = masked
  mask_onto masked ((key, value) ∷ settings) =
      mask_onto (insert key (mask_value key value) masked) settings

  -- `_mask_settings`
  unfoldable pub mask_settings : Dict String Json → Dict String Json
  mask_settings settings = mask_onto [] settings

-- The drivers of the image and the host's paths. A resolved path is the list of its parts.
pub record Host : Type 0 where
  pub available_drivers : List String
  pub schema_properties : String → List String  -- metadata.config_schema["properties"]
  pub default_settings : String → List String  -- metadata.default_settings
  pub is_absolute : String → Bool
  pub resolve : String → List String
  pub core_root : String
  pub repr_sorted : List String → String  -- the text of `sorted(names)`

abbrev pub node_core_allowlist : List String
node_core_allowlist =
    "xray" ∷ "sing-box" ∷ "openvpn" ∷ "wireguard" ∷ "ssh" ∷ "softether" ∷ "pptp" ∷ []

abbrev path_markers : List String
path_markers = "path" ∷ "root" ∷ "dir" ∷ []

-- `root == path or root in path.parents`: the parts of the root begin those of the path.
unfoldable pub is_under : List String → List String → Bool
is_under [] path = true
is_under (r ∷ root) [] = false
is_under (r ∷ root) (p ∷ path) = r == p && is_under root path

module _ (str_lower : String → String) (host : Host) where
  unfoldable pub allowed : String → String → Bool
  allowed core_id key =
      contains (host.schema_properties core_id) key
      || contains (host.default_settings core_id) key
      || key == "release_version"

  -- `set(settings) - allowed`
  unfoldable pub unknown : String → Dict String Json → List String
  unknown core_id [] = []
  unknown core_id ((key, value) ∷ settings) =
      let rest = unknown core_id settings in if allowed core_id key then rest else key ∷ rest

  unfoldable pub is_pathish : String → Bool
  unfolding any_in
  is_pathish key = any_in path_markers (str_lower key)

  -- The test that makes `_authorize_core` refuse one setting.
  unfoldable pub escapes : String → Json → Bool
  escapes key (text value) =
      is_pathish key
      && host.is_absolute value
      && not (is_under (host.resolve host.core_root) (host.resolve value))
  escapes key _ = false

  unfoldable pub check_paths : Dict String Json → Result (Unit {0})
  check_paths [] = ok tt
  check_paths ((key, value) ∷ settings) =
      let rest = check_paths settings in
      if escapes key value
      then err (http_exception 422 ("setting '" <> key <> "' must remain under " <> host.core_root))
      else rest

  check_settings : String → Dict String Json → List String → Result (Unit {0})
  check_settings core_id settings [] = check_paths settings
  check_settings core_id settings (key ∷ keys) = err (
      http_exception 422
        ("settings are not allowlisted for " <> core_id <> ": " <> host.repr_sorted (key ∷ keys)))

  -- `_authorize_core`; no settings are the empty dict.
  unfoldable pub authorize_core : String → Dict String Json → Result (Unit {0})
  unfolding check_settings
  authorize_core core_id settings =
      if not (contains node_core_allowlist core_id)
      then err (http_exception 403 ("core '" <> core_id <> "' is not in the node allowlist"))
      else if not (contains host.available_drivers core_id)
      then err (http_exception 404 ("core '" <> core_id <> "' has no driver in this image"))
      else check_settings core_id settings (unknown core_id settings)
