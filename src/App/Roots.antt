-- ===== src/App/Roots.antt =====
-- `_node_driver_settings` of node_agent/app.py: the settings that a driver on a node is built with.
pub mod Relocated
use rc_node.Base.{
  ◌<◌, String, ◌<>◌, ◌&&◌, not, Option, none, some, [], ◌∷◌, if◌then◌else◌, ◌==◌, string_eq, nat_eq,
}
use rc_node.Base.Json.{Json, text}
use rc_node.Base.Dict.{Dict, insert, has_key}
use rc_node.Base.Text.{is_nonempty}
use rc_node.Base.Text.Trim.{strip}
use Prim.Native.Char.{code}

abbrev pub core_root_default : String
core_root_default = "/var/lib/zagros"

-- `s.rstrip("/")`
unfoldable pub without_slashes : String → String
without_slashes String.[] = String.[]
without_slashes (String.◌∷◌ c s) =
    let rest = without_slashes s in
    if code c == 47 && not (is_nonempty rest) then String.[] else String.◌∷◌ c rest

-- `os.environ.get("ZAGROS_CORE_ROOT", "").strip().rstrip("/") or CORE_ROOT_DEFAULT`
unfoldable pub core_root : String → String
unfolding without_slashes
core_root value =
    let root = without_slashes (strip value) in if is_nonempty root then root else core_root_default

-- The rest of a text behind a prefix, where it has the prefix.
unfoldable pub behind : String → String → Option String
behind String.[] s = some s
behind (String.◌∷◌ c prefix) String.[] = none
behind (String.◌∷◌ c prefix) (String.◌∷◌ d s) =
    let rest = behind prefix s in if code c == code d then rest else none

-- The value that a default gets, if any. `default[len(CORE_ROOT_DEFAULT):]` starts with the slash.
unfoldable pub relocation : String → Json → Option Json
unfolding behind
relocation root (text default) = elim (behind (core_root_default <> "/") default) [
  | none ↦ none
  | some rest ↦ some (text (root <> String.◌∷◌ "/" rest))
]
relocation root _ = none

-- One pass of the loop over the defaults.
unfoldable pub pass : String → String → Json → Dict String Json → Dict String Json
unfolding relocation
pass root key default merged =
    if has_key key merged
    then merged
    else elim (relocation root default) [ none ↦ merged | some value ↦ insert key value merged ]

unfoldable pub relocate : String → Dict String Json → Dict String Json → Dict String Json
unfolding pass
relocate root [] merged = merged
relocate root ((key, default) ∷ defaults) merged =
    relocate root defaults (pass root key default merged)

-- `_node_driver_settings`. `defaults` are the default settings of the driver, `none` where looking
-- them up raises.
unfoldable pub node_driver_settings :
    String → Option (Dict String Json) → Dict String Json → Dict String Json
unfolding relocate
node_driver_settings root defaults settings =
    let merged = insert "_runtime_mode" (text "node") settings in
    if root == core_root_default
    then merged
    else elim defaults [ none ↦ merged | some ds ↦ relocate root ds merged ]
