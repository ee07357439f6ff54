-- ===== src/App/Uploads.antt =====
-- What `_materialize_xray_tls` of node_agent/app.py checks of the uploads, and the names that it
-- finds in references to them.
use rc_node.Base.{
  ℕ, ◌+◌, String, ◌<>◌, Bool, false, ◌&&◌, ◌||◌, not, Option, none, some, List, [], ◌∷◌,
  if◌then◌else◌, ltb, leb, ◌==◌, string_eq, nat_eq, length, Result, ok, err, contains, texts_eq,
  value_error,
}
use rc_node.Base.Dict.{Dict}
use rc_node.Base.Text
use Prim.Native.Char.{code}
use rc_node.Base.Text.Codes.{utf8, codes}

abbrev pub material_prefix : String
material_prefix = "zagros-material://"

-- The characters `A-Za-z0-9`
abbrev pub is_alnum : ℕ → Bool
is_alnum c = (leb 65 c && leb c 90) || (leb 97 c && leb c 122) || (leb 48 c && leb c 57)

-- The characters `A-Za-z0-9_.-`
abbrev pub is_name_char : ℕ → Bool
is_name_char c = is_alnum c || (leb 45 c && leb c 46) || c == 95

-- `_NODE_MATERIAL_NAME.fullmatch(name)`
unfoldable pub is_name : String → Bool
is_name String.[] = false
is_name (String.◌∷◌ c s) = is_alnum (code c) && Text.all is_name_char s && leb (Text.length s) 95

-- `value.removeprefix(prefix)`, where the prefix is there.
unfoldable pub after : String → String → Option String
after String.[] s = some s
after (String.◌∷◌ c p) String.[] = none
after (String.◌∷◌ c p) (String.◌∷◌ d s) =
    let rest = after p s in if code c == code d then rest else none

-- The part of a name that ends in four characters, and these characters.
abbrev pub split_last : ℕ → String → String × String
split_last n String.[] = (String.[], String.[])
split_last n (String.◌∷◌ c s) =
    let (front, back) = split_last n s in
    if leb n (Text.length s) then (String.◌∷◌ c front, back) else (front, String.◌∷◌ c s)

-- `name[:-4]`, where the name ends in the suffix of four characters.
unfoldable pub stem_of : String → String → Option String
stem_of suffix name =
    let (front, back) = split_last 4 name in if back == suffix then some front else none

-- The test on the two names of a pair.
unfoldable pub is_pair : String → String → Bool
unfolding is_name stem_of
is_pair cert_name key_name =
    is_name cert_name && is_name key_name && elim (stem_of ".crt" cert_name) [
      | none ↦ false
      | some a ↦ elim (stem_of ".key" key_name) [ none ↦ false | some b ↦ a == b ]
    ]

abbrev pub item_bytes : ℕ
item_bytes = 131072

abbrev pub total_bytes : ℕ
total_bytes = 2097152

abbrev pub invalid {ℓ} : {A : Type ℓ} → String → Result A
invalid detail = err (value_error detail)

-- The loop over the uploaded items, which gives their size.
unfoldable pub check_items : ℕ → Dict String String → Result ℕ
unfolding is_name
check_items total [] = ok total
check_items total ((name, value) ∷ material) =
    let size = length (utf8 (codes value)) in
    let rest = check_items (total + size) material in
    if not (is_name name)
    then invalid ("invalid Xray TLS material name: " <> name)
    else if ltb item_bytes size
    then invalid ("Xray TLS material '" <> name <> "' is too large")
    else rest

unfoldable pub check_total : Result ℕ → Result (Unit {0})
check_total (err e) = err e
check_total (ok total) =
    if ltb total_bytes total then invalid "Xray TLS material exceeds 2 MiB" else ok tt

-- The checks of `_materialize_xray_tls` on the uploads.
unfoldable pub check_material : Dict String String → Result (Unit {0})
unfolding check_items check_total
check_material material =
    if ltb 32 (length material)
    then invalid "too many Xray TLS material files"
    else check_total (check_items 0 material)

-- `sorted(set(material) - consumed)`, up to its order
unfoldable pub unused : List String → List String → List String
unused consumed [] = []
unused consumed (name ∷ names) =
    let rest = unused consumed names in if contains consumed name then rest else name ∷ rest
