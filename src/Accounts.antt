-- ===== src/Accounts.antt =====
-- node_agent/accounts_store.py: the accounts that the panel last pushed for each core, in one file
-- for a core. A file is the value of its JSON; the order of entries in its objects is not modelled.
pub mod Upsert
pub mod Ranks
pub mod Merge
pub mod Snapshots
use rc_node.Base.{
  ℕ, suc, ◌+◌, String, Bool, true, false, ◌&&◌, ◌||◌, none, some, List, [], ◌∷◌, ◌++◌, map,
  if◌then◌else◌, leb, string_eq, nat_eq,
}
use Prim.Native.Char.{Char, code}
use rc_node.Base.Dict.{Dict, lookup, insert, erase, keys, values}
use rc_node.Base.Text.{is_nonempty}
use rc_node.Base.Json.{
  Json, Coercions, str_json, get_json, as_dict, truthy, elements, of_entries, of_elements, object,
  array,
}

abbrev pub Account : Type 0
Account = Dict String Json

-- A file. Reading or decoding an unreadable one raises an OSError or a ValueError.
pub data AccountsFile : Type 0 where
  unreadable : AccountsFile
  content : Json → AccountsFile

-- The directory, by the stem of each file.
pub record AccountsStore : Type 0 where
  pub files : Dict String AccountsFile

-- The characters `A-Za-z0-9._-`
is_safe : Char → Bool
is_safe c =
    let n = code c in
    (leb 65 n && leb n 90)
    || (leb 97 n && leb n 122)
    || (leb 48 n && leb n 57)
    || (leb 45 n && leb n 46)
    || (leb 95 n && leb n 95)

-- `_SAFE.sub('_', core_id)`: one underscore for a run of other characters. The flag says that the
-- character before was one of them.
safe_from : Bool → String → String
unfolding is_safe
safe_from in_run String.[] = String.[]
safe_from in_run (String.◌∷◌ c s) =
    let kept = safe_from false s in
    let skipped = safe_from true s in
    if is_safe c then String.◌∷◌ c kept else if in_run then skipped else String.◌∷◌ "_" skipped

-- The stem of `_path`
unfoldable pub stem : String → String
unfolding safe_from
stem core_id = safe_from false core_id

unfoldable pub dicts : List Json → List Account
dicts [] = []
dicts (v ∷ vs) = let rest = dicts vs in elim (as_dict v) [ none ↦ rest | some a ↦ a ∷ rest ]

unfoldable pub accounts_of : Json → List Account
unfolding dicts
accounts_of (array items) = dicts (elements items)
accounts_of _ = []

unfoldable pub load : String → AccountsStore → List Account
unfolding accounts_of
load core_id s = elim (lookup (stem core_id) s.files) [
  | none ↦ []
  | some unreadable ↦ []
  | some (content raw) ↦ accounts_of raw
]

-- `merged.sort(key=rank)`, which is stable
module _ {A : Type 0} (rank : A → ℕ) where
  abbrev pub insert_by : A → List A → List A
  insert_by x [] = x ∷ []
  insert_by x (y ∷ ys) =
      let rest = insert_by x ys in if leb (rank x) (rank y) then x ∷ y ∷ ys else y ∷ rest

  abbrev pub sort_by : List A → List A
  sort_by [] = []
  sort_by (x ∷ xs) = insert_by x (sort_by xs)

module _ (py : Coercions) where
  -- `str(item.get("account_id") or "")`
  unfoldable pub account_key : Account → String
  account_key item = let id = get_json "account_id" item in if truthy id then str_json py id else ""

  -- The loops that fill `known`.
  unfoldable pub known_onto : Dict String Account → List Account → Dict String Account
  known_onto known [] = known
  known_onto known (item ∷ items) =
      known_onto
        (if is_nonempty (account_key item) then insert (account_key item) item known else known)
        items

  -- The incoming items that are appended to `stored`.
  unfoldable pub keyless : List Account → List Account
  keyless [] = []
  keyless (item ∷ items) =
      let rest = keyless items in if is_nonempty (account_key item) then rest else item ∷ rest

  -- `{key: n for n, i in enumerate(stored)}`
  unfoldable pub order_onto : Dict String ℕ → ℕ → List Account → Dict String ℕ
  order_onto order n [] = order
  order_onto order n (item ∷ items) = order_onto (insert (account_key item) n order) (suc n) items

  -- `order.get(key, 10 ** 6)`
  abbrev pub rank_in : Dict String ℕ → Account → ℕ
  rank_in order item = elim (lookup (account_key item) order) [ none ↦ 1000000 | some n ↦ n ]

  -- The branch of `store` for an incremental push.
  unfoldable pub merge : List Account → List Account → List Account
  merge stored incoming =
      let known = known_onto (known_onto [] stored) incoming in
      let order = order_onto [] 0 (stored ++ keyless incoming) in
      sort_by (rank_in order) (values known)

  -- `store`, with the set that it returns. The flag says whether the file system takes the write; a
  -- failed one is only logged.
  unfoldable pub store :
      Bool → String → List Json → Bool → AccountsStore → List Account × AccountsStore
  store writable core_id accounts replace s =
      let incoming = dicts accounts in
      let stored = if replace then incoming else merge (load core_id s) incoming in
      (
        stored,
        if writable
            then record s {
              files =
                  insert (stem core_id)
                    (content (array (of_elements (map (λ a. object (of_entries a)) stored))))
                    s.files;
            }
            else s,
      )

-- The flag says whether the file can be unlinked.
unfoldable pub forget : Bool → String → AccountsStore → AccountsStore
forget removable core_id s =
    if removable then record s { files = erase (stem core_id) s.files } else s

unfoldable pub load_all : List String → AccountsStore → Dict String (List Account)
load_all [] s = []
load_all (name ∷ names) s = (name, load name s) ∷ load_all names s

-- `all`. The listing of the directory comes sorted by path.
unfoldable pub all : (List String → List String) → AccountsStore → Dict String (List Account)
unfolding load_all
all sorted s = load_all (sorted (keys s.files)) s
