-- ===== src/Limits/Users.antt =====
-- What the host makes of pushed limits in node_agent/limits.py: `_identities` and the loop of
-- `_desired`. A `set` is a list in the order of its insertions.
use rc_node.Base.{
  ℕ, String, true, false, Option, none, some, List, [], ◌∷◌, ◌++◌, map, if◌then◌else◌, ◌==◌,
  string_eq, nat_eq, Result, ok, err, Eq, Error, value_error, type_error, other_error, contains,
}
use rc_node.Base.Int.{int_eq, ℤ, pos, pos_part}
use rc_node.Base.Json.{
  int_json, Json, Fields, Items, Coercions, str_json, get_json, as_dict, truthy, elements, number,
  boolean, text, object, array,
}
use rc_node.Base.Dict.{Dict, lookup, insert}
use rc_node.Base.Text.{is_nonempty, int}

-- What a driver says of one account: the `str` of its inner sources, and its uids.
pub record Identity : Type 0 where
  pub inner_sources : List String
  pub uids : List Json

-- `UserLimit` of the panel's library
pub record UserLimit : Type 0 where
  pub user_id : ℤ
  pub username : String
  pub upload_mbps : ℕ
  pub download_mbps : ℕ
  pub inner_sources : List String
  pub ssh_uids : List ℤ
  pub softether_accounts : List String

abbrev pub Desired : Type 0
Desired = List (ℤ × UserLimit)

-- The host: its cores and their drivers, the interpreter's libraries, and the panel's library that
-- installs the rules. `bandwidth_identities` is `none` where the manager or the driver raises,
-- `ip_of` where `ipaddress.ip_interface` does. `set_of` is `set(value)` of a value that is neither
-- an object nor false. `reconcile` gets the outcome of `_desired`, which it calls, and gives the
-- number of users in its state and the `last_error` of the limiter.
pub record Host : Type 0 where
  pub py : Coercions
  pub list_cores : List String
  pub bandwidth_identities : String → Option (Dict String Identity)
  pub ip_of : String → Option String
  pub set_of : Json → Result (List String)
  pub reconcile : String → Result Desired → Result (ℕ × Option String)
  pub str_error : Error → String

-- `int(value or 0)`
unfoldable pub int_or_zero : Json → Result ℤ
int_or_zero (number n) = ok n
int_or_zero (boolean true) = ok (pos 1)
int_or_zero (boolean false) = ok (pos 0)
int_or_zero Json.null = ok (pos 0)
int_or_zero (text s) =
    if is_nonempty s
    then elim (int s) [ none ↦ err (value_error "invalid literal for int()") | some n ↦ ok n ]
    else ok (pos 0)
int_or_zero (array Items.nil) = ok (pos 0)
int_or_zero (object Fields.end) = ok (pos 0)
int_or_zero _ = err type_error

-- `s.add(x)` and `s |= {...}`
abbrev pub add {ℓ} : {A : Type ℓ} ⦃e : Eq A⦄ → A → List A → List A
add x xs = if contains xs x then xs else xs ++ x ∷ []

abbrev pub add_all {ℓ} : {A : Type ℓ} ⦃e : Eq A⦄ → List A → List A → List A
add_all [] xs = xs
add_all (y ∷ ys) xs = add_all ys (add y xs)

-- `isinstance(spec, dict)` for each value; the others count for nothing.
unfoldable pub specs : Dict String Json → Dict String (Dict String Json)
specs [] = []
specs ((raw_id, spec) ∷ limits) =
    let rest = specs limits in elim (as_dict spec) [ none ↦ rest | some d ↦ (raw_id, d) ∷ rest ]

module _ (host : Host) where
  -- `_identities`
  unfoldable pub identities : String → Dict String Identity
  identities core_id =
      if contains host.list_cores core_id
      then elim (host.bandwidth_identities core_id) [ none ↦ [] | some d ↦ d ]
      else []

  -- The loop over `inner_sources`; a text that is no address is skipped.
  unfoldable pub add_sources : List String → UserLimit → UserLimit
  add_sources [] limit = limit
  add_sources (source ∷ sources) limit = add_sources sources (elim (host.ip_of source) [
    | none ↦ limit
    | some ip ↦ record limit { inner_sources = add ip limit.inner_sources }
  ])

  -- The loop over `uids`
  unfoldable pub add_uids : List Json → UserLimit → UserLimit
  add_uids [] limit = limit
  add_uids (uid ∷ uids) limit = add_uids uids (elim (int_json uid) [
    | none ↦ limit
    | some n ↦ record limit { ssh_uids = add n limit.ssh_uids }
  ])

  -- The loop over `account_ids`, with the identities of the core
  unfoldable pub add_accounts : Dict String Identity → List Json → UserLimit → UserLimit
  unfolding add_sources add_uids
  add_accounts found [] limit = limit
  add_accounts found (account_id ∷ account_ids) limit =
      add_accounts found account_ids (elim (lookup (str_json host.py account_id) found) [
        | none ↦ limit
        | some identity ↦ add_uids identity.uids (add_sources identity.inner_sources limit)
      ])

  unfoldable pub with_softether : String → List Json → UserLimit → UserLimit
  with_softether core_id account_ids limit =
      if core_id == "softether"
      then record limit {
        softether_accounts = add_all (map (str_json host.py) account_ids) limit.softether_accounts;
      }
      else limit

  -- One pass of the loop over `accounts`; a value that is no list is skipped.
  unfoldable pub add_core : String → Json → UserLimit → UserLimit
  unfolding with_softether add_accounts identities
  add_core core_id (array items) limit =
      add_accounts (identities core_id) (elements items)
        (with_softether core_id (elements items) limit)
  add_core core_id _ limit = limit

  unfoldable pub add_cores : Dict String Json → UserLimit → UserLimit
  unfolding add_core
  add_cores [] limit = limit
  add_cores ((core_id, account_ids) ∷ accounts) limit =
      add_cores accounts (add_core core_id account_ids limit)

  -- `(spec.get("accounts") or {}).items()`; a true value that is no object has no `items`.
  unfoldable pub accounts_of : Dict String Json → Result (Dict String Json)
  accounts_of spec =
      let accounts = get_json "accounts" spec in
      if truthy accounts
      then elim (as_dict accounts) [ none ↦ err (other_error "AttributeError") | some d ↦ ok d ]
      else ok []

  -- `max(0, n)`
  abbrev pub rate : ℤ → ℕ
  rate n = pos_part n

  -- `UserLimit(...)`, before the loop over the accounts.
  unfoldable pub new_limit : String → ℤ → ℤ → ℤ → Dict String Json → UserLimit
  new_limit raw_id user_id up down spec = record {
    user_id = user_id;
    username =
        if truthy (get_json "username" spec)
        then str_json host.py (get_json "username" spec)
        else raw_id;
    upload_mbps = rate up;
    download_mbps = rate down;
    inner_sources = [];
    ssh_uids = [];
    softether_accounts = [];
  }

  unfoldable pub limit_of : String → ℤ → Dict String Json → Result UserLimit
  unfolding new_limit accounts_of add_cores
  limit_of raw_id user_id spec = elim (int_or_zero (get_json "upload_mbps" spec)) [
    | err e ↦ err e
    | ok up ↦ elim (int_or_zero (get_json "download_mbps" spec)) [
      | err e ↦ err e
      | ok down ↦ elim (accounts_of spec) [
        | err e ↦ err e
        | ok accounts ↦ ok (add_cores accounts (new_limit raw_id user_id up down spec))
      ]
    ]
  ]

  -- The loop of `_desired`, over the specs; an id that is no integer is skipped.
  unfoldable pub desired_onto : Desired → Dict String (Dict String Json) → Result Desired
  unfolding limit_of
  desired_onto desired [] = ok desired
  desired_onto desired ((raw_id, spec) ∷ limits) =
      let skipped = desired_onto desired limits in
      elim (int raw_id) [
        | none ↦ skipped
        | some user_id ↦ elim (limit_of raw_id user_id spec) [
          | err e ↦ err e
          | ok limit ↦ desired_onto (insert user_id limit desired) limits
        ]
      ]
