-- ===== src/Limits.antt =====
-- node_agent/limits.py: the speed limits that the panel pushes, what the host makes of them, and
-- their file. Reading the default interface from /proc is not modelled: it is an argument.
pub mod Users
pub mod Totality
pub mod Returns
pub mod Sources
use rc_node.Base.{
  ℕ, zero, suc, ◌+◌, String, Bool, true, false, Option, none, some, List, [], ◌∷◌, if◌then◌else◌,
  string_eq, nat_eq, length, Result, ok, err, Exec, Error,
}
use rc_node.Limits.Users.{
  identities, Identity, Desired, Host, int_or_zero, add_all, specs, desired_onto,
}
use rc_node.Base.Int.{int_eq, pos}
use rc_node.Base.Json.{Json, get_json, as_dict, truthy, of_entries, object}
use rc_node.Base.Dict.{Dict, keys}

-- `bandwidth-limits.json`
pub data LimitsFile : Type 0 where
  missing unreadable : LimitsFile
  content : Json → LimitsFile

pub record NodeBandwidthLimiter : Type 0 where
  pub interface : String
  pub file : LimitsFile
  pub limits : Dict String Json
  pub last_error : Option String

-- `__init__`, on a directory with that file
abbrev pub init : String → LimitsFile → NodeBandwidthLimiter
init interface file = record { interface = interface; file = file; limits = []; last_error = none }

unfoldable pub load : NodeBandwidthLimiter → NodeBandwidthLimiter
load s = elim s.file [
  | missing ↦ s
  | unreadable ↦ s
  | content raw ↦ elim (as_dict raw) [ none ↦ s | some stored ↦ record s { limits = stored } ]
]

-- `_store`; a failed write is only logged.
unfoldable pub store : Bool → Dict String Json → NodeBandwidthLimiter → NodeBandwidthLimiter
store writable limits s =
    if writable then record s { file = content (object (of_entries limits)) } else s

-- The condition of `_limited_count`: the second rate is read if the first one is 0.
unfoldable pub is_limited : Dict String Json → Result Bool
unfolding int_or_zero
is_limited spec = elim (int_or_zero (get_json "upload_mbps" spec)) [
  | err e ↦ err e
  | ok (pos zero) ↦ elim (int_or_zero (get_json "download_mbps" spec)) [
    | err e ↦ err e
    | ok (pos zero) ↦ ok false
    | ok _ ↦ ok true
  ]
  | ok _ ↦ ok true
]

abbrev pub plus : Result Bool → Result ℕ → Result ℕ
plus (err e) rest = err e
plus (ok b) (err e) = err e
plus (ok b) (ok n) = ok (if b then suc n else n)

unfoldable pub count_limited : Dict String (Dict String Json) → Result ℕ
unfolding is_limited
count_limited [] = ok 0
count_limited ((raw_id, spec) ∷ limits) = plus (is_limited spec) (count_limited limits)

-- `_limited_count`
unfoldable pub limited_count : NodeBandwidthLimiter → Result ℕ
unfolding count_limited specs
limited_count s = count_limited (specs s.limits)

module _ (host : Host) where
  -- `_desired`
  unfoldable pub desired : NodeBandwidthLimiter → Result Desired
  unfolding desired_onto specs
  desired s = desired_onto host [] (specs s.limits)

  -- `set(spec.get("accounts") or {})`
  unfoldable pub wanted_by : Dict String Json → Result (List String)
  wanted_by spec =
      let accounts = get_json "accounts" spec in
      if truthy accounts
      then elim (as_dict accounts) [ none ↦ host.set_of accounts | some d ↦ ok (keys d) ]
      else ok []

  -- The first loop of `_identity_map`
  unfoldable pub wanted_onto : List String → Dict String (Dict String Json) → Result (List String)
  unfolding wanted_by
  wanted_onto wanted [] = ok wanted
  wanted_onto wanted ((raw_id, spec) ∷ limits) = elim (wanted_by spec) [
    | err e ↦ err e
    | ok cores ↦ wanted_onto (add_all cores wanted) limits
  ]

  unfoldable pub found : List String → Dict String (Dict String Identity)
  unfolding identities
  found [] = []
  found (core_id ∷ cores) =
      let rest = found cores in
      elim (identities host core_id) [ [] ↦ rest | i ∷ ids ↦ (core_id, i ∷ ids) ∷ rest ]

  -- `_identity_map`
  unfoldable pub identity_map : NodeBandwidthLimiter → Result (Dict String (Dict String Identity))
  unfolding wanted_onto specs
  identity_map s = elim (wanted_onto [] (specs s.limits)) [
    | err e ↦ err e
    | ok wanted ↦ ok (found wanted)
  ]

  abbrev count_each : Dict String (Dict String Identity) → Dict String ℕ
  count_each [] = []
  count_each ((core_id, ids) ∷ cores) = (core_id, length ids) ∷ count_each cores

  abbrev count_of : Dict String Identity → ℕ
  count_of [] = 0
  count_of ((id, identity) ∷ ids) = length identity.inner_sources + count_of ids

  abbrev count_sources : Dict String (Dict String Identity) → ℕ
  count_sources [] = 0
  count_sources ((core_id, ids) ∷ cores) = count_of ids + count_sources cores

-- What `apply` answers: `{"ok": False, ...}` or `{"ok": True, ...}`.
pub data Applied : Type 0 where
  refused : String → ℕ → Applied  -- error, limited_users
  -- interface, limited_users, applied_users, identities, sources
  applied : String → ℕ → ℕ → Dict String ℕ → ℕ → Applied

module _ (host : Host) where
  -- The dict that `apply` returns on success.
  unfoldable pub applied_status : ℕ → NodeBandwidthLimiter → Result Applied
  applied_status users s = elim (limited_count s) [
    | err e ↦ err e
    | ok limited ↦ elim (identity_map host s) [
      | err e ↦ err e
      | ok m ↦ ok (applied s.interface limited users (count_each host m) (count_sources host m))
    ]
  ]

  -- The dict that its handler of exceptions returns.
  unfoldable pub refused_status : Error → NodeBandwidthLimiter → Result Applied
  refused_status e s = elim (limited_count s) [
    | err e' ↦ err e'
    | ok limited ↦ ok (refused (host.str_error e) limited)
  ]

  -- The part of `apply` behind the store.
  unfoldable pub reconcile : Exec NodeBandwidthLimiter Applied
  unfolding applied_status refused_status desired
  reconcile s = elim (host.reconcile s.interface (desired host s)) [
    | err e ↦ (refused_status e s, record s { last_error = some (host.str_error e) })
    | ok (users, last_error) ↦ (applied_status users s, record s { last_error = last_error })
  ]

  abbrev pub received :
      Bool → Option (Dict String Json) → NodeBandwidthLimiter → NodeBandwidthLimiter
  received writable none s = s
  received writable (some limits) s = store writable limits (record s { limits = limits })

  -- `apply`. The flag says whether the file system takes the write.
  unfoldable pub apply : Bool → Option (Dict String Json) → Exec NodeBandwidthLimiter Applied
  unfolding reconcile store
  apply writable limits s = reconcile (received writable limits s)

-- `status`: interface, limited_users, known_users and last_error
unfoldable pub status : NodeBandwidthLimiter → Result (String × ℕ × ℕ × Option String)
unfolding limited_count
status s = elim (limited_count s) [
  | err e ↦ err e
  | ok n ↦ ok (s.interface, n, length s.limits, s.last_error)
]
