-- ===== src/IpLimits.antt =====
-- node_agent/ip_limits.py: the panel's timed bans of source addresses, on the ports of this node's
-- listeners. `ipaddress`, `datetime.fromisoformat` and the drivers are parameters; a time is a number
-- of microseconds, and a `set` is a list.
pub mod Ruleset
pub mod Longest
pub mod Nft
pub mod Table
use rc_node.Base.{
  key_error, value_error, contains, ℕ, ◌+◌, ◌-◌, ◌<◌, String, ◌<>◌, Bool, not, Option, none, some,
  List, [], ◌∷◌, ◌++◌, if◌then◌else◌, ltb, ◌==◌, string_eq, nat_eq, Result, ok, err,
}
use rc_node.IpLimits.Ruleset.{Groups, larger, filed, ruleset_text}
use Prim.Native.Nat.{◌/◌}
use Prim.Native.Char.{code}
use rc_node.Base.Int.{ℤ, int_eq}
use rc_node.Base.Dict.{Dict, lookup}
use rc_node.Base.Json.{Json, Coercions, str_json}

-- A `datetime`, with its instant. That of a naive one is taken in UTC.
pub data Moment : Type 0 where
  naive aware : ℕ → Moment

pub record Address : Type 0 where
  pub text : String
  pub version : ℕ
  pub is_loopback : Bool

-- A listener's claim; the address is its `str`.
pub record Claim : Type 0 where
  pub address : String
  pub protocol : String
  pub transport : String
  pub port : ℤ

-- `ip_of` is `ipaddress.ip_address`, `none` where it raises a ValueError, as `fromisoformat` is.
-- `listener_claims` is `none` where the manager or the driver raises.
pub record Host : Type 0 where
  pub py : Coercions
  pub str_lower : String → String
  pub ip_of : String → Option Address
  pub fromisoformat : String → Option Moment
  pub list_cores : List String
  pub is_enabled : String → Result Bool
  pub listener_claims : String → Option (List Claim)

abbrev pub Row : Type 0
Row = Dict String Json

-- `set.add`
abbrev pub add_port : ℤ → List ℤ → List ℤ
add_port port ports = if contains ports port then ports else ports ++ port ∷ []

-- `str.replace("Z", "+00:00")`
unfoldable pub with_offset : String → String
with_offset String.[] = String.[]
with_offset (String.◌∷◌ c s) =
    let rest = with_offset s in if code c == 90 then "+00:00" <> rest else String.◌∷◌ c rest

module _ (host : Host) where
  -- The ports of one claim that counts.
  abbrev pub add_claim : Claim → List ℤ × List ℤ → List ℤ × List ℤ
  add_claim claim (tcp, udp) =
      if claim.protocol == "accel-ppp-cli"
      then (tcp, udp)
      else if host.str_lower claim.transport == "udp"
      then (tcp, add_port claim.port udp)
      else (
        add_port claim.port tcp,
        if claim.protocol == "openvpn-clone" then add_port claim.port udp else udp,
      )

  -- One pass of the loop over the claims. An address that does not parse counts.
  unfoldable pub claim_ports : Claim → List ℤ × List ℤ → List ℤ × List ℤ
  claim_ports claim ports = elim (host.ip_of claim.address) [
    | none ↦ add_claim claim ports
    | some a ↦ if a.is_loopback then ports else add_claim claim ports
  ]

  unfoldable pub claims_ports : List Claim → List ℤ × List ℤ → List ℤ × List ℤ
  unfolding claim_ports
  claims_ports [] ports = ports
  claims_ports (claim ∷ claims) ports = claims_ports claims (claim_ports claim ports)

  unfoldable pub cores_ports : List String → List ℤ × List ℤ → Result (List ℤ × List ℤ)
  unfolding claims_ports
  cores_ports [] ports = ok ports
  cores_ports (core_id ∷ cores) ports = elim (host.is_enabled core_id) [
    | err e ↦ err e
    | ok enabled ↦ cores_ports cores (
        if enabled
        then elim (host.listener_claims core_id) [
          | none ↦ ports
          | some claims ↦ claims_ports claims ports
        ]
        else ports)
  ]

  -- `managed_ports`
  unfoldable pub managed_ports : Result (List ℤ × List ℤ)
  unfolding cores_ports
  managed_ports = cores_ports host.list_cores ([], [])

  -- `_parse_time`
  unfoldable pub parse_time : Json → Result ℕ
  unfolding with_offset
  parse_time value = elim (host.fromisoformat (with_offset (str_json host.py value))) [
    | none ↦ err (value_error "Invalid isoformat string")
    | some (naive n) ↦ ok n
    | some (aware n) ↦ ok n
  ]

  unfoldable pub expiry : Row → Result ℕ
  unfolding parse_time
  expiry row = elim (lookup "expires_at" row) [ none ↦ err key_error | some v ↦ parse_time v ]

  -- `str(ipaddress.ip_address(str(row["ip"])))`
  unfoldable pub ban_ip : Row → Result String
  ban_ip row = elim (lookup "ip" row) [
    | none ↦ err key_error
    | some v ↦ elim (host.ip_of (str_json host.py v)) [
      | none ↦ err (value_error "not an IPv4 or IPv6 address")
      | some a ↦ ok a.text
    ]
  ]

  -- `max(1, int((expires - now).total_seconds()))`
  abbrev pub seconds_left : ℕ → ℕ → ℕ
  seconds_left now expires = larger 1 ((expires - now) / 1000000)

  -- One pass of the loop of `_script`.
  unfoldable pub group_row : ℕ → Row → Groups → Result Groups
  unfolding expiry ban_ip
  group_row now row groups = elim (ban_ip row) [
    | err e ↦ err e
    | ok ip ↦ elim (expiry row) [
      | err e ↦ err e
      | ok expires ↦ elim (host.ip_of ip) [
        | none ↦ err (value_error "not an IPv4 or IPv6 address")
        | some a ↦ ok (filed (a.version == 6) ip (seconds_left now expires) groups)
      ]
    ]
  ]

  unfoldable pub group_rows : ℕ → List Row → Groups → Result Groups
  unfolding group_row
  group_rows now [] groups = ok groups
  group_rows now (row ∷ rows) groups = elim (group_row now row groups) [
    | err e ↦ err e
    | ok groups' ↦ group_rows now rows groups'
  ]

  -- `_script`
  unfoldable pub script : List Row → List ℤ → List ℤ → ℕ → Result String
  unfolding group_rows ruleset_text
  script bans tcp udp now = elim (group_rows now bans (record { v4 = []; v6 = [] })) [
    | err e ↦ err e
    | ok groups ↦ ok (ruleset_text groups tcp udp)
  ]

  -- `[row for row in bans if _parse_time(row["expires_at"]) > now]`
  unfoldable pub active_bans : ℕ → List Row → Result (List Row)
  unfolding expiry
  active_bans now [] = ok []
  active_bans now (row ∷ rows) =
      let rest = active_bans now rows in
      elim (expiry row) [
        | err e ↦ err e
        | ok expires ↦ elim rest [
          | err e ↦ err e
          | ok active ↦ ok (if ltb now expires then row ∷ active else active)
        ]
      ]
