-- ===== src/IpLimits/Nft.antt =====
-- `apply`, `drop_conntrack` and `terminate` of node_agent/ip_limits.py. The commands of the host are
-- parameters, on the state `N` of its kernel.
use rc_node.Base.{
  Exec, ℕ, suc, ◌+◌, String, ◌<>◌, Bool, not, Option, none, some, List, [], ◌∷◌, if◌then◌else◌,
  string_eq, nat_eq, length, Result, ok, err,
}
use rc_node.Base.Int.{ℤ}
use rc_node.Base.Text.Trim.{strip}
use rc_node.Base.Text.Decimal.{str_int}
use rc_node.IpLimits.{Host, Row, script, active_bans}

-- `subprocess.CompletedProcess`, with its code not zero as a flag.
pub record Completed : Type 0 where
  pub failed : Bool
  pub stderr : String

-- `which` tells whether the command is installed. `run` gets the arguments and the input, and
-- `terminate_source_ip` is `none` for a driver without that method.
pub record Commands (N : Type 0) : Type 0 where
  pub which : String → Bool
  pub run : List String → String → N → Completed × N
  pub terminate_source_ip : String → Option (String → N → Result ℕ × N)

-- What `apply` answers.
pub data Applied : Type 0 where
  active : ℕ → Applied
  refused : String → Applied

abbrev pub list_command : List String
list_command = "nft" ∷ "list" ∷ "table" ∷ "inet" ∷ "zagros_ip_limit" ∷ []

abbrev pub delete_command : List String
delete_command = "nft" ∷ "delete" ∷ "table" ∷ "inet" ∷ "zagros_ip_limit" ∷ []

abbrev pub load_command : List String
load_command = "nft" ∷ "-f" ∷ "-" ∷ []

-- `f"delete table inet {_TABLE}\n" + script`
abbrev pub replacing : String → String
replacing text = "delete table inet zagros_ip_limit\n" <> text

module _ {N : Type 0} (commands : Commands N) where
  abbrev pub settled : ℕ → Completed × N → Result Applied × N
  settled n (result, k) =
      (ok (if result.failed then refused (strip result.stderr) else active n), k)

  -- The branch of `apply` without an active ban.
  unfoldable pub lift_bans : Bool → N → Result Applied × N
  lift_bans exists k =
      if exists then settled 0 (commands.run delete_command "" k) else (ok (active 0), k)

  -- The branch of `apply` with active bans.
  unfoldable pub load_bans : ℕ → Bool → String → N → Result Applied × N
  load_bans n exists text k =
      settled n (commands.run load_command (if exists then replacing text else text) k)

  module _ (host : Host) where
    unfoldable pub apply_active : List ℤ → List ℤ → ℕ → List Row → Bool → N → Result Applied × N
    unfolding lift_bans load_bans
    apply_active tcp udp now [] exists k = lift_bans exists k
    apply_active tcp udp now (row ∷ rows) exists k = elim (script host (row ∷ rows) tcp udp now) [
      | err e ↦ (err e, k)
      | ok text ↦ load_bans (length (row ∷ rows)) exists text k
    ]

    -- `apply`, at the time `now`
    unfoldable pub apply : ℕ → List Row → List ℤ → List ℤ → Exec N Applied
    unfolding apply_active
    apply now bans tcp udp k =
        if commands.which "nft"
        then elim (active_bans host now bans) [
          | err e ↦ (err e, k)
          | ok rows ↦
              let (listed, k') = commands.run list_command "" k in
              apply_active tcp udp now rows (not listed.failed) k'
        ]
        else (ok (refused "nft is not installed"), k)

  -- The loop of `drop_conntrack` over the ports.
  unfoldable pub drop_ports : String → String → List ℤ → ℕ → N → ℕ × N
  drop_ports ip proto [] closed k = (closed, k)
  drop_ports ip proto (port ∷ ports) closed k =
      let (result, k') =
        commands.run ("conntrack" ∷ "-D" ∷ "-s" ∷ ip ∷ "-p" ∷ proto ∷ "--dport" ∷ str_int port ∷ [])
          "" k in
      drop_ports ip proto ports (if result.failed then closed else suc closed) k'

  unfoldable pub drop_ips : List String → List ℤ → List ℤ → ℕ → N → ℕ × N
  unfolding drop_ports
  drop_ips [] tcp udp closed k = (closed, k)
  drop_ips (ip ∷ ips) tcp udp closed k =
      let (closed', k') = drop_ports ip "tcp" tcp closed k in
      let (closed'', k'') = drop_ports ip "udp" udp closed' k' in drop_ips ips tcp udp closed'' k''

  -- `drop_conntrack`
  unfoldable pub drop_conntrack : List String → List ℤ → List ℤ → N → ℕ × N
  unfolding drop_ips
  drop_conntrack ips tcp udp k =
      if commands.which "conntrack" then drop_ips ips tcp udp 0 k else (0, k)

  -- The loop of `terminate` over the addresses.
  unfoldable pub terminate_ips : (String → N → Result ℕ × N) → List String → ℕ → Exec N ℕ
  terminate_ips operation [] closed k = (ok closed, k)
  terminate_ips operation (ip ∷ ips) closed k =
      let (result, k') = operation ip k in
      elim result [ err e ↦ (err e, k') | ok n ↦ terminate_ips operation ips (closed + n) k' ]

  unfoldable pub terminate_cores : List String → List String → ℕ → Exec N ℕ
  unfolding terminate_ips
  terminate_cores [] ips closed k = (ok closed, k)
  terminate_cores (core_id ∷ cores) ips closed k = elim (commands.terminate_source_ip core_id) [
    | none ↦ terminate_cores cores ips closed k
    | some operation ↦
        let (result, k') = terminate_ips operation ips closed k in
        elim result [ err e ↦ (err e, k') | ok n ↦ terminate_cores cores ips n k' ]
  ]

  -- `terminate`
  unfoldable pub terminate : Host → List String → Exec N ℕ
  unfolding terminate_cores
  terminate host ips k = terminate_cores host.list_cores ips 0 k
