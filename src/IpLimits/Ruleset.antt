-- ===== src/IpLimits/Ruleset.antt =====
-- The rule set that `_script` of node_agent/ip_limits.py prints: the bans by address, and its text.
use rc_node.Base.{
  ℕ, String, ◌<>◌, Bool, true, false, none, some, List, [], ◌∷◌, map, if◌then◌else◌, ltb, string_eq,
  nat_eq,
}
use Prim.Native.String.{compare}
use Prim.Native.Nat.{lt, eq, gt}
use rc_node.Base.Int.{ℤ, int_eq, leb_ℤ}
use rc_node.Base.Dict.{Dict, lookup, insert}
use rc_node.Base.Text.{is_nonempty}
use rc_node.Base.Text.Decimal.{decimal, str_int}

-- Seconds by address, of version 4 and of version 6
pub record Groups : Type 0 where
  pub v4 : Dict String ℕ
  pub v6 : Dict String ℕ

-- `bucket[ip] = max(bucket.get(ip, 0), seconds)`
abbrev pub larger : ℕ → ℕ → ℕ
larger a b = if ltb a b then b else a

abbrev pub raised : String → ℕ → Dict String ℕ → Dict String ℕ
raised ip seconds bucket =
    insert ip (larger (elim (lookup ip bucket) [ none ↦ 0 | some n ↦ n ]) seconds) bucket

abbrev pub filed : Bool → String → ℕ → Groups → Groups
filed true ip seconds groups = record groups { v6 = raised ip seconds groups.v6 }
filed false ip seconds groups = record groups { v4 = raised ip seconds groups.v4 }

-- `sorted`
abbrev pub text_leb : String → String → Bool
text_leb s t = elim (compare s t) [ lt ↦ true | eq ↦ true | gt ↦ false ]

abbrev pub insert_row : String × ℕ → Dict String ℕ → Dict String ℕ
insert_row x [] = x ∷ []
insert_row x (y ∷ ys) =
    let rest = insert_row x ys in if text_leb (x.0) (y.0) then x ∷ y ∷ ys else y ∷ rest

abbrev pub sorted_rows : Dict String ℕ → Dict String ℕ
sorted_rows [] = []
sorted_rows (x ∷ xs) = insert_row x (sorted_rows xs)

abbrev pub insert_port : ℤ → List ℤ → List ℤ
insert_port x [] = x ∷ []
insert_port x (y ∷ ys) = let rest = insert_port x ys in if leb_ℤ x y then x ∷ y ∷ ys else y ∷ rest

abbrev pub sorted_ports : List ℤ → List ℤ
sorted_ports [] = []
sorted_ports (x ∷ xs) = insert_port x (sorted_ports xs)

-- `", ".join(parts)`
unfoldable pub comma_joined : List String → String
comma_joined [] = ""
comma_joined (part ∷ []) = part
comma_joined (part ∷ parts) = part <> (", " <> comma_joined parts)

abbrev pub element_text : String × ℕ → String
element_text (ip, seconds) = ip <> (" timeout " <> (decimal seconds <> "s"))

-- `set_line`
unfoldable pub set_line : String → String → String → Bool → String
set_line name nft_type values timed =
    let flags = if timed then " flags timeout;" else "" in
    let initial = if is_nonempty values then " elements = { " <> (values <> " };") else "" in
    " set " <> (name <> (" { type " <> (nft_type <> (";" <> (flags <> (initial <> " }"))))))

-- The text of the rule set.
unfoldable pub ruleset_text : Groups → List ℤ → List ℤ → String
unfolding comma_joined set_line
ruleset_text groups tcp udp =
    let elements = λ (rows : Dict String ℕ). comma_joined (map element_text (sorted_rows rows)) in
    let ports = λ (rows : List ℤ). comma_joined (map str_int (sorted_ports rows)) in
    "table inet zagros_ip_limit {\n"
    <> (set_line "banned_v4" "ipv4_addr" (elements groups.v4) true
        <> ("\n"
            <> (set_line "banned_v6" "ipv6_addr" (elements groups.v6) true
                <> ("\n"
                    <> (set_line "vpn_tcp_ports" "inet_service" (ports tcp) false
                        <> ("\n"
                            <> (set_line "vpn_udp_ports" "inet_service" (ports udp) false
                                <> ("\n chain input {\n"
                                    <> ("  type filter hook input priority -210; policy accept;\n"
                                        <> ("  ip saddr @banned_v4 tcp dport @vpn_tcp_ports counter drop\n"
                                            <> ("  ip saddr @banned_v4 udp dport @vpn_udp_ports counter drop\n"
                                                <> ("  ip6 saddr @banned_v6 tcp dport @vpn_tcp_ports counter drop\n"
                                                    <> ("  ip6 saddr @banned_v6 udp dport @vpn_udp_ports counter drop\n"
                                                        <> " }\n}\n")))))))))))))
