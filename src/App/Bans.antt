-- ===== src/App/Bans.antt =====
-- `PUT /v1/ip-bans` of node_agent/app.py, behind its signed request.
pub mod Settled
use rc_node.Base.{
  contains, http_exception, Exec, ℕ, ◌+◌, String, none, some, List, [], ◌∷◌, ◌++◌, if◌then◌else◌,
  string_eq, nat_eq, Result, ok, err,
}
use rc_node.Base.Int.{ℤ, pos}
use rc_node.Base.Json.{Json, str_json, truthy}
use rc_node.Base.Dict.{lookup}
use rc_node.Base.Text.{is_nonempty}
use rc_node.Security.Identity.{NodeIdentityStore, audit}
use rc_node.IpLimits.{Host, Row, managed_ports}
use rc_node.IpLimits.Nft.{Commands, Applied, active, refused, apply, terminate, drop_conntrack}

-- The identity, with its audit log, and the kernel and the drivers of the host.
pub record Firewall (N : Type 0) : Type 0 where
  pub identity : NodeIdentityStore
  pub kernel : N

-- The answer: the bans that are active and the connections that were closed.
pub record BansApplied : Type 0 where
  pub active_count : ℕ
  pub closed : ℕ

module _ {N : Type 0} (host : Host) (commands : Commands N) where
  -- `{str(row.get("ip")) for row in body.bans if row.get("ip")}`
  unfoldable pub ban_ips : List Row → List String → List String
  ban_ips [] ips = ips
  ban_ips (row ∷ rows) ips = ban_ips rows (elim (lookup "ip" row) [
    | none ↦ ips
    | some v ↦
        if truthy v
        then if contains ips (str_json host.py v) then ips else ips ++ str_json host.py v ∷ []
        else ips
  ])

  abbrev pub note : ℤ → ℕ → ℕ → NodeIdentityStore → NodeIdentityStore
  note seconds count closed identity =
      (audit seconds "ip_bans.apply"
        (("active", Json.number (pos count))
          ∷ ("connections_closed", Json.number (pos closed))
          ∷ [])
        identity).1

  -- The endpoint behind `terminate`
  unfoldable pub closed_and_noted :
      ℤ
      → List Row
      → List ℤ
      → List ℤ
      → ℕ
      → Result ℕ
      → NodeIdentityStore
      → N
      → Result BansApplied × Firewall N
  closed_and_noted seconds bans tcp udp count (err e) identity k =
      (err e, record { identity = identity; kernel = k })
  closed_and_noted seconds bans tcp udp count (ok ended) identity k =
      let (dropped, k') = drop_conntrack commands (ban_ips bans []) tcp udp k in
      (
        ok (record { active_count = count; closed = ended + dropped }),
        record { identity = note seconds count (ended + dropped) identity; kernel = k' },
      )

  -- The endpoint behind `apply`
  unfoldable pub answer_applied :
      ℤ
      → List Row
      → List ℤ
      → List ℤ
      → Result Applied
      → NodeIdentityStore
      → N
      → Result BansApplied × Firewall N
  unfolding closed_and_noted ban_ips
  answer_applied seconds bans tcp udp (err e) identity k =
      (err e, record { identity = identity; kernel = k })
  answer_applied seconds bans tcp udp (ok (refused message)) identity k = (
    err (http_exception 409 (if is_nonempty message then message else "IP ban apply failed")),
    record { identity = identity; kernel = k },
  )
  answer_applied seconds bans tcp udp (ok (active count)) identity k =
      let (ended, k') = terminate commands host (ban_ips bans []) k in
      closed_and_noted seconds bans tcp udp count ended identity k'

  -- `apply_ip_bans`. `seconds` is the time of the audit log, `now` that of `apply`.
  unfoldable pub apply_ip_bans : ℤ → ℕ → List Row → Exec (Firewall N) BansApplied
  unfolding answer_applied
  apply_ip_bans seconds now bans s = elim (managed_ports host) [
    | err e ↦ (err e, s)
    | ok (tcp, udp) ↦
        let (applied, k) = apply commands host now bans tcp udp s.kernel in
        answer_applied seconds bans tcp udp applied s.identity k
  ]
