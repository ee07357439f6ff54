-- ===== src/App/Bans/Settled.antt =====
-- What a push of bans leaves behind, whether it is answered or raises.
use rc_node.Base.{
  Result-cases, Error, ℕ, suc, ◌+◌, String, ◌≡◌, refl, sym, ◌∙◌, ◌⊎◌, inl, inr, Option, some, List,
  [], ◌∷◌, arith, if◌then◌else◌, Bool-cases, Option-cases, string_eq, nat_eq, length, Result, ok,
  err,
}
use rc_node.Base.Int.{ℤ}
use rc_node.Base.Text.Decimal.{str_int}
use rc_node.Security.Identity.{NodeIdentityStore}
use rc_node.IpLimits.{Host, Row, managed_ports, active_bans}
use rc_node.IpLimits.Nft.{
  Commands, Applied, active, refused, apply, terminate, drop_conntrack, terminate_cores,
  terminate_ips, drop_ips, drop_ports,
}
use rc_node.IpLimits.Table.{IsNft, IsFor, Ends, done, kept, apply-Ends}
use rc_node.App.Bans.{
  Firewall, BansApplied, apply_ip_bans, answer_applied, closed_and_noted, note, ban_ips,
}

module _ {N : Type 0} (commands : Commands N) (table : N → Option String) where
  -- The other commands and the drivers leave the table of the bans alone.
  pub record IsQuiet : Type 0 where
    pub conntrack :
        (arguments : List String) (k : N)
        → table ((commands.run ("conntrack" ∷ arguments) "" k).1) ≡ table k
    pub drivers :
        (core_id ip : String) (operation : String → N → Result ℕ × N) (k : N)
        → commands.terminate_source_ip core_id ≡ some operation
        → table ((operation ip k).1) ≡ table k

  -- How the endpoint ends, where `wanted` is the table of the active rows.
  abbrev pub IsAnswer :
      Host
      → ℤ
      → List Row
      → ℕ
      → Option String
      → NodeIdentityStore
      → Result BansApplied × Firewall N
      → Type 0
  IsAnswer host seconds bans n wanted identity (r, s') =
      (table s'.kernel ≡ wanted)
      × (((closed : ℕ) × (r ≡ ok (record { active_count = n; closed = closed }))
            × (s'.identity ≡ note host commands seconds n closed identity))
          ⊎ ((e : Error) × (r ≡ err e) × (s'.identity ≡ identity)))

  module _ (quiet : IsQuiet) where
    drop_ports-table :
        (ip proto : String) (ports : List ℤ) (closed : ℕ) (k : N)
        → table ((drop_ports commands ip proto ports closed k).1) ≡ table k
    unfolding drop_ports
    drop_ports-table ip proto [] closed k = refl
    drop_ports-table ip proto (port ∷ ports) closed k =
        let arguments = "-D" ∷ "-s" ∷ ip ∷ "-p" ∷ proto ∷ "--dport" ∷ str_int port ∷ [] in
        let (r, k') = commands.run ("conntrack" ∷ arguments) "" k in
        drop_ports-table ip proto ports (if r.failed then closed else suc closed) k'
        ∙ quiet.conntrack arguments k

    drop_ips-table :
        (ips : List String) (tcp udp : List ℤ) (closed : ℕ) (k : N)
        → table ((drop_ips commands ips tcp udp closed k).1) ≡ table k
    unfolding drop_ips
    drop_ips-table [] tcp udp closed k = refl
    drop_ips-table (ip ∷ ips) tcp udp closed k =
        let (closed', k') = drop_ports commands ip "tcp" tcp closed k in
        let (closed'', k'') = drop_ports commands ip "udp" udp closed' k' in
        drop_ips-table ips tcp udp closed'' k''
        ∙ drop_ports-table ip "udp" udp closed' k'
        ∙ drop_ports-table ip "tcp" tcp closed k

    drop_conntrack-table :
        (ips : List String) (tcp udp : List ℤ) (k : N)
        → table ((drop_conntrack commands ips tcp udp k).1) ≡ table k
    unfolding drop_conntrack
    drop_conntrack-table ips tcp udp k = elim (Bool-cases (commands.which "conntrack")) [
      | inl there ↦ rw there (drop_ips-table ips tcp udp 0 k)
      | inr missing ↦ rw missing refl
    ]

    terminate_ips-table :
        (core_id : String) (operation : String → N → Result ℕ × N) (ips : List String) (closed : ℕ)
        (k : N)
        → commands.terminate_source_ip core_id ≡ some operation
        → table ((terminate_ips commands operation ips closed k).1) ≡ table k
    unfolding terminate_ips
    terminate_ips-table core_id operation [] closed k h = refl
    terminate_ips-table core_id operation (ip ∷ ips) closed k h =
        elim (Result-cases ((operation ip k).0)) [
          | inr (e, bad) ↦ rw (bad, terminate_ips) (quiet.drivers core_id ip operation k h)
          | inl (n, good) ↦
              rw (good, terminate_ips)
                (terminate_ips-table core_id operation ips (closed + n) ((operation ip k).1) h
                  ∙ quiet.drivers core_id ip operation k h)
        ]

    terminate_cores-table :
        (cores ips : List String) (closed : ℕ) (k : N)
        → table ((terminate_cores commands cores ips closed k).1) ≡ table k
    unfolding terminate_cores
    terminate_cores-table [] ips closed k = refl
    terminate_cores-table (core_id ∷ cores) ips closed k =
        elim (Option-cases (commands.terminate_source_ip core_id)) [
          | inl missing ↦ rw (missing, terminate_cores) (terminate_cores-table cores ips closed k)
          | inr (operation, there) ↦
              let stays = terminate_ips-table core_id operation ips closed k there in
              let (r, k') = terminate_ips commands operation ips closed k in
              elim (Result-cases r) [
                | inr (e, bad) ↦ rw (there, bad, terminate_cores) stays
                | inl (n, good) ↦
                    rw (there, good, terminate_cores) (terminate_cores-table cores ips n k' ∙ stays)
              ]
        ]

    answer_applied-IsAnswer :
        (host : Host) (seconds : ℤ) (bans : List Row) (tcp udp : List ℤ) (n : ℕ)
        (identity : NodeIdentityStore) (k : N)
        → IsAnswer host seconds bans n
            (table k)
            identity
            (answer_applied host commands seconds bans tcp udp (ok (active n)) identity k)
    unfolding answer_applied closed_and_noted terminate
    answer_applied-IsAnswer host seconds bans tcp udp n identity k =
        let ips = ban_ips host commands bans [] in
        let stays = terminate_cores-table host.list_cores ips 0 k in
        let (r, k') = terminate commands host ips k in
        elim (Result-cases r) [
          | inr (e, bad) ↦ rw (bad, closed_and_noted) (stays, inr (e, refl, refl))
          | inl (ended, good) ↦
              rw (good, closed_and_noted)
                (
                  drop_conntrack-table ips tcp udp k' ∙ stays,
                  inl (ended + (drop_conntrack commands ips tcp udp k').0, refl, refl),
                )
        ]

    -- The endpoint behind `apply`, from how that has ended.
    answer-Ends :
        (host : Host) (seconds : ℤ) (now : ℕ) (bans : List Row) (tcp udp : List ℤ)
        (identity : NodeIdentityStore) (k : N) (applied : Result Applied × N)
        → Ends commands table host now tcp udp bans k applied
        → let answer =
            answer_applied host commands seconds bans tcp udp (applied.0) identity (applied.1) in
          ((rows : List Row) × (wanted : Option String) × (active_bans host now bans ≡ ok rows)
            × IsFor commands table host now tcp udp rows wanted
            × IsAnswer host seconds bans (length rows) wanted identity answer)
          ⊎ ((e : Error) × (answer.0 ≡ err e)
              × (table answer.1.kernel ≡ table k)
              × (answer.1.identity ≡ identity))
    unfolding answer_applied
    answer-Ends host seconds now bans tcp udp identity k (_, _)
          (done rows wanted r k' read for e t) =
        inl (
          rows,
          wanted,
          read,
          for,
          rw (sym t, e)
              (answer_applied-IsAnswer host seconds bans tcp udp (length rows) identity k'),
        )
    answer-Ends host seconds now bans tcp udp identity k (_, _) (kept (err e) k' bad t) =
        inr (e, refl, t, refl)
    answer-Ends host seconds now bans tcp udp identity k (_, _) (kept (ok (refused m)) k' bad t) =
        inr (_, refl, t, refl)
    answer-Ends host seconds now bans tcp udp identity k (_, _) (kept (ok (active n)) k' bad t) =
        absurd (ground arith)

-- A push of bans sets the table as a whole or not at all. Either the table is that of the active
-- bans on the managed ports, and the answer gives their number and is in the audit log, or a driver
-- raised while it closed connections and nothing is in the log. Or the answer is an error, and the
-- table and the log are the old ones. This is for an nft that loads a text as a whole, and for
-- drivers and a conntrack that leave its table alone.
pub apply_ip_bans-table :
    {N : Type 0} (host : Host) (commands : Commands N) (table : N → Option String)
    → IsNft commands table
    → IsQuiet commands table
    → (seconds : ℤ) (now : ℕ) (bans : List Row) (s : Firewall N)
    → let answer = apply_ip_bans host commands seconds now bans s in
      ((tcp : List ℤ) × (udp : List ℤ) × (rows : List Row) × (wanted : Option String)
        × (managed_ports host ≡ ok (tcp, udp))
        × (active_bans host now bans ≡ ok rows)
        × IsFor commands table host now tcp udp rows wanted
        × IsAnswer commands table host seconds bans (length rows) wanted s.identity answer)
      ⊎ ((e : Error) × (answer.0 ≡ err e)
          × (table answer.1.kernel ≡ table s.kernel)
          × (answer.1.identity ≡ s.identity))
unfolding apply_ip_bans
apply_ip_bans-table host commands table nft quiet seconds now bans s =
    elim (Result-cases (managed_ports host)) [
      | inr (e, bad) ↦ rw (bad, apply_ip_bans) (inr (e, refl, refl, refl))
      | inl ((tcp, udp), there) ↦
          rw (there, apply_ip_bans)
            elim (answer-Ends commands table quiet host seconds now bans tcp udp s.identity s.kernel
              (apply commands host now bans tcp udp s.kernel)
              (apply-Ends commands table host now tcp udp nft bans s.kernel)) [
                | inl (rows, wanted, read, for, answer) ↦
                    inl (tcp, udp, rows, wanted, refl, read, for, answer)
                | inr settled ↦ inr settled
              ]
    ]
