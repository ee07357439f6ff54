-- ===== src/Examples/Bans.antt =====
-- A push of two bans of one address, one of which is over, on a host with one listener.
use rc_node.Base.{
  Error, if◌then◌else◌, Result, not, ◌<>◌, some, ◌⊎◌, err, ◌∷◌, refl, true, [], ◌≡◌, zero, ok,
  string_eq, nat_eq, length, Option, String, is_some, sym, ◌==◌, none, ℕ, suc, ap, List, type_error,
  false,
}
use rc_node.Base.Int.{ℤ, pos}
use rc_node.Base.Json.{Coercions, text}
use rc_node.Base.Dict.{lookup}
use rc_node.IpLimits.{
  Host, Row, Address, aware, managed_ports, active_bans, group_rows, group_row, ban_ip, expiry,
  parse_time, with_offset,
}
use rc_node.IpLimits.Nft.{Commands, Completed}
use rc_node.IpLimits.Table.{IsNft, IsFor}
use rc_node.IpLimits.Longest.{group_rows-longest, longest}
use rc_node.Examples.Data.{armed}
use rc_node.Base.Text
use Prim.Native.String.append
use rc_node.App.Bans.{Firewall, apply_ip_bans}
use rc_node.App.Bans.Settled.{IsQuiet, IsAnswer, apply_ip_bans-table}

abbrev py : Coercions
py = record { other_str = λ v. ""; other_dict = λ v. err type_error }

skip : ℕ → String → String
skip zero s = s
skip (suc n) String.[] = String.[]
skip (suc n) (String.◌∷◌ c s) = skip n s

skip-append : (prefix s : String) → skip (Text.length prefix) (prefix <> s) ≡ s
unfolding skip
skip-append String.[] s = rw (append.nil s) refl
skip-append (String.◌∷◌ c prefix) s = rw (append.cons c prefix s) (skip-append prefix s)

data Kind : Type 0 where
  listing deleting loading other : Kind

nft_command : List String → Kind
nft_command (first ∷ rest) =
    if first == "list"
    then listing
    else if first == "delete"
    then deleting
    else if first == "-f"
    then loading
    else other
nft_command [] = other

command : List String → Kind
unfolding nft_command
command [] = other
command (name ∷ rest) = if name == "nft" then nft_command rest else other

-- A kernel that holds the text of the table.
run_as : Kind → String → Option String → Completed × Option String
unfolding skip
run_as listing input k = (record { failed = not (is_some k); stderr = "No such file" }, k)
run_as deleting input k = (record { failed = false; stderr = "" }, none)
run_as loading input none = (record { failed = false; stderr = "" }, some input)
run_as loading input (some old) = (record { failed = false; stderr = "" }, some (skip 34 input))
run_as other input k = (record { failed = true; stderr = "" }, k)

abbrev commands : Commands (Option String)
commands = record {
  which = λ name. true;
  run = λ arguments input k. run_as (command arguments) input k;
  terminate_source_ip = λ core_id. some (λ ip k. (ok 2, k));
}

shown : (k : Option String) → not (not (is_some k)) ≡ is_some k
shown none = refl
shown (some old) = refl

nft : IsNft commands (λ k. k)
unfolding run_as command skip string_eq
nft = record {
  lists = λ k. (shown k, refl);
  deletes = λ old k h. refl;
  loads = λ loaded k h. rw h refl;
  reloads =
      λ loaded old k h. rw h (ap some (skip-append "delete table inet zagros_ip_limit\n" loaded));
}

quiet : IsQuiet commands (λ k. k)
unfolding run_as command string_eq
quiet = record {
  conntrack = λ arguments k. refl;
  drivers = λ core_id ip operation k h.
      ap
        (λ (o : Option (String → Option String → Result ℕ × Option String)). elim o [
          | none ↦ k
          | some op ↦ (op ip k).1
        ])
        (sym h);
}

read_ip : String → Option Address
read_ip s =
    if s == "10.0.0.7" then some (record { text = s; version = 4; is_loopback = false }) else none

abbrev host : Host
host = record {
  py = py;
  str_lower = λ s. s;
  ip_of = read_ip;
  fromisoformat = λ s. if s == "late+00:00" then some (aware 9000000) else some (aware 500000);
  list_cores = "xray" ∷ [];
  is_enabled = λ core_id. ok true;
  listener_claims = λ core_id.
      some (
        record { address = "0.0.0.0"; protocol = "vless"; transport = "tcp"; port = pos 443 } ∷ []);
}

abbrev bans : List Row
bans =
    (("ip", text "10.0.0.7") ∷ ("expires_at", text "soon") ∷ [])
    ∷ (("ip", text "10.0.0.7") ∷ ("expires_at", text "lateZ") ∷ [])
    ∷ []

grouped :
    group_rows host 1000000 bans (record { v4 = []; v6 = [] })
    ≡ ok (record { v4 = ("10.0.0.7", 8) ∷ []; v6 = [] })
unfolding group_rows group_row ban_ip expiry parse_time with_offset read_ip string_eq nat_eq
grouped = refl

group_rows-longest_example :
    (lookup {K = String} {V = ℕ} "10.0.0.7" (("10.0.0.7", 8) ∷ [])
      ≡ longest host 1000000 false "10.0.0.7" bans)
    × (lookup {K = String} {V = ℕ} "10.0.0.7" [] ≡ longest host 1000000 true "10.0.0.7" bans)
group_rows-longest_example =
    group_rows-longest host 1000000 bans (record { v4 = ("10.0.0.7", 8) ∷ []; v6 = [] }) "10.0.0.7"
      grouped

abbrev before : Firewall (Option String)
before = record { identity = armed; kernel = some "old" }

apply_ip_bans-table_example :
    let answer = apply_ip_bans host commands (pos 5) 1000000 bans before in
    ((tcp : List ℤ) × (udp : List ℤ) × (rows : List Row) × (wanted : Option String) × (managed_ports
          host
        ≡ ok (tcp, udp))
      × (active_bans host 1000000 bans ≡ ok rows)
      × IsFor commands (λ k. k) host 1000000 tcp udp rows wanted
      × IsAnswer commands (λ k. k) host (pos 5) bans (length rows) wanted before.identity answer)
    ⊎ ((e : Error) × (answer.0 ≡ err e)
        × (answer.1.kernel ≡ before.kernel)
        × (answer.1.identity ≡ before.identity))
apply_ip_bans-table_example =
    apply_ip_bans-table host commands (λ k. k) nft quiet (pos 5) 1000000 bans before
