-- ===== src/IpLimits/Longest.antt =====
-- The grouping of bans by address in node_agent/ip_limits.py against a plain maximum.
use rc_node.Base.{
  Result-cases, ℕ, String, ◌≡◌, refl, sym, ap, ◌∙◌, inl, inr, Bool, true, false, Option, none, some,
  List, [], ◌∷◌, arith, if◌then◌else◌, ◌==◌, Option-cases, string_eq, nat_eq, Result, ok, err,
}
use rc_node.Base.Dict.{Dict, lookup, lookup-insert}
use rc_node.IpLimits.{Host, Row, seconds_left, expiry, ban_ip, group_row, group_rows}
use rc_node.IpLimits.Ruleset.{Groups, larger, raised, filed}

-- The larger of two, where there are any.
abbrev pub joined : Option ℕ → Option ℕ → Option ℕ
joined none b = b
joined (some a) none = some a
joined (some a) (some b) = some (larger a b)

joined_assoc : (a b c : Option ℕ) → joined (joined a b) c ≡ joined a (joined b c)
joined_assoc none b c = refl
joined_assoc (some a) none c = refl
joined_assoc (some a) (some b) none = refl
joined_assoc (some a) (some b) (some c) = ground arith

joined-none : (a : Option ℕ) → joined a none ≡ a
joined-none none = refl
joined-none (some a) = refl

lookup-raised :
    (j ip : String) (seconds : ℕ) (d : Dict String ℕ)
    → lookup j (raised ip seconds d) ≡ joined (lookup j d) (if j == ip then some seconds else none)
lookup-raised j ip seconds d = elim (Option-cases (lookup ip d)) [
  | inl new ↦ ground (arith, new, lookup-insert j ip (larger 0 seconds) d)
  | inr (n, old) ↦ ground (arith, old, lookup-insert j ip (larger n seconds) d)
]

-- What an address asks, by its version and the one that is looked for.
abbrev asked_as : Bool → Bool → Bool → ℕ → Option ℕ
asked_as true true same seconds = if same then some seconds else none
asked_as false false same seconds = if same then some seconds else none
asked_as true false same seconds = none
asked_as false true same seconds = none

abbrev pub bucket : Bool → Groups → Dict String ℕ
bucket true g = g.v6
bucket false g = g.v4

lookup-filed :
    (is_v6 named : Bool) (ip ip' : String) (seconds : ℕ) (g : Groups)
    → lookup ip (bucket is_v6 (filed named ip' seconds g))
      ≡ joined (lookup ip (bucket is_v6 g)) (asked_as is_v6 named (ip == ip') seconds)
lookup-filed true true ip ip' seconds g = lookup-raised ip ip' seconds g.v6
lookup-filed true false ip ip' seconds g = sym (joined-none (lookup ip g.v6))
lookup-filed false true ip ip' seconds g = sym (joined-none (lookup ip g.v4))
lookup-filed false false ip ip' seconds g = lookup-raised ip ip' seconds g.v4

module _ (host : Host) (now : ℕ) where
  -- The seconds that a row asks for one address, as its version or as the other one.
  abbrev pub asked : Bool → String → Row → Option ℕ
  asked is_v6 ip row = elim (ban_ip host row) [
    | err e ↦ none
    | ok ip' ↦ elim (expiry host row) [
      | err e ↦ none
      | ok expires ↦ elim (host.ip_of ip') [
        | none ↦ none
        | some a ↦ asked_as is_v6 (a.version == 6) (ip == ip') (seconds_left host now expires)
      ]
    ]
  ]

  abbrev pub longest : Bool → String → List Row → Option ℕ
  longest is_v6 ip [] = none
  longest is_v6 ip (row ∷ rows) = joined (asked is_v6 ip row) (longest is_v6 ip rows)

  group_row-asked :
      (row : Row) (g g' : Groups) (is_v6 : Bool) (ip : String)
      → group_row host now row g ≡ ok g'
      → lookup ip (bucket is_v6 g') ≡ joined (lookup ip (bucket is_v6 g)) (asked is_v6 ip row)
  unfolding group_row
  group_row-asked row g g' is_v6 ip h = elim (Result-cases (ban_ip host row)) [
    | inr (e, bad) ↦ absurd (ground arith)
    | inl (ip', read) ↦ elim (Result-cases (expiry host row)) [
      | inr (e, bad) ↦ absurd (ground arith)
      | inl (expires, timed) ↦ elim (Option-cases (host.ip_of ip')) [
        | inl bad ↦ absurd (ground arith)
        | inr (a, parsed) ↦
            let made : group_row host now row g
                ≡ ok (filed (a.version == 6) ip' (seconds_left host now expires) g) =
              rw (read, timed, parsed, group_row) refl in
            let wanted : asked is_v6 ip row
                ≡ asked_as is_v6 (a.version == 6) (ip == ip') (seconds_left host now expires) =
              rw (read, timed, parsed, asked) refl in
            let same = ap (λ (r : Result Groups). elim r [ ok x ↦ x | err _ ↦ g ]) (sym made ∙ h) in
            rw (sym same, wanted)
              (lookup-filed is_v6 (a.version == 6) ip ip' (seconds_left host now expires) g)
      ]
    ]
  ]

  group_rows-onto :
      (rows : List Row) (g g' : Groups) (is_v6 : Bool) (ip : String)
      → group_rows host now rows g ≡ ok g'
      → lookup ip (bucket is_v6 g') ≡ joined (lookup ip (bucket is_v6 g)) (longest is_v6 ip rows)
  unfolding group_rows
  group_rows-onto [] g g' is_v6 ip h =
      let same = ap (λ (r : Result Groups). elim r [ ok x ↦ x | err _ ↦ g ]) h in
      rw (sym same) (sym (joined-none (lookup ip (bucket is_v6 g))))
  group_rows-onto (row ∷ rows) g g' is_v6 ip h = elim (Result-cases (group_row host now row g)) [
    | inr (e, bad) ↦ absurd (ground arith)
    | inl (g1, first) ↦
        let step : group_rows host now (row ∷ rows) g ≡ group_rows host now rows g1 =
          rw (first, group_rows) refl in
        group_rows-onto rows g1 g' is_v6 ip (sym step ∙ h)
        ∙ ap (λ (o : Option ℕ). joined o (longest is_v6 ip rows))
            (group_row-asked row g g1 is_v6 ip first)
        ∙ joined_assoc (lookup ip (bucket is_v6 g)) (asked is_v6 ip row) (longest is_v6 ip rows)
  ]

-- Each address is banned for the longest time that an active row asks for it. When the loop over the
-- rows ends without an exception, the seconds of an address in the set of its version are the
-- maximum over the rows for it, and an address that no row names is in no set.
pub group_rows-longest :
    (host : Host) (now : ℕ) (rows : List Row) (groups : Groups) (ip : String)
    → group_rows host now rows (record { v4 = []; v6 = [] }) ≡ ok groups
    → (lookup ip groups.v4 ≡ longest host now false ip rows)
      × (lookup ip groups.v6 ≡ longest host now true ip rows)
group_rows-longest host now rows groups ip h = (
  group_rows-onto host now rows (record { v4 = []; v6 = [] }) groups false ip h,
  group_rows-onto host now rows (record { v4 = []; v6 = [] }) groups true ip h,
)
