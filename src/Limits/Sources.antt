-- ===== src/Limits/Sources.antt =====
-- Whose addresses a user's limit catches.
use rc_node.Base.Json.{get_json, Items, int_json, Json, elements, str_json}
use rc_node.Base.{
  All-map, String, ◌≡◌, refl, sym, ap, ◌⊎◌, inl, inr, Option, none, some, List, [], ◌∷◌, arith,
  Bool-cases, Option-cases, string_eq, nat_eq, All, ok, Result-cases, contains, All-append,
}
use rc_node.Base.Int.{ℤ, int_eq}
use rc_node.Limits.{desired, NodeBandwidthLimiter}
use rc_node.Limits.Users.{
  limit_of, desired_onto, specs, accounts_of, Desired, int_or_zero, new_limit, Host, Identity,
  UserLimit, identities, add, add_sources, add_uids, add_accounts, add_core, add_cores,
  with_softether,
}
use rc_node.Base.Dict.{insert, Dict, lookup}
use rc_node.Base.Text.{int}
use rc_node.Base.Json.Json.{array}

abbrev pub In : {A : Type 0} → A → List A → Type 0
In x [] = ⊥
In x (y ∷ ys) = (x ≡ y) ⊎ In x ys

add-All {κ} :
    (P : String → Type κ) (x : String) (xs : List String) → P x → All P xs → All P (add x xs)
add-All P x xs p h = elim (Bool-cases (contains xs x)) [
  | inl old ↦ rw old h
  | inr new ↦ rw new (All-append P xs (x ∷ []) h (p, tt))
]

module _ (host : Host) where
  -- The address is that of a source of an account that the spec lists under a core.
  pub record IsSource (spec : Dict String Json) (ip : String) : Type 0 where
    pub accounts : Dict String Json
    pub core_id : String
    pub items : Items
    pub account : Json
    pub identity : Identity
    pub source : String
    pub accounts_read : accounts_of host spec ≡ ok accounts
    pub core_listed : In (core_id, array items) accounts
    pub account_listed : In account (elements items)
    pub identified : lookup (str_json host.py account) (identities host core_id) ≡ some identity
    pub source_listed : In source identity.inner_sources
    pub address : host.ip_of source ≡ some ip

  add_uids-sources :
      (uids : List Json) (limit : UserLimit)
      → (add_uids host uids limit).inner_sources ≡ limit.inner_sources
  unfolding add_uids
  add_uids-sources [] limit = refl
  add_uids-sources (uid ∷ uids) limit = elim (Option-cases (int_json uid)) [
    | inl skipped ↦ rw (skipped, add_uids) (add_uids-sources uids limit)
    | inr (n, e) ↦
        rw (e, add_uids) (add_uids-sources uids (record limit { ssh_uids = add n limit.ssh_uids }))
  ]

  with_softether-sources :
      (core_id : String) (items : List Json) (limit : UserLimit)
      → (with_softether host core_id items limit).inner_sources ≡ limit.inner_sources
  unfolding with_softether
  with_softether-sources core_id items limit = ground arith

  module _ (P : String → Type 0) where
    abbrev Caught : UserLimit → Type 0
    Caught l = All P l.inner_sources

    add_source-Caught :
        (source : String) (o : Option String) (limit : UserLimit)
        → ((ip : String) → o ≡ some ip → P ip)
        → Caught limit
        → Caught (elim o [
          | none ↦ limit
          | some ip ↦ record limit { inner_sources = add ip limit.inner_sources }
        ])
    add_source-Caught source none limit p h = h
    add_source-Caught source (some ip) limit p h = add-All P ip limit.inner_sources (p ip refl) h

    add_sources-Caught :
        (sources : List String) (limit : UserLimit)
        → ((source ip : String) → In source sources → host.ip_of source ≡ some ip → P ip)
        → Caught limit
        → Caught (add_sources host sources limit)
    unfolding add_sources
    add_sources-Caught [] limit p h = h
    add_sources-Caught (source ∷ sources) limit p h =
        add_sources-Caught sources _ (λ s ip i. p s ip (inr i))
          (add_source-Caught source (host.ip_of source) limit (λ ip. p source ip (inl refl)) h)

    add_accounts-Caught :
        (ids : Dict String Identity) (items : List Json) (limit : UserLimit)
        → ((account : Json) (identity : Identity) (source ip : String)
            → In account items
            → lookup (str_json host.py account) ids ≡ some identity
            → In source identity.inner_sources
            → host.ip_of source ≡ some ip
            → P ip)
        → Caught limit
        → Caught (add_accounts host ids items limit)
    unfolding add_accounts
    add_accounts-Caught ids [] limit p h = h
    add_accounts-Caught ids (account ∷ items) limit p h =
        elim (Option-cases (lookup (str_json host.py account) ids)) [
          | inl e ↦
              rw (e, add_accounts)
                (add_accounts-Caught ids items limit (λ a i s ip m. p a i s ip (inr m)) h)
          | inr (identity, e) ↦
              rw (e, add_accounts)
                (add_accounts-Caught ids items _ (λ a i s ip m. p a i s ip (inr m))
                  (rw
                    (add_uids-sources identity.uids (add_sources host identity.inner_sources limit))
                    (add_sources-Caught identity.inner_sources limit
                      (λ s ip m. p account identity s ip (inl refl) e m) h)))
        ]

    add_core-Caught :
        (core_id : String) (value : Json) (limit : UserLimit)
        → ((items : Items) (account : Json) (identity : Identity) (source ip : String)
            → value ≡ array items
            → In account (elements items)
            → lookup (str_json host.py account) (identities host core_id) ≡ some identity
            → In source identity.inner_sources
            → host.ip_of source ≡ some ip
            → P ip)
        → Caught limit
        → Caught (add_core host core_id value limit)
    unfolding add_core
    add_core-Caught core_id (array items) limit p h =
        add_accounts-Caught (identities host core_id) (elements items) _
          (λ a i s ip. p items a i s ip refl)
          (rw (with_softether-sources core_id (elements items) limit) h)
    add_core-Caught core_id Json.null limit p h = h
    add_core-Caught core_id (Json.boolean b) limit p h = h
    add_core-Caught core_id (Json.number n) limit p h = h
    add_core-Caught core_id (Json.text s) limit p h = h
    add_core-Caught core_id (Json.object o) limit p h = h

    add_cores-Caught :
        (accounts : Dict String Json) (limit : UserLimit)
        → ((core_id : String) (items : Items) (account : Json) (identity : Identity)
              (source ip : String)
            → In (core_id, array items) accounts
            → In account (elements items)
            → lookup (str_json host.py account) (identities host core_id) ≡ some identity
            → In source identity.inner_sources
            → host.ip_of source ≡ some ip
            → P ip)
        → Caught limit
        → Caught (add_cores host accounts limit)
    unfolding add_cores
    add_cores-Caught [] limit p h = h
    add_cores-Caught ((core_id, value) ∷ accounts) limit p h =
        add_cores-Caught accounts _ (λ c items a i s ip m. p c items a i s ip (inr m))
          (add_core-Caught core_id value limit
            (λ items a i s ip e.
              p core_id items a i s ip (inl (ap (λ (v : Json). (core_id, v)) (sym e))))
            h)

  limit_of-accounts :
      (raw_id : String) (user_id : ℤ) (spec : Dict String Json) (limit : UserLimit)
      → limit_of host raw_id user_id spec ≡ ok limit
      → (accounts : Dict String Json) × (accounts_of host spec ≡ ok accounts)
        × ((up : ℤ) × (down : ℤ) × (limit
              ≡ add_cores host accounts (new_limit host raw_id user_id up down spec)))
  unfolding limit_of
  limit_of-accounts raw_id user_id spec limit h =
      elim (Result-cases (int_or_zero (get_json "upload_mbps" spec))) [
        | inr (e, bad) ↦ absurd (ground arith)
        | inl (up, p) ↦ elim (Result-cases (int_or_zero (get_json "download_mbps" spec))) [
          | inr (e, bad) ↦ absurd (ground arith)
          | inl (down, q) ↦ elim (Result-cases (accounts_of host spec)) [
            | inr (e, bad) ↦ absurd (ground arith)
            | inl (accounts, r) ↦ (accounts, r, (up, down, ground arith))
          ]
        ]
      ]

  limit_of-IsSource :
      (raw_id : String) (user_id : ℤ) (spec : Dict String Json) (limit : UserLimit)
      → limit_of host raw_id user_id spec ≡ ok limit
      → All (IsSource spec) limit.inner_sources
  unfolding new_limit
  limit_of-IsSource raw_id user_id spec limit h =
      let (accounts, r, (up, down, e)) = limit_of-accounts raw_id user_id spec limit h in
      rw e (
        add_cores-Caught (IsSource spec) accounts (new_limit host raw_id user_id up down spec)
          (λ c items a i s ip core_in account_in found source_in address. record {
            accounts = accounts;
            core_id = c;
            items = items;
            account = a;
            identity = i;
            source = s;
            accounts_read = r;
            core_listed = core_in;
            account_listed = account_in;
            identified = found;
            source_listed = source_in;
            address = address;
          })
          tt)

  module _ (Q : ℤ × UserLimit → Type 0) where
    insert-All : (k : ℤ) (l : UserLimit) (d : Desired) → Q (k, l) → All Q d → All Q (insert k l d)
    insert-All k l [] q h = (q, tt)
    insert-All k l ((j, m) ∷ d) q (p, h) = elim (int_eq.dec k j) [
      | yes same ↦ ground arith
      | no differ ↦ let rest = insert-All k l d q h in ground arith
    ]

    desired_onto-All :
        (d d' : Desired) (limits : Dict String (Dict String Json))
        → ((raw_id : String) (user_id : ℤ) (spec : Dict String Json) (l : UserLimit)
            → In (raw_id, spec) limits
            → int raw_id ≡ some user_id
            → limit_of host raw_id user_id spec ≡ ok l
            → Q (user_id, l))
        → All Q d
        → desired_onto host d limits ≡ ok d'
        → All Q d'
    unfolding desired_onto
    desired_onto-All d d' [] q h e = let same : d ≡ d' = ground arith in rw (sym same) h
    desired_onto-All d d' ((raw_id, spec) ∷ limits) q h e = elim (Option-cases (int raw_id)) [
      | inl skipped ↦ desired_onto-All d d' limits (λ r u s l m. q r u s l (inr m)) h (ground arith)
      | inr (user_id, p) ↦ elim (Result-cases (limit_of host raw_id user_id spec)) [
        | inr (x, bad) ↦ absurd (ground arith)
        | inl (l, made) ↦
            desired_onto-All (insert user_id l d) d' limits (λ r u s l m. q r u s l (inr m))
              (insert-All user_id l d (q raw_id user_id spec l (inl refl) p made) h) (ground arith)
      ]
    ]

  -- The address stems from a pushed spec of that very user.
  abbrev pub IsOwn : Dict String Json → ℤ → String → Type 0
  IsOwn limits user_id ip =
      (raw_id : String) × (spec : Dict String Json) × In (raw_id, spec) (specs limits)
      × (int raw_id ≡ some user_id)
      × IsSource spec ip

  -- No user is shaped by the traffic of another: every address that the desired state catches for a
  -- user id is the address of a source that a driver of this host reports for an account which a
  -- pushed spec of that user id lists under that core.
  pub desired-IsOwn :
      (s : NodeBandwidthLimiter) (d : Desired)
      → desired host s ≡ ok d
      → All (λ (e : ℤ × UserLimit). All (IsOwn s.limits e.0) e.1.inner_sources) d
  unfolding desired
  desired-IsOwn s d e =
      desired_onto-All (λ (e : ℤ × UserLimit). All (IsOwn s.limits e.0) e.1.inner_sources) [] d
        (specs s.limits)
        (λ raw_id user_id spec l m p made.
          All-map (IsSource spec) (IsOwn s.limits user_id) l.inner_sources
            (λ ip i. (raw_id, spec, m, p, i)) (limit_of-IsSource raw_id user_id spec l made))
        tt e
