-- ===== src/App/Accounts/Snapshots.antt =====
-- Which snapshots of node_agent/accounts_store.py a start of the agent can replay.
use rc_node.Base.{
  ℕ, String, ◌≡◌, refl, ap, ◌⊎◌, inl, inr, Bool, true, false, List, [], ◌∷◌, ◌++◌, map, arith,
  Bool-cases, string_eq, nat_eq, All, Result, ok, err, Error, Result-cases, contains,
}
use rc_node.Accounts.{
  load, store, stem, Account, AccountsStore, dicts, merge, known_onto, sort_by, insert_by, keyless,
  rank_in, order_onto, account_key,
}
use rc_node.Base.Int.{ℤ}
use rc_node.App.Settings.{Host, authorize_core}
use rc_node.App.Accounts.{
  Node, core_accounts, synced, Drivers, AccountsPayload, to_user_account, to_user_accounts,
}
use rc_node.Accounts.Snapshots.{load-written, load-store}
use rc_node.Base.Text.{is_nonempty}
use rc_node.Base.Dict.{Dict, insert, values}
use rc_node.Base.Json.{Json, Coercions, of_entries, entries-of_entries}

module _ (P : Account → Type 0) where
  insert-values-All :
      (k : String) (x : Account) (d : Dict String Account)
      → P x
      → All P (values d)
      → All P (values (insert k x d))
  insert-values-All k x [] p h = (p, tt)
  insert-values-All k x ((j, y) ∷ d) p (q, h) =
      let rest = insert-values-All k x d p h in
      elim (string_eq.dec k j) [ yes same ↦ ground arith | no differ ↦ ground arith ]

  module _ (py : Coercions) where
    known_onto-All :
        (d : Dict String Account) (items : List Account)
        → All P (values d)
        → All P items
        → All P (values (known_onto py d items))
    unfolding known_onto
    known_onto-All d [] h k = h
    known_onto-All d (x ∷ xs) h (p, k) = elim (Bool-cases (is_nonempty (account_key py x))) [
      | inl full ↦ rw full (
          known_onto-All (insert (account_key py x) x d) xs
            (insert-values-All (account_key py x) x d p h) k)
      | inr empty ↦ rw empty (known_onto-All d xs h k)
    ]

    insert_by-All :
        (rank : Account → ℕ) (x : Account) (xs : List Account)
        → P x
        → All P xs
        → All P (insert_by rank x xs)
    insert_by-All rank x [] p h = (p, tt)
    insert_by-All rank x (y ∷ ys) p (q, h) = let rest = insert_by-All rank x ys p h in ground arith

    sort_by-All : (rank : Account → ℕ) (xs : List Account) → All P xs → All P (sort_by rank xs)
    sort_by-All rank [] h = tt
    sort_by-All rank (x ∷ xs) (p, h) =
        insert_by-All rank x (sort_by rank xs) p (sort_by-All rank xs h)

    pub merge-All :
        (stored incoming : List Account)
        → All P stored
        → All P incoming
        → All P (merge py stored incoming)
    unfolding merge
    merge-All stored incoming h k =
        sort_by-All (rank_in py (order_onto py [] 0 (stored ++ keyless py incoming)))
          (values (known_onto py (known_onto py [] stored) incoming))
          (known_onto-All (known_onto py [] stored) incoming (known_onto-All [] stored tt h) k)

pub dicts-map :
    (accounts : List Account)
    → dicts (map (λ (a : Account). Json.object (of_entries a)) accounts) ≡ accounts
unfolding dicts
dicts-map [] = refl
dicts-map (a ∷ accounts) = rw (entries-of_entries a) (ap (◌∷◌ a) (dicts-map accounts))

module _ {D A : Type 0} (py : Coercions) (drivers : Drivers D A) where
  -- The agent accepts the account.
  abbrev pub IsAccount : Account → Type 0
  IsAccount raw = (a : A) × (to_user_account py drivers raw ≡ ok a)

  -- Every snapshot holds accounts that the agent accepts.
  abbrev pub IsRestorable : AccountsStore → Type 0
  IsRestorable s = (core_id : String) → All IsAccount (load core_id s)

  to_user_accounts-All :
      (raws : List Account) (accounts : List A)
      → to_user_accounts py drivers raws ≡ ok accounts
      → All IsAccount raws
  unfolding to_user_accounts
  to_user_accounts-All [] accounts h = tt
  to_user_accounts-All (raw ∷ raws) accounts h =
      elim (Result-cases (to_user_account py drivers raw)) [
        | inr (e, bad) ↦ absurd (ground arith)
        | inl (a, p) ↦ elim (Result-cases (to_user_accounts py drivers raws)) [
          | inr (e, bad) ↦ absurd (ground arith)
          | inl (rest, q) ↦ ((a, p), to_user_accounts-All raws rest q)
        ]
      ]

  stored-All :
      (writable : Bool) (core_id : String) (body : AccountsPayload) (s : AccountsStore)
      → IsRestorable s
      → All IsAccount body.accounts
      → All IsAccount
          (store py writable core_id
            (map (λ (a : Account). Json.object (of_entries a)) body.accounts)
            body.replace
            s).0
  unfolding store
  stored-All writable core_id body s h k = elim (Bool-cases body.replace) [
    | inl whole ↦ rw (whole, dicts-map body.accounts) k
    | inr part ↦
        rw (part, dicts-map body.accounts)
          (merge-All IsAccount py (load core_id s) body.accounts (h core_id) k)
  ]

  load-same_stem :
      (other core_id : String) (s : AccountsStore)
      → stem other ≡ stem core_id
      → load other s ≡ load core_id s
  unfolding load
  load-same_stem other core_id s e = ground arith

  store-IsRestorable :
      (writable : Bool) (core_id : String) (body : AccountsPayload) (s : AccountsStore)
      → IsRestorable s
      → All IsAccount body.accounts
      → IsRestorable
          (store py writable core_id
            (map (λ (a : Account). Json.object (of_entries a)) body.accounts)
            body.replace
            s).1
  unfolding store
  store-IsRestorable false core_id body s h k other = h other
  store-IsRestorable true core_id body s h k other =
      let raws = map (λ (a : Account). Json.object (of_entries a)) body.accounts in
      let kept = stored-All true core_id body s h k in
      elim (string_eq.dec (stem other) (stem core_id)) [
        | yes same ↦
            rw (load-same_stem other core_id (store py true core_id raws body.replace s).1 same)
              (rw (load-written py core_id raws body.replace s) kept)
        | no differ ↦
            let (_, unchanged, _) = load-store py core_id other raws body.replace s differ in
            rw unchanged (h other)
      ]

  -- A failure of the driver leaves the snapshots as they are.
  synced-err :
      (now : ℤ) (writable : Bool) (core_id : String) (body : AccountsPayload) (e : Error)
      (s : Node D)
      → (synced py drivers now writable core_id body (err e) s).1.accounts ≡ s.accounts
  unfolding synced
  synced-err now writable core_id body (Error.security_error m) s = refl
  synced-err now writable core_id body (Error.job_conflict_error m) s = refl
  synced-err now writable core_id body (Error.http_exception n m) s = refl
  synced-err now writable core_id body (Error.value_error m) s = refl
  synced-err now writable core_id body (Error.type_error) s = refl
  synced-err now writable core_id body (Error.key_error) s = refl
  synced-err now writable core_id body (Error.os_error) s = refl
  synced-err now writable core_id body (Error.timeout_error) s = refl
  synced-err now writable core_id body (Error.not_implemented_error) s = refl
  synced-err now writable core_id body (Error.other_error m) s = refl

  synced-IsRestorable :
      (now : ℤ) (writable : Bool) (core_id : String) (body : AccountsPayload)
      (outcome : Result (Unit {0})) (s : Node D)
      → IsRestorable s.accounts
      → All IsAccount body.accounts
      → IsRestorable (synced py drivers now writable core_id body outcome s).1.accounts
  unfolding synced
  synced-IsRestorable now writable core_id body (ok u) s h k =
      store-IsRestorable writable core_id body s.accounts h k
  synced-IsRestorable now writable core_id body (err e) s h k =
      rw (synced-err now writable core_id body e s) h

  module _ (str_lower : String → String) (host : Host) where
    -- The endpoint behind its refusals.
    pub core_accounts-synced :
        (now : ℤ) (writable : Bool) (core_id : String) (body : AccountsPayload) (s : Node D)
        (accounts : List A)
        → authorize_core str_lower host core_id [] ≡ ok tt
        → contains drivers.list_cores core_id ≡ true
        → to_user_accounts py drivers body.accounts ≡ ok accounts
        → core_accounts py drivers str_lower host now writable core_id body s
          ≡ synced py drivers now writable core_id body
              (drivers.sync_accounts core_id accounts s.drivers).0
              (record s { drivers = (drivers.sync_accounts core_id accounts s.drivers).1 })
    unfolding core_accounts
    core_accounts-synced now writable core_id body s accounts authorized listed read =
        rw (authorized, listed, read, core_accounts) refl

    core_accounts-cases :
        (now : ℤ) (writable : Bool) (core_id : String) (body : AccountsPayload) (s : Node D)
        → let r = core_accounts py drivers str_lower host now writable core_id body s in
          (r.1 ≡ s)
          ⊎ ((accounts : List A) × (to_user_accounts py drivers body.accounts ≡ ok accounts)
              × (r
                  ≡ synced py drivers now writable core_id body
                      (drivers.sync_accounts core_id accounts s.drivers).0
                      (record s {
                        drivers = (drivers.sync_accounts core_id accounts s.drivers).1;
                      })))
    unfolding core_accounts
    core_accounts-cases now writable core_id body s =
        elim (Result-cases (authorize_core str_lower host core_id [])) [
          | inr (e, refused) ↦ inl (ground arith)
          | inl (u, authorized) ↦ elim (Bool-cases (contains drivers.list_cores core_id)) [
            | inr missing ↦ inl (ground arith)
            | inl listed ↦ elim (Result-cases (to_user_accounts py drivers body.accounts)) [
              | inr (e, refused) ↦ inl (ground arith)
              | inl (accounts, read) ↦ inr (
                accounts,
                read,
                core_accounts-synced now writable core_id body s accounts authorized listed read,
              )
            ]
          ]
        ]

    -- A snapshot never holds an account that a start of the agent could not replay: whatever is
    -- pushed and whatever the driver and the file system do with it, snapshots that hold only
    -- accepted accounts still do after `core_accounts`.
    pub core_accounts-IsRestorable :
        (now : ℤ) (writable : Bool) (core_id : String) (body : AccountsPayload) (s : Node D)
        → IsRestorable s.accounts
        → IsRestorable
            (core_accounts py drivers str_lower host now writable core_id body s).1.accounts
    core_accounts-IsRestorable now writable core_id body s h =
        elim (core_accounts-cases now writable core_id body s) [
          | inl same ↦ rw (ap (λ (n : Node D). n.accounts) same) h
          | inr (accounts, read, e) ↦ rw (ap (λ (r : Result ℕ × Node D). r.1.accounts) e) (
              synced-IsRestorable now writable core_id body
                (drivers.sync_accounts core_id accounts s.drivers).0
                (record s { drivers = (drivers.sync_accounts core_id accounts s.drivers).1 }) h
                (to_user_accounts-All body.accounts accounts read))
        ]
