-- ===== src/App/Accounts/Replay.antt =====
-- What the drivers hold after a start of the agent, against what they held before it.
use rc_node.Base.{
  String, ◌≡◌, refl, sym, ◌∙◌, ◌≢◌, ◌⊎◌, inl, inr, true, some, List, [], ◌∷◌, arith, if◌then◌else◌,
  Option-cases, string_eq, nat_eq, All, ok, Result-cases, contains,
}
use rc_node.Base.Dict.{Dict, lookup, keys}
use rc_node.Base.Json.{Coercions}
use rc_node.Accounts.{Account, AccountsStore, stem, load, all, load_all}
use rc_node.App.Accounts.{
  Drivers, to_user_account, to_user_accounts, restorable, restore_core, restore_cores,
  restore_accounts,
}
use rc_node.App.Accounts.Snapshots.{IsAccount, IsRestorable}

lookup-contains {ℓ} :
    {V : Type ℓ} (k : String) (d : Dict String V) (v : V)
    → lookup k d ≡ some v
    → contains (keys d) k ≡ true
lookup-contains k [] v h = absurd (ground arith)
lookup-contains k ((j, w) ∷ d) v h = ground (arith, lookup-contains k d v)

module _ {D A : Type 0} (py : Coercions) (drivers : Drivers D A) (held : D → String → List A) where
  -- `sync_accounts` of a driver: when it returns, the core holds the accounts that it got and no
  -- others, as the drivers that replace their table do; the other cores keep theirs.
  pub record Converges : Type 0 where
    pub synced_held :
        (core_id : String) (accounts : List A) (d : D)
        → (drivers.sync_accounts core_id accounts d).0 ≡ ok tt
        → held (drivers.sync_accounts core_id accounts d).1 core_id ≡ accounts
    pub others_held :
        (core_id other : String) (accounts : List A) (d : D)
        → other ≢ core_id
        → held (drivers.sync_accounts core_id accounts d).1 other ≡ held d other

  to_user_accounts-ok :
      (raws : List Account)
      → All (IsAccount py drivers) raws
      → (accounts : List A) × (to_user_accounts py drivers raws ≡ ok accounts)
  unfolding to_user_accounts
  to_user_accounts-ok [] h = ([], refl)
  to_user_accounts-ok (raw ∷ raws) ((a, p), h) =
      let (rest, q) = to_user_accounts-ok raws h in (a ∷ rest, rw (p, q, to_user_accounts) refl)

  restorable-ok :
      (raws : List Account) (accounts : List A)
      → to_user_accounts py drivers raws ≡ ok accounts
      → restorable py drivers raws ≡ ok accounts
  unfolding to_user_accounts restorable
  restorable-ok [] accounts h = h
  restorable-ok (raw ∷ raws) accounts h = elim (Result-cases (to_user_account py drivers raw)) [
    | inr (e, bad) ↦ absurd (ground arith)
    | inl (a, p) ↦ elim (Result-cases (to_user_accounts py drivers raws)) [
      | inr (e, bad) ↦ absurd (ground arith)
      | inl (rest, q) ↦ let r = restorable-ok raws rest q in ground arith
    ]
  ]

  -- What is replayed for a core: nothing, or its accounts.
  replay : String → List A → D → D
  replay core_id [] d = d
  replay core_id (account ∷ accounts) d =
      if contains drivers.list_cores core_id
      then (drivers.sync_accounts core_id (account ∷ accounts) d).1
      else d

  restore_core-replay :
      (core_id : String) (raws : List Account) (accounts : List A) (d : D)
      → to_user_accounts py drivers raws ≡ ok accounts
      → restore_core py drivers core_id raws d ≡ (ok tt, replay core_id accounts d)
  unfolding restore_core to_user_accounts replay
  restore_core-replay core_id [] [] d h = refl
  restore_core-replay core_id [] (a ∷ accounts) d h = absurd (ground arith)
  restore_core-replay core_id (raw ∷ raws) [] d h =
      let r = restorable-ok (raw ∷ raws) [] h in ground arith
  restore_core-replay core_id (raw ∷ raws) (a ∷ accounts) d h =
      let r = restorable-ok (raw ∷ raws) (a ∷ accounts) h in ground arith

  replay-other :
      (core_id other : String) (accounts : List A) (d : D)
      → Converges
      → other ≢ core_id
      → held (replay core_id accounts d) other ≡ held d other
  unfolding replay
  replay-other core_id other [] d c differ = refl
  replay-other core_id other (a ∷ accounts) d c differ =
      let kept = c.others_held core_id other (a ∷ accounts) d differ in ground arith

  replay-held :
      (core_id : String) (accounts : List A) (d : D)
      → Converges
      → contains drivers.list_cores core_id ≡ true
      → (drivers.sync_accounts core_id accounts d).0 ≡ ok tt
      → (held d core_id ≡ accounts) ⊎ (accounts ≢ [])
      → held (replay core_id accounts d) core_id ≡ accounts
  unfolding replay
  replay-held core_id [] d c listed works (inl same) = same
  replay-held core_id [] d c listed works (inr some') = absurd (some' refl)
  replay-held core_id (a ∷ accounts) d c listed works h =
      rw listed (c.synced_held core_id (a ∷ accounts) d works)

  restore_cores-next :
      (name : String) (raws : List Account) (snapshots : Dict String (List Account)) (d d' : D)
      → restore_core py drivers name raws d ≡ (ok tt, d')
      → restore_cores py drivers ((name, raws) ∷ snapshots) d
        ≡ restore_cores py drivers snapshots d'
  unfolding restore_cores
  restore_cores-next name raws snapshots d d' e = ground arith

  module _ (s : AccountsStore) (core_id : String) (kept : List A) where
    -- The loop over the snapshots, once the core holds its accounts or comes later.
    restore_cores-held :
        (names : List String) (d : D)
        → Converges
        → IsRestorable py drivers s
        → to_user_accounts py drivers (load core_id s) ≡ ok kept
        → contains drivers.list_cores core_id ≡ true
        → ((d : D) → (drivers.sync_accounts core_id kept d).0 ≡ ok tt)
        → (held d core_id ≡ kept) ⊎ ((contains names core_id ≡ true) × (kept ≢ []))
        → let r = restore_cores py drivers (load_all names s) d in
          (r.0 ≡ ok tt) × (held r.1 core_id ≡ kept)
    unfolding restore_cores load_all
    restore_cores-held [] d c h read listed works (inl same) = (refl, same)
    restore_cores-held [] d c h read listed works (inr later) = absurd (ground arith)
    restore_cores-held (name ∷ names) d c h read listed works before =
        elim (string_eq.dec core_id name) [
          | yes same ↦
              let read' : to_user_accounts py drivers (load name s) ≡ ok kept =
                rw (sym same) read in
              let e =
                restore_cores-next name (load name s) (load_all names s) d (replay name kept d)
                  (restore_core-replay name (load name s) kept d read') in
              let now =
                replay-held core_id kept d c listed (works d)
                  (elim before [ inl k ↦ inl k | inr (m, ne) ↦ inr ne ]) in
              let rest =
                restore_cores-held names (replay name kept d) c h read listed works
                  (inl (rw (sym same) now)) in
              rw e rest
          | no differ ↦
              let (accounts, read') = to_user_accounts-ok (load name s) (h name) in
              let e =
                restore_cores-next name (load name s) (load_all names s) d (replay name accounts d)
                  (restore_core-replay name (load name s) accounts d read') in
              let other = replay-other name core_id accounts d c differ in
              let rest =
                restore_cores-held names (replay name accounts d) c h read listed works
                  (elim before [
                    | inl k ↦ inl (other ∙ k)
                    | inr (m, ne) ↦ inr (ground arith, ne)
                  ]) in
              rw e rest
        ]

  nil-or_not : (accounts : List A) → (accounts ≡ []) ⊎ (accounts ≢ [])
  nil-or_not [] = inl refl
  nil-or_not (a ∷ accounts) = inr (λ e. absurd (ground arith))

  to_user_accounts-nil :
      (raws : List Account) (accounts : List A)
      → raws ≡ []
      → to_user_accounts py drivers raws ≡ ok accounts
      → accounts ≡ []
  unfolding to_user_accounts
  to_user_accounts-nil [] accounts e h = ground arith
  to_user_accounts-nil (raw ∷ raws) accounts e h = absurd (ground arith)

  -- A core without a file has no accounts to replay.
  load-listed :
      (core_id : String) (s : AccountsStore)
      → (load core_id s ≡ []) ⊎ (contains (keys s.files) (stem core_id) ≡ true)
  unfolding load
  load-listed core_id s = elim (Option-cases (lookup (stem core_id) s.files)) [
    | inl missing ↦ inl (ground arith)
    | inr (file, found) ↦ inr (lookup-contains (stem core_id) s.files file found)
  ]

  -- A start replays the snapshot of a core: the drivers of a new process, which hold nothing for
  -- it, hold the accounts of its snapshot then, and no exception leaves the loop.
  pub restore_accounts-held :
      (sorted : List String → List String) (s : AccountsStore) (core_id : String) (kept : List A)
      (d : D)
      → Converges
      → ((names : List String) (x : String) → contains (sorted names) x ≡ contains names x)
      → IsRestorable py drivers s
      → stem core_id ≡ core_id
      → to_user_accounts py drivers (load core_id s) ≡ ok kept
      → contains drivers.list_cores core_id ≡ true
      → ((d' : D) → (drivers.sync_accounts core_id kept d').0 ≡ ok tt)
      → held d core_id ≡ []
      → let r = restore_accounts py drivers sorted s d in (r.0 ≡ ok tt) × (held r.1 core_id ≡ kept)
  unfolding restore_accounts all
  restore_accounts-held sorted s core_id kept d c sorts h safe read listed works fresh =
      restore_cores-held s core_id kept (sorted (keys s.files)) d c h read listed works
        (elim (nil-or_not kept) [
          | inl e ↦ inl (fresh ∙ sym e)
          | inr more ↦ elim (load-listed core_id s) [
            | inl e ↦ absurd (more (to_user_accounts-nil (load core_id s) kept e read))
            | inr m ↦ inr (sorts (keys s.files) core_id ∙ (rw safe at m), more)
          ]
        ])
