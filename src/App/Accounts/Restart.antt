-- ===== src/App/Accounts/Restart.antt =====
-- What a push of accounts leaves at the driver, against what the next start gives it.
use rc_node.Base.{
  ℕ, String, ◌≡◌, refl, ap, ◌∙◌, inl, inr, Bool, true, false, List, [], ◌∷◌, map, arith, Bool-cases,
  string_eq, nat_eq, length, All, Result, ok, contains,
}
use rc_node.App.Accounts.{
  restore_accounts, core_accounts, Drivers, Node, AccountsPayload, to_user_accounts, synced,
}
use rc_node.Accounts.{merge, load, Account, AccountsStore, stem, store}
use rc_node.App.Accounts.Snapshots.{
  IsRestorable, core_accounts-IsRestorable, core_accounts-synced, dicts-map,
}
use rc_node.App.Accounts.Replay.{Converges, restore_accounts-held}
use rc_node.Base.Int.{ℤ}
use rc_node.Base.Json.{Json, Coercions, of_entries}
use rc_node.Accounts.Snapshots.{load-written}
use rc_node.App.Settings.{Host, authorize_core, node_core_allowlist}

contains-All {κ} :
    (P : String → Type κ) (x : String) (xs : List String) → All P xs → contains xs x ≡ true → P x
contains-All P x [] h m = absurd (ground arith)
contains-All P x (y ∷ ys) (p, h) m = elim (string_eq.dec x y) [
  | yes same ↦ rw same p
  | no differ ↦ contains-All P x ys h (ground arith)
]

-- The file of an allowlisted core has the name of the core.
stems : All (λ (core_id : String). stem core_id ≡ core_id) node_core_allowlist
unfolding stem
stems = (refl, (refl, (refl, (refl, (refl, (refl, (refl, tt)))))))

module _ (str_lower : String → String) (host : Host) where
  authorized-stem :
      (core_id : String) → authorize_core str_lower host core_id [] ≡ ok tt → stem core_id ≡ core_id
  unfolding authorize_core
  authorized-stem core_id h =
      contains-All (λ (c : String). stem c ≡ c) core_id node_core_allowlist stems
        (elim (Bool-cases (contains node_core_allowlist core_id)) [
          | inl m ↦ m
          | inr m ↦ absurd (ground arith)
        ])

  module _ {D A : Type 0} (py : Coercions) (drivers : Drivers D A)
      (held : D → String → List A) where
    -- A push that the driver takes.
    core_accounts-taken :
        (now : ℤ) (writable : Bool) (core_id : String) (body : AccountsPayload) (s : Node D)
        (accounts : List A)
        → authorize_core str_lower host core_id [] ≡ ok tt
        → contains drivers.list_cores core_id ≡ true
        → to_user_accounts py drivers body.accounts ≡ ok accounts
        → (drivers.sync_accounts core_id accounts s.drivers).0 ≡ ok tt
        → let (answer, s') = core_accounts py drivers str_lower host now writable core_id body s in
          (answer ≡ ok (length body.accounts))
          × (s'.drivers ≡ (drivers.sync_accounts core_id accounts s.drivers).1)
          × (s'.accounts
              ≡ (store py writable core_id
                  (map (λ (a : Account). Json.object (of_entries a)) body.accounts)
                  body.replace
                  s.accounts).1)
    unfolding synced
    core_accounts-taken now writable core_id body s accounts authorized listed read works =
        rw
          (
            core_accounts-synced py drivers str_lower host now writable core_id body s accounts
                authorized listed read,
            works,
          )
          (refl, refl, refl)

    load-replaced :
        (core_id : String) (accounts : List Account) (s : AccountsStore)
        → load core_id
            (store py true core_id
              (map (λ (a : Account). Json.object (of_entries a)) accounts)
              true
              s).1
          ≡ accounts
    unfolding store
    load-replaced core_id accounts s =
        load-written py core_id (map (λ (a : Account). Json.object (of_entries a)) accounts) true s
        ∙ dicts-map accounts

    load-merged :
        (core_id : String) (accounts : List Account) (s : AccountsStore)
        → load core_id
            (store py true core_id
              (map (λ (a : Account). Json.object (of_entries a)) accounts)
              false
              s).1
          ≡ merge py (load core_id s) accounts
    unfolding store
    load-merged core_id accounts s =
        load-written py core_id (map (λ (a : Account). Json.object (of_entries a)) accounts) false s
        ∙ ap (merge py (load core_id s)) (dicts-map accounts)

    module _ (sorted : List String → List String) (now : ℤ) (core_id : String)
        (accounts : List Account) (s : Node D) (fresh : D) (kept : List A)
        (c : Converges py drivers held)
        (sorts : (names : List String) (x : String) → contains (sorted names) x ≡ contains names x)
        (valid : IsRestorable py drivers s.accounts)
        (authorized : authorize_core str_lower host core_id [] ≡ ok tt)
        (listed : contains drivers.list_cores core_id ≡ true)
        (read : to_user_accounts py drivers accounts ≡ ok kept)
        (works : (d : D) → (drivers.sync_accounts core_id kept d).0 ≡ ok tt)
        (empty : held fresh core_id ≡ []) where
      push : Bool → Result ℕ × Node D
      push replace =
          core_accounts py drivers str_lower host now true core_id
            (record { accounts = accounts; replace = replace }) s

      push-taken :
          (replace : Bool)
          → ((push replace).0 ≡ ok (length accounts))
            × (held (push replace).1.drivers core_id ≡ kept)
            × ((push replace).1.accounts
                ≡ (store py true core_id
                    (map (λ (a : Account). Json.object (of_entries a)) accounts)
                    replace
                    s.accounts).1)
      unfolding push
      push-taken replace =
          let (answer, d, stored) =
            core_accounts-taken now true core_id (record { accounts = accounts; replace = replace })
              s kept authorized listed read (works s.drivers) in
          (
            answer,
            ap (λ (d : D). held d core_id) d
                ∙ c.synced_held core_id kept s.drivers (works s.drivers),
            stored,
          )

      push-restart :
          (replace : Bool) (whole : List A)
          → to_user_accounts py drivers (load core_id (push replace).1.accounts) ≡ ok whole
          → ((d : D) → (drivers.sync_accounts core_id whole d).0 ≡ ok tt)
          → let r = restore_accounts py drivers sorted (push replace).1.accounts fresh in
            (r.0 ≡ ok tt) × (held r.1 core_id ≡ whole)
      unfolding push
      push-restart replace whole snapshot taken =
          restore_accounts-held py drivers held sorted (push replace).1.accounts core_id whole fresh
            c sorts
            (core_accounts-IsRestorable py drivers str_lower host now true core_id
              (record { accounts = accounts; replace = replace }) s valid)
            (authorized-stem core_id authorized) snapshot listed taken empty

    -- A push whose snapshot cannot be written.
    store-unwritten :
        (core_id : String) (accounts : List Json) (replace : Bool) (s : AccountsStore)
        → (store py false core_id accounts replace s).1 ≡ s
    unfolding store
    store-unwritten core_id accounts replace s = refl

    -- A start of the agent gives a core back what it served. Take an allowlisted, installed core
    -- whose driver takes the pushed accounts, drivers that converge to the list they get, snapshots
    -- of accepted accounts and a directory listing that keeps its names. A full push answers its
    -- number of accounts and the core holds exactly these. If the snapshot is written, the start of a
    -- new process replays without an exception until the core holds exactly the same accounts again.
    -- If that write fails, the push has the same answer and the core holds the same accounts, but the
    -- snapshots are those of before.
    pub core_accounts-restart :
        (sorted : List String → List String) (now : ℤ) (core_id : String) (accounts : List Account)
        (s : Node D) (fresh : D) (kept : List A)
        → Converges py drivers held
        → ((names : List String) (x : String) → contains (sorted names) x ≡ contains names x)
        → IsRestorable py drivers s.accounts
        → authorize_core str_lower host core_id [] ≡ ok tt
        → contains drivers.list_cores core_id ≡ true
        → to_user_accounts py drivers accounts ≡ ok kept
        → ((d : D) → (drivers.sync_accounts core_id kept d).0 ≡ ok tt)
        → held fresh core_id ≡ []
        → let (answer, s') =
            core_accounts py drivers str_lower host now true core_id
              (record { accounts = accounts; replace = true })
              s in
          let r = restore_accounts py drivers sorted s'.accounts fresh in
          (answer ≡ ok (length accounts))
          × (held s'.drivers core_id ≡ kept)
          × (r.0 ≡ ok tt)
          × (held r.1 core_id ≡ kept)
          × (let (answer', t) =
                core_accounts py drivers str_lower host now false core_id
                  (record { accounts = accounts; replace = true })
                  s in
              (answer' ≡ ok (length accounts))
              × (held t.drivers core_id ≡ kept)
              × (t.accounts ≡ s.accounts))
    unfolding push
    core_accounts-restart sorted now core_id accounts s fresh kept c sorts valid authorized listed
          read works empty =
        let (answer, live, stored) =
          push-taken sorted now core_id accounts s fresh kept c sorts valid authorized listed read
            works empty true in
        let (restored, same) =
          push-restart sorted now core_id accounts s fresh kept c sorts valid authorized listed read
            works empty true kept
            (ap (λ (t : AccountsStore). to_user_accounts py drivers (load core_id t)) stored
              ∙ ap (to_user_accounts py drivers) (load-replaced core_id accounts s.accounts)
              ∙ read)
            works in
        let body : AccountsPayload = record { accounts = accounts; replace = true } in
        let (answer', d, stored') =
          core_accounts-taken now false core_id body s kept authorized listed read
            (works s.drivers) in
        (
          answer,
          live,
          restored,
          same,
          (
            answer',
            ap (λ (x : D). held x core_id) d
                ∙ c.synced_held core_id kept s.drivers (works s.drivers),
            stored'
                ∙ store-unwritten core_id
                    (map (λ (a : Account). Json.object (of_entries a)) accounts) true s.accounts,
          ),
        )

    -- An incremental push drops the other accounts of a live core. Under the same conditions, and with
    -- a snapshot that is written, a push with replace=False leaves the driver with the pushed accounts alone, whatever it held
    -- before, while the snapshot is the merge; the next start gives the core the whole merge.
    pub core_accounts-incremental :
        (sorted : List String → List String) (now : ℤ) (core_id : String) (accounts : List Account)
        (s : Node D) (fresh : D) (kept whole : List A)
        → Converges py drivers held
        → ((names : List String) (x : String) → contains (sorted names) x ≡ contains names x)
        → IsRestorable py drivers s.accounts
        → authorize_core str_lower host core_id [] ≡ ok tt
        → contains drivers.list_cores core_id ≡ true
        → to_user_accounts py drivers accounts ≡ ok kept
        → to_user_accounts py drivers (merge py (load core_id s.accounts) accounts) ≡ ok whole
        → ((d : D) → (drivers.sync_accounts core_id kept d).0 ≡ ok tt)
        → ((d : D) → (drivers.sync_accounts core_id whole d).0 ≡ ok tt)
        → held fresh core_id ≡ []
        → let (answer, s') =
            core_accounts py drivers str_lower host now true core_id
              (record { accounts = accounts; replace = false })
              s in
          let r = restore_accounts py drivers sorted s'.accounts fresh in
          (answer ≡ ok (length accounts))
          × (held s'.drivers core_id ≡ kept)
          × (r.0 ≡ ok tt)
          × (held r.1 core_id ≡ whole)
    unfolding push
    core_accounts-incremental sorted now core_id accounts s fresh kept whole c sorts valid
          authorized listed read merged works taken empty =
        let (answer, live, stored) =
          push-taken sorted now core_id accounts s fresh kept c sorts valid authorized listed read
            works empty false in
        let (restored, same) =
          push-restart sorted now core_id accounts s fresh kept c sorts valid authorized listed read
            works empty false whole
            (ap (λ (t : AccountsStore). to_user_accounts py drivers (load core_id t)) stored
              ∙ ap (to_user_accounts py drivers) (load-merged core_id accounts s.accounts)
              ∙ merged)
            taken in
        (answer, live, restored, same)
