-- ===== src/IpLimits/Table.antt =====
-- What `apply` of node_agent/ip_limits.py leaves in the kernel.
use rc_node.Base.{
  Result-cases, ℕ, String, ◌≡◌, refl, sym, ap, ◌∙◌, ◌⊎◌, inl, inr, Bool, true, false, not, Option,
  none, some, List, [], ◌∷◌, if◌then◌else◌, Bool-cases, Option-cases, string_eq, nat_eq, length,
  Result, ok, err, is_some,
}
use rc_node.IpLimits.{Host, Row, script, active_bans}
use rc_node.Base.Int.{ℤ}
use rc_node.IpLimits.Nft.{
  Commands, Completed, Applied, active, refused, list_command, delete_command, load_command,
  replacing, lift_bans, load_bans, apply_active, apply, settled,
}

-- The answer says that the bans are active.
abbrev pub is_done : Result Applied → Bool
is_done (err e) = false
is_done (ok (refused m)) = false
is_done (ok (active n)) = true

module _ {N : Type 0} (commands : Commands N) (table : N → Option String) where
  -- What the agent relies on, where `table` is the text that the table was loaded from: `nft list`
  -- tells whether there is one and changes nothing, a command that fails leaves it, and a text is
  -- loaded as a whole.
  pub record IsNft : Type 0 where
    pub lists :
        (k : N)
        → let (r, k') = commands.run list_command "" k in
          (not r.failed ≡ is_some (table k)) × (table k' ≡ table k)
    pub deletes :
        (old : String) (k : N)
        → table k ≡ some old
        → let (r, k') = commands.run delete_command "" k in
          table k' ≡ (if r.failed then some old else none)
    pub loads :
        (text : String) (k : N)
        → table k ≡ none
        → let (r, k') = commands.run load_command text k in
          table k' ≡ (if r.failed then none else some text)
    pub reloads :
        (text old : String) (k : N)
        → table k ≡ some old
        → let (r, k') = commands.run load_command (replacing text) k in
          table k' ≡ (if r.failed then some old else some text)

  -- The bans are done and the table is the one wanted, or they are not and the table is the old one.
  abbrev pub IsSettled : Option String → Option String → ℕ → Result Applied × N → Type 0
  IsSettled before wanted n (r, k') =
      ((r ≡ ok (active n)) × (table k' ≡ wanted)) ⊎ ((is_done r ≡ false) × (table k' ≡ before))

  settled-lem :
      (before wanted : Option String) (n : ℕ) (answer : Completed × N)
      → table (answer.1) ≡ (if answer.0.failed then before else wanted)
      → IsSettled before wanted n (settled commands n answer)
  settled-lem before wanted n (r, k') h = elim (Bool-cases r.failed) [
    | inl bad ↦ inr (rw bad refl, h ∙ rw bad refl)
    | inr good ↦ inl (rw good refl, h ∙ rw good refl)
  ]

  module _ (nft : IsNft) where
    lift_bans-IsSettled :
        (k : N) → IsSettled (table k) none 0 (lift_bans commands (is_some (table k)) k)
    unfolding lift_bans
    lift_bans-IsSettled k = elim (Option-cases (table k)) [
      | inl missing ↦ rw missing (inl (refl, missing))
      | inr (old, there) ↦ rw there (
          settled-lem (some old) none 0 (commands.run delete_command "" k)
            (nft.deletes old k there))
    ]

    load_bans-IsSettled :
        (n : ℕ) (text : String) (k : N)
        → IsSettled (table k) (some text) n (load_bans commands n (is_some (table k)) text k)
    unfolding load_bans
    load_bans-IsSettled n text k = elim (Option-cases (table k)) [
      | inl missing ↦ rw missing (
          settled-lem none (some text) n (commands.run load_command text k)
            (nft.loads text k missing))
      | inr (old, there) ↦ rw there (
          settled-lem (some old) (some text) n (commands.run load_command (replacing text) k)
            (nft.reloads text old k there))
    ]

  module _ (host : Host) (now : ℕ) (tcp udp : List ℤ) where
    -- The table bans these rows: there is none for no row, and else their script.
    pub data IsFor : List Row → Option String → Type 0 where
      nothing : IsFor [] none
      scripted :
          (row : Row) (rows : List Row) (text : String)
          → script host (row ∷ rows) tcp udp now ≡ ok text
          → IsFor (row ∷ rows) (some text)

    -- How `apply` ends.
    pub data Ends (bans : List Row) (k : N) : Result Applied × N → Type 0 where
      done :
          (rows : List Row) (wanted : Option String) (r : Result Applied) (k' : N)
          → active_bans host now bans ≡ ok rows
          → IsFor rows wanted
          → r ≡ ok (active (length rows))
          → table k' ≡ wanted
          → Ends bans k (r, k')
      kept :
          (r : Result Applied) (k' : N)
          → is_done r ≡ false
          → table k' ≡ table k
          → Ends bans k (r, k')

    ends :
        (bans rows : List Row) (before wanted : Option String) (k : N) (answer : Result Applied × N)
        → active_bans host now bans ≡ ok rows
        → IsFor rows wanted
        → before ≡ table k
        → IsSettled before wanted (length rows) answer
        → Ends bans k answer
    ends bans rows before wanted k (r, k') read for same (inl (e, t)) =
        done rows wanted r k' read for e t
    ends bans rows before wanted k (r, k') read for same (inr (e, t)) = kept r k' e (t ∙ same)

    apply_active-Ends :
        (nft : IsNft) (bans rows : List Row) (k k' : N)
        → active_bans host now bans ≡ ok rows
        → table k' ≡ table k
        → Ends bans k (apply_active commands host tcp udp now rows (is_some (table k')) k')
    unfolding apply_active
    apply_active-Ends nft bans [] k k' read same =
        ends bans [] (table k') none k (lift_bans commands (is_some (table k')) k') read nothing
          same (lift_bans-IsSettled nft k')
    apply_active-Ends nft bans (row ∷ rows) k k' read same =
        elim (Result-cases (script host (row ∷ rows) tcp udp now)) [
          | inr (e, bad) ↦ rw (bad, apply_active) (kept (err e) k' refl same)
          | inl (text, made) ↦
              rw (made, apply_active)
                (ends bans (row ∷ rows) (table k') (some text) k
                  (load_bans commands (length (row ∷ rows)) (is_some (table k')) text k') read
                  (scripted row rows text made) same
                  (load_bans-IsSettled nft (length (row ∷ rows)) text k'))
        ]

    pub apply-Ends :
        (nft : IsNft) (bans : List Row) (k : N)
        → Ends bans k (apply commands host now bans tcp udp k)
    unfolding apply
    apply-Ends nft bans k = elim (Bool-cases (commands.which "nft")) [
      | inr missing ↦ rw missing (kept (ok (refused "nft is not installed")) k refl refl)
      | inl there ↦ elim (Result-cases (active_bans host now bans)) [
        | inr (e, bad) ↦ rw (there, bad) (kept (err e) k refl refl)
        | inl (rows, read) ↦
            let (listed, k') = commands.run list_command "" k in
            let (shown, same) = nft.lists k in
            let same' : is_some (table k) ≡ is_some (table k') =
              ap (λ (o : Option String). is_some o) (sym same) in
            rw (there, read, shown, same') (apply_active-Ends nft bans rows k k' read same)
      ]
    ]
