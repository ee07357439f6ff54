-- ===== src/Accounts/Ranks.antt =====
-- The ranks that `merge` sorts by: the last place of a key among the stored items.
use rc_node.Base.{
  ℕ, suc, ◌+◌, ◌≤◌, ◌<◌, String, ◌≡◌, refl, ◌⊎◌, inl, inr, true, false, Option, none, some, List,
  [], ◌∷◌, ◌++◌, arith, if◌then◌else◌, ◌==◌, Bool-cases, Option-cases, string_eq, nat_eq, length,
  All, All-map,
}
use rc_node.Base.Dict.{Dict, lookup, insert, lookup-insert}
use rc_node.Base.Text.{is_nonempty}
use rc_node.Base.Json.{Coercions}
use rc_node.Accounts.{Account, account_key, keyless, order_onto}
use rc_node.Accounts.Upsert.{has_item, IsAscending}

module _ (py : Coercions) where
  abbrev pub keyed : List Account → List Account
  keyed [] = []
  keyed (x ∷ xs) = let rest = keyed xs in if is_nonempty (account_key py x) then x ∷ rest else rest

  -- No two items have the same id, but items may have none.
  abbrev pub IsDistinct : List Account → Type 0
  IsDistinct [] = Unit
  IsDistinct (x ∷ xs) =
      ((is_nonempty (account_key py x) ≡ false)
        ⊎ (has_item (account_key py) (account_key py x) xs ≡ false))
      × IsDistinct xs

  abbrev pub last_index : String → ℕ → List Account → Option ℕ
  last_index k n [] = none
  last_index k n (x ∷ xs) =
      let later = last_index k (suc n) xs in
      elim later [ some m ↦ some m | none ↦ if k == account_key py x then some n else none ]

  abbrev pub or_else : Option ℕ → Option ℕ → Option ℕ
  or_else none o = o
  or_else (some m) o = some m

  pub lookup-order_onto :
      (k : String) (order : Dict String ℕ) (n : ℕ) (items : List Account)
      → lookup k (order_onto py order n items) ≡ or_else (last_index k n items) (lookup k order)
  unfolding order_onto
  lookup-order_onto k order n [] = refl
  lookup-order_onto k order n (x ∷ xs) = ground (
    arith,
    lookup-order_onto k (insert (account_key py x) n order) (suc n) xs,
    lookup-insert k (account_key py x) n order,
  )

  -- The rank of a key among items counted from `n`.
  abbrev pub rank_at : ℕ → List Account → String → ℕ
  rank_at n items k = elim (last_index k n items) [ none ↦ 1000000 | some m ↦ m ]

  pub last_index_range :
      (k : String) (n m : ℕ) (items : List Account)
      → last_index k n items ≡ some m
      → (n ≤ m) × (m < n + length items)
  last_index_range k n m [] h = absurd (ground arith)
  last_index_range k n m (x ∷ xs) h = ground (arith, last_index_range k (suc n) m xs)

  pub last_index_absent :
      (k : String) (n : ℕ) (items : List Account)
      → has_item (account_key py) k items ≡ false
      → last_index k n items ≡ none
  last_index_absent k n [] h = refl
  last_index_absent k n (x ∷ xs) h = ground (arith, last_index_absent k (suc n) xs)

  last_index_present :
      (k : String) (n : ℕ) (items : List Account)
      → has_item (account_key py) k items ≡ true
      → (m : ℕ) × (last_index k n items ≡ some m)
  last_index_present k n [] h = absurd (ground arith)
  last_index_present k n (x ∷ xs) h = elim (Option-cases (last_index k (suc n) xs)) [
    | inr (m, later) ↦ (m, ground arith)
    | inl none_later ↦ elim (Bool-cases (has_item (account_key py) k xs)) [
      | inl present ↦ let (m, e) = last_index_present k (suc n) xs present in absurd (ground arith)
      | inr absent ↦ (n, ground arith)
    ]
  ]

  -- Items with no id do not count for a key.
  pub last_index-append-keyless :
      (k : String) (n : ℕ) (items incoming : List Account)
      → is_nonempty k ≡ true
      → last_index k n (items ++ keyless py incoming) ≡ last_index k n items
  unfolding keyless
  last_index-append-keyless k n [] [] full = refl
  last_index-append-keyless k n [] (y ∷ ys) full = ground (
    arith,
    last_index-append-keyless k n [] ys full,
    last_index-append-keyless k (suc n) [] ys full,
  )
  last_index-append-keyless k n (x ∷ xs) incoming full =
      ground (arith, last_index-append-keyless k (suc n) xs incoming full)

  present_weaken :
      (x : Account) (xs ys : List Account)
      → All (λ y. has_item (account_key py) (account_key py y) xs ≡ true) ys
      → All (λ y. has_item (account_key py) (account_key py y) (x ∷ xs) ≡ true) ys
  present_weaken x xs ys = All-map _ _ ys (λ y h. ground arith)

  keyed_present :
      (items : List Account)
      → All (λ y. has_item (account_key py) (account_key py y) items ≡ true) (keyed items)
  keyed_present [] = tt
  keyed_present (x ∷ xs) =
      let rest = present_weaken x xs (keyed xs) (keyed_present xs) in
      elim (Bool-cases (is_nonempty (account_key py x))) [
        | inl full ↦ rw full (ground arith, rest)
        | inr empty ↦ rw empty rest
      ]

  bound_cong :
      (r r' : String → ℕ) (k : String) (ys : List Account)
      → All (λ y. r (account_key py y) ≡ r' (account_key py y)) ys
      → r k ≡ r' k
      → All (λ y. r k ≤ r (account_key py y)) ys
      → All (λ y. r' k ≤ r' (account_key py y)) ys
  bound_cong r r' k [] es e p = tt
  bound_cong r r' k (y ∷ ys) (e', es) e (q, p) = (omega arith, bound_cong r r' k ys es e p)

  pub IsAscending-cong :
      (r r' : String → ℕ) (ys : List Account)
      → All (λ y. r (account_key py y) ≡ r' (account_key py y)) ys
      → IsAscending (account_key py) r ys
      → IsAscending (account_key py) r' ys
  IsAscending-cong r r' [] e h = tt
  IsAscending-cong r r' (y ∷ ys) (e, es) (p, h) =
      (bound_cong r r' (account_key py y) ys es e p, IsAscending-cong r r' ys es h)

  tail_rank :
      (n : ℕ) (x y : Account) (xs : List Account)
      → has_item (account_key py) (account_key py y) xs ≡ true
      → (rank_at (suc n) xs (account_key py y) ≡ rank_at n (x ∷ xs) (account_key py y))
        × (suc n ≤ rank_at n (x ∷ xs) (account_key py y))
  tail_rank n x y xs h =
      let (m, e) = last_index_present (account_key py y) (suc n) xs h in
      ground (arith, last_index_range (account_key py y) (suc n) m xs e)

  pub keyed-IsAscending :
      (n : ℕ) (items : List Account)
      → IsDistinct items
      → IsAscending (account_key py) (rank_at n items) (keyed items)
  keyed-IsAscending n [] d = tt
  keyed-IsAscending n (x ∷ xs) (d, ds) =
      let here = keyed_present xs in
      let same = All-map _ _ (keyed xs) (λ y h. (tail_rank n x y xs h).0) here in
      let ih =
        IsAscending-cong (rank_at (suc n) xs) (rank_at n (x ∷ xs)) (keyed xs) same
          (keyed-IsAscending (suc n) xs ds) in
      elim (Bool-cases (is_nonempty (account_key py x))) [
        | inr empty ↦ rw empty ih
        | inl full ↦
            let absent : has_item (account_key py) (account_key py x) xs ≡ false = ground arith in
            let gone = last_index_absent (account_key py x) (suc n) xs absent in
            let first : rank_at n (x ∷ xs) (account_key py x) ≡ n = ground arith in
            let later =
              All-map _
                (λ (y : Account).
                  rank_at n (x ∷ xs) (account_key py x) ≤ rank_at n (x ∷ xs) (account_key py y))
                (keyed xs) (λ y h. omega (arith, first, (tail_rank n x y xs h).1)) here in
            rw full (later, ih)
      ]
