-- ===== src/Accounts/Merge.antt =====
-- What an incremental push leaves: the code's dict, order and sort against a plain description.
use rc_node.Accounts.Upsert.{
  sort_by-IsAscending, upsert_all-IsAscending, IsAscending, has_item, upsert, upsert_all,
}
use rc_node.Accounts.Ranks.{
  keyed-IsAscending, last_index_range, IsAscending-cong, last_index, last_index_absent,
  lookup-order_onto, last_index-append-keyless, rank_at, IsDistinct, keyed,
}
use rc_node.Accounts.{merge, keyless, order_onto, Account, account_key, known_onto}
use rc_node.Base.{
  ℕ, ◌+◌, ◌≤◌, String, ◌≡◌, refl, sym, ap, ◌∙◌, inl, inr, true, false, ◌||◌, none, some, List, [],
  ◌∷◌, ◌++◌, arith, Bool-cases, Option-cases, string_eq, nat_eq, length, All, All-map,
  length-append,
}
use rc_node.Base.Dict.{lookup, Dict, insert, values}
use mathlib.Core.List.{append_assoc, append-nil}
use rc_node.Base.Text.{is_nonempty}
use rc_node.Base.Json.{Coercions}

module _ (py : Coercions) where
  -- Every entry stands under the id of its item.
  abbrev IsFiled : Dict String Account → Type 0
  IsFiled [] = Unit
  IsFiled ((k, x) ∷ d) = (k ≡ account_key py x) × IsFiled d

  insert-IsFiled :
      (x : Account) (d : Dict String Account) → IsFiled d → IsFiled (insert (account_key py x) x d)
  insert-IsFiled x [] h = (refl, tt)
  insert-IsFiled x ((k, y) ∷ d) h = ground (arith, insert-IsFiled x d)

  values-insert :
      (x : Account) (d : Dict String Account)
      → IsFiled d
      → values (insert (account_key py x) x d) ≡ upsert (account_key py) x (values d)
  values-insert x [] h = refl
  values-insert x ((k, y) ∷ d) h = ground (arith, values-insert x d)

  values-known_onto :
      (d : Dict String Account) (items : List Account)
      → IsFiled d
      → (values (known_onto py d items) ≡ upsert_all (account_key py) (values d) (keyed py items))
        × IsFiled (known_onto py d items)
  unfolding known_onto
  values-known_onto d [] h = (refl, h)
  values-known_onto d (x ∷ xs) h = elim (Bool-cases (is_nonempty (account_key py x))) [
    | inr empty ↦ rw empty (values-known_onto d xs h)
    | inl full ↦
        let (e, filed) =
          values-known_onto (insert (account_key py x) x d) xs (insert-IsFiled x d h) in
        let e' = values-insert x d h in rw full (rw e' at e, filed)
  ]

  upsert_new :
      (x : Account) (xs : List Account)
      → has_item (account_key py) (account_key py x) xs ≡ false
      → upsert (account_key py) x xs ≡ xs ++ x ∷ []
  upsert_new x [] h = refl
  upsert_new x (y ∷ ys) h = ground (arith, upsert_new x ys)

  -- The id of no item is in the list.
  abbrev AreNew : List Account → List Account → Type 0
  AreNew xs items =
      All (λ y. has_item (account_key py) (account_key py y) xs ≡ false) (keyed py items)

  AreNew-one :
      (x : Account) (items : List Account)
      → has_item (account_key py) (account_key py x) items ≡ false
      → AreNew (x ∷ []) items
  AreNew-one x [] h = tt
  AreNew-one x (y ∷ ys) h = ground (arith, AreNew-one x ys)

  has_item-append :
      (k : String) (xs ys : List Account)
      → has_item (account_key py) k (xs ++ ys)
        ≡ (has_item (account_key py) k xs || has_item (account_key py) k ys)
  has_item-append k [] ys = refl
  has_item-append k (x ∷ xs) ys = ground (arith, has_item-append k xs ys)

  AreNew-append :
      (xs ys items : List Account) → AreNew xs items → AreNew ys items → AreNew (xs ++ ys) items
  AreNew-append xs ys [] h k = tt
  AreNew-append xs ys (y ∷ items) h k = elim (Bool-cases (is_nonempty (account_key py y))) [
    | inr empty ↦ rw empty (AreNew-append xs ys items (rw empty at h) (rw empty at k))
    | inl full ↦
        let (h0, hs) = rw full at h in
        let (k0, ks) = rw full at k in
        rw full (
          rw (has_item-append (account_key py y) xs ys) (ground arith),
          AreNew-append xs ys items hs ks,
        )
  ]

  nil_has_none :
      (ys : List Account) → All (λ y. has_item (account_key py) (account_key py y) [] ≡ false) ys
  nil_has_none [] = tt
  nil_has_none (y ∷ ys) = (refl, nil_has_none ys)

  upsert_all_new :
      (xs items : List Account)
      → IsDistinct py items
      → AreNew xs items
      → upsert_all (account_key py) xs (keyed py items) ≡ xs ++ keyed py items
  upsert_all_new xs [] d h = sym (append-nil xs)
  upsert_all_new xs (y ∷ ys) (d, ds) h = elim (Bool-cases (is_nonempty (account_key py y))) [
    | inr empty ↦ rw empty (upsert_all_new xs ys ds (rw empty at h))
    | inl full ↦
        let (h0, hs) = rw full at h in
        let absent : has_item (account_key py) (account_key py y) ys ≡ false = ground arith in
        let ih =
          upsert_all_new (xs ++ y ∷ []) ys ds
            (AreNew-append xs (y ∷ []) ys hs (AreNew-one y ys absent)) in
        let first =
          ap (λ (zs : List Account). upsert_all (account_key py) zs (keyed py ys))
            (upsert_new y xs h0) in
        rw full (first ∙ (ih ∙ append_assoc xs (y ∷ []) (keyed py ys)))
  ]

  -- The ids that items have are the ids that keyed items have.
  has_item-keyed :
      (k : String) (items : List Account)
      → is_nonempty k ≡ true
      → has_item (account_key py) k (keyed py items) ≡ has_item (account_key py) k items
  has_item-keyed k [] full = refl
  has_item-keyed k (x ∷ xs) full = ground (arith, has_item-keyed k xs full)

  keyed_full :
      (items : List Account) → All (λ y. is_nonempty (account_key py y) ≡ true) (keyed py items)
  keyed_full [] = tt
  keyed_full (x ∷ xs) = ground (arith, keyed_full xs)

  length-keyless : (items : List Account) → length (keyless py items) ≤ length items
  unfolding keyless
  length-keyless [] = omega arith
  length-keyless (x ∷ xs) = ground (arith, length-keyless xs)

  module _ (stored incoming : List Account) where
    abbrev order : Dict String ℕ
    order = order_onto py [] 0 (stored ++ keyless py incoming)

    -- The rank of an id in `merge`.
    abbrev rank : String → ℕ
    rank k = elim (lookup k order) [ none ↦ 1000000 | some n ↦ n ]

    rank-rank_at : (k : String) → rank k ≡ rank_at py 0 (stored ++ keyless py incoming) k
    rank-rank_at k = ground (arith, lookup-order_onto py k [] 0 (stored ++ keyless py incoming))

    rank-stored : (k : String) → is_nonempty k ≡ true → rank k ≡ rank_at py 0 stored k
    rank-stored k full =
        let e = rank-rank_at k in
        let e' = last_index-append-keyless py k 0 stored incoming full in ground arith

    rank-le : (k : String) → length stored + length incoming ≤ 1000000 → rank k ≤ 1000000
    rank-le k small =
        let items = stored ++ keyless py incoming in
        let total : length items ≤ 1000000 =
          omega (arith, length-append {0} stored (keyless py incoming), length-keyless incoming) in
        let e = rank-rank_at k in
        elim (Option-cases (last_index py k 0 items)) [
          | inl absent ↦ ground arith
          | inr (m, found) ↦ let range = last_index_range py k 0 m items found in ground arith
        ]

    rank_last :
        (k k' : String)
        → length stored + length incoming ≤ 1000000
        → is_nonempty k ≡ true
        → has_item (account_key py) k (keyed py stored) ≡ false
        → rank k' ≤ rank k
    rank_last k k' small full absent =
        let absent' : has_item (account_key py) k stored ≡ false =
          sym (has_item-keyed k stored full) ∙ absent in
        let gone = last_index_absent py k 0 stored absent' in
        let stored_rank = rank-stored k full in
        let e : rank k ≡ 1000000 = ground arith in omega (arith, rank-le k' small)

    stored-IsAscending : IsDistinct py stored → IsAscending (account_key py) rank (keyed py stored)
    stored-IsAscending d =
        IsAscending-cong py (rank_at py 0 stored) rank (keyed py stored)
          (All-map _ _ (keyed py stored) (λ y full. sym (rank-stored (account_key py y) full))
            (keyed_full stored))
          (keyed-IsAscending py 0 stored d)

    known-upsert_all :
        IsDistinct py stored
        → values (known_onto py (known_onto py [] stored) incoming)
          ≡ upsert_all (account_key py) (keyed py stored) (keyed py incoming)
    known-upsert_all d =
        let (e, filed) = values-known_onto [] stored tt in
        let (e', _) = values-known_onto (known_onto py [] stored) incoming filed in
        let base = e ∙ upsert_all_new [] stored d (nil_has_none (keyed py stored)) in
        e' ∙ ap (λ (xs : List Account). upsert_all (account_key py) xs (keyed py incoming)) base

    -- An incremental push onto a snapshot without repeated ids, of at most a million items with the
    -- pushed ones: of both, the items without an id are dropped; each pushed item takes the place of
    -- the one with its id, or the place behind all others, in the order of the push.
    pub merge-upsert_all :
        IsDistinct py stored
        → length stored + length incoming ≤ 1000000
        → merge py stored incoming
          ≡ upsert_all (account_key py) (keyed py stored) (keyed py incoming)
    unfolding merge
    merge-upsert_all d small =
        let items = upsert_all (account_key py) (keyed py stored) (keyed py incoming) in
        let ascending =
          upsert_all-IsAscending (account_key py) rank (keyed py stored) (keyed py incoming)
            (keyed_full incoming) (λ k k' full absent. rank_last k k' small full absent)
            (stored-IsAscending d) in
        rw (known-upsert_all d) (sort_by-IsAscending (account_key py) rank items ascending)
