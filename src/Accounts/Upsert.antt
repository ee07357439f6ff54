-- ===== src/Accounts/Upsert.antt =====
-- Lists of items with keys: replacing an item in its place or appending it, and the ranks by which
-- the result is in order.
use rc_node.Base.{
  ℕ, ◌≤◌, String, ◌≡◌, refl, inl, inr, Bool, true, false, ◌||◌, List, [], ◌∷◌, arith, if◌then◌else◌,
  ◌==◌, Bool-cases, string_eq, nat_eq, All,
}
use rc_node.Base.Text.{is_nonempty}
use rc_node.Accounts.{sort_by}

module _ {A : Type 0} (key : A → String) where
  -- The item takes the place of the one with its key, or the last place.
  abbrev pub upsert : A → List A → List A
  upsert item [] = item ∷ []
  upsert item (x ∷ xs) =
      let rest = upsert item xs in if key item == key x then item ∷ xs else x ∷ rest

  abbrev pub upsert_all : List A → List A → List A
  upsert_all xs [] = xs
  upsert_all xs (item ∷ items) = upsert_all (upsert item xs) items

  abbrev pub has_item : String → List A → Bool
  has_item k [] = false
  has_item k (x ∷ xs) = k == key x || has_item k xs

  has_item-upsert :
      (k : String) (item : A) (xs : List A)
      → has_item k xs ≡ true
      → has_item k (upsert item xs) ≡ true
  has_item-upsert k item (x ∷ xs) h = ground (arith, has_item-upsert k item xs)
  has_item-upsert k item [] h = cc

  absent_before :
      (k : String) (item : A) (xs : List A)
      → has_item k (upsert item xs) ≡ false
      → has_item k xs ≡ false
  absent_before k item xs h = ground (arith, has_item-upsert k item xs)

  module _ (rank : String → ℕ) where
    abbrev pub IsAscending : List A → Type 0
    IsAscending [] = Unit
    IsAscending (x ∷ xs) = All (λ y. rank (key x) ≤ rank (key y)) xs × IsAscending xs

    -- A stable sort leaves a list in order as it is.
    pub sort_by-IsAscending : (xs : List A) → IsAscending xs → sort_by (λ x. rank (key x)) xs ≡ xs
    sort_by-IsAscending [] h = refl
    sort_by-IsAscending (x ∷ []) h = refl
    sort_by-IsAscending (x ∷ y ∷ xs) ((p, ps), h) =
        let ih = sort_by-IsAscending (y ∷ xs) h in rw ih (ground arith)

    -- A key that some item has is ranked as that item is.
    item_bound :
        (n : ℕ) (k : String) (xs : List A)
        → All (λ y. n ≤ rank (key y)) xs
        → has_item k xs ≡ true
        → n ≤ rank k
    item_bound n k [] h e = absurd (ground arith)
    item_bound n k (x ∷ xs) (p, h) e = ground (arith, item_bound n k xs h)

    All-upsert :
        (n : ℕ) (item : A) (xs : List A)
        → All (λ y. n ≤ rank (key y)) xs
        → n ≤ rank (key item)
        → All (λ y. n ≤ rank (key y)) (upsert item xs)
    All-upsert n item [] h p = (p, tt)
    All-upsert n item (x ∷ xs) h p = ground (arith, All-upsert n item xs)

    same_bounds :
        (item x : A) (xs : List A)
        → key item ≡ key x
        → All (λ y. rank (key x) ≤ rank (key y)) xs
        → All (λ y. rank (key item) ≤ rank (key y)) xs
    same_bounds item x xs e h = rw e h

    -- Upserting keeps the order, if a key that no item has is ranked last.
    pub upsert-IsAscending :
        (item : A) (xs : List A)
        → (has_item (key item) xs ≡ false → (k : String) → rank k ≤ rank (key item))
        → IsAscending xs
        → IsAscending (upsert item xs)
    upsert-IsAscending item [] last h = (tt, tt)
    upsert-IsAscending item (x ∷ xs) last (p, h) = elim (string_eq.dec (key item) (key x)) [
      | yes same ↦ let bounds = same_bounds item x xs same p in ground arith
      | no differ ↦
          let last' : has_item (key item) xs ≡ false → (k : String) → rank k ≤ rank (key item) =
            λ absent. last (ground arith) in
          let bound : rank (key x) ≤ rank (key item) = elim (Bool-cases (has_item (key item) xs)) [
            | inl present ↦ item_bound (rank (key x)) (key item) xs p present
            | inr absent ↦ last' absent (key x)
          ] in
          let bounds = All-upsert (rank (key x)) item xs p bound in
          let ih = upsert-IsAscending item xs last' h in ground arith
    ]

    pub upsert_all-IsAscending :
        (xs items : List A)
        → All (λ i. is_nonempty (key i) ≡ true) items
        → ((k k' : String) → is_nonempty k ≡ true → has_item k xs ≡ false → rank k' ≤ rank k)
        → IsAscending xs
        → IsAscending (upsert_all xs items)
    upsert_all-IsAscending xs [] keyed last h = h
    upsert_all-IsAscending xs (item ∷ items) (full, keyed) last h =
        upsert_all-IsAscending (upsert item xs) items keyed
          (λ k k' full' absent. last k k' full' (absent_before k item xs absent))
          (upsert-IsAscending item xs (λ absent k. last (key item) k full absent) h)
