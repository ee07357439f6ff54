-- ===== src/Base/Nodup.antt =====
-- Lists of keys without repetition, as Python's dicts hold them.
use rc_node.Base.{
  subst, contains, Eq, ℕ, zero, suc, ◌≡◌, refl, sym, false, ◌||◌, List, [], ◌∷◌, ◌++◌, arith,
  string_eq, nat_eq, drop, All,
}

module _ {ℓ} {A : Type ℓ} ⦃e : Eq A⦄ where
  abbrev pub NoDup : List A → Type 0
  NoDup [] = Unit
  NoDup (x ∷ xs) = (contains xs x ≡ false) × NoDup xs

  pub contains-append :
      (xs ys : List A) (a : A) → contains (xs ++ ys) a ≡ (contains xs a || contains ys a)
  contains-append [] ys a = refl
  contains-append (x ∷ xs) ys a = ground (arith, contains-append xs ys a)

  pub NoDup-append_one :
      (xs : List A) (a : A) → NoDup xs → contains xs a ≡ false → NoDup (xs ++ a ∷ [])
  NoDup-append_one [] a u new = (refl, tt)
  NoDup-append_one (x ∷ xs) a (fresh, u) new =
      ground (arith, NoDup-append_one xs a u, contains-append xs (a ∷ []) x)

  pub NoDup-drop : (n : ℕ) (xs : List A) → NoDup xs → NoDup (drop n xs)
  NoDup-drop zero xs u = u
  NoDup-drop (suc n) [] u = tt
  NoDup-drop (suc n) (x ∷ xs) u = NoDup-drop n xs u.1

  -- A key that every element of the list differs from.
  pub not-contains_of_All :
      (P : A → Type 0) (xs : List A) (a : A) → All P xs → ¬ P a → contains xs a ≡ false
  not-contains_of_All P [] a h n = refl
  not-contains_of_All P (x ∷ xs) a h n = elim (e.dec a x) [
    | yes same ↦ absurd (n (subst P (sym same) h.0))
    | no differ ↦ ground (arith, not-contains_of_All P xs a h.1 n)
  ]
