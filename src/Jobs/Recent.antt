-- ===== src/Jobs/Recent.antt =====
-- What `recent` lists.
use rc_node.Base.{
  length-take, All-map, All-append, contains, length-append, ℕ, zero, suc, ◌≤◌, String, ◌≡◌, refl,
  ap, ◌∙◌, true, List, [], ◌∷◌, arith, string_eq, nat_eq, length, take, All, is_some,
}
use rc_node.Jobs.History.{Reach-IsHistory, IsHistory}
use rc_node.Base.Int.{pos}
use rc_node.Base.Dict.{has_key}
use rc_node.Jobs.{new_manager, get, JobManager, recent, present}
use rc_node.Jobs.Steps.{Reach}
use mathlib.Core.List.{reverse, reverse-append}
use Prim.Native.Nat.{min, max}

contains_cons :
    (i x : String) (xs : List String) → contains xs i ≡ true → contains (x ∷ xs) i ≡ true
contains_cons i x xs h = ground arith

self_contained : (xs : List String) → All (λ i. contains xs i ≡ true) xs
self_contained [] = tt
self_contained (x ∷ xs) =
    (ground arith, All-map _ _ xs (λ i h. contains_cons i x xs h) (self_contained xs))

All-both :
    {A : Type 0} (P Q : A → Type 0) (xs : List A) → All P xs → All Q xs → All (λ x. P x × Q x) xs
All-both P Q [] h k = tt
All-both P Q (x ∷ xs) h k = ((h.0, k.0), All-both P Q xs h.1 k.1)

All-reverse : {A : Type 0} (P : A → Type 0) (xs : List A) → All P xs → All P (reverse xs)
All-reverse P [] h = tt
All-reverse P (x ∷ xs) h =
    rw (reverse-append (x ∷ []) xs)
      (All-append P (reverse xs) (x ∷ []) (All-reverse P xs h.1) (h.0, tt))

All-take : {A : Type 0} (P : A → Type 0) (n : ℕ) (xs : List A) → All P xs → All P (take n xs)
All-take P zero xs h = tt
All-take P (suc n) [] h = tt
All-take P (suc n) (x ∷ xs) h = (h.0, All-take P n xs h.1)

length-reverse : {A : Type 0} (xs : List A) → length (reverse xs) ≡ length xs
length-reverse [] = refl
length-reverse (x ∷ xs) =
    ap length (reverse-append (x ∷ []) xs)
    ∙ omega (arith, length-append (reverse xs) (x ∷ []), length-reverse xs)

-- The id is one that `get` finds.
abbrev IsListed : JobManager → String → Type 0
IsListed m id = is_some (get id m) ≡ true

IsListed-one :
    (m : JobManager) (id : String)
    → m.jobs ≡ m.order
    → (contains m.order id ≡ true) × (has_key id m.objects ≡ true)
    → IsListed m id
unfolding get
IsListed-one m id e h = rw e (ground arith)

order-IsListed : (m : JobManager) → IsHistory m → All (IsListed m) m.order
order-IsListed m h =
    All-map _ _ m.order (λ id k. IsListed-one m id h.listed k)
      (All-both _ _ m.order (self_contained m.order) h.known)

present-length :
    (ids : List String) (m : JobManager)
    → All (IsListed m) ids
    → length (present ids m) ≡ length ids
unfolding present
present-length [] m h = refl
present-length (id ∷ ids) m h = ground (arith, present-length ids m h.1)

-- In every reachable state at most `history_limit` ids are kept, `_jobs` lists exactly those, and
-- `recent(limit)` gives as many jobs as there are, up to the limit asked for, which counts as at
-- least 1 and at most `history_limit`: none is skipped for missing from `_jobs`.
pub recent-length :
    (history limit : ℕ) {m : JobManager}
    → Reach (new_manager history) m
    → (length m.order ≤ history)
      × (m.jobs ≡ m.order)
      × (length (recent (pos limit) m) ≡ min (max 1 (min limit history)) (length m.order))
unfolding recent
recent-length history limit {m} r =
    let (h, e) = Reach-IsHistory history r in
    let n = max 1 (min limit m.history_limit) in
    let counted : length (present (take n (reverse m.order)) m)
        ≡ length (take n (reverse m.order)) =
      present-length _ m (All-take _ n _ (All-reverse _ m.order (order-IsListed m h))) in
    (
      omega (arith, h.bounded),
      h.listed,
      omega (arith, counted, length-take {0} n (reverse m.order), length-reverse m.order),
    )
