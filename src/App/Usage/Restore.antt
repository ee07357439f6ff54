-- ===== src/App/Usage/Restore.antt =====
-- What a start of the agent gives the trackers back.
use rc_node.Base.{
  String, ◌≡◌, refl, sym, ap, ◌∙◌, ◌≢◌, inl, inr, true, ◌&&◌, Option, none, some, [], ◌∷◌, arith,
  if◌then◌else◌, ◌==◌, Option-cases, string_eq, nat_eq, ok, err,
}
use rc_node.Base.Dict.{update, insert, lookup-insert, Dict, lookup}
use rc_node.Base.Json.{Json}
use rc_node.App.Usage.{
  Totals, key_of, totals_json, partition, ByCore, put, pair_of, totals_of, by_core_onto,
}
use rc_node.Base.Text.{is_nonempty}
use rc_node.App.Usage.Keys.{has_no_colon, partition-key_of}

abbrev pub or_else {ℓ} : {A : Type ℓ} → Option A → Option A → Option A
or_else none o = o
or_else (some a) o = some a

-- The totals of an account of a core.
abbrev pub find : String → String → ByCore → Option Totals
find core_id account_id by_core = elim (lookup core_id by_core) [
  | none ↦ none
  | some d ↦ lookup account_id d
]

-- The totals under a key.
abbrev pub totals_at : String → Dict String Json → Option Totals
totals_at key d = elim (lookup key d) [
  | none ↦ none
  | some v ↦ elim (pair_of v) [
    | none ↦ none
    | some pair ↦ elim (totals_of pair) [ err e ↦ none | ok totals ↦ some totals ]
  ]
]

abbrev pub IsCoreId : String → Type 0
IsCoreId core_id = (is_nonempty core_id ≡ true) × (has_no_colon core_id ≡ true)

-- An entry as the agent writes it.
pub record IsEntry (key : String) (value : Json) : Type 0 where
  pub core_id : String
  pub account_id : String
  pub totals : Totals
  pub core : IsCoreId core_id
  pub named : key ≡ key_of core_id account_id
  pub counted : value ≡ totals_json totals

abbrev pub IsBaselines : Dict String Json → Type 0
IsBaselines [] = Unit
IsBaselines ((key, value) ∷ d) = IsEntry key value × (lookup key d ≡ none) × IsBaselines d

find-put :
    (c c' a a' : String) (t : Totals) (b : ByCore)
    → find c a (put c' a' t b) ≡ (if c == c' && a == a' then some t else find c a b)
find-put c c' a a' t b =
    let outer =
      lookup-insert c c' (insert a' t (elim (lookup c' b) [ none ↦ [] | some d ↦ d ])) b in
    let inner = lookup-insert a a' t (elim (lookup c' b) [ none ↦ [] | some d ↦ d ]) in
    elim (string_eq.dec c c') [
      | no differ ↦ ground arith
      | yes same ↦ elim (Option-cases (lookup c' b)) [
        | inl fresh ↦ ground arith
        | inr (d, old) ↦ ground arith
      ]
    ]

pub key_of-inj :
    (c c' a a' : String)
    → has_no_colon c ≡ true
    → has_no_colon c' ≡ true
    → key_of c a ≡ key_of c' a'
    → (c ≡ c') × (a ≡ a')
key_of-inj c c' a a' h h' e =
    let same = sym (partition-key_of c a h) ∙ ap partition e ∙ partition-key_of c' a' h' in
    (ap (λ (p : String × String). p.0) same, ap (λ (p : String × String). p.1) same)

pair_of-totals : (t : Totals) → pair_of (totals_json t) ≡ some (Json.number t.0, Json.number t.1)
unfolding pair_of
pair_of-totals t = refl

totals_of-numbers : (t : Totals) → totals_of (Json.number t.0, Json.number t.1) ≡ ok t
unfolding totals_of
totals_of-numbers t = refl

-- An entry that the agent wrote is read as it was.
pub by_core_onto-entry :
    (b : ByCore) (key : String) (value : Json) (d : Dict String Json) (e : IsEntry key value)
    → by_core_onto b ((key, value) ∷ d) ≡ by_core_onto (put e.core_id e.account_id e.totals b) d
unfolding by_core_onto pair_of totals_of
by_core_onto-entry b key value d e =
    let named = e.named in
    let counted = e.counted in
    let parts = partition-key_of e.core_id e.account_id e.core.1 in
    let pair = pair_of-totals e.totals in
    let numbers = totals_of-numbers e.totals in
    let nonempty = e.core.0 in rw (named, counted) (ground arith)

totals_at-here :
    (key : String) (t : Totals) (d : Dict String Json)
    → totals_at key ((key, totals_json t) ∷ d) ≡ some t
unfolding pair_of totals_of
totals_at-here key t d = ground arith

totals_at-later :
    (key key' : String) (v : Json) (d : Dict String Json)
    → key ≢ key'
    → totals_at key ((key', v) ∷ d) ≡ totals_at key d
totals_at-later key key' v d differ = ground arith

totals_at-none :
    (key : String) (d : Dict String Json) → lookup key d ≡ none → totals_at key d ≡ none
totals_at-none key d h = ground arith

find-put-same :
    (c c' a a' : String) (t : Totals) (b : ByCore)
    → c ≡ c'
    → a ≡ a'
    → find c a (put c' a' t b) ≡ some t
find-put-same c c' a a' t b same same' = find-put c c' a a' t b ∙ (ground arith)

find-put-other :
    (c c' a a' : String) (t : Totals) (b : ByCore)
    → key_of c a ≢ key_of c' a'
    → find c a (put c' a' t b) ≡ find c a b
find-put-other c c' a a' t b differ = find-put c c' a a' t b ∙ (elim (string_eq.dec c c') [
  | no apart ↦ ground arith
  | yes same ↦ elim (string_eq.dec a a') [
    | no apart ↦ ground arith
    | yes same' ↦ absurd (differ (ap (λ (x : String). key_of x a) same ∙ ap (key_of c') same'))
  ]
])

-- The loop reads every entry that the agent wrote, and gives each account its totals.
pub by_core_onto-find :
    (b : ByCore) (d : Dict String Json)
    → IsBaselines d
    → (b' : ByCore) × (by_core_onto b d ≡ ok b')
      × ((c a : String)
          → IsCoreId c
          → find c a b' ≡ or_else (totals_at (key_of c a) d) (find c a b))
unfolding by_core_onto
by_core_onto-find b [] h = (b, refl, λ c a i. refl)
by_core_onto-find b ((key, value) ∷ d) (e, fresh, h) =
    let (b', read, found) = by_core_onto-find (put e.core_id e.account_id e.totals b) d h in
    (
      b',
      by_core_onto-entry b key value d e ∙ read,
      λ c a i. found c a i ∙ (elim (string_eq.dec (key_of c a) key) [
        | yes same ↦
            let (c_same, a_same) =
              key_of-inj c e.core_id a e.account_id i.1 e.core.1 (same ∙ e.named) in
            let here =
              ap (λ (v : Json). totals_at (key_of c a) ((key, v) ∷ d)) e.counted
              ∙ ap (λ (k : String). totals_at (key_of c a) ((k, totals_json e.totals) ∷ d))
                  (sym same)
              ∙ totals_at-here (key_of c a) e.totals d in
            ap (λ (o : Option Totals). or_else o (find c a (put e.core_id e.account_id e.totals b)))
              (totals_at-none (key_of c a) d (ap (λ (k : String). lookup k d) same ∙ fresh))
            ∙ find-put-same c e.core_id a e.account_id e.totals b c_same a_same
            ∙ sym (ap (λ (o : Option Totals). or_else o (find c a b)) here)
        | no differ ↦
            ap (or_else (totals_at (key_of c a) d))
              (find-put-other c e.core_id a e.account_id e.totals b (λ k. differ (k ∙ sym e.named)))
            ∙ ap (λ (o : Option Totals). or_else o (find c a b))
                (sym (totals_at-later (key_of c a) key value d differ))
      ]),
    )

pub insert-IsBaselines :
    (key : String) (value : Json) (d : Dict String Json)
    → IsEntry key value
    → IsBaselines d
    → IsBaselines (insert key value d)
insert-IsBaselines key value [] e h = (e, refl, tt)
insert-IsBaselines key value ((k, v) ∷ d) e (f, fresh, h) =
    let rest = insert-IsBaselines key value d e h in
    let looked = lookup-insert k key value d in
    elim (string_eq.dec key k) [
      | yes same ↦ let fresh' = ap (λ (x : String). lookup x d) same ∙ fresh in ground arith
      | no differ ↦ ground arith
    ]

pub update-IsBaselines :
    (d d' : Dict String Json) → IsBaselines d → IsBaselines d' → IsBaselines (update d d')
update-IsBaselines d [] h h' = h
update-IsBaselines d ((key, value) ∷ d') h (e, fresh, h') =
    update-IsBaselines (insert key value d) d' (insert-IsBaselines key value d e h) h'

pub totals_at-insert :
    (k key : String) (value : Json) (d : Dict String Json)
    → totals_at k (insert key value d)
      ≡ (if k == key then totals_at key ((key, value) ∷ d) else totals_at k d)
totals_at-insert k key value d = let looked = lookup-insert k key value d in ground arith

pub totals_at-entry :
    (k key : String) (value : Json) (d : Dict String Json) (e : IsEntry key value)
    → k ≡ key
    → totals_at k ((key, value) ∷ d) ≡ some e.totals
totals_at-entry k key value d e same =
    ap (λ (v : Json). totals_at k ((key, v) ∷ d)) e.counted
    ∙ ap (λ (x : String). totals_at k ((x, totals_json e.totals) ∷ d)) (sym same)
    ∙ totals_at-here k e.totals d

pub totals_at-update :
    (k : String) (d d' : Dict String Json)
    → IsBaselines d'
    → totals_at k (update d d') ≡ or_else (totals_at k d') (totals_at k d)
totals_at-update k d [] h = refl
totals_at-update k d ((key, value) ∷ d') (e, fresh, h) =
    totals_at-update k (insert key value d) d' h ∙ (elim (string_eq.dec k key) [
      | yes same ↦
          let here = totals_at-entry k key value d' e same in
          let put = totals_at-entry key key value d e refl in
          let inserted = totals_at-insert k key value d in
          let gone = totals_at-none k d' (ap (λ (x : String). lookup x d') same ∙ fresh) in
          ap (λ (o : Option Totals). or_else o (totals_at k (insert key value d))) gone
          ∙ (totals_at-insert k key value d ∙ (ground arith))
          ∙ sym (ap (λ (o : Option Totals). or_else o (totals_at k d)) here)
      | no differ ↦
          ap (or_else (totals_at k d')) (totals_at-insert k key value d ∙ (ground arith))
          ∙ ap (λ (o : Option Totals). or_else o (totals_at k d))
              (sym (totals_at-later k key value d' differ))
    ])
