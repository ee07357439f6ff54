-- ===== src/Security/Replay/Accept.antt =====
-- One call of `ReplayGuard.accept`: when it returns, and what the cache holds afterwards.
use rc_node.Base.{
  inl, inr, Option-cases, ℕ, ◌≡◌, ◌↔◌, ◌⊎◌, Bool, true, false, none, some, String, [], ◌∷◌, arith,
  All, ok, ◌≤◌, string_eq,
}
use rc_node.Base.Int.{ℤ, ◌-ℤ◌, leb_ℤ, ◌≤ℤ◌, abs, pos}
use rc_node.Base.Dict.{
  Dict, lookup, insert, filter_values, values, NodupKeys, insert-NodupKeys, filter_values-NodupKeys,
  lookup-filter_values-keep_if,
}
use rc_node.Security.Replay.{ReplayGuard, accept, valid_nonce, remember, prune}

-- The cache holds a use of the nonce that is not older than the window.
abbrev pub IsLive : ReplayGuard → ℤ → String → Type 0
IsLive g now nonce = (t : ℤ) × (lookup nonce g.seen ≡ some t) × (now -ℤ t ≤ℤ pos g.window)

abbrev pub CanWrite : ReplayGuard → Bool → Type 0
CanWrite g writable = (g.persistent ≡ false) ⊎ (writable ≡ true)

prune_pass : (now t : ℤ) (w : ℕ) → (leb_ℤ (now -ℤ t) (pos w) ≡ true) ↔ (now -ℤ t ≤ℤ pos w)
prune_pass now t w = ground arith

-- What is left of a nonce after pruning is a live use of it.
prune-none_iff :
    (nonce : String) (now : ℤ) (g : ReplayGuard)
    → NodupKeys g.seen
    → (lookup nonce (prune now g).seen ≡ none) ↔ (¬ (IsLive g now nonce))
unfolding prune
prune-none_iff nonce now g u = (
  λ gone (t, found, live). ground (
    arith,
    lookup-filter_values-keep_if (λ ts. leb_ℤ (now -ℤ ts) (pos g.window)) nonce g.seen u,
    prune_pass now t g.window,
  ),
  λ dead. elim (Option-cases (lookup nonce g.seen)) [
    | inl new ↦ ground (
      arith,
      lookup-filter_values-keep_if (λ ts. leb_ℤ (now -ℤ ts) (pos g.window)) nonce g.seen u,
    )
    | inr (t, found) ↦ ground (
      arith,
      lookup-filter_values-keep_if (λ ts. leb_ℤ (now -ℤ ts) (pos g.window)) nonce g.seen u,
      prune_pass now t g.window,
      λ (live : now -ℤ t ≤ℤ pos g.window). dead (t, found, live),
    )
  ],
)

remember-ok_iff :
    (nonce : String) (timestamp : ℤ) (writable : Bool) (g : ReplayGuard)
    → ((remember nonce timestamp writable g).0 ≡ ok tt)
      ↔ ((lookup nonce g.seen ≡ none) × CanWrite g writable)
unfolding remember
remember-ok_iff nonce timestamp writable g = ground arith

-- With one entry for each nonce in the cache, `accept` returns exactly when the timestamp is at
-- most the window away from the clock, the nonce is well formed, no use of it that is still
-- within the window is on record, and the cache can be written.
pub accept-ok_iff :
    (nonce : String) (timestamp now : ℤ) (writable : Bool) (g : ReplayGuard)
    → NodupKeys g.seen
    → ((accept nonce timestamp now writable g).0 ≡ ok tt) ↔ (
        (abs (now -ℤ timestamp) ≤ g.window)
        × (valid_nonce nonce ≡ true)
        × (¬ (IsLive g now nonce))
        × CanWrite g writable)
unfolding accept prune
accept-ok_iff nonce timestamp now writable g u =
    ground
      (arith, remember-ok_iff nonce timestamp writable (prune now g), prune-none_iff nonce now g u)

abbrev pub IsFresh : ℕ → ℤ → ℤ → Type 0
IsFresh window now t = now -ℤ t ≤ℤ pos window

filter_values-All :
    (now : ℤ) (w : ℕ) (d : Dict String ℤ)
    → All (IsFresh w now) (values (filter_values (λ ts. leb_ℤ (now -ℤ ts) (pos w)) d))
filter_values-All now w [] = tt
filter_values-All now w ((k, t) ∷ d) = ground (arith, filter_values-All now w d, prune_pass now t w)

insert-All :
    (P : ℤ → Type 0) (k : String) (v : ℤ) (d : Dict String ℤ)
    → P v
    → All P (values d)
    → All P (values (insert k v d))
insert-All P k v [] p h = (p, tt)
insert-All P k v ((j, w) ∷ d) p h = ground (arith, insert-All P k v d p)

-- When `accept` returns, the cache has one entry for each nonce, if it had so before, and no entry
-- that is older than the window.
pub accept-IsBounded :
    (nonce : String) (timestamp now : ℤ) (writable : Bool) (g : ReplayGuard)
    → NodupKeys g.seen
    → (accept nonce timestamp now writable g).0 ≡ ok tt
    → NodupKeys (accept nonce timestamp now writable g).1.seen
      × All (IsFresh g.window now) (values (accept nonce timestamp now writable g).1.seen)
unfolding accept
accept-IsBounded nonce timestamp now writable g u accepted =
    let fresh = λ (ts : ℤ). leb_ℤ (now -ℤ ts) (pos g.window) in
    let kept = filter_values fresh g.seen in
    ground (
      arith,
      filter_values-NodupKeys fresh g.seen u,
      insert-NodupKeys nonce timestamp kept,
      filter_values-All now g.window g.seen,
      insert-All (IsFresh g.window now) nonce timestamp kept,
    )
