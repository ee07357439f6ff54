-- ===== src/Security/Signature/Canonical.antt =====
-- The canonical encoding determines every signed part of a request.
use Prim.Native.Nat.{ℕ}
use rc_node.Base.{◌≡◌, ◌≢◌, String, List, [], ◌∷◌, ◌++◌, map, All, arith}
use rc_node.Base.Text.Codes.{codes, utf8-inj, codes-inj}
use rc_node.Security.Signature.{Bytes, Hashes, upper, body_hash, canonical_request}

abbrev NoNewline : List ℕ → Type 0
NoNewline = All (λ c. c ≢ 10)

-- Text before the first newline, and text after it.
split_newline :
    (xs ys r s : List ℕ)
    → NoNewline xs
    → NoNewline ys
    → xs ++ 10 ∷ r ≡ ys ++ 10 ∷ s
    → (xs ≡ ys) × (r ≡ s)
split_newline [] [] r s p q h = ground arith
split_newline [] (y ∷ ys) r s p q h = ground arith
split_newline (x ∷ xs) [] r s p q h = ground arith
split_newline (x ∷ xs) (y ∷ ys) r s p q h = ground (arith, split_newline xs ys r s p.1 q.1)

upper-NoNewline : (xs : List ℕ) → NoNewline xs → NoNewline (map upper xs)
unfolding upper
upper-NoNewline [] h = tt
upper-NoNewline (x ∷ xs) h = ground (arith, upper-NoNewline xs h.1)

abbrev pub IsLine : String → Type 0
IsLine s = NoNewline (codes s)

-- Two requests whose first four parts hold no newline have the same canonical encoding only if
-- their upper-case methods, paths, timestamps, nonces and body hashes are the same.
pub canonical_request_inj :
    (hashes : Hashes) (m m' p p' t t' n n' : String) (b b' : Bytes)
    → IsLine m × IsLine p × IsLine t × IsLine n
    → IsLine m' × IsLine p' × IsLine t' × IsLine n'
    → canonical_request hashes m p t n b ≡ canonical_request hashes m' p' t' n' b'
    → (map upper (codes m) ≡ map upper (codes m'))
      × (p ≡ p')
      × (t ≡ t')
      × (n ≡ n')
      × (body_hash hashes b ≡ body_hash hashes b')
unfolding canonical_request
canonical_request_inj hashes m m' p p' t t' n n' b b' h h' e =
    let (em, r) =
      split_newline _ _ _ _ (upper-NoNewline _ h.0) (upper-NoNewline _ h'.0) (utf8-inj _ _ e) in
    let (ep, r) = split_newline _ _ _ _ h.1 h'.1 r in
    let (et, r) = split_newline _ _ _ _ h.2 h'.2 r in
    let (en, r) = split_newline _ _ _ _ h.3 h'.3 r in
    (em, codes-inj _ _ ep, codes-inj _ _ et, codes-inj _ _ en, codes-inj _ _ r)
