-- ===== src/Base/Text/Codes.antt =====
-- A text as the list of its code points, and `s.encode("utf-8")`.
use Prim.Native.Nat.{ℕ, ◌+◌, ◌/◌, ◌%◌}
use Prim.Native.Char.{code}
use Prim.Native.String.{String}
use mathlib.Core.Path.{◌≡◌, refl}
use mathlib.Core.List.{List, [], ◌∷◌}
use native.Mathlib.Omega.{arith}
use text.Mathlib.TextEquality.{Char-path}
use rc_node.Base.Tests.{ltb, if◌then◌else◌}

unfoldable pub codes : String → List ℕ
codes String.[] = []
codes (String.◌∷◌ c s) = code c ∷ codes s

-- The bytes of one code point, before those of the rest.
utf8_code : ℕ → List ℕ → List ℕ
utf8_code c rest =
    if ltb c 128
    then c ∷ rest
    else if ltb c 2048
    then (192 + c / 64) ∷ (128 + c % 64) ∷ rest
    else if ltb c 65536
    then (224 + c / 4096) ∷ (128 + c / 64 % 64) ∷ (128 + c % 64) ∷ rest
    else (240 + c / 262144) ∷ (128 + c / 4096 % 64) ∷ (128 + c / 64 % 64) ∷ (128 + c % 64) ∷ rest

unfoldable pub utf8 : List ℕ → List ℕ
unfolding utf8_code
utf8 [] = []
utf8 (c ∷ s) = utf8_code c (utf8 s)

utf8_code-inj : (c d : ℕ) (r s : List ℕ) → utf8_code c r ≡ utf8_code d s → (c ≡ d) × (r ≡ s)
unfolding utf8_code
utf8_code-inj c d r s h = ground arith

utf8_code-ne-nil : (c : ℕ) (r : List ℕ) → ¬ ([] ≡ utf8_code c r)
unfolding utf8_code
utf8_code-ne-nil c r h = ground arith

pub utf8-inj : (s t : List ℕ) → utf8 s ≡ utf8 t → s ≡ t
utf8-inj [] [] h = refl
utf8-inj [] (d ∷ t) h = absurd (utf8_code-ne-nil d (unfold utf8 in utf8 t) (unfold utf8 in h))
utf8-inj (c ∷ s) [] h = absurd (utf8_code-ne-nil c (utf8 s) (unfold utf8 in cc))
utf8-inj (c ∷ s) (d ∷ t) h =
    let (p, q) = utf8_code-inj c d (utf8 s) (utf8 t) (unfold utf8 in h) in
    let e = utf8-inj s t q in cc

pub codes-inj : (s t : String) → codes s ≡ codes t → s ≡ t
unfolding codes
codes-inj String.[] String.[] h = refl
codes-inj String.[] (String.◌∷◌ d t) h = cc
codes-inj (String.◌∷◌ c s) String.[] h = cc
codes-inj (String.◌∷◌ c s) (String.◌∷◌ d t) h =
    let p : code c ≡ code d = cc in let q = codes-inj s t (cc) in let e = Char-path c d p in cc
