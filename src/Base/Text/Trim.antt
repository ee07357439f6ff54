-- ===== src/Base/Text/Trim.antt =====
-- `s.strip()` and `s.lower()`, of texts in ASCII.
use Prim.Native.Nat.{ℕ, zero, suc, ◌-◌}
use Prim.Native.Char.{Char, code}
use Prim.Native.String.{String, [], ◌∷◌}
use mathlib.Core.Path.{◌≡◌, refl}
use mathlib.Core.Bool.{Bool, ◌&&◌, ◌||◌}
use rc_node.Base.Tests.{leb, if◌then◌else◌}

is_space : Char → Bool
is_space c = (leb 9 (code c) && leb (code c) 13) || (leb 28 (code c) && leb (code c) 32)

lstrip : String → String
unfolding is_space
lstrip [] = []
lstrip (c ∷ s) = let rest = lstrip s in if is_space c then rest else c ∷ s

-- A blank goes when all that follows it goes.
keep_before : Char → String → String
unfolding is_space
keep_before c [] = if is_space c then [] else c ∷ []
keep_before c (d ∷ s) = c ∷ d ∷ s

rstrip : String → String
unfolding keep_before
rstrip [] = []
rstrip (c ∷ s) = keep_before c (rstrip s)

unfoldable pub strip : String → String
unfolding lstrip rstrip
strip s = rstrip (lstrip s)

letter : String → ℕ → Char
letter [] i = "?"
letter (c ∷ s) zero = c
letter (c ∷ s) (suc i) = letter s i

lower_char : Char → Char
unfolding letter
lower_char c =
    if leb 65 (code c) && leb (code c) 90
    then letter "abcdefghijklmnopqrstuvwxyz" (code c - 65)
    else c

unfoldable pub lower : String → String
unfolding lower_char
lower [] = []
lower (c ∷ s) = lower_char c ∷ lower s

strips : strip " a B  " ≡ "a B"
unfolding strip
strips = refl

lowers : lower "Ab-Z9" ≡ "ab-z9"
unfolding lower
lowers = refl
