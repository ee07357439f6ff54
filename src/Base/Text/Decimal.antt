-- ===== src/Base/Text/Decimal.antt =====
-- `str(n)` of an integer.
use Prim.Native.Nat.{ℕ, zero, suc, ◌/◌, ◌%◌}
use Prim.Native.Char.{Char}
use Prim.Native.String.{String, [], ◌∷◌, ◌++◌ as ◌<>◌}
use mathlib.Core.Path.{◌≡◌, refl}
use rc_node.Base.Tests.{ltb, if◌then◌else◌}
use rc_node.Base.Int.{ℤ, pos, negsuc}

nth : String → ℕ → Char
nth [] i = "0"
nth (c ∷ s) zero = c
nth (c ∷ s) (suc i) = nth s i

-- The digits of `n` before a text; a number is divided by ten at most as often as it is large.
prepend : ℕ → ℕ → String → String
unfolding nth
prepend zero n s = s
prepend (suc fuel) n s =
    let s' = nth "0123456789" (n % 10) ∷ s in
    let rest = prepend fuel (n / 10) s' in if ltb n 10 then s' else rest

unfoldable pub decimal : ℕ → String
unfolding prepend
decimal n = prepend (suc n) n ""

unfoldable pub str_int : ℤ → String
unfolding decimal
str_int (pos n) = decimal n
str_int (negsuc n) = "-" <> decimal (suc n)

decimal_digits : decimal 1200 ≡ "1200"
unfolding decimal
decimal_digits = refl
