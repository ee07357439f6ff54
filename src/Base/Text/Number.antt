-- ===== src/Base/Text/Number.antt =====
-- `int(s)` of a text, in ASCII digits: surrounding white space, a sign, and digits that single
-- underscores may part. U+001C to U+001F are no white space here, as they are for `strip`. More than
-- 4300 digits are a ValueError, as in every Python since 3.11.
use Prim.Native.Nat.{ℕ, zero, suc, ◌+◌, ◌-◌, ◌*◌}
use Prim.Native.Char.{code}
use Prim.Native.String.{String, [], ◌∷◌}
use mathlib.Core.Path.{◌≡◌, refl}
use mathlib.Core.Bool.{Bool, true, false, ◌&&◌, ◌||◌}
use mathlib.Core.Option.{Option, none, some}
use rc_node.Base.Tests.{ltb, leb, if◌then◌else◌}
use rc_node.Base.Int.{ℤ, pos, negsuc}

pub data Kind : Type 0 where
  digit : ℕ → Kind
  underscore space plus minus other : Kind

classify : ℕ → Kind
classify c =
    if leb 48 c && leb c 57
    then digit (c - 48)
    else if leb c 95 && leb 95 c
    then underscore
    else if (leb 9 c && leb c 13)
        || (leb c 32 && leb 32 c)
        || (leb c 133 && leb 133 c)
        || (leb c 160 && leb 160 c)
    then space
    else if leb c 43 && leb 43 c
    then plus
    else if leb c 45 && leb 45 c
    then minus
    else other

all_space : String → Bool
all_space [] = true
all_space (c ∷ s) = elim (classify (code c)) [ space ↦ all_space s | _ ↦ false ]

-- The flag says that the character before was a digit.
digits : ℕ → Bool → String → Option ℕ
digits acc after_digit [] = if after_digit then some acc else none
digits acc after_digit (c ∷ s) = elim (classify (code c)) [
  | digit d ↦ digits (acc * 10 + d) true s
  | underscore ↦ elim after_digit [ true ↦ digits acc false s | false ↦ none ]
  | space ↦ if after_digit && all_space s then some acc else none
  | _ ↦ none
]

signed : String → Option ℤ
signed [] = none
signed (c ∷ s) = elim (classify (code c)) [
  | space ↦ signed s
  | plus ↦ elim (digits 0 false s) [ some n ↦ some (pos n) | none ↦ none ]
  | minus ↦ elim (digits 0 false s) [
    | some zero ↦ some (pos 0)
    | some (suc n) ↦ some (negsuc n)
    | none ↦ none
  ]
  | _ ↦ elim (digits 0 false (c ∷ s)) [ some n ↦ some (pos n) | none ↦ none ]
]

count_digits : String → ℕ
count_digits [] = 0
count_digits (c ∷ s) =
    let n = count_digits s in elim (classify (code c)) [ digit d ↦ suc n | _ ↦ n ]

-- `none` stands for a ValueError.
unfoldable pub int : String → Option ℤ
unfolding classify all_space digits signed count_digits
int s = if ltb 4300 (count_digits s) then none else signed s

int_reads : int " -1_0 " ≡ some (negsuc 9)
unfolding int
int_reads = refl

int_refuses : (int "1__0" ≡ none) × (int "" ≡ none) × (int "12x" ≡ none) × (int "_1" ≡ none)
unfolding int
int_refuses = (refl, refl, refl, refl)
