-- ===== src/Base/Text.antt =====
-- What the agent uses of Python's `str`, on the native texts (sequences of code points).
mod Number
pub mod Decimal
pub mod Codes
pub mod Trim
unfoldable pub use Number.{int}
use Prim.Native.Nat.{ℕ, suc, ◌-◌, ◌+◌}
use Prim.Native.Char.{Char, code}
use Prim.Native.String.{String, [], ◌∷◌}
use mathlib.Core.Path.{◌≡◌, refl}
use mathlib.Core.Logic.{◌≢◌, ◌↔◌}
use mathlib.Core.Bool.{Bool, true, false, ◌&&◌, ◌||◌}
use rc_node.Base.Tests.{ltb, leb, if◌then◌else◌}

-- `len(s)`
abbrev pub length : String → ℕ
length [] = 0
length (c ∷ s) = suc (length s)

abbrev pub all : (ℕ → Bool) → String → Bool
all p [] = true
all p (c ∷ s) = p (code c) && all p s

-- `bool(s)`
abbrev pub is_nonempty : String → Bool
is_nonempty [] = false
is_nonempty (c ∷ s) = true

pub nonempty_iff : (s : String) → (is_nonempty s ≡ true) ↔ (s ≢ "")
nonempty_iff [] = (λ h. cc, λ h. absurd (h refl))
nonempty_iff (c ∷ s) = (λ h e. cc, λ h. refl)

abbrev pub is_ascii : String → Bool
is_ascii = all (λ c. ltb c 128)

abbrev within : ℕ → ℕ → ℕ → Bool
within lo hi c = leb lo c && leb c hi

-- The letters and digits among the first 256 code points, which are those a header can carry:
-- HTTP headers are decoded as latin-1.
pub is_alnum_code : ℕ → Bool
is_alnum_code c =
    within 48 57 c
    || within 65 90 c
    || within 97 122 c
    || within 170 170 c
    || within 178 179 c
    || within 181 181 c
    || within 185 186 c
    || within 188 190 c
    || within 192 214 c
    || within 216 246 c
    || within 248 255 c

-- `s.isalnum()`
unfoldable pub isalnum : String → Bool
unfolding is_alnum_code
isalnum s = is_nonempty s && all is_alnum_code s
