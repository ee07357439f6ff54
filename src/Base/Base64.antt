-- ===== src/Base/Base64.antt =====
-- `base64.b64encode`, and `base64.b64decode` of an ASCII text, of Python's standard library.
use Prim.Native.Nat.{ℕ, zero, suc, ◌+◌, ◌-◌, ◌*◌, ◌/◌, ◌%◌, ◌<◌}
use Prim.Native.Char.{Char, code}
use Prim.Native.String.{String}
use mathlib.Core.Path.{◌≡◌, refl, ap, ◌∙◌}
use mathlib.Core.Bool.{Bool, true, false, ◌&&◌, not}
use mathlib.Core.Option.{Option, none, some}
use mathlib.Core.Option
use mathlib.Core.List.{List, [], ◌∷◌}
use native.Mathlib.Omega.{arith}
use rc_node.Base.Tests.{leb, if◌then◌else◌}
use rc_node.Base.Lists.{All}
use rc_node.Base.Text.Codes.{codes}

abbrev alphabet : String
alphabet = "ABCDEFGHIJKLMNOPQRSTUVWXYZabcdefghijklmnopqrstuvwxyz0123456789+/"

nth : String → ℕ → Char
nth String.[] i = "="
nth (String.◌∷◌ c s) zero = c
nth (String.◌∷◌ c s) (suc i) = nth s i

-- The character of a six-bit value.
symbol : ℕ → Char
unfolding nth
symbol = nth alphabet

-- The character of a six-bit value, before the rest.
push : ℕ → String → String
unfolding symbol
push v rest = String.◌∷◌ (symbol v) rest

unfoldable pub b64encode : List ℕ → String
unfolding push
b64encode [] = ""
b64encode (a ∷ []) = push (a / 4) (push (a % 4 * 16) "==")
b64encode (a ∷ b ∷ []) = push (a / 4) (push (a % 4 * 16 + b / 16) (push (b % 16 * 4) "="))
b64encode (a ∷ b ∷ c ∷ rest) =
    push (a / 4)
      (push (a % 4 * 16 + b / 16) (push (b % 16 * 4 + c / 64) (push (c % 64) (b64encode rest))))

-- The table of the decoder: the value of a character, if it is in the alphabet.
value : ℕ → Option ℕ
value c =
    if leb 65 c && leb c 90
    then some (c - 65)
    else if leb 97 c && leb c 122
    then some (c - 71)
    else if leb 48 c && leb c 57
    then some (c + 4)
    else if leb 43 c && leb c 43
    then some 62
    else if leb 47 c && leb c 47
    then some 63
    else none

-- The position in a group of four, the bits left over, and the pads seen since the last character
-- of the alphabet. Characters outside the alphabet are skipped; `none` is a binascii.Error.
decode : ℕ → ℕ → ℕ → List ℕ → Option (List ℕ)
decode pos left pads [] = if leb pos 0 then some [] else none
decode pos left pads (c ∷ s) = elim (leb 61 (c) && leb (c) 61) [
  | true ↦ elim (leb 2 pos && leb 4 (pos + suc pads)) [
    | true ↦ some []
    | false ↦ decode pos left (suc pads) s
  ]
  | false ↦ elim (value (c)) [
    | none ↦ decode pos left pads s
    | some v ↦ elim pos [
      | zero ↦ decode 1 v 0 s
      | suc zero ↦ Option.map (λ r. (left * 4 + v / 16) ∷ r) (decode 2 (v % 16) 0 s)
      | suc (suc zero) ↦ Option.map (λ r. (left * 16 + v / 4) ∷ r) (decode 3 (v % 4) 0 s)
      | suc (suc (suc _)) ↦ Option.map (λ r. (left * 64 + v) ∷ r) (decode 0 0 0 s)
    ]
  ]
]

unfoldable pub b64decode : String → Option (List ℕ)
unfolding decode value codes
b64decode s = decode 0 0 0 (codes s)

-- The decoder reads a symbol back as its value.
is_value : ℕ → Option ℕ → Bool
is_value v none = false
is_value v (some w) = leb v w && leb w v

reads : ℕ → Bool
unfolding symbol value is_value
reads v =
    is_value v (value (code (symbol v)))
    && not (leb 61 (code (symbol v)) && leb (code (symbol v)) 61)

-- All symbols whose value is less than a bound.
reads_up_to : ℕ → Bool
reads_up_to zero = true
reads_up_to (suc n) = if reads n then reads_up_to n else false

reads_all : reads_up_to 64 ≡ true
unfolding reads_up_to reads
reads_all = refl

reads_one : (n v : ℕ) → v < n → reads_up_to n ≡ true → reads v ≡ true
unfolding reads_up_to
reads_one (suc n) v small all_read = ground (arith, reads_one n v)
reads_one zero v small all_read = absurd (omega arith)

reads_lem :
    (v c : ℕ) (o : Option ℕ)
    → (is_value v o && not (leb 61 c && leb c 61)) ≡ true
    → (o ≡ some v) × ((leb 61 c && leb c 61) ≡ false)
unfolding is_value
reads_lem v c o h = ground arith

value-symbol :
    (v : ℕ)
    → v < 64
    → (value (code (symbol v)) ≡ some v)
      × ((leb 61 (code (symbol v)) && leb (code (symbol v)) 61) ≡ false)
unfolding reads
value-symbol v h =
    reads_lem v (code (symbol v)) (value (code (symbol v))) (reads_one 64 v h reads_all)

abbrev prepend : ℕ → Option (List ℕ) → Option (List ℕ)
prepend v = Option.map (λ r. v ∷ r)

module _ (left pads v : ℕ) (s : String) (small : v < 64) where
  decode_first : decode 0 left pads (codes (push v s)) ≡ decode 1 v 0 (codes s)
  unfolding decode push codes
  decode_first = ground (arith, value-symbol v small)

  decode_second :
      decode 1 left pads (codes (push v s))
      ≡ prepend (left * 4 + v / 16) (decode 2 (v % 16) 0 (codes s))
  unfolding decode push codes
  decode_second = ground (arith, value-symbol v small)

  decode_third :
      decode 2 left pads (codes (push v s))
      ≡ prepend (left * 16 + v / 4) (decode 3 (v % 4) 0 (codes s))
  unfolding decode push codes
  decode_third = ground (arith, value-symbol v small)

  decode_fourth :
      decode 3 left pads (codes (push v s)) ≡ prepend (left * 64 + v) (decode 0 0 0 (codes s))
  unfolding decode push codes
  decode_fourth = ground (arith, value-symbol v small)

abbrev pub IsByte : ℕ → Type 0
IsByte b = b < 256

decode_three :
    (a b c : ℕ) (rest : String)
    → a < 256
    → b < 256
    → c < 256
    → decode 0 0 0 (
        codes (
          push
            (a / 4)
            (push (a % 4 * 16 + b / 16) (push (b % 16 * 4 + c / 64) (push (c % 64) rest)))))
      ≡ prepend a (prepend b (prepend c (decode 0 0 0 (codes rest))))
decode_three a b c rest ha hb hc =
    let ea : a / 4 * 4 + (a % 4 * 16 + b / 16) / 16 ≡ a = omega arith in
    let eb : (a % 4 * 16 + b / 16) % 16 * 16 + (b % 16 * 4 + c / 64) / 4 ≡ b = omega arith in
    let ec : (b % 16 * 4 + c / 64) % 4 * 64 + c % 64 ≡ c = omega arith in
    rw (
      decode_first 0 0 (a / 4) _ (omega arith),
      decode_second (a / 4) 0 (a % 4 * 16 + b / 16) _ (omega arith),
      decode_third ((a % 4 * 16 + b / 16) % 16) 0 (b % 16 * 4 + c / 64) _ (omega arith),
      decode_fourth ((b % 16 * 4 + c / 64) % 4) 0 (c % 64) _ (omega arith),
      ea,
      eb,
      ec,
    )

pad_two : (left : ℕ) → decode 2 left 0 (codes "==") ≡ some []
unfolding decode codes
pad_two left = refl

pad_three : (left : ℕ) → decode 3 left 0 (codes "=") ≡ some []
unfolding decode codes
pad_three left = refl

decode_one :
    (a : ℕ) → a < 256 → decode 0 0 0 (codes (push (a / 4) (push (a % 4 * 16) "=="))) ≡ some (a ∷ [])
decode_one a ha =
    let ea : a / 4 * 4 + (a % 4 * 16) / 16 ≡ a = omega arith in
    rw (
      decode_first 0 0 (a / 4) _ (omega arith),
      decode_second (a / 4) 0 (a % 4 * 16) _ (omega arith),
      pad_two (a % 4 * 16 % 16),
      ea,
    )

decode_two :
    (a b : ℕ)
    → a < 256
    → b < 256
    → decode 0 0 0 (codes (push (a / 4) (push (a % 4 * 16 + b / 16) (push (b % 16 * 4) "="))))
      ≡ some (a ∷ b ∷ [])
decode_two a b ha hb =
    let ea : a / 4 * 4 + (a % 4 * 16 + b / 16) / 16 ≡ a = omega arith in
    let eb : (a % 4 * 16 + b / 16) % 16 * 16 + (b % 16 * 4) / 4 ≡ b = omega arith in
    rw (
      decode_first 0 0 (a / 4) _ (omega arith),
      decode_second (a / 4) 0 (a % 4 * 16 + b / 16) _ (omega arith),
      decode_third ((a % 4 * 16 + b / 16) % 16) 0 (b % 16 * 4) _ (omega arith),
      pad_three (b % 16 * 4 % 4),
      ea,
      eb,
    )

-- Decoding an encoding gives the bytes back.
pub b64decode-b64encode :
    (bytes : List ℕ) → All IsByte bytes → b64decode (b64encode bytes) ≡ some bytes
unfolding b64decode b64encode
b64decode-b64encode [] h = refl
b64decode-b64encode (a ∷ []) h = decode_one a h.0
b64decode-b64encode (a ∷ b ∷ []) h = decode_two a b h.0 h.1.0
b64decode-b64encode (a ∷ b ∷ c ∷ rest) h =
    decode_three a b c (b64encode rest) h.0 h.1.0 h.1.1.0
    ∙ ap (λ o. prepend a (prepend b (prepend c o))) (b64decode-b64encode rest h.1.1.1)

test_decode : b64decode "Zm9vYg==" ≡ some (102 ∷ 111 ∷ 111 ∷ 98 ∷ [])
unfolding b64decode
test_decode = refl

test_encode : b64encode (102 ∷ 111 ∷ 111 ∷ 98 ∷ []) ≡ "Zm9vYg=="
unfolding b64encode
test_encode = refl
