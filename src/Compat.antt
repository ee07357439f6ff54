-- ===== src/Compat.antt =====
-- The routing marks of node_agent/compat.py, which a node must render as the panel does. The
-- stand-ins that only raise, and their installation in `sys.modules`, are not modelled.
pub mod Encoding
use rc_node.Base.{
  value_error, ℕ, ◌-◌, ◌*◌, ◌||◌, if◌then◌else◌, ltb, leb, string_eq, nat_eq, Result, ok, err,
}
use Prim.Native.Nat.{bit_or}
use rc_node.Base.Int.{ℤ, pos, negsuc}

abbrev pub mark_prefix : ℕ
mark_prefix = 0x7A000000

-- `value << 8`
abbrev shift_eight : ℕ → ℕ
shift_eight value = value * 256

-- `int(user_id)` is the argument.
unfoldable pub mark_for_user : ℤ → Result ℕ
mark_for_user (negsuc n) = err (value_error "user id is outside the 16-bit limiter range")
mark_for_user (pos value) =
    if leb value 0 || ltb 0xFFFF value
    then err (value_error "user id is outside the 16-bit limiter range")
    else ok (bit_or mark_prefix (shift_eight value))

pub record UserMarks : Type 0 where
  pub base : ℕ
  pub outer : ℕ
  pub up : ℕ
  pub down : ℕ

unfoldable pub marks_for_user : ℤ → Result UserMarks
marks_for_user user_id = elim (mark_for_user user_id) [
  | err e ↦ err e
  | ok base ↦ ok (record {
    base = base;
    outer = bit_or base 0x00;
    up = bit_or base 0x01;
    down = bit_or base 0x02;
  })
]
