-- ===== src/Compat/Encoding.antt =====
-- The marks of a user, as numbers.
use rc_node.Base.{
  Result-cases, ℕ, ◌+◌, ◌*◌, ◌≤◌, ◌<◌, ◌≡◌, ◌≢◌, ◌⊎◌, inl, inr, arith, string_eq, nat_eq, ok,
}
use rc_node.Compat.{marks_for_user, UserMarks, mark_for_user}
use Prim.Native.Nat.{bit_or}
use rc_node.Base.Bits.{bit_or-add, pow2}
use rc_node.Base.Int.{pos, negsuc}

-- A 16-bit user id that is not 0 has the mark whose top byte is 0x7A, whose next two bytes are the
-- id, and whose last byte is 0; every other user id is refused.
pub mark_for_user-outcome :
    (user : ℕ)
    → (0 < user → user ≤ 0xFFFF → mark_for_user (pos user) ≡ ok (0x7A000000 + user * 256))
      × ((m : ℕ) → mark_for_user (pos user) ≡ ok m → (0 < user) × (user ≤ 0xFFFF))
      × ((m : ℕ) → mark_for_user (negsuc user) ≢ ok m)
unfolding mark_for_user
mark_for_user-outcome user = (
  λ p q.
      let e : bit_or 0x7A000000 (user * 256) ≡ 0x7A000000 + user * 256 =
        bit_or-add 24 122 (user * 256) (omega arith) in
      ground arith,
  λ m h. ground arith,
  λ m h. cc,
)

with_kind :
    (user kind : ℕ)
    → kind < 256
    → bit_or (0x7A000000 + user * 256) kind ≡ 0x7A000000 + user * 256 + kind
with_kind user kind h =
    let base : (0x7A0000 + user) * pow2 8 ≡ 0x7A000000 + user * 256 = omega arith in
    rw base at (bit_or-add 8 (0x7A0000 + user) kind (omega arith))

accepted :
    (user : ℕ) (marks : UserMarks)
    → marks_for_user (pos user) ≡ ok marks
    → (0 < user) × (user ≤ 0xFFFF)
unfolding marks_for_user
accepted user marks h = elim (Result-cases (mark_for_user (pos user))) [
  | inl (m, e) ↦ (mark_for_user-outcome user).1 m e
  | inr (e, bad) ↦ absurd (ground arith)
]

-- The four marks of a user, in numbers.
pub marks_for_user-values :
    (user : ℕ)
    → 0 < user
    → user ≤ 0xFFFF
    → marks_for_user (pos user)
      ≡ ok (record {
        base = 0x7A000000 + user * 256;
        outer = 0x7A000000 + user * 256;
        up = 0x7A000000 + user * 256 + 1;
        down = 0x7A000000 + user * 256 + 2;
      })
unfolding marks_for_user
marks_for_user-values user p q =
    let m = (mark_for_user-outcome user).0 p q in
    let e0 = with_kind user 0 (omega arith) in
    let e1 = with_kind user 1 (omega arith) in
    let e2 = with_kind user 2 (omega arith) in ground (arith, m, e0, e1, e2)

marks_read :
    (user : ℕ) (marks : UserMarks)
    → marks_for_user (pos user) ≡ ok marks
    → (marks.base ≡ 0x7A000000 + user * 256)
      × (marks.up ≡ 0x7A000000 + user * 256 + 1)
      × (marks.down ≡ 0x7A000000 + user * 256 + 2)
marks_read user marks h =
    let (p, q) = accepted user marks h in ground (arith, marks_for_user-values user p q)

-- A mark leads back to its user: two users whose base, up or down marks are the same are one user.
pub marks_for_user-inj :
    (user user' : ℕ) (marks marks' : UserMarks)
    → marks_for_user (pos user) ≡ ok marks
    → marks_for_user (pos user') ≡ ok marks'
    → (marks.base ≡ marks'.base) ⊎ (marks.up ≡ marks'.up) ⊎ (marks.down ≡ marks'.down)
    → user ≡ user'
marks_for_user-inj user user' marks marks' h h' same =
    let r = marks_read user marks h in let r' = marks_read user' marks' h' in ground arith

-- A mark leads back to its direction: an up mark is never a down mark or a base mark, and a down
-- mark is never a base mark, whichever users they belong to.
pub marks_for_user-directions :
    (user user' : ℕ) (marks marks' : UserMarks)
    → marks_for_user (pos user) ≡ ok marks
    → marks_for_user (pos user') ≡ ok marks'
    → (marks.up ≢ marks'.down) × (marks.up ≢ marks'.base) × (marks.down ≢ marks'.base)
marks_for_user-directions user user' marks marks' h h' =
    let r = marks_read user marks h in
    let r' = marks_read user' marks' h' in (λ e. omega arith, λ e. omega arith, λ e. omega arith)
