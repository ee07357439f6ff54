-- ===== src/Examples/Compat.antt =====
-- The marks of two users.
use rc_node.Base.{ℕ, ◌≡◌, refl, inl, inr, string_eq, nat_eq, ok}
use rc_node.Base.Int.{pos}
use rc_node.Compat.{mark_for_user, UserMarks, marks_for_user}
use rc_node.Compat.Encoding.{marks_for_user-inj}

abbrev of_seven : UserMarks
of_seven = record { base = 0x7A000700; outer = 0x7A000700; up = 0x7A000701; down = 0x7A000702 }

abbrev of_eight : UserMarks
of_eight = record { base = 0x7A000800; outer = 0x7A000800; up = 0x7A000801; down = 0x7A000802 }

marks_seven : marks_for_user (pos 7) ≡ ok of_seven
unfolding marks_for_user mark_for_user
marks_seven = refl

marks_eight : marks_for_user (pos 8) ≡ ok of_eight
unfolding marks_for_user mark_for_user
marks_eight = refl

marks_for_user-inj_example : ◌≡◌ {A = ℕ} 7 7
marks_for_user-inj_example =
    marks_for_user-inj 7 7 of_seven of_seven marks_seven marks_seven (inr (inl refl))
