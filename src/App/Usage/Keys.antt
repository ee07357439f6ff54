-- ===== src/App/Usage/Keys.antt =====
-- Keys of the file and the core and account that they name.
use rc_node.Base.{String, ◌≡◌, refl, ap, ◌∙◌, Bool, true, not, arith, ◌==◌, string_eq, nat_eq}
use rc_node.Base.Text
use Prim.Native.String.append
use rc_node.App.Usage.{key_of, partition}

-- A core id: not empty, and without a colon.
abbrev pub has_no_colon : String → Bool
has_no_colon s = Text.all (λ c. not (c == 58)) s

partition_colon :
    (account_id : String) → partition (String.◌∷◌ ":" account_id) ≡ (String.[], account_id)
unfolding partition nat_eq
partition_colon account_id = refl

pub partition-key_of :
    (core_id account_id : String)
    → has_no_colon core_id ≡ true
    → partition (key_of core_id account_id) ≡ (core_id, account_id)
unfolding partition
partition-key_of String.[] account_id h =
    ap partition (append.nil (String.◌∷◌ ":" account_id)) ∙ partition_colon account_id
partition-key_of (String.◌∷◌ c s) account_id h =
    let rest = partition-key_of s account_id (ground arith) in
    ap partition (append.cons c s (String.◌∷◌ ":" account_id)) ∙ (ground arith)
