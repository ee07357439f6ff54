-- ===== src/Examples/Accounts.antt =====
-- Two pushes for one core.
use rc_node.Base.{
  type_error, String, ◌≡◌, refl, ap, ◌≢◌, inr, true, false, List, [], ◌∷◌, arith, ◌==◌, string_eq,
  nat_eq, err,
}
use rc_node.Base.Json.{Coercions, truthy}
use rc_node.Base.Json.Json.{text}
use rc_node.Accounts.{Account, stem, merge, account_key, known_onto, order_onto, keyless}
use rc_node.Accounts.Upsert.{upsert_all}
use rc_node.Accounts.Ranks.{keyed}
use rc_node.Accounts.Merge.{merge-upsert_all}

abbrev py : Coercions
py = record { other_str = λ v. ""; other_dict = λ v. err type_error }

abbrev account : String → String → Account
account id name = ("account_id", text id) ∷ ("username", text name) ∷ []

abbrev stored : List Account
stored = account "a" "ann" ∷ account "b" "bob" ∷ []

abbrev incoming : List Account
incoming = account "c" "cyd" ∷ account "a" "amy" ∷ []

merge-upsert_all_example :
    merge py stored incoming ≡ upsert_all (account_key py) (keyed py stored) (keyed py incoming)
unfolding account_key truthy string_eq
merge-upsert_all_example =
    merge-upsert_all py stored incoming (inr refl, (inr refl, tt)) (omega arith)

merged : merge py stored incoming ≡ account "a" "amy" ∷ account "b" "bob" ∷ account "c" "cyd" ∷ []
unfolding merge account_key truthy string_eq known_onto order_onto keyless
merged = refl

apart : stem "ssh" ≢ stem "sing/box"
unfolding stem string_eq
apart e = let same : true ≡ false = ap (λ (s : String). s == "ssh") e in cc (same)
