-- ===== src/Accounts/Snapshots.antt =====
-- What is stored for a core is what a later load gives.
use rc_node.Base.{
  String, ◌≡◌, refl, ap, ◌∙◌, ◌≢◌, Bool, true, some, List, [], ◌∷◌, map, arith, string_eq, nat_eq,
}
use rc_node.Base.Dict.{lookup, insert, lookup-insert, lookup-erase}
use rc_node.Base.Json.{Json, Coercions, elements, of_elements, of_entries, entries-of_entries}
use rc_node.Base.Json.Json.{object, array}
use rc_node.Accounts.{
  Account, AccountsStore, content, stem, dicts, load, store, forget, accounts_of,
}

dicts-of_elements :
    (accounts : List Account)
    → dicts (elements (of_elements (map (λ (a : Account). object (of_entries a)) accounts)))
      ≡ accounts
unfolding dicts
dicts-of_elements [] = refl
dicts-of_elements (a ∷ accounts) =
    rw (entries-of_entries a) (ap (◌∷◌ a) (dicts-of_elements accounts))

load-content :
    (core_id : String) (accounts : List Account) (s : AccountsStore)
    → lookup (stem core_id) s.files
      ≡ some (content (array (of_elements (map (λ (a : Account). object (of_entries a)) accounts))))
    → load core_id s ≡ accounts
unfolding load accounts_of
load-content core_id accounts s e = rw (e, load) (dicts-of_elements accounts)

-- The part of the theorem below on the core itself, which asks for no other core.
pub load-written :
    (py : Coercions) (core_id : String) (accounts : List Json) (replace : Bool) (s : AccountsStore)
    → load core_id (store py true core_id accounts replace s).1
      ≡ (store py true core_id accounts replace s).0
unfolding store
load-written py core_id accounts replace s =
    let stored = (store py true core_id accounts replace s).0 in
    let file =
      content (array (of_elements (map (λ (a : Account). object (of_entries a)) stored))) in
    load-content core_id stored (record s { files = insert (stem core_id) file s.files })
      (lookup-insert (stem core_id) (stem core_id) file s.files ∙ (ground arith))

-- A push that is written, of either kind, is the snapshot that `load` gives from then on, to the
-- last entry and in order; the snapshots of cores with another file stay as they are; and
-- forgetting the core leaves it without accounts.
pub load-store :
    (py : Coercions) (core_id other : String) (accounts : List Json) (replace : Bool)
    (s : AccountsStore)
    → stem other ≢ stem core_id
    → let (stored, s') = store py true core_id accounts replace s in
      (load core_id s' ≡ stored)
      × (load other s' ≡ load other s)
      × (load core_id (forget true core_id s') ≡ [])
unfolding store forget load
load-store py core_id other accounts replace s differ =
    let stored = (store py true core_id accounts replace s).0 in
    let file =
      content (array (of_elements (map (λ (a : Account). object (of_entries a)) stored))) in
    (
      load-written py core_id accounts replace s,
      ground (arith, lookup-insert (stem other) (stem core_id) file s.files),
      ground
          (arith, lookup-erase (stem core_id) (stem core_id) (insert (stem core_id) file s.files)),
    )
