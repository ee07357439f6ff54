-- ===== src/Examples/State.antt =====
-- A store with one core, whose settings a cipher seals.
use rc_node.Base.{
  os_error, ◌⊎◌, type_error, String, ◌≡◌, refl, ◌≢◌, Bool, true, false, Option, none, some, List,
  [], ◌∷◌, string_eq, nat_eq, ok, err,
}
use rc_node.Base.Dict.{Dict, lookup}
use rc_node.Base.Json.{Json, Coercions, of_entries, truthy}
use rc_node.Base.Json.Json.{object, text}
use rc_node.Security.Cipher.{Cipher}
use rc_node.State.{
  NodeCoreStateStore, CoreRecord, content, missing, read, read_entries, read_record,
  stored_settings, load, needs_migration,
}
use rc_node.State.Sealing.{Represents, Seals}
use rc_node.State.Calls.{Call, saves, removes, loads}
use rc_node.State.Refinement.{promises, calls, calls_refine, AreOutcomes}
use rc_node.State.Migration.{load-migrates}
use rc_node.Examples.Data.{copies}

abbrev pub text_of : Json → String
text_of (text v) = v
text_of _ = ""

abbrev pub Storable : Dict String Json → Type 0
Storable [] = Unit
Storable ((k, v) ∷ []) = (k ≡ "psk") × (v ≡ text (text_of v))
Storable (x ∷ y ∷ o) = ⊥

pub seal : Dict String Json → String
seal [] = "e"
seal ((k, v) ∷ o) = String.◌∷◌ "v" (String.◌∷◌ "v" (text_of v))

pub unseal : String → Option (Dict String Json)
unseal String.[] = none
unseal (String.◌∷◌ c String.[]) = some []
unseal (String.◌∷◌ c (String.◌∷◌ d v)) = some (("psk", text v) ∷ [])

abbrev pub cipher : Cipher
cipher = record {
  encrypt_json = λ key nonce o aad. seal o;
  decrypt_json = λ key blob aad. unseal blob;
}

unseal-seal : (o : Dict String Json) → Storable o → unseal (seal o) ≡ some o
unfolding seal unseal
unseal-seal [] p = refl
unseal-seal ((k, v) ∷ []) (p, q) = cc
unseal-seal (x ∷ y ∷ o) p = elim p [ ]

starts : String → Bool
starts String.[] = false
starts (String.◌∷◌ c s) = true

seal-starts : (o : Dict String Json) → starts (seal o) ≡ true
unfolding seal starts
seal-starts [] = refl
seal-starts (x ∷ o) = refl

seal_full : (o : Dict String Json) → seal o ≢ ""
unfolding starts
seal_full o e = let apart : false ≡ true = rw e at (seal-starts o) in cc (apart)

pub seals : Seals cipher Storable
seals = record {
  opens = λ key nonce o aad p. unseal-seal o p;
  nonempty = λ key nonce o aad. seal_full o;
  no_settings = tt;
}

abbrev pub py : Coercions
py = record { other_str = λ v. ""; other_dict = λ v. err type_error }

abbrev pub fresh : NodeCoreStateStore
fresh = record { key = copies 32 3; file = missing }

abbrev script : List Call
script =
    saves true (λ c. []) "xray" "running" true (some (("psk", text "s3cret") ∷ []))
    ∷ saves true (λ c. []) "ssh" "stopped" false none
    ∷ loads false (λ c. [])
    ∷ removes true (λ c. []) "ssh"
    ∷ saves false (λ c. []) "xray" "failed" true none
    ∷ saves true (λ c. []) "xray" "stopped" false none
    ∷ []

pub nothing : Represents cipher py Storable seals fresh (λ core_id. none)
unfolding read
nothing = record { value = []; reads = refl; unique = tt; storable = tt; agrees = λ core_id. refl }

calls_refine_example :
    AreOutcomes cipher py Storable seals script (calls cipher py Storable seals script fresh).0
    × ((value : Dict String CoreRecord) × ((load cipher py
            (λ c. [])
            true
            (calls cipher py Storable seals script fresh).1).0
          ≡ ok value)
        × ((core_id : String) → lookup core_id value ≡ promises script (λ k. none) core_id))
calls_refine_example =
    calls_refine cipher py Storable seals script (λ c. []) fresh (λ k. none)
      ((refl, refl), (tt, (tt, (tt, (tt, (tt, tt)))))) nothing

-- A file from before the sealing.
abbrev old : NodeCoreStateStore
old = record {
  key = copies 32 3;
  file = content (
      object (
        of_entries (
          (
            "xray",
            object
                (of_entries (("settings", object (of_entries (("psk", text "s3cret") ∷ []))) ∷ [])),
          )
          ∷ [])));
}

abbrev told : Dict String CoreRecord
told =
    (
      "xray",
      record { state = text "installed"; enabled = true; settings = ("psk", text "s3cret") ∷ [] },
    )
    ∷ []

reads_old : read cipher py old ≡ ok told
unfolding read read_entries read_record stored_settings string_eq truthy
reads_old = refl

load-migrates_example :
    let (answer, s') = load cipher py (λ c. []) true old in
    ((answer ≡ ok told) × (needs_migration s'.file ≡ false) × (read cipher py s' ≡ ok told))
    ⊎ ((true ≡ false) × (needs_migration old.file ≡ true) × (answer ≡ err os_error) × (s' ≡ old))
load-migrates_example =
    load-migrates cipher py Storable (λ c. []) true told old seals reads_old ((refl, refl), tt)
