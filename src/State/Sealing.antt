-- ===== src/State/Sealing.antt =====
-- What is written to the file is read back from it.
use rc_node.Base.{
  String, ◌≡◌, refl, ◌≢◌, inl, inr, Bool, true, Option, none, some, [], ◌∷◌, arith, Bool-cases,
  string_eq, nat_eq, All, ok,
}
use rc_node.State.{
  needs_migration, chosen_settings, load, remove, save_state, seal_entries, read, write,
  NodeCoreStateStore, read_entries, CoreRecord, read_record, stored_settings, aad,
}
use rc_node.Base.Dict.{insert, erase, lookup, NodupKeys, values, Dict}
use rc_node.Base.Json.{entries-of_entries, Json, Coercions, of_entries, entries, truthy}
use rc_node.Base.Text.{is_nonempty, nonempty_iff}
use rc_node.Base.Json.Json.{text}
use rc_node.Security.Cipher.{Cipher}
use rc_node.Security.Signature.{Bytes}

-- What the store relies on: settings of the kind that callers save decrypt under the key and the
-- associated data that sealed them, and no ciphertext is empty.
pub record Seals (c : Cipher) (Storable : Dict String Json → Type 0) : Type 0 where
  pub opens :
      (key nonce : Bytes) (settings : Dict String Json) (aad : String)
      → Storable settings
      → c.decrypt_json key (c.encrypt_json key nonce settings aad) aad ≡ some settings
  pub nonempty :
      (key nonce : Bytes) (settings : Dict String Json) (aad : String)
      → c.encrypt_json key nonce settings aad ≢ ""
  pub no_settings : Storable []

-- What is promised: a map from cores to records.
abbrev pub Cores : Type 0
Cores = String → Option CoreRecord

abbrev pub kept_settings : Option CoreRecord → Dict String Json
kept_settings none = []
kept_settings (some r) = r.settings

module _ (cipher : Cipher) (py : Coercions) (Storable : Dict String Json → Type 0)
    (lawful : Seals cipher Storable) where
  read_record-seal_record :
      (key nonce : Bytes) (core_id : String) (r : CoreRecord)
      → Storable r.settings
      → read_record cipher py key core_id (
          entries (
            of_entries (
              ("state", r.state)
              ∷ ("enabled", Json.boolean r.enabled)
              ∷ ("settings_enc", text (cipher.encrypt_json key nonce r.settings (aad core_id)))
              ∷ [])))
        ≡ ok r
  unfolding read_record stored_settings truthy string_eq
  read_record-seal_record key nonce core_id r storable =
      let blob = cipher.encrypt_json key nonce r.settings (aad core_id) in
      let full : is_nonempty blob ≡ true =
        (nonempty_iff blob).1 (lawful.nonempty key nonce r.settings (aad core_id)) in
      let open' = lawful.opens key nonce r.settings (aad core_id) storable in ground arith

  abbrev pub AllStorable : Dict String CoreRecord → Type 0
  AllStorable value = All (λ (r : CoreRecord). Storable r.settings) (values value)

  read_entries-seal_entries :
      (key : Bytes) (nonces : String → Bytes) (value : Dict String CoreRecord)
      → AllStorable value
      → read_entries cipher py key (seal_entries cipher py key nonces value) ≡ ok value
  unfolding read_entries seal_entries
  read_entries-seal_entries key nonces [] h = refl
  read_entries-seal_entries key nonces ((core_id, r) ∷ value) (storable, h) =
      let one = read_record-seal_record key (nonces core_id) core_id r storable in
      let rest = read_entries-seal_entries key nonces value h in rw (one, rest) refl

  -- The file says of each core what the map says.
  pub record Represents (s : NodeCoreStateStore) (m : Cores) : Type 0 where
    pub value : Dict String CoreRecord
    pub reads : read cipher py s ≡ ok value
    pub unique : NodupKeys value
    pub storable : AllStorable value
    pub agrees : (core_id : String) → lookup core_id value ≡ m core_id

  -- What is written is read back.
  pub read-write :
      (nonces : String → Bytes) (value : Dict String CoreRecord) (s : NodeCoreStateStore)
      → AllStorable value
      → read cipher py (write cipher py nonces true value s).1 ≡ ok value
  unfolding write read
  read-write nonces value s h =
      rw (entries-of_entries (seal_entries cipher py s.key nonces value))
        (read_entries-seal_entries s.key nonces value h)

  pub write-Represents :
      (nonces : String → Bytes) (value : Dict String CoreRecord) (s : NodeCoreStateStore)
      (m : Cores)
      → NodupKeys value
      → AllStorable value
      → ((core_id : String) → lookup core_id value ≡ m core_id)
      → ((write cipher py nonces true value s).0 ≡ ok tt)
        × Represents (write cipher py nonces true value s).1 m
  unfolding write
  write-Represents nonces value s m u h a = (
    refl,
    record {
      value = value;
      reads = read-write nonces value s h;
      unique = u;
      storable = h;
      agrees = a;
    },
  )

  pub lookup-storable :
      (core_id : String) (value : Dict String CoreRecord)
      → AllStorable value
      → Storable (kept_settings (lookup core_id value))
  lookup-storable core_id [] h = lawful.no_settings
  lookup-storable core_id ((k, r) ∷ value) h = ground (arith, lookup-storable core_id value h.1)

  pub insert-storable :
      (core_id : String) (r : CoreRecord) (value : Dict String CoreRecord)
      → Storable r.settings
      → AllStorable value
      → AllStorable (insert core_id r value)
  insert-storable core_id r [] p h = (p, tt)
  insert-storable core_id r ((k, r') ∷ value) p h =
      ground (arith, insert-storable core_id r value p)

  pub erase-storable :
      (core_id : String) (value : Dict String CoreRecord)
      → AllStorable value
      → AllStorable (erase core_id value)
  erase-storable core_id [] h = tt
  erase-storable core_id ((k, r) ∷ value) h = ground (arith, erase-storable core_id value)

  pub save_state-write :
      (nonces : String → Bytes) (core_id state : String) (enabled : Bool)
      (settings : Option (Dict String Json)) (s : NodeCoreStateStore)
      (value : Dict String CoreRecord)
      → read cipher py s ≡ ok value
      → save_state cipher py nonces true core_id state enabled settings s
        ≡ write cipher py nonces true
            (insert core_id
              (record {
                state = text state;
                enabled = enabled;
                settings = chosen_settings cipher py settings core_id value;
              })
              value)
            s
  unfolding save_state
  save_state-write nonces core_id state enabled settings s value e = ground arith

  pub remove-write :
      (nonces : String → Bytes) (core_id : String) (s : NodeCoreStateStore)
      (value : Dict String CoreRecord)
      → read cipher py s ≡ ok value
      → remove cipher py nonces true core_id s ≡ write cipher py nonces true (erase core_id value) s
  unfolding remove
  remove-write nonces core_id s value e = ground arith

  pub load-Represents :
      (nonces : String → Bytes) (s : NodeCoreStateStore) (m : Cores) (r : Represents s m)
      → (s' : NodeCoreStateStore) × (load cipher py nonces true s ≡ (ok r.value, s'))
        × Represents s' m
  unfolding load
  load-Represents nonces s m r = elim (Bool-cases (needs_migration s.file)) [
    | inl migrates ↦
        let (done, r') = write-Represents nonces r.value s m r.unique r.storable r.agrees in
        let reads = r.reads in ((write cipher py nonces true r.value s).1, ground arith, r')
    | inr clean ↦ let reads = r.reads in (s, ground arith, r)
  ]
