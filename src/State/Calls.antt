-- ===== src/State/Calls.antt =====
-- One call of the store, against a map from cores to what was saved of them.
use rc_node.Base.{
  String, ◌≡◌, refl, Bool, true, Option, none, some, arith, if◌then◌else◌, ◌==◌, string_eq, nat_eq,
  Result, ok, err, Error, os_error, ◌>>=◌, pure, Exec, ◌⊎◌, inl, inr, false, Bool-cases,
}
use rc_node.State.Sealing.{
  Seals, Cores, kept_settings, AllStorable, Represents, write-Represents, lookup-storable,
  insert-storable, erase-storable, save_state-write, remove-write, load-Represents,
}
use rc_node.State.{
  chosen_settings, load, remove, save_state, NodeCoreStateStore, CoreRecord, write, needs_migration,
}
use rc_node.Base.Dict.{
  lookup-erase, erase-NodupKeys, lookup-insert, insert-NodupKeys, insert, erase, lookup, Dict,
}
use rc_node.Base.Json.{Json, Coercions}
use rc_node.Base.Json.Json.{text}
use rc_node.Security.Cipher.{Cipher}
use rc_node.Security.Signature.{Bytes}

-- A call of the store. The flag says whether the file system takes its write, if it makes one.
pub data Call : Type 0 where
  saves : Bool → (String → Bytes) → String → String → Bool → Option (Dict String Json) → Call
  removes : Bool → (String → Bytes) → String → Call
  loads : Bool → (String → Bytes) → Call

abbrev pub settings_or : Option (Dict String Json) → Dict String Json → Dict String Json
settings_or none old = old
settings_or (some settings) old = settings

unfoldable pub promise : Call → Cores → Cores
promise (saves false nonces core_id state enabled settings) m k = m k
promise (saves true nonces core_id state enabled settings) m k =
    if k == core_id
    then some (record {
      state = text state;
      enabled = enabled;
      settings = settings_or settings (kept_settings (m core_id));
    })
    else m k
promise (removes false nonces core_id) m k = m k
promise (removes true nonces core_id) m k = if k == core_id then none else m k
promise (loads writable nonces) m k = m k

module _ (cipher : Cipher) (py : Coercions) (Storable : Dict String Json → Type 0)
    (lawful : Seals cipher Storable) where
  unfoldable pub call : Call → Exec NodeCoreStateStore Unit
  call (saves writable nonces core_id state enabled settings) =
      save_state cipher py nonces writable core_id state enabled settings
  call (removes writable nonces core_id) = remove cipher py nonces writable core_id
  call (loads writable nonces) = load cipher py nonces writable >>= λ _. pure tt

  -- A save and a removal raise exactly where their write fails. So does a load, which may have
  -- nothing to write.
  abbrev pub IsOutcome : Call → Result (Unit {0}) → Type 0
  IsOutcome (saves true nonces core_id state enabled settings) r = r ≡ ok tt
  IsOutcome (saves false nonces core_id state enabled settings) r = r ≡ err os_error
  IsOutcome (removes true nonces core_id) r = r ≡ ok tt
  IsOutcome (removes false nonces core_id) r = r ≡ err os_error
  IsOutcome (loads true nonces) r = r ≡ ok tt
  IsOutcome (loads false nonces) r = (r ≡ ok tt) ⊎ (r ≡ err os_error)

  -- The settings that a call brings are of the kind that decrypts.
  abbrev pub IsAdmissible : Call → Type 0
  IsAdmissible (saves writable nonces core_id state enabled none) = Unit
  IsAdmissible (saves writable nonces core_id state enabled (some settings)) = Storable settings
  IsAdmissible (removes writable nonces core_id) = Unit
  IsAdmissible (loads writable nonces) = Unit

  saved-storable :
      (nonces : String → Bytes) (core_id state : String) (enabled : Bool)
      (settings : Option (Dict String Json)) (value : Dict String CoreRecord)
      → IsAdmissible (saves true nonces core_id state enabled settings)
      → AllStorable cipher py Storable lawful value
      → Storable (chosen_settings cipher py settings core_id value)
  saved-storable nonces core_id state enabled none value p h =
      ground (arith, lookup-storable cipher py Storable lawful core_id value h)
  saved-storable nonces core_id state enabled (some settings) value p h = p

  saved_agrees :
      (nonces : String → Bytes) (core_id state : String) (enabled : Bool)
      (settings : Option (Dict String Json)) (s : NodeCoreStateStore) (m : Cores)
      (r : Represents cipher py Storable lawful s m) (k : String)
      → lookup k (
          insert core_id
            (record {
              state = text state;
              enabled = enabled;
              settings = chosen_settings cipher py settings core_id r.value;
            })
            r.value)
        ≡ promise (saves true nonces core_id state enabled settings) m k
  unfolding promise
  saved_agrees nonces core_id state enabled none s m r k = ground (
    arith,
    lookup-insert k core_id
        (record {
          state = text state;
          enabled = enabled;
          settings = chosen_settings cipher py none core_id r.value;
        })
        r.value,
    r.agrees k,
    r.agrees core_id,
  )
  saved_agrees nonces core_id state enabled (some settings) s m r k = ground (
    arith,
    lookup-insert k core_id (record { state = text state; enabled = enabled; settings = settings })
        r.value,
    r.agrees k,
  )

  removed_agrees :
      (nonces : String → Bytes) (core_id : String) (s : NodeCoreStateStore) (m : Cores)
      (r : Represents cipher py Storable lawful s m) (k : String)
      → lookup k (erase core_id r.value) ≡ promise (removes true nonces core_id) m k
  unfolding promise
  removed_agrees nonces core_id s m r k = ground (arith, lookup-erase k core_id r.value, r.agrees k)

  -- What a call comes to.
  abbrev pub Answers :
      Call → NodeCoreStateStore → Cores → Result (Unit {0}) × NodeCoreStateStore → Type 0
  Answers c s m (r, s') = IsOutcome c r × Represents cipher py Storable lawful s' (promise c m)

  call-loads :
      (nonces : String → Bytes) (writable : Bool) (s s' : NodeCoreStateStore)
      (value : Dict String CoreRecord)
      → load cipher py nonces writable s ≡ (ok value, s')
      → call (loads writable nonces) s ≡ (ok tt, s')
  unfolding call
  call-loads nonces writable s s' value e = ground arith

  call-loads_failed :
      (nonces : String → Bytes) (writable : Bool) (s s' : NodeCoreStateStore) (x : Error)
      → load cipher py nonces writable s ≡ (err x, s')
      → call (loads writable nonces) s ≡ (err x, s')
  unfolding call
  call-loads_failed nonces writable s s' x e = ground arith

  load-unwritten :
      (nonces : String → Bytes) (s : NodeCoreStateStore) (m : Cores)
      (r : Represents cipher py Storable lawful s m)
      → (load cipher py nonces false s ≡ (ok r.value, s))
        ⊎ (load cipher py nonces false s ≡ (err os_error, s))
  unfolding load write
  load-unwritten nonces s m r =
      let reads = r.reads in
      elim (Bool-cases (needs_migration s.file)) [
        | inl migrates ↦ inr (ground arith)
        | inr clean ↦ inl (ground arith)
      ]

  loads-Answers :
      (nonces : String → Bytes) (s : NodeCoreStateStore) (m : Cores)
      → Represents cipher py Storable lawful s m
      → Answers (loads true nonces) s m (call (loads true nonces) s)
  unfolding promise
  loads-Answers nonces s m r =
      let (s', e, r') = load-Represents cipher py Storable lawful nonces s m r in
      rw (call-loads nonces true s s' r.value e) (refl, r')

  loads-unwritten :
      (nonces : String → Bytes) (s : NodeCoreStateStore) (m : Cores)
      → Represents cipher py Storable lawful s m
      → Answers (loads false nonces) s m (call (loads false nonces) s)
  unfolding promise
  loads-unwritten nonces s m r = elim (load-unwritten nonces s m r) [
    | inl e ↦ rw (call-loads nonces false s s r.value e) (inl refl, r)
    | inr e ↦ rw (call-loads_failed nonces false s s os_error e) (inr refl, r)
  ]

  save_state-unwritten :
      (nonces : String → Bytes) (core_id state : String) (enabled : Bool)
      (settings : Option (Dict String Json)) (s : NodeCoreStateStore) (m : Cores)
      → Represents cipher py Storable lawful s m
      → save_state cipher py nonces false core_id state enabled settings s ≡ (err os_error, s)
  unfolding save_state write
  save_state-unwritten nonces core_id state enabled settings s m r =
      let reads = r.reads in rw (reads, save_state, write) refl

  remove-unwritten :
      (nonces : String → Bytes) (core_id : String) (s : NodeCoreStateStore) (m : Cores)
      → Represents cipher py Storable lawful s m
      → remove cipher py nonces false core_id s ≡ (err os_error, s)
  unfolding remove write
  remove-unwritten nonces core_id s m r = let reads = r.reads in rw (reads, remove, write) refl

  pub call-Answers :
      (c : Call) (s : NodeCoreStateStore) (m : Cores)
      → IsAdmissible c
      → Represents cipher py Storable lawful s m
      → Answers c s m (call c s)
  unfolding call promise
  call-Answers (saves true nonces core_id state enabled settings) s m p r =
      rw
        (save_state-write cipher py Storable lawful nonces core_id state enabled settings s r.value
          r.reads)
        (write-Represents cipher py Storable lawful nonces
          (insert core_id
            (record {
              state = text state;
              enabled = enabled;
              settings = chosen_settings cipher py settings core_id r.value;
            })
            r.value)
          s (promise (saves true nonces core_id state enabled settings) m)
          (insert-NodupKeys core_id _ r.value r.unique)
          (insert-storable cipher py Storable lawful core_id _ r.value
            (saved-storable nonces core_id state enabled settings r.value p r.storable) r.storable)
          (saved_agrees nonces core_id state enabled settings s m r))
  call-Answers (saves false nonces core_id state enabled settings) s m p r =
      rw (save_state-unwritten nonces core_id state enabled settings s m r) (refl, r)
  call-Answers (removes true nonces core_id) s m p r =
      rw (remove-write cipher py Storable lawful nonces core_id s r.value r.reads) (
        write-Represents cipher py Storable lawful nonces (erase core_id r.value) s
          (promise (removes true nonces core_id) m) (erase-NodupKeys core_id r.value r.unique)
          (erase-storable cipher py Storable lawful core_id r.value r.storable)
          (removed_agrees nonces core_id s m r))
  call-Answers (removes false nonces core_id) s m p r =
      rw (remove-unwritten nonces core_id s m r) (refl, r)
  call-Answers (loads true nonces) s m p r = loads-Answers nonces s m r
  call-Answers (loads false nonces) s m p r = loads-unwritten nonces s m r

  -- One save, from a file that says what the map says.
  pub save_state-Represents :
      (nonces : String → Bytes) (core_id state : String) (enabled : Bool)
      (settings : Dict String Json) (s : NodeCoreStateStore) (m : Cores)
      → Storable settings
      → Represents cipher py Storable lawful s m
      → let (answer, s') =
          save_state cipher py nonces true core_id state enabled (some settings) s in
        (answer ≡ ok tt)
        × Represents cipher py Storable lawful s'
            (promise (saves true nonces core_id state enabled (some settings)) m)
  unfolding call
  save_state-Represents nonces core_id state enabled settings s m p r =
      call-Answers (saves true nonces core_id state enabled (some settings)) s m p r
