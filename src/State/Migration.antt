-- ===== src/State/Migration.antt =====
-- Settings from before the sealing leave the disk at the first load.
use rc_node.Base.{
  String, ◌≡◌, refl, inl, inr, true, false, [], ◌∷◌, arith, Bool-cases, string_eq, nat_eq, ok, any,
  err, os_error, ◌⊎◌, Bool,
}
use rc_node.Base.Dict.{Dict, values}
use rc_node.Base.Json.{Json, Coercions, entries-of_entries}
use rc_node.Security.Cipher.{Cipher}
use rc_node.Security.Signature.{Bytes}
use rc_node.State.{
  NodeCoreStateStore, CoreRecord, read, seal_entries, seal_record, write, load, needs_migration,
  is_plain,
}
use rc_node.State.Sealing.{Seals, AllStorable, read-write}

module _ (cipher : Cipher) (py : Coercions) where
  sealed_not_plain :
      (key nonce : Bytes) (core_id : String) (r : CoreRecord)
      → is_plain (seal_record cipher py key nonce core_id r) ≡ false
  unfolding is_plain seal_record string_eq
  sealed_not_plain key nonce core_id r = refl

  none_plain :
      (key : Bytes) (nonces : String → Bytes) (value : Dict String CoreRecord)
      → any is_plain (values (seal_entries cipher py key nonces value)) ≡ false
  unfolding seal_entries
  none_plain key nonces [] = refl
  none_plain key nonces ((core_id, r) ∷ value) =
      rw (sealed_not_plain key (nonces core_id) core_id r) (none_plain key nonces value)

  written_sealed :
      (nonces : String → Bytes) (value : Dict String CoreRecord) (s : NodeCoreStateStore)
      → needs_migration (write cipher py nonces true value s).1.file ≡ false
  unfolding needs_migration write
  written_sealed nonces value s =
      rw (entries-of_entries (seal_entries cipher py s.key nonces value))
        (none_plain s.key nonces value)

  load_migrating :
      (nonces : String → Bytes) (value : Dict String CoreRecord) (s : NodeCoreStateStore)
      → read cipher py s ≡ ok value
      → needs_migration s.file ≡ true
      → load cipher py nonces true s ≡ (ok value, (write cipher py nonces true value s).1)
  unfolding load write
  load_migrating nonces value s e n = ground arith

-- A load whose migration cannot be written.
load_unwritten :
    (cipher : Cipher) (py : Coercions) (nonces : String → Bytes) (value : Dict String CoreRecord)
    (s : NodeCoreStateStore)
    → read cipher py s ≡ ok value
    → needs_migration s.file ≡ true
    → load cipher py nonces false s ≡ (err os_error, s)
unfolding load write
load_unwritten cipher py nonces value s e n = ground arith

load_written :
    (cipher : Cipher) (py : Coercions) (nonces : String → Bytes) (writable : Bool)
    (value : Dict String CoreRecord) (s : NodeCoreStateStore)
    → read cipher py s ≡ ok value
    → needs_migration s.file ≡ false
    → load cipher py nonces writable s ≡ (ok value, s)
unfolding load
load_written cipher py nonces writable value s e n = rw (e, n, load) refl

-- A load of a file that can be read, with settings of the kind that decrypts, does one of two things.
-- It returns what the file says, leaves no core on disk whose settings are in the clear with no
-- sealed ones beside them, and does not change what the file says. Or the file has such a core and
-- the write that would seal it fails: then the load raises that error and the store is as it was.
pub load-migrates :
    (cipher : Cipher) (py : Coercions) (Storable : Dict String Json → Type 0)
    (nonces : String → Bytes) (writable : Bool) (value : Dict String CoreRecord)
    (s : NodeCoreStateStore) (lawful : Seals cipher Storable)
    → read cipher py s ≡ ok value
    → AllStorable cipher py Storable lawful value
    → let (answer, s') = load cipher py nonces writable s in
      ((answer ≡ ok value) × (needs_migration s'.file ≡ false) × (read cipher py s' ≡ ok value))
      ⊎ ((writable ≡ false) × (needs_migration s.file ≡ true) × (answer ≡ err os_error) × (s' ≡ s))
load-migrates cipher py Storable nonces writable value s lawful e h =
    elim (Bool-cases (needs_migration s.file)) [
      | inr clean ↦
          rw (load_written cipher py nonces writable value s e clean) (inl (refl, clean, e))
      | inl migrates ↦ elim (Bool-cases writable) [
        | inr fails ↦
            rw (fails, load_unwritten cipher py nonces value s e migrates)
              (inr (refl, migrates, refl, refl))
        | inl takes ↦
            rw (takes, load_migrating cipher py nonces value s e migrates)
              (inl (
                refl,
                written_sealed cipher py nonces value s,
                read-write cipher py Storable lawful nonces value s h,
              ))
      ]
    ]
