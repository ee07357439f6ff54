-- ===== src/Tls/Files.antt =====
-- What the writes of a certificate pair leave, whole or cut short.
use rc_node.Base.{
  ℕ, zero, suc, ◌≤◌, ◌<◌, String, ◌≡◌, refl, ◌≢◌, none, some, arith, if◌then◌else◌, ◌==◌, string_eq,
  nat_eq, take,
}
use rc_node.Base.Dict.{lookup, insert, erase, lookup-insert, lookup-erase}
use rc_node.Tls.{X509, Files, writes, replaces, run, run_all, pair_writes}

-- A file is written beside its place and then put there.
stored :
    (part path content j : String) (files : Files)
    → lookup j (run (replaces part path) (run (writes part content) files))
      ≡ (if j == path then some content else if j == part then none else lookup j files)
unfolding run
stored part path content j files = ground (
  arith,
  lookup-insert part part content files,
  lookup-insert j path content (erase part (insert part content files)),
  lookup-erase j part (insert part content files),
  lookup-insert j part content files,
)

written :
    (part content j : String) (files : Files)
    → lookup j (run (writes part content) files)
      ≡ (if j == part then some content else lookup j files)
unfolding run
written part content j files = lookup-insert j part content files

module _ {C K : Type 0} (x509 : X509 C K) (cert_path key_path : String) where
  abbrev key_part : String
  key_part = x509.with_suffix key_path ".key.part"

  abbrev cert_part : String
  cert_part = x509.with_suffix cert_path ".crt.part"

  -- The four files are different ones.
  pub record IsApart : Type 0 where
    pub cert_key : cert_path ≢ key_path
    pub cert_key_part : cert_path ≢ key_part
    pub cert_cert_part : cert_path ≢ cert_part
    pub key_key_part : key_path ≢ key_part
    pub key_cert_part : key_path ≢ cert_part

  module _ (apart : IsApart) (key : K) (cert : C) (files : Files) where
    abbrev first : Files
    first = run (replaces key_part key_path) (run (writes key_part (x509.key_pem key)) files)

    -- Both files, when all writes are done.
    pub pair_writes-stored :
        let files' = run_all (pair_writes x509 cert_path key_path key cert) files in
        (lookup cert_path files' ≡ some (x509.cert_pem cert))
        × (lookup key_path files' ≡ some (x509.key_pem key))
    unfolding run_all pair_writes
    pair_writes-stored =
        let h = apart in
        ground (
          arith,
          stored cert_part cert_path (x509.cert_pem cert) cert_path first,
          stored cert_part cert_path (x509.cert_pem cert) key_path first,
          stored key_part key_path (x509.key_pem key) key_path files,
          h.cert_key,
          h.key_cert_part,
        )

    -- Where the writes are cut short, the certificate is still the one from before.
    pub pair_writes-cut :
        (n : ℕ)
        → n < 4
        → lookup cert_path (run_all (take n (pair_writes x509 cert_path key_path key cert)) files)
          ≡ lookup cert_path files
    unfolding run_all pair_writes
    pair_writes-cut zero h = refl
    pair_writes-cut (suc zero) h =
        let p = apart.cert_key_part in
        ground (arith, written key_part (x509.key_pem key) cert_path files)
    pair_writes-cut (suc (suc zero)) h =
        let p = apart.cert_key_part in
        let q = apart.cert_key in
        ground (arith, stored key_part key_path (x509.key_pem key) cert_path files)
    pair_writes-cut (suc (suc (suc zero))) h =
        let p = apart.cert_key_part in
        let q = apart.cert_key in
        let r = apart.cert_cert_part in
        ground (
          arith,
          written cert_part (x509.cert_pem cert) cert_path first,
          stored key_part key_path (x509.key_pem key) cert_path files,
        )
    pair_writes-cut (suc (suc (suc (suc n)))) h = absurd (omega arith)

    pub pair_writes-whole :
        (n : ℕ)
        → 4 ≤ n
        → take n (pair_writes x509 cert_path key_path key cert)
          ≡ pair_writes x509 cert_path key_path key cert
    unfolding pair_writes
    pair_writes-whole (suc (suc (suc (suc zero)))) h = refl
    pair_writes-whole (suc (suc (suc (suc (suc n))))) h = refl
    pair_writes-whole zero h = absurd (omega arith)
    pair_writes-whole (suc zero) h = absurd (omega arith)
    pair_writes-whole (suc (suc zero)) h = absurd (omega arith)
    pair_writes-whole (suc (suc (suc zero))) h = absurd (omega arith)
