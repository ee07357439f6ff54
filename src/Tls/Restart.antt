-- ===== src/Tls/Restart.antt =====
-- The certificate of a node over its starts.
use rc_node.Tls.{
  Operation, run_all, pair_writes, ensure, X509, NodeCertificate, GeneralName, Files, names_for,
  sans_for, generate, described, describe_sans, text_of,
}
use rc_node.Base.{
  ℕ, String, ◌≡◌, refl, ap, ◌∙◌, ◌⊎◌, inl, inr, Option, none, some, List, [], map, arith, ltb,
  Bool-cases, string_eq, nat_eq, take, Result, ok,
}
use rc_node.Tls.Files.{IsApart, pair_writes-stored, pair_writes-cut, pair_writes-whole}
use rc_node.Base.Int.{ℤ}
use rc_node.Base.Dict.{lookup}
use rc_node.Config.{NodeConfig}

module _ {C K : Type 0} (x509 : X509 C K) where
  -- A certificate is read as it was written, with the names that it was signed with.
  pub record IsFaithful : Type 0 where
    pub opens : (cert : C) → x509.load_pem (x509.cert_pem cert) ≡ some cert
    pub names :
        (key : K) (now : ℤ) (sans : List GeneralName)
        → x509.names_of (x509.sign key now sans) ≡ some sans

  abbrev pub certificate : NodeConfig → K → ℤ → List GeneralName → NodeCertificate
  certificate config key now sans = record {
    cert_path = config.tls_cert;
    key_path = config.tls_key;
    fingerprint = x509.fingerprint_of (x509.sign key now sans);
    not_after = x509.not_after_of (x509.sign key now sans);
    sans = map text_of sans;
  }

  -- The files are those of this key and its certificate.
  abbrev pub IsPair : NodeConfig → Files → K → ℤ → List GeneralName → Type 0
  IsPair config files key now sans =
      (lookup config.tls_cert files ≡ some (x509.cert_pem (x509.sign key now sans)))
      × (lookup config.tls_key files ≡ some (x509.key_pem key))

  ensure-new :
      (key : K) (now : ℤ) (detected : Option String) (config : NodeConfig) (files : Files)
      (sans : List GeneralName)
      → lookup config.tls_cert files ≡ none
      → sans_for x509 (names_for config detected) ≡ ok sans
      → ensure x509 key now detected config files ≡ (
        ok (certificate config key now sans),
        pair_writes x509 config.tls_cert config.tls_key key (x509.sign key now sans),
      )
  unfolding ensure generate
  ensure-new key now detected config files sans missing read =
      rw (missing, read, ensure, generate) refl

  ensure-old :
      (key key' : K) (now now' : ℤ) (detected : Option String) (config : NodeConfig) (files : Files)
      (sans : List GeneralName)
      → IsFaithful
      → IsPair config files key now sans
      → ensure x509 key' now' detected config files ≡ (ok (certificate config key now sans), [])
  unfolding ensure described describe_sans
  ensure-old key key' now now' detected config files sans h (c, k) =
      let opened = h.opens (x509.sign key now sans) in
      let named = h.names key now sans in ground arith

  module _ (config : NodeConfig) (h : IsFaithful)
      (apart : IsApart x509 config.tls_cert config.tls_key) where
    -- The first start is over after some of its file operations.
    first_start : ℕ → K → ℤ → Option String → Files → Files
    first_start n key now detected files =
        run_all (take n (ensure x509 key now detected config files).1) files

    -- Such a start has left no certificate, or a whole pair.
    first_start-cases :
        (n : ℕ) (key : K) (now : ℤ) (detected : Option String) (files : Files)
        (sans : List GeneralName)
        → lookup config.tls_cert files ≡ none
        → sans_for x509 (names_for config detected) ≡ ok sans
        → (lookup config.tls_cert (first_start n key now detected files) ≡ none)
          ⊎ IsPair config (first_start n key now detected files) key now sans
    unfolding first_start
    first_start-cases n key now detected files sans missing read =
        let cert = x509.sign key now sans in
        let e =
          ap (λ (r : Result NodeCertificate × List Operation). run_all (take n r.1) files)
            (ensure-new key now detected config files sans missing read) in
        elim (Bool-cases (ltb n 4)) [
          | inl cut ↦ inl (
              ap (λ (f : Files). lookup config.tls_cert f) e
              ∙ pair_writes-cut x509 config.tls_cert config.tls_key apart key cert files n
                  (ground arith)
              ∙ missing)
          | inr whole ↦
              let all =
                e
                ∙ ap (λ (o : List Operation). run_all o files)
                    (pair_writes-whole x509 config.tls_cert config.tls_key apart key cert files n
                      (ground arith)) in
              let (c, k) =
                pair_writes-stored x509 config.tls_cert config.tls_key apart key cert files in
              inr (
                ap (λ (f : Files). lookup config.tls_cert f) all ∙ c,
                ap (λ (f : Files). lookup config.tls_key f) all ∙ k,
              )
        ]

    -- A start that runs to its end on what the first one left.
    second_start :
        (key key' : K) (now now' : ℤ) (detected : Option String) (files : Files)
        (sans sans' : List GeneralName)
        → sans_for x509 (names_for config detected) ≡ ok sans'
        → (lookup config.tls_cert files ≡ none) ⊎ IsPair config files key now sans
        → let r = ensure x509 key' now' detected config files in
          (k : K) × (t : ℤ) × (names : List GeneralName) × (r.0 ≡ ok (certificate config k t names))
          × IsPair config (run_all r.1 files) k t names
    unfolding run_all
    second_start key key' now now' detected files sans sans' read (inl missing) =
        let e = ensure-new key' now' detected config files sans' missing read in
        (
          key',
          now',
          sans',
          ap (λ (r : Result NodeCertificate × List Operation). r.0) e,
          rw e (
              pair_writes-stored x509 config.tls_cert config.tls_key apart key'
                (x509.sign key' now' sans') files),
        )
    second_start key key' now now' detected files sans sans' read (inr pair) =
        let e = ensure-old key key' now now' detected config files sans h pair in
        (key, now, sans, ap (λ (r : Result NodeCertificate × List Operation). r.0) e, rw e pair)

  -- What the panel pins stays, and it belongs to the key that the node serves. On a node without a
  -- certificate, let the process die after any number of the file operations of its first start. The
  -- second start gives a certificate, and then the certificate file and the key file are those of
  -- one key. Each later start gives the same certificate and touches no file. This is for names that
  -- become subject alternative names, four paths that differ, and a library that reads what it wrote.
  pub ensure-restart :
      (config : NodeConfig) (files : Files) (n : ℕ) (key key' key'' : K) (now now' now'' : ℤ)
      (detected detected' detected'' : Option String) (sans sans' : List GeneralName)
      → IsFaithful
      → IsApart x509 config.tls_cert config.tls_key
      → lookup config.tls_cert files ≡ none
      → sans_for x509 (names_for config detected) ≡ ok sans
      → sans_for x509 (names_for config detected') ≡ ok sans'
      → let left = run_all (take n (ensure x509 key now detected config files).1) files in
        let (answer, operations) = ensure x509 key' now' detected' config left in
        let files' = run_all operations left in
        (k : K) × (t : ℤ) × (names : List GeneralName) × (answer
          ≡ ok (certificate config k t names))
        × IsPair config files' k t names
        × (ensure x509 key'' now'' detected'' config files' ≡ (answer, []))
  unfolding first_start
  ensure-restart config files n key key' key'' now now' now'' detected detected' detected'' sans
        sans' h apart missing read read' =
      let left = run_all (take n (ensure x509 key now detected config files).1) files in
      let (k, t, names, answered, pair) =
        second_start config h apart key key' now now' detected' left sans sans' read'
          (first_start-cases config h apart n key now detected files sans missing read) in
      (
        k,
        t,
        names,
        answered,
        pair,
        rw answered (
            ensure-old k key'' t now'' detected'' config
              (run_all (ensure x509 key' now' detected' config left).1 left) names h pair),
      )
