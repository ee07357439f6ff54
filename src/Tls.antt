-- ===== src/Tls.antt =====
-- node_agent/tls.py: the certificate of the node. The libraries `cryptography` and `ipaddress` are
-- parameters; a function gives the file operations that it does, in order, so that a run may also
-- end between two of them. Texts are in ASCII.
pub mod Files
pub mod Restart
use rc_node.Base.{
  ◌+◌, String, Bool, false, ◌||◌, Option, none, some, List, [], ◌∷◌, ◌++◌, map, if◌then◌else◌, ◌==◌,
  string_eq, nat_eq, Result, ok, err, value_error,
}
use Prim.Native.Char.{Char, code}
use rc_node.Base.Int.{ℤ}
use rc_node.Base.Dict.{Dict, lookup, insert, erase, has_key}
use rc_node.Base.Text.{is_nonempty}
use rc_node.Base.Text.Trim.{strip}
use rc_node.Config.{NodeConfig}

pub record NodeCertificate : Type 0 where
  pub cert_path : String
  pub key_path : String
  pub fingerprint : String
  pub not_after : String
  pub sans : List String

pub data GeneralName : Type 0 where
  dns_name ip_address other_name : String → GeneralName

-- The libraries, on certificates `C` and fresh keys `K`. `names_of` is `none` where the extension is
-- missing, `load_pem` where the text is no certificate, `ip_of` where `ipaddress.ip_address` raises.
pub record X509 (C K : Type 0) : Type 0 where
  pub load_pem : String → Option C
  pub cert_pem : C → String
  pub key_pem : K → String
  pub sign : K → ℤ → List GeneralName → C
  pub fingerprint_of : C → String
  pub not_after_of : C → String
  pub names_of : C → Option (List GeneralName)
  pub ip_of : String → Option String
  pub is_dns : String → Bool  -- x509.DNSName takes the text
  pub with_suffix : String → String → String

-- The files by their paths, and what the module does to them. Modes are left out.
pub data Operation : Type 0 where
  writes : String → String → Operation
  replaces : String → String → Operation

abbrev pub Files : Type 0
Files = Dict String String

unfoldable pub run : Operation → Files → Files
run (writes path content) files = insert path content files
run (replaces part path) files = elim (lookup part files) [
  | none ↦ files
  | some content ↦ insert path content (erase part files)
]

unfoldable pub run_all : List Operation → Files → Files
unfolding run
run_all [] files = files
run_all (o ∷ os) files = run_all os (run o files)

-- `value.split(",")`
unfoldable pub prepend : Char → List String → List String
prepend c [] = String.◌∷◌ c String.[] ∷ []
prepend c (part ∷ parts) = String.◌∷◌ c part ∷ parts

unfoldable pub split_commas : String → List String
unfolding prepend
split_commas String.[] = String.[] ∷ []
split_commas (String.◌∷◌ c s) =
    let parts = split_commas s in if code c == 44 then String.[] ∷ parts else prepend c parts

-- `[part.strip() for part in parts if part.strip()]`
unfoldable pub stripped : List String → List String
stripped [] = []
stripped (part ∷ parts) =
    let rest = stripped parts in if is_nonempty (strip part) then strip part ∷ rest else rest

-- The names that `ensure` gives to `generate`.
unfoldable pub names_for : NodeConfig → Option String → List String
unfolding split_commas stripped
names_for config detected =
    (if is_nonempty config.name then config.name ∷ [] else [])
    ++ (stripped (split_commas config.address)
        ++ elim detected [ none ↦ [] | some ip ↦ if is_nonempty ip then ip ∷ [] else [] ])

unfoldable pub same_name : GeneralName → GeneralName → Bool
same_name (dns_name a) (dns_name b) = a == b
same_name (ip_address a) (ip_address b) = a == b
same_name (other_name a) (other_name b) = a == b
same_name _ _ = false

unfoldable pub is_among : GeneralName → List GeneralName → Bool
unfolding same_name
is_among entry [] = false
is_among entry (x ∷ xs) = same_name entry x || is_among entry xs

-- `str(entry.value)`
abbrev pub text_of : GeneralName → String
text_of (dns_name v) = v
text_of (ip_address v) = v
text_of (other_name v) = v

module _ {C K : Type 0} (x509 : X509 C K) where
  -- One pass of `_san_entries`, on a text that is not empty
  unfoldable pub entry_of : String → Result GeneralName
  entry_of value = elim (x509.ip_of value) [
    | some ip ↦ ok (ip_address ip)
    | none ↦ if x509.is_dns value then ok (dns_name value) else err (value_error "DNSName")
  ]

  abbrev pub cons_ok : Result GeneralName → Result (List GeneralName) → Result (List GeneralName)
  cons_ok (err e) rest = err e
  cons_ok (ok entry) (err e) = err e
  cons_ok (ok entry) (ok entries) = ok (entry ∷ entries)

  -- `_san_entries`
  unfoldable pub san_entries : List String → Result (List GeneralName)
  unfolding entry_of
  san_entries [] = ok []
  san_entries (raw ∷ names) =
      let rest = san_entries names in
      if is_nonempty (strip raw) then cons_ok (entry_of (strip raw)) rest else rest

  abbrev pub insert_first : List GeneralName → List GeneralName → List GeneralName
  insert_first [] sans = sans
  insert_first (entry ∷ entries) sans = if is_among entry sans then sans else entry ∷ sans

  -- The loop over the guaranteed names.
  unfoldable pub add_guaranteed : List String → List GeneralName → Result (List GeneralName)
  unfolding is_among san_entries
  add_guaranteed [] sans = ok sans
  add_guaranteed (guaranteed ∷ names) sans = elim (san_entries (guaranteed ∷ [])) [
    | err e ↦ err e
    | ok entries ↦ add_guaranteed names (insert_first entries sans)
  ]

  abbrev pub guaranteed_names : List String
  guaranteed_names = "localhost" ∷ "127.0.0.1" ∷ "::1" ∷ []

  -- The subject alternative names of a new certificate.
  unfoldable pub sans_for : List String → Result (List GeneralName)
  unfolding san_entries add_guaranteed
  sans_for names = elim (san_entries names) [
    | err e ↦ err e
    | ok sans ↦ add_guaranteed guaranteed_names sans
  ]

  -- The writes of `generate`, the key first.
  unfoldable pub pair_writes : String → String → K → C → List Operation
  pair_writes cert_path key_path key cert =
      let key_part = x509.with_suffix key_path ".key.part" in
      let cert_part = x509.with_suffix cert_path ".crt.part" in
      writes key_part (x509.key_pem key)
      ∷ replaces key_part key_path
      ∷ writes cert_part (x509.cert_pem cert)
      ∷ replaces cert_part cert_path
      ∷ []

  -- `generate`, with a fresh key
  unfoldable pub generate :
      K → ℤ → String → String → List String → Result NodeCertificate × List Operation
  unfolding sans_for pair_writes
  generate key now cert_path key_path names = elim (sans_for names) [
    | err e ↦ (err e, [])
    | ok sans ↦
        let cert = x509.sign key now sans in
        (
          ok (record {
            cert_path = cert_path;
            key_path = key_path;
            fingerprint = x509.fingerprint_of cert;
            not_after = x509.not_after_of cert;
            sans = map text_of sans;
          }),
          pair_writes cert_path key_path key cert,
        )
  ]

  -- `_describe_sans`
  unfoldable pub describe_sans : C → List String
  describe_sans cert = elim (x509.names_of cert) [ none ↦ [] | some entries ↦ map text_of entries ]

  -- What `ensure` makes of a certificate file.
  unfoldable pub described : NodeConfig → String → Result NodeCertificate
  unfolding describe_sans
  described config pem = elim (x509.load_pem pem) [
    | none ↦ err (value_error "Unable to load PEM file")
    | some cert ↦ ok (record {
      cert_path = config.tls_cert;
      key_path = config.tls_key;
      fingerprint = x509.fingerprint_of cert;
      not_after = x509.not_after_of cert;
      sans = describe_sans cert;
    })
  ]

  -- `ensure`. `detected` is what `detect_primary_ip` gives.
  unfoldable pub ensure :
      K → ℤ → Option String → NodeConfig → Files → Result NodeCertificate × List Operation
  unfolding generate described
  ensure key now detected config files = elim (lookup config.tls_cert files) [
    | none ↦ generate key now config.tls_cert config.tls_key (names_for config detected)
    | some pem ↦
        if has_key config.tls_key files
        then (described config pem, [])
        else generate key now config.tls_cert config.tls_key (names_for config detected)
  ]
