-- ===== src/Examples/Tls.antt =====
-- A node whose first start is killed between its two files.
use rc_node.Examples.Data.{differ}
use rc_node.Tls.Restart.{IsPair, certificate, IsFaithful, ensure-restart}
use rc_node.Base.{
  refl, true, ap, String, [], Option, ◌≡◌, ◌==◌, if◌then◌else◌, some, List, none, take, false, ok,
  nat_eq, ◌∷◌, string_eq,
}
use rc_node.Base.Text.Trim.{strip}
use rc_node.Base.Int.{ℤ, pos}
use rc_node.Config.{NodeConfig}
use rc_node.Tls.{
  X509, GeneralName, dns_name, ip_address, other_name, sans_for, text_of, run_all, ensure,
  san_entries, entry_of, add_guaranteed, names_for, split_commas, prepend, stripped, is_among,
  same_name,
}
use rc_node.Tls.Files.{IsApart}
use Prim.Native.Char.{Char, code}

-- A text, each character after a dot.
dotted : String → String → String
dotted String.[] rest = rest
dotted (String.◌∷◌ c s) rest = String.◌∷◌ "." (String.◌∷◌ c (dotted s rest))

encoded : List GeneralName → String
unfolding dotted
encoded [] = String.[]
encoded (dns_name s ∷ xs) = String.◌∷◌ "d" (String.◌∷◌ "d" (dotted s (encoded xs)))
encoded (ip_address s ∷ xs) = String.◌∷◌ "i" (String.◌∷◌ "i" (dotted s (encoded xs)))
encoded (other_name s ∷ xs) = String.◌∷◌ "o" (String.◌∷◌ "o" (dotted s (encoded xs)))

abbrev read_pair : Char → Char → String × List GeneralName → String × List GeneralName
read_pair m c (s, xs) =
    if code m == 46
    then (String.◌∷◌ c s, xs)
    else if code m == 100
    then (String.[], dns_name s ∷ xs)
    else if code m == 105
    then (String.[], ip_address s ∷ xs)
    else (String.[], other_name s ∷ xs)

decoded : String → String × List GeneralName
decoded String.[] = (String.[], [])
decoded (String.◌∷◌ m String.[]) = (String.[], [])
decoded (String.◌∷◌ m (String.◌∷◌ c s)) = read_pair m c (decoded s)

decoded-dotted :
    (s rest : String) (xs : List GeneralName)
    → decoded rest ≡ (String.[], xs)
    → decoded (dotted s rest) ≡ (s, xs)
unfolding decoded dotted nat_eq
decoded-dotted String.[] rest xs h = h
decoded-dotted (String.◌∷◌ c s) rest xs h = ap (read_pair "." c) (decoded-dotted s rest xs h)

decoded-encoded : (xs : List GeneralName) → decoded (encoded xs) ≡ (String.[], xs)
unfolding decoded encoded nat_eq
decoded-encoded [] = refl
decoded-encoded (dns_name s ∷ xs) =
    ap (read_pair "d" "d") (decoded-dotted s (encoded xs) xs (decoded-encoded xs))
decoded-encoded (ip_address s ∷ xs) =
    ap (read_pair "i" "i") (decoded-dotted s (encoded xs) xs (decoded-encoded xs))
decoded-encoded (other_name s ∷ xs) =
    ap (read_pair "o" "o") (decoded-dotted s (encoded xs) xs (decoded-encoded xs))

abbrev Certificate : Type 0
Certificate = String × List GeneralName

abbrev of_names : List GeneralName → Option Certificate
of_names [] = none
of_names (x ∷ xs) = some (text_of x, xs)

suffixed : String → String → String
suffixed path suffix = if path == "a" then "a.part" else "b.part"

-- A certificate names its key.
abbrev x509 : X509 Certificate String
x509 = record {
  load_pem = λ pem. of_names ((decoded pem).1);
  cert_pem = λ cert. encoded (other_name (cert.0) ∷ cert.1);
  key_pem = λ key. key;
  sign = λ key now sans. (key, sans);
  fingerprint_of = λ cert. cert.0;
  not_after_of = λ cert. "2036";
  names_of = λ cert. some (cert.1);
  ip_of = λ s. if s == "127.0.0.1" then some s else none;
  is_dns = λ s. true;
  with_suffix = suffixed;
}

faithful : IsFaithful x509
faithful = record {
  opens = λ cert.
      ap (λ (r : String × List GeneralName). of_names (r.1))
        (decoded-encoded (other_name (cert.0) ∷ cert.1));
  names = λ key now sans. refl;
}

separate : IsApart x509 "a" "b"
unfolding suffixed string_eq
separate = record {
  cert_key = differ refl;
  cert_key_part = differ refl;
  cert_cert_part = differ refl;
  key_key_part = differ refl;
  key_cert_part = differ refl;
}

abbrev config : NodeConfig
config = record {
  data_dir = "/d";
  host = "h";
  port = pos 62050;
  api_port = pos 62051;
  info_bind = "h";
  tls_cert = "a";
  tls_key = "b";
  registration_hash = "";
  name = "n";
  address = "x, y";
  image = "i";
  allow_insecure_test = false;
}

abbrev signed : List GeneralName
signed =
    dns_name "::1"
    ∷ ip_address "127.0.0.1"
    ∷ dns_name "localhost"
    ∷ dns_name "n"
    ∷ dns_name "x"
    ∷ dns_name "y"
    ∷ []

read : sans_for x509 (names_for config none) ≡ ok signed
unfolding sans_for san_entries entry_of add_guaranteed names_for split_commas prepend stripped
    is_among same_name strip string_eq nat_eq
read = refl

ensure-restart_example :
    let left = run_all (take 3 (ensure x509 "k" (pos 1) none config []).1) [] in
    let (answer, operations) = ensure x509 "l" (pos 2) none config left in
    let files = run_all operations left in
    (k : String) × (t : ℤ) × (names : List GeneralName) × (answer
      ≡ ok (certificate x509 config k t names))
    × IsPair x509 config files k t names
    × (ensure x509 "m" (pos 3) none config files ≡ (answer, []))
ensure-restart_example =
    ensure-restart x509 config [] 3 "k" "l" "m" (pos 1) (pos 2) (pos 3) none none none signed signed
      faithful separate refl read read
