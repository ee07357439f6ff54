-- ===== src/Examples/InfoApi.antt =====
-- The port without credentials on two nodes that two panels have claimed.
use rc_node.Base.{ℕ, zero, suc, ◌≡◌, refl, false, [], ◌∷◌, arith, string_eq, nat_eq, ok}
use rc_node.Base.Int.{pos}
use rc_node.Base.Json.{Json}
use rc_node.Base.Text.Codes.{codes, utf8}
use rc_node.Security.Identity.{NodeIdentityStore, register}
use rc_node.Config.{NodeConfig}
use rc_node.Tls.{NodeCertificate}
use rc_node.InfoApi.{
  Surroundings, Poll, is_started, waiting, has_ended, start_info_server, await_start,
}
use rc_node.InfoApi.Secrets.{register-AreSame, AreSame}
use rc_node.Examples.Data.{hashes, cipher, cipher-Opens, copies, key, armed, token}

abbrev around : Surroundings
around = record {
  versions = record {
    agent_name = "zagros-node";
    agent_version = "0.3.3";
    api_version = Json.number (pos 1);
  };
  detail = "0";
  pem = λ certificate. ok "pem";
  uptime = Json.number (pos 7);
  list_cores = "xray" ∷ [];
  sorted = λ names. names;
}

abbrev config : NodeConfig
config = record {
  data_dir = "/d";
  host = "h";
  port = pos 62050;
  api_port = pos 62051;
  info_bind = "h";
  tls_cert = "a";
  tls_key = "b";
  registration_hash = "";
  name = "n";
  address = "";
  image = "i";
  allow_insecure_test = false;
}

abbrev certificate : NodeCertificate
certificate = record {
  cert_path = "a";
  key_path = "b";
  fingerprint = "f";
  not_after = "2036";
  sans = [];
}

abbrev second : NodeIdentityStore
second = record armed { local_key = copies 32 3 }

first_registers : (register cipher hashes token "panel-01" key [] (pos 5) armed).0 ≡ ok key
unfolding register codes utf8 string_eq
first_registers = refl

second_registers :
    (register cipher hashes token "panel-02" (copies 32 9) [] (pos 6) second).0 ≡ ok (copies 32 9)
unfolding register codes utf8 string_eq
second_registers = refl

register-AreSame_example :
    AreSame cipher around config certificate
      ((register cipher hashes token "panel-01" key [] (pos 5) armed).1)
      ((register cipher hashes token "panel-02" (copies 32 9) [] (pos 6) second).1)
register-AreSame_example =
    register-AreSame cipher hashes around config certificate token token "panel-01" "panel-02" key
      (copies 32 9) [] [] (pos 5) (pos 6) armed second cipher-Opens refl refl (omega arith)
      (omega arith) first_registers second_registers refl

-- The server starts at the third pass.
abbrev poll : ℕ → Poll
poll zero = waiting
poll (suc zero) = has_ended
poll (suc (suc n)) = is_started

starts : start_info_server config poll ≡ ok tt
unfolding start_info_server await_start
starts = refl
