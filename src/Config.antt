-- ===== src/Config.antt =====
-- node_agent/config.py: the configuration of the agent, read from its environment once at start.
-- The environment is a dict; its texts are in ASCII.
pub mod Ports
use rc_node.Base.{
  value_error, ◌-◌, ◌<◌, String, ◌<>◌, Bool, true, false, ◌&&◌, ◌||◌, not, none, some,
  if◌then◌else◌, ◌==◌, string_eq, nat_eq, length, Result, ok, err,
}
use rc_node.Base.Int.{ℤ, pos, leb_ℤ}
use rc_node.Base.Dict.{Dict, lookup}
use rc_node.Base.Text.{int, is_nonempty}
use rc_node.Base.Text
use rc_node.Base.Text.Trim.{strip, lower}
use rc_node.Base.Text.Decimal.{str_int}

-- `os.environ.get(name, default)`
unfoldable pub environ : String → String → Dict String String → String
environ name default env = elim (lookup name env) [ none ↦ default | some raw ↦ raw ]

-- `_bool`
unfoldable pub bool_of : String → Bool → Dict String String → Bool
unfolding environ
bool_of name default env =
    let raw = environ name "" env in
    let value = lower (strip raw) in
    if is_nonempty raw
    then value == "1" || value == "true" || value == "yes" || value == "on"
    else default

pub record NodeConfig : Type 0 where
  pub data_dir : String
  pub host : String
  pub port : ℤ
  pub api_port : ℤ
  pub info_bind : String
  pub tls_cert : String
  pub tls_key : String
  pub registration_hash : String
  pub name : String
  pub address : String
  pub image : String
  pub allow_insecure_test : Bool

-- `1 <= port <= 65535`
unfoldable pub in_range : ℤ → Bool
in_range port = leb_ℤ (pos 1) port && leb_ℤ port (pos 65535)

-- `port == api_port`
unfoldable pub same_port : ℤ → ℤ → Bool
same_port a b = leb_ℤ a b && leb_ℤ b a

unfoldable pub validate : NodeConfig → Result (Unit {0})
unfolding in_range same_port
validate cfg =
    if not (in_range cfg.port)
    then err (value_error ("ZAGROS_NODE_PORT out of range: " <> str_int cfg.port))
    else if not (in_range cfg.api_port)
    then err (value_error ("ZAGROS_NODE_API_PORT out of range: " <> str_int cfg.api_port))
    else if same_port cfg.port cfg.api_port
    then err (
        value_error (
          "ZAGROS_NODE_PORT and ZAGROS_NODE_API_PORT must differ (both are "
          <> str_int cfg.port
          <> ")"))
    else if is_nonempty cfg.registration_hash && not (Text.length cfg.registration_hash == 64)
    then err (value_error "ZAGROS_NODE_REGISTRATION_HASH must be a 64-char hex sha256")
    else ok tt

-- `cfg.validate()`, then `return cfg`.
validated : NodeConfig → Result NodeConfig
unfolding validate
validated cfg = elim (validate cfg) [ err e ↦ err e | ok _ ↦ ok cfg ]

-- `repr` is Python's function on texts, and `tls_file d f` is `str(Path(d) / "tls" / f)`.
module _ (repr : String → String) (tls_file : String → String → String) where
  -- `_int`
  unfoldable pub int_of : String → ℤ → Dict String String → Result ℤ
  unfolding environ
  int_of name default env =
      let raw = environ name "" env in
      if is_nonempty raw
      then elim (int raw) [
        | none ↦ err (value_error (name <> " must be an integer, got " <> repr raw))
        | some n ↦ ok n
      ]
      else ok default

  -- The fields of `from_env`, with the two that can raise read before.
  unfoldable pub config_with : ℤ → ℤ → Dict String String → NodeConfig
  unfolding environ bool_of
  config_with port api_port env =
      let data_dir = environ "ZAGROS_NODE_DATA" "/var/lib/zagros/node" env in
      record {
        data_dir = data_dir;
        host = environ "ZAGROS_NODE_HOST" "0.0.0.0" env;
        port = port;
        api_port = api_port;
        info_bind = environ "ZAGROS_NODE_INFO_BIND" "0.0.0.0" env;
        tls_cert = environ "ZAGROS_NODE_TLS_CERT" (tls_file data_dir "node.crt") env;
        tls_key = environ "ZAGROS_NODE_TLS_KEY" (tls_file data_dir "node.key") env;
        registration_hash = lower (strip (environ "ZAGROS_NODE_REGISTRATION_HASH" "" env));
        name = strip (environ "ZAGROS_NODE_NAME" "" env);
        address = strip (environ "ZAGROS_NODE_ADDRESS" "" env);
        image = environ "ZAGROS_NODE_IMAGE" "ghcr.io/zagrosgm/zagros-node:latest" env;
        allow_insecure_test = bool_of "ZAGROS_NODE_ALLOW_INSECURE_TEST" false env;
      }

  unfoldable pub from_env : Dict String String → Result NodeConfig
  unfolding validated
  from_env env = elim (int_of "ZAGROS_NODE_PORT" (pos 62050) env) [
    | err e ↦ err e
    | ok port ↦ elim (int_of "ZAGROS_NODE_API_PORT" (pos 62051) env) [
      | err e ↦ err e
      | ok api_port ↦ validated (config_with port api_port env)
    ]
  ]
