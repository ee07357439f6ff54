-- ===== src/Examples/Config.antt =====
-- An environment with one port.
use rc_node.Base.{String, ◌<>◌, ◌≡◌, refl, ◌↔◌, [], ◌∷◌, string_eq, nat_eq, ok}
use rc_node.Base.Int.{ℤ, pos}
use rc_node.Base.Dict.{Dict}
use rc_node.Base.Text.{int}
use rc_node.Config.{from_env, int_of, config_with, environ, bool_of}
use rc_node.Config.Ports.{IsValid, from_env-ok_iff}
use rc_node.Base.Text.Trim.{strip, lower}

quote : String → String
quote s = "'" <> s <> "'"

file_of : String → String → String
file_of d f = d <> "/tls/" <> f

abbrev env : Dict String String
env = ("ZAGROS_NODE_PORT", " 8443 ") ∷ []

from_env-ok_iff_example :
    (from_env quote file_of env ≡ ok (config_with quote file_of (pos 8443) (pos 62051) env)) ↔ (
      (port : ℤ) × (api_port : ℤ) × (int_of quote file_of "ZAGROS_NODE_PORT" (pos 62050) env
        ≡ ok port)
      × (int_of quote file_of "ZAGROS_NODE_API_PORT" (pos 62051) env ≡ ok api_port)
      × (config_with quote file_of (pos 8443) (pos 62051) env
          ≡ config_with quote file_of port api_port env)
      × IsValid (config_with quote file_of (pos 8443) (pos 62051) env))
from_env-ok_iff_example =
    from_env-ok_iff quote file_of env (config_with quote file_of (pos 8443) (pos 62051) env)

-- The configuration is accepted.
starts_up : from_env quote file_of env ≡ ok (config_with quote file_of (pos 8443) (pos 62051) env)
unfolding from_env int_of config_with environ int bool_of strip lower string_eq
starts_up = refl
