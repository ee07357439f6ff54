-- ===== src/Config/Ports.antt =====
-- Which environments `from_env` accepts.
use rc_node.Base.Text.{nonempty_iff}
use rc_node.Config.{
  config_with, int_of, from_env, validate, validated, NodeConfig, in_range, same_port,
}
use rc_node.Base.{
  inr, inl, Result-cases, ok, String, ◌≡◌, ◌≢◌, ◌↔◌, ◌⊎◌, true, arith, string_eq, nat_eq,
}
use rc_node.Base.Dict.{Dict}
use rc_node.Base.Int.{ℤ, pos, ◌≤ℤ◌}
use rc_node.Base.Text

-- What an agent may be started with.
pub record IsValid (cfg : NodeConfig) : Type 0 where
  pub port_range : (pos 1 ≤ℤ cfg.port) × (cfg.port ≤ℤ pos 65535)
  pub api_port_range : (pos 1 ≤ℤ cfg.api_port) × (cfg.api_port ≤ℤ pos 65535)
  pub ports_differ : cfg.port ≢ cfg.api_port
  pub hash_length : (cfg.registration_hash ≡ "") ⊎ (Text.length cfg.registration_hash ≡ 64)

in_range_iff : (port : ℤ) → (in_range port ≡ true) ↔ ((pos 1 ≤ℤ port) × (port ≤ℤ pos 65535))
unfolding in_range
in_range_iff (pos n) = ground arith
in_range_iff (ℤ.negsuc n) = ground arith

same_port_iff : (a b : ℤ) → (same_port a b ≡ true) ↔ (a ≡ b)
unfolding same_port
same_port_iff (pos m) (pos n) = ground arith
same_port_iff (pos m) (ℤ.negsuc n) = ground arith
same_port_iff (ℤ.negsuc m) (pos n) = ground arith
same_port_iff (ℤ.negsuc m) (ℤ.negsuc n) = ground arith

validate-ok_iff : (cfg : NodeConfig) → (validate cfg ≡ ok tt) ↔ IsValid cfg
unfolding validate
validate-ok_iff cfg =
    let p = in_range_iff cfg.port in
    let q = in_range_iff cfg.api_port in
    let d = same_port_iff cfg.port cfg.api_port in
    let h = nonempty_iff cfg.registration_hash in
    (
      λ e. record {
        port_range = ground arith;
        api_port_range = ground arith;
        ports_differ = λ same. ground arith;
        hash_length = ground arith;
      },
      λ v.
          let a = p.1 v.port_range in
          let b = q.1 v.api_port_range in
          let c : same_port cfg.port cfg.api_port ≢ true = λ s. v.ports_differ (d.0 s) in
          let k = v.hash_length in ground arith,
    )

validated-ok_iff :
    (cfg cfg' : NodeConfig) → (validated cfg ≡ ok cfg') ↔ ((cfg' ≡ cfg) × IsValid cfg')
unfolding validated
validated-ok_iff cfg cfg' = (
  λ h. elim (Result-cases (validate cfg)) [
    | inl (u, e) ↦
        let same : cfg' ≡ cfg = ground arith in (same, rw same ((validate-ok_iff cfg).0 e))
    | inr (x, e) ↦ absurd (ground arith)
  ],
  λ h.
      let v : IsValid cfg = rw h.0 at h.1 in
      let e = (validate-ok_iff cfg).1 v in let same = h.0 in ground arith,
)

module _ (repr : String → String) (tls_file : String → String → String)
    (env : Dict String String) where
  -- `from_env` gives a configuration exactly when both port variables are unset, empty or integers,
  -- and it is the one with these ports and the other variables, the ports lie between 1 and 65535
  -- and differ, and the registration hash is empty or has 64 characters.
  pub from_env-ok_iff :
      (cfg : NodeConfig)
      → (from_env repr tls_file env ≡ ok cfg) ↔ (
          (port : ℤ) × (api_port : ℤ) × (int_of repr tls_file "ZAGROS_NODE_PORT" (pos 62050) env
            ≡ ok port)
          × (int_of repr tls_file "ZAGROS_NODE_API_PORT" (pos 62051) env ≡ ok api_port)
          × (cfg ≡ config_with repr tls_file port api_port env)
          × IsValid cfg)
  unfolding from_env
  from_env-ok_iff cfg = (
    λ h. elim (Result-cases (int_of repr tls_file "ZAGROS_NODE_PORT" (pos 62050) env)) [
      | inr (e, bad) ↦ absurd (ground arith)
      | inl (port, p) ↦
          elim (Result-cases (int_of repr tls_file "ZAGROS_NODE_API_PORT" (pos 62051) env)) [
            | inr (e, bad) ↦ absurd (ground arith)
            | inl (api_port, q) ↦
                let built = config_with repr tls_file port api_port env in
                let (same, valid) = (validated-ok_iff built cfg).0 (ground arith) in
                (port, api_port, p, q, same, valid)
          ]
    ],
    λ (port, api_port, p, q, same, valid).
        let built = config_with repr tls_file port api_port env in
        let e = (validated-ok_iff built cfg).1 (same, valid) in ground arith,
  )
