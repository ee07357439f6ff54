-- ===== src/Lib.antt =====
-- The node agent of node_agent/, which a panel pairs with and then controls by signed requests.
--
-- The parts of the program, and the files that model them:
--   * node_agent/security.py, `ReplayGuard`: Security/Replay.antt. `init` is `__init__`, `write` is
--     `_write`, `accept` is `accept` in three parts (`prune`, `valid_nonce`, `remember`). The guard
--     carries its file, so a restart is `init` on that file.
--   * node_agent/security.py, `body_hash` to `verify_signature`: Security/Signature.antt, with the
--     functions of the same names. SHA-256 and HMAC-SHA256 are the record `Hashes` of parameters.
--   * node_agent/security.py, `NodeIdentityStore`: Security/Identity.antt. `init` is `__init__`;
--     `register`, `revoke`, `reset_registration`, `signing_key`, `audit` and `audit_tail` have
--     their own names. `SecretsCipher`, which the agent takes from the vendored panel tree, is the
--     record `Cipher` of parameters (Security/Cipher.antt), and what the agent relies on is `Opens`.
--   * node_agent/jobs.py: Jobs.antt. `submit`, `get`, `active_for` and `recent` have their own
--     names, `remember` is `_remember`, and `_run` is `run_start` up to its await and `run_finish`
--     behind it. Jobs/Steps.antt lists the steps of the event loop in any order.
--   * node_agent/app.py, `signed_request`: App/Auth.antt, which puts the identity and the replay
--     guard together; `register`, `revoke` and `audit`, the endpoints: App/Pairing.antt.
--   * node_agent/app.py, `_authorize_core` and `_mask_settings`: App/Settings.antt, over the record
--     `Host` of the drivers and the paths of the host.
--   * node_agent/app.py, `core_accounts`, `_to_user_account` and `restore_accounts`:
--     App/Accounts.antt, over the accounts store and the record `Drivers` of the cores' drivers.
--   * node_agent/app.py, `_materialize_xray_tls`: App/Uploads.antt has its checks of the uploads,
--     App/Material.antt the walk through the document and the writes; `core_inbounds`, the endpoint:
--     App/Inbounds.antt, over the record `Studio` of the core manager, which writes files too.
--   * node_agent/app.py, `_save_usage_baselines` and `restore_usage_baselines`: App/Usage.antt, where
--     `stored_baselines` is the first loop of the latter; `runtime_usage` and `_capable_drivers`:
--     App/Telemetry.antt, over the record `Meters` of the drivers.
--   * node_agent/app.py, `core_lifecycle`, `list_jobs` and `job_status`: App/Lifecycle.antt, on top of
--     the jobs. `request` is the endpoint up to its loop, `watch` the loop, `answered` the part behind
--     it, `execute` the coroutine of the job, and `run_job` the task that runs it.
--   * node_agent/app.py, `core_identity`: App/Adoption.antt; `bandwidth_limits` and `bandwidth_status`:
--     App/Shaping.antt; `_node_driver_settings`: App/Roots.antt.
--   * node_agent/app.py, the endpoints that read the cores, `runtime_devices`, `health` and
--     `_node_info`, which is `detailed_info`: App/Cores.antt.
--   * node_agent/app.py, `core_settings_update`: App/Patch.antt, which puts the settings policy and
--     the state store together.
--   * node_agent/config.py: Config.antt. `int_of` and `bool_of` are `_int` and `_bool`, and
--     `from_env` and `validate` have their own names.
--   * node_agent/state.py: State.antt. `init` is `__init__`, `read` and `write` are `_read` and
--     `_write`, `load` is `load` with `_load_and_migrate`; `save_state` and `remove` have their own
--     names. The cipher is that of Security/Cipher.antt; random nonces are an argument.
--   * node_agent/accounts_store.py: Accounts.antt. `stem` is `_path`, `merge` the incremental branch
--     of `store`; `store`, `load`, `forget` and `all` have their own names.
--   * node_agent/limits.py: Limits/Users.antt has `identities`, which is `_identities`, and the loop
--     of `_desired`; Limits.antt has the limiter, its file, `apply` and `status`. The drivers and the
--     panel's library are the record `Host` of parameters.
--   * node_agent/ip_limits.py: IpLimits.antt has `managed_ports` and `script`, which is `_script` with
--     the text of IpLimits/Ruleset.antt;
--     IpLimits/Nft.antt has `apply`, `drop_conntrack` and `terminate`, over the record `Commands`.
--     `apply_ip_bans` of node_agent/app.py, the endpoint: App/Bans.antt.
--   * node_agent/cli.py: Cli.antt, with the commands by their own names, over the files of a node.
--   * node_agent/info_api.py: InfoApi.antt, with the endpoints by their own names; `detailed` is
--     `_detailed`, and `await_start` the loop of `start_info_server`.
--   * node_agent/tls.py: Tls.antt. `san_entries` is `_san_entries`, `describe_sans` is
--     `_describe_sans`, and `generate` and `ensure` have their own names; they give the file operations
--     that they do, in order. The certificate library is the record `X509` of parameters.
--   * node_agent/compat.py, `mark_for_user` and `marks_for_user`: Compat.antt.
--   * Base.antt and its children: exceptions as values, dicts as association lists in insertion
--     order, integers, texts as lists of code points, Python's `int()`, base64, bits of numbers.
--   * Examples.antt: concrete runs.
--
-- The endpoints reach the state through `signed_request`, which reads the identity, checks the
-- signature and enters the nonce in the replay guard; `register` writes the identity without it.
-- The clock, the random bytes, the success of a write of a file and the ids of jobs are arguments; the
-- baselines of the counters, which are written in place, may also be cut off by a failed write.
-- A file of JSON is the value that it decodes to, with its objects as dicts; a `set` is a list.
-- Numbers are unbounded, as Python's are. `decimal` runs on fuel: n + 1 steps of division by ten are
-- enough for n.
--
-- Not modelled: the failure of writes to the identity file, the audit log and the certificate
-- directory, file modes other than those of the uploads, threads inside one call (the code holds a
-- lock there), the formatting of answers, `_catalog_entry` and `_resources` of app.py, the default interface
-- in limits.py, the parser and the layout of the output of cli.py, the start of the process, and the
-- vendored panel library, which is another project.
pub mod Base
pub mod State
pub mod Accounts
pub mod Limits
pub mod Config
pub mod IpLimits
pub mod Tls
pub mod Cli
pub mod InfoApi
pub mod Security
pub mod Jobs
pub mod Compat
pub mod App
pub mod Examples
