-- ===== src/Examples/Pushes.antt =====
-- Pushes of accounts to one core, and a start of the agent behind them.
use rc_node.Base.{
  String, ◌≡◌, refl, true, false, List, [], ◌∷◌, arith, if◌then◌else◌, ◌==◌, string_eq, nat_eq, ok,
  err, type_error,
}
use rc_node.Examples.Data.{armed}
use rc_node.Base.Int.{pos}
use rc_node.Accounts.{
  merge, load, store, stem, Account, known_onto, order_onto, keyless, account_key,
}
use rc_node.App.Accounts.{
  restore_accounts, synced, Drivers, Node, AccountsPayload, core_accounts, to_user_account,
  to_user_accounts, account_fields,
}
use rc_node.App.Settings.{unknown, check_paths, Host, authorize_core}
use rc_node.App.Accounts.Restart.{core_accounts-restart, core_accounts-incremental}
use rc_node.Base.Text.Trim.{lower}
use rc_node.Base.Json.{Coercions, truthy}
use rc_node.Base.Json.Json.{text, number}
use rc_node.App.Accounts.Snapshots.{IsRestorable, core_accounts-IsRestorable}
use rc_node.App.Accounts.Replay.{Converges}

abbrev py : Coercions
py = record { other_str = λ v. ""; other_dict = λ v. err type_error }

abbrev host : Host
host = record {
  available_drivers = "wireguard" ∷ [];
  schema_properties = λ core_id. [];
  default_settings = λ core_id. [];
  is_absolute = λ path. false;
  resolve = λ path. [];
  core_root = "/cores";
  repr_sorted = λ names. "[]";
}

-- The accounts of each core, by their ids.
abbrev Tables : Type 0
Tables = String → List String

abbrev drivers : Drivers Tables String
drivers = record {
  list_cores = "wireguard" ∷ [];
  user_account = λ fields. ok fields.account_id;
  sync_accounts =
      λ core_id accounts d. (ok tt, λ other. if other == core_id then accounts else d other);
  str_error = λ e. "error";
  type_name = λ e. "Exception";
}

abbrev held : Tables → String → List String
held d core_id = d core_id

converges : Converges py drivers held
converges = record {
  synced_held = λ core_id accounts d h. ground arith;
  others_held = λ core_id other accounts d differ. ground arith;
}

abbrev account : String → Account
account id =
    ("user_id", number (pos 1))
    ∷ ("username", text "ann")
    ∷ ("account_id", text id)
    ∷ ("protocol", text "wireguard")
    ∷ []

abbrev node : Node Tables
node = record { identity = armed; accounts = record { files = [] }; drivers = λ core_id. [] }

abbrev full : AccountsPayload
full = record { accounts = account "a" ∷ []; replace = true }

empty-IsRestorable : IsRestorable py drivers node.accounts
unfolding load
empty-IsRestorable core_id = tt

core_accounts-IsRestorable_example :
    IsRestorable py drivers
      (core_accounts py drivers lower host (pos 0) true "wireguard" full node).1.accounts
core_accounts-IsRestorable_example =
    core_accounts-IsRestorable py drivers lower host (pos 0) true "wireguard" full node
      empty-IsRestorable

authorized : authorize_core lower host "wireguard" [] ≡ ok tt
unfolding authorize_core string_eq unknown check_paths
authorized = refl

read : to_user_accounts py drivers (account "a" ∷ []) ≡ ok ("a" ∷ [])
unfolding to_user_accounts to_user_account account_fields truthy string_eq
read = refl

core_accounts-restart_example :
    let (answer, s') = core_accounts py drivers lower host (pos 0) true "wireguard" full node in
    let r = restore_accounts py drivers (λ names. names) s'.accounts (λ core_id. []) in
    (answer ≡ ok 1)
    × (held s'.drivers "wireguard" ≡ "a" ∷ [])
    × (r.0 ≡ ok tt)
    × (held r.1 "wireguard" ≡ "a" ∷ [])
    × (let (answer', t) = core_accounts py drivers lower host (pos 0) false "wireguard" full node in
        (answer' ≡ ok 1) × (held t.drivers "wireguard" ≡ "a" ∷ []) × (t.accounts ≡ node.accounts))
unfolding string_eq
core_accounts-restart_example =
    core_accounts-restart lower host py drivers held (λ names. names) (pos 0) "wireguard"
      (account "a" ∷ []) node (λ core_id. []) ("a" ∷ []) converges (λ names x. refl)
      empty-IsRestorable authorized refl read (λ d. refl) refl

-- The node behind that push.
abbrev later : Node Tables
later = (core_accounts py drivers lower host (pos 0) true "wireguard" full node).1

more : to_user_accounts py drivers (account "b" ∷ []) ≡ ok ("b" ∷ [])
unfolding to_user_accounts to_user_account account_fields truthy string_eq
more = refl

both :
    to_user_accounts py drivers (merge py (load "wireguard" later.accounts) (account "b" ∷ []))
    ≡ ok ("a" ∷ "b" ∷ [])
unfolding core_accounts authorize_core string_eq unknown check_paths to_user_accounts
    to_user_account account_fields truthy synced store load merge known_onto order_onto keyless
    account_key stem
both = refl

core_accounts-incremental_example :
    let (answer, s') =
      core_accounts py drivers lower host
        (pos 0)
        true
        "wireguard"
        (record { accounts = account "b" ∷ []; replace = false })
        later in
    let r = restore_accounts py drivers (λ names. names) s'.accounts (λ core_id. []) in
    (answer ≡ ok 1)
    × (held s'.drivers "wireguard" ≡ "b" ∷ [])
    × (r.0 ≡ ok tt)
    × (held r.1 "wireguard" ≡ "a" ∷ "b" ∷ [])
unfolding string_eq
core_accounts-incremental_example =
    core_accounts-incremental lower host py drivers held (λ names. names) (pos 0) "wireguard"
      (account "b" ∷ []) later (λ core_id. []) ("b" ∷ []) ("a" ∷ "b" ∷ []) converges
      (λ names x. refl) core_accounts-IsRestorable_example authorized refl more both (λ d. refl)
      (λ d. refl) refl
