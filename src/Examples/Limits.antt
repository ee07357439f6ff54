-- ===== src/Examples/Limits.antt =====
-- A host with one user of one core, and a limiter.
use rc_node.Base.{
  String, ◌≡◌, refl, true, none, some, [], ◌∷◌, string_eq, nat_eq, length, All, ok, err, Error,
  value_error, type_error,
}
use rc_node.Base.Int.{ℤ, pos}
use rc_node.Base.Dict.{Dict}
use rc_node.Base.Text.{int}
use rc_node.Base.Json.{Json, Fields, of_entries, of_elements, truthy}
use rc_node.Base.Json.Json.{text, number, object, array}
use rc_node.Limits.{wanted_by, NodeBandwidthLimiter, init, missing, load, apply, status, desired}
use rc_node.Limits.Users.{
  Host, UserLimit, specs, desired_onto, limit_of, add_cores, add_accounts, int_or_zero,
}
use rc_node.Examples.Data.{armed}
use rc_node.App.Shaping.{Shaper, bandwidth_limits}
use rc_node.App.Shaping.Answers.{IsAnswer, bandwidth_limits-IsAnswer}
use rc_node.Limits.Totality.{apply-raises}
use rc_node.Limits.Sources.{desired-IsOwn, IsOwn}

abbrev host : Host
host = record {
  py = record { other_str = λ v. ""; other_dict = λ v. err type_error };
  list_cores = "wireguard" ∷ [];
  bandwidth_identities =
      λ core_id. some (("acc1", record { inner_sources = "10.0.0.2" ∷ []; uids = [] }) ∷ []);
  ip_of = λ source. some source;
  set_of = λ v. err type_error;
  reconcile = λ interface found. elim found [ err e ↦ err e | ok d ↦ ok (length d, none) ];
  str_error = λ e. "error";
}

abbrev fields : Json → Fields
fields rate = of_entries (
    ("upload_mbps", rate)
    ∷ ("accounts", object (of_entries (("wireguard", array (of_elements (text "acc1" ∷ []))) ∷ [])))
    ∷ [])

abbrev pushed : Json → Dict String Json
pushed rate = ("7", object (fields rate)) ∷ []

abbrev idle : NodeBandwidthLimiter
idle = init "eth0" missing

apply-raises_example :
    let s' = (apply host true (some (pushed (text "fast"))) idle).1 in
    (e' : Error) × ((apply host true (some (pushed (text "fast"))) idle).0 ≡ err e')
    × (status s' ≡ err e')
    × ((apply host true none (load (init "eth0" s'.file))).0 ≡ err e')
unfolding string_eq int_or_zero int
apply-raises_example =
    apply-raises host "7" (fields (text "fast")) (pushed (text "fast"))
      (value_error "invalid literal for int()") idle refl refl

abbrev shaper : Shaper
shaper = record { identity = armed; limiter = idle }

bandwidth_limits-IsAnswer_example :
    let (r, s') = bandwidth_limits host true (pos 3) (pushed (number (pos 20))) shaper in
    IsAnswer (pos 3) shaper.identity (r, s')
    × (s'.limiter.limits ≡ pushed (number (pos 20)))
    × ((load (init "eth0" s'.limiter.file)).limits ≡ pushed (number (pos 20)))
unfolding string_eq int_or_zero specs wanted_by truthy
bandwidth_limits-IsAnswer_example =
    bandwidth_limits-IsAnswer host true (pos 3) (pushed (number (pos 20))) shaper (
      record {
        up = pos 20;
        down = pos 0;
        cores = "wireguard" ∷ [];
        up_read = refl;
        down_read = refl;
        cores_read = refl;
      },
      tt,
    )

abbrev limited : NodeBandwidthLimiter
limited = record idle { limits = pushed (number (pos 20)) }

abbrev user : UserLimit
user = record {
  user_id = pos 7;
  username = "7";
  upload_mbps = 20;
  download_mbps = 0;
  inner_sources = "10.0.0.2" ∷ [];
  ssh_uids = [];
  softether_accounts = [];
}

desired-user : desired host limited ≡ ok ((pos 7, user) ∷ [])
unfolding desired specs desired_onto limit_of int int_or_zero truthy string_eq add_cores
    add_accounts
desired-user = refl

desired-IsOwn_example :
    All
      (λ (e : ℤ × UserLimit). All (IsOwn host limited.limits e.0) e.1.inner_sources)
      ((pos 7, user) ∷ [])
desired-IsOwn_example = desired-IsOwn host limited ((pos 7, user) ∷ []) desired-user
