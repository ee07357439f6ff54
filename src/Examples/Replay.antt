-- ===== src/Examples/Replay.antt =====
-- The replay cache at one nonce.
use rc_node.Base.{◌≡◌, refl, ◌≢◌, true, arith, string_eq, nat_eq, All, ok}
use rc_node.Base.Text.{isalnum}
use rc_node.Base.Int.{◌-ℤ◌, pos}
use rc_node.Base.Dict.{NodupKeys, values}
use rc_node.Security.Replay.{accept, init, ReplayGuard}
use rc_node.Security.Replay.Accept.{IsFresh, accept-IsBounded}
use rc_node.Security.Replay.Trace.{Trace, Step, replay_refused}
use rc_node.Examples.Data.{guard, nonce}

accepts : (accept nonce (pos 1000) (pos 1010) true guard).0 ≡ ok tt
unfolding accept isalnum ◌-ℤ◌ string_eq
accepts = refl

abbrev after : ReplayGuard
after = (accept nonce (pos 1000) (pos 1010) true guard).1

-- A restart from the file that the call has written.
restarts : init after.window after.persistent after.file ≡ ok after
unfolding accept isalnum ◌-ℤ◌ string_eq init
restarts = refl

replay_refused_example : (accept nonce (pos 1000) (pos 1200) true after).0 ≢ ok tt
replay_refused_example =
    replay_refused nonce (pos 1000) (pos 1010) (pos 1200) true true guard after refl accepts
      (Trace.next {now = pos 1100} Trace.here (omega arith) (Step.restart restarts))

accept-IsBounded_example :
    NodupKeys (accept nonce (pos 1000) (pos 1010) true guard).1.seen
    × All (IsFresh 300 (pos 1010)) (values (accept nonce (pos 1000) (pos 1010) true guard).1.seen)
accept-IsBounded_example = accept-IsBounded nonce (pos 1000) (pos 1010) true guard tt accepts
