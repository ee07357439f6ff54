-- ===== src/App/Auth/Replays.antt =====
-- A captured command cannot be used again.
use rc_node.Security.Replay.Trace.{replay_refused, Trace}
use rc_node.App.Auth.Outcome.{sound}
use rc_node.App.Auth.{signed_request, credentials, Agent, Credentials, Request}
use rc_node.Base.Int.{ℤ}
use rc_node.Security.Signature.{Hashes}
use rc_node.Security.Cipher.{Cipher}
use rc_node.Base.{String, ◌≡◌, ◌≢◌, Bool, true, some, string_eq, nat_eq, ok}

-- A request that `signed_request` let through, on a node that persists its replay cache. Whatever
-- requests and restarts follow, any request with the same nonce and timestamp headers is refused
-- at every later call whose clock is not behind that of any event in between, and whatever the
-- identity has become.
pub captured_request_refused :
    (cipher : Cipher) (hashes : Hashes) (r r' : Request) (c c' : Credentials) (now until : ℤ)
    (writable writable' : Bool) (a b : Agent) (node node' : String)
    → a.replays.persistent ≡ true
    → credentials r ≡ some c
    → credentials r' ≡ some c'
    → c.nonce ≡ c'.nonce
    → c.timestamp ≡ c'.timestamp
    → (signed_request cipher hashes r now writable a).0 ≡ ok node
    → Trace until (signed_request cipher hashes r now writable a).1.replays b.replays
    → (signed_request cipher hashes r' until writable' b).0 ≢ ok node'
captured_request_refused cipher hashes r r' c c' now until writable writable' a b node node' p e e'
      n t h trace h' =
    let (first, effect) = sound cipher hashes r now writable a node h in
    let second = (sound cipher hashes r' until writable' b node' h').0 in
    let c_eq : first.sent ≡ c = cc (first.present, e) in
    let c'_eq : second.sent ≡ c' = cc (second.present, e') in
    let nonce_eq : second.sent.nonce ≡ first.sent.nonce = cc in
    let time_eq : second.timestamp ≡ first.timestamp = cc (first.numeric, second.numeric) in
    replay_refused first.sent.nonce first.timestamp now until writable writable' a.replays b.replays
      p first.unseen (rw effect at trace) (rw (nonce_eq, time_eq) at second.unseen)
