-- ===== src/Security/Replay.antt =====
-- `ReplayGuard` of node_agent/security.py. The proofs are in the children.
pub mod Accept
pub mod Trace
use rc_node.Base.{
  ℕ, Bool, true, false, ◌&&◌, String, leb, ltb, if◌then◌else◌, Result, Exec, ok, err,
  security_error, os_error, string_eq,
}
use mathlib.Core.List.{[]}
use rc_node.Base.Int.{ℤ, ◌-ℤ◌, leb_ℤ, abs, pos}
use rc_node.Base.Dict.{Dict, insert, has_key, filter_values}
use rc_node.Base.Text.{length, isalnum}

-- `replay.json`. `unreadable` is a file whose reading or decoding raises.
pub data File : Type 0 where
  missing unreadable : File
  entries : Dict String ℤ → File

-- `persistent` says that a root directory was given, so `_path` is not None.
pub record ReplayGuard : Type 0 where
  pub window : ℕ
  pub persistent : Bool
  pub seen : Dict String ℤ
  pub file : File

-- `__init__`
unfoldable pub init : ℕ → Bool → File → Result ReplayGuard
init window false file = ok (record { window = window; persistent = false; seen = []; file = file })
init window true missing =
    ok (record { window = window; persistent = true; seen = []; file = missing })
init window true unreadable = err (security_error "node replay cache is invalid")
init window true (entries d) =
    ok (record { window = window; persistent = true; seen = d; file = entries d })

-- `_write`. The flag says whether the file system takes the write; the file is replaced whole
-- or not at all.
unfoldable pub write : Bool → Exec ReplayGuard Unit
write writable g =
    if g.persistent
    then if writable then (ok tt, record g { file = entries g.seen }) else (err os_error, g)
    else (ok tt, g)

-- The comprehension that drops the entries older than the window.
unfoldable pub prune : ℤ → ReplayGuard → ReplayGuard
prune now g = record g { seen = filter_values (λ ts. leb_ℤ (now -ℤ ts) (pos g.window)) g.seen }

unfoldable pub valid_nonce : String → Bool
valid_nonce nonce = leb 16 (length nonce) && leb (length nonce) 128 && isalnum nonce

-- The part of `accept` under its lock.
unfoldable pub remember : String → ℤ → Bool → Exec ReplayGuard Unit
unfolding write
remember nonce timestamp writable g =
    if has_key nonce g.seen
    then (err (security_error "replayed request nonce"), g)
    else write writable (record g { seen = insert nonce timestamp g.seen })

unfoldable pub accept : String → ℤ → ℤ → Bool → Exec ReplayGuard Unit
unfolding prune remember valid_nonce
accept nonce timestamp now writable g =
    if ltb g.window (abs (now -ℤ timestamp))
    then (err (security_error "request timestamp is outside the replay window"), g)
    else if valid_nonce nonce
    then remember nonce timestamp writable (prune now g)
    else (err (security_error "invalid request nonce"), g)
