-- ===== src/Security/Replay/Trace.antt =====
-- What a node does with its replay cache over time: calls of `accept`, and restarts of the process,
-- which build a new `ReplayGuard` from the file.
use rc_node.Base.{ℕ, ◌≡◌, ◌∙◌, ◌≢◌, refl, Bool, true, some, String, arith, string_eq, ok}
use rc_node.Base.Int.{ℤ, ◌-ℤ◌, leb_ℤ, ◌≤ℤ◌, pos, -ℤ_parts}
use rc_node.Base.Dict.{lookup, filter_values, lookup-filter_values, lookup-insert}
use rc_node.Security.Replay.{
  ReplayGuard, File, missing, unreadable, init, accept, remember, prune, entries,
}

-- One event at the clock value `now`.
pub data Step (now : ℤ) (g : ReplayGuard) : ReplayGuard → Type 0 where
  request :
      (nonce : String) (timestamp : ℤ) (writable : Bool)
      → Step now g (accept nonce timestamp now writable g).1
  restart : {g' : ReplayGuard} → init g.window g.persistent g.file ≡ ok g' → Step now g g'

-- Any number of events, each at a clock value of at most `until`.
pub data Trace (until : ℤ) (g : ReplayGuard) : ReplayGuard → Type 0 where
  here : Trace until g g
  next :
      {h k : ReplayGuard} {now : ℤ}
      → Trace until g h
      → now ≤ℤ until
      → Step now h k
      → Trace until g k

abbrev InFile : String → ℤ → File → Type 0
InFile nonce timestamp missing = ⊥
InFile nonce timestamp unreadable = ⊥
InFile nonce timestamp (entries d) = lookup nonce d ≡ some timestamp

-- The nonce is on record in memory and on disk.
record Remembers (nonce : String) (timestamp : ℤ) (window : ℕ) (g : ReplayGuard) : Type 0 where
  persists : g.persistent ≡ true
  same_window : g.window ≡ window
  in_memory : lookup nonce g.seen ≡ some timestamp
  on_disk : InFile nonce timestamp g.file

module _ (nonce : String) (timestamp : ℤ) (window : ℕ) where
  prune-Remembers :
      (now : ℤ) (g : ReplayGuard)
      → now -ℤ timestamp ≤ℤ pos window
      → Remembers nonce timestamp window g
      → Remembers nonce timestamp window (prune now g)
  unfolding prune
  prune-Remembers now g recent r =
      let p = λ (ts : ℤ). leb_ℤ (now -ℤ ts) (pos g.window) in
      ground (arith, lookup-filter_values p nonce timestamp g.seen)

  remember-Remembers :
      (other : String) (ts : ℤ) (writable : Bool) (g : ReplayGuard)
      → Remembers nonce timestamp window g
      → Remembers nonce timestamp window (remember other ts writable g).1
  unfolding remember
  remember-Remembers other ts writable g r = ground (arith, lookup-insert nonce other ts g.seen)

  accept-Remembers :
      (other : String) (ts now : ℤ) (writable : Bool) (g : ReplayGuard)
      → now -ℤ timestamp ≤ℤ pos window
      → Remembers nonce timestamp window g
      → Remembers nonce timestamp window (accept other ts now writable g).1
  unfolding accept
  accept-Remembers other ts now writable g recent r =
      ground
        (arith, prune-Remembers now g recent r, remember-Remembers other ts writable (prune now g))

  init-Remembers :
      (g g' : ReplayGuard)
      → Remembers nonce timestamp window g
      → init g.window g.persistent g.file ≡ ok g'
      → Remembers nonce timestamp window g'
  unfolding init
  init-Remembers g g' r e = ground arith

  Step-Remembers :
      {now : ℤ} {g h : ReplayGuard}
      → Step now g h
      → now -ℤ timestamp ≤ℤ pos window
      → Remembers nonce timestamp window g
      → Remembers nonce timestamp window h
  Step-Remembers (request other ts writable) recent r =
      accept-Remembers other ts _ writable _ recent r
  Step-Remembers (restart e) recent r = init-Remembers _ _ r e

  Trace-Remembers :
      {until : ℤ} {g h : ReplayGuard}
      → Trace until g h
      → until -ℤ timestamp ≤ℤ pos window
      → Remembers nonce timestamp window g
      → Remembers nonce timestamp window h
  Trace-Remembers here recent r = r
  Trace-Remembers {until} (next {now = now} t earlier step) recent r =
      Step-Remembers step (omega (arith, -ℤ_parts now timestamp, -ℤ_parts until timestamp))
        (Trace-Remembers t recent r)

  accepted-Remembers :
      (now : ℤ) (writable : Bool) (g : ReplayGuard)
      → g.persistent ≡ true
      → g.window ≡ window
      → (accept nonce timestamp now writable g).0 ≡ ok tt
      → Remembers nonce timestamp window (accept nonce timestamp now writable g).1
  unfolding accept prune remember
  accepted-Remembers now writable g p w e = ground (
    arith,
    lookup-insert nonce nonce timestamp
        (filter_values (λ ts. leb_ℤ (now -ℤ ts) (pos g.window)) g.seen),
  )

  remembered_refused :
      (now : ℤ) (writable : Bool) (g : ReplayGuard)
      → (now -ℤ timestamp ≤ℤ pos window → Remembers nonce timestamp window g)
      → g.window ≡ window
      → (accept nonce timestamp now writable g).0 ≢ ok tt
  unfolding accept remember
  remembered_refused now writable g r w =
      ground (
        arith,
        λ (recent : now -ℤ timestamp ≤ℤ pos window). prune-Remembers now g recent (r recent),
      )

init_window :
    (window : ℕ) (persistent : Bool) (file : File) (g : ReplayGuard)
    → init window persistent file ≡ ok g
    → g.window ≡ window
unfolding init
init_window window persistent file g e = ground arith

Step-window : {now : ℤ} {g h : ReplayGuard} → Step now g h → h.window ≡ g.window
unfolding accept remember prune
Step-window (request nonce ts writable) = ground arith
Step-window {g = g} (restart e) = init_window g.window g.persistent g.file _ e

Trace-window : {until : ℤ} {g h : ReplayGuard} → Trace until g h → h.window ≡ g.window
Trace-window here = refl
Trace-window (next t earlier step) = Step-window step ∙ Trace-window t

-- A guard that persists its cache accepts `nonce` with `timestamp`. Whatever requests and restarts
-- follow, and whichever of their writes fail, the same nonce with the same timestamp is refused at
-- every later call whose clock is not behind the clock of any event in between.
pub replay_refused :
    (nonce : String) (timestamp now until : ℤ) (writable writable' : Bool) (g h : ReplayGuard)
    → g.persistent ≡ true
    → (accept nonce timestamp now writable g).0 ≡ ok tt
    → Trace until (accept nonce timestamp now writable g).1 h
    → (accept nonce timestamp until writable' h).0 ≢ ok tt
replay_refused nonce timestamp now until writable writable' g h p e t =
    remembered_refused nonce timestamp g.window until writable' h
      (λ recent.
        Trace-Remembers nonce timestamp g.window t recent
          (accepted-Remembers nonce timestamp g.window now writable g p refl e))
      (Trace-window t ∙ Step-window {now = now} {g = g} (request nonce timestamp writable))
