-- ===== src/App/Roots/Relocated.antt =====
-- The settings of a driver on a node with another core root.
use rc_node.Base.{
  String, ◌≡◌, refl, sym, ap, ◌∙◌, ◌≢◌, inl, inr, Bool, true, false, Option, none, some, [], ◌∷◌,
  arith, if◌then◌else◌, ◌==◌, Bool-cases, Option-cases, string_eq, nat_eq,
}
use rc_node.Base.Json.{Json, text}
use rc_node.Base.Dict.{Dict, lookup, insert, lookup-insert}
use rc_node.App.Roots.{core_root_default, relocation, pass, relocate, node_driver_settings}

-- The first of two values that is there.
abbrev pub or_else : Option Json → Option Json → Option Json
or_else none b = b
or_else (some a) b = some a

-- What the first default of a key that can be moved becomes.
abbrev pub moved : String → String → Dict String Json → Option Json
moved root key [] = none
moved root key ((k, default) ∷ defaults) =
    let rest = moved root key defaults in
    if key == k then or_else (relocation root default) rest else rest

or_else-none : (a : Option Json) → or_else a none ≡ a
or_else-none none = refl
or_else-none (some a) = refl

-- One more default in front of the others.
or_else_cons :
    (same : Bool) (old first rest : Option Json)
    → or_else (or_else old (if same then first else none)) rest
      ≡ or_else old (if same then or_else first rest else rest)
or_else_cons true none first rest = refl
or_else_cons false none first rest = refl
or_else_cons true (some a) first rest = refl
or_else_cons false (some a) first rest = refl

-- One pass of the loop.
lookup-pass :
    (root key k : String) (default : Json) (merged : Dict String Json)
    → lookup key (pass root k default merged)
      ≡ or_else (lookup key merged) (if key == k then relocation root default else none)
unfolding pass
lookup-pass root key k default merged = elim (Option-cases (lookup k merged)) [
  | inr (v, there) ↦ ground (arith, there, or_else-none (lookup key merged))
  | inl fresh ↦ elim (Option-cases (relocation root default)) [
    | inl stays ↦ ground (arith, fresh, stays, or_else-none (lookup key merged))
    | inr (value, moves) ↦
        ground
          (arith, fresh, moves, or_else-none (lookup key merged), lookup-insert key k value merged)
  ]
]

lookup-relocate :
    (root key : String) (defaults merged : Dict String Json)
    → lookup key (relocate root defaults merged)
      ≡ or_else (lookup key merged) (moved root key defaults)
unfolding relocate
lookup-relocate root key [] merged = sym (or_else-none (lookup key merged))
lookup-relocate root key ((k, default) ∷ defaults) merged =
    lookup-relocate root key defaults (pass root k default merged)
    ∙ ap (λ (o : Option Json). or_else o (moved root key defaults))
        (lookup-pass root key k default merged)
    ∙ or_else_cons (key == k) (lookup key merged) (relocation root default)
        (moved root key defaults)

-- A setting of a driver on a node that has another core root: the runtime mode is always "node", a
-- setting that the panel sends stays as it is, and any other one is the first default of its key
-- that lies under the usual root, moved to the other root, and else not there.
pub lookup-node_driver_settings :
    (root key : String) (defaults settings : Dict String Json)
    → root ≢ core_root_default
    → lookup key (node_driver_settings root (some defaults) settings) ≡ (
        if key == "_runtime_mode"
        then some (text "node")
        else or_else (lookup key settings) (moved root key defaults))
unfolding node_driver_settings
lookup-node_driver_settings root key defaults settings differ =
    elim (Bool-cases (root == core_root_default)) [
      | inl same ↦ absurd (ground arith)
      | inr other ↦ rw other (
          lookup-relocate root key defaults (insert "_runtime_mode" (text "node") settings)
          ∙ ground (arith, lookup-insert key "_runtime_mode" (text "node") settings))
    ]
