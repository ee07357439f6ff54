-- ===== src/State/Refinement.antt =====
-- The store behaves as a map from cores to what was saved of them.
use rc_node.Base.{String, ◌≡◌, ap, true, List, [], ◌∷◌, string_eq, nat_eq, All, Result, ok}
use rc_node.State.Sealing.{Seals, Cores, Represents, load-Represents}
use rc_node.State.{load, NodeCoreStateStore, CoreRecord}
use rc_node.Base.Dict.{lookup, Dict}
use rc_node.Base.Json.{Json, Coercions}
use rc_node.Security.Cipher.{Cipher}
use rc_node.Security.Signature.{Bytes}
use rc_node.State.Calls.{Call, promise, call, IsOutcome, IsAdmissible, call-Answers}

pub promises : List Call → Cores → Cores
promises [] m = m
promises (c ∷ cs) m = promises cs (promise c m)

module _ (cipher : Cipher) (py : Coercions) (Storable : Dict String Json → Type 0)
    (lawful : Seals cipher Storable) where
  -- The outcomes, and the store behind the last call. A call that has raised does not end the calls.
  pub calls : List Call → NodeCoreStateStore → List (Result (Unit {0})) × NodeCoreStateStore
  calls [] s = ([], s)
  calls (c ∷ cs) s =
      let (r, s') = call cipher py Storable lawful c s in
      let (rs, s'') = calls cs s' in (r ∷ rs, s'')

  abbrev pub AreOutcomes : List Call → List (Result (Unit {0})) → Type 0
  AreOutcomes [] [] = Unit
  AreOutcomes (c ∷ cs) (r ∷ rs) = IsOutcome cipher py Storable lawful c r × AreOutcomes cs rs
  AreOutcomes _ _ = ⊥

  calls-Answers :
      (cs : List Call) (s : NodeCoreStateStore) (m : Cores)
      → All (IsAdmissible cipher py Storable lawful) cs
      → Represents cipher py Storable lawful s m
      → let (rs, s') = calls cs s in
        AreOutcomes cs rs × Represents cipher py Storable lawful s' (promises cs m)
  unfolding promises calls
  calls-Answers [] s m p r = (tt, r)
  calls-Answers (c ∷ cs) s m p r =
      let (e, r') = call-Answers cipher py Storable lawful c s m p.0 r in
      let (es, r'') =
        calls-Answers cs (call cipher py Storable lawful c s).1 (promise c m) p.1 r' in
      ((e, es), r'')

  -- The store implements a map from cores to records, from a file that says what the map says and
  -- over any sequence of saves, removals and loads, whatever nonces it draws and whichever of the
  -- writes fail. A save and a removal raise exactly where their write fails, and a load at most where
  -- its write fails. A load after the calls whose write, if it makes one, succeeds gives each core
  -- the record that the map has for it: that of the last save whose write succeeded, with the
  -- settings of an earlier one where that one brought none, or nothing after such a removal. Settings
  -- that the calls bring are of the kind that decrypts.
  pub calls_refine :
      (cs : List Call) (nonces : String → Bytes) (s : NodeCoreStateStore) (m : Cores)
      → All (IsAdmissible cipher py Storable lawful) cs
      → Represents cipher py Storable lawful s m
      → AreOutcomes cs (calls cs s).0
        × ((value : Dict String CoreRecord) × ((load cipher py nonces true (calls cs s).1).0
              ≡ ok value)
            × ((core_id : String) → lookup core_id value ≡ promises cs m core_id))
  calls_refine cs nonces s m p r =
      let (done, r') = calls-Answers cs s m p r in
      let (s', e, _) =
        load-Represents cipher py Storable lawful nonces (calls cs s).1 (promises cs m) r' in
      (
        done,
        (
          r'.value,
          ap (λ (x : Result (Dict String CoreRecord) × NodeCoreStateStore). x.0) e,
          r'.agrees,
        ),
      )
