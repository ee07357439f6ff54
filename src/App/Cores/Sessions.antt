-- ===== src/App/Cores/Sessions.antt =====
-- The sessions of one core in the answer on online devices.
use rc_node.Base.{
  ◌++◌, string_eq, nat_eq, List, All, err, ◌∷◌, String, ok, Result, [], ◌≡◌, All-append,
}
use rc_node.Base.Dict.{Dict}
use rc_node.Base.Json.{Json, text}
use rc_node.App.Cores.{Readings, set_default, tag_sessions}
use rc_node.App.Cores.Reported.{
  IsIn, IsIn-left, IsIn-last, set_default-IsTagged, IsTracked, IsDevice, HasRaised, HasSession,
}

module _ (readings : Readings) where
  abbrev pub AreDevices : Result (List (Dict String Json)) → Type 0
  AreDevices (err e) = HasRaised readings e
  AreDevices (ok sessions) = All (IsDevice readings) sessions

  pub tag_sessions-AreDevices :
      (core_id : String) (whole found : List (Result (Dict String Json)))
      (sessions : List (Dict String Json))
      → IsTracked readings core_id
      → readings.online_devices core_id ≡ ok whole
      → All (λ p. IsIn p whole) found
      → All (IsDevice readings) sessions
      → AreDevices (tag_sessions core_id found sessions)
  unfolding tag_sessions
  tag_sessions-AreDevices core_id whole [] sessions t e within h = h
  tag_sessions-AreDevices core_id whole (err x ∷ found) sessions t e (here, within) h =
      (core_id, whole, t, e, here)
  tag_sessions-AreDevices core_id whole (ok payload ∷ found) sessions t e (here, within) h =
      tag_sessions-AreDevices core_id whole found
        (sessions ++ set_default "core_id" (text core_id) payload ∷ []) t e within
        (All-append (IsDevice readings) sessions (set_default "core_id" (text core_id) payload ∷ [])
          h ((core_id, whole, payload, t, e, here, set_default-IsTagged core_id payload), tt))

  abbrev pub AreSessions :
      String
      → List (Result (Dict String Json))
      → List (Dict String Json)
      → Result (List (Dict String Json))
      → Type 0
  AreSessions core_id found sessions (err e) = Unit
  AreSessions core_id found sessions (ok sessions') =
      ((d : Dict String Json) → IsIn d sessions → IsIn d sessions')
      × All (HasSession readings sessions' core_id) found

  tagged-AreSessions :
      (core_id : String) (payload : Dict String Json) (found : List (Result (Dict String Json)))
      (sessions : List (Dict String Json)) (r : Result (List (Dict String Json)))
      → AreSessions core_id found (sessions ++ set_default "core_id" (text core_id) payload ∷ []) r
      → AreSessions core_id (ok payload ∷ found) sessions r
  tagged-AreSessions core_id payload found sessions (err e) h = tt
  tagged-AreSessions core_id payload found sessions (ok sessions') (grow, rest) =
      let d = set_default "core_id" (text core_id) payload in
      (
        λ x h. grow x (IsIn-left x sessions (d ∷ []) h),
        ((d, grow d (IsIn-last d sessions), set_default-IsTagged core_id payload), rest),
      )

  pub tag_sessions-AreSessions :
      (core_id : String) (found : List (Result (Dict String Json)))
      (sessions : List (Dict String Json))
      → AreSessions core_id found sessions (tag_sessions core_id found sessions)
  unfolding tag_sessions
  tag_sessions-AreSessions core_id [] sessions = (λ d h. h, tt)
  tag_sessions-AreSessions core_id (err x ∷ found) sessions = tt
  tag_sessions-AreSessions core_id (ok payload ∷ found) sessions =
      let sessions' = sessions ++ set_default "core_id" (text core_id) payload ∷ [] in
      tagged-AreSessions core_id payload found sessions (tag_sessions core_id found sessions')
        (tag_sessions-AreSessions core_id found sessions')
