-- ===== src/Websocket/Limits/Overlap.antt =====
-- `connect` waits at `websocket.accept` between its tests and its record of the connection: what
-- connects that wait there at one time can add beyond the capacity.
use metroflow_ai_backend.Common.{
  ℕ, ◌+◌, ◌≤◌, ◌≡◌, true, Option, List, [], ◌∷◌, length, length-append, arith,
}
use metroflow_ai_backend.Websocket.Events.{Domain}
use metroflow_ai_backend.Websocket.Manager.{ConnectionManager, Limits, has_room, admit}
use metroflow_ai_backend.Websocket.Limits.{has_room-lt}

module _ (T : Domain) where
  open T use {Socket, User}

  -- The connects that were tested before any of them was recorded, in the order of their records.
  abbrev pub admit_all : ℕ → List (Socket × Option User) → ConnectionManager T → ConnectionManager T
  admit_all now [] m = m
  admit_all now ((ws, user) ∷ waiting) m = admit_all now waiting (admit T now ws user m)

  length-admit_all :
      (now : ℕ) (waiting : List (Socket × Option User)) (m : ConnectionManager T)
      → length (admit_all now waiting m).active_connections
        ≡ length m.active_connections + length waiting
  unfolding admit
  length-admit_all now [] m = omega arith
  length-admit_all now ((ws, user) ∷ waiting) m =
      let rest = length-admit_all now waiting (admit T now ws user m) in
      let grown = length-append m.active_connections (ws ∷ []) in omega (arith, rest, grown)

  -- Connects that overlap exceed the capacity by less than their number.
  overlap-le :
      (limits : Limits) (now : ℕ) (ws : Socket) (user : Option User)
      (waiting : List (Socket × Option User)) (m : ConnectionManager T)
      → has_room T limits user m ≡ true
      → length (admit_all now ((ws, user) ∷ waiting) m).active_connections
        ≤ limits.max_connections + length waiting
  overlap-le limits now ws user waiting m room =
      let all = length-admit_all now ((ws, user) ∷ waiting) m in
      let free = has_room-lt T limits user m room in omega (arith, all, free)
