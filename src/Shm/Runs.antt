-- ===== src/Shm/Runs.antt =====
-- The systems that come about from the start of the server by steps of some kind.
use network_system_programmi.Prelude.{◌≡◌}
use network_system_programmi.Dict.{Dictrec, Looked}
use network_system_programmi.Shm.{next, System, Event, client, call, server, quit, step, start}
use network_system_programmi.Shm.Turns.{IsQuery}

-- What has to hold of an event: a query that is handed to lookup is one.
abbrev pub IsGiven : Event → Type 0
IsGiven (call i q) = IsQuery q
IsGiven (client i) = Unit
IsGiven server = Unit
IsGiven (quit i) = Unit

-- The same, where no client's process ends.
abbrev pub IsStaying : Event → Type 0
IsStaying (call i q) = IsQuery q
IsStaying (client i) = Unit
IsStaying server = Unit
IsStaying (quit i) = ⊥

-- The systems that can come about from the segment at the start.
pub data Reachable (lookup : Dictrec → Looked) (ok : Event → Type 0) (shm : Dictrec)
    : System → Type 0 where
  initial : Reachable lookup ok shm (start shm)
  moved :
      {s t : System} (e : Event)
      → ok e
      → Reachable lookup ok shm s
      → step lookup e s ≡ next t
      → Reachable lookup ok shm t
