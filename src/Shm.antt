-- ===== src/Shm.antt =====
-- Lookup through shared memory and two semaphores: SP_HW12/lookup6.c and SP_HW12/shm_server.c. The
-- processes take turns at their semop calls and at their accesses of the segment. SEM_UNDO acts when
-- a process ends: a client ends between two queries; the end of a process within a call, and of the
-- server, is left out.
pub mod Turns
pub mod Moves
pub mod Runs
pub mod Served
pub mod Orderly
pub mod Exclusion
pub mod Told
pub mod Moving
pub mod Schedule
pub mod Search
pub mod Setup
pub mod Tests
use network_system_programmi.Prelude.{
  ℕ, zero, suc, ◌+◌, ◌-◌, Bool, true, false, Option, none, some, ◌==◌, if◌then◌else◌,
}
use network_system_programmi.Prelude.Bytes.{Bytes, equal, cstr}
use network_system_programmi.Machine.{Outcome, done, exits, fault}
use network_system_programmi.Dict.{
  Answer, Dictrec, Looked, found, notfound, word_of, strcpy, copy_text,
}
use network_system_programmi.Dict.Remote.{missing, answer}

-- What one process can do next: wait, something that C leaves undefined, or a step.
pub data Progress (A : Type 0) : Type 0 where
  blocked undefined : Progress A
  next : A → Progress A

-- The segment, and the values of semaphore 0, `grab` and `release`, and of semaphore 1.
pub record Shared : Type 0 where
  pub shm : Dictrec
  pub mutex : ℕ
  pub work : ℕ

-- Where a client is in lookup: before grab, or behind the call that the name says.
pub data Phase : Type 0 where
  calling holding written alerted answered released : Phase
  returned : Answer → Phase

pub record Client : Type 0 where
  pub sought : Dictrec
  pub phase : Phase

-- strcpy (shm->word, sought->word)
unfoldable pub copy_word : Dictrec → Dictrec → Option Dictrec
copy_word sought shm = elim (strcpy shm.word (word_of sought)) [
  | none ↦ none
  | some w ↦ some (record shm { word = w })
]

unfoldable pub write_word : Shared → Dictrec → Option Dictrec → Progress (Shared × Client)
write_word s q none = undefined
write_word s q (some r) = next (record s { shm = r }, record { sought = q; phase = written })

unfoldable pub take_text : Shared → Option Dictrec → Progress (Shared × Client)
take_text s none = undefined
take_text s (some r) = next (s, record { sought = r; phase = returned found })

-- lookup of lookup6.c behind its first call, up to the next place where another process may come in.
unfoldable pub client_at : Phase → Dictrec → Shared → Progress (Shared × Client)
client_at calling q s =
    if s.mutex == 0
    then blocked
    else next (record s { mutex = s.mutex - 1 }, record { sought = q; phase = holding })
client_at holding q s = write_word s q (copy_word q s.shm)
client_at written q s =
    next (record s { work = s.work + 2 }, record { sought = q; phase = alerted })
client_at alerted q s =
    if s.work == 0 then next (s, record { sought = q; phase = answered }) else blocked
client_at answered q s =
    next (record s { mutex = s.mutex + 1 }, record { sought = q; phase = released })
client_at released q s =
    if equal (cstr s.shm.text) missing
    then next (s, record { sought = q; phase = returned notfound })
    else take_text s (copy_text q s.shm)
client_at (returned a) q s = blocked

-- Where the server is: at the semop `wait`, behind it, at the semop `notify`, or ended.
pub data Serving : Type 0 where
  waiting looking notifying : Serving
  stopped : (status : ℕ) → Serving

unfoldable pub replied : Shared → Outcome Dictrec → Progress (Shared × Serving)
replied s (done r) = next (record s { shm = r }, notifying)
replied s (exits n) = next (s, stopped n)
replied s _ = undefined

-- The server's `for (;;)`.
unfoldable pub server_at : (Dictrec → Looked) → Serving → Shared → Progress (Shared × Serving)
server_at lookup waiting s =
    if s.work == 0 then blocked else next (record s { work = s.work - 1 }, looking)
server_at lookup looking s = replied s (answer (lookup s.shm))
server_at lookup notifying s =
    if s.work == 0 then blocked else next (record s { work = s.work - 1 }, waiting)
server_at lookup (stopped n) s = blocked

-- `undo`: what the end of a client takes off semaphore 1, for its alerts with SEM_UNDO. Behind release its
-- grab and release have made up for each other, so that semaphore 0 is left as it is.
pub record System : Type 0 where
  pub shared : Shared
  pub clients : ℕ → Client
  pub serving : Serving
  pub undo : ℕ → ℕ

-- Who moves: a client in lookup, a client's main that calls lookup with its next record, the server; a
-- client whose process ends.
pub data Event : Type 0 where
  client : ℕ → Event
  call : ℕ → Dictrec → Event
  server : Event
  quit : ℕ → Event

unfoldable pub update : (ℕ → Client) → ℕ → Client → ℕ → Client
update clients i c j = if j == i then c else clients j

unfoldable pub with_client : System → ℕ → Progress (Shared × Client) → Progress System
with_client s i blocked = blocked
with_client s i undefined = undefined
with_client s i (next (t, c)) = next (record s { shared = t; clients = update s.clients i c })

unfoldable pub with_server : System → Progress (Shared × Serving) → Progress System
with_server s blocked = blocked
with_server s undefined = undefined
with_server s (next (t, v)) = next (record s { shared = t; serving = v })

-- Only a client whose last call has returned makes another.
unfoldable pub call_at : Phase → Dictrec → Shared → Progress (Shared × Client)
call_at (returned a) q s = next (s, record { sought = q; phase = calling })
call_at _ q s = blocked

-- What an alert adds to the undo of its client.
abbrev pub alert_of : Phase → ℕ
alert_of written = 2
alert_of _ = 0

abbrev pub counted : (ℕ → ℕ) → ℕ → ℕ → ℕ → ℕ
counted undo i n j = if j == i then undo j + n else undo j

-- The end of a client between two queries: semaphore 1 does not fall below 0. Another client may start
-- under its number.
unfoldable pub quit_at : ℕ → Phase → System → Progress System
quit_at i (returned a) s = next (record s {
  shared = record s.shared { work = s.shared.work - s.undo i };
  undo = λ j. if j == i then 0 else s.undo j;
})
quit_at i _ s = blocked

unfoldable pub step : (Dictrec → Looked) → Event → System → Progress System
step lookup (client i) s =
    with_client (record s { undo = counted s.undo i (alert_of (s.clients i).phase) }) i
      (client_at (s.clients i).phase (s.clients i).sought s.shared)
step lookup (call i q) s = with_client s i (call_at (s.clients i).phase q s.shared)
step lookup server s = with_server s (server_at lookup s.serving s.shared)
step lookup (quit i) s = quit_at i (s.clients i).phase s

-- semctl with SETALL and {1, 0}, and the segment as shmget gives it. No client is in a call: what their
-- last calls returned does not matter.
abbrev pub start : Dictrec → System
start shm = record {
  shared = record { shm = shm; mutex = 1; work = 0 };
  clients = λ i. record { sought = shm; phase = returned notfound };
  serving = waiting;
  undo = λ i. 0;
}
