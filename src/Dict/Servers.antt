-- ===== src/Dict/Servers.antt =====
-- The server programs from their start: SP_HW11/part1/usock_server.c, SP_HW11/part2/isock_server.c
-- and SP_HW11/part3/udp_server.c.
pub mod Children
use network_system_programmi.Prelude.{
  ℕ, zero, suc, ◌+◌, Bool, true, false, List, [], ◌∷◌, Option, none, some, ◌==◌, ltb, if◌then◌else◌,
  length,
}
use network_system_programmi.Prelude.Bytes.{Bytes}
use network_system_programmi.Machine.{Outcome, done, exits, fault, bind_outcome}
use network_system_programmi.Dict.{Dictrec, Looked}
use network_system_programmi.Dict.Remote.{
  End, closed, broken, died, Served, path_max, usock_dialogue, isock_dialogue, udp_loop,
}

-- What the calls that set a socket up answer, and errno where the usage message is printed.
pub record Startup : Type 0 where
  pub errno : ℕ
  pub socket_ok : Bool
  pub option_ok : Bool
  pub bind_ok : Bool
  pub listen_ok : Bool

abbrev pub check : Bool → Outcome (Unit {0}) → Outcome (Unit {0})
check ok next = if ok then next else exits 1

-- The name is copied into the address before bind.
unfoldable pub usock_start : Startup → ℕ → Bytes → Outcome (Unit {0})
usock_start s argc name =
    if argc == 3
    then check s.socket_ok (
        if ltb (length name) path_max then check s.bind_ok (check s.listen_ok (done tt)) else fault)
    else exits s.errno

unfoldable pub isock_start : Startup → ℕ → Outcome (Unit {0})
isock_start s argc =
    if argc == 2
    then check s.socket_ok (check s.option_ok (check s.bind_ok (check s.listen_ok (done tt))))
    else exits 1

unfoldable pub udp_start : Startup → ℕ → Outcome (Unit {0})
udp_start s argc =
    if argc == 2
    then check s.socket_ok (check s.option_ok (check s.bind_ok (done tt)))
    else exits s.errno

-- One round of `for (;;)`: accept fails; or a client is accepted, and fork fails or not. The sends of
-- the child and the requests of its client belong to the connection.
pub data Event : Type 0 where
  not_accepted not_forked : Event
  connected : (sent : ℕ → Bool) → List Dictrec → Event

-- What the children did, in the order of their connections, and how the parent stands: `closed` is
-- waiting for the next connection.
abbrev pub Children : Type 0
Children = List Served × End

unfoldable pub born : Served → Children → Children
born c later = (c ∷ later.0, later.1)

unfoldable pub usock_accept : (Dictrec → Looked) → List Event → Children
usock_accept lookup [] = ([], closed)
usock_accept lookup (not_accepted ∷ es) = ([], died 1)
usock_accept lookup (not_forked ∷ es) = ([], died 1)
usock_accept lookup (connected sent qs ∷ es) =
    born (usock_dialogue lookup sent 0 qs) (usock_accept lookup es)

unfoldable pub isock_accept : (Dictrec → Looked) → List Event → Children
isock_accept lookup [] = ([], closed)
isock_accept lookup (not_accepted ∷ es) = ([], died 1)
isock_accept lookup (not_forked ∷ es) = ([], died 1)
isock_accept lookup (connected sent qs ∷ es) =
    born (isock_dialogue lookup sent 0 qs) (isock_accept lookup es)

unfoldable pub started : Outcome (Unit {0}) → Children → Children
started (done u) run = run
started (exits n) run = ([], died n)
started _ run = ([], broken)

unfoldable pub usock_server : Startup → ℕ → Bytes → (Dictrec → Looked) → List Event → Children
usock_server s argc name lookup es = started (usock_start s argc name) (usock_accept lookup es)

unfoldable pub isock_server : Startup → ℕ → (Dictrec → Looked) → List Event → Children
isock_server s argc lookup es = started (isock_start s argc) (isock_accept lookup es)

unfoldable pub start_served : Outcome (Unit {0}) → Served → Served
start_served (done u) run = run
start_served (exits n) run = ([], died n)
start_served _ run = ([], broken)

-- The UDP server answers by itself, with no child.
unfoldable pub udp_server :
    Startup → ℕ → (Dictrec → Looked) → (ℕ → Bool) → List (Option Dictrec) → Served
udp_server s argc lookup sent qs = start_served (udp_start s argc) (udp_loop lookup sent 0 qs)
