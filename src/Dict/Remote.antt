-- ===== src/Dict/Remote.antt =====
-- Lookup over sockets: the servers SP_HW11/part1/usock_server.c, SP_HW11/part2/isock_server.c and
-- SP_HW11/part3/udp_server.c, and the clients' lookup7.c, lookup8.c and lookup9.c beside them. One
-- send arrives as one receive of the whole record.
pub mod Agrees
use network_system_programmi.Prelude.{
  ℕ, zero, suc, ◌+◌, Bool, true, false, List, [], ◌∷◌, Option, none, some, ◌==◌, ltb, if◌then◌else◌,
  length,
}
use network_system_programmi.Prelude.Bytes.{Bytes, codes, equal, cstr}
use network_system_programmi.Machine.{Outcome, done, exits, fault, bind_outcome}
use network_system_programmi.Dict.{Answer, found, notfound, unavail, Dictrec, Looked, strcpy}

-- The text by which a server says that a word is not there.
abbrev pub missing : Bytes
missing = codes "XXXX"

unfoldable pub marked : Dictrec → Option Bytes → Outcome Dictrec
marked r none = fault
marked r (some t) = done (record r { text = t })

-- The switch on lookup's result, up to the reply that is sent.
unfoldable pub reply : Answer → Dictrec → Outcome Dictrec
reply found r = done r
reply notfound r = marked r (strcpy r.text missing)
reply unavail r = exits 1

unfoldable pub answer : Looked → Outcome Dictrec
answer none = fault
answer (some (a, r)) = reply a r

-- How a server process ends: at the end of the dialogue, by exit, or undefined.
pub data End : Type 0 where
  closed broken : End
  died : (status : ℕ) → End

-- The replies sent so far and the end.
abbrev pub Served : Type 0
Served = List Dictrec × End

unfoldable pub and_then : Dictrec → Bool → Served → Served
and_then r true (rs, e) = (r ∷ rs, e)
and_then r false later = ([], died 1)

-- The switch on lookup's result with its send, and the rest of the loop.
unfoldable pub serve_one : Outcome Dictrec → Bool → Served → Served
unfolding and_then
serve_one (done r) ok later = and_then r ok later
serve_one (exits s) ok later = ([], died s)
serve_one _ ok later = ([], broken)

-- The child's `while (recv (...) > 0)`: the requests of one connection in turn. The `n`-th send
-- succeeds as `sent` says.
unfoldable pub usock_dialogue : (Dictrec → Looked) → (ℕ → Bool) → ℕ → List Dictrec → Served
usock_dialogue lookup sent n [] = ([], closed)
usock_dialogue lookup sent n (q ∷ qs) =
    serve_one (answer (lookup q)) (sent n) (usock_dialogue lookup sent (n + 1) qs)

-- The same loop of the Internet server.
unfoldable pub isock_dialogue : (Dictrec → Looked) → (ℕ → Bool) → ℕ → List Dictrec → Served
isock_dialogue lookup sent n [] = ([], closed)
isock_dialogue lookup sent n (q ∷ qs) =
    serve_one (answer (lookup q)) (sent n) (isock_dialogue lookup sent (n + 1) qs)

-- The UDP server has no end of its own: a failed recvfrom, `none`, is followed by the next one.
-- `closed` is the end of the events.
unfoldable pub udp_loop : (Dictrec → Looked) → (ℕ → Bool) → ℕ → List (Option Dictrec) → Served
udp_loop lookup sent n [] = ([], closed)
udp_loop lookup sent n (none ∷ qs) = udp_loop lookup sent n qs
udp_loop lookup sent n (some q ∷ qs) =
    serve_one (answer (lookup q)) (sent n) (udp_loop lookup sent (n + 1) qs)

-- What recv leaves in `*sought`: it fails, or the server has closed the connection and nothing is
-- written, or a record arrives.
pub data Received : Type 0 where
  failed hung_up : Received
  got : Dictrec → Received

-- Behind recv: `strcmp (sought->text, "XXXX")`.
unfoldable pub judge : Dictrec → Answer × Dictrec
judge r = if equal (cstr r.text) missing then (notfound, r) else (found, r)

unfoldable pub received : Dictrec → Received → Outcome (Answer × Dictrec)
received sought failed = exits 1
received sought hung_up = done (judge sought)
received sought (got r) = done (judge r)

-- What connecting at the first call answers.
pub record Connection : Type 0 where
  pub socket_ok : Bool
  pub connect_ok : Bool

-- sizeof (server.sun_path)
abbrev pub path_max : ℕ
path_max = 108

-- `if (first_time)` of lookup7: the path is copied before anything else.
unfoldable pub connect7 : Connection → Bytes → Bool → Outcome (Unit {0})
connect7 c resource false = done tt
connect7 c resource true =
    if ltb (length resource) path_max
    then (if c.socket_ok then (if c.connect_ok then done tt else exits 1) else exits 1)
    else fault

unfoldable pub lookup7 :
    Connection → Bytes → Bool → Bool → Received → Dictrec → Outcome (Answer × Dictrec)
lookup7 c resource first_time sent r sought =
    bind_outcome (connect7 c resource first_time) (λ u. if sent then received sought r else exits 1)

-- The address is fixed, and `resource` is not read.
unfoldable pub connect8 : Connection → Bool → Outcome (Unit {0})
connect8 c false = done tt
connect8 c true = if c.socket_ok then (if c.connect_ok then done tt else exits 1) else exits 1

unfoldable pub lookup8 : Connection → Bool → Bool → Received → Dictrec → Outcome (Answer × Dictrec)
lookup8 c first_time sent r sought =
    bind_outcome (connect8 c first_time) (λ u. if sent then received sought r else exits 1)

-- With datagrams there is no connection.
unfoldable pub open9 : Bool → Bool → Outcome (Unit {0})
open9 socket_ok false = done tt
open9 socket_ok true = if socket_ok then done tt else exits 1

unfoldable pub lookup9 : Bool → Bool → Bool → Received → Dictrec → Outcome (Answer × Dictrec)
lookup9 socket_ok first_time sent r sought =
    bind_outcome (open9 socket_ok first_time) (λ u. if sent then received sought r else exits 1)
