-- ===== src/Queue.antt =====
-- The sequence numbers of SP_HW8/46_2: server.c and client.c, over a System V message queue.
pub mod Numbers
pub mod Tests
use network_system_programmi.Prelude.{
  ℕ, zero, suc, ◌+◌, Bool, true, false, List, [], ◌∷◌, ◌++◌, Option, none, some, ◌==◌, ltb,
  if◌then◌else◌,
}
use network_system_programmi.Prelude.Bytes.{Bytes, codes, equal, decimal}
use network_system_programmi.Prelude.Int.{ℤ, pos, negsuc, ◌+ℤ◌}
use network_system_programmi.Libc.{atoi}
use network_system_programmi.Machine.{Outcome, done, exits, fault, bind_outcome}

-- The values of an int.
unfoldable pub in_int : ℤ → Bool
in_int (pos n) = ltb n 2147483648
in_int (negsuc n) = ltb n 2147483648

-- `a + b` for ints: beyond an int it is undefined.
unfoldable pub add_int : ℤ → ℤ → Option ℤ
add_int a b = if in_int (a +ℤ b) then some (a +ℤ b) else none

-- struct request and struct response; the type of a request is 1, that of a response is the pid.
pub record Request : Type 0 where
  pub pid : ℕ
  pub seq_len : ℤ

pub record Response : Type 0 where
  pub mtype : ℕ
  pub seq_num : ℤ

-- What msgrcv gives the server: it fails, or a request; and whether the msgsnd that follows succeeds.
pub data Event : Type 0 where
  failed : Event
  asked : (sent : Bool) → Request → Event

-- How the server stands: at msgrcv with its next number, ended by errExit, or undefined.
pub data Server : Type 0 where
  receiving : ℤ → Server
  died undefined : Server

-- The responses that were sent, in their order, and how the server stands.
unfoldable pub respond : Bool → Response → List Response × Server → List Response × Server
respond true r (rs, s) = (r ∷ rs, s)
respond false r later = later

-- The `for (;;)`. The number is advanced before the response is sent.
unfoldable pub serve : ℤ → List Event → List Response × Server
serve n [] = ([], receiving n)
serve n (failed ∷ es) = ([], died)
serve n (asked sent q ∷ es) = elim (add_int n q.seq_len) [
  | none ↦ ([], undefined)
  | some m ↦ respond sent (record { mtype = q.pid; seq_num = n }) (serve m es)
]

-- msgget for a new queue; where it exists, the queue is opened and the result is not tested.
pub data Opened : Type 0 where
  fresh exists refused : Opened

unfoldable pub server : Opened → List Event → List Response × Server
server refused es = ([], died)
server fresh es = serve (pos 0) es
server exists es = serve (pos 0) es

-- The request of a client, by its arguments.
unfoldable pub request : ℕ → List Bytes → Request
request pid [] = record { pid = pid; seq_len = pos 1 }
request pid (a ∷ args) = record { pid = pid; seq_len = atoi a }

unfoldable pub print_int : ℤ → Bytes
print_int (pos n) = decimal n
print_int (negsuc n) = codes "-" ++ decimal (suc n)

-- What the calls of a client answer: msgget, msgsnd, and msgrcv with its response.
pub record Calls : Type 0 where
  pub get_ok : Bool
  pub send_ok : Bool
  pub answer : Option Response

unfoldable pub exchange : Calls → Outcome Bytes
exchange c =
    if c.send_ok
    then elim c.answer [ none ↦ exits 1 | some r ↦ done (print_int r.seq_num ++ codes "\n") ]
    else exits 1

-- The client, from its arguments behind its name: the request it sends, and what it prints. With
-- "--help" or without a queue it ends before it sends one.
unfoldable pub is_help : List Bytes → Bool
is_help [] = false
is_help (a ∷ args) = equal a (codes "--help")

unfoldable pub client : Calls → ℕ → List Bytes → Outcome (Request × Bytes)
client c pid args =
    if is_help args
    then exits 1
    else (if c.get_ok then bind_outcome (exchange c) (λ s. done (request pid args, s)) else exits 1)
