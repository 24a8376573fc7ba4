-- ===== src/Queue/Tests.antt =====
-- Two clients at the server.
use network_system_programmi.Prelude.{
  ℕ, true, List, [], ◌∷◌, ◌≤◌, ◌+◌, refl, arith, map, some, ◌≡◌, get_elem?,
}
use network_system_programmi.Prelude.Int.{pos}
use network_system_programmi.Queue.{fresh, server}
use network_system_programmi.Queue.Numbers.{Order, event_of, server-apart}

abbrev first_order : Order
first_order = record { sent = true; pid = 40; len = 3 }

abbrev second_order : Order
second_order = record { sent = true; pid = 41; len = 5 }

abbrev orders : List Order
orders = first_order ∷ second_order ∷ []

server-apart_example :
    (m n : ℕ) × (get_elem? (server fresh (map event_of orders)).0 0
      ≡ some (record { mtype = 40; seq_num = pos m }))
    × (get_elem? (server fresh (map event_of orders)).0 1
        ≡ some (record { mtype = 41; seq_num = pos n }))
    × (m + 3 ≤ n)
server-apart_example =
    server-apart orders 0 1 first_order second_order (omega arith) (omega arith) refl refl refl refl
