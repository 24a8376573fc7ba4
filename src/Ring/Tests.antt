-- ===== src/Ring/Tests.antt =====
-- Runs of the ring with one and two consumers, and the theorems at them.
use network_system_programmi.Prelude.{
  ℕ, true, List, [], ◌∷◌, Option, none, some, ◌≡◌, ◌+◌, ◌*◌, ◌≤◌, refl, arith,
}
use network_system_programmi.Prelude.Bytes.{decimal}
use network_system_programmi.Prelude.Int.{pos}
use network_system_programmi.Ring.{
  Slot, waiting, Consumer, sending, finished, message, System, Sizes, Event, produce, handle,
  increment, next, step, produce_at, store, send, queue, handle_at, compare_slot, increment_at,
  in_int,
}
use network_system_programmi.Ring.Slots.{Written}
use network_system_programmi.Ring.Counts.{waiting_for}
use network_system_programmi.Ring.Reached.{start, run}
use network_system_programmi.Ring.Within.{IsIntSized, run_bounds}
use network_system_programmi.Ring.Handled.{Decided, handle-Decided}
use network_system_programmi.Ring.Prompt.{prompt, run-prompt}

abbrev sizes : Sizes
sizes = record { m = 2; n = 2; b = 1 }

abbrev ring : List Slot
ring = record { msg_num = pos 0; buf = [] } ∷ []

-- The first message for both consumers.
abbrev sent : List Event
sent = produce true ∷ produce true ∷ produce true ∷ produce true ∷ []

-- Both handlers read the counter before one of them writes it.
abbrev overlapping : List Event
overlapping =
    produce true
    ∷ produce true
    ∷ produce true
    ∷ produce true
    ∷ handle 0
    ∷ handle 1
    ∷ increment 0
    ∷ increment 1
    ∷ []

sizes-IsIntSized : IsIntSized sizes
sizes-IsIntSized = record { messages = omega arith; staff = omega arith; total = omega arith }

run_bounds_example :
    (s : System) × (run sizes overlapping (start sizes ring) ≡ some s)
    × (s.cnt + s.loss_cnt + waiting_for s.consumers ≤ 2 * 2)
run_bounds_example = run_bounds sizes overlapping ring (omega arith) sizes-IsIntSized refl

abbrev count_of : Option System → ℕ
count_of none = 0
count_of (some s) = s.cnt

-- Two messages are handled and one is counted.
overlapping_count : count_of (run sizes overlapping (start sizes ring)) ≡ 1
unfolding run start step produce_at store send queue handle_at compare_slot increment_at in_int
overlapping_count = refl

-- The second message is in the slot before the first is handled.
abbrev late : List Event
late =
    produce true
    ∷ produce true
    ∷ produce true
    ∷ produce true
    ∷ produce true
    ∷ produce true
    ∷ produce true
    ∷ []

abbrev behind : Consumer
behind = record { pending = 0 ∷ []; doing = waiting }

abbrev reached : System
reached = record {
  shmp = record { msg_num = pos 1; buf = message 1 } ∷ [];
  cnt = 0;
  loss_cnt = 0;
  consumers = behind ∷ behind ∷ [];
  phase = sending 1 0;
}

run-late : run sizes late (start sizes ring) ≡ some reached
unfolding run start step produce_at store send queue in_int decimal
run-late = refl

handle-Decided_example :
    (w : ℕ) × Written 2 reached.phase w
    × (t : System) × (step sizes (handle 0) reached ≡ next t)
    × Decided sizes 0 0 w reached t
handle-Decided_example =
    handle-Decided sizes late ring reached 0 0 [] behind (omega arith) refl run-late refl refl refl

run-prompt_example :
    (s : System) × (run sizes (prompt sizes) (start sizes ring) ≡ some s)
    × (s.phase ≡ finished)
    × (s.cnt ≡ 4)
    × (s.loss_cnt ≡ 0)
run-prompt_example = run-prompt sizes ring (omega arith) sizes-IsIntSized refl
