-- ===== src/Pingpong/Tests.antt =====
-- A round of signals.
use network_system_programmi.Prelude.{◌+◌, true, false, List, [], ◌∷◌, ◌≡◌, ◌⊎◌, refl}
use network_system_programmi.Pingpong.{
  pinging, listening, System, Event, child_moves, parent_moves, next, child_at, parent_at, step,
  start,
}
use network_system_programmi.Pingpong.Turns.{InTurn, Over, CanMove, left}
use network_system_programmi.Pingpong.Rounds.{run, steps_taken, run-turns}

-- The parent is too early once and has to wait.
abbrev one_round : List Event
one_round =
    parent_moves true
    ∷ child_moves true
    ∷ parent_moves true
    ∷ parent_moves true
    ∷ child_moves true
    ∷ []

abbrev after_round : System
after_round = record {
  child = pinging 1;
  parent = listening 1;
  child_pending = false;
  parent_pending = false;
}

run_round : run 2 one_round start ≡ next after_round
unfolding run start step child_at parent_at
run_round = refl

run-turns_example :
    InTurn 2 after_round
    × (steps_taken 2 one_round start + left 2 after_round ≡ 10)
    × ((Over after_round × (steps_taken 2 one_round start ≡ 10)) ⊎ CanMove 2 after_round)
run-turns_example = run-turns 2 one_round after_round run_round
